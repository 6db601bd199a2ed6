-- ===== src/Tests/Tools.antt =====
-- tools/: a campaign of two inputs, and a run that deletes a file of the database.
use vaulttls.Prelude.{ℕ, ◌≡◌, ap, ◌∙◌, ◌≢◌, List, [], ◌∷◌, arith, Bytes}
use vaulttls.Errors.{timed_out, err}
use vaulttls.Tools.Preserve.{Files}
use vaulttls.Tools.Fuzz.{alert}
use vaulttls.Tools.Fuzz.{random_bytes, truncate, mutation, campaign, Tally, Trial}
use vaulttls.Python.Text.{Text}
use vaulttls.Act.{Act}
use vaulttls.Tools.Preserve.{state_path, unlink, file, users_path, preserve_db_state, FilePath}
use vaulttls.Tools.Expected.{total}
use vaulttls.Tools.Restored.{preserve_db_state_restores, file-unlink_ne}
use vaulttls.Tools.Expected.{campaign_lem}

abbrev trials : List Trial
trials = mutation [] (truncate 3) ∷ random_bytes (5 ∷ 2 ∷ []) ∷ []

abbrev no_tally : Tally
no_tally = record { counter = []; unexpected = [] }

abbrev close_seed : Bytes
close_seed = 5 ∷ 2 ∷ 0 ∷ 1 ∷ 120 ∷ []

campaign_lem_example :
    ((campaign alert close_seed trials no_tally).unexpected ≡ [])
    × (total (campaign alert close_seed trials no_tally).counter ≡ 2)
campaign_lem_example = campaign_lem alert close_seed trials no_tally

abbrev db_dir : Text
db_dir = 100 ∷ []

abbrev backup_dir : Text
backup_dir = 116 ∷ []

abbrev two_dirs : Files
two_dirs = (users_path db_dir, 1 ∷ []) ∷ []

-- The users are deleted, and the run raises.
abbrev deleting : Act Files (Unit {0})
deleting files = (err timed_out, unlink (users_path db_dir) files)

dirs_apart : db_dir ≢ backup_dir
dirs_apart e = absurd (omega (arith, ap (λ b. head b) e))
  where
    head : Bytes → ℕ
    head [] = 0
    head (b ∷ bs) = b

deleting_leaves :
    (path : FilePath) (f : Files) → path.0 ≡ backup_dir → file path (deleting f).1 ≡ file path f
deleting_leaves path f e =
    file-unlink_ne (users_path db_dir) path f (λ p. dirs_apart (ap (λ (x : FilePath). x.0) p ∙ e))

preserve_db_state_restores_example :
    ((preserve_db_state db_dir backup_dir deleting two_dirs).0 ≡ err timed_out)
    × (file (users_path db_dir) (preserve_db_state db_dir backup_dir deleting two_dirs).1
        ≡ file (users_path db_dir) two_dirs)
    × (file (state_path db_dir) (preserve_db_state db_dir backup_dir deleting two_dirs).1
        ≡ file (state_path db_dir) two_dirs)
preserve_db_state_restores_example =
    preserve_db_state_restores db_dir backup_dir deleting two_dirs dirs_apart deleting_leaves
