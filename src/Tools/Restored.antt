-- ===== src/Tools/Restored.antt =====
-- tools/benchmark_artifact.py and tools/measure_fake_user_timing.py: the files of the database behind
-- a run of the tools.
use vaulttls.Prelude.{
  bytes_eq→eq, bytes_eq, Bool-cases, ◌≡◌, refl, sym, ap, ◌∙◌, ◌≢◌, ◌⊎◌, inl, inr, false, Option,
  none, some, [], ◌∷◌, arith, Bytes, length,
}
use vaulttls.Errors.{Result, ok}
use vaulttls.Dict
use vaulttls.Tools.Preserve.{
  users_path, state_path, preserve_db_state, copy2, restore, save, Files, rmtree, unlink, FilePath,
  file,
}
use vaulttls.RateLimit.{key_beq_sound, key_beq_refl, key_beq, key_eq}
use vaulttls.Python.Text.{codes, Text}
use vaulttls.Act.{Act}

ne_test : (p q : FilePath) → p ≢ q → key_beq p q ≡ false
ne_test p q h = elim (Bool-cases (key_beq p q)) [
  | inl same ↦ absurd (h (key_beq_sound p q same))
  | inr other ↦ other
]

file-put_self : (p : FilePath) (b : Bytes) (f : Files) → file p (Dict.put key_eq p b f) ≡ some b
unfolding key_eq
file-put_self p b f = Dict.get-put key_eq p p b f ∙ rw (key_beq_refl p) refl

file-put_ne :
    (p q : FilePath) (b : Bytes) (f : Files) → p ≢ q → file q (Dict.put key_eq p b f) ≡ file q f
unfolding key_eq
file-put_ne p q b f h = Dict.get-put key_eq q p b f ∙ rw (ne_test p q h) refl

file-unlink_self : (p : FilePath) (f : Files) → file p (unlink p f) ≡ none
unfolding unlink key_eq
file-unlink_self p f = Dict.get-remove key_eq p p f ∙ rw (key_beq_refl p) refl

pub file-unlink_ne : (p q : FilePath) (f : Files) → p ≢ q → file q (unlink p f) ≡ file q f
unfolding unlink key_eq
file-unlink_ne p q f h = Dict.get-remove key_eq q p f ∙ rw (ne_test p q h) refl

file-rmtree : (dir : Text) (p : FilePath) (f : Files) → p.0 ≢ dir → file p (rmtree dir f) ≡ file p f
unfolding rmtree Dict.get key_eq
file-rmtree dir p [] h = refl
file-rmtree dir p ((q, b) ∷ f) h = elim (Bool-cases (bytes_eq q.0 dir)) [
  | inl inside ↦
      let gone : q.0 ≡ dir = bytes_eq→eq q.0 dir inside in
      let other : q ≢ p = λ e. h (ap (λ (x : FilePath). x.0) (sym e) ∙ gone) in
      rw inside (rw (ne_test q p other) (file-rmtree dir p f h))
  | inr outside ↦ rw outside (elim (Bool-cases (key_beq q p)) [
    | inl same ↦ rw same refl
    | inr other ↦ rw other (file-rmtree dir p f h)
  ])
]

module _ (dir : Text) where
  -- What was copied of a file `p` that held `content`.
  abbrev Kept : FilePath → Option FilePath → Option Bytes → Files → Type 0
  Kept p copy content f =
      ((copy ≡ none) × (content ≡ none))
      ⊎ ((b : Bytes) × (copy ≡ some (dir, p.1)) × (content ≡ some b) × (file (dir, p.1) f ≡ some b))

  save-Kept :
      (p : FilePath) (f : Files)
      → Kept p (save dir p f).0 (file p f) (save dir p f).1
        × ((q : FilePath) → (dir, p.1) ≢ q → file q (save dir p f).1 ≡ file q f)
  unfolding save
  save-Kept p f = go (file p f) refl
    where
      go :
          (o : Option Bytes)
          → file p f ≡ o
          → Kept p (save dir p f).0 (file p f) (save dir p f).1
            × ((q : FilePath) → (dir, p.1) ≢ q → file q (save dir p f).1 ≡ file q f)
      go none e = rw (e, save) (inl (refl, refl), λ q h. refl)
      go (some b) e =
          rw (e, save)
            (
              inr (b, refl, refl, file-put_self (dir, p.1) b f),
              λ q h. file-put_ne (dir, p.1) q b f h,
            )

  -- The file is put back, and no other file changes.
  restore-Kept :
      (p : FilePath) (copy : Option FilePath) (content : Option Bytes) (f : Files)
      → Kept p copy content f
      → (f' : Files) × (restore p copy f ≡ (ok tt, f'))
        × (file p f' ≡ content)
        × ((q : FilePath) → p ≢ q → file q f' ≡ file q f)
  unfolding restore copy2
  restore-Kept p copy content f (inl (c, e)) =
      (unlink p f, rw c refl, file-unlink_self p f ∙ sym e, λ q h. file-unlink_ne p q f h)
  restore-Kept p copy content f (inr (b, c, e, k)) = (
    Dict.put key_eq p b f,
    rw c (rw (k, restore, copy2) refl),
    file-put_self p b f ∙ sym e,
    λ q h. file-put_ne p q b f h,
  )

names_apart : codes "users.json" ≢ codes "server_state.json"
unfolding codes
names_apart e = absurd (omega (arith, ap length e))

-- Whatever a run of the tools does to the files, and whether it returns or raises: behind it the two
-- files of the database are as they were, there or missing, and its outcome is passed on. The backup
-- directory is not the database's, and the run leaves the copies in it alone.
pub preserve_db_state_restores :
    {A : Type 0} (db_dir dir : Text) (body : Act Files A) (files : Files)
    → db_dir ≢ dir
    → ((path : FilePath) (f : Files) → path.0 ≡ dir → file path (body f).1 ≡ file path f)
    → ((preserve_db_state db_dir dir body files).0
        ≡ (body (save dir (state_path db_dir) (save dir (users_path db_dir) files).1).1).0)
      × (file (users_path db_dir) (preserve_db_state db_dir dir body files).1
          ≡ file (users_path db_dir) files)
      × (file (state_path db_dir) (preserve_db_state db_dir dir body files).1
          ≡ file (state_path db_dir) files)
unfolding preserve_db_state
preserve_db_state_restores {A} db_dir dir body files apart leaves =
    let u = users_path db_dir in
    let s = state_path db_dir in
    let (ku, ou) = save-Kept dir u files in
    let f1 = (save dir u files).1 in
    let (ks, os) = save-Kept dir s f1 in
    let f2 = (save dir s f1).1 in
    let f3 = (body f2).1 in
    let cu : (dir, u.1) ≢ s = λ e. apart (sym (ap (λ (x : FilePath). x.0) e)) in
    let cs : (dir, s.1) ≢ u = λ e. apart (sym (ap (λ (x : FilePath). x.0) e)) in
    let us : (dir, s.1) ≢ (dir, u.1) = λ e. names_apart (sym (ap (λ (x : FilePath). x.1) e)) in
    let ku3 =
      carried u (save dir u files).0 (file u files) f1 f3 ku
        (leaves (dir, u.1) f2 refl ∙ os (dir, u.1) us) in
    let ks3 = carried s (save dir s f1).0 (file s f1) f2 f3 ks (leaves (dir, s.1) f2 refl) in
    let (f4, r4, g4, o4) = restore-Kept dir u (save dir u files).0 (file u files) f3 ku3 in
    let us' : u ≢ (dir, s.1) = λ e. apart (ap (λ (x : FilePath). x.0) e) in
    let ks4 = carried s (save dir s f1).0 (file s f1) f3 f4 ks3 (o4 (dir, s.1) us') in
    let (f5, r5, g5, o5) = restore-Kept dir s (save dir s f1).0 (file s f1) f4 ks4 in
    let su : s ≢ u = λ e. names_apart (sym (ap (λ (x : FilePath). x.1) e)) in
    let done : preserve_db_state db_dir dir body files ≡ ((body f2).0, rmtree dir f5) =
      rw r4 (rw r5 refl) in
    (
      ap (λ (x : Result A × Files). x.0) done,
      ap (λ (x : Result A × Files). file u x.1) done ∙ file-rmtree dir u f5 apart ∙ o5 u su ∙ g4,
      ap (λ (x : Result A × Files). file s x.1) done ∙ file-rmtree dir s f5 apart ∙ g5 ∙ ou s cu,
    )
  where
    carried :
        (p : FilePath) (copy : Option FilePath) (content : Option Bytes) (f g : Files)
        → Kept dir p copy content f
        → file (dir, p.1) g ≡ file (dir, p.1) f
        → Kept dir p copy content g
    carried p copy content f g (inl k) e = inl k
    carried p copy content f g (inr (b, c, k, l)) e = inr (b, c, k, e ∙ l)
