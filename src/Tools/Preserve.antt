-- ===== src/Tools/Preserve.antt =====
-- tools/benchmark_artifact.py and tools/measure_fake_user_timing.py: the context manager that keeps
-- the two files of the database.
use vaulttls.Prelude.{bytes_eq, Option, none, some, [], ◌∷◌, if◌then◌else◌, Bytes}
use vaulttls.Errors.{Class, external, ok, err}
use vaulttls.Dict
use vaulttls.Act.{Act, continue}
use vaulttls.Python.Text.{codes, Text}
use vaulttls.RateLimit.{key_eq}

-- A path is its directory and its name.
abbrev pub FilePath : Type 0
FilePath = Text × Text

abbrev pub Files : Type 0
Files = Dict.Dict FilePath Bytes

abbrev pub file : FilePath → Files → Option Bytes
file path files = Dict.get key_eq path files

-- `shutil.copy2(src, dst)`
unfoldable pub copy2 : FilePath → FilePath → Act Files (Unit {0})
copy2 src dst files = elim (file src files) [
  | none ↦ (err (external Class.other_class (codes "No such file or directory")), files)
  | some content ↦ (ok tt, Dict.put key_eq dst content files)
]

-- `path.unlink()`, where a missing file is passed over.
unfoldable pub unlink : FilePath → Files → Files
unlink path files = Dict.remove key_eq path files

-- `shutil.rmtree(backup_dir)`
unfoldable pub rmtree : Text → Files → Files
rmtree dir [] = []
rmtree dir ((path, content) ∷ files) =
    let rest = rmtree dir files in if bytes_eq path.0 dir then rest else (path, content) ∷ rest

-- A round of the first loop: the copy of the file, if there is a file.
unfoldable pub save : Text → FilePath → Files → Option FilePath × Files
save dir path files = elim (file path files) [
  | none ↦ (none, files)
  | some content ↦ (some (dir, path.1), Dict.put key_eq (dir, path.1) content files)
]

-- A round of the second loop.
unfoldable pub restore : FilePath → Option FilePath → Act Files (Unit {0})
unfolding unlink copy2
restore path none files = (ok tt, unlink path files)
restore path (some src) files = copy2 src path files

abbrev pub users_path : Text → FilePath
users_path db_dir = (db_dir, codes "users.json")

abbrev pub state_path : Text → FilePath
state_path db_dir = (db_dir, codes "server_state.json")

-- `with _preserve_db_state(): body`, with the directory that `mkdtemp` made.
unfoldable pub preserve_db_state : {A : Type 0} → Text → Text → Act Files A → Act Files A
unfolding save restore rmtree
preserve_db_state db_dir backup_dir body files =
    let (users_copy, files1) = save backup_dir (users_path db_dir) files in
    let (state_copy, files2) = save backup_dir (state_path db_dir) files1 in
    let (result, files3) = body files2 in
    continue (restore (users_path db_dir) users_copy files3) (λ u files4.
      continue (restore (state_path db_dir) state_copy files4)
        (λ v files5. (result, rmtree backup_dir files5)))
