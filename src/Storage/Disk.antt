-- ===== src/Storage/Disk.antt =====
-- storage.py: the store's file, its temporary file and its lock, under any interleaving of threads,
-- with calls of the file system that raise.
use vaulttls.Prelude.{
  ℕ, ◌≡◌, Bool, true, false, Option, none, some, List, [], ◌∷◌, ◌++◌, ◌==◌, if◌then◌else◌, Bytes,
}
use vaulttls.Errors.{Exc, Result, ok, err}
use vaulttls.Storage
use vaulttls.Storage.{JsonStore}
use vaulttls.Python.Text.{Text}

-- `json.dump` of a dictionary to a file, and `json.load`.
pub record Json (V : Type 0) : Type 0 where
  pub dump : JsonStore V → Bytes
  pub load : Bytes → Result (JsonStore V)

-- A call of a method of JSONStore.
pub data Op (V : Type 0) : Type 0 where
  get_op exists_op delete_op : Text → Op V
  set_op : Text → V → Op V
  all_op : Op V

pub data Answer (V : Type 0) : Type 0 where
  value_found : Option V → Answer V
  is_there : Bool → Answer V
  everything : JsonStore V → Answer V
  nothing : Answer V

-- Where a thread is: not in a call; in front of `with self._lock`; under the lock, in front of
-- `_read_raw`; in `_write_raw`, with the bytes that it has still to write; at the end of the `with`.
pub data Pc (V : Type 0) : Type 0 where
  idle leaving : Pc V
  entering inside : Op V → Pc V
  writing : Op V → Bytes → Pc V

-- `done` are the calls in the order in which they took effect, and `returned` what they answered,
-- the last one first.
pub record System (V : Type 0) : Type 0 where
  pub file : Bytes
  pub temp : Option Bytes
  pub lock : Option ℕ
  pub pc : ℕ → Pc V
  pub done : List (Op V)
  pub returned : List (Answer V)

module _ {V : Type 0} where
  unfoldable pub mutates : Op V → Bool
  mutates (set_op k v) = true
  mutates (delete_op k) = true
  mutates _ = false

  -- What a call makes of the dictionary that it read.
  unfoldable pub effect : Op V → JsonStore V → JsonStore V
  effect (set_op k v) d = Storage.set k v d
  effect (delete_op k) d = Storage.delete k d
  effect _ d = d

  unfoldable pub answer : Op V → JsonStore V → Answer V
  answer (get_op k) d = value_found (Storage.get k d)
  answer (exists_op k) d = is_there (Storage.exists k d)
  answer all_op d = everything d
  answer _ d = nothing

  -- The store as it promises to be: the calls one after the other on a dictionary.
  unfoldable pub replay : List (Op V) → JsonStore V
  unfolding effect
  replay [] = []
  replay (op ∷ ops) = effect op (replay ops)

  unfoldable pub answers : List (Op V) → List (Answer V)
  unfolding answer replay
  answers [] = []
  answers (op ∷ ops) = answer op (replay ops) ∷ answers ops

  unfoldable pub set_pc : ℕ → Pc V → (ℕ → Pc V) → ℕ → Pc V
  set_pc i p f j = if j == i then p else f j

  -- Under the lock.
  unfoldable pub holds : Pc V → Bool
  holds idle = false
  holds (entering op) = false
  holds _ = true

  pub data Step (J : Json V) (s : System V) : System V → Type 0 where
    call :
        (i : ℕ) (op : Op V)
        → s.pc i ≡ idle
        → Step J s (record s { pc = set_pc i (entering op) s.pc })
    acquire :
        (i : ℕ) (op : Op V)
        → s.pc i ≡ entering op
        → s.lock ≡ none
        → Step J s (record s { lock = some i; pc = set_pc i (inside op) s.pc })
    -- `get`, `exists` and `all` on what they read.
    read_only :
        (i : ℕ) (op : Op V) (d : JsonStore V)
        → s.pc i ≡ inside op
        → mutates op ≡ false
        → J.load s.file ≡ ok d
        → Step J s (record s {
          pc = set_pc i leaving s.pc;
          done = op ∷ s.done;
          returned = answer op d ∷ s.returned;
        })
    -- `_read_raw` and the change of `set` and `delete`, and `open(tmp, "w")`.
    open_temp :
        (i : ℕ) (op : Op V) (d : JsonStore V)
        → s.pc i ≡ inside op
        → mutates op ≡ true
        → J.load s.file ≡ ok d
        → Step J s
            (record s { temp = some []; pc = set_pc i (writing op (J.dump (effect op d))) s.pc })
    -- `_read_raw` raised.
    read_failed :
        (i : ℕ) (op : Op V) (e : Exc)
        → s.pc i ≡ inside op
        → J.load s.file ≡ err e
        → Step J s (record s { pc = set_pc i leaving s.pc })
    -- `open` raised, of the file or of the temporary one.
    open_failed :
        (i : ℕ) (op : Op V)
        → s.pc i ≡ inside op
        → Step J s (record s { pc = set_pc i leaving s.pc })
    -- A part of `json.dump`.
    write_some :
        (i : ℕ) (op : Op V) (part rest w : Bytes)
        → s.pc i ≡ writing op (part ++ rest)
        → s.temp ≡ some w
        → Step J s (record s { temp = some (w ++ part); pc = set_pc i (writing op rest) s.pc })
    -- `json.dump` raised behind what it had written, or, behind all of it, the closing of the file or
    -- `os.replace`: the temporary file stays.
    write_failed :
        (i : ℕ) (op : Op V) (rest : Bytes)
        → s.pc i ≡ writing op rest
        → Step J s (record s { pc = set_pc i leaving s.pc })
    -- `os.replace(tmp, self._path)`
    replace :
        (i : ℕ) (op : Op V) (w : Bytes)
        → s.pc i ≡ writing op []
        → s.temp ≡ some w
        → Step J s (record s {
          file = w;
          temp = none;
          pc = set_pc i leaving s.pc;
          done = op ∷ s.done;
          returned = nothing ∷ s.returned;
        })
    release :
        (i : ℕ) → s.pc i ≡ leaving → Step J s (record s { lock = none; pc = set_pc i idle s.pc })
    -- The process dies: the files stay, and what it had done and answered stays history.
    crash : Step J s (record s { lock = none; pc = λ i. idle })

  -- A new store's file holds the empty dictionary.
  abbrev pub fresh : Json V → System V
  fresh J = record {
    file = J.dump [];
    temp = none;
    lock = none;
    pc = λ i. idle;
    done = [];
    returned = [];
  }

  pub data Reach (J : Json V) : System V → Type 0 where
    start : Reach J (fresh J)
    later : {s t : System V} → Reach J s → Step J s t → Reach J t
