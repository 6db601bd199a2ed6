-- ===== src/Storage/Released.antt =====
-- storage.py: a thread that holds the store's lock comes to release it.
use vaulttls.Prelude.{ℕ, ◌≡◌, none}
use vaulttls.Storage.Disk.{Step, set_pc, System, Json, idle}

pub data Steps {V : Type 0} (J : Json V) : System V → System V → Type 0 where
  stop : {s : System V} → Steps J s s
  go : {s t u : System V} → Step J s t → Steps J t u → Steps J s u

-- The thread `i` has released the lock, and no other thread moved.
pub record Released {V : Type 0} (J : Json V) (i : ℕ) (s : System V) : Type 0 where
  pub after : System V
  pub steps : Steps J s after
  pub free : after.lock ≡ none
  pub pc_is : after.pc ≡ set_pc i idle s.pc
