-- ===== src/RateLimit.antt =====
-- ratelimit.py: the sliding-window limiter. Times are whole ticks of the monotonic clock, where the
-- source has floats; `t > now - window` is written without the subtraction.
pub mod Window
pub mod History
use vaulttls.Dict
use vaulttls.Prelude.{
  bytes_eq_refl, bytes_eq→eq, bytes_eq, ℕ, zero, suc, ◌+◌, ◌-◌, ◌*◌, ◌/◌, ◌%◌, ◌^◌, ◌≤◌, ◌<◌, ◌≡◌,
  refl, sym, ap, ◌∙◌, subst, ◌≢◌, ◌↔◌, ◌⊎◌, inl, inr, Bool, true, false, ◌&&◌, ◌||◌, Option, none,
  some, List, [], ◌∷◌, ◌++◌, arith, ltb, leb, ◌==◌, if◌then◌else◌, Bytes, IsBytes, length, take,
  drop,
}
use vaulttls.Python.Text.{Text}
use vaulttls.Dict.{Dict, Eq}
use vaulttls.Python.Hex.{hex}

-- (ip, credential_id_hex)
abbrev pub Key : Type 0
Key = Text × Text

abbrev pub key_beq : Key → Key → Bool
key_beq a b = bytes_eq a.0 b.0 && bytes_eq a.1 b.1

pub key_beq_sound : (a b : Key) → key_beq a b ≡ true → a ≡ b
key_beq_sound (a, b) (c, d) h = ground (arith, bytes_eq→eq a c, bytes_eq→eq b d)

pub key_beq_refl : (a : Key) → key_beq a a ≡ true
key_beq_refl (a, b) = ground (arith, bytes_eq_refl a, bytes_eq_refl b)

unfoldable pub key_eq : Eq Key
key_eq = record { beq = key_beq; beq_sound = key_beq_sound; beq_refl = key_beq_refl }

-- `_window`, `_max` and `_history`.
pub record RateLimiter : Type 0 where
  pub window : ℕ
  pub max : ℕ
  pub history : Dict Key (List ℕ)

-- `RateLimiter(window_s, max_tries)`
abbrev pub limiter : ℕ → ℕ → RateLimiter
limiter window max = record { window = window; max = max; history = [] }

-- `[t for t in timestamps if t > now - window]`
unfoldable pub recent : ℕ → ℕ → List ℕ → List ℕ
recent window now [] = []
recent window now (t ∷ ts) =
    let rest = recent window now ts in if ltb now (t + window) then t ∷ rest else rest

-- `self._history[key]`, where a missing key counts as an empty list.
unfoldable pub timestamps : Key → RateLimiter → List ℕ
unfolding key_eq
timestamps k s = elim (Dict.get key_eq k s.history) [ some ts ↦ ts | none ↦ [] ]

-- The body of `allow` under the lock, for its key and the time that it read.
unfoldable pub allow_key : Key → ℕ → RateLimiter → Bool × RateLimiter
unfolding timestamps recent
allow_key key now s =
    let live = recent s.window now (timestamps key s) in
    if leb s.max (length live)
    then (false, record s { history = Dict.put key_eq key live s.history })
    else (true, record s { history = Dict.put key_eq key (live ++ (now ∷ [])) s.history })

-- `allow(ip, credential_id)`
unfoldable pub allow : Text → Bytes → ℕ → RateLimiter → Bool × RateLimiter
unfolding allow_key
allow ip credential_id now s = allow_key (ip, hex credential_id) now s

unfoldable pub reset_key : Key → RateLimiter → RateLimiter
reset_key key s = record s { history = Dict.remove key_eq key s.history }

-- `reset(ip, credential_id)`
unfoldable pub reset : Text → Bytes → RateLimiter → RateLimiter
unfolding reset_key
reset ip credential_id s = reset_key (ip, hex credential_id) s

abbrev pub rate_limit_window_s : ℕ
rate_limit_window_s = 60

abbrev pub rate_limit_max_tries : ℕ
rate_limit_max_tries = 10

-- `get_limiter()`, with the module's `_limiter`, which the first call makes.
unfoldable pub get_limiter : Option RateLimiter → RateLimiter × Option RateLimiter
get_limiter none = let made = limiter rate_limit_window_s rate_limit_max_tries in (made, some made)
get_limiter (some s) = (s, some s)
