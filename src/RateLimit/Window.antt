-- ===== src/RateLimit/Window.antt =====
-- ratelimit.py: the times inside the window, and what each operation leaves of a key's list.
use vaulttls.Prelude.{
  length-append, ℕ, ◌+◌, ◌≤◌, ◌≡◌, refl, List, [], ◌∷◌, ◌++◌, arith, ltb, if◌then◌else◌, length,
}
use vaulttls.RateLimit.{key_beq, timestamps, reset_key, key_eq, RateLimiter, allow_key, Key, recent}
use vaulttls.Dict.{get-remove, get-put}

pub recent-append :
    (w now : ℕ) (xs ys : List ℕ) → recent w now (xs ++ ys) ≡ recent w now xs ++ recent w now ys
unfolding recent
recent-append w now [] ys = refl
recent-append w now (x ∷ xs) ys = ground (arith, recent-append w now xs ys)

-- What is outside the window now is outside it later.
pub recent-recent :
    (w now later : ℕ) (xs : List ℕ)
    → now ≤ later
    → recent w later (recent w now xs) ≡ recent w later xs
unfolding recent
recent-recent w now later [] h = refl
recent-recent w now later (x ∷ xs) h = ground (arith, recent-recent w now later xs h)

pub length-recent_mono :
    (w now later : ℕ) (xs : List ℕ)
    → now ≤ later
    → length (recent w later xs) ≤ length (recent w now xs)
unfolding recent
length-recent_mono w now later [] h = omega arith
length-recent_mono w now later (x ∷ xs) h = ground (arith, length-recent_mono w now later xs h)

pub length-recent_snoc :
    (w now later : ℕ) (xs : List ℕ)
    → now ≤ later
    → length (recent w later (xs ++ (now ∷ []))) ≤ length (recent w now xs) + 1
length-recent_snoc w now later xs h =
    rw (recent-append, length-append) (omega (arith, length-recent_mono w now later xs h, single))
  where
    single : length (recent w later (now ∷ [])) ≤ 1
    single = unfold recent in ground arith

module _ (k j : Key) (s : RateLimiter) where
  pub timestamps-allow :
      (now : ℕ)
      → timestamps k (allow_key j now s).1 ≡ (
          if key_beq j k
          then (if (allow_key j now s).0
              then recent s.window now (timestamps j s) ++ (now ∷ [])
              else recent s.window now (timestamps j s))
          else timestamps k s)
  unfolding allow_key key_eq
  timestamps-allow now = ground (
    arith,
    get-put key_eq k j (recent s.window now (timestamps j s)) s.history,
    get-put key_eq k j (recent s.window now (timestamps j s) ++ (now ∷ [])) s.history,
  )

  pub timestamps-reset : timestamps k (reset_key j s) ≡ (if key_beq j k then [] else timestamps k s)
  unfolding reset_key timestamps
  timestamps-reset = ground (arith, get-remove key_eq k j s.history)

pub allow_key-answer :
    (k : Key) (now : ℕ) (s : RateLimiter)
    → (allow_key k now s).0 ≡ ltb (length (recent s.window now (timestamps k s))) s.max
unfolding allow_key
allow_key-answer k now s = ground arith
