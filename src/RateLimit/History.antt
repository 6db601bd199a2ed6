-- ===== src/RateLimit/History.antt =====
-- ratelimit.py: every sequence of attempts and resets, against the list of the attempts that were
-- let through.
use vaulttls.Prelude.{
  ℕ, ◌≤◌, ◌≡◌, refl, ◌∙◌, Bool, true, ◌&&◌, List, [], ◌∷◌, ◌++◌, arith, ltb, if◌then◌else◌, length,
}
use vaulttls.RateLimit.{
  key_beq_sound, limiter, timestamps, reset_key, recent, key_beq, allow_key, RateLimiter, Key,
}
use vaulttls.RateLimit.Window.{
  recent-recent, recent-append, timestamps-reset, length-recent_snoc, timestamps-allow,
  allow_key-answer,
}

-- What the server asks of the limiter: an attempt at a time, and a reset after a login.
pub data Event : Type 0 where
  attempt : Key → ℕ → Event
  success : Key → Event

unfoldable pub step : Event → RateLimiter → Bool × RateLimiter
step (attempt k now) s = allow_key k now s
step (success k) s = (true, reset_key k s)

-- The events with their answers.
unfoldable pub trace : RateLimiter → List Event → List (Event × Bool)
unfolding step
trace s [] = []
trace s (e ∷ es) = (e, (step e s).0) ∷ trace (step e s).1 es

-- The attempts of each key that were let through since its last reset.
abbrev pub note : Event × Bool → (Key → List ℕ) → Key → List ℕ
note (attempt j t, b) g k = if b && key_beq j k then g k ++ (t ∷ []) else g k
note (success j, b) g k = if key_beq j k then [] else g k

abbrev pub granted : (Key → List ℕ) → List (Event × Bool) → Key → List ℕ
granted g [] = g
granted g (p ∷ ps) = granted (note p g) ps

-- The clock does not run backwards, from `now` on.
abbrev pub InOrder : ℕ → List Event → Type 0
InOrder now [] = Unit
InOrder now (attempt k t ∷ es) = (now ≤ t) × InOrder t es
InOrder now (success k ∷ es) = InOrder now es

abbrev pub last_time : ℕ → List Event → ℕ
last_time now [] = now
last_time now (attempt k t ∷ es) = last_time t es
last_time now (success k ∷ es) = last_time now es

-- Each attempt is let through exactly if fewer than `max` of its key's were, inside the window.
abbrev pub IsExact : ℕ → ℕ → (Key → List ℕ) → List (Event × Bool) → Type 0
IsExact w max g [] = Unit
IsExact w max g ((attempt k t, b) ∷ ps) =
    (b ≡ ltb (length (recent w t (g k))) max) × IsExact w max (note (attempt k t, b) g) ps
IsExact w max g ((success k, b) ∷ ps) = IsExact w max (note (success k, b) g) ps

-- The limiter's lists and the attempts let through agree on every window that ends from `now` on.
record Agrees (w max now : ℕ) (s : RateLimiter) (g : Key → List ℕ) : Type 0 where
  window_is : s.window ≡ w
  max_is : s.max ≡ max
  same : (k : Key) (x : ℕ) → now ≤ x → recent w x (timestamps k s) ≡ recent w x (g k)
  bound : (k : Key) (x : ℕ) → now ≤ x → length (recent w x (g k)) ≤ max

module _ (w max now : ℕ) (s : RateLimiter) (g : Key → List ℕ) (h : Agrees w max now s g) where
  answer_lem :
      (j : Key) (t : ℕ) → now ≤ t → (allow_key j t s).0 ≡ ltb (length (recent w t (g j))) max
  answer_lem j t l = cc (allow_key-answer j t s, h.window_is, h.max_is, h.same j t l)

  attempt-same :
      (j : Key) (t : ℕ)
      → now ≤ t
      → (k : Key) (x : ℕ) → t ≤ x
      → recent w x (timestamps k (allow_key j t s).1)
        ≡ recent w x (note (attempt j t, (allow_key j t s).0) g k)
  attempt-same j t l k x m = ground (
    arith,
    timestamps-allow k j s t,
    recent-append w x (recent w t (timestamps j s)) (t ∷ []),
    recent-append w x (g k) (t ∷ []),
    recent-recent w t x (timestamps j s) m,
    h.same j x (omega arith),
    h.same k x (omega arith),
    key_beq_sound j k,
    h.window_is,
  )

  attempt-bound :
      (j : Key) (t : ℕ)
      → now ≤ t
      → (k : Key) (x : ℕ) → t ≤ x
      → length (recent w x (note (attempt j t, (allow_key j t s).0) g k)) ≤ max
  attempt-bound j t l k x m = ground (
    arith,
    answer_lem j t l,
    h.bound k x (omega arith),
    length-recent_snoc w t x (g j) m,
    key_beq_sound j k,
  )

  attempt-Agrees :
      (j : Key) (t : ℕ)
      → now ≤ t
      → Agrees w max t (allow_key j t s).1 (note (attempt j t, (allow_key j t s).0) g)
  attempt-Agrees j t l = record {
    window_is = kept.0 ∙ h.window_is;
    max_is = kept.1 ∙ h.max_is;
    same = attempt-same j t l;
    bound = attempt-bound j t l;
  }
    where
      kept : ((allow_key j t s).1.window ≡ s.window) × ((allow_key j t s).1.max ≡ s.max)
      kept = unfold allow_key in ground arith

  reset-Agrees : (j : Key) → Agrees w max now (reset_key j s) (note (success j, true) g)
  reset-Agrees j = record {
    window_is = unfold reset_key in h.window_is;
    max_is = unfold reset_key in h.max_is;
    same = λ k x l. ground (arith, timestamps-reset k j s, h.same k x l);
    bound = λ k x l. unfold recent in ground (arith, h.bound k x l);
  }

trace-IsExact :
    (w max now : ℕ) (s : RateLimiter) (g : Key → List ℕ) (es : List Event)
    → Agrees w max now s g
    → InOrder now es
    → IsExact w max g (trace s es)
      × ((k : Key) (x : ℕ)
          → last_time now es ≤ x
          → length (recent w x (granted g (trace s es) k)) ≤ max)
unfolding trace step
trace-IsExact w max now s g [] h o = (tt, h.bound)
trace-IsExact w max now s g (attempt j t ∷ es) h (l, o) =
    let (e, b) = trace-IsExact w max t _ _ es (attempt-Agrees w max now s g h j t l) o in
    ((answer_lem w max now s g h j t l, e), b)
trace-IsExact w max now s g (success j ∷ es) h o =
    trace-IsExact w max now _ _ es (reset-Agrees w max now s g h j) o

abbrev pub no_grants : Key → List ℕ
no_grants k = []

start-Agrees : (w max : ℕ) → Agrees w max 0 (limiter w max) no_grants
unfolding vaulttls.Dict.get
start-Agrees w max = record {
  window_is = refl;
  max_is = refl;
  same = λ k x l. unfold timestamps in refl;
  bound = λ k x l. unfold recent in omega arith;
}

-- Over any attempts and resets in the order of the clock, each attempt is let through exactly if
-- fewer than `max` attempts of its key were let through inside its window since the key's last
-- reset.
pub allow-IsExact :
    (w max : ℕ) (es : List Event)
    → InOrder 0 es
    → IsExact w max no_grants (trace (limiter w max) es)
allow-IsExact w max es o =
    (trace-IsExact w max 0 (limiter w max) no_grants es (start-Agrees w max) o).0

-- Over any attempts and resets in the order of the clock, no window, wherever it ends from the last
-- event on, holds more than `max` attempts of one key
-- that were let through since its last reset.
pub allow_bound :
    (w max : ℕ) (es : List Event) (k : Key) (x : ℕ)
    → InOrder 0 es
    → last_time 0 es ≤ x
    → length (recent w x (granted no_grants (trace (limiter w max) es) k)) ≤ max
allow_bound w max es k x o l =
    (trace-IsExact w max 0 (limiter w max) no_grants es (start-Agrees w max) o).1 k x l
