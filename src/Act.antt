-- ===== src/Act.antt =====
-- Methods of Python that change state and may raise: what was written before a raise stays written.
pub mod Gives
use vaulttls.Errors.{Exc, Result, ok, err}
use vaulttls.Prelude.{some, Option, none, refl, ◌≡◌}

abbrev pub Act : Type 0 → Type 0 → Type 0
Act S A = S → Result A × S

module _ {S A : Type 0} where
  abbrev pub pure : A → Act S A
  pure a s = (ok a, s)

  abbrev pub raise : Exc → Act S A
  raise e s = (err e, s)

  -- A call that may raise and changes no state.
  abbrev pub lift : Result A → Act S A
  lift r s = (r, s)

  abbrev pub gets : (S → A) → Act S A
  gets f s = (ok (f s), s)

  -- `try: m except Exception as exc: handler(exc)`
  abbrev pub handled : (Exc → Act S A) → Result A × S → Result A × S
  handled h (ok a, s) = (ok a, s)
  handled h (err e, s) = h e s

  abbrev pub try_except : Act S A → (Exc → Act S A) → Act S A
  try_except m h s = handled h (m s)

module _ {S A B : Type 0} where
  abbrev pub continue : Result A × S → (A → Act S B) → Result B × S
  continue (ok a, s) f = f a s
  continue (err e, s) f = (err e, s)

  infixl 5 ◌>>=◌ ◌>>◌
  abbrev pub ◌>>=◌ : Act S A → (A → Act S B) → Act S B
  ◌>>=◌ m f s = continue (m s) f

  abbrev pub ◌>>◌ : Act S A → Act S B → Act S B
  m >> n = m >>= λ u. n

module _ {S A B : Type 0} where
  -- What a sequence that did not raise has done.
  pub continue-eq_ok :
      (x : Result A × S) (f : A → Act S B) {b : B} {t : S}
      → continue x f ≡ (ok b, t)
      → (a : A) × (s : S) × (x ≡ (ok a, s)) × (f a s ≡ (ok b, t))
  continue-eq_ok (ok a, s) f e = (a, s, refl, e)
  continue-eq_ok (err x, s) f e = cc

  pub lift-eq_ok :
      (r : Result A) (f : A → Act S B) (s : S) {b : B} {t : S}
      → continue (r, s) f ≡ (ok b, t)
      → (a : A) × (r ≡ ok a) × (f a s ≡ (ok b, t))
  lift-eq_ok (ok a) f s e = (a, refl, e)
  lift-eq_ok (err x) f s e = cc

module _ {S A B : Type 0} where
  pub none_after :
      (x : Result A × S) {b : B} {t : S} → continue x (λ u. pure none) ≡ (ok (some b), t) → ⊥
  none_after (ok a, s) e = cc
  none_after (err y, s) e = cc

  -- A `try` whose handler has no result, around a call that changes no state.
  pub try_some :
      (r : Result A) (s : S) (g : A → B) (h : Exc → Act S (Option B)) {b : B} {t : S}
      → ((e : Exc) → h e s ≡ (ok (some b), t) → ⊥)
      → handled h (continue (r, s) (λ a. pure (some (g a)))) ≡ (ok (some b), t)
      → (a : A) × (r ≡ ok a) × (b ≡ g a) × (t ≡ s)
  try_some (ok a) s g h never e = (a, refl, cc, cc)
  try_some (err x) s g h never e = absurd (never x e)

module _ {S A B : Type 0} where
  pub continue_cong :
      (x : Result A × S) (f g : A → Act S B)
      → ((a : A) (s : S) → x ≡ (ok a, s) → f a s ≡ g a s)
      → continue x f ≡ continue x g
  continue_cong (ok a, s) f g h = h a s refl
  continue_cong (err e, s) f g h = refl

module _ {S : Type 0} where
  abbrev pub modify : (S → S) → Act S (Unit {0})
  modify f s = (ok tt, f s)
