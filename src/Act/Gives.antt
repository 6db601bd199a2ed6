-- ===== src/Act/Gives.antt =====
-- Methods that keep a property of the state, whether they return or raise, and what their results
-- are known to be: one rule for each way to build a method.
use vaulttls.Act.{
  err, ok, Act, pure, raise, lift, gets, modify, handled, try_except, continue, ◌>>=◌,
}
use vaulttls.Prelude.{◌≡◌, refl, Bool, true, false, if◌then◌else◌}
use vaulttls.Errors.{Exc, Result}

-- A property of what was returned.
abbrev pub Returned : {A : Type 0} → (A → Type 0) → Result A → Type 0
Returned Q (ok a) = Q a
Returned Q (err e) = Unit

abbrev pub Any : {A : Type 0} → A → Type 0
Any a = Unit

pub record Gives {S A : Type 0} (I : S → Type 0) (Q : A → Type 0) (m : Act S A) : Type 0 where
  pub at : (s : S) → I s → I (m s).1 × Returned Q (m s).0

module _ {S A : Type 0} {I : S → Type 0} {Q : A → Type 0} where
  pub Gives-pure : (a : A) → Q a → Gives I Q (pure a)
  Gives-pure a q = record { at = λ s h. (h, q) }

  pub Gives-raise : (e : Exc) → Gives I Q (raise e)
  Gives-raise e = record { at = λ s h. (h, tt) }

  pub Gives-lift : (r : Result A) → ((a : A) → r ≡ ok a → Q a) → Gives I Q (lift r)
  Gives-lift (ok a) q = record { at = λ s h. (h, q a refl) }
  Gives-lift (err e) q = record { at = λ s h. (h, tt) }

  pub Gives-gets : (f : S → A) → ((s : S) → I s → Q (f s)) → Gives I Q (gets f)
  Gives-gets f q = record { at = λ s h. (h, q s h) }

  pub Gives-if :
      (b : Bool) (m n : Act S A) → Gives I Q m → Gives I Q n → Gives I Q (if b then m else n)
  Gives-if true m n g h = g
  Gives-if false m n g h = h

  handled-Gives :
      (x : Result A × S) (h : Exc → Act S A)
      → I x.1 × Returned Q x.0
      → ((e : Exc) → Gives I Q (h e))
      → I (handled h x).1 × Returned Q (handled h x).0
  handled-Gives (ok a, s) h g k = g
  handled-Gives (err e, s) h g k = (k e).at s g.0

  pub Gives-try_except :
      (m : Act S A) (h : Exc → Act S A)
      → Gives I Q m
      → ((e : Exc) → Gives I Q (h e))
      → Gives I Q (try_except m h)
  Gives-try_except m h g k = record { at = λ s i. handled-Gives (m s) h (g.at s i) k }

module _ {S A B : Type 0} {I : S → Type 0} {Q : B → Type 0} (R : A → Type 0) where
  continue-Gives :
      (x : Result A × S) (f : A → Act S B)
      → I x.1 × Returned R x.0
      → ((a : A) → R a → Gives I Q (f a))
      → I (continue x f).1 × Returned Q (continue x f).0
  continue-Gives (ok a, s) f g k = (k a g.1).at s g.0
  continue-Gives (err e, s) f g k = (g.0, tt)

  pub Gives-bind :
      (m : Act S A) (f : A → Act S B)
      → Gives I R m
      → ((a : A) → R a → Gives I Q (f a))
      → Gives I Q (m >>= f)
  Gives-bind m f g k = record { at = λ s i. continue-Gives (m s) f (g.at s i) k }

module _ {S : Type 0} {I : S → Type 0} where
  pub Gives-modify :
      (f : S → S) → ((s : S) → I s → I (f s)) → Gives I (Any {A = Unit {0}}) (modify f)
  Gives-modify f k = record { at = λ s i. (k s i, tt) }
