-- ===== src/Session/Near.antt =====
-- server.py: methods that do the same however the bytes still to come are cut up: one rule for each
-- way to build a method.
use vaulttls.Prelude.{
  ℕ, take, ◌++◌, ◌≡◌, refl, sym, subst, Bool, true, false, Option, none, some, List, if◌then◌else◌,
  Bytes,
}
use vaulttls.Errors.{Exc, Result, ok, err}
use vaulttls.Act.{Act, lift, gets, pure, raise, handled, continue, try_except, ◌>>=◌}
use vaulttls.Framing.{Segment}
use vaulttls.Framing
use vaulttls.Session.State.{World, receive, send, sendall, alert}
use vaulttls.Framing.Exact.{total, IsOpen}
use vaulttls.Framing.Cuts.{SameRead, SameRead-recv_frame, same_bytes, same_error}
use vaulttls.Codec.Encode
use vaulttls.Python.Text.{Text}
use vaulttls.Codec.Messages.{alert_fatal}

-- The same outcome, and states that differ in how the bytes still to come are cut up.
pub record Near {A : Type 0} (x x' : Result A × World) : Type 0 where
  pub later : List Segment
  pub is : x' ≡ (x.0, record x.1 { incoming = later })
  pub is_open : IsOpen x.1.incoming
  pub is_open' : IsOpen later
  pub same : total later ≡ total x.1.incoming

pub record Uncut {A : Type 0} (m : Act World A) : Type 0 where
  pub at :
      (w : World) (s : List Segment)
      → IsOpen w.incoming
      → IsOpen s
      → total s ≡ total w.incoming
      → Near (m w) (m (record w { incoming = s }))

module _ {A : Type 0} where
  pub Uncut-pure : (a : A) → Uncut (pure a)
  Uncut-pure a = record {
    at = λ w s o o' t. record { later = s; is = refl; is_open = o; is_open' = o'; same = t };
  }

  pub Uncut-raise : (e : Exc) → Uncut {A = A} (raise e)
  Uncut-raise e = record {
    at = λ w s o o' t. record { later = s; is = refl; is_open = o; is_open' = o'; same = t };
  }

  pub Uncut-if : (b : Bool) (m n : Act World A) → Uncut m → Uncut n → Uncut (if b then m else n)
  Uncut-if true m n g h = g
  Uncut-if false m n g h = h

  handled-Near :
      (x x' : Result A × World) (h : Exc → Act World A)
      → Near x x'
      → ((e : Exc) → Uncut (h e))
      → Near (handled h x) (handled h x')
  handled-Near (ok a, v) x' h n k =
      subst (λ y. Near (ok a, v) (handled h y)) (sym n.is)
        (record {
          later = n.later;
          is = refl;
          is_open = n.is_open;
          is_open' = n.is_open';
          same = n.same;
        })
  handled-Near (err e, v) x' h n k =
      subst (λ y. Near (h e v) (handled h y)) (sym n.is)
        ((k e).at v n.later n.is_open n.is_open' n.same)

  pub Uncut-try_except :
      (m : Act World A) (h : Exc → Act World A)
      → Uncut m
      → ((e : Exc) → Uncut (h e))
      → Uncut (try_except m h)
  Uncut-try_except m h g k = record {
    at = λ w s o o' t. handled-Near (m w) (m (record w { incoming = s })) h (g.at w s o o' t) k;
  }

module _ {A B : Type 0} where
  continue-Near :
      (x x' : Result A × World) (f : A → Act World B)
      → Near x x'
      → ((a : A) → Uncut (f a))
      → Near (continue x f) (continue x' f)
  continue-Near (ok a, v) x' f n k =
      subst (λ y. Near (f a v) (continue y f)) (sym n.is)
        ((k a).at v n.later n.is_open n.is_open' n.same)
  continue-Near (err e, v) x' f n k =
      subst (λ y. Near {A = B} (err e, v) (continue y f)) (sym n.is)
        (record {
          later = n.later;
          is = refl;
          is_open = n.is_open;
          is_open' = n.is_open';
          same = n.same;
        })

  pub Uncut-bind :
      (m : Act World A) (f : A → Act World B) → Uncut m → ((a : A) → Uncut (f a)) → Uncut (m >>= f)
  Uncut-bind m f g k = record {
    at = λ w s o o' t. continue-Near (m w) (m (record w { incoming = s })) f (g.at w s o o' t) k;
  }

  pub calling :
      (r : Result A) (f : A → Act World B) → ((a : A) → Uncut (f a)) → Uncut (lift r >>= f)
  calling r f k =
      Uncut-bind (lift r) f
        (record {
          at = λ w s o o' t. record { later = s; is = refl; is_open = o; is_open' = o'; same = t };
        })
        k

  pub Uncut-option :
      (x : Option A) (n : Act World B) (f : A → Act World B)
      → Uncut n
      → ((a : A) → Uncut (f a))
      → Uncut (elim x [ none ↦ n | some a ↦ f a ])
  Uncut-option none n f g k = g
  Uncut-option (some a) n f g k = k a

pub Uncut-users : Uncut (gets (λ w. w.users))
Uncut-users = record {
  at = λ w s o o' t. record { later = s; is = refl; is_open = o; is_open' = o'; same = t };
}

pub Uncut-receive : Uncut receive
unfolding receive
Uncut-receive = record {
  at = λ w s o o' t. read w s o o' t (SameRead-recv_frame w.incoming s o o' t);
}
  where
    read :
        (w : World) (s : List Segment)
        → IsOpen w.incoming
        → IsOpen s
        → total s ≡ total w.incoming
        → {r r' : Result (Bytes × List Segment)} → SameRead r r'
        → Near
            (elim r as (λ x. Result Bytes × World) [
              | ok (payload, later) ↦ (ok payload, record w { incoming = later })
              | err e ↦ (err e, w)
            ])
            (elim r' as (λ x. Result Bytes × World) [
              | ok (payload, later) ↦ (ok payload, record w { incoming = later })
              | err e ↦ (err e, record w { incoming = s })
            ])
    read w s o o' t (same_bytes c l l' p p' q) = record {
      later = l';
      is = refl;
      is_open = p;
      is_open' = p';
      same = q;
    }
    read w s o o' t (same_error e) = record {
      later = s;
      is = refl;
      is_open = o;
      is_open' = o';
      same = t;
    }

Uncut-sendall : (frame : Bytes) → Uncut (sendall frame)
unfolding sendall
Uncut-sendall frame = record { at = λ w s o o' t. sent w s o o' t (w.fault w.sent frame) }
  where
    sent :
        (w : World) (s : List Segment)
        → IsOpen w.incoming
        → IsOpen s
        → total s ≡ total w.incoming
        → (x : Option (ℕ × Exc))
        → Near
            (elim x as (λ _. Result (Unit {0}) × World) [
              | none ↦ (ok tt, record w { sent = w.sent ++ frame })
              | some (n, e) ↦ (err e, record w { sent = w.sent ++ take n frame })
            ])
            (elim x as (λ _. Result (Unit {0}) × World) [
              | none ↦ (ok tt, record w { incoming = s; sent = w.sent ++ frame })
              | some (n, e) ↦ (err e, record w { incoming = s; sent = w.sent ++ take n frame })
            ])
    sent w s o o' t none = record { later = s; is = refl; is_open = o; is_open' = o'; same = t }
    sent w s o o' t (some (n, e)) = record {
      later = s;
      is = refl;
      is_open = o;
      is_open' = o';
      same = t;
    }

pub Uncut-send : (payload : Bytes) → Uncut (send payload)
unfolding send
Uncut-send payload = calling (Framing.send_frame payload) _ Uncut-sendall

pub Uncut-alert : (msg : Text) → Uncut (alert msg)
unfolding alert
Uncut-alert msg =
    Uncut-try_except _ _
      (calling (Encode.encode_alert alert_fatal msg) _ (λ frame. Uncut-send frame))
      (λ e. Uncut-pure tt)

pub Uncut-refusal : {B : Type 0} (msg : Text) → Uncut (alert msg >>= λ u. pure {A = Option B} none)
Uncut-refusal msg = Uncut-bind (alert msg) _ (Uncut-alert msg) (λ u. Uncut-pure none)
