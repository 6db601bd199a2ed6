-- ===== src/Session/Loop.antt =====
-- server.py: the rounds of the loop of the application data, and its fuel.
use vaulttls.Prelude.{
  ◌≢◌, Bool-cases, ℕ, zero, suc, ◌+◌, ◌-◌, ◌<◌, ◌≡◌, refl, sym, ap, ◌∙◌, inl, inr, Option, none,
  some, List, arith, if◌then◌else◌, Bytes, length,
}
use vaulttls.Errors.{ok_inj, Result, ok, err, Exc}
use vaulttls.Act.{continue_cong, Act, pure, raise, handled, continue, ◌>>=◌, try_except}
use vaulttls.Framing
use vaulttls.Session.Left.{app_round-Left}
use vaulttls.Session.State.{World, receive, is_connection_error}
use vaulttls.Framing.Exact.{total}
use vaulttls.Framing.{Segment}
use vaulttls.Opaque.Crypto.{Crypto}
use vaulttls.Python.Text.{Text}
use vaulttls.Session.Echo.{app_loop, app_round, LoopExit, after_break, out_of_rounds}
use vaulttls.Record.{DirectionState}
use vaulttls.Session.Runs.{receive-eq_ok}
use vaulttls.Framing.Taken.{recv_frame-total}

-- The `try` around the read gives a frame only if the read returned it.
abbrev frame_or_end : Exc → Act World (Option Bytes)
frame_or_end e = if is_connection_error e then pure none else raise e

read_some :
    (x : Result Bytes × World) {payload : Bytes} {w : World}
    → handled frame_or_end (continue x (λ frame. pure (some frame))) ≡ (ok (some payload), w)
    → x ≡ (ok payload, w)
read_some (ok b, v) e = cc
read_some (err y, v) e = elim (Bool-cases (is_connection_error y)) [
  | inl lost ↦ let bad = rw lost at e in cc
  | inr other ↦ let bad = rw other at e in cc
]

broken : after_break ≢ out_of_rounds
broken e = cc

-- What ends of itself, whatever ran before it.
continue_ends :
    {A : Type 0} (x : Result A × World) (f : A → Act World LoopExit)
    → ((a : A) (w : World) → x ≡ (ok a, w) → (f a w).0 ≢ ok out_of_rounds)
    → (continue x f).0 ≢ ok out_of_rounds
continue_ends (ok a, w) f k = k a w refl
continue_ends (err e, w) f k = λ bad. cc

abbrev Rounds : Type 0
Rounds = DirectionState × DirectionState → Act World LoopExit

module _ {P : Type 0} (C : Crypto P) (render : Exc → Text) where
  -- A round, with what follows it.
  abbrev followed : DirectionState × DirectionState → Rounds → Option Bytes → Act World LoopExit
  followed both rest none = pure after_break
  followed both rest (some payload) = app_round C render payload both >>= λ next. elim next [
    | none ↦ pure after_break
    | some both' ↦ rest both'
  ]

  -- A round goes on with fewer bytes to come.
  followed_same :
      (f g : Rounds) (n : ℕ) (both : DirectionState × DirectionState) (w : World)
      → ((both' : DirectionState × DirectionState) (w' : World)
          → length (total w'.incoming) < n
          → f both' w' ≡ g both' w')
      → length (total w.incoming) < suc n
      → (o : Option Bytes) (w1 : World)
      → try_except (receive >>= λ frame. pure (some frame)) frame_or_end w ≡ (ok o, w1)
      → followed both f o w1 ≡ followed both g o w1
  followed_same f g n both w same h none w1 e = refl
  followed_same f g n both w same h (some payload) w1 e =
      let (later, p, q) = receive-eq_ok w (read_some (receive w) e) in
      let left : w1.incoming ≡ later = ap (λ (x : World). x.incoming) q in
      let fewer = recv_frame-total w.incoming p in
      continue_cong (app_round C render payload both w1) _ _
        (next (omega (arith, fewer, ap (λ l. length (total l)) left)))
    where
      next :
          length (total w1.incoming) < n
          → (o : Option (DirectionState × DirectionState)) (w2 : World)
          → app_round C render payload both w1 ≡ (ok o, w2)
          → elim o as (λ _. Act World LoopExit) [ none ↦ pure after_break | some both' ↦ f both' ]
              w2
            ≡ elim o as (λ _. Act World LoopExit) [ none ↦ pure after_break | some both' ↦ g both' ]
                w2
      next l none w2 e2 = refl
      next l (some both') w2 e2 =
          let kept : w2.incoming ≡ w1.incoming =
            ap (λ (x : Result (Option (DirectionState × DirectionState)) × World). x.1.incoming)
              (sym e2)
            ∙ ((app_round-Left C render payload both).at w1 refl).0 in
          same both' w2 (rw kept l)

  -- A round that goes on leaves fewer bytes to come.
  round_ends :
      (f : Rounds) (n : ℕ) (both : DirectionState × DirectionState) (w : World)
      → ((both' : DirectionState × DirectionState) (w' : World)
          → length (total w'.incoming) < n
          → (f both' w').0 ≢ ok out_of_rounds)
      → length (total w.incoming) < suc n
      → (o : Option Bytes) (w1 : World)
      → try_except (receive >>= λ frame. pure (some frame)) frame_or_end w ≡ (ok o, w1)
      → (followed both f o w1).0 ≢ ok out_of_rounds
  round_ends f n both w ends h none w1 e = λ bad. broken (ok_inj bad)
  round_ends f n both w ends h (some payload) w1 e =
      let (later, p, q) = receive-eq_ok w (read_some (receive w) e) in
      let left : w1.incoming ≡ later = ap (λ (x : World). x.incoming) q in
      let fewer = recv_frame-total w.incoming p in
      continue_ends (app_round C render payload both w1) _
        (next (omega (arith, fewer, ap (λ l. length (total l)) left)))
    where
      next :
          length (total w1.incoming) < n
          → (o : Option (DirectionState × DirectionState)) (w2 : World)
          → app_round C render payload both w1 ≡ (ok o, w2)
          → (elim o as (λ _. Act World LoopExit) [ none ↦ pure after_break | some both' ↦ f both' ]
              w2).0
            ≢ ok out_of_rounds
      next l none w2 e2 = λ bad. broken (ok_inj bad)
      next l (some both') w2 e2 =
          let kept : w2.incoming ≡ w1.incoming =
            ap (λ (x : Result (Option (DirectionState × DirectionState)) × World). x.1.incoming)
              (sym e2)
            ∙ ((app_round-Left C render payload both).at w1 refl).0 in
          ends both' w2 (rw kept l)

  app_loop_ends :
      (fuel : ℕ) (both : DirectionState × DirectionState) (w : World)
      → length (total w.incoming) < fuel
      → (app_loop C render fuel both w).0 ≢ ok out_of_rounds
  unfolding app_loop
  app_loop_ends zero both w h = absurd (omega arith)
  app_loop_ends (suc fuel) both w h =
      continue_ends (try_except (receive >>= λ frame. pure (some frame)) frame_or_end w) _ (
        round_ends (app_loop C render fuel) fuel both w
          (λ both' w' l. app_loop_ends fuel both' w' l) h)

  app_loop_more :
      (fuel more : ℕ) (both : DirectionState × DirectionState) (w : World)
      → length (total w.incoming) < fuel
      → app_loop C render (fuel + more) both w ≡ app_loop C render fuel both w
  unfolding app_loop
  app_loop_more zero more both w h = absurd (omega arith)
  app_loop_more (suc fuel) more both w h =
      let plus : suc fuel + more ≡ suc (fuel + more) = omega arith in
      rw plus (
        continue_cong (try_except (receive >>= λ frame. pure (some frame)) frame_or_end w) _ _ (
          followed_same (app_loop C render (fuel + more)) (app_loop C render fuel) fuel both w
            (λ both' w' l. app_loop_more fuel more both' w' l) h))

  -- With more fuel than there are bytes to come, the loop of the application data never runs out of
  -- it: it leaves by a `break` or by an exception, and does just what it does on the fuel that
  -- `handle_login` gives it, one round for each of these bytes and one more.
  pub app_loop_enough :
      (fuel : ℕ) (both : DirectionState × DirectionState) (w : World)
      → length (total w.incoming) < fuel
      → ((app_loop C render fuel both w).0 ≢ ok out_of_rounds)
        × (app_loop C render fuel both w
            ≡ app_loop C render (suc (length (total w.incoming))) both w)
  app_loop_enough fuel both w h =
      let n = length (total w.incoming) in
      let e : suc n + (fuel - suc n) ≡ fuel = omega arith in
      (
        app_loop_ends fuel both w h,
        ap (λ k. app_loop C render k both w) (sym e)
            ∙ app_loop_more (suc n) (fuel - suc n) both w (omega arith),
      )

  received :
      (w : World) {payload : Bytes} {later : List Segment}
      → Framing.recv_frame w.incoming ≡ ok (payload, later)
      → receive w ≡ (ok payload, record w { incoming = later })
  unfolding receive
  received w p = rw (p, receive) refl

  -- A round of the loop on a frame that is there.
  pub app_loop_round :
      (fuel : ℕ) (both : DirectionState × DirectionState) (w : World) {payload : Bytes}
      {later : List Segment} {o : Option (DirectionState × DirectionState)} {w' : World}
      → Framing.recv_frame w.incoming ≡ ok (payload, later)
      → app_round C render payload both (record w { incoming = later }) ≡ (ok o, w')
      → app_loop C render (suc fuel) both w
        ≡ elim o as (λ _. Act World LoopExit) [
          | none ↦ pure after_break
          | some both' ↦ app_loop C render fuel both'
        ]
            w'
  unfolding app_loop
  app_loop_round fuel both w p q =
      ap
        (λ (x : Result Bytes × World).
          continue (handled frame_or_end (continue x (λ frame. pure (some frame))))
            (followed both (app_loop C render fuel)))
        (received w p)
      ∙ ap
          (λ (x : Result (Option (DirectionState × DirectionState)) × World). continue x (λ next.
            elim next as (λ _. Act World LoopExit) [
              | none ↦ pure after_break
              | some both' ↦ app_loop C render fuel both'
            ]))
          q
