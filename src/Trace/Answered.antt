-- ===== src/Trace/Answered.antt =====
-- formal/trace_checker.py: what the check L3 finds in a log that logins have written.
use vaulttls.Prelude.{
  bytes_eq, bytes_eq_refl, Bool-cases, ◌≡◌, refl, inl, inr, true, ◌&&◌, List, [], ◌∷◌, ◌++◌, arith,
  Bytes,
}
use vaulttls.Errors.{Result}
use vaulttls.Opaque.Client
use vaulttls.Opaque.Server
use vaulttls.Trace
use vaulttls.Trace.{
  cred, LoginDraws, Event, Checker, l3_holds, responded_to, client_finished, server_responded,
  server_finished, client_started, registration_complete, pw_record_stored,
}
use vaulttls.Act.{Act, lift, gets, modify, ◌>>=◌}
use vaulttls.Opaque.Crypto.{Crypto}
use vaulttls.Act.Gives.{Gives-pure, Gives-gets, Gives-modify, Gives-bind, Gives-lift, Any, Gives}

responded_to-append :
    (u c : Bytes) (xs ys : List Event)
    → responded_to u c xs ≡ true
    → responded_to u c (xs ++ ys) ≡ true
unfolding responded_to
responded_to-append u c [] ys h = cc
responded_to-append u c (registration_complete a b ∷ xs) ys h = responded_to-append u c xs ys h
responded_to-append u c (pw_record_stored a ∷ xs) ys h = responded_to-append u c xs ys h
responded_to-append u c (client_started a b ∷ xs) ys h = responded_to-append u c xs ys h
responded_to-append u c (client_finished a b k ∷ xs) ys h = responded_to-append u c xs ys h
responded_to-append u c (server_finished a b k ∷ xs) ys h = responded_to-append u c xs ys h
responded_to-append u c (server_responded a b ∷ xs) ys h =
    elim (Bool-cases (bytes_eq a u && bytes_eq b c)) [
      | inl same ↦ rw same refl
      | inr other ↦ rw other (responded_to-append u c xs ys (rw other at h))
    ]

responded_to_last :
    (u c : Bytes) (xs : List Event) → responded_to u c (xs ++ (server_responded u c ∷ [])) ≡ true
unfolding responded_to
responded_to_last u c [] = rw (bytes_eq_refl u, bytes_eq_refl c) refl
responded_to_last u c (registration_complete a b ∷ xs) = responded_to_last u c xs
responded_to_last u c (pw_record_stored a ∷ xs) = responded_to_last u c xs
responded_to_last u c (client_started a b ∷ xs) = responded_to_last u c xs
responded_to_last u c (client_finished a b k ∷ xs) = responded_to_last u c xs
responded_to_last u c (server_finished a b k ∷ xs) = responded_to_last u c xs
responded_to_last u c (server_responded a b ∷ xs) = ground (arith, responded_to_last u c xs)

-- A longer log keeps what L3 found, and one more event is checked by itself.
l3_holds-append :
    (whole more xs ys : List Event)
    → l3_holds whole xs ≡ true
    → l3_holds (whole ++ more) ys ≡ true
    → l3_holds (whole ++ more) (xs ++ ys) ≡ true
unfolding l3_holds
l3_holds-append whole more [] ys h k = k
l3_holds-append whole more (registration_complete a b ∷ xs) ys h k =
    l3_holds-append whole more xs ys h k
l3_holds-append whole more (pw_record_stored a ∷ xs) ys h k = l3_holds-append whole more xs ys h k
l3_holds-append whole more (client_started a b ∷ xs) ys h k = l3_holds-append whole more xs ys h k
l3_holds-append whole more (server_responded a b ∷ xs) ys h k = l3_holds-append whole more xs ys h k
l3_holds-append whole more (server_finished a b s ∷ xs) ys h k =
    l3_holds-append whole more xs ys h k
l3_holds-append whole more (client_finished a b s ∷ xs) ys h k =
    elim (Bool-cases (responded_to a b whole)) [
      | inl there ↦
          rw (responded_to-append a b whole more there)
            (l3_holds-append whole more xs ys (rw there at h) k)
      | inr missing ↦ let bad = rw missing at h in cc
    ]

-- The log passes L3.
abbrev pub Answered : Checker → Type 0
Answered s = l3_holds s.log s.log ≡ true

abbrev AnsweredTo : Bytes → Bytes → Checker → Type 0
AnsweredTo u c s = Answered s × (responded_to u c s.log ≡ true)

module _ {I : Checker → Type 0} {A B : Type 0} {Q : B → Type 0} where
  pub then_any :
      (m : Act Checker A) (f : A → Act Checker B)
      → Gives I Any m
      → ((a : A) → Gives I Q (f a))
      → Gives I Q (m >>= f)
  then_any m f g k = Gives-bind Any m f g (λ a u. k a)

  pub called :
      (r : Result A) (f : A → Act Checker B)
      → ((a : A) → Gives I Q (f a))
      → Gives I Q (lift r >>= f)
  called r f k = then_any (lift r) f (Gives-lift r (λ a e. tt)) k

-- A step after which more is known.
strengthened :
    {I J : Checker → Type 0} {B : Type 0} (f : Checker → Checker) (rest : Unit {0} → Act Checker B)
    → ((s : Checker) → I s → J (f s))
    → ((s : Checker) → J s → I s)
    → ((u : Unit {0}) → Gives J Any (rest u))
    → Gives I Any (modify f >>= rest)
strengthened f rest up down g = record {
  at = λ s h. let (j, q) = (g tt).at (f s) (up s h) in (down _ j, q);
}

module _ {P : Type 0} (C : Crypto P) where
  login-Gives :
      (d : LoginDraws) (username password : Bytes)
      → Gives Answered Any (Trace.login C d username password)
  unfolding Trace.login Trace.emit Trace.send l3_holds
  login-Gives d username password =
      let cid = cred C username in
      called (Client.login_start C d.r d.c_eph d.nonce_c password) _ (λ started.
        then_any (Trace.send started.0) _ (Gives-modify _ (λ s h. h)) (λ u1.
          then_any (Trace.emit (client_started username cid)) _
            (Gives-modify _
              (λ s h. l3_holds-append s.log _ s.log (client_started username cid ∷ []) h refl))
            (λ u2. then_any (gets (λ s. s.srv)) _ (Gives-gets _ (λ s h. tt)) (λ srv.
              then_any (gets (λ s. s.users)) _ (Gives-gets _ (λ s h. tt)) (λ users.
                called (Server.login_start C d.server srv cid started.0 users) _ (λ answer.
                  then_any (Trace.send answer.0) _ (Gives-modify _ (λ s h. h)) (λ u3.
                    strengthened {J = AnsweredTo username cid}
                      (λ s. record s { log = s.log ++ (server_responded username cid ∷ []) }) _
                      (λ s h. (
                        l3_holds-append s.log _ s.log (server_responded username cid ∷ []) h refl,
                        responded_to_last username cid s.log,
                      ))
                      (λ s h. h.0)
                      (λ v. called (Client.login_finish C started.1 answer.0) _ (λ client.
                        then_any (Trace.send client.ke3) _ (Gives-modify _ (λ s h. h)) (λ u4.
                          then_any (Trace.emit (client_finished username cid client.session_key)) _
                            (Gives-modify _ (λ s h. (
                              l3_holds-append s.log _ s.log
                                  (client_finished username cid client.session_key ∷ []) h.0
                                  (rw
                                    (responded_to-append username cid s.log
                                      (client_finished username cid client.session_key ∷ []) h.1)
                                    refl),
                              responded_to-append username cid s.log _ h.1,
                            )))
                            (λ u5. called (Server.login_finish C answer.1 client.ke3) _ (λ keys.
                              then_any (Trace.emit (server_finished username cid keys.0)) _
                                (Gives-modify _ (λ s h. (
                                  l3_holds-append s.log _ s.log
                                      (server_finished username cid keys.0 ∷ []) h.0 refl,
                                  responded_to-append username cid s.log _ h.1,
                                )))
                                (λ u6. Gives-pure (client.session_key, keys.0) tt)))))))))))))

  -- A login leaves a log that passes the check L3 as one that passes, whether it returns or raises:
  -- no ClientFinished event stands in it without a ServerResponded event of its user and credential.
  pub login-Answered :
      (d : LoginDraws) (username password : Bytes) (s : Checker)
      → Answered s
      → Answered (Trace.login C d username password s).1
  login-Answered d username password s h = ((login-Gives d username password).at s h).0
