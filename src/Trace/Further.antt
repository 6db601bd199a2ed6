-- ===== src/Trace/Further.antt =====
-- formal/trace_checker.py: the checks L6 to L10 of `run_all_checks`.
use vaulttls.Prelude.{bytes_eq, not, Bool-cases, ◌≡◌, sym, ap, ◌∙◌, inl, inr, Bool, [], ◌∷◌, Bytes}
use vaulttls.Errors.{is_value_error, Result, ok, err, ok_inj}
use vaulttls.Opaque.Client
use vaulttls.Opaque.Server
use vaulttls.Trace
use vaulttls.Trace.{
  Event, Checker, Outcome, LoginDraws, RegisterDraws, l2_holds, l3_holds, attacker_knows, cred,
}
use vaulttls.Trace.Checks.{
  ke3_events, password, RunDraws, username, replay_rejected, check, check_further, refuses,
  wrong_pw_rejected, fake_path_ok, raises_value_error,
}
use vaulttls.Opaque.Crypto.{Crypto}
use vaulttls.Trace.Wrote.{login-LoginWrote}
use vaulttls.Trace.Stages.{l10, l8, l7, l6, added}
use vaulttls.Act.{continue-eq_ok, lift-eq_ok}
use vaulttls.Python.Text.{codes}

ok_value :
    {A : Type 0} {a b : A} {s t : Checker}
    → ◌≡◌ {A = Result A × Checker} (ok a, s) (ok b, t)
    → a ≡ b
ok_value {A} e = ok_inj (ap (λ (x : Result A × Checker). x.0) e)

ok_state :
    {A : Type 0} {a b : A} {s t : Checker}
    → ◌≡◌ {A = Result A × Checker} (ok a, s) (ok b, t)
    → s ≡ t
ok_state {A} e = ap (λ (x : Result A × Checker). x.1) e

raises_value_error_same :
    {A : Type 0} (r : Result A) (s : Checker) {b : Bool} {t : Checker}
    → raises_value_error r s ≡ (ok b, t)
    → s ≡ t
unfolding raises_value_error
raises_value_error_same (ok a) s e = ok_state e
raises_value_error_same (err x) s e = elim (Bool-cases (is_value_error x)) [
  | inl is ↦ ok_state (rw is at e)
  | inr other ↦ let bad = rw other at e in cc
]

module _ {P : Type 0} (C : Crypto P) where
  fake_path_ok_same :
      (d : LoginDraws) (fake_cid : Bytes) (s : Checker) {b : Bool} {t : Checker}
      → fake_path_ok C d fake_cid s ≡ (ok b, t)
      → s ≡ t
  unfolding fake_path_ok
  fake_path_ok_same d fake_cid s e =
      let (started, _, e1) =
        lift-eq_ok (Client.login_start C d.r d.c_eph d.nonce_c (codes "pw")) _ s e in
      ok_state e1

  wrong_pw_rejected_same :
      (d : LoginDraws) (s : Checker) {b : Bool} {t : Checker}
      → wrong_pw_rejected C d s ≡ (ok b, t)
      → s ≡ t
  unfolding wrong_pw_rejected
  wrong_pw_rejected_same d s e =
      let (started, _, e1) =
        lift-eq_ok (Client.login_start C d.r d.c_eph d.nonce_c (codes "WRONGPASSWORD")) _ s e in
      let (answer, _, e2) =
        lift-eq_ok (Server.login_start C d.server s.srv (cred C username) started.0 s.users) _ _
          e1 in
      raises_value_error_same (Client.login_finish C started.1 answer.0) s e2

  refuses_same :
      (d : LoginDraws) (ke3 : Bytes) (s : Checker) {b : Bool} {t : Checker}
      → refuses C d ke3 s ≡ (ok b, t)
      → s ≡ t
  unfolding refuses
  refuses_same d ke3 s e =
      let (started, _, e1) =
        lift-eq_ok (Client.login_start C d.r d.c_eph d.nonce_c password) _ s e in
      let (answer, _, e2) =
        lift-eq_ok (Server.login_start C d.server s.srv (cred C username) started.0 s.users) _ _
          e1 in
      ok_state e2

  -- What the further checks add behind a channel whose one KE3 this is, and the runs that they judge:
  -- L6 a new login's answer to that KE3, L10 two more logins.
  pub record Further (d : RunDraws) (ke3 : Bytes) (s t : Checker) : Type 0 where
    pub rejected : Bool
    pub fake_ok : Bool
    pub wrong_rejected : Bool
    pub keys1 : Bytes × Bytes
    pub keys2 : Bytes × Bytes
    pub between : Checker
    pub behind : Checker
    pub results_are :
        (added
          (added (added (added s (l6 rejected)) (l7 fake_ok)) (l8 wrong_rejected))
          (l10 (not (bytes_eq keys1.0 keys2.0)))).results
        ≡ t.results
    pub rejected_is : refuses C d.replay ke3 s ≡ (ok rejected, s)
    pub second_is :
        Trace.login C d.second username password
          (added (added (added s (l6 rejected)) (l7 fake_ok)) (l8 wrong_rejected))
        ≡ (ok keys1, between)
    pub third_is : Trace.login C d.third username password between ≡ (ok keys2, behind)

  pub check_further-Further :
      (d : RunDraws) (s : Checker) (ke3 : Bytes) {t : Checker}
      → ke3_events s.channel ≡ ke3 ∷ []
      → check_further C d s ≡ (ok tt, t)
      → Further d ke3 s t
  unfolding check_further check replay_rejected
  check_further-Further d s ke3 {t} only e =
      let (b6, s6, r6, e6) =
        continue-eq_ok (replay_rejected C d.replay (ke3_events s.channel) s) _ e in
      let (b7, s7, r7, e7) =
        continue-eq_ok (fake_path_ok C d.ghost d.fake_cid (added s6 (l6 b6))) _ e6 in
      let (b8, s8, r8, e8) = continue-eq_ok (wrong_pw_rejected C d.wrong (added s7 (l7 b7))) _ e7 in
      let (k1, s9, r9, e9) =
        continue-eq_ok (Trace.login C d.second username password (added s8 (l8 b8))) _ e8 in
      let (k2, s10, r10, e10) = continue-eq_ok (Trace.login C d.third username password s9) _ e9 in
      let w = login-LoginWrote C d.second username password (added s8 (l8 b8)) r9 in
      let w' = login-LoginWrote C d.third username password s9 r10 in
      let q : refuses C d.replay ke3 s ≡ (ok b6, s6) =
        ap (λ k. replay_rejected C d.replay k s) (sym only) ∙ r6 in
      let q6 : s ≡ s6 = refuses_same d.replay ke3 s q in
      let q7 : added s (l6 b6) ≡ s7 =
        ap (λ (x : Checker). added x (l6 b6)) q6
        ∙ fake_path_ok_same d.ghost d.fake_cid (added s6 (l6 b6)) r7 in
      let q8 : added (added s (l6 b6)) (l7 b7) ≡ s8 =
        ap (λ (x : Checker). added x (l7 b7)) q7
        ∙ wrong_pw_rejected_same d.wrong (added s7 (l7 b7)) r8 in
      let b10 = not (bytes_eq k1.0 k2.0) in
      record {
        rejected = b6;
        fake_ok = b7;
        wrong_rejected = b8;
        keys1 = k1;
        keys2 = k2;
        between = s9;
        behind = s10;
        results_are =
            ap (λ (x : Checker). (added (added x (l8 b8)) (l10 b10)).results) q8
            ∙ ap (λ (x : Checker). (added x (l10 b10)).results) w.state_is
            ∙ ap (λ (x : Checker). (added x (l10 b10)).results) w'.state_is
            ∙ ap (λ (x : Checker). x.results) (ok_state e10);
        rejected_is = q ∙ ap (λ x. (ok b6, x)) (sym q6);
        second_is =
            ap (λ (x : Checker). Trace.login C d.second username password (added x (l8 b8))) q8
            ∙ r9;
        third_is = r10;
      }
