-- ===== src/Trace/Stages.antt =====
-- formal/trace_checker.py: the stages of `run_all_checks`, and the results that they add.
use vaulttls.Prelude.{not, ℕ, ◌≡◌, sym, ap, ◌∙◌, Bool, none, [], ◌∷◌, ◌++◌, Bytes}
use vaulttls.Errors.{Result, ok, ok_inj}
use vaulttls.Trace
use vaulttls.Trace.{
  Event, Checker, Outcome, LoginDraws, RegisterDraws, l2_holds, l3_holds, attacker_knows, cred,
}
use vaulttls.Act.{continue-eq_ok}
use vaulttls.Python.Text.{codes, Text}
use vaulttls.Opaque.Crypto.{Crypto}
use vaulttls.Opaque.Server.{OpaqueServer}
use vaulttls.Trace.Checks.{
  violations, check_further, l4_holds, check_first, username, password, check, run_all_checks,
  RunDraws,
}
use vaulttls.Trace.Wrote.{login-LoginWrote, register-RegisterWrote, LoginWrote, RegisterWrote}
use vaulttls.Opaque.Runs.{CryptoLaws}
use vaulttls.Opaque.Envelope.{pub_bytes}

-- An entry of the results.
abbrev outcome : Text → Bool → Text → Outcome
outcome lemma holds reason = record { lemma = lemma; holds = holds; reason = reason }

abbrev pub l1 : Bool → Outcome
l1 b =
    outcome (codes "L1  session_key_secrecy") b
      (codes "Session key found verbatim in channel messages")

abbrev pub l2 : Bool → Outcome
l2 b =
    outcome (codes "L2  client_to_server_agreement") b
      (codes "ServerFinished without exactly one matching ClientFinished")

abbrev pub l3 : Bool → Outcome
l3 b =
    outcome (codes "L3  server_to_client_agreement") b
      (codes "ClientFinished without prior ServerResponded")

abbrev pub l4 : Bool → Outcome
l4 b =
    outcome (codes "L4  registration_authenticity") b
      (codes "PwRecordStored before RegistrationComplete in event log")

abbrev pub l5 : Bool → Outcome
l5 b =
    outcome (codes "L5  forward_secrecy") b
      (codes "Session key derivable from long-term server key + channel data")

abbrev pub l6 : Bool → Outcome
l6 b =
    outcome (codes "L6  replay_resistance") b
      (codes "Replayed KE3 from a previous session was accepted")

abbrev pub l7 : Bool → Outcome
l7 b =
    outcome (codes "L7  fake_user_path_exists") b
      (codes "Server crashed or raised on unknown-user login_start")

abbrev pub l8 : Bool → Outcome
l8 b =
    outcome (codes "L8  wrong_password_rejected") b
      (codes "login_finish succeeded with wrong password")

abbrev pub l9 : Bool → Outcome
l9 b =
    outcome (codes "L9  password_not_on_wire") b
      (codes "Password bytes found in channel (registration phase)")

abbrev pub l9_login : Bool → Outcome
l9_login b =
    outcome (codes "L9  password_not_on_wire (login)") b
      (codes "Password bytes found in channel (login phase)")

abbrev pub l10 : Bool → Outcome
l10 b =
    outcome (codes "L10 transcript_binding") b
      (codes "Two separate logins produced identical session keys (missing transcript entropy)")

-- The results with one more.
abbrev pub added : Checker → Outcome → Checker
added s o = record s { results = s.results ++ (o ∷ []) }

module _ {P : Type 0} (C : Crypto P) where
  -- The state behind the checks of the first login.
  abbrev pub after_first : Bytes → OpaqueServer → Checker → Checker
  after_first sk srv s =
      added
        (added
          (added
            (added
              (added (added s (l1 (not (attacker_knows sk s.channel))))
                (l9_login (not (attacker_knows password s.channel))))
              (l2 (l2_holds s.log s.log)))
            (l3 (l3_holds s.log s.log)))
          (l4 (l4_holds s.log s.log)))
        (l5 (not (attacker_knows sk (s.channel ++ (pub_bytes C (C.public_key srv.s_priv) ∷ [])))))

  -- The stages of a run that returns.
  pub record Ran (d : RunDraws) (s : Checker) (n : ℕ) (t : Checker) : Type 0 where
    pub registered : Checker
    pub logged : Checker
    pub keys : Bytes × Bytes
    pub register_wrote :
        RegisterWrote C d.registration username password
          (record s {
            log = [];
            channel = [];
            srv = record { s_priv = d.srv_key; pending_oprf_keys = none };
          })
          registered
    pub login_wrote :
        LoginWrote C d.first username password
          (added registered (l9 (not (attacker_knows password registered.channel))))
          keys
          logged
    pub further_is :
        check_further C d
          (after_first keys.0 (record { s_priv = d.srv_key; pending_oprf_keys = none }) logged)
        ≡ (ok tt, t)
    pub count_is : n ≡ violations t.results

  pub run_all_checks-Ran :
      CryptoLaws C
      → (d : RunDraws) (s : Checker) {n : ℕ} {t : Checker} → run_all_checks C d s ≡ (ok n, t)
      → Ran d s n t
  unfolding run_all_checks check check_first
  run_all_checks-Ran L d s {n} {t} e =
      let srv : OpaqueServer = record { s_priv = d.srv_key; pending_oprf_keys = none } in
      let s0 : Checker = record s { log = []; channel = []; srv = srv } in
      let (u, s1, r1, e1) =
        continue-eq_ok (Trace.register C d.registration username password s0) _ e in
      let s1' = added s1 (l9 (not (attacker_knows password s1.channel))) in
      let (keys, s2, r2, e2) = continue-eq_ok (Trace.login C d.first username password s1') _ e1 in
      let (v, s3, r3, e3) = continue-eq_ok (check_further C d (after_first keys.0 srv s2)) _ e2 in
      let same : s3 ≡ t = ap (λ (x : Result ℕ × Checker). x.1) e3 in
      record {
        registered = s1;
        logged = s2;
        keys = keys;
        register_wrote = register-RegisterWrote C L d.registration username password s0 r1;
        login_wrote = login-LoginWrote C d.first username password s1' r2;
        further_is = r3 ∙ ap (λ x. (ok tt, x)) same;
        count_is =
            ok_inj (sym (ap (λ (x : Result ℕ × Checker). x.0) e3))
            ∙ ap (λ (x : Checker). violations x.results) same;
      }
