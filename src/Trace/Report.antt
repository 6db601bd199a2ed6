-- ===== src/Trace/Report.antt =====
-- formal/trace_checker.py: the results of a whole run of `run_all_checks`.
use vaulttls.Errors.{ok}
use vaulttls.Prelude.{
  bytes_eq, length, not, ℕ, ◌≤◌, ◌≡◌, sym, ap, ◌∙◌, subst, ◌⊎◌, Bool, true, false, none, List, [],
  ◌∷◌, ◌++◌, arith, Bytes,
}
use vaulttls.Trace.{Checker, Outcome, l2_holds, l3_holds, attacker_knows, cred}
use vaulttls.Trace.Stages.{
  run_all_checks-Ran, l10, l8, l7, l6, l5, after_first, l4, l3, Ran, l2, l9_login, l1, l9,
}
use vaulttls.Trace.Checks.{
  ke3_events, run_all_checks, password, l4_holds, username, RunDraws, violations,
}
use vaulttls.Opaque.Crypto.{Crypto}
use vaulttls.Trace.Further.{check_further-Further, Further}
use vaulttls.Trace.Logged.{logged-channel, login-lengths, revealed_too, logged-results, logged-log}
use vaulttls.Trace.Logs.{ke3_events_first, l4_first, l3_first, l2_first}
use vaulttls.Opaque.Envelope.{pub_bytes}
use vaulttls.Opaque.Runs.{CryptoLaws}

violations_bound :
    (a b c d e f g h i : Bool)
    → violations (
        l9 a
        ∷ l1 b
        ∷ l9_login c
        ∷ l2 d
        ∷ l3 true
        ∷ l4 true
        ∷ l5 e
        ∷ l6 f
        ∷ l7 g
        ∷ l8 h
        ∷ l10 i
        ∷ [])
      ≤ 9
unfolding violations
violations_bound a b c d e f g h i = ground arith

-- The results with those of the further checks behind them.
abbrev listed :
    List Outcome
    → Bool
    → Bool
    → Bool
    → Bool
    → Bool
    → Bool
    → Bool
    → Bool
    → Bool
    → Bool
    → List Outcome
listed base b1 b9 b2 b3 b4 b5 b6 b7 b8 b10 =
    (((((((((base ++ (l1 b1 ∷ [])) ++ (l9_login b9 ∷ [])) ++ (l2 b2 ∷ [])) ++ (l3 b3 ∷ []))
              ++ (l4 b4 ∷ []))
            ++ (l5 b5 ∷ []))
          ++ (l6 b6 ∷ []))
        ++ (l7 b7 ∷ []))
      ++ (l8 b8 ∷ []))
    ++ (l10 b10 ∷ [])

module _ {P : Type 0} (C : Crypto P) where
  -- The eleven results of a run, with the calls that some of them judge: the first login's keys, a
  -- new login's answer to its KE3, and the keys of two more logins.
  pub record Reported (d : RunDraws) (s : Checker) (n : ℕ) (t : Checker) : Type 0 where
    pub stages : Ran C d s n t
    pub further :
        Further C d stages.login_wrote.client.ke3
          (after_first C stages.keys.0
            (record { s_priv = d.srv_key; pending_oprf_keys = none })
            stages.logged)
          t
    pub clean : Bool
    pub secret : Bool
    pub clean_login : Bool
    pub still_secret : Bool
    pub results_are :
        t.results
        ≡ l9 clean
          ∷ l1 secret
          ∷ l9_login clean_login
          ∷ l2 (bytes_eq stages.keys.0 stages.keys.1)
          ∷ l3 true
          ∷ l4 true
          ∷ l5 still_secret
          ∷ l6 further.rejected
          ∷ l7 further.fake_ok
          ∷ l8 further.wrong_rejected
          ∷ l10 (not (bytes_eq further.keys1.0 further.keys2.0))
          ∷ []
    pub revealed : (secret ≡ true) ⊎ (still_secret ≡ false)
    pub count_is : n ≡ violations t.results
    pub at_most : n ≤ 9

  -- A run of all checks that returns, with no results in front of it, adds eleven results and returns
  -- the number of those that do not hold. At most nine do not hold: L3 and L4 hold. L5 does not hold
  -- if L1 does not. L2 holds exactly if the two sides of the first login returned one session key, L6 exactly if
  -- a new login, which the run made behind the first, refused the first login's own KE3, and L10
  -- exactly if two more logins, which the run made behind these, returned different session keys.
  -- HMACs have 64 bytes, points 65, and the two nonces of the first login 32.
  pub run_all_checks_lem :
      CryptoLaws C
      → (d : RunDraws) (s : Checker) {n : ℕ} {t : Checker} → s.results ≡ []
      → length d.first.nonce_c ≡ 32
      → length (d.first.server.nonce_s 32) ≡ 32
      → run_all_checks C d s ≡ (ok n, t)
      → Reported d s n t
  run_all_checks_lem L d s {n} {t} none_yet nc ns e =
      let r = run_all_checks-Ran C L d s e in
      let w = r.login_wrote in
      let g = r.register_wrote in
      let user = username in
      let cid = cred C user in
      let sk = w.client.session_key in
      let log = logged-log C d s r in
      let channel = r.logged.channel in
      let (m1, m2, m3) = login-lengths C L nc ns w in
      let only : ke3_events channel ≡ w.client.ke3 ∷ [] =
        ap ke3_events (logged-channel C d s r)
        ∙ ke3_events_first g.request g.response g.upload w.started.0 w.answer.0 w.client.ke3
            g.request_length g.response_length g.upload_length m1 m2 m3 in
      let f = check_further-Further C d _ w.client.ke3 only r.further_is in
      let h2 : l2_holds r.logged.log r.logged.log ≡ bytes_eq r.keys.0 r.keys.1 =
        ap (λ x. l2_holds x x) log
        ∙ l2_first user g.public cid sk w.got.0
        ∙ ap (λ (x : Bytes × Bytes). bytes_eq x.0 x.1) w.keys_are in
      let h3 : l3_holds r.logged.log r.logged.log ≡ true =
        ap (λ x. l3_holds x x) log ∙ l3_first user g.public cid sk w.got.0 in
      let h4 : l4_holds r.logged.log r.logged.log ≡ true =
        ap (λ x. l4_holds x x) log ∙ l4_first user g.public cid sk w.got.0 in
      let base = logged-results C d s r none_yet in
      let long_term = pub_bytes C (C.public_key d.srv_key) in
      let b0 = not (attacker_knows password r.registered.channel) in
      let b1 = not (attacker_knows r.keys.0 channel) in
      let b9 = not (attacker_knows password channel) in
      let b5 = not (attacker_knows r.keys.0 (channel ++ (long_term ∷ []))) in
      let b2 = bytes_eq r.keys.0 r.keys.1 in
      let b10 = not (bytes_eq f.keys1.0 f.keys2.0) in
      let all : t.results
          ≡ listed (l9 b0 ∷ []) b1 b9 b2 true true b5 f.rejected f.fake_ok f.wrong_rejected b10 =
        sym f.results_are ∙ (λ i.
          listed (base i) b1 b9 (h2 i) (h3 i) (h4 i) b5 f.rejected f.fake_ok f.wrong_rejected
            b10) in
      let bad = violations_bound b0 b1 b9 b2 b5 f.rejected f.fake_ok f.wrong_rejected b10 in
      let count = r.count_is in
      record {
        stages = r;
        further = f;
        clean = b0;
        secret = b1;
        clean_login = b9;
        still_secret = b5;
        results_are = all;
        revealed = revealed_too r.keys.0 channel (long_term ∷ []);
        count_is = count;
        at_most = subst (λ m. m ≤ 9) (sym (count ∙ ap violations all)) bad;
      }
