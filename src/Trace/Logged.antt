-- ===== src/Trace/Logged.antt =====
-- formal/trace_checker.py: the log, the channel and the results behind the first login of
-- `run_all_checks`.
use vaulttls.Prelude.{
  length-append, Bool-cases, not, ℕ, ◌≤◌, ◌≡◌, refl, sym, ap, ◌∙◌, ◌⊎◌, inl, inr, true, false, List,
  [], ◌∷◌, ◌++◌, arith, Bytes, length,
}
use vaulttls.Trace.{
  cred, attacker_knows, Checker, LoginDraws, client_finished, server_responded, server_finished,
  client_started,
}
use vaulttls.Opaque.Crypto.{Crypto}
use vaulttls.Opaque.Runs.{login_finish-ClientRan, login_start-Started, CryptoLaws}
use vaulttls.Trace.Checks.{password, username, RunDraws}
use vaulttls.Trace.Wrote.{LoginWrote}
use vaulttls.Trace.Stages.{l9, Ran}
use vaulttls.Trace.Logs.{first_log, attacker_knows-append}
use vaulttls.Opaque.Agreement.{login_start-ServerRan}
use vaulttls.Opaque.Shape.{length-pack_ke2}

pub revealed_too :
    (sk : Bytes) (channel more : List Bytes)
    → (not (attacker_knows sk channel) ≡ true) ⊎ (not (attacker_knows sk (channel ++ more)) ≡ false)
revealed_too sk channel more = elim (Bool-cases (attacker_knows sk channel)) [
  | inl known ↦ inr (rw (attacker_knows-append sk channel more known) refl)
  | inr unknown ↦ inl (rw unknown refl)
]

module _ {P : Type 0} (C : Crypto P) where
  -- The messages of a login are longer than 64 bytes, but for the KE3.
  pub login-lengths :
      CryptoLaws C
      → {d : LoginDraws} {user pw : Bytes} {s : Checker} {keys : Bytes × Bytes} {t : Checker}
      → length d.nonce_c ≡ 32
      → length (d.server.nonce_s 32) ≡ 32
      → (w : LoginWrote C d user pw s keys t)
      → (65 ≤ length w.started.0) × (65 ≤ length w.answer.0) × (length w.client.ke3 ≡ 64)
  unfolding vaulttls.Opaque.Wire.pack_ke1 vaulttls.Opaque.Keys.client_mac_of
  login-lengths L {d} {user} {pw} {s} nc ns w =
      let state = w.started.1 in
      let b = login_start-Started C d.r d.c_eph d.nonce_c pw w.started_is in
      let (found, _, run) =
        login_start-ServerRan C L d.r d.c_eph d.nonce_c pw d.server s.srv (cred C user) s.users nc
          ns w.started_is w.answer_is in
      let c = login_finish-ClientRan C state w.answer.0 w.client_is in
      (
        omega (
          arith,
          ap length b.sent,
          ap length b.nonce_is,
          nc,
          b.m_length,
          length-append state.m (state.nonce_c ++ state.c_eph_pub),
          length-append state.nonce_c state.c_eph_pub,
        ),
        omega (arith, length-pack_ke2 C L run.k run.fits run.packed),
        ap length c.ke3_is ∙ L.mac_length c.keys.mac_key _,
      )

  module _ (d : RunDraws) (s : Checker) {n : ℕ} {t : Checker} where
    pub logged-log :
        (r : Ran C d s n t)
        → r.logged.log
          ≡ first_log username r.register_wrote.public
              (cred C username)
              r.login_wrote.client.session_key
              r.login_wrote.got.0
    logged-log r =
        let w = r.login_wrote in
        let cid = cred C username in
        ap (λ (x : Checker). x.log) (sym w.state_is)
        ∙ ap
            (λ log.
              (((log ++ (client_started username cid ∷ [])) ++ (server_responded username cid ∷ []))
                ++ (client_finished username cid w.client.session_key ∷ []))
              ++ (server_finished username cid w.got.0 ∷ []))
            r.register_wrote.log_is

    pub logged-channel :
        (r : Ran C d s n t)
        → r.logged.channel
          ≡ r.register_wrote.request ∷ r.register_wrote.response ∷ r.register_wrote.upload
            ∷ r.login_wrote.started.0 ∷ r.login_wrote.answer.0 ∷ r.login_wrote.client.ke3 ∷ []
    logged-channel r =
        let w = r.login_wrote in
        ap (λ (x : Checker). x.channel) (sym w.state_is)
        ∙ ap
            (λ channel.
              ((channel ++ (w.started.0 ∷ [])) ++ (w.answer.0 ∷ [])) ++ (w.client.ke3 ∷ []))
            r.register_wrote.channel_is

    pub logged-results :
        (r : Ran C d s n t)
        → s.results ≡ []
        → r.logged.results ≡ l9 (not (attacker_knows password r.registered.channel)) ∷ []
    logged-results r none_yet =
        ap (λ (x : Checker). x.results) (sym r.login_wrote.state_is)
        ∙ ap (λ base. base ++ (l9 (not (attacker_knows password r.registered.channel)) ∷ []))
            (r.register_wrote.results_are ∙ none_yet)
