-- ===== src/Session/Safety.antt =====
-- server.py: which logins come to the application data.
use vaulttls.Opaque.Server
use vaulttls.Framing
use vaulttls.Prelude.{
  bytes_eq→eq, Bool-cases, bytes_eq, not, ◌≡◌, refl, sym, ap, ◌∙◌, inl, inr, Bool, true, false,
  Option, none, some, List, arith, Bytes,
}
use vaulttls.Opaque.Crypto.{Crypto}
use vaulttls.Pki.{X509}
use vaulttls.Errors.{guard-eq_ok, ok, Exc}
use vaulttls.Python.Text.{codes, Text}
use vaulttls.Session.Hello.{opaque_of, ServerSession}
use vaulttls.Session.State.{alert, World, Outside}
use vaulttls.Session.Handshake.{answer_client, start_or_alert, ask_limiter, login_handshake}
use vaulttls.Codec.Messages.{ParsedClientHello}
use vaulttls.RateLimit.{allow, RateLimiter}
use vaulttls.Record.{DirectionState}
use vaulttls.Storage.{record_exists}
use vaulttls.Session.Runs.{answer_client-Established, start_or_alert-eq_some, Established}
use vaulttls.Act.{continue-eq_ok, lift-eq_ok, none_after, lift, pure, Act, ◌>>=◌, ◌>>◌}
use vaulttls.Kdf.{Transcript, empty_transcript, add}
use vaulttls.Opaque.Server.{ServerState}
use vaulttls.Opaque.Keys.{client_mac_of}
use vaulttls.Framing.{Segment}
use vaulttls.Codec.Decode.{decode_client_finish}
use vaulttls.Opaque.Agreement.{login_finish_unknown}

module _ {P Cert : Type 0} (C : Crypto P) (X : X509 Cert) (render : Exc → Text)
    (self : ServerSession Cert) where
  abbrev asked : Outside → ParsedClientHello → World → Bool × RateLimiter
  asked o ch w = allow self.ip ch.credential_id o.monotonic w.limiter

  -- From the answer of the limiter on.
  begun :
      (o : Outside) (ch : ParsedClientHello) (raw : Bytes) (v : World) (t1 : Transcript)
      (started : Option (Bytes × ServerState)) (w1 : World) {send_enc recv_enc : DirectionState}
      {w' : World}
      → add (codes "client_hello") raw empty_transcript ≡ ok t1
      → start_or_alert C X render self o ch v ≡ (ok started, w1)
      → elim started as (λ s. Act World (Option (DirectionState × DirectionState))) [
        | none ↦ pure none
        | some answer ↦ answer_client C X render self o ch t1 answer
      ]
          w1
        ≡ (ok (some (send_enc, recv_enc)), w')
      → Established C X render self o ch raw v w' send_enc recv_enc
  begun o ch raw v t1 none w1 p q k = cc
  begun o ch raw v t1 (some (ke2, state)) w1 p q k =
      let (started, same) = start_or_alert-eq_some C X render self o ch v q in
      answer_client-Established C X render self o ch raw t1 ke2 state v p started
        (ap (answer_client C X render self o ch t1 (ke2, state)) (sym same) ∙ k)

  -- A login that came to the application data was let through by the limiter, and did all its steps.
  pub login_handshake-Established :
      (o : Outside) (ch : ParsedClientHello) (raw : Bytes) (w : World)
      {send_enc recv_enc : DirectionState} {w' : World}
      → login_handshake C X render self o ch raw w ≡ (ok (some (send_enc, recv_enc)), w')
      → ((asked o ch w).0 ≡ true)
        × Established C X render self o ch raw
            (record w { limiter = (asked o ch w).1 })
            w'
            send_enc
            recv_enc
  unfolding login_handshake ask_limiter
  login_handshake-Established o ch raw w {send_enc} {recv_enc} {w'} e =
      go (asked o ch w).0 (record w { limiter = (asked o ch w).1 }) e
    where
      go :
          (allowed : Bool) (v : World)
          → elim allowed as (λ b. Act World (Option (DirectionState × DirectionState))) [
            | false ↦ (do alert (codes "Rate limit exceeded — retry later"); pure none)
            | true ↦ (do
              t1 ← lift (add (codes "client_hello") raw empty_transcript)
              started ← start_or_alert C X render self o ch
              elim started as (λ s. Act World (Option (DirectionState × DirectionState))) [
                | none ↦ pure none
                | some answer ↦ answer_client C X render self o ch t1 answer
              ])
          ]
              v
            ≡ (ok (some (send_enc, recv_enc)), w')
          → (allowed ≡ true) × Established C X render self o ch raw v w' send_enc recv_enc
      go false v h = absurd (none_after (alert (codes "Rate limit exceeded — retry later") v) h)
      go true v h =
          let (t1, p1, e1) = lift-eq_ok (add (codes "client_hello") raw empty_transcript) _ v h in
          let (started, w1, p2, e2) = continue-eq_ok (start_or_alert C X render self o ch v) _ e1 in
          (refl, begun o ch raw v t1 started w1 p1 p2 e2)

  -- What the server's OPAQUE accepts: a real user, and the MAC that its state expects.
  pub login_finish-eq_ok :
      (state : ServerState) (ke3 : Bytes) {keys : Bytes × Bytes}
      → Server.login_finish C state ke3 ≡ ok keys
      → (state.is_fake ≡ false)
        × (ke3 ≡ client_mac_of C state.keys state.transcript state.server_mac)
  unfolding Server.login_finish
  login_finish-eq_ok state ke3 e =
      let (real, e1) = guard-eq_ok (not state.is_fake) _ _ e in
      let (same, _) =
        guard-eq_ok (bytes_eq ke3 (client_mac_of C state.keys state.transcript state.server_mac)) _
          _ e1 in
      (ground arith, bytes_eq→eq ke3 _ same)

  -- A login comes to the application data only if the limiter let it through, its credential is
  -- stored, and the ClientFinish that was received carries the MAC that the server's OPAQUE state
  -- for this ClientHello expects; it changes no user.
  pub login_handshake_safe :
      (o : Outside) (ch : ParsedClientHello) (raw : Bytes) (w : World)
      {both : DirectionState × DirectionState} {w' : World}
      → login_handshake C X render self o ch raw w ≡ (ok (some both), w')
      → ((allow self.ip ch.credential_id o.monotonic w.limiter).0 ≡ true)
        × (record_exists ch.credential_id w.users ≡ true)
        × (w'.users ≡ w.users)
        × ((ke2 : Bytes) × (state : ServerState) × (cf_raw : Bytes) × (ke3 : Bytes) × (later : List
              Segment)
            × (Server.login_start C o.draw (opaque_of self) ch.credential_id ch.opaque_ke1 w.users
                ≡ ok (ke2, state))
            × (Framing.recv_frame w.incoming ≡ ok (cf_raw, later))
            × (decode_client_finish cf_raw ≡ ok (record { opaque_ke3 = ke3 }))
            × (ke3 ≡ client_mac_of C state.keys state.transcript state.server_mac))
  login_handshake_safe o ch raw w {both} e =
      let (allowed, x) = login_handshake-Established o ch raw w e in
      let (real, mac) = login_finish-eq_ok x.state x.cf.opaque_ke3 x.finished in
      (
        allowed,
        elim (Bool-cases (record_exists ch.credential_id w.users)) [
          | inl p ↦ p
          | inr n ↦
              let refused =
                login_finish_unknown C o.draw (opaque_of self) ch.credential_id ch.opaque_ke1
                  x.cf.opaque_ke3 w.users n x.started in
              let finished = x.finished in cc
        ],
        x.same_users,
        (x.ke2, x.state, x.cf_raw, x.cf.opaque_ke3, x.later, x.started, x.received, x.cf_is, mac),
      )
