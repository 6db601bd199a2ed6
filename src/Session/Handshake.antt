-- ===== src/Session/Handshake.antt =====
-- server.py: the registration, and the login up to the application data.
use vaulttls.Opaque.Server
use vaulttls.Act.{pure, raise, lift, gets, modify, try_except, ◌>>=◌, ◌>>◌, Act}
use vaulttls.Errors.{is_value_error}
use vaulttls.Prelude.{Bool, true, false, Option, none, some, ◌++◌, if◌then◌else◌, Bytes}
use vaulttls.Errors.{Exc, ok}
use vaulttls.Opaque.Server.{ServerState, Draw}
use vaulttls.Python.Text.{codes, Text}
use vaulttls.RateLimit.{reset, allow}
use vaulttls.Codec.Messages.{ParsedClientHello}
use vaulttls.Opaque.Crypto.{Crypto}
use vaulttls.Pki.{X509}
use vaulttls.Session.Hello.{build_signed_server_hello, opaque_of, ServerSession}
use vaulttls.Kdf.{digest, derive_traffic_secrets, Transcript, empty_transcript, add}
use vaulttls.Record.{direction_state, DirectionState}
use vaulttls.Codec.Decode.{decode_client_finish}
use vaulttls.Codec.Encode.{encode_close}
use vaulttls.Session.State.{receive, World, alert, Outside, send}

module _ {P Cert : Type 0} (C : Crypto P) (X : X509 Cert) (self : ServerSession Cert) where
  -- `_handle_registration(ch, raw_client_hello)`
  unfoldable pub handle_registration : Outside → ParsedClientHello → Bytes → Act World (Unit {0})
  unfolding send receive
  handle_registration o ch raw = do
    transcript ← lift (add (codes "client_hello") raw empty_transcript)
    response ←
        lift
          (Server.registration_respond C o.oprf_key (opaque_of self) ch.credential_id ch.opaque_ke1)
    server_hello ←
        lift (build_signed_server_hello C X self o.server_nonce o.seconds transcript response.0)
    send server_hello
    frame ← receive
    cf ← lift (decode_client_finish frame)
    users ← gets (λ w. w.users)
    users' ← lift (Server.registration_store response.1 ch.credential_id cf.opaque_ke3 users)
    modify (λ w. record w { users = users' })
    send encode_close

module _ {P Cert : Type 0} (C : Crypto P) (X : X509 Cert) (render : Exc → Text)
    (self : ServerSession Cert) where
  -- `get_limiter().allow(ip, credential_id)`
  unfoldable pub ask_limiter : Outside → Bytes → Act World Bool
  ask_limiter o credential_id w =
      let answer = allow self.ip credential_id o.monotonic w.limiter in
      (ok answer.0, record w { limiter = answer.1 })

  -- The `try` around `login_start`: `none` where it returned after an alert.
  unfoldable pub start_or_alert :
      Outside → ParsedClientHello → Act World (Option (Bytes × ServerState))
  unfolding alert
  start_or_alert o ch =
      try_except
        (do
          users ← gets (λ w. w.users)
          started ←
              lift
                (Server.login_start C o.draw (opaque_of self) ch.credential_id ch.opaque_ke1 users)
          pure (some started))
        (λ e. do alert (codes "Internal error: " ++ render e); pure none)

  -- The `try` around `login_finish`, which lets other exceptions than ValueError through.
  unfoldable pub finish_or_alert : ServerState → Bytes → Act World (Option Bytes)
  unfolding alert
  finish_or_alert state ke3 =
      try_except (do keys ← lift (Server.login_finish C state ke3); pure (some keys.0))
        (λ e. if is_value_error e then (do alert (render e); pure none) else raise e)

  -- `_handle_login` from the session key on, up to the application data: the states of the two
  -- directions, the sending one first.
  unfoldable pub establish :
      ParsedClientHello → Transcript → Bytes → Act World (DirectionState × DirectionState)
  establish ch transcript session_key = do
    secrets ← lift (derive_traffic_secrets C.hash session_key (digest C.hash transcript))
    send_enc ← lift (direction_state C.hash secrets.server_app)
    recv_enc ← lift (direction_state C.hash secrets.client_app)
    modify (λ w. record w { limiter = reset self.ip ch.credential_id w.limiter })
    pure (send_enc, recv_enc)

  -- `_handle_login` from the ServerHello on, up to the application data.
  unfoldable pub answer_client :
      Outside
      → ParsedClientHello
      → Transcript
      → Bytes × ServerState
      → Act World (Option (DirectionState × DirectionState))
  unfolding send receive finish_or_alert establish
  answer_client o ch t1 (ke2, state) = do
    server_hello ← lift (build_signed_server_hello C X self o.server_nonce o.seconds t1 ke2)
    t2 ← lift (add (codes "server_hello") server_hello t1)
    send server_hello
    cf_raw ← receive
    cf ← lift (decode_client_finish cf_raw)
    t3 ← lift (add (codes "client_finish") cf_raw t2)
    session_key ← finish_or_alert state cf.opaque_ke3
    elim session_key [
      | none ↦ pure none
      | some key ↦ (do both ← establish ch t3 key; pure (some both))
    ]

  -- `_handle_login` up to the application data: `none` where it returned after an alert.
  unfoldable pub login_handshake :
      Outside → ParsedClientHello → Bytes → Act World (Option (DirectionState × DirectionState))
  unfolding alert ask_limiter start_or_alert answer_client
  login_handshake o ch raw = do
    allowed ← ask_limiter o ch.credential_id
    elim allowed [
      | false ↦ (do alert (codes "Rate limit exceeded — retry later"); pure none)
      | true ↦ (do
        t1 ← lift (add (codes "client_hello") raw empty_transcript)
        started ← start_or_alert o ch
        elim started [ none ↦ pure none | some answer ↦ answer_client o ch t1 answer ])
    ]
