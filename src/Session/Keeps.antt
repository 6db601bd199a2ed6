-- ===== src/Session/Keeps.antt =====
-- server.py: the operations of a session keep what holds of the server's state.
use vaulttls.Prelude.{
  All, ◌≤◌, ◌≡◌, Bool, true, false, Option, none, some, ◌++◌, Bytes, IsBytes, length,
}
use vaulttls.Errors.{is_value_error, Exc, Result, ok}
use vaulttls.Opaque.Server
use vaulttls.Act.{modify, gets, pure, lift, Act, ◌>>=◌, ◌>>◌}
use vaulttls.Python.Text.{codes, Text}
use vaulttls.Opaque.Crypto.{Crypto}
use vaulttls.Session.State.{receive, send, Outside, alert, World}
use vaulttls.Act.Gives.{
  Gives-raise, Gives-if, Gives-try_except, Gives-modify, Gives-gets, Gives-pure, Gives-lift,
  Gives-bind, Any, Gives,
}
use vaulttls.Pki.{X509}
use vaulttls.Session.Sound.{
  allow_key-bound, IsEntry, receive-IsSound, send-IsSound, alert-IsSound, IsSound,
}
use vaulttls.Session.Hello.{build_signed_server_hello, opaque_of, ServerSession}
use vaulttls.Session.Handshake.{
  login_handshake, answer_client, establish, finish_or_alert, start_or_alert, ask_limiter,
  handle_registration,
}
use vaulttls.Codec.Messages.{ParsedClientHello}
use vaulttls.Kdf.{digest, derive_traffic_secrets, Transcript, empty_transcript, add}
use vaulttls.Codec.Decode.{decode_client_finish}
use vaulttls.Session.Entries.{opaque_ke3-IsBytes, registration_store-IsEntry}
use vaulttls.Codec.Encode.{encode_close}
use vaulttls.RateLimit.{key_eq, reset_key, reset, allow}
use vaulttls.Opaque.Server.{ServerState}
use vaulttls.Record.{direction_state, DirectionState}
use vaulttls.Python.Hex.{hex}
use vaulttls.Dict.Every.{All-remove}

module _ {A B : Type 0} {Q : B → Type 0} where
  -- A call that changes no state, with what is known of its result.
  pub lift_then :
      (r : Result A) (f : A → Act World B)
      → ((a : A) → r ≡ ok a → Gives IsSound Q (f a))
      → Gives IsSound Q (lift r >>= f)
  lift_then r f k = Gives-bind (λ a. r ≡ ok a) (lift r) f (Gives-lift r (λ a e. e)) k

  -- A step of which the result does not matter.
  pub after :
      (m : Act World A) (f : A → Act World B)
      → Gives IsSound Any m
      → ((a : A) → Gives IsSound Q (f a))
      → Gives IsSound Q (m >>= f)
  after m f g k = Gives-bind Any m f g (λ a u. k a)

  pub on_option :
      (x : Option A) (n : Act World B) (f : A → Act World B)
      → Gives IsSound Q n
      → ((a : A) → Gives IsSound Q (f a))
      → Gives IsSound Q (elim x [ none ↦ n | some a ↦ f a ])
  on_option none n f g k = g
  on_option (some a) n f g k = k a

pub refusal_keeps :
    {B : Type 0} (msg : Text) → Gives IsSound Any (do alert msg; pure {A = Option B} none)
refusal_keeps msg = after (alert msg) _ (alert-IsSound msg) (λ u. Gives-pure none tt)

module _ {P Cert : Type 0} (C : Crypto P) (X : X509 Cert) (self : ServerSession Cert) where
  pub handle_registration-IsSound :
      (o : Outside) (ch : ParsedClientHello) (raw : Bytes)
      → IsBytes ch.credential_id
      → Gives IsSound Any (handle_registration C X self o ch raw)
  unfolding handle_registration
  handle_registration-IsSound o ch raw h =
      lift_then (add (codes "client_hello") raw empty_transcript) _ (λ transcript e1.
        lift_then
          (Server.registration_respond C o.oprf_key (opaque_of self) ch.credential_id ch.opaque_ke1)
          _
          (λ response e2.
            lift_then
              (build_signed_server_hello C X self o.server_nonce o.seconds transcript response.0) _
              (λ hello e3. after (send hello) _ (send-IsSound hello) (λ u.
                Gives-bind IsBytes receive _ receive-IsSound (λ frame b.
                  lift_then (decode_client_finish frame) _ (λ cf e4.
                    Gives-bind (All IsEntry) (gets (λ w. w.users)) _
                      (Gives-gets (λ w. w.users) (λ w s. s.users_good))
                      (λ users good.
                        lift_then
                          (Server.registration_store response.1 ch.credential_id cf.opaque_ke3
                            users)
                          _
                          (λ users' e5.
                            after (modify (λ w. record w { users = users' })) _
                              (Gives-modify (λ w. record w { users = users' })
                                (λ w s. record {
                                  incoming_bytes = s.incoming_bytes;
                                  sent_frames = s.sent_frames;
                                  users_good =
                                      registration_store-IsEntry C self o.oprf_key ch.credential_id
                                        ch.opaque_ke1 cf.opaque_ke3 users e2 e5 h
                                        (opaque_ke3-IsBytes frame cf b e4) good;
                                  attempts_bounded = s.attempts_bounded;
                                }))
                              (λ v. send-IsSound encode_close)))))))))

  module _ (render : Exc → Text) where
    ask_limiter-IsSound :
        (o : Outside) (credential_id : Bytes)
        → Gives IsSound Any (ask_limiter C X render self o credential_id)
    unfolding ask_limiter allow
    ask_limiter-IsSound o credential_id = record {
      at = λ w s. (
        record {
          incoming_bytes = s.incoming_bytes;
          sent_frames = s.sent_frames;
          users_good = s.users_good;
          attempts_bounded =
              allow_key-bound (self.ip, hex credential_id) o.monotonic w.limiter s.attempts_bounded;
        },
        tt,
      );
    }

    start_or_alert-IsSound :
        (o : Outside) (ch : ParsedClientHello)
        → Gives IsSound Any (start_or_alert C X render self o ch)
    unfolding start_or_alert
    start_or_alert-IsSound o ch =
        Gives-try_except _ _
          (after (gets (λ w. w.users)) _ (Gives-gets (λ w. w.users) (λ w s. tt)) (λ users.
            lift_then
              (Server.login_start C o.draw (opaque_of self) ch.credential_id ch.opaque_ke1 users) _
              (λ started e. Gives-pure (some started) tt)))
          (λ e. refusal_keeps (codes "Internal error: " ++ render e))

    finish_or_alert-IsSound :
        (state : ServerState) (ke3 : Bytes)
        → Gives IsSound Any (finish_or_alert C X render self state ke3)
    unfolding finish_or_alert
    finish_or_alert-IsSound state ke3 =
        Gives-try_except _ _
          (lift_then (Server.login_finish C state ke3) _ (λ keys e. Gives-pure (some keys.0) tt))
          (λ e. Gives-if (is_value_error e) _ _ (refusal_keeps (render e)) (Gives-raise e))

    establish-IsSound :
        (ch : ParsedClientHello) (transcript : Transcript) (session_key : Bytes)
        → Gives IsSound Any (establish C X render self ch transcript session_key)
    unfolding establish reset reset_key
    establish-IsSound ch transcript session_key =
        lift_then (derive_traffic_secrets C.hash session_key (digest C.hash transcript)) _
          (λ secrets e1. lift_then (direction_state C.hash secrets.server_app) _ (λ send_enc e2.
            lift_then (direction_state C.hash secrets.client_app) _ (λ recv_enc e3.
              after (modify (λ w. record w { limiter = reset self.ip ch.credential_id w.limiter }))
                _
                (Gives-modify _ (λ w s. record {
                  incoming_bytes = s.incoming_bytes;
                  sent_frames = s.sent_frames;
                  users_good = s.users_good;
                  attempts_bounded =
                      All-remove key_eq (λ e. length e.1 ≤ w.limiter.max)
                        (self.ip, hex ch.credential_id) w.limiter.history s.attempts_bounded;
                }))
                (λ u. Gives-pure (send_enc, recv_enc) tt))))

    answer_client-IsSound :
        (o : Outside) (ch : ParsedClientHello) (t1 : Transcript) (answer : Bytes × ServerState)
        → Gives IsSound Any (answer_client C X render self o ch t1 answer)
    unfolding answer_client
    answer_client-IsSound o ch t1 (ke2, state) =
        lift_then (build_signed_server_hello C X self o.server_nonce o.seconds t1 ke2) _
          (λ hello e1. lift_then (add (codes "server_hello") hello t1) _ (λ t2 e2.
            after (send hello) _ (send-IsSound hello) (λ u.
              Gives-bind IsBytes receive _ receive-IsSound (λ cf_raw b.
                lift_then (decode_client_finish cf_raw) _ (λ cf e3.
                  lift_then (add (codes "client_finish") cf_raw t2) _ (λ t3 e4.
                    after (finish_or_alert C X render self state cf.opaque_ke3) _
                      (finish_or_alert-IsSound state cf.opaque_ke3)
                      (λ key. on_option key (pure none) _ (Gives-pure none tt) (λ k.
                        after (establish C X render self ch t3 k) _ (establish-IsSound ch t3 k)
                          (λ both. Gives-pure (some both) tt)))))))))

    pub login_handshake-IsSound :
        (o : Outside) (ch : ParsedClientHello) (raw : Bytes)
        → Gives IsSound Any (login_handshake C X render self o ch raw)
    unfolding login_handshake
    login_handshake-IsSound o ch raw =
        after (ask_limiter C X render self o ch.credential_id) _
          (ask_limiter-IsSound o ch.credential_id) answered
      where
        answered :
            (allowed : Bool)
            → Gives IsSound Any
                (elim allowed as (λ b. Act World (Option (DirectionState × DirectionState))) [
                  | false ↦ (do alert (codes "Rate limit exceeded — retry later"); pure none)
                  | true ↦ (do
                    t1 ← lift (add (codes "client_hello") raw empty_transcript)
                    started ← start_or_alert C X render self o ch
                    elim started as (λ s. Act World (Option (DirectionState × DirectionState))) [
                      | none ↦ pure none
                      | some answer ↦ answer_client C X render self o ch t1 answer
                    ])
                ])
        answered false = refusal_keeps (codes "Rate limit exceeded — retry later")
        answered true = lift_then (add (codes "client_hello") raw empty_transcript) _ (λ t1 e.
            after (start_or_alert C X render self o ch) _ (start_or_alert-IsSound o ch) (λ started.
              on_option started (pure none) _ (Gives-pure none tt)
                (λ answer. answer_client-IsSound o ch t1 answer)))
