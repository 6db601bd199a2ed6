-- ===== src/Session/Uncut.antt =====
-- server.py: the methods of a session, on bytes that are cut up in two ways.
use vaulttls.Prelude.{
  not, ℕ, zero, suc, refl, Bool, true, false, ◌||◌, Option, none, some, ◌++◌, ◌==◌, Bytes,
}
use vaulttls.Errors.{Exc, Result, ok, err, is_value_error}
use vaulttls.Act.{Act, lift, gets, modify, pure, ◌>>=◌, ◌>>◌}
use vaulttls.Opaque.Server
use vaulttls.Opaque.Server.{ServerState}
use vaulttls.Session.State.{World, receive, send, alert, Outside, is_connection_error}
use vaulttls.Codec.Encode
use vaulttls.Record
use vaulttls.Session.Near.{
  Uncut, Uncut-pure, Uncut-raise, Uncut-if, Uncut-try_except, Uncut-bind, calling, Uncut-option,
  Uncut-users, Uncut-receive, Uncut-send, Uncut-refusal,
}
use vaulttls.Opaque.Crypto.{Crypto}
use vaulttls.Python.Text.{decode_replace, codes, encode, Text}
use vaulttls.Pki.{X509}
use vaulttls.Session.Echo.{after_break, out_of_rounds, app_loop, app_round, reply}
use vaulttls.Session.Hello.{build_signed_server_hello, opaque_of, ServerSession}
use vaulttls.Record.{direction_state, ct_app_data, DirectionState}
use vaulttls.Session.Handshake.{
  ask_limiter, login_handshake, answer_client, establish, finish_or_alert, start_or_alert,
  handle_registration,
}
use vaulttls.Codec.Messages.{tag_close, ParsedClientHello}
use vaulttls.Python.{first}
use vaulttls.Kdf.{digest, derive_traffic_secrets, empty_transcript, Transcript, add}
use vaulttls.Codec.Decode.{decode_app_data, decode_client_finish}
use vaulttls.Codec.Encode.{encode_close}
use vaulttls.RateLimit.{reset}

module _ {P : Type 0} (C : Crypto P) (render : Exc → Text) where
  reply-Uncut :
      (plaintext : Bytes) (both : DirectionState × DirectionState)
      → Uncut (reply C render plaintext both)
  unfolding reply
  reply-Uncut plaintext (send_enc, recv_enc) =
      calling (encode (codes "echo:" ++ decode_replace plaintext)) _ (λ text.
        let sealed = Record.encrypt C.aead ct_app_data text send_enc in
        calling sealed.0 _ (λ numbered.
          calling (Encode.encode_app_data numbered.0 numbered.1) _ (λ frame.
            Uncut-bind (send frame) _ (Uncut-send frame) (λ u. Uncut-pure (sealed.1, recv_enc)))))

  app_round-Uncut :
      (frame : Bytes) (both : DirectionState × DirectionState)
      → Uncut (app_round C render frame both)
  unfolding app_round
  app_round-Uncut frame (send_enc, recv_enc) = calling (first frame) _ (λ tag.
      Uncut-if (tag == tag_close || not (tag == 4)) _ _ (Uncut-pure none) (
        calling (decode_app_data frame) _ (λ ad.
          let opened = Record.decrypt C.aead ct_app_data ad.seq ad.ciphertext recv_enc in
          answered opened.0 opened.1)))
    where
      answered :
          (r : Result Bytes) (recv_enc' : DirectionState)
          → Uncut (elim r as (λ x. Act World (Option (DirectionState × DirectionState))) [
            | err e ↦ (do alert (codes "Decryption failed: " ++ render e); pure none)
            | ok plaintext ↦ (do
              both ← reply C render plaintext (send_enc, recv_enc')
              pure (some both))
          ])
      answered (err e) recv_enc' = Uncut-refusal (codes "Decryption failed: " ++ render e)
      answered (ok plaintext) recv_enc' =
          Uncut-bind (reply C render plaintext (send_enc, recv_enc')) _
            (reply-Uncut plaintext (send_enc, recv_enc')) (λ both. Uncut-pure (some both))

  pub app_loop-Uncut :
      (fuel : ℕ) (both : DirectionState × DirectionState) → Uncut (app_loop C render fuel both)
  unfolding app_loop
  app_loop-Uncut zero both = Uncut-pure out_of_rounds
  app_loop-Uncut (suc fuel) both =
      Uncut-bind _ _
        (Uncut-try_except _ _
          (Uncut-bind receive _ Uncut-receive (λ frame. Uncut-pure (some frame)))
          (λ e. Uncut-if (is_connection_error e) _ _ (Uncut-pure none) (Uncut-raise e)))
        (λ frame. Uncut-option frame (pure after_break) _ (Uncut-pure after_break) (λ payload.
          Uncut-bind (app_round C render payload both) _ (app_round-Uncut payload both) (λ next.
            Uncut-option next (pure after_break) _ (Uncut-pure after_break)
              (λ both'. app_loop-Uncut fuel both'))))

module _ {P Cert : Type 0} (C : Crypto P) (X : X509 Cert) (render : Exc → Text)
    (self : ServerSession Cert) where
  pub handle_registration-Uncut :
      (o : Outside) (ch : ParsedClientHello) (raw : Bytes)
      → Uncut (handle_registration C X self o ch raw)
  unfolding handle_registration
  handle_registration-Uncut o ch raw =
      calling (add (codes "client_hello") raw empty_transcript) _ (λ transcript.
        calling
          (Server.registration_respond C o.oprf_key (opaque_of self) ch.credential_id ch.opaque_ke1)
          _
          (λ response.
            calling
              (build_signed_server_hello C X self o.server_nonce o.seconds transcript response.0) _
              (λ hello. Uncut-bind (send hello) _ (Uncut-send hello) (λ u.
                Uncut-bind receive _ Uncut-receive (λ frame.
                  calling (decode_client_finish frame) _ (λ cf.
                    Uncut-bind (gets (λ w. w.users)) _ Uncut-users (λ users.
                      calling
                        (Server.registration_store response.1 ch.credential_id cf.opaque_ke3 users)
                        _
                        (λ users'.
                          Uncut-bind (modify (λ w. record w { users = users' })) _
                            (record {
                              at = λ w s o o' t. record {
                                later = s;
                                is = refl;
                                is_open = o;
                                is_open' = o';
                                same = t;
                              };
                            })
                            (λ v. Uncut-send encode_close)))))))))

  start_or_alert-Uncut :
      (o : Outside) (ch : ParsedClientHello) → Uncut (start_or_alert C X render self o ch)
  unfolding start_or_alert
  start_or_alert-Uncut o ch =
      Uncut-try_except _ _
        (Uncut-bind (gets (λ w. w.users)) _ Uncut-users (λ users.
          calling
            (Server.login_start C o.draw (opaque_of self) ch.credential_id ch.opaque_ke1 users) _
            (λ started. Uncut-pure (some started))))
        (λ e. Uncut-refusal (codes "Internal error: " ++ render e))

  finish_or_alert-Uncut :
      (state : ServerState) (ke3 : Bytes) → Uncut (finish_or_alert C X render self state ke3)
  unfolding finish_or_alert
  finish_or_alert-Uncut state ke3 =
      Uncut-try_except _ _
        (calling (Server.login_finish C state ke3) _ (λ keys. Uncut-pure (some keys.0)))
        (λ e. Uncut-if (is_value_error e) _ _ (Uncut-refusal (render e)) (Uncut-raise e))

  establish-Uncut :
      (ch : ParsedClientHello) (transcript : Transcript) (session_key : Bytes)
      → Uncut (establish C X render self ch transcript session_key)
  unfolding establish
  establish-Uncut ch transcript session_key =
      calling (derive_traffic_secrets C.hash session_key (digest C.hash transcript)) _ (λ secrets.
        calling (direction_state C.hash secrets.server_app) _ (λ send_enc.
          calling (direction_state C.hash secrets.client_app) _ (λ recv_enc.
            Uncut-bind
              (modify (λ w. record w { limiter = reset self.ip ch.credential_id w.limiter })) _
              (record {
                at = λ w s o o' t. record {
                  later = s;
                  is = refl;
                  is_open = o;
                  is_open' = o';
                  same = t;
                };
              })
              (λ u. Uncut-pure (send_enc, recv_enc)))))

  answer_client-Uncut :
      (o : Outside) (ch : ParsedClientHello) (t1 : Transcript) (answer : Bytes × ServerState)
      → Uncut (answer_client C X render self o ch t1 answer)
  unfolding answer_client
  answer_client-Uncut o ch t1 (ke2, state) =
      calling (build_signed_server_hello C X self o.server_nonce o.seconds t1 ke2) _ (λ hello.
        calling (add (codes "server_hello") hello t1) _ (λ t2.
          Uncut-bind (send hello) _ (Uncut-send hello) (λ u.
            Uncut-bind receive _ Uncut-receive (λ cf_raw.
              calling (decode_client_finish cf_raw) _ (λ cf.
                calling (add (codes "client_finish") cf_raw t2) _ (λ t3.
                  Uncut-bind (finish_or_alert C X render self state cf.opaque_ke3) _
                    (finish_or_alert-Uncut state cf.opaque_ke3)
                    (λ key. Uncut-option key (pure none) _ (Uncut-pure none) (λ k.
                      Uncut-bind (establish C X render self ch t3 k) _ (establish-Uncut ch t3 k)
                        (λ both. Uncut-pure (some both))))))))))

  pub login_handshake-Uncut :
      (o : Outside) (ch : ParsedClientHello) (raw : Bytes)
      → Uncut (login_handshake C X render self o ch raw)
  unfolding login_handshake ask_limiter
  login_handshake-Uncut o ch raw =
      Uncut-bind (ask_limiter C X render self o ch.credential_id) _
        (record {
          at = λ w s o o' t. record { later = s; is = refl; is_open = o; is_open' = o'; same = t };
        })
        answered
    where
      answered :
          (allowed : Bool)
          → Uncut (elim allowed as (λ b. Act World (Option (DirectionState × DirectionState))) [
            | false ↦ (do alert (codes "Rate limit exceeded — retry later"); pure none)
            | true ↦ (do
              t1 ← lift (add (codes "client_hello") raw empty_transcript)
              started ← start_or_alert C X render self o ch
              elim started as (λ s. Act World (Option (DirectionState × DirectionState))) [
                | none ↦ pure none
                | some answer ↦ answer_client C X render self o ch t1 answer
              ])
          ])
      answered false = Uncut-refusal (codes "Rate limit exceeded — retry later")
      answered true = calling (add (codes "client_hello") raw empty_transcript) _ (λ t1.
          Uncut-bind (start_or_alert C X render self o ch) _ (start_or_alert-Uncut o ch) (λ started.
            Uncut-option started (pure none) _ (Uncut-pure none)
              (λ answer. answer_client-Uncut o ch t1 answer)))
