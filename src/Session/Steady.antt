-- ===== src/Session/Steady.antt =====
-- server.py: a whole connection keeps what holds of the server's state, whatever the client sends.
use vaulttls.Prelude.{
  not, ℕ, zero, suc, ◌||◌, Option, none, some, [], ◌∷◌, ◌++◌, ◌==◌, Bytes, IsBytes, length,
}
use vaulttls.Errors.{Exc, Result, ok, err}
use vaulttls.Record
use vaulttls.Codec.Encode
use vaulttls.Framing.Exact
use vaulttls.Session
use vaulttls.Opaque.Crypto.{Crypto}
use vaulttls.Pki.{X509}
use vaulttls.Python.Text.{decode_replace, codes, encode, Text}
use vaulttls.Session.Echo.{after_break, out_of_rounds, app_loop, app_round, reply}
use vaulttls.Session.Hello.{reg_version, ServerSession}
use vaulttls.Record.{ct_app_data, DirectionState}
use vaulttls.Session.{handle, handle_login}
use vaulttls.Session.State.{send, is_connection_error, receive, alert, World, Outside}
use vaulttls.Act.Gives.{
  Gives-raise, Gives-gets, Gives-if, Gives-try_except, Gives-bind, Gives-pure, Any, Gives,
}
use vaulttls.Codec.Messages.{tag_close, tag_client_hello, ParsedClientHello}
use vaulttls.Session.Sound.{alert-IsSound, send-IsSound, receive-IsSound, IsSound}
use vaulttls.Session.Keeps.{
  handle_registration-IsSound, on_option, refusal_keeps, login_handshake-IsSound, after, lift_then,
}
use vaulttls.Act.{gets, pure, Act, ◌>>=◌, ◌>>◌}
use vaulttls.Session.Handshake.{login_handshake}
use vaulttls.Python.{first}
use vaulttls.Codec.Decode.{decode_app_data, decode_client_hello}
use vaulttls.Session.Entries.{credential_id-IsBytes}
use vaulttls.Python.Hex.{hex}

module _ {P : Type 0} (C : Crypto P) (render : Exc → Text) where
  reply-IsSound :
      (plaintext : Bytes) (both : DirectionState × DirectionState)
      → Gives IsSound Any (reply C render plaintext both)
  unfolding reply
  reply-IsSound plaintext (send_enc, recv_enc) =
      lift_then (encode (codes "echo:" ++ decode_replace plaintext)) _ (λ text e1.
        let sealed = Record.encrypt C.aead ct_app_data text send_enc in
        lift_then sealed.0 _ (λ numbered e2.
          lift_then (Encode.encode_app_data numbered.0 numbered.1) _ (λ frame e3.
            after (send frame) _ (send-IsSound frame) (λ u. Gives-pure (sealed.1, recv_enc) tt))))

  app_round-IsSound :
      (frame : Bytes) (both : DirectionState × DirectionState)
      → Gives IsSound Any (app_round C render frame both)
  unfolding app_round
  app_round-IsSound frame (send_enc, recv_enc) = lift_then (first frame) _ (λ tag e1.
      Gives-if (tag == tag_close || not (tag == 4)) _ _ (Gives-pure none tt) (
        lift_then (decode_app_data frame) _ (λ ad e2.
          let opened = Record.decrypt C.aead ct_app_data ad.seq ad.ciphertext recv_enc in
          answered opened.0 opened.1)))
    where
      answered :
          (r : Result Bytes) (recv_enc' : DirectionState)
          → Gives IsSound Any
              (elim r as (λ x. Act World (Option (DirectionState × DirectionState))) [
                | err e ↦ (do alert (codes "Decryption failed: " ++ render e); pure none)
                | ok plaintext ↦ (do
                  both ← reply C render plaintext (send_enc, recv_enc')
                  pure (some both))
              ])
      answered (err e) recv_enc' = refusal_keeps (codes "Decryption failed: " ++ render e)
      answered (ok plaintext) recv_enc' =
          after (reply C render plaintext (send_enc, recv_enc')) _
            (reply-IsSound plaintext (send_enc, recv_enc')) (λ both. Gives-pure (some both) tt)

  app_loop-IsSound :
      (fuel : ℕ) (both : DirectionState × DirectionState)
      → Gives IsSound Any (app_loop C render fuel both)
  unfolding app_loop
  app_loop-IsSound zero both = Gives-pure out_of_rounds tt
  app_loop-IsSound (suc fuel) both =
      after _ _
        (Gives-try_except _ _
          (Gives-bind IsBytes receive _ receive-IsSound (λ frame b. Gives-pure (some frame) tt))
          (λ e. Gives-if (is_connection_error e) _ _ (Gives-pure none tt) (Gives-raise e)))
        (λ frame. on_option frame (pure after_break) _ (Gives-pure after_break tt) (λ payload.
          after (app_round C render payload both) _ (app_round-IsSound payload both) (λ next.
            on_option next (pure after_break) _ (Gives-pure after_break tt)
              (λ both'. app_loop-IsSound fuel both'))))

module _ {P Cert : Type 0} (C : Crypto P) (X : X509 Cert) (render : Exc → Text)
    (self : ServerSession Cert) where
  handle_login-IsSound :
      (o : Outside) (ch : ParsedClientHello) (raw : Bytes)
      → Gives IsSound Any (handle_login C X render self o ch raw)
  unfolding handle_login
  handle_login-IsSound o ch raw =
      after (login_handshake C X render self o ch raw) _
        (login_handshake-IsSound C X self render o ch raw)
        (λ both.
          after (gets (λ w. suc (length (Exact.total w.incoming)))) _
            (Gives-gets (λ w. suc (length (Exact.total w.incoming))) (λ w s. tt))
            (λ fuel. on_option both (pure tt) _ (Gives-pure tt tt) (λ directions.
              after (app_loop C render fuel directions) _
                (app_loop-IsSound C render fuel directions) (λ exit. Gives-pure tt tt))))

  handle-IsSound : (o : Outside) → Gives IsSound Any (handle C X render self o)
  unfolding handle
  handle-IsSound o = Gives-bind IsBytes receive _ receive-IsSound (λ raw b.
      lift_then (first raw) _ (λ tag e1.
        Gives-if (tag == tag_client_hello) _ _
          (lift_then (decode_client_hello raw) _ (λ ch e2.
            Gives-if (ch.version == reg_version) _ _
              (handle_registration-IsSound C X self o ch raw (credential_id-IsBytes raw ch b e2))
              (handle_login-IsSound o ch raw)))
          (alert-IsSound (codes "Expected ClientHello, got tag 0x" ++ hex (tag ∷ [])))))

  -- Whatever bytes a client sends, whichever calls of `sendall` fail and after whatever part of their
  -- frame, and whether the session returns or raises: what the server has sent stays a sequence of
  -- whole frames up to the first call of `sendall` that failed, if one did; every entry of the user database stays the hex form of a
  -- record of byte strings under its own credential's key, and no list of attempts in the limiter
  -- grows beyond the limit.
  pub run-IsSound :
      (o : Outside) (w : World) → IsSound w → IsSound (Session.run C X render self o w)
  unfolding Session.run
  run-IsSound o w h =
      let s = ((handle-IsSound o).at w h).0 in
      record {
        incoming_bytes = s.incoming_bytes;
        sent_frames = s.sent_frames;
        users_good = s.users_good;
        attempts_bounded = s.attempts_bounded;
      }
