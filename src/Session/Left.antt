-- ===== src/Session/Left.antt =====
-- server.py: what a round of the application data leaves to be read.
use vaulttls.Prelude.{take, ℕ, not, ◌≡◌, ◌||◌, Option, none, some, List, ◌++◌, ◌==◌, Bytes}
use vaulttls.Errors.{ok, Result, ok, err, Exc}
use vaulttls.Act.{Act, lift, pure, ◌>>=◌}
use vaulttls.Framing
use vaulttls.Codec.Encode
use vaulttls.Record
use vaulttls.Session.State.{sendall, World, send, alert}
use vaulttls.Framing.{Segment}
use vaulttls.Opaque.Crypto.{Crypto}
use vaulttls.Act.Gives.{
  Returned, Gives-if, Gives-pure, Gives-try_except, Gives-lift, Gives-bind, Any, Gives,
}
use vaulttls.Python.Text.{decode_replace, codes, encode, Text}
use vaulttls.Session.Echo.{app_round, reply}
use vaulttls.Record.{ct_app_data, DirectionState}
use vaulttls.Codec.Messages.{tag_close, alert_fatal}
use vaulttls.Python.{first}
use vaulttls.Codec.Encode.{encode_app_data}
use vaulttls.Codec.Decode.{decode_app_data}

-- What is still to come.
abbrev pub Left : List Segment → World → Type 0
Left s w = w.incoming ≡ s

module _ {s : List Segment} where
  then_next :
      {A B : Type 0} (m : Act World A) (f : A → Act World B)
      → Gives (Left s) Any m
      → ((a : A) → Gives (Left s) Any (f a))
      → Gives (Left s) Any (m >>= f)
  then_next m f g k = Gives-bind Any m f g (λ a u. k a)

  called :
      {A B : Type 0} (r : Result A) (f : A → Act World B)
      → ((a : A) → Gives (Left s) Any (f a))
      → Gives (Left s) Any (lift r >>= f)
  called r f k = then_next (lift r) f (Gives-lift r (λ a e. tt)) k

  sendall-Left : (frame : Bytes) → Gives (Left s) Any (sendall frame)
  unfolding sendall
  sendall-Left frame = record { at = λ w h. sent w h (w.fault w.sent frame) }
    where
      sent :
          (w : World)
          → Left s w
          → (o : Option (ℕ × Exc))
          → Left s
              (elim o as (λ x. Result (Unit {0}) × World) [
                | none ↦ (ok tt, record w { sent = w.sent ++ frame })
                | some (n, x) ↦ (err x, record w { sent = w.sent ++ take n frame })
              ]).1
            × Returned Any
                (elim o as (λ x. Result (Unit {0}) × World) [
                  | none ↦ (ok tt, record w { sent = w.sent ++ frame })
                  | some (n, x) ↦ (err x, record w { sent = w.sent ++ take n frame })
                ]).0
      sent w h none = (h, tt)
      sent w h (some (n, x)) = (h, tt)

  send-Left : (payload : Bytes) → Gives (Left s) Any (send payload)
  unfolding send
  send-Left payload = called (Framing.send_frame payload) _ (λ frame. sendall-Left frame)

  alert-Left : (msg : Text) → Gives (Left s) Any (alert msg)
  unfolding alert
  alert-Left msg =
      Gives-try_except _ _
        (called (Encode.encode_alert alert_fatal msg) _ (λ frame. send-Left frame))
        (λ e. Gives-pure tt tt)

  module _ {P : Type 0} (C : Crypto P) (render : Exc → Text) where
    reply-Left :
        (plaintext : Bytes) (both : DirectionState × DirectionState)
        → Gives (Left s) Any (reply C render plaintext both)
    unfolding reply
    reply-Left plaintext (send_enc, recv_enc) =
        called (encode (codes "echo:" ++ decode_replace plaintext)) _ (λ text.
          let sealed = Record.encrypt C.aead ct_app_data text send_enc in
          called sealed.0 _ (λ numbered.
            called (Encode.encode_app_data numbered.0 numbered.1) _ (λ frame.
              then_next (send frame) _ (send-Left frame)
                (λ u. Gives-pure (sealed.1, recv_enc) tt))))

    pub app_round-Left :
        (frame : Bytes) (both : DirectionState × DirectionState)
        → Gives (Left s) Any (app_round C render frame both)
    unfolding app_round
    app_round-Left frame (send_enc, recv_enc) = called (first frame) _ (λ tag.
        Gives-if (tag == tag_close || not (tag == 4)) _ _ (Gives-pure none tt) (
          called (decode_app_data frame) _ (λ ad.
            let opened = Record.decrypt C.aead ct_app_data ad.seq ad.ciphertext recv_enc in
            answered opened.0 opened.1)))
      where
        answered :
            (r : Result Bytes) (recv_enc' : DirectionState)
            → Gives
                (Left s)
                Any
                (elim r as (λ x. Act World (Option (DirectionState × DirectionState))) [
                  | err e ↦ alert (codes "Decryption failed: " ++ render e) >>= λ u. pure none
                  | ok plaintext ↦
                      reply C render plaintext (send_enc, recv_enc') >>= λ both. pure (some both)
                ])
        answered (err e) recv_enc' =
            then_next (alert (codes "Decryption failed: " ++ render e)) _
              (alert-Left (codes "Decryption failed: " ++ render e)) (λ u. Gives-pure none tt)
        answered (ok plaintext) recv_enc' =
            then_next (reply C render plaintext (send_enc, recv_enc')) _
              (reply-Left plaintext (send_enc, recv_enc')) (λ both. Gives-pure (some both) tt)
