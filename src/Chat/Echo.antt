-- ===== src/Chat/Echo.antt =====
-- client.py and server.py: a message, and the server's answer as the client prints it.
use vaulttls.Prelude.{
  All, bytes_eq_refl, ℕ, ◌<◌, ◌≡◌, refl, sym, ap, ◌∙◌, Option, none, some, ◌++◌, arith, Bytes,
  length,
}
use vaulttls.Errors.{ok_inj, Exc, >>=-eq-ok, Result, ok, err, ◌>>=◌}
use vaulttls.Record
use vaulttls.Chat
use vaulttls.Codec.Encode
use vaulttls.Framing
use vaulttls.Python.{struct_pack, first}
use vaulttls.Python.Text.{codes, encode, Text}
use vaulttls.Opaque.Crypto.{Crypto}
use vaulttls.Python.Text.RoundTrip.{decode_replace-encode}
use vaulttls.Record.Channel.{decrypt-encrypt, AeadLaws}
use vaulttls.Session.Echo.{reply, app_round}
use vaulttls.Trace.{send}
use vaulttls.Record.{ct_app_data, DirectionState}
use vaulttls.Session.State.{sendall, alert, World}
use vaulttls.Codec.Messages.{ParsedAppData}
use vaulttls.Codec.Exact.{decode-encode_app_data}
use vaulttls.Codec.Decode.{decode_app_data}
use vaulttls.Act.{Act, pure, continue}

pub first_app_data :
    (n : ℕ) (c : Bytes) {payload : Bytes}
    → Encode.encode_app_data n c ≡ ok payload
    → first payload ≡ ok 4
unfolding Encode.encode_app_data first
first_app_data n c e =
    let (s, p, f) = >>=-eq-ok (struct_pack 8 n) _ e in
    let (l, q, g) = >>=-eq-ok (struct_pack 4 (length c)) _ f in ap first (sym (ok_inj g))

abbrev pub IsText : Text → Type 0
IsText = All (λ c. c < 0x110000)

decode_strict-encode :
    (text : Text) {bytes : Bytes}
    → IsText text
    → encode text ≡ ok bytes
    → Chat.decode_strict bytes ≡ ok text
unfolding Chat.decode_strict
decode_strict-encode text {bytes} k e =
    rw (decode_replace-encode text k e, e, bytes_eq_refl bytes) refl

echo_IsText : (message : Text) → IsText message → IsText (codes "echo:" ++ message)
unfolding codes
echo_IsText message k = (omega arith, (omega arith, (omega arith, (omega arith, (omega arith, k)))))

module _ {P : Type 0} (C : Crypto P) (render : Exc → Text) (L : AeadLaws C.aead) where
  pub opened_round :
      (payload : Bytes) (ad : ParsedAppData) (server_send server_recv : DirectionState) (w : World)
      {plaintext : Bytes} {next : DirectionState}
      → first payload ≡ ok 4
      → decode_app_data payload ≡ ok ad
      → Record.decrypt C.aead ct_app_data ad.seq ad.ciphertext server_recv ≡ (ok plaintext, next)
      → app_round C render payload (server_send, server_recv) w
        ≡ continue (reply C render plaintext (server_send, next) w) (λ both. pure (some both))
  unfolding app_round
  opened_round payload ad server_send server_recv w f d o = rw f (
      rw d (
        ap
          (λ (x : Result Bytes × DirectionState).
            (elim x.0 as (λ y. Act World (Option (DirectionState × DirectionState))) [
              | err e ↦
                  λ v. continue (alert (codes "Decryption failed: " ++ render e) v) (λ u. pure none)
              | ok p ↦
                  λ v. continue (reply C render p (server_send, x.1) v) (λ both. pure (some both))
            ])
              w)
          o))

  all_sent :
      (frame : Bytes) (w : World)
      → w.fault w.sent frame ≡ none
      → sendall frame w ≡ (ok tt, record w { sent = w.sent ++ frame })
  unfolding sendall
  all_sent frame w calm = rw (calm, sendall) refl

  sent_then :
      {A : Type 0} (x : Result (Unit {0}) × World) {w' : World} (a : A)
      → x ≡ (ok tt, w')
      → continue (continue x (λ u. pure a)) (λ b. pure (some b)) ≡ (ok (some a), w')
  sent_then x a e = rw e refl

  opened_answer :
      (resp : Bytes) (ad : ParsedAppData) (recv_enc : DirectionState) {plaintext : Bytes}
      {next : DirectionState} {text : Text}
      → first resp ≡ ok 4
      → decode_app_data resp ≡ ok ad
      → Record.decrypt C.aead ct_app_data ad.seq ad.ciphertext recv_enc ≡ (ok plaintext, next)
      → Chat.decode_strict plaintext ≡ ok text
      → Chat.print_answer C recv_enc resp ≡ ok (some text)
  unfolding Chat.print_answer
  opened_answer resp ad recv_enc f d o t = rw f (
      rw d (
        ap
          (λ (x : Result Bytes × DirectionState).
            x.0 >>= λ plaintext. Chat.decode_strict plaintext >>= λ text. ok (some text))
          o
        ∙ rw t refl))

  -- A client that sent a message of code points with the state that the server receives with: a
  -- round of the server's loop answers it, both states of the server move on by one record, and the
  -- client, who receives with the state that the server sends with, prints "echo:" and the message.
  -- The records of the message and of the answer could be made, and the answer could be framed
  -- and is sent without a failure. The
  -- package opens what it sealed.
  pub echo_printed :
      (message : Text) (client_send server_send : DirectionState) (w : World)
      {text answer c c' payload resp frame : Bytes} {n n' : ℕ}
      → IsText message
      → encode message ≡ ok text
      → (Record.encrypt C.aead ct_app_data text client_send).0 ≡ ok (n, c)
      → Encode.encode_app_data n c ≡ ok payload
      → encode (codes "echo:" ++ message) ≡ ok answer
      → (Record.encrypt C.aead ct_app_data answer server_send).0 ≡ ok (n', c')
      → Encode.encode_app_data n' c' ≡ ok resp
      → Framing.send_frame resp ≡ ok frame
      → w.fault w.sent frame ≡ none
      → (app_round C render payload (server_send, client_send) w ≡ (
        ok (
            some (
              (Record.encrypt C.aead ct_app_data answer server_send).1,
              (Record.encrypt C.aead ct_app_data text client_send).1,
            )),
        record w { sent = w.sent ++ frame },
      ))
        × (Chat.print_answer C server_send resp ≡ ok (some (codes "echo:" ++ message)))
  unfolding reply send
  echo_printed message client_send server_send w {text} {answer} {c} {c'} {payload} {resp} {frame}
        {n} {n'} k e1 e2 e3 e4 e5 e6 e7 calm =
      let ad : ParsedAppData = record { seq = n; ciphertext = c } in
      let ad' : ParsedAppData = record { seq = n'; ciphertext = c' } in
      let opened = (decrypt-encrypt C.aead L ct_app_data text client_send e2).1 in
      let opened' = (decrypt-encrypt C.aead L ct_app_data answer server_send e5).1 in
      let back = decode_replace-encode message k e1 in
      (
        opened_round payload ad server_send client_send w (first_app_data n c e3)
              (decode-encode_app_data ad e3) opened
            ∙ rw (back, e4)
                (rw e5 (rw e6 (rw e7 (sent_then (sendall frame w) _ (all_sent frame w calm))))),
        opened_answer resp ad' server_send (first_app_data n' c' e6) (decode-encode_app_data ad' e6)
            opened' (decode_strict-encode (codes "echo:" ++ message) (echo_IsText message k) e4),
      )
