-- ===== src/Chat.antt =====
-- client.py: what the command does once its login has finished.
pub mod Echo
use vaulttls.Record
use vaulttls.Prelude.{bytes_eq, true, false, Option, none, some, List, ◌++◌, ◌==◌, Bytes}
use vaulttls.Errors.{bad_utf8, guard, Result, ok, ◌>>=◌, ◌>>◌}
use vaulttls.Python.Text.{decode_replace, encode, Text}
use vaulttls.Opaque.Crypto.{Crypto}
use vaulttls.Record.{ct_app_data, direction_state, DirectionState}
use vaulttls.Kdf.{TrafficSecrets}
use vaulttls.Python.{first}
use vaulttls.Framing.{recv_frame, send_frame, Segment}
use vaulttls.Codec.Decode.{decode_app_data}
use vaulttls.Codec.Encode.{encode_close, encode_app_data}

-- `pt.decode()`: the bytes are UTF-8 exactly if replacing what is not changes nothing.
unfoldable pub decode_strict : Bytes → Result Text
decode_strict bytes = do
  back ← encode (decode_replace bytes)
  guard (bytes_eq back bytes) bad_utf8
  ok (decode_replace bytes)

-- What the command sent, and the message that it printed.
pub record Printed : Type 0 where
  pub sent : Bytes
  pub message : Option Text

module _ {P : Type 0} (C : Crypto P) where
  -- The answer to a frame: AppData is decrypted and printed, anything else is passed over.
  unfoldable pub print_answer : DirectionState → Bytes → Result (Option Text)
  unfolding decode_strict
  print_answer recv_enc resp = do
    tag ← first resp
    elim (tag == 4) [
      | false ↦ ok none
      | true ↦ (do
        ad ← decode_app_data resp
        plaintext ← (Record.decrypt C.aead ct_app_data ad.seq ad.ciphertext recv_enc).0
        text ← decode_strict plaintext
        ok (some text))
    ]

  -- `main` behind `client_login`, for the argument `--message`.
  unfoldable pub chat : TrafficSecrets → Text → List Segment → Result Printed
  unfolding print_answer
  chat secrets message incoming = do
    send_enc ← direction_state C.hash secrets.client_app
    recv_enc ← direction_state C.hash secrets.server_app
    text ← encode message
    numbered ← (Record.encrypt C.aead ct_app_data text send_enc).0
    app_data ← encode_app_data numbered.0 numbered.1
    first_sent ← send_frame app_data
    resp ← recv_frame incoming
    printed ← print_answer recv_enc resp.0
    last_sent ← send_frame encode_close
    ok (record { sent = first_sent ++ last_sent; message = printed })
