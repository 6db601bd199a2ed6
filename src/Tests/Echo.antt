-- ===== src/Tests/Echo.antt =====
-- client.py and server.py: the message "hi" and its answer.
use vaulttls.Prelude.{
  ℕ, zero, suc, ◌+◌, ◌-◌, ◌*◌, ◌/◌, ◌%◌, ◌^◌, ◌≤◌, ◌<◌, ◌≡◌, refl, sym, ap, ◌∙◌, subst, ◌≢◌, ◌↔◌,
  ◌⊎◌, inl, inr, Bool, true, false, ◌&&◌, ◌||◌, Option, none, some, List, [], ◌∷◌, ◌++◌, arith, ltb,
  leb, ◌==◌, if◌then◌else◌, Bytes, IsBytes, length, take, drop,
}
use vaulttls.Errors.{ok}
use vaulttls.Record
use vaulttls.Chat
use vaulttls.Codec.Encode
use vaulttls.Framing
use vaulttls.Framing.{max_frame, chunk}
use vaulttls.Opaque.Crypto.{Crypto}
use vaulttls.Python.Text.{codes, encode, Text}
use vaulttls.Session.State.{World}
use vaulttls.Tests.Stubs.{stub, value_or}
use vaulttls.Python.{to_bytes, struct_pack, one_byte}
use vaulttls.Session.Echo.{out_of_rounds, app_loop, app_round}
use vaulttls.RateLimit.{limiter}
use vaulttls.Kdf.{zeros}
use vaulttls.Tests.Keys.{padded-AeadLaws, padded, direction}
use vaulttls.Record.{ct_app_data}
use vaulttls.Chat.Echo.{echo_printed}
use vaulttls.Session.Loop.{app_loop_enough}

abbrev pub padded_stub : Crypto ℕ
padded_stub = record stub { aead = padded; aes_gcm = padded }

abbrev pub hi : Text
hi = 104 ∷ 105 ∷ []

abbrev pub quiet : World
quiet = record {
  incoming = [];
  sent = [];
  fault = λ before frame. none;
  closed = false;
  limiter = limiter 60 10;
  users = [];
}

unfoldable pub echo_hi : Bytes
echo_hi = 101 ∷ 99 ∷ 104 ∷ 111 ∷ 58 ∷ 104 ∷ 105 ∷ []

unfoldable pub hi_record : Bytes
hi_record = value_or (Encode.encode_app_data 0 (104 ∷ 105 ∷ zeros 16)) []

unfoldable pub echo_record : Bytes
echo_record = value_or (Encode.encode_app_data 0 (echo_hi ++ zeros 16)) []

unfoldable pub echo_frame : Bytes
echo_frame = value_or (Framing.send_frame echo_record) []

pub hi_encoded : encode hi ≡ ok hi
unfolding encode
hi_encoded = refl

pub hi_sealed : (Record.encrypt padded ct_app_data hi direction).0 ≡ ok (0, hi ++ zeros 16)
unfolding Record.encrypt Record.aad Record.nonce one_byte to_bytes
hi_sealed = refl

pub hi_written : Encode.encode_app_data 0 (hi ++ zeros 16) ≡ ok hi_record
unfolding Encode.encode_app_data struct_pack hi_record
hi_written = refl

echo_encoded : encode (codes "echo:" ++ hi) ≡ ok echo_hi
unfolding encode codes echo_hi
echo_encoded = refl

pub echo_sealed :
    (Record.encrypt padded ct_app_data echo_hi direction).0 ≡ ok (0, echo_hi ++ zeros 16)
unfolding Record.encrypt Record.aad Record.nonce one_byte to_bytes echo_hi
echo_sealed = refl

pub echo_written : Encode.encode_app_data 0 (echo_hi ++ zeros 16) ≡ ok echo_record
unfolding Encode.encode_app_data struct_pack echo_record echo_hi
echo_written = refl

pub echo_framed : Framing.send_frame echo_record ≡ ok echo_frame
unfolding Framing.send_frame struct_pack echo_record echo_frame echo_hi Encode.encode_app_data
    vaulttls.Prelude.big_endian
echo_framed = refl

echo_printed_example :
    (app_round padded_stub (λ e. []) hi_record (direction, direction) quiet ≡ (
      ok (
          some (
            (Record.encrypt padded ct_app_data echo_hi direction).1,
            (Record.encrypt padded ct_app_data hi direction).1,
          )),
      record quiet { sent = [] ++ echo_frame },
    ))
    × (Chat.print_answer padded_stub direction echo_record ≡ ok (some (codes "echo:" ++ hi)))
echo_printed_example =
    echo_printed padded_stub (λ e. []) padded-AeadLaws hi direction direction quiet
      (omega arith, (omega arith, tt)) hi_encoded hi_sealed hi_written echo_encoded echo_sealed
      echo_written echo_framed refl

-- A frame of one byte is still to come.
abbrev one_frame : World
one_frame = record quiet { incoming = chunk (0 ∷ 0 ∷ 0 ∷ 1 ∷ 6 ∷ []) ∷ [] }

app_loop_enough_example :
    ((app_loop padded_stub (λ e. []) 100 (direction, direction) one_frame).0 ≢ ok out_of_rounds)
    × (app_loop padded_stub (λ e. []) 100 (direction, direction) one_frame
        ≡ app_loop padded_stub (λ e. []) 6 (direction, direction) one_frame)
app_loop_enough_example =
    app_loop_enough padded_stub (λ e. []) 100 (direction, direction) one_frame (omega arith)
