-- ===== src/Tests/Wire.antt =====
-- Messages, frames and blobs: codec.py, server_config.py, transcript.py.
use vaulttls.Prelude.{
  bytes_eq, from_big_endian, big_endian, ◌≤◌, ◌≡◌, refl, ◌↔◌, List, [], ◌∷◌, ◌++◌, arith, Bytes,
}
use vaulttls.Errors.{truncated, assertion, config_stale, frame_too_large, Exc, ok, err}
use vaulttls.Codec.Messages.{ParsedAppData, ParsedServerHello, ParsedClientHello}
use vaulttls.Kdf.{zeros}
use vaulttls.Codec.Encode.{
  p24, p16, encode_server_hello, encode_alert, encode_app_data, encode_server_hello_core,
  encode_client_hello,
}
use vaulttls.Codec.Decode.{
  read_client_hello, run, decode_alert, decode_app_data, decode_server_hello, decode_client_hello,
}
use vaulttls.ServerConfig.{decode_server_config, validate_server_config, encode_server_config}
use vaulttls.Framing.{max_frame, recv_exactly, chunk, recv_frame, send_frame, Segment}
use vaulttls.Framing.Exact.{IsOpen, total}
use vaulttls.Python.{first, to_bytes, unpack_from, item, struct_pack, one_byte}
use vaulttls.Codec.Wire.{encoded_server_hello, encoded_client_hello}
use vaulttls.Codec.Exact.{
  decode_server_hello_iff, decode_client_hello_iff, decode_alert-encode_alert, decode_app_data_iff,
  decode_server_hello_truncated,
}
use vaulttls.ServerConfig.Exact.{decode_server_config_iff, server_config_wire, FitsConfig, config}
use vaulttls.Python.Text.{encode}
use vaulttls.ServerConfig.Validate.{validate_server_config_iff, IsAcceptable}
use vaulttls.Framing.Frames.{recv_frame-eq_ok, recv_frame-send_frame}
use vaulttls.Codec.Reader.{pure, v16, lift, u16, read, check, u8}

abbrev hello : ParsedClientHello
hello = record {
  version = 1;
  credential_id = zeros 64;
  client_nonce = zeros 32;
  opaque_ke1 = 7 ∷ 8 ∷ [];
}

abbrev hello_wire : Bytes
hello_wire = 1 ∷ 1 ∷ zeros 64 ++ (zeros 32 ++ (0 ∷ 2 ∷ 7 ∷ 8 ∷ []))

hello_encoded : encoded_client_hello hello ≡ ok hello_wire
unfolding encode_client_hello one_byte p16 struct_pack big_endian
hello_encoded = refl

hello_decoded : decode_client_hello (hello_wire ++ (9 ∷ [])) ≡ ok hello
unfolding decode_client_hello run read_client_hello u8 check read u16 v16 pure lift first
    from_big_endian
hello_decoded = refl

hello_wrong_tag : decode_client_hello (2 ∷ []) ≡ err (assertion "Not a ClientHello")
unfolding decode_client_hello run read_client_hello u8 check read lift first
hello_wrong_tag = refl

hello_cut : decode_client_hello (1 ∷ 1 ∷ 0 ∷ []) ≡ err (truncated 2 64 1)
unfolding decode_client_hello run read_client_hello u8 check read lift first
hello_cut = refl

decode_client_hello_iff_example : (decode_client_hello (hello_wire ++ (9 ∷ [])) ≡ ok hello) ↔ (
    (w : Bytes) × (t : Bytes) × (encoded_client_hello hello ≡ ok w)
    × (hello_wire ++ (9 ∷ []) ≡ w ++ t))
decode_client_hello_iff_example =
    decode_client_hello_iff (hello_wire ++ (9 ∷ [])) hello (omega arith)

abbrev answer : ParsedServerHello
answer = record {
  version = 1;
  server_nonce = zeros 32;
  opaque_ke2 = 1 ∷ [];
  certificate_chain = 2 ∷ 3 ∷ [];
  server_config = 4 ∷ [];
  server_config_sig = 5 ∷ [];
  cert_verify_sig = 6 ∷ [];
}

abbrev answer_front : Bytes
answer_front =
    2 ∷ 1 ∷ zeros 32 ++ (0 ∷ 1 ∷ 1 ∷ 0 ∷ 0 ∷ 2 ∷ 2 ∷ 3 ∷ 0 ∷ 1 ∷ 4 ∷ 0 ∷ 1 ∷ 5 ∷ 0 ∷ 1 ∷ [])

answer_encoded : encoded_server_hello answer ≡ ok (answer_front ++ (6 ∷ []))
unfolding encode_server_hello_core encode_server_hello one_byte p16 p24 struct_pack to_bytes
    big_endian
answer_encoded = refl

decode_server_hello_iff_example :
    (decode_server_hello answer_front ≡ ok answer)
    ↔ ((w : Bytes) × (t : Bytes) × (encoded_server_hello answer ≡ ok w) × (answer_front ≡ w ++ t))
decode_server_hello_iff_example = decode_server_hello_iff answer_front answer (omega arith)

decode_server_hello_truncated_example : (e : Exc) × (decode_server_hello answer_front ≡ err e)
decode_server_hello_truncated_example =
    decode_server_hello_truncated answer answer_front 6 [] answer_encoded (omega arith) refl

abbrev sealed : ParsedAppData
sealed = record { seq = 258; ciphertext = 9 ∷ [] }

abbrev sealed_front : Bytes
sealed_front = 4 ∷ 0 ∷ 0 ∷ 0 ∷ 0 ∷ 0 ∷ 0 ∷ 1 ∷ 2 ∷ 0 ∷ 0 ∷ 0 ∷ 1 ∷ []

sealed_encoded : encode_app_data 258 (9 ∷ []) ≡ ok (sealed_front ++ (9 ∷ []))
unfolding encode_app_data struct_pack big_endian
sealed_encoded = refl

decode_app_data_iff_example : (decode_app_data (sealed_front ++ (9 ∷ [])) ≡ ok sealed) ↔ (
    (w : Bytes) × (t : Bytes) × (encode_app_data 258 (9 ∷ []) ≡ ok w)
    × (sealed_front ++ (9 ∷ []) ≡ w ++ t))
decode_app_data_iff_example = decode_app_data_iff (sealed_front ++ (9 ∷ [])) sealed (omega arith)

alert_encoded : encode_alert 2 (0x20ac ∷ []) ≡ ok (5 ∷ 2 ∷ 0 ∷ 3 ∷ 0xe2 ∷ 0x82 ∷ 0xac ∷ [])
unfolding encode_alert one_byte encode p16 struct_pack big_endian
alert_encoded = refl

decode_alert-encode_alert_example :
    decode_alert (5 ∷ 2 ∷ 0 ∷ 3 ∷ 0xe2 ∷ 0x82 ∷ 0xac ∷ 1 ∷ [])
    ≡ ok (record { level = 2; message = 0x20ac ∷ [] })
decode_alert-encode_alert_example =
    decode_alert-encode_alert 2 (0x20ac ∷ []) (1 ∷ []) (omega arith) alert_encoded

abbrev blob : Bytes
blob = 1 ∷ 1 ∷ 2 ∷ 3 ∷ 0 ∷ 1 ∷ 120 ∷ 0 ∷ 0 ∷ 0 ∷ 0 ∷ 0 ∷ 0 ∷ 3 ∷ 232 ∷ []

blob_encoded : encode_server_config (120 ∷ []) 1000 ≡ ok blob
unfolding encode_server_config struct_pack big_endian
blob_encoded = refl

blob_stale : validate_server_config blob (120 ∷ []) 60 1061 ≡ err config_stale
unfolding validate_server_config decode_server_config item unpack_from from_big_endian bytes_eq
blob_stale = refl

decode_server_config_iff_example :
    (decode_server_config blob ≡ ok (config 1 1 2 3 (120 ∷ []) 1000))
    ↔ FitsConfig (config 1 1 2 3 (120 ∷ []) 1000)
      × ((t : Bytes) × (blob ≡ server_config_wire (config 1 1 2 3 (120 ∷ []) 1000) ++ t))
decode_server_config_iff_example =
    decode_server_config_iff blob (config 1 1 2 3 (120 ∷ []) 1000) (omega arith)

validate_server_config_iff_example :
    (validate_server_config blob (120 ∷ []) 60 1060 ≡ ok (config 1 1 2 3 (120 ∷ []) 1000))
    ↔ (decode_server_config blob ≡ ok (config 1 1 2 3 (120 ∷ []) 1000))
      × IsAcceptable (config 1 1 2 3 (120 ∷ []) 1000) (120 ∷ []) 60 1060
validate_server_config_iff_example =
    validate_server_config_iff blob (config 1 1 2 3 (120 ∷ []) 1000) (120 ∷ []) 60 1060

abbrev cut_up : List Segment
cut_up = chunk (0 ∷ 0 ∷ []) ∷ chunk (0 ∷ 2 ∷ 7 ∷ []) ∷ chunk (8 ∷ 9 ∷ []) ∷ []

frame_sent : send_frame (7 ∷ 8 ∷ []) ≡ ok (0 ∷ 0 ∷ 0 ∷ 2 ∷ 7 ∷ 8 ∷ [])
unfolding send_frame struct_pack big_endian
frame_sent = refl

frame_received : recv_frame cut_up ≡ ok (7 ∷ 8 ∷ [], chunk (9 ∷ []) ∷ [])
unfolding recv_frame recv_exactly from_big_endian
frame_received = refl

frame_too_long : recv_frame (chunk (0 ∷ 64 ∷ 0 ∷ 1 ∷ []) ∷ []) ≡ err (frame_too_large 4194305)
unfolding recv_frame recv_exactly from_big_endian
frame_too_long = refl

recv_frame-send_frame_example :
    (later : List Segment) × (recv_frame cut_up ≡ ok (7 ∷ 8 ∷ [], later))
    × (total later ≡ 9 ∷ [])
    × IsOpen later
recv_frame-send_frame_example =
    recv_frame-send_frame (7 ∷ 8 ∷ []) cut_up (9 ∷ []) frame_sent (omega arith) tt refl

recv_frame-eq_ok_example :
    (total cut_up ≡ big_endian 4 2 ++ (7 ∷ 8 ∷ 9 ∷ []))
    × (2 ≤ max_frame)
    × IsOpen (chunk (9 ∷ []) ∷ [])
recv_frame-eq_ok_example = recv_frame-eq_ok cut_up tt (omega arith) frame_received
