-- ===== src/Codec/Decode.antt =====
-- codec.py: the decoders. Each makes a reader, asserts the tag and reads the fields in order; bytes
-- behind the last field are left unread.
use vaulttls.Prelude.{Bytes, ◌==◌}
use vaulttls.Errors.{Result, ok, err}
use vaulttls.Python.Text.{decode_replace}
use vaulttls.Codec.Messages.{
  tag_client_hello, tag_server_hello, tag_client_finish, tag_app_data, tag_alert, hash_len,
  nonce_len, ParsedClientHello, ParsedServerHello, ParsedClientFinish, ParsedAppData, ParsedAlert,
}
use vaulttls.Codec.Reader.{Parser, reader, pure, check, read, u8, u32, u64, v16, v24, ◌>>=◌, ◌>>◌}

-- `r = _R(data)`, then the reads; the reader is dropped at the end.
unfoldable pub run {ℓ} : {A : Type ℓ} → Parser A → Bytes → Result A
run m bytes = elim (m (reader bytes)) [ ok (a, r) ↦ ok a | err e ↦ err e ]

unfoldable pub read_client_hello : Parser ParsedClientHello
read_client_hello = do
  tag ← u8
  check (tag == tag_client_hello) "Not a ClientHello"
  version ← u8
  credential_id ← read hash_len
  client_nonce ← read nonce_len
  opaque_ke1 ← v16
  pure (record {
    version = version;
    credential_id = credential_id;
    client_nonce = client_nonce;
    opaque_ke1 = opaque_ke1;
  })

unfoldable pub decode_client_hello : Bytes → Result ParsedClientHello
decode_client_hello bytes = run read_client_hello bytes

unfoldable pub read_server_hello : Parser ParsedServerHello
read_server_hello = do
  tag ← u8
  check (tag == tag_server_hello) "Not a ServerHello"
  version ← u8
  srv_nonce ← read nonce_len
  ke2 ← v16
  cert ← v24
  cfg ← v16
  csig ← v16
  cvsig ← v16
  pure (record {
    version = version;
    server_nonce = srv_nonce;
    opaque_ke2 = ke2;
    certificate_chain = cert;
    server_config = cfg;
    server_config_sig = csig;
    cert_verify_sig = cvsig;
  })

unfoldable pub decode_server_hello : Bytes → Result ParsedServerHello
decode_server_hello bytes = run read_server_hello bytes

unfoldable pub read_client_finish : Parser ParsedClientFinish
read_client_finish = do
  tag ← u8
  check (tag == tag_client_finish) "Not a ClientFinish"
  ke3 ← v16
  pure (record { opaque_ke3 = ke3 })

unfoldable pub decode_client_finish : Bytes → Result ParsedClientFinish
decode_client_finish bytes = run read_client_finish bytes

unfoldable pub read_app_data : Parser ParsedAppData
read_app_data = do
  tag ← u8
  check (tag == tag_app_data) "Not AppData"
  seq ← u64
  n ← u32
  ct ← read n
  pure (record { seq = seq; ciphertext = ct })

unfoldable pub decode_app_data : Bytes → Result ParsedAppData
decode_app_data bytes = run read_app_data bytes

unfoldable pub read_alert : Parser ParsedAlert
read_alert = do
  tag ← u8
  check (tag == tag_alert) "Not an Alert"
  level ← u8
  message ← v16
  pure (record { level = level; message = decode_replace message })

unfoldable pub decode_alert : Bytes → Result ParsedAlert
decode_alert bytes = run read_alert bytes
