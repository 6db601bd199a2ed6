-- ===== src/Codec/Messages.antt =====
-- codec.py: the tags, the sizes and the parsed messages. A Python int is a natural number here.
use vaulttls.Prelude.{ℕ, Bytes}
use vaulttls.Python.Text.{Text}

abbrev pub tag_client_hello : ℕ
tag_client_hello = 0x01

abbrev pub tag_server_hello : ℕ
tag_server_hello = 0x02

abbrev pub tag_client_finish : ℕ
tag_client_finish = 0x03

abbrev pub tag_app_data : ℕ
tag_app_data = 0x04

abbrev pub tag_alert : ℕ
tag_alert = 0x05

abbrev pub tag_close : ℕ
tag_close = 0x06

abbrev pub hash_len : ℕ
hash_len = 64

abbrev pub nonce_len : ℕ
nonce_len = 32

abbrev pub alert_fatal : ℕ
alert_fatal = 2

pub record ParsedClientHello : Type 0 where
  pub version : ℕ
  pub credential_id : Bytes
  pub client_nonce : Bytes
  pub opaque_ke1 : Bytes

pub record ParsedServerHello : Type 0 where
  pub version : ℕ
  pub server_nonce : Bytes
  pub opaque_ke2 : Bytes
  pub certificate_chain : Bytes
  pub server_config : Bytes
  pub server_config_sig : Bytes
  pub cert_verify_sig : Bytes

pub record ParsedClientFinish : Type 0 where
  pub opaque_ke3 : Bytes

pub record ParsedAppData : Type 0 where
  pub seq : ℕ
  pub ciphertext : Bytes

pub record ParsedAlert : Type 0 where
  pub level : ℕ
  pub message : Text
