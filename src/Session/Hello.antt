-- ===== src/Session/Hello.antt =====
-- server.py: a session's attributes, and the ServerHello that it signs.
use vaulttls.Prelude.{ℕ, none, Bytes}
use vaulttls.Errors.{Result, ◌>>=◌}
use vaulttls.Python.Text.{Text}
use vaulttls.Opaque.Server.{OpaqueServer}
use vaulttls.Opaque.Crypto.{Crypto}
use vaulttls.Pki.{sign_cert_verify, encode_cert_chain, sign_server_config, X509}
use vaulttls.Kdf.{Transcript, digest}
use vaulttls.ServerConfig.{server_id, encode_server_config}
use vaulttls.Codec.Encode.{encode_server_hello, encode_server_hello_core}

abbrev pub reg_version : ℕ
reg_version = 2

-- The attributes of a session that it never changes: the address, the private key by its value and
-- its signature, and the two certificates.
pub record ServerSession (Cert : Type 0) : Type 0 where
  pub ip : Text
  pub s_priv : ℕ
  pub sign : Bytes → Result Bytes
  pub server_cert : Cert
  pub ca_cert : Cert

-- `ConcreteOpaqueServer(server_key)`
abbrev pub opaque_of : {Cert : Type 0} → ServerSession Cert → OpaqueServer
opaque_of self = record { s_priv = self.s_priv; pending_oprf_keys = none }

module _ {P Cert : Type 0} (C : Crypto P) (X : X509 Cert) (self : ServerSession Cert) where
  -- `_build_signed_server_hello(transcript_before_sh, opaque_ke2)`, with the nonce that it draws and
  -- the time of the configuration.
  unfoldable pub build_signed_server_hello : Bytes → ℕ → Transcript → Bytes → Result Bytes
  unfolding digest
  build_signed_server_hello nonce seconds transcript_before_sh opaque_ke2 = do
    server_config ← encode_server_config server_id seconds
    server_config_sig ← sign_server_config self.sign server_config
    cert_chain ← encode_cert_chain X self.ca_cert self.server_cert
    core ← encode_server_hello_core 1 nonce cert_chain server_config opaque_ke2
    cert_verify_sig ← sign_cert_verify C.hash self.sign (digest C.hash transcript_before_sh) core
    encode_server_hello core server_config_sig cert_verify_sig
