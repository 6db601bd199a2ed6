-- ===== src/Login.antt =====
-- client.py: the client's side of the handshake, over what the server will send.
pub mod Authentic
pub mod Runs
use vaulttls.Opaque.Client
use vaulttls.Prelude.{
  not, ℕ, zero, suc, ◌+◌, ◌-◌, ◌*◌, ◌/◌, ◌%◌, ◌^◌, ◌≤◌, ◌<◌, ◌≡◌, refl, sym, ap, ◌∙◌, subst, ◌≢◌,
  ◌↔◌, ◌⊎◌, inl, inr, Bool, true, false, ◌&&◌, ◌||◌, Option, none, some, List, [], ◌∷◌, ◌++◌, arith,
  ltb, leb, ◌==◌, if◌then◌else◌, Bytes, IsBytes, length, take, drop,
}
use vaulttls.Errors.{server_alert, guard, Result, ok, err, ◌>>=◌, ◌>>◌}
use vaulttls.Python.Text.{encode, Text, codes}
use vaulttls.Kdf.{
  derive_traffic_secrets, empty_transcript, add, digest, HashSuite, hash_bytes, TrafficSecrets,
}
use vaulttls.Opaque.Crypto.{Crypto}
use vaulttls.Framing.{recv_frame, send_frame, Segment}
use vaulttls.Pki.{
  verify_certificate_verify_signature, verify_server_config_signature, verify_certificate_chain,
  X509,
}
use vaulttls.Codec.Messages.{tag_alert, ParsedServerHello}
use vaulttls.Opaque.Client.{LoginState}
use vaulttls.Python.{first}
use vaulttls.Codec.Encode.{
  encode_client_finish, encode_server_hello, encode_server_hello_core, encode_client_hello,
}
use vaulttls.ServerConfig.{server_config_max_age_s, server_id, validate_server_config}
use vaulttls.Codec.Decode.{decode_alert, decode_server_hello}

abbrev pub context_string : Bytes
context_string = codes "CSE539-TLS-OPAQUE13-v1"

-- `_make_login_credential_id(username)`
unfoldable pub make_login_credential_id : HashSuite → Text → Result Bytes
unfolding codes hash_bytes
make_login_credential_id H username = do
  name ← encode username
  ok (hash_bytes H ((context_string ++ name) ∷ []))

-- What the client draws at random: the blind, the ephemeral key and the nonce.
pub record ClientDraw : Type 0 where
  pub r : ℕ
  pub c_eph : ℕ
  pub nonce_c : Bytes

-- What the client's machine holds: the pinned CA certificate's file, the time for certificates and
-- the time in seconds.
pub record Machine (Cert : Type 0) : Type 0 where
  pub ca_file : Result Cert
  pub now : ℕ
  pub seconds : ℕ

-- A finished handshake: the bytes that were sent, the secrets and the export key, and what is left
-- to receive.
pub record Handshake : Type 0 where
  pub sent : Bytes
  pub secrets : TrafficSecrets
  pub export_key : Bytes
  pub later : List Segment

-- An alert in place of the ServerHello is raised as an error with its text.
unfoldable pub refuse_alert : ℕ → Bytes → Result (Unit {0})
refuse_alert tag hello = elim (tag == tag_alert) [
  | true ↦ (do a ← decode_alert hello; err (server_alert a.message))
  | false ↦ ok tt
]

module _ {P Cert : Type 0} (C : Crypto P) (X : X509 Cert) where
  -- The checks of a ServerHello, from the certificate chain to CertificateVerify.
  unfoldable pub authenticate : Machine Cert → Bytes → ParsedServerHello → Result Cert
  authenticate machine client_hello parsed = do
    server_cert ←
        verify_certificate_chain X parsed.certificate_chain (codes "localhost") none machine.ca_file
          machine.now
    verify_server_config_signature X parsed.server_config parsed.server_config_sig server_cert
    config ←
        validate_server_config parsed.server_config server_id server_config_max_age_s
          machine.seconds
    pre_server_hello ← add (codes "client_hello") client_hello empty_transcript
    core ←
        encode_server_hello_core parsed.version parsed.server_nonce parsed.certificate_chain
          parsed.server_config parsed.opaque_ke2
    verify_certificate_verify_signature X C.hash parsed.cert_verify_sig
        (digest C.hash pre_server_hello) core server_cert
    ok server_cert

  -- `client_login` from the received ServerHello on.
  unfoldable pub finish_login :
      Machine Cert → LoginState → Bytes → Bytes → Bytes → List Segment → Result Handshake
  unfolding refuse_alert authenticate Client.login_finish digest
  finish_login machine state client_hello first_sent hello later = do
    tag ← first hello
    refuse_alert tag hello
    t1 ← add (codes "client_hello") client_hello empty_transcript
    t2 ← add (codes "server_hello") hello t1
    parsed ← decode_server_hello hello
    server_cert ← authenticate machine client_hello parsed
    keys ← Client.login_finish C state parsed.opaque_ke2
    client_finish ← encode_client_finish keys.ke3
    t3 ← add (codes "client_finish") client_finish t2
    last_sent ← send_frame client_finish
    secrets ← derive_traffic_secrets C.hash keys.session_key (digest C.hash t3)
    ok (record {
      sent = first_sent ++ last_sent;
      secrets = secrets;
      export_key = keys.export_key;
      later = later;
    })

  -- `client_login(sock, username, password, opaque_client)`
  unfoldable pub client_login :
      Machine Cert → ClientDraw → Text → Text → List Segment → Result Handshake
  unfolding Client.login_start finish_login make_login_credential_id
  client_login machine d username password incoming = do
    credential_id ← make_login_credential_id C.hash username
    secret ← encode password
    started ← Client.login_start C d.r d.c_eph d.nonce_c secret
    client_hello ← encode_client_hello 1 credential_id started.1.nonce_c started.0
    t ← add (codes "client_hello") client_hello empty_transcript
    first_sent ← send_frame client_hello
    received ← recv_frame incoming
    finish_login machine started.1 client_hello first_sent received.0 received.1
