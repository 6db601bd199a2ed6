-- ===== src/Register.antt =====
-- register_user.py: a registration by the client, over what the server will send.
use vaulttls.Opaque.Client
use vaulttls.Prelude.{bytes_eq, ℕ, List, ◌++◌, ◌==◌, Bytes, drop}
use vaulttls.Errors.{unexpected_ack, static_key_mismatch, guard, Result, ok, ◌>>=◌, ◌>>◌}
use vaulttls.Opaque.Crypto.{Crypto, Random}
use vaulttls.Pki.{X509}
use vaulttls.Login.{Machine, authenticate, make_login_credential_id, refuse_alert}
use vaulttls.Opaque.Client.{RegistrationState}
use vaulttls.Python.Text.{codes, encode, Text}
use vaulttls.Python.{first}
use vaulttls.Framing.{recv_frame, send_frame, Segment}
use vaulttls.Kdf.{empty_transcript, add}
use vaulttls.Codec.Encode.{encode_client_finish, encode_client_hello}
use vaulttls.Session.Hello.{reg_version}
use vaulttls.Codec.Decode.{decode_server_hello}
use vaulttls.Opaque.Wire.{point_len}
use vaulttls.Codec.Messages.{tag_close}

-- What the client draws at random: the blind, the nonce of its ClientHello, its key pair, and the
-- salt and the nonce of the envelope.
pub record RegisterDraw : Type 0 where
  pub r : ℕ
  pub client_nonce : Bytes
  pub c_priv : ℕ
  pub salt : Random
  pub nonce : Random

module _ {P Cert : Type 0} (C : Crypto P) (X : X509 Cert) where
  -- `register` from the received ServerHello on: the checks, and the record to upload.
  unfoldable pub finish_registration :
      Machine Cert → RegisterDraw → RegistrationState → Bytes → Bytes → Result Bytes
  unfolding refuse_alert authenticate Client.registration_finish
  finish_registration machine d state client_hello hello = do
    tag ← first hello
    refuse_alert tag hello
    t1 ← add (codes "client_hello") client_hello empty_transcript
    t2 ← add (codes "server_hello") hello t1
    parsed ← decode_server_hello hello
    server_cert ← authenticate C X machine client_hello parsed
    guard (bytes_eq (drop point_len parsed.opaque_ke2) (X.public_key_bytes server_cert))
        static_key_mismatch
    Client.registration_finish C d.c_priv d.salt d.nonce state parsed.opaque_ke2

  -- `register(username, password)`, on a connection: what was sent.
  unfoldable pub register : Machine Cert → RegisterDraw → Text → Text → List Segment → Result Bytes
  unfolding Client.registration_start finish_registration make_login_credential_id
  register machine d username password incoming = do
    cred_id ← make_login_credential_id C.hash username
    secret ← encode password
    started ← Client.registration_start C d.r secret
    client_hello ← encode_client_hello reg_version cred_id d.client_nonce started.0
    t ← add (codes "client_hello") client_hello empty_transcript
    first_sent ← send_frame client_hello
    received ← recv_frame incoming
    upload ← finish_registration machine d started.1 client_hello received.0
    client_finish ← encode_client_finish upload
    last_sent ← send_frame client_finish
    ack ← recv_frame received.1
    tag ← first ack.0
    guard (tag == tag_close) (unexpected_ack tag)
    ok (first_sent ++ last_sent)
