-- ===== src/Codec/Wire.antt =====
-- codec.py: the layout of each message, as the module's header describes it, and the exact condition
-- under which its encoder succeeds.
use vaulttls.Prelude.{
  ltb, if◌then◌else◌, ℕ, ◌≡◌, ◌<◌, ◌^◌, ◌↔◌, ◌∷◌, ◌++◌, length, Bytes, big_endian, arith,
}
use vaulttls.Errors.{>>=-eq-ok, ◌>>=◌, int_too_big, struct_range, err, Result, ok}
use vaulttls.Codec.Messages.{ParsedServerHello, ParsedClientHello}
use vaulttls.Codec.Encode.{
  encode_alert, encode_server_hello, encode_app_data, encode_client_finish,
  encode_server_hello_core, p24, p16, encode_client_hello,
}
use vaulttls.Python.{to_bytes, one_byte, struct_pack}
use vaulttls.Python.Text.{encode, Text}

-- A field behind its length in `k` bytes.
abbrev pub vector : ℕ → Bytes → Bytes
vector k d = big_endian k (length d) ++ d

pub record FitsClientHello (m : ParsedClientHello) : Type 0 where
  pub version_fits : m.version < 256
  pub id_length : length m.credential_id ≡ 64
  pub nonce_length : length m.client_nonce ≡ 32
  pub ke1_fits : length m.opaque_ke1 < 256 ^ 2

abbrev pub client_hello : ParsedClientHello → Bytes
client_hello m = 0x01 ∷ m.version ∷ m.credential_id ++ (m.client_nonce ++ vector 2 m.opaque_ke1)

abbrev pub encoded_client_hello : ParsedClientHello → Result Bytes
encoded_client_hello m = encode_client_hello m.version m.credential_id m.client_nonce m.opaque_ke1

pub p16_lem :
    (d : Bytes) → p16 d ≡ (if ltb (length d) (256 ^ 2) then ok (vector 2 d) else err struct_range)
unfolding p16 struct_pack
p16_lem d = ground arith

pub p24_lem :
    (d : Bytes) → p24 d ≡ (if ltb (length d) (256 ^ 3) then ok (vector 3 d) else err int_too_big)
unfolding p24 to_bytes
p24_lem d = ground arith

-- The encoder succeeds exactly on a message whose fields fit, and writes the layout.
pub encode_client_hello_iff :
    (m : ParsedClientHello) (w : Bytes)
    → (encoded_client_hello m ≡ ok w) ↔ FitsClientHello m × (w ≡ client_hello m)
unfolding encode_client_hello one_byte
encode_client_hello_iff m w = rw (p16_lem m.opaque_ke1) (ground arith)

pub record FitsServerHello (m : ParsedServerHello) : Type 0 where
  pub version_fits : m.version < 256
  pub nonce_length : length m.server_nonce ≡ 32
  pub ke2_fits : length m.opaque_ke2 < 256 ^ 2
  pub chain_fits : length m.certificate_chain < 256 ^ 3
  pub config_fits : length m.server_config < 256 ^ 2
  pub config_sig_fits : length m.server_config_sig < 256 ^ 2
  pub verify_sig_fits : length m.cert_verify_sig < 256 ^ 2

-- The part that CertificateVerify signs.
abbrev pub server_hello_core : ParsedServerHello → Bytes
server_hello_core m =
    m.version ∷ m.server_nonce
    ++ (vector 2 m.opaque_ke2 ++ (vector 3 m.certificate_chain ++ vector 2 m.server_config))

abbrev pub server_hello : ParsedServerHello → Bytes
server_hello m =
    0x02 ∷ server_hello_core m ++ (vector 2 m.server_config_sig ++ vector 2 m.cert_verify_sig)

abbrev pub encoded_core : ParsedServerHello → Result Bytes
encoded_core m =
    encode_server_hello_core m.version m.server_nonce m.certificate_chain m.server_config
      m.opaque_ke2

abbrev pub encoded_server_hello : ParsedServerHello → Result Bytes
encoded_server_hello m = do
  core ← encoded_core m
  encode_server_hello core m.server_config_sig m.cert_verify_sig

pub encode_server_hello_iff :
    (m : ParsedServerHello) (w : Bytes)
    → (encoded_server_hello m ≡ ok w) ↔ FitsServerHello m × (w ≡ server_hello m)
unfolding encode_server_hello_core encode_server_hello one_byte
encode_server_hello_iff m w =
    rw
      (
        p16_lem m.opaque_ke2,
        p24_lem m.certificate_chain,
        p16_lem m.server_config,
        p16_lem m.server_config_sig,
        p16_lem m.cert_verify_sig,
      )
      (ground arith)

abbrev pub client_finish : Bytes → Bytes
client_finish ke3 = 0x03 ∷ vector 2 ke3

pub encode_client_finish_iff :
    (ke3 w : Bytes)
    → (encode_client_finish ke3 ≡ ok w) ↔ (length ke3 < 256 ^ 2) × (w ≡ client_finish ke3)
unfolding encode_client_finish
encode_client_finish_iff ke3 w = rw (p16_lem ke3) (ground arith)

abbrev pub app_data : ℕ → Bytes → Bytes
app_data seq ct = 0x04 ∷ big_endian 8 seq ++ vector 4 ct

pub encode_app_data_iff :
    (seq : ℕ) (ct w : Bytes)
    → (encode_app_data seq ct ≡ ok w)
      ↔ ((seq < 256 ^ 8) × (length ct < 256 ^ 4)) × (w ≡ app_data seq ct)
unfolding encode_app_data struct_pack
encode_app_data_iff seq ct w = ground arith

pub encode_alert-eq_ok :
    (level : ℕ) (message : Text) (w : Bytes)
    → encode_alert level message ≡ ok w
    → (text : Bytes) × (encode message ≡ ok text)
      × (length text < 256 ^ 2)
      × (w ≡ 0x05 ∷ level ∷ vector 2 text)
unfolding encode_alert one_byte
encode_alert-eq_ok level message w e =
    let (l, p, q) = >>=-eq-ok (one_byte level) _ e in
    let (text, r, s) = >>=-eq-ok (encode message) _ q in
    (text, r, ground (arith, p16_lem text), ground (arith, p16_lem text))
