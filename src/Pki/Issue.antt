-- ===== src/Pki/Issue.antt =====
-- pki.py: the certificates that the server makes for itself, and the files that hold them.
use vaulttls.Prelude.{
  ℕ, ◌+◌, ◌-◌, ◌*◌, Bool, true, false, Option, none, some, List, [], ◌∷◌, leb, Bytes,
}
use vaulttls.Errors.{◌>>◌, ◌>>=◌, Class, external, guard, Result, ok}
use vaulttls.Python.Text.{codes, Text}
use vaulttls.Pki.{X509}

-- `timedelta` in ticks of a microsecond.
abbrev pub second : ℕ
second = 1000000

abbrev pub minute : ℕ
minute = 60 * second

abbrev pub days : ℕ → ℕ
days n = n * 86400 * second

abbrev pub ca_validity_days : ℕ
ca_validity_days = 3650

abbrev pub server_validity_days : ℕ
server_validity_days = 365

-- `x509.NameAttribute(NameOID.…, value)`
pub data NameAttribute : Type 0 where
  country_name organization_name common_name : Text → NameAttribute

-- `x509.KeyUsage(…)`
pub record KeyUsage : Type 0 where
  pub key_cert_sign : Bool
  pub crl_sign : Bool
  pub digital_signature : Bool
  pub content_commitment : Bool
  pub key_encipherment : Bool
  pub data_encipherment : Bool
  pub key_agreement : Bool
  pub encipher_only : Bool
  pub decipher_only : Bool

-- What a `CertificateBuilder` was given. The issuer is an encoded name; a public key is its
-- encoding.
pub record Template : Type 0 where
  pub subject_name : List NameAttribute
  pub issuer_name : Bytes
  pub public_key : Bytes
  pub serial_number : ℕ
  pub not_valid_before : ℕ
  pub not_valid_after : ℕ
  -- BasicConstraints: `ca` and `path_length`.
  pub ca : Bool
  pub path_length : Option ℕ
  pub key_usage : KeyUsage
  -- ExtendedKeyUsage with SERVER_AUTH.
  pub server_auth : Bool
  pub dns_names : Option (List Text)
  pub subject_key : Option Bytes
  pub authority_key : Option Bytes

-- What pki.py takes from the `cryptography` package to make certificates, for its types of
-- certificates, of Ed25519 keys and of P-256 keys.
pub record Authority (Cert CaKey Key : Type 0) : Type 0 where
  pub ca_public : CaKey → Bytes
  pub key_public : Key → Bytes
  -- `x509.Name(attributes)`, encoded.
  pub encode_name : List NameAttribute → Bytes
  -- `builder.sign(key, algorithm=None, backend=BACKEND)`
  pub sign : CaKey → Template → Result Cert
  -- `cert.public_bytes(PEM)`, `key.private_bytes(PEM, PKCS8, NoEncryption())` and what reads them.
  pub pem : Cert → Bytes
  pub load_pem : Bytes → Result Cert
  pub key_pem : Key → Bytes
  pub load_key_pem : Bytes → Result Key

-- `datetime.now(utc) - timedelta(minutes=1)`: a date in front of the first one raises.
unfoldable pub a_minute_before : ℕ → Result ℕ
a_minute_before now = do
  guard (leb minute now) (external Class.overflow_class (codes "date value out of range"))
  ok (now - minute)

abbrev pub ca_name : List NameAttribute
ca_name =
    country_name (codes "US")
    ∷ organization_name (codes "CSE539 Root CA")
    ∷ common_name (codes "CSE539 Root CA v1")
    ∷ []

abbrev pub server_name : List NameAttribute
server_name =
    country_name (codes "US")
    ∷ organization_name (codes "CSE539 VAULTTLS")
    ∷ common_name (codes "localhost")
    ∷ []

module _ {Cert CaKey Key : Type 0} (A : Authority Cert CaKey Key) where
  abbrev pub ca_template : CaKey → ℕ → ℕ → Template
  ca_template key serial now = record {
    subject_name = ca_name;
    issuer_name = A.encode_name ca_name;
    public_key = A.ca_public key;
    serial_number = serial;
    not_valid_before = now;
    not_valid_after = now + days ca_validity_days;
    ca = true;
    path_length = some 0;
    key_usage = record {
      key_cert_sign = true;
      crl_sign = true;
      digital_signature = true;
      content_commitment = false;
      key_encipherment = false;
      data_encipherment = false;
      key_agreement = false;
      encipher_only = false;
      decipher_only = false;
    };
    server_auth = false;
    dns_names = none;
    subject_key = some (A.ca_public key);
    authority_key = none;
  }

  -- `generate_ca()`, for the key that it generates.
  unfoldable pub generate_ca : CaKey → ℕ → ℕ → Result Cert
  unfolding a_minute_before
  generate_ca key serial clock = do
    now ← a_minute_before clock
    A.sign key (ca_template key serial now)

module _ {Cert CaKey Key : Type 0} (X : X509 Cert) (A : Authority Cert CaKey Key) where
  abbrev pub server_template : CaKey → Cert → Key → ℕ → ℕ → Template
  server_template ca_key ca_cert key serial now = record {
    subject_name = server_name;
    issuer_name = X.subject ca_cert;
    public_key = A.key_public key;
    serial_number = serial;
    not_valid_before = now;
    not_valid_after = now + days server_validity_days;
    ca = false;
    path_length = none;
    key_usage = record {
      key_cert_sign = false;
      crl_sign = false;
      digital_signature = true;
      content_commitment = false;
      key_encipherment = false;
      data_encipherment = false;
      key_agreement = true;
      encipher_only = false;
      decipher_only = false;
    };
    server_auth = true;
    dns_names = some (codes "localhost" ∷ []);
    subject_key = none;
    authority_key = some (A.ca_public ca_key);
  }

  -- `generate_server_cert(ca_key, ca_cert)`, for the key that it generates.
  unfoldable pub generate_server_cert : CaKey → Cert → Key → ℕ → ℕ → Result Cert
  unfolding a_minute_before
  generate_server_cert ca_key ca_cert key serial clock = do
    now ← a_minute_before clock
    A.sign ca_key (server_template ca_key ca_cert key serial now)
