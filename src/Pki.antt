-- ===== src/Pki.antt =====
-- pki.py: certificate chains, their verification, and the two signatures of a ServerHello.
pub mod Trust
pub mod Chain
pub mod Rounds
pub mod Issue
pub mod Files
pub mod Bootstrap
use vaulttls.Prelude.{
  from_big_endian, bytes_eq, ℕ, zero, suc, ◌+◌, ◌-◌, ◌*◌, ◌/◌, ◌%◌, ◌^◌, ◌≤◌, ◌<◌, ◌≡◌, refl, sym,
  ap, ◌∙◌, subst, ◌≢◌, ◌↔◌, ◌⊎◌, inl, inr, Bool, true, false, ◌&&◌, ◌||◌, Option, none, some, List,
  [], ◌∷◌, ◌++◌, arith, ltb, leb, ◌==◌, if◌then◌else◌, Bytes, IsBytes, length, take, drop,
}
use vaulttls.Errors.{
  name_not_found, expired, not_yet_valid, wrong_issuer, server_signature, chain_body_truncated,
  ca_signature, untrusted_ca, config_signature_invalid, cert_verify_invalid, marked_as_ca,
  chain_length_truncated, no_basic_constraints, chain_count, guard, Exc, Result, ok, err, ◌>>=◌,
  ◌>>◌,
}
use vaulttls.Python.Text.{codes, Text}
use vaulttls.Kdf.{HashSuite, hash_bytes}
use vaulttls.Python.{slice, to_bytes}

-- What pki.py takes from the `cryptography` package, for its type `Cert` of certificates. A name is
-- its encoding; a time is a number of ticks; an extension is `none` where looking it up raises
-- ExtensionNotFound.
pub record X509 (Cert : Type 0) : Type 0 where
  pub load_der : Bytes → Result Cert
  pub der : Cert → Bytes
  -- `issuer.public_key().verify(cert.signature, cert.tbs_certificate_bytes)`
  pub verify_signature : Cert → Cert → Result (Unit {0})
  pub issuer : Cert → Bytes
  pub subject : Cert → Bytes
  pub not_before : Cert → ℕ
  pub not_after : Cert → ℕ
  pub basic_constraints : Cert → Result (Option Bool)
  pub dns_names : Cert → Result (Option (List Text))
  pub common_names : Cert → List Text
  -- `public_key().public_bytes(X962, UncompressedPoint)`
  pub public_key_bytes : Cert → Bytes
  -- `public_key().verify(signature, message, ECDSA(SHA256()))`
  pub verify_ecdsa : Cert → Bytes → Bytes → Result (Unit {0})

-- `except Exception as exc: raise ValueError(…) from exc`
abbrev pub reraise : (Exc → Exc) → Result (Unit {0}) → Result (Unit {0})
reraise wrap (ok u) = ok u
reraise wrap (err e) = err (wrap e)

-- `name in names`
abbrev pub among : Text → List Text → Bool
among name [] = false
among name (n ∷ names) = bytes_eq name n || among name names

abbrev pub cv_prefix : Bytes
cv_prefix =
    let eight = 32 ∷ 32 ∷ 32 ∷ 32 ∷ 32 ∷ 32 ∷ 32 ∷ 32 ∷ [] in
    let half = eight ++ (eight ++ (eight ++ eight)) in half ++ half

abbrev pub cv_label : Bytes
cv_label = codes "CSE539 CertificateVerify" ++ (0 ∷ [])

abbrev pub sc_prefix : Bytes
sc_prefix = codes "CSE539 ServerConfig" ++ (0 ∷ [])

-- `_build_cv_message(transcript_hash, server_hello_core)`
unfoldable pub build_cv_message : HashSuite → Bytes → Bytes → Bytes
unfolding hash_bytes codes
build_cv_message H transcript_hash server_hello_core =
    cv_prefix ++ (cv_label ++ hash_bytes H (transcript_hash ∷ server_hello_core ∷ []))

-- `sign_cert_verify` and `sign_server_config`, with `sign` the server key's ECDSA signature.
unfoldable pub sign_cert_verify : HashSuite → (Bytes → Result Bytes) → Bytes → Bytes → Result Bytes
unfolding build_cv_message
sign_cert_verify H sign transcript_hash server_hello_core =
    sign (build_cv_message H transcript_hash server_hello_core)

unfoldable pub sign_server_config : (Bytes → Result Bytes) → Bytes → Result Bytes
unfolding codes
sign_server_config sign server_config = sign (sc_prefix ++ server_config)

module _ {Cert : Type 0} (X : X509 Cert) where
  -- `_wrap(cert)`
  unfoldable pub wrap : Cert → Result Bytes
  wrap cert = do n ← to_bytes 3 (length (X.der cert)); ok (n ++ X.der cert)

  -- `encode_cert_chain(ca_cert, srv_cert)`
  unfoldable pub encode_cert_chain : Cert → Cert → Result Bytes
  unfolding wrap
  encode_cert_chain ca_cert srv_cert = do ca ← wrap ca_cert; srv ← wrap srv_cert; ok (ca ++ srv)

  -- The loop of `_decode_cert_chain`, on fuel: each round moves `pos` on by 3 at least.
  unfoldable pub decode_certs : ℕ → Bytes → ℕ → Result (List Cert)
  decode_certs zero wire pos = ok []
  decode_certs (suc fuel) wire pos = elim (ltb pos (length wire)) [
    | false ↦ ok []
    | true ↦ (do
      guard (leb (pos + 3) (length wire)) chain_length_truncated
      let n = from_big_endian (slice wire pos (pos + 3))
      guard (leb (pos + 3 + n) (length wire)) chain_body_truncated
      cert ← X.load_der (slice wire (pos + 3) (pos + 3 + n))
      certs ← decode_certs fuel wire (pos + 3 + n)
      ok (cert ∷ certs))
  ]

  -- The two certificates of a list of just two.
  unfoldable pub exactly_two : List Cert → Result (Cert × Cert)
  exactly_two (ca ∷ srv ∷ []) = ok (ca, srv)
  exactly_two [] = err (chain_count 0)
  exactly_two (ca ∷ []) = err (chain_count 1)
  exactly_two (ca ∷ srv ∷ more ∷ certs) = err (chain_count (3 + length certs))

  -- `_decode_cert_chain(data)`
  unfoldable pub decode_cert_chain : Bytes → Result (Cert × Cert)
  unfolding decode_certs exactly_two
  decode_cert_chain wire = do certs ← decode_certs (length wire) wire 0; exactly_two certs

  -- The check of BasicConstraints, on what looking it up gave.
  unfoldable pub check_constraints : Option Bool → Result (Unit {0})
  check_constraints none = err no_basic_constraints
  check_constraints (some true) = err marked_as_ca
  check_constraints (some false) = ok tt

  abbrev pub names_or_none : Option (List Text) → List Text
  names_or_none none = []
  names_or_none (some names) = names

  -- `verify_certificate_chain` from the decoded chain and the pinned CA on.
  unfoldable pub check_chain : Text → ℕ → Cert → Cert → Cert → Result Cert
  unfolding check_constraints
  check_chain expected_name now pinned wire_ca srv = do
    guard (bytes_eq (X.der wire_ca) (X.der pinned)) untrusted_ca
    reraise ca_signature (X.verify_signature pinned pinned)
    reraise server_signature (X.verify_signature pinned srv)
    guard (bytes_eq (X.issuer srv) (X.subject pinned)) wrong_issuer
    guard (leb (X.not_before srv) now) not_yet_valid
    guard (leb now (X.not_after srv)) expired
    constraints ← X.basic_constraints srv
    check_constraints constraints
    dns ← X.dns_names srv
    guard (among expected_name (names_or_none dns ++ X.common_names srv)) name_not_found
    ok srv

  -- `verify_certificate_chain(cert_chain_bytes, expected_name, trusted_ca_cert)`, with the CA
  -- certificate that the file holds and the time.
  unfoldable pub verify_certificate_chain :
      Bytes → Text → Option Cert → Result Cert → ℕ → Result Cert
  unfolding decode_cert_chain check_chain
  verify_certificate_chain chain expected_name trusted on_disk now = do
    pair ← decode_cert_chain chain
    pinned ← elim trusted [ some ca ↦ ok ca | none ↦ on_disk ]
    check_chain expected_name now pinned pair.0 pair.1

  -- `verify_certificate_verify_signature`
  unfoldable pub verify_certificate_verify_signature :
      HashSuite → Bytes → Bytes → Bytes → Cert → Result (Unit {0})
  unfolding build_cv_message
  verify_certificate_verify_signature H signature transcript_hash core cert =
      reraise cert_verify_invalid
        (X.verify_ecdsa cert signature (build_cv_message H transcript_hash core))

  -- `verify_server_config_signature`
  unfoldable pub verify_server_config_signature : Bytes → Bytes → Cert → Result (Unit {0})
  unfolding codes
  verify_server_config_signature server_config signature cert =
      reraise config_signature_invalid (X.verify_ecdsa cert signature (sc_prefix ++ server_config))
