-- ===== src/Tests/Chain.antt =====
-- A certificate chain with stand-ins for the packages: pki.py.
use vaulttls.Prelude.{from_big_endian, bytes_eq, ◌≡◌, refl, ◌↔◌, false, none, some, [], ◌∷◌, Bytes}
use vaulttls.Errors.{ok}
use vaulttls.Pki.{decode_cert_chain, verify_certificate_chain, X509}
use vaulttls.Pki.Trust.{verify_certificate_chain_iff, IsTrusted}
use vaulttls.Kdf.{zeros}

-- A certificate is its bytes: all are issued by one name, valid from 0 to 10, and named "a".
abbrev toy : X509 Bytes
toy = record {
  load_der = λ b. ok b;
  der = λ c. c;
  verify_signature = λ issuer cert. ok tt;
  issuer = λ c. [];
  subject = λ c. [];
  not_before = λ c. 0;
  not_after = λ c. 10;
  basic_constraints = λ c. ok (some false);
  dns_names = λ c. ok none;
  common_names = λ c. (97 ∷ []) ∷ [];
  public_key_bytes = λ c. zeros 65;
  verify_ecdsa = λ c s m. ok tt;
}

abbrev two_certs : Bytes
two_certs = 0 ∷ 0 ∷ 1 ∷ 1 ∷ 0 ∷ 0 ∷ 1 ∷ 2 ∷ []

two_certs_accepted :
    verify_certificate_chain toy two_certs (97 ∷ []) (some (1 ∷ [])) (ok []) 5 ≡ ok (2 ∷ [])
unfolding verify_certificate_chain bytes_eq from_big_endian
two_certs_accepted = refl

verify_certificate_chain_iff_example :
    (verify_certificate_chain toy two_certs (97 ∷ []) (some (1 ∷ [])) (ok []) 5 ≡ ok (2 ∷ [])) ↔ (
      (wire_ca : Bytes) × (decode_cert_chain toy two_certs ≡ ok (wire_ca, 2 ∷ []))
      × IsTrusted toy (97 ∷ []) 5 (1 ∷ []) wire_ca (2 ∷ []))
verify_certificate_chain_iff_example =
    verify_certificate_chain_iff toy two_certs (97 ∷ []) (1 ∷ []) (ok []) 5 (2 ∷ [])
