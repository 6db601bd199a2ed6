-- ===== src/Tests/Issue.antt =====
-- pki.py: a bootstrap with stand-ins for the packages.
use vaulttls.Prelude.{
  zero, suc, arith, ◌+◌, inr, big_endian, some, sym, ◌++◌, inl, suc, refl, ap, ◌⊎◌, [], true, none,
  ◌/◌, false, ◌*◌, ℕ, ◌∷◌, ◌≡◌, List, Bytes, ℕ_discrete,
}
use vaulttls.Pki.Issue.{
  server_validity_days, ca_validity_days, common_name, days, organization_name, server_name,
  country_name, second, ca_name, minute, a_minute_before, generate_server_cert, generate_ca,
  Authority, server_template, ca_template, Template, KeyUsage, NameAttribute,
}
use vaulttls.Errors.{ok_inj, Class, external, ok, err, Result}
use vaulttls.Pki.{verify_certificate_chain, wrap, decode_cert_chain, encode_cert_chain, X509}
use vaulttls.Pki.Bootstrap.{bootstrap_pki_trusted, IssueLaws}
use vaulttls.Pki.Files.{load_certificate, load_private_key, bootstrap_pki, missing, Files, Ceremony}
use vaulttls.Python.{first, to_bytes}
use vaulttls.Pki.Chain.{decode-encode_cert_chain}
use vaulttls.Python.Text.{codes}

NameAttribute-discrete : Discrete NameAttribute
NameAttribute-discrete = hlevel ℕ_discrete

KeyUsage-discrete : Discrete KeyUsage
KeyUsage-discrete = hlevel

Template-discrete : Discrete Template
Template-discrete = hlevel (ℕ_discrete, NameAttribute-discrete, KeyUsage-discrete)

-- A certificate is one of two: the CA's, and the server's.
abbrev ca_cert : Bytes
ca_cert = 1 ∷ []

abbrev server_cert : Bytes
server_cert = 0 ∷ []

abbrev either : {A : Type 0} → A → A → Bytes → A
either a b [] = b
either a b (zero ∷ bs) = b
either a b (suc n ∷ bs) = a

abbrev names_as : List NameAttribute → Bytes
names_as [] = []
names_as (country_name t ∷ names) = t ++ names_as names
names_as (organization_name t ∷ names) = t ++ names_as names
names_as (common_name t ∷ names) = t ++ names_as names

abbrev signing : (Template → Result Bytes) → Authority Bytes ℕ ℕ
signing sign = record {
  ca_public = λ k. k ∷ [];
  key_public = λ k. k ∷ [];
  encode_name = names_as;
  sign = λ k t. sign t;
  pem = λ c. c;
  load_pem = λ b. ok b;
  key_pem = λ k. k ∷ [];
  load_key_pem = λ b. first b;
}

abbrev refused : Result Bytes
refused = err (external Class.other_class [])

abbrev ca_t : Template
ca_t = ca_template (signing (λ t. refused)) 7 1 (100 * minute)

abbrev issued : X509 Bytes
issued = record {
  load_der = λ b. ok b;
  der = λ c. c;
  verify_signature = λ issuer cert. ok tt;
  issuer = λ c. names_as ca_name;
  subject = λ c. either (names_as ca_name) (names_as server_name) c;
  not_before = λ c. either (100 * minute) (200 * minute) c;
  not_after = λ c.
      either (100 * minute + days ca_validity_days) (200 * minute + days server_validity_days) c;
  basic_constraints = λ c. ok (some (either true false c));
  dns_names = λ c. ok (either none (some (codes "localhost" ∷ [])) c);
  common_names = λ c. [];
  public_key_bytes = λ c. either (7 ∷ []) (5 ∷ []) c;
  verify_ecdsa = λ c s m. ok tt;
}

abbrev server_t : Template
server_t = server_template issued (signing (λ t. refused)) 7 ca_cert 5 2 (200 * minute)

signed : Template → Result Bytes
signed t = elim (Template-discrete t ca_t) [
  | yes p ↦ ok ca_cert
  | no n ↦ elim (Template-discrete t server_t) [ yes p ↦ ok server_cert | no m ↦ refused ]
]

abbrev authority : Authority Bytes ℕ ℕ
authority = signing signed

signed_ca : signed ca_t ≡ ok ca_cert
unfolding signed
signed_ca =
    elim (Template-discrete ca_t ca_t)
      as (λ d.
        (elim d as (λ x. Result Bytes) [
          | yes p ↦ ok ca_cert
          | no n ↦ elim (Template-discrete ca_t server_t) [
            | yes p ↦ ok server_cert
            | no m ↦ refused
          ]
        ])
        ≡ ok ca_cert) [ yes p ↦ refl | no n ↦ absurd (n refl) ]

signed-cases :
    (t : Template) {c : Bytes}
    → signed t ≡ ok c
    → ((t ≡ ca_t) × (c ≡ ca_cert)) ⊎ ((t ≡ server_t) × (c ≡ server_cert))
unfolding signed
signed-cases t {c} e = go (Template-discrete t ca_t) (Template-discrete t server_t) e
  where
    go :
        (d : Dec (t ≡ ca_t)) (d' : Dec (t ≡ server_t))
        → (elim d as (λ x. Result Bytes) [
          | yes p ↦ ok ca_cert
          | no n ↦ elim d' as (λ x. Result Bytes) [ yes p ↦ ok server_cert | no m ↦ refused ]
        ])
          ≡ ok c
        → ((t ≡ ca_t) × (c ≡ ca_cert)) ⊎ ((t ≡ server_t) × (c ≡ server_cert))
    go (yes p) d' h = inl (p, sym (ok_inj h))
    go (no n) (yes p) h = inr (p, sym (ok_inj h))
    go (no n) (no m) h = cc

server_is_no_ca : server_t ≡ ca_t → ⊥
server_is_no_ca e = let f : false ≡ true = ap (λ (t : Template). t.ca) e in cc

signed_server : signed server_t ≡ ok server_cert
unfolding signed
signed_server = go (Template-discrete server_t ca_t) (Template-discrete server_t server_t)
  where
    go :
        (d : Dec (server_t ≡ ca_t)) (d' : Dec (server_t ≡ server_t))
        → (elim d as (λ x. Result Bytes) [
          | yes p ↦ ok ca_cert
          | no n ↦ elim d' as (λ x. Result Bytes) [ yes p ↦ ok server_cert | no m ↦ refused ]
        ])
          ≡ ok server_cert
    go (yes p) d' = absurd (server_is_no_ca p)
    go (no n) (yes p) = refl
    go (no n) (no m) = absurd (m refl)

-- A field of a certificate that is the template's for both.
field_is :
    {B : Type 0} (g : Bytes → B) (f : Template → B)
    → g ca_cert ≡ f ca_t
    → g server_cert ≡ f server_t
    → {t : Template} {c : Bytes} → signed t ≡ ok c
    → g c ≡ f t
field_is g f p q {t} {c} e = elim (signed-cases t e) [
  | inl (x, y) ↦ rw (x, y) p
  | inr (x, y) ↦ rw (x, y) q
]

authority-IssueLaws : IssueLaws issued authority
unfolding first
authority-IssueLaws = record {
  subject_is = λ e. field_is issued.subject (λ t. names_as t.subject_name) refl refl e;
  issuer_is = λ e. field_is issued.issuer (λ t. t.issuer_name) refl refl e;
  not_before_is =
      λ e. field_is issued.not_before (λ t. t.not_valid_before / second * second) refl refl e;
  not_after_is =
      λ e. field_is issued.not_after (λ t. t.not_valid_after / second * second) refl refl e;
  ca_is = λ e. field_is issued.basic_constraints (λ t. ok (some t.ca)) refl refl e;
  dns_is = λ e. field_is issued.dns_names (λ t. ok t.dns_names) refl refl e;
  key_is = λ e. field_is issued.public_key_bytes (λ t. t.public_key) refl refl e;
  verifies = λ e f p. refl;
  loads_der = λ c. refl;
  loads_pem = λ c. refl;
  loads_key_pem = λ k. refl;
}

abbrev ceremony : Ceremony ℕ ℕ
ceremony = record {
  ca_key = 7;
  ca_serial = 1;
  ca_now = 101 * minute;
  server_key = 5;
  server_serial = 2;
  server_now = 201 * minute;
  check_now = 201 * minute;
}

abbrev no_files : Files
no_files = record { ca_cert_path = none; server_cert_path = none; server_cert_key_path = none }

ca_made : generate_ca authority 7 1 (101 * minute) ≡ ok ca_cert
unfolding generate_ca a_minute_before
ca_made = signed_ca

server_made : generate_server_cert issued authority 7 ca_cert 5 2 (201 * minute) ≡ ok server_cert
unfolding generate_server_cert a_minute_before
server_made = signed_server

chain_encoded :
    encode_cert_chain issued ca_cert server_cert ≡ ok (0 ∷ 0 ∷ 1 ∷ 1 ∷ 0 ∷ 0 ∷ 1 ∷ 0 ∷ [])
unfolding encode_cert_chain wrap to_bytes big_endian
chain_encoded = refl

none_yet : missing no_files ≡ true
unfolding missing
none_yet = refl

bootstrap_pki_trusted_example :
    (f' : Files) × (bootstrap_pki issued authority false ceremony no_files ≡ (ok tt, f'))
    × (load_private_key authority f'.server_cert_key_path ≡ ok 5)
    × (load_certificate authority f'.server_cert_path ≡ ok server_cert)
    × (issued.public_key_bytes server_cert ≡ authority.key_public 5)
    × (verify_certificate_chain issued
          (0 ∷ 0 ∷ 1 ∷ 1 ∷ 0 ∷ 0 ∷ 1 ∷ 0 ∷ [])
          (codes "localhost")
          none
          (load_certificate authority f'.ca_cert_path)
          (300 * minute)
        ≡ ok server_cert)
    × (bootstrap_pki issued authority false ceremony f' ≡ (ok tt, f'))
bootstrap_pki_trusted_example =
    bootstrap_pki_trusted issued authority authority-IssueLaws ceremony false no_files ceremony
      (300 * minute) (inr none_yet) ca_made server_made chain_encoded (omega arith) (omega arith)
      (omega arith) (omega arith)

decode-encode_cert_chain_example :
    decode_cert_chain issued (0 ∷ 0 ∷ 1 ∷ 1 ∷ 0 ∷ 0 ∷ 1 ∷ 0 ∷ []) ≡ ok (ca_cert, server_cert)
decode-encode_cert_chain_example =
    decode-encode_cert_chain issued ca_cert server_cert refl refl chain_encoded
