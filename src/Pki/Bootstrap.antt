-- ===== src/Pki/Bootstrap.antt =====
-- pki.py: a server that made its files can be trusted by a client that has the CA's.
use vaulttls.Prelude.{
  not, bytes_eq_refl, leb→le, ℕ, ◌+◌, ◌*◌, ◌/◌, ◌≤◌, ◌≡◌, refl, ◌∙◌, ◌⊎◌, Bool, true, false, ◌&&◌,
  none, some, [], ◌∷◌, arith, leb, Bytes,
}
use vaulttls.Errors.{>>=-eq-ok, ok_inj, guard-eq_ok, Result, ok}
use vaulttls.Pki.{verify_certificate_chain, encode_cert_chain, X509}
use vaulttls.Pki.Issue.{
  server_validity_days, days, generate_server_cert, server_template, generate_ca, ca_template,
  second, Template, minute, Authority, a_minute_before,
}
use vaulttls.Pki.Files.{
  load_private_key, load_certificate, missing, make_pki, bootstrap_pki, Files, Ceremony,
}
use vaulttls.Pki.Trust.{verify_certificate_chain_iff, IsTrusted}
use vaulttls.Python.Text.{Text, codes}
use vaulttls.Pki.Chain.{decode-encode_cert_chain}

-- What the program relies on: a certificate carries what its builder was given, with times in whole
-- seconds; one that a key signed verifies under each that holds the key's public half; what was
-- written as DER or PEM is read back.
pub record IssueLaws {Cert CaKey Key : Type 0} (X : X509 Cert) (A : Authority Cert CaKey Key)
    : Type 0 where
  pub subject_is :
      {k : CaKey} {t : Template} {c : Cert}
      → A.sign k t ≡ ok c
      → X.subject c ≡ A.encode_name t.subject_name
  pub issuer_is :
      {k : CaKey} {t : Template} {c : Cert} → A.sign k t ≡ ok c → X.issuer c ≡ t.issuer_name
  pub not_before_is :
      {k : CaKey} {t : Template} {c : Cert}
      → A.sign k t ≡ ok c
      → X.not_before c ≡ t.not_valid_before / second * second
  pub not_after_is :
      {k : CaKey} {t : Template} {c : Cert}
      → A.sign k t ≡ ok c
      → X.not_after c ≡ t.not_valid_after / second * second
  pub ca_is :
      {k : CaKey} {t : Template} {c : Cert}
      → A.sign k t ≡ ok c
      → X.basic_constraints c ≡ ok (some t.ca)
  pub dns_is :
      {k : CaKey} {t : Template} {c : Cert} → A.sign k t ≡ ok c → X.dns_names c ≡ ok t.dns_names
  pub key_is :
      {k : CaKey} {t : Template} {c : Cert}
      → A.sign k t ≡ ok c
      → X.public_key_bytes c ≡ t.public_key
  pub verifies :
      {k : CaKey} {t u : Template} {c d : Cert}
      → A.sign k t ≡ ok c
      → A.sign k u ≡ ok d
      → u.public_key ≡ A.ca_public k
      → X.verify_signature d c ≡ ok tt
  pub loads_der : (c : Cert) → X.load_der (X.der c) ≡ ok c
  pub loads_pem : (c : Cert) → A.load_pem (A.pem c) ≡ ok c
  pub loads_key_pem : (k : Key) → A.load_key_pem (A.key_pem k) ≡ ok k

a_minute_before-eq_ok :
    (clock : ℕ) {now : ℕ} → a_minute_before clock ≡ ok now → clock ≡ now + minute
unfolding a_minute_before
a_minute_before-eq_ok clock e =
    let (late, q) = guard-eq_ok (leb minute clock) _ _ e in
    let same = ok_inj q in omega (arith, leb→le minute clock late, same)

-- What a ceremony has signed.
record Made {Cert CaKey Key : Type 0} (X : X509 Cert) (A : Authority Cert CaKey Key)
    (c : Ceremony CaKey Key) (ca srv : Cert) : Type 0 where
  ca_now : ℕ
  now : ℕ
  minute_past : c.server_now ≡ now + minute
  ca_signed : A.sign c.ca_key (ca_template A c.ca_key c.ca_serial ca_now) ≡ ok ca
  srv_signed :
      A.sign c.ca_key (server_template X A c.ca_key ca c.server_key c.server_serial now) ≡ ok srv

module _ {Cert CaKey Key : Type 0} (X : X509 Cert) (A : Authority Cert CaKey Key)
    (laws : IssueLaws X A) (c : Ceremony CaKey Key) where
  generated-Made :
      {ca srv : Cert}
      → generate_ca A c.ca_key c.ca_serial c.ca_now ≡ ok ca
      → generate_server_cert X A c.ca_key ca c.server_key c.server_serial c.server_now ≡ ok srv
      → Made X A c ca srv
  unfolding generate_ca generate_server_cert
  generated-Made e f =
      let (ca_now, p, p1) = >>=-eq-ok (a_minute_before c.ca_now) _ e in
      let (now, q, q1) = >>=-eq-ok (a_minute_before c.server_now) _ f in
      record {
        ca_now = ca_now;
        now = now;
        minute_past = a_minute_before-eq_ok c.server_now q;
        ca_signed = p1;
        srv_signed = q1;
      }

  -- The server's certificate is trusted while it is valid.
  Made-IsTrusted :
      {ca srv : Cert} (now : ℕ)
      → Made X A c ca srv
      → c.server_now ≤ now + minute
      → now + minute + second ≤ c.server_now + days server_validity_days
      → IsTrusted X (codes "localhost") now ca ca srv
  Made-IsTrusted {ca} {srv} now m early late = record {
    same_ca = refl;
    ca_signed = laws.verifies m.ca_signed m.ca_signed refl;
    srv_signed = laws.verifies m.srv_signed m.ca_signed refl;
    issuer_is = laws.issuer_is m.srv_signed;
    begun = omega (arith, laws.not_before_is m.srv_signed, m.minute_past);
    not_over = omega (arith, laws.not_after_is m.srv_signed, m.minute_past);
    no_ca = laws.ca_is m.srv_signed;
    dns = some (codes "localhost" ∷ []);
    dns_is = laws.dns_is m.srv_signed;
    named = rw (bytes_eq_refl (codes "localhost")) refl;
  }

  chain_accepted :
      {ca srv : Cert} {chain : Bytes} (now : ℕ) (on_disk : Result Cert)
      → Made X A c ca srv
      → encode_cert_chain X ca srv ≡ ok chain
      → c.server_now ≤ now + minute
      → now + minute + second ≤ c.server_now + days server_validity_days
      → verify_certificate_chain X chain (codes "localhost") (some ca) on_disk now ≡ ok srv
  chain_accepted {ca} {srv} {chain} now on_disk m e early late =
      (verify_certificate_chain_iff X chain (codes "localhost") ca on_disk now srv).1 (
        ca,
        decode-encode_cert_chain X ca srv (laws.loads_der ca) (laws.loads_der srv) e,
        Made-IsTrusted now m early late,
      )

  -- Without a certificate at hand the CA's is read from its file.
  pinned_from_disk :
      (chain : Bytes) (name : Text) (now : ℕ) {content : Bytes} {ca : Cert} (r : Result Cert)
      → A.load_pem content ≡ ok ca
      → verify_certificate_chain X chain name none (load_certificate A (some content)) now
        ≡ verify_certificate_chain X chain name (some ca) r now
  unfolding verify_certificate_chain load_certificate
  pinned_from_disk chain name now r e = rw e refl

  abbrev written : Cert → Cert → Files
  written ca srv = record {
    ca_cert_path = some (A.pem ca);
    server_cert_path = some (A.pem srv);
    server_cert_key_path = some (A.key_pem c.server_key);
  }

  -- A `bootstrap_pki` that is forced, or that finds a file missing, and whose certificates the
  -- package signs and the chain can encode, returns if it checks them within their year. It leaves
  -- the server its private key and the certificate of that key; a client that holds the CA's file
  -- accepts the server's chain for "localhost" throughout that year; and another `bootstrap_pki`
  -- that is not forced leaves the files as they are.
  -- The package keeps the laws above.
  pub bootstrap_pki_trusted :
      (force : Bool) (f : Files) (again : Ceremony CaKey Key) (now : ℕ) {ca srv : Cert}
      {chain : Bytes}
      → (force ≡ true) ⊎ (missing f ≡ true)
      → generate_ca A c.ca_key c.ca_serial c.ca_now ≡ ok ca
      → generate_server_cert X A c.ca_key ca c.server_key c.server_serial c.server_now ≡ ok srv
      → encode_cert_chain X ca srv ≡ ok chain
      → c.server_now ≤ c.check_now + minute
      → c.check_now + minute + second ≤ c.server_now + days server_validity_days
      → c.server_now ≤ now + minute
      → now + minute + second ≤ c.server_now + days server_validity_days
      → (f' : Files) × (bootstrap_pki X A force c f ≡ (ok tt, f'))
        × (load_private_key A f'.server_cert_key_path ≡ ok c.server_key)
        × (load_certificate A f'.server_cert_path ≡ ok srv)
        × (X.public_key_bytes srv ≡ A.key_public c.server_key)
        × (verify_certificate_chain X chain
              (codes "localhost")
              none
              (load_certificate A f'.ca_cert_path)
              now
            ≡ ok srv)
        × (bootstrap_pki X A false again f' ≡ (ok tt, f'))
  unfolding bootstrap_pki make_pki missing load_certificate load_private_key
      verify_certificate_chain
  bootstrap_pki_trusted force f again now {ca} {srv} {chain} needed e1 e2 e3 s1 s2 t1 t2 =
      let m = generated-Made e1 e2 in
      let checked = chain_accepted c.check_now (A.load_pem (A.pem ca)) m e3 s1 s2 in
      let accepted = chain_accepted now (A.load_pem (A.pem ca)) m e3 t1 t2 in
      let goes_on : (not force && not (missing f)) ≡ false = ground (arith, needed) in
      (
        written ca srv,
        rw (goes_on, e1, e2, e3, checked) refl,
        laws.loads_key_pem c.server_key,
        laws.loads_pem srv,
        laws.key_is m.srv_signed,
        pinned_from_disk chain (codes "localhost") now (A.load_pem (A.pem ca)) (laws.loads_pem ca)
            ∙ accepted,
        refl,
      )
