-- ===== src/Pki/Trust.antt =====
-- pki.py: which chains the client trusts.
use vaulttls.Prelude.{
  leb→le, bytes_eq→eq, le→leb, bytes_eq, bytes_eq_refl, ℕ, ◌≤◌, ◌≡◌, refl, sym, ap, ◌∙◌, subst, ◌↔◌,
  Bool, true, false, Option, none, some, List, ◌++◌, leb, Bytes,
}
use vaulttls.Errors.{
  ok_inj, server_signature, ca_signature, >>=-eq-ok, guard-eq_ok, Exc, Result, ok, err, ◌>>◌,
}
use vaulttls.Pki.{
  names_or_none, decode_cert_chain, reraise, among, verify_certificate_chain, check_chain,
  check_constraints, X509,
}
use vaulttls.Python.Text.{Text}

module _ {Cert : Type 0} (X : X509 Cert) where
  -- What a server certificate must be under a pinned CA, at a time.
  pub record IsTrusted (name : Text) (now : ℕ) (pinned wire_ca srv : Cert) : Type 0 where
    pub same_ca : X.der wire_ca ≡ X.der pinned
    pub ca_signed : X.verify_signature pinned pinned ≡ ok tt
    pub srv_signed : X.verify_signature pinned srv ≡ ok tt
    pub issuer_is : X.issuer srv ≡ X.subject pinned
    pub begun : X.not_before srv ≤ now
    pub not_over : now ≤ X.not_after srv
    pub no_ca : X.basic_constraints srv ≡ ok (some false)
    pub dns : Option (List Text)
    pub dns_is : X.dns_names srv ≡ ok dns
    pub named : among name (names_or_none X dns ++ X.common_names srv) ≡ true

  reraise-eq_ok :
      (w : Exc → Exc) (r : Result (Unit {0})) {A : Type 0} (k : Result A) {a : A}
      → (reraise w r >> k) ≡ ok a
      → (r ≡ ok tt) × (k ≡ ok a)
  reraise-eq_ok w (ok tt) k h = (refl, h)
  reraise-eq_ok w (err e) k h = cc

  constraints-eq_ok :
      (o : Option Bool) (k : Result Cert) {a : Cert}
      → (check_constraints X o >> k) ≡ ok a
      → (o ≡ some false) × (k ≡ ok a)
  unfolding check_constraints
  constraints-eq_ok none k h = cc
  constraints-eq_ok (some true) k h = cc
  constraints-eq_ok (some false) k h = (refl, h)

  check_chain-IsTrusted :
      (name : Text) (now : ℕ) (pinned wire_ca srv : Cert) {cert : Cert}
      → check_chain X name now pinned wire_ca srv ≡ ok cert
      → IsTrusted name now pinned wire_ca srv × (cert ≡ srv)
  unfolding check_chain
  check_chain-IsTrusted name now pinned wire_ca srv e =
      let (ca, e1) = guard-eq_ok (bytes_eq (X.der wire_ca) (X.der pinned)) _ _ e in
      let (s1, e2) = reraise-eq_ok ca_signature (X.verify_signature pinned pinned) _ e1 in
      let (s2, e3) = reraise-eq_ok server_signature (X.verify_signature pinned srv) _ e2 in
      let (i, e4) = guard-eq_ok (bytes_eq (X.issuer srv) (X.subject pinned)) _ _ e3 in
      let (b, e5) = guard-eq_ok (leb (X.not_before srv) now) _ _ e4 in
      let (o, e6) = guard-eq_ok (leb now (X.not_after srv)) _ _ e5 in
      let (c, pc, e7) = >>=-eq-ok (X.basic_constraints srv) _ e6 in
      let (none_ca, e8) = constraints-eq_ok c _ e7 in
      let (dns, pd, e9) = >>=-eq-ok (X.dns_names srv) _ e8 in
      let (n, e10) = guard-eq_ok (among name (names_or_none X dns ++ X.common_names srv)) _ _ e9 in
      (
        record {
          same_ca = bytes_eq→eq (X.der wire_ca) (X.der pinned) ca;
          ca_signed = s1;
          srv_signed = s2;
          issuer_is = bytes_eq→eq (X.issuer srv) (X.subject pinned) i;
          begun = leb→le (X.not_before srv) now b;
          not_over = leb→le now (X.not_after srv) o;
          no_ca = pc ∙ ap ok none_ca;
          dns = dns;
          dns_is = pd;
          named = n;
        },
        sym (ok_inj e10),
      )

  IsTrusted-check_chain :
      (name : Text) (now : ℕ) (pinned wire_ca srv : Cert)
      → IsTrusted name now pinned wire_ca srv
      → check_chain X name now pinned wire_ca srv ≡ ok srv
  unfolding check_chain check_constraints
  IsTrusted-check_chain name now pinned wire_ca srv t =
      let r1 = bytes_eq_refl (X.der pinned) in
      let r2 = bytes_eq_refl (X.subject pinned) in
      let l1 = le→leb (X.not_before srv) now t.begun in
      let l2 = le→leb now (X.not_after srv) t.not_over in
      rw
        (
          t.same_ca, r1, t.ca_signed, t.srv_signed, t.issuer_is, r2, l1, l2, t.no_ca, t.dns_is,
          t.named,
        )
        refl

  -- With a pinned CA, a chain is accepted exactly if its bytes decode to two certificates, the first
  -- with the pinned one's bytes, and the second, which is returned, is signed by the pinned CA, names
  -- it as its issuer, is valid at the time, is no CA by its BasicConstraints and carries the expected
  -- name among its DNS names or common names; the pinned CA must have signed itself.
  pub verify_certificate_chain_iff :
      (chain : Bytes) (name : Text) (pinned : Cert) (on_disk : Result Cert) (now : ℕ) (srv : Cert)
      → (verify_certificate_chain X chain name (some pinned) on_disk now ≡ ok srv) ↔ (
          (wire_ca : Cert) × (decode_cert_chain X chain ≡ ok (wire_ca, srv))
          × IsTrusted name now pinned wire_ca srv)
  unfolding verify_certificate_chain
  verify_certificate_chain_iff chain name pinned on_disk now srv = (
    λ e.
        let (pair, p, q) = >>=-eq-ok (decode_cert_chain X chain) _ e in
        let (t, same) = check_chain-IsTrusted name now pinned pair.0 pair.1 q in
        (
          pair.0,
          p ∙ ap (λ (c : Cert). ok (pair.0, c)) (sym same),
          subst (IsTrusted name now pinned pair.0) (sym same) t,
        ),
    λ (wire_ca, p, t). rw p (IsTrusted-check_chain name now pinned wire_ca srv t),
  )
