-- ===== src/Pki/Chain.antt =====
-- pki.py: the two certificates of a chain survive its encoding.
use vaulttls.Prelude.{
  append-nil, le→leb, lt→ltb, from_big_endian-big_endian, from_big_endian, take-append, drop_prefix,
  drop-drop, take_prefix, drop-append, append_assoc, length-append, length-big_endian, big_endian,
  ℕ, zero, suc, ◌+◌, ◌-◌, ◌^◌, ◌≤◌, ◌<◌, ◌≡◌, refl, sym, ap, ◌∙◌, subst, true, [], ◌∷◌, ◌++◌, arith,
  ltb, leb, Bytes, length, drop,
}
use vaulttls.Errors.{ok_inj, >>=-eq-ok, ok, ◌>>=◌}
use vaulttls.Pki.{exactly_two, encode_cert_chain, decode_cert_chain, wrap, decode_certs, X509}
use vaulttls.Python.{slice, to_bytes-eq_ok, to_bytes}

module _ {Cert : Type 0} (X : X509 Cert) where
  -- A round of the loop at a certificate.
  decode_certs_round :
      (fuel : ℕ) (front body more : Bytes) {cert : Cert}
      → length body < 256 ^ 3
      → X.load_der body ≡ ok cert
      → decode_certs X
          (suc fuel)
          (front ++ ((big_endian 3 (length body) ++ body) ++ more))
          (length front)
        ≡ (do
          certs ←
              decode_certs X fuel
                (front ++ ((big_endian 3 (length body) ++ body) ++ more))
                (length front + 3 + length body)
          ok (cert ∷ certs))
  unfolding decode_certs
  decode_certs_round fuel front body more {cert} fits loads =
      let n = length body in
      let head = big_endian 3 n in
      let wire = front ++ ((head ++ body) ++ more) in
      let three : length head ≡ 3 = length-big_endian 3 n in
      let size : length wire ≡ length front + (3 + n + length more) = omega (
        arith,
        three,
        length-append front ((head ++ body) ++ more),
        length-append (head ++ body) more,
        length-append head body,
      ) in
      let split : (head ++ body) ++ more ≡ head ++ (body ++ more) = append_assoc head body more in
      let first_slice : slice wire (length front) (length front + 3) ≡ head =
        let d : length front + 3 - length front ≡ 3 = omega arith in
        rw (d, drop-append front ((head ++ body) ++ more), split)
          (take_prefix 3 head (body ++ more) three) in
      let behind : drop (length front + 3) wire ≡ body ++ more =
        sym (drop-drop (length front) 3 wire)
        ∙ ap (drop 3) (drop-append front ((head ++ body) ++ more) ∙ split)
        ∙ drop_prefix 3 head (body ++ more) three in
      let second_slice : slice wire (length front + 3) (length front + 3 + n) ≡ body =
        let d : length front + 3 + n - (length front + 3) ≡ n = omega arith in
        rw (d, behind) (take-append body more) in
      let number : from_big_endian (slice wire (length front) (length front + 3)) ≡ n =
        ap from_big_endian first_slice ∙ from_big_endian-big_endian 3 n fits in
      let more_left : ltb (length front) (length wire) ≡ true = lt→ltb _ _ (omega (arith, size)) in
      let length_there : leb (length front + 3) (length wire) ≡ true =
        le→leb _ _ (omega (arith, size)) in
      let body_there : leb (length front + 3 + n) (length wire) ≡ true =
        le→leb _ _ (omega (arith, size)) in
      rw (more_left, length_there, number, body_there, second_slice, loads, decode_certs) refl

  decode_certs_end :
      (fuel : ℕ) (wire : Bytes) (pos : ℕ) → length wire ≤ pos → decode_certs X fuel wire pos ≡ ok []
  unfolding decode_certs
  decode_certs_end zero wire pos h = refl
  decode_certs_end (suc fuel) wire pos h = ground arith

  wrap-eq_ok :
      (cert : Cert) {w : Bytes}
      → wrap X cert ≡ ok w
      → (length (X.der cert) < 256 ^ 3) × (w ≡ big_endian 3 (length (X.der cert)) ++ X.der cert)
  unfolding wrap
  wrap-eq_ok cert e =
      let (n, p, q) = >>=-eq-ok (to_bytes 3 (length (X.der cert))) _ e in
      let (fits, is) = to_bytes-eq_ok 3 (length (X.der cert)) p in
      (fits, sym (ok_inj q) ∙ ap (λ b. b ++ X.der cert) is)

  -- Two certificates that were encoded are decoded, if the package loads the DER that it writes.
  pub decode-encode_cert_chain :
      (ca srv : Cert) {chain : Bytes}
      → X.load_der (X.der ca) ≡ ok ca
      → X.load_der (X.der srv) ≡ ok srv
      → encode_cert_chain X ca srv ≡ ok chain
      → decode_cert_chain X chain ≡ ok (ca, srv)
  unfolding decode_cert_chain encode_cert_chain
  decode-encode_cert_chain ca srv {chain} lc ls e =
      let (a, p, e1) = >>=-eq-ok (wrap X ca) _ e in
      let (b, q, e2) = >>=-eq-ok (wrap X srv) _ e1 in
      let (fa, wa) = wrap-eq_ok ca p in
      let (fb, wb) = wrap-eq_ok srv q in
      let whole : chain ≡ a ++ b = sym (ok_inj e2) in
      subst (λ w. (decode_certs X (length w) w 0 >>= exactly_two X) ≡ ok (ca, srv))
        (sym (whole ∙ (λ i. wa i ++ wb i))) (ap (λ r. r >>= exactly_two X) (both fa fb lc ls))
    where
      both :
          length (X.der ca) < 256 ^ 3
          → length (X.der srv) < 256 ^ 3
          → X.load_der (X.der ca) ≡ ok ca
          → X.load_der (X.der srv) ≡ ok srv
          → decode_certs X
              (length (
                (big_endian 3 (length (X.der ca)) ++ X.der ca)
                ++ (big_endian 3 (length (X.der srv)) ++ X.der srv)))
              ((big_endian 3 (length (X.der ca)) ++ X.der ca)
                ++ (big_endian 3 (length (X.der srv)) ++ X.der srv))
              0
            ≡ ok (ca ∷ srv ∷ [])
      both fa fb lc ls =
          let na = length (X.der ca) in
          let nb = length (X.der srv) in
          let front = big_endian 3 na ++ X.der ca in
          let back = big_endian 3 nb ++ X.der srv in
          let la : length front ≡ 3 + na =
            omega (arith, length-append (big_endian 3 na) (X.der ca), length-big_endian 3 na) in
          let lb : length back ≡ 3 + nb =
            omega (arith, length-append (big_endian 3 nb) (X.der srv), length-big_endian 3 nb) in
          let size : length (front ++ back) ≡ suc (suc (4 + na + nb)) =
            omega (arith, length-append front back, la, lb) in
          let last =
            decode_certs_end (4 + na + nb) (front ++ back) (length front + 3 + nb)
              (omega (arith, length-append front back, la, lb)) in
          let second = decode_certs_round (4 + na + nb) front (X.der srv) [] fb ls in
          let second' : decode_certs X (suc (4 + na + nb)) (front ++ back) (length front)
              ≡ ok (srv ∷ []) =
            (rw (append-nil back) at second) ∙ ap (λ r. r >>= λ certs. ok (srv ∷ certs)) last in
          ap (λ n. decode_certs X n (front ++ back) 0) size
          ∙ decode_certs_round (suc (4 + na + nb)) [] (X.der ca) back fa lc
          ∙ ap
              (λ n.
                decode_certs X (suc (4 + na + nb)) (front ++ back) n >>= λ certs. ok (ca ∷ certs))
              (sym la)
          ∙ ap (λ r. r >>= λ certs. ok (ca ∷ certs)) second'
