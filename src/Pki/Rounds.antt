-- ===== src/Pki/Rounds.antt =====
-- pki.py: the loop over the certificates of a chain.
use vaulttls.Prelude.{
  Bool-cases, from_big_endian, ℕ, zero, suc, ◌+◌, ◌≤◌, ◌≡◌, refl, inl, inr, false, arith, ltb,
  Bytes, length,
}
use vaulttls.Pki.{X509, decode_certs}
use vaulttls.Python.{slice}

module _ {Cert : Type 0} (X : X509 Cert) where
  -- One round for each byte of the chain is enough: any more fuel gives the same.
  decode_certs_enough :
      (fuel more : ℕ) (wire : Bytes) (pos : ℕ)
      → length wire ≤ pos + fuel
      → decode_certs X (fuel + more) wire pos ≡ decode_certs X fuel wire pos
  unfolding decode_certs
  decode_certs_enough zero zero wire pos h = refl
  decode_certs_enough zero (suc more) wire pos h =
      let plus : 0 + suc more ≡ suc more = omega arith in
      let done : ltb pos (length wire) ≡ false = ground arith in rw (plus, done, decode_certs) refl
  decode_certs_enough (suc fuel) more wire pos h =
      let plus : suc fuel + more ≡ suc (fuel + more) = omega arith in
      let n = from_big_endian (slice wire pos (pos + 3)) in
      let again = decode_certs_enough fuel more wire (pos + 3 + n) (omega arith) in
      rw plus (elim (Bool-cases (ltb pos (length wire))) [
        | inr done ↦ rw (done, decode_certs) refl
        | inl on ↦ rw (on, decode_certs) (rw again refl)
      ])
