-- ===== src/Kdf/Schedule.antt =====
-- tls13_kdf.py: the key schedule never raises, and its secrets have their length.
use vaulttls.Prelude.{
  big_endian, length-append, ℕ, ◌*◌, ◌^◌, ◌≤◌, ◌<◌, ◌≡◌, refl, [], ◌∷◌, ◌++◌, arith, Bytes, length,
}
use vaulttls.Errors.{ok}
use vaulttls.Kdf.{
  zeros, derive_traffic_secrets, hash_bytes, hkdf_extract, hkdf_expand_label, TrafficSecrets,
  derive_secret, hkdf_label, HashSuite,
}
use vaulttls.Python.Text.{codes}
use vaulttls.Python.{one_byte_fits, struct_pack_fits}

-- What the package documents of HKDF-Expand with SHA-512: it gives up to 255 * 64 bytes. Hashes and
-- HMACs have 64 bytes.
pub record HashLaws (H : HashSuite) : Type 0 where
  pub hash_length : (m : Bytes) → length (H.sha512 m) ≡ 64
  pub expands :
      (len : ℕ) (info secret : Bytes)
      → len ≤ 255 * 64
      → (o : Bytes) × (H.hkdf_expand len info secret ≡ ok o) × (length o ≡ len)

module _ (H : HashSuite) where
  label_fits :
      (label context : Bytes) (len : ℕ)
      → len < 256 ^ 2
      → length label ≤ 249
      → length context ≤ 255
      → (w : Bytes) × (hkdf_label label context len ≡ ok w)
  unfolding hkdf_label
  label_fits label context len a b c =
      let full : length (codes "tls13 " ++ label) < 256 =
        omega (arith, length-append (codes "tls13 ") label, prefix_length) in
      (
        big_endian 2 len
            ++ (((length (codes "tls13 " ++ label) ∷ []) ++ (codes "tls13 " ++ label))
                ++ ((length context ∷ []) ++ context)),
        rw (
          struct_pack_fits 2 len a,
          one_byte_fits _ full,
          one_byte_fits (length context) (omega arith),
        ),
      )
    where
      prefix_length : length (codes "tls13 ") ≡ 6
      prefix_length = unfold codes in refl

  derive_secret_total :
      HashLaws H
      → (secret label th : Bytes) → length label ≤ 249
      → length th ≤ 255
      → (o : Bytes) × (derive_secret H secret label th ≡ ok o) × (length o ≡ 64)
  unfolding derive_secret hkdf_expand_label
  derive_secret_total L secret label th a b =
      let (w, e) = label_fits label th 64 (omega arith) a b in
      let (o, f, l) = L.expands 64 w secret (omega arith) in (o, rw e f, l)

  empty_hash_fits : HashLaws H → length (hash_bytes H ([] ∷ [])) ≤ 255
  unfolding hash_bytes
  empty_hash_fits L = omega (arith, L.hash_length [])

  -- With hashes of 64 bytes and an expansion that gives up to 255 * 64 bytes, the schedule never
  -- raises from a transcript hash of at most 255 bytes, and each of its five secrets has 64 bytes.
  pub derive_traffic_secrets_total :
      HashLaws H
      → (key th : Bytes) → length th ≤ 255
      → (s : TrafficSecrets) × (derive_traffic_secrets H key th ≡ ok s)
        × (length s.client_hs ≡ 64)
        × (length s.server_hs ≡ 64)
        × (length s.client_app ≡ 64)
        × (length s.server_app ≡ 64)
        × (length s.exporter ≡ 64)
  unfolding derive_traffic_secrets codes
  derive_traffic_secrets_total L key th h =
      let empty : length (hash_bytes H ([] ∷ [])) ≤ 255 = empty_hash_fits L in
      let (d0, p0, _) =
        derive_secret_total L (hkdf_extract H (zeros 64) []) (codes "derived")
          (hash_bytes H ([] ∷ [])) (omega arith) empty in
      let (ch, p1, l1) =
        derive_secret_total L (hkdf_extract H d0 key) (codes "c hs traffic") th (omega arith) h in
      let (sh, p2, l2) =
        derive_secret_total L (hkdf_extract H d0 key) (codes "s hs traffic") th (omega arith) h in
      let (d1, p3, _) =
        derive_secret_total L (hkdf_extract H d0 key) (codes "derived") (hash_bytes H ([] ∷ []))
          (omega arith) empty in
      let (ca, p4, l4) =
        derive_secret_total L (hkdf_extract H d1 []) (codes "c ap traffic") th (omega arith) h in
      let (sa, p5, l5) =
        derive_secret_total L (hkdf_extract H d1 []) (codes "s ap traffic") th (omega arith) h in
      let (ex, p6, l6) =
        derive_secret_total L (hkdf_extract H d1 []) (codes "exp master") th (omega arith) h in
      (
        record { client_hs = ch; server_hs = sh; client_app = ca; server_app = sa; exporter = ex },
        rw p0 (rw p1 (rw p2 (rw p3 (rw p4 (rw p5 (rw p6)))))),
        l1,
        l2,
        l4,
        l5,
        l6,
      )
