-- ===== src/Opaque/RoundTrip.antt =====
-- opaque_adapter.py: KE1 and KE2 are read back as they were packed.
use vaulttls.Prelude.{
  from_big_endian-big_endian, from_big_endian, append-nil, length-big_endian, drop_prefix,
  take_prefix, drop-drop, ℕ, ◌+◌, ◌-◌, ◌≡◌, refl, sym, ap, ◌∙◌, [], ◌++◌, arith, Bytes, length,
  drop,
}
use vaulttls.Errors.{ok_inj, >>=-eq-ok, ok}
use vaulttls.Python.{to_bytes-eq_ok, to_bytes, slice}
use vaulttls.Opaque.Wire.{pack_ke2, pack_ke1, unpack_ke2, Ke2, unpack_ke1}

slice_lem :
    (w : Bytes) (a n : ℕ) (x r : Bytes) → drop a w ≡ x ++ r → length x ≡ n → slice w a (a + n) ≡ x
slice_lem w a n x r e l = let d : a + n - a ≡ n = omega arith in rw (d, e) (take_prefix n x r l)

-- Past a piece of the known length.
past : (w : Bytes) (a n : ℕ) (x r : Bytes) → drop a w ≡ x ++ r → length x ≡ n → drop (a + n) w ≡ r
past w a n x r e l = sym (drop-drop a n w) ∙ ap (drop n) e ∙ drop_prefix n x r l

-- KE1 of a point of 33 bytes and a nonce of 32 bytes is read back.
pub unpack-pack_ke1 :
    (m nonce_c c_eph_pub : Bytes)
    → length m ≡ 33
    → length nonce_c ≡ 32
    → unpack_ke1 (pack_ke1 m nonce_c c_eph_pub) ≡ (m, nonce_c, c_eph_pub)
unfolding unpack_ke1 pack_ke1
unpack-pack_ke1 m nonce_c c_eph_pub l k =
    let w = m ++ (nonce_c ++ c_eph_pub) in
    let d1 : drop 33 w ≡ nonce_c ++ c_eph_pub = drop_prefix 33 m (nonce_c ++ c_eph_pub) l in
    λ i. (
      take_prefix 33 m (nonce_c ++ c_eph_pub) l i,
      slice_lem w 33 32 _ _ d1 k i,
      past w 33 32 _ _ d1 k i,
    )

-- The parts of a KE2 have their lengths.
pub record FitsKe2 (k : Ke2) : Type 0 where
  pub z_length : length k.z ≡ 33
  pub nonce_length : length k.nonce_s ≡ 32
  pub s_eph_length : length k.s_eph_pub ≡ 65
  pub mac_length : length k.server_mac ≡ 64

-- KE2 is read back, with an envelope of any length that it can be packed with.
pub unpack-pack_ke2 : (k : Ke2) {w : Bytes} → FitsKe2 k → pack_ke2 k ≡ ok w → unpack_ke2 w ≡ k
unfolding unpack_ke2 pack_ke2
unpack-pack_ke2 k {w} h e =
    let (n, p, q) = >>=-eq-ok (to_bytes 3 (length k.envelope)) _ e in
    let (fits, shape) = to_bytes-eq_ok 3 (length k.envelope) p in
    let r4 = k.s_eph_pub ++ k.server_mac in
    let r3 = k.nonce_s ++ r4 in
    let r2 = k.envelope ++ r3 in
    let len = length k.envelope in
    let n_length : length n ≡ 3 = ap length shape ∙ length-big_endian 3 len in
    let d0 : drop 0 w ≡ k.z ++ (n ++ r2) = sym (ok_inj q) in
    let d1 : drop 33 w ≡ n ++ r2 = past w 0 33 _ _ d0 h.z_length in
    let d2 : drop 36 w ≡ r2 = past w 33 3 _ _ d1 n_length in
    let d3 : drop (36 + len) w ≡ r3 = past w 36 len _ _ d2 refl in
    let d4 : drop (36 + len + 32) w ≡ r4 = past w (36 + len) 32 _ _ d3 h.nonce_length in
    let d5 : drop (36 + len + 32 + 65) w ≡ k.server_mac ++ [] =
      past w (36 + len + 32) 65 _ _ d4 h.s_eph_length ∙ sym (append-nil k.server_mac) in
    let size : from_big_endian (slice w 33 (33 + 3)) ≡ len =
      ap from_big_endian (slice_lem w 33 3 _ _ d1 n_length ∙ shape)
      ∙ from_big_endian-big_endian 3 len fits in
    rw size (λ i. record {
      z = slice_lem w 0 33 _ _ d0 h.z_length i;
      envelope = slice_lem w 36 len _ _ d2 refl i;
      nonce_s = slice_lem w (36 + len) 32 _ _ d3 h.nonce_length i;
      s_eph_pub = slice_lem w (36 + len + 32) 65 _ _ d4 h.s_eph_length i;
      server_mac = slice_lem w (36 + len + 32 + 65) 64 _ _ d5 h.mac_length i;
    })
