-- ===== src/Opaque/Wire.antt =====
-- opaque_adapter.py: the messages KE1 and KE2, as byte strings.
use vaulttls.Prelude.{from_big_endian, ℕ, ◌+◌, ◌++◌, Bytes, length, take, drop}
use vaulttls.Errors.{Result, ok, ◌>>=◌}
use vaulttls.Python.{to_bytes, slice}

abbrev pub point_len : ℕ
point_len = 33

abbrev pub opaque_nonce_len : ℕ
opaque_nonce_len = 32

abbrev pub mac_len : ℕ
mac_len = 64

abbrev pub s_eph_len : ℕ
s_eph_len = 65

-- `_pack_ke1(M, nonce_c, c_eph_pub)`
unfoldable pub pack_ke1 : Bytes → Bytes → Bytes → Bytes
pack_ke1 m nonce_c c_eph_pub = m ++ (nonce_c ++ c_eph_pub)

-- `_unpack_ke1(ke1)`
unfoldable pub unpack_ke1 : Bytes → Bytes × Bytes × Bytes
unpack_ke1 ke1 = (
  take point_len ke1,
  slice ke1 point_len (point_len + opaque_nonce_len),
  drop (point_len + opaque_nonce_len) ke1,
)

-- What `_unpack_ke2` returns.
pub record Ke2 : Type 0 where
  pub z : Bytes
  pub envelope : Bytes
  pub nonce_s : Bytes
  pub s_eph_pub : Bytes
  pub server_mac : Bytes

-- `_pack_ke2(Z, envelope, nonce_s, s_eph_pub, server_mac)`
unfoldable pub pack_ke2 : Ke2 → Result Bytes
pack_ke2 k = do
  env_len ← to_bytes 3 (length k.envelope)
  ok (k.z ++ (env_len ++ (k.envelope ++ (k.nonce_s ++ (k.s_eph_pub ++ k.server_mac)))))

-- `_unpack_ke2(ke2)`
unfoldable pub unpack_ke2 : Bytes → Ke2
unpack_ke2 ke2 =
    let pos1 = point_len in
    let env_len = from_big_endian (slice ke2 pos1 (pos1 + 3)) in
    let pos2 = pos1 + 3 in
    let pos3 = pos2 + env_len in
    let pos4 = pos3 + opaque_nonce_len in
    let pos5 = pos4 + s_eph_len in
    record {
      z = take point_len ke2;
      envelope = slice ke2 pos2 (pos2 + env_len);
      nonce_s = slice ke2 pos3 (pos3 + opaque_nonce_len);
      s_eph_pub = slice ke2 pos4 (pos4 + s_eph_len);
      server_mac = slice ke2 pos5 (pos5 + mac_len);
    }
