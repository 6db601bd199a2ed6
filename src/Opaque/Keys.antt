-- ===== src/Opaque/Keys.antt =====
-- opaque_adapter.py: the three Diffie-Hellman secrets, the keys and the MACs of a login, which the
-- client and the server compute alike.
use vaulttls.Prelude.{ℕ, ◌++◌, Bytes, length}
use vaulttls.Errors.{Result, ok, ◌>>=◌}
use vaulttls.Python.{to_bytes}
use vaulttls.Opaque.Crypto.{Crypto}
use vaulttls.Python.Text.{codes}

-- What `_derive_3dh` returns.
pub record Keys : Type 0 where
  pub session_key : Bytes
  pub mac_key : Bytes

-- The bytes that both sides bind the keys and the MACs to.
unfoldable pub login_transcript :
    Bytes → Bytes → Bytes → Bytes → Bytes → Bytes → Bytes → Result Bytes
login_transcript m nonce_c c_eph_pub z envelope nonce_s s_eph_pub = do
  env_len ← to_bytes 3 (length envelope)
  ok (m ++ (nonce_c ++ (c_eph_pub ++ (z ++ (env_len ++ (envelope ++ (nonce_s ++ s_eph_pub)))))))

module _ {P : Type 0} (C : Crypto P) where
  -- `_ecdh(priv, pub)`
  unfoldable pub ecdh : ℕ → P → Result Bytes
  ecdh priv public = C.exchange priv public

  -- `_derive_3dh(dh1, dh2, dh3, transcript_hash)`
  unfoldable pub derive_3dh : Bytes → Bytes → Bytes → Bytes → Result Keys
  derive_3dh dh1 dh2 dh3 transcript_hash = do
    let ikm = dh1 ++ (dh2 ++ dh3)
    session_key ← C.hkdf 64 transcript_hash (codes "3DH-session-key") ikm
    mac_key ← C.hkdf 64 transcript_hash (codes "3DH-mac-key") ikm
    ok (record { session_key = session_key; mac_key = mac_key })

  unfoldable pub server_mac_of : Keys → Bytes → Bytes
  server_mac_of keys transcript = C.hash.hmac_sha512 keys.mac_key (codes "server" ++ transcript)

  unfoldable pub client_mac_of : Keys → Bytes → Bytes → Bytes
  client_mac_of keys transcript server_mac =
      C.hash.hmac_sha512 keys.mac_key (codes "client" ++ (transcript ++ server_mac))

  unfoldable pub export_key_of : Bytes → Bytes → Result Bytes
  export_key_of transcript session_key = C.hkdf 64 transcript (codes "export-key") session_key
