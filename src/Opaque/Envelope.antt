-- ===== src/Opaque/Envelope.antt =====
-- opaque_adapter.py: the envelope, which keeps the client's private key and the server's public key
-- under the stretched output of the password.
use vaulttls.Prelude.{bytes_eq, from_big_endian, ℕ, ◌+◌, [], ◌∷◌, ◌++◌, Bytes, take, drop}
use vaulttls.Errors.{envelope_version, guard, wrong_password, Result, ok, err, ◌>>=◌, ◌>>◌}
use vaulttls.Opaque.Crypto.{Crypto, Random}
use vaulttls.Python.Text.{codes}
use vaulttls.Python.{slice, to_bytes}
use vaulttls.Opaque.Oprf.{ksf}

abbrev pub env_version : Bytes
env_version = 1 ∷ []

abbrev pub argon_salt_len : ℕ
argon_salt_len = 16

abbrev pub gcm_nonce_len : ℕ
gcm_nonce_len = 12

module _ {P : Type 0} (C : Crypto P) where
  -- `_derive_env_key(rw_stretched)`
  unfoldable pub derive_env_key : Bytes → Result Bytes
  derive_env_key rw_stretched = C.hash.hkdf_expand 32 (codes "envelope-enc-key") rw_stretched

  -- `_priv_bytes(k)`
  unfoldable pub priv_bytes : ℕ → Result Bytes
  priv_bytes k = to_bytes 32 k

  -- `_pub_bytes(k)`
  unfoldable pub pub_bytes : P → Bytes
  pub_bytes k = C.public_bytes k

  -- `_load_priv(b)`
  unfoldable pub load_priv : Bytes → Result ℕ
  load_priv b = C.derive_private_key (from_big_endian b)

  -- `_load_pub(b)`
  unfoldable pub load_pub : Bytes → Result P
  load_pub b = C.from_encoded_point b

  -- `_envelope_seal(rw_raw, c_priv, s_pub)`, with the draws of the salt and of the nonce.
  unfoldable pub envelope_seal : Random → Random → Bytes → ℕ → P → Result Bytes
  unfolding ksf derive_env_key priv_bytes pub_bytes
  envelope_seal draw_salt draw_nonce rw_raw c_priv s_pub = do
    let salt = draw_salt argon_salt_len
    let nonce = draw_nonce gcm_nonce_len
    rw_s ← ksf C rw_raw salt
    enc_key ← derive_env_key rw_s
    key ← priv_bytes c_priv
    ct ← C.aes_gcm.encrypt enc_key nonce (key ++ pub_bytes s_pub) env_version
    ok (env_version ++ (salt ++ (nonce ++ ct)))

  -- The `try` of `_envelope_open`: any exception means a wrong password.
  unfoldable pub opened : Result Bytes → Result Bytes
  opened (ok plaintext) = ok plaintext
  opened (err e) = err wrong_password

  -- `_envelope_open(rw_raw, envelope)`
  unfoldable pub envelope_open : Bytes → Bytes → Result (ℕ × P)
  unfolding ksf derive_env_key opened load_priv load_pub
  envelope_open rw_raw envelope = do
    let version = slice envelope 0 1
    guard (bytes_eq version env_version) (envelope_version version)
    let salt = slice envelope 1 (1 + argon_salt_len)
    let nonce = slice envelope (1 + argon_salt_len) (1 + argon_salt_len + gcm_nonce_len)
    let ct = drop (1 + argon_salt_len + gcm_nonce_len) envelope
    rw_s ← ksf C rw_raw salt
    enc_key ← derive_env_key rw_s
    pt ← opened (C.aes_gcm.decrypt enc_key nonce ct version)
    c_priv ← load_priv (take 32 pt)
    s_pub ← load_pub (slice pt 32 97)
    ok (c_priv, s_pub)
