-- ===== src/Opaque/Crypto.antt =====
-- What opaque_adapter.py and record.py take from the `cryptography` and `argon2` packages. A private key is its
-- private value; a public key is of a type `P` of the package's own. Random values are arguments of
-- the definitions that draw them.
use vaulttls.Prelude.{ℕ, Option, Bytes}
use vaulttls.Errors.{Result}
use vaulttls.Kdf.{HashSuite}
use vaulttls.Record.{Aead}

-- A call of `os.urandom(n)`: the bytes that it draws, for the size that the code asks for.
abbrev pub Random : Type 0
Random = ℕ → Bytes

pub record Crypto (P : Type 0) : Type 0 where
  pub hash : HashSuite
  -- `ChaCha20Poly1305` of record.py, and the `AESGCM` that seals an envelope.
  pub aead : Aead
  pub aes_gcm : Aead
  -- `HKDF(SHA512(), length, salt, info).derive(ikm)`
  pub hkdf : ℕ → Bytes → Bytes → Bytes → Result Bytes
  -- `hash_secret_raw` of a secret and a salt, if argon2 is installed.
  pub argon2 : Option (Bytes → Bytes → Result Bytes)
  -- `ec.derive_private_key(n, CURVE)`
  pub derive_private_key : ℕ → Result ℕ
  pub public_key : ℕ → P
  -- `public_bytes(X962, UncompressedPoint)`
  pub public_bytes : P → Bytes
  -- `EllipticCurvePublicKey.from_encoded_point(CURVE, b)`
  pub from_encoded_point : Bytes → Result P
  -- `priv.exchange(ECDH(), pub)`
  pub exchange : ℕ → P → Result Bytes
