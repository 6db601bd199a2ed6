-- ===== src/Record.antt =====
-- record.py: one direction of the record layer. The AEAD is the `cryptography` package's: an
-- argument.
pub mod Nonce
pub mod Channel
use Prim.Native.Nat.{bit_xor}
use vaulttls.Prelude.{big_endian, ℕ, ◌+◌, [], ◌∷◌, ◌++◌, ◌==◌, Bytes, length}
use vaulttls.Errors.{record_sequence, guard, Result, ok, err, ◌>>=◌, ◌>>◌}
use vaulttls.Kdf.{hkdf_expand_label, HashSuite}
use vaulttls.Python.{one_byte, to_bytes}
use vaulttls.Python.Text.{codes}

abbrev pub tag_len : ℕ
tag_len = 16

-- TLS content types.
abbrev pub ct_app_data : ℕ
ct_app_data = 0x17

-- `ChaCha20Poly1305(key)`: `encrypt(nonce, plaintext, aad)` and `decrypt(nonce, ciphertext, aad)`.
pub record Aead : Type 0 where
  pub encrypt : Bytes → Bytes → Bytes → Bytes → Result Bytes
  pub decrypt : Bytes → Bytes → Bytes → Bytes → Result Bytes

pub record DirectionState : Type 0 where
  pub key : Bytes
  pub iv : Bytes
  pub seq : ℕ

-- `DirectionState(traffic_secret)`, with `__post_init__`.
unfoldable pub direction_state : HashSuite → Bytes → Result DirectionState
direction_state H traffic_secret = do
  key ← hkdf_expand_label H traffic_secret (codes "key") [] 32
  iv ← hkdf_expand_label H traffic_secret (codes "iv") [] 12
  ok (record { key = key; iv = iv; seq = 0 })

-- `bytes(a ^ b for a, b in zip(xs, ys))`
unfoldable pub xor_bytes : Bytes → Bytes → Bytes
xor_bytes (x ∷ xs) (y ∷ ys) = bit_xor x y ∷ xor_bytes xs ys
xor_bytes _ _ = []

-- `_nonce(seq)`
unfoldable pub nonce : DirectionState → ℕ → Result Bytes
nonce s seq = do n ← to_bytes 8 seq; ok (xor_bytes s.iv (big_endian 4 0 ++ n))

-- `_aad(content_type, seq, wire_len)`
unfoldable pub aad : ℕ → ℕ → ℕ → Result Bytes
aad content_type seq wire_len = do
  c ← one_byte content_type
  n ← to_bytes 8 seq
  l ← to_bytes 4 wire_len
  ok (c ++ (n ++ l))

-- `self.seq += 1` behind the last line that can raise.
abbrev pub settle : Result Bytes → DirectionState → Result Bytes × DirectionState
settle (ok plaintext) s = (ok plaintext, record s { seq = s.seq + 1 })
settle (err e) s = (err e, s)

module _ (C : Aead) where
  -- `encrypt(content_type, plaintext)`: the number is used up even if a later line raises.
  unfoldable pub encrypt : ℕ → Bytes → DirectionState → Result (ℕ × Bytes) × DirectionState
  encrypt content_type plaintext s = (
    (do
      let wire_len = length plaintext + tag_len
      a ← aad content_type s.seq wire_len
      n ← nonce s s.seq
      ciphertext ← C.encrypt s.key n plaintext a
      ok (s.seq, ciphertext)),
    record s { seq = s.seq + 1 },
  )

  -- What `decrypt` returns or raises.
  unfoldable pub open_record : ℕ → ℕ → Bytes → DirectionState → Result Bytes
  open_record content_type seq ciphertext s = do
    guard (seq == s.seq) (record_sequence s.seq seq)
    a ← aad content_type seq (length ciphertext)
    n ← nonce s seq
    C.decrypt s.key n ciphertext a

  -- `decrypt(content_type, seq, ciphertext)`: the number advances only if nothing was raised.
  unfoldable pub decrypt : ℕ → ℕ → Bytes → DirectionState → Result Bytes × DirectionState
  unfolding open_record
  decrypt content_type seq ciphertext s = settle (open_record content_type seq ciphertext s) s
