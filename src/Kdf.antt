-- ===== src/Kdf.antt =====
-- tls13_kdf.py: HKDF-Expand-Label, the transcript and the key schedule. SHA-512, HMAC and
-- HKDF-Expand are the `cryptography` package's: an argument of the definitions that use them.
pub mod Labels
pub mod Schedule
pub mod Binding
use vaulttls.Prelude.{ℕ, zero, suc, List, [], ◌∷◌, ◌++◌, Bytes, length}
use vaulttls.Errors.{Result, ok, ◌>>=◌}
use vaulttls.Python.Text.{encode, Text, codes}
use vaulttls.Python.{one_byte, struct_pack}

-- `hash_bytes` feeds its chunks to one hash object, which hashes their concatenation.
pub record HashSuite : Type 0 where
  pub sha512 : Bytes → Bytes
  -- `HMAC(key, SHA512())` over a message.
  pub hmac_sha512 : Bytes → Bytes → Bytes
  -- `HKDFExpand(SHA512(), length, info).derive(secret)`
  pub hkdf_expand : ℕ → Bytes → Bytes → Result Bytes

abbrev pub concat : List Bytes → Bytes
concat [] = []
concat (c ∷ cs) = c ++ concat cs

abbrev pub zeros : ℕ → Bytes
zeros zero = []
zeros (suc n) = 0 ∷ zeros n

-- The bytes that a label is bound by: length, prefixed label and context.
unfoldable pub hkdf_label : Bytes → Bytes → ℕ → Result Bytes
hkdf_label label context len = do
  let full_label = codes "tls13 " ++ label
  n ← struct_pack 2 len
  l ← one_byte (length full_label)
  c ← one_byte (length context)
  ok (n ++ ((l ++ full_label) ++ (c ++ context)))

-- `_parts` of a transcript.
pub record Transcript : Type 0 where
  pub parts : List Bytes

-- `Transcript()`
abbrev pub empty_transcript : Transcript
empty_transcript = record { parts = [] }

-- `add(label, value)`. A transcript on which it raised is not used again.
unfoldable pub add : Text → Bytes → Transcript → Result Transcript
add label value t = do
  lb ← encode label
  n ← struct_pack 2 (length lb)
  m ← struct_pack 4 (length value)
  ok (record { parts = t.parts ++ ((n ++ lb) ∷ (m ++ value) ∷ []) })

pub record TrafficSecrets : Type 0 where
  pub client_hs : Bytes
  pub server_hs : Bytes
  pub client_app : Bytes
  pub server_app : Bytes
  pub exporter : Bytes

module _ (H : HashSuite) where
  unfoldable pub hash_bytes : List Bytes → Bytes
  hash_bytes chunks = H.sha512 (concat chunks)

  -- An empty salt is 64 zero bytes.
  unfoldable pub hkdf_extract : Bytes → Bytes → Bytes
  hkdf_extract [] ikm = H.hmac_sha512 (zeros 64) ikm
  hkdf_extract (b ∷ salt) ikm = H.hmac_sha512 (b ∷ salt) ikm

  unfoldable pub hkdf_expand_label : Bytes → Bytes → Bytes → ℕ → Result Bytes
  hkdf_expand_label secret label context len = do
    info ← hkdf_label label context len
    H.hkdf_expand len info secret

  unfoldable pub derive_secret : Bytes → Bytes → Bytes → Result Bytes
  derive_secret secret label transcript_hash = hkdf_expand_label secret label transcript_hash 64

  unfoldable pub digest : Transcript → Bytes
  digest t = hash_bytes t.parts

  unfoldable pub derive_traffic_secrets : Bytes → Bytes → Result TrafficSecrets
  derive_traffic_secrets opaque_session_key th = do
    let zero_salt = zeros 64
    let empty_hash = hash_bytes ([] ∷ [])
    let early_secret = hkdf_extract zero_salt []
    derived_0 ← derive_secret early_secret (codes "derived") empty_hash
    let handshake_secret = hkdf_extract derived_0 opaque_session_key
    client_hs ← derive_secret handshake_secret (codes "c hs traffic") th
    server_hs ← derive_secret handshake_secret (codes "s hs traffic") th
    derived_1 ← derive_secret handshake_secret (codes "derived") empty_hash
    let master_secret = hkdf_extract derived_1 []
    client_app ← derive_secret master_secret (codes "c ap traffic") th
    server_app ← derive_secret master_secret (codes "s ap traffic") th
    exporter ← derive_secret master_secret (codes "exp master") th
    ok (record {
      client_hs = client_hs;
      server_hs = server_hs;
      client_app = client_app;
      server_app = server_app;
      exporter = exporter;
    })
