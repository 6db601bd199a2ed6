-- ===== src/ServerConfig.antt =====
-- server_config.py: the signed capability blob. `time.time()` is an argument, in whole seconds.
pub mod Exact
pub mod Validate
use vaulttls.Prelude.{
  bytes_eq, ℕ, ◌+◌, ◌-◌, ◌*◌, [], ◌∷◌, ◌++◌, leb, ◌==◌, if◌then◌else◌, Bytes, length,
}
use vaulttls.Errors.{
  config_stale, config_name, config_hash, config_truncated, config_aead, config_kex, config_version,
  config_too_short, guard, Result, ok, ◌>>=◌, ◌>>◌,
}
use vaulttls.Python.{slice, unpack_from, item, struct_pack}

abbrev pub server_id : Bytes
server_id = 108 ∷ 111 ∷ 99 ∷ 97 ∷ 108 ∷ 104 ∷ 111 ∷ 115 ∷ 116 ∷ []

abbrev pub supported_kex : ℕ
supported_kex = 0x01

abbrev pub supported_aead : ℕ
supported_aead = 0x02

abbrev pub supported_hash : ℕ
supported_hash = 0x03

abbrev pub server_config_version : ℕ
server_config_version = 1

abbrev pub server_config_max_age_s : ℕ
server_config_max_age_s = 24 * 60 * 60

pub record ServerConfig : Type 0 where
  pub version : ℕ
  pub kex : ℕ
  pub aead : ℕ
  pub hash : ℕ
  pub server_name : Bytes
  pub timestamp : ℕ

-- `encode_server_config(server_name)`, at the time `ts`.
unfoldable pub encode_server_config : Bytes → ℕ → Result Bytes
encode_server_config server_name ts = do
  n ← struct_pack 2 (length server_name)
  let name_field = n ++ server_name
  t ← struct_pack 8 ts
  ok (server_config_version ∷ supported_kex ∷ supported_aead ∷ supported_hash ∷ name_field ++ t)

-- The decoder behind the length of the name: its second test, the name and the time.
unfoldable pub decode_rest : Bytes → ℕ → ℕ → ℕ → ℕ → ℕ → Result ServerConfig
decode_rest bytes version kex aead hash name_len = do
  guard (leb (6 + name_len + 8) (length bytes)) config_truncated
  let server_name = slice bytes 6 (6 + name_len)
  timestamp ← unpack_from 8 bytes (6 + name_len)
  ok (record {
    version = version;
    kex = kex;
    aead = aead;
    hash = hash;
    server_name = server_name;
    timestamp = timestamp;
  })

unfoldable pub decode_server_config : Bytes → Result ServerConfig
unfolding decode_rest
decode_server_config bytes = do
  guard (leb 14 (length bytes)) config_too_short
  version ← item bytes 0
  kex ← item bytes 1
  aead ← item bytes 2
  hash ← item bytes 3
  name_len ← unpack_from 2 bytes 4
  decode_rest bytes version kex aead hash name_len

-- `abs(a - b)`
abbrev pub distance : ℕ → ℕ → ℕ
distance a b = if leb a b then b - a else a - b

-- The checks of `validate_server_config` on a decoded blob.
unfoldable pub check_server_config : ServerConfig → Bytes → ℕ → ℕ → Result ServerConfig
check_server_config cfg expected_name max_age now = do
  guard (cfg.version == server_config_version) (config_version cfg.version)
  guard (cfg.kex == supported_kex) config_kex
  guard (cfg.aead == supported_aead) config_aead
  guard (cfg.hash == supported_hash) config_hash
  guard (bytes_eq cfg.server_name expected_name) config_name
  guard (leb (distance now cfg.timestamp) max_age) config_stale
  ok cfg

unfoldable pub validate_server_config : Bytes → Bytes → ℕ → ℕ → Result ServerConfig
unfolding check_server_config
validate_server_config bytes expected_name max_age now = do
  cfg ← decode_server_config bytes
  check_server_config cfg expected_name max_age now
