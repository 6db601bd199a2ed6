-- ===== src/Storage.antt =====
-- storage.py: the JSON store and the OPAQUE records in it. The dictionary that the file holds is the
-- state: each method reads the whole file under the lock, and writes the whole file back.
pub mod Laws
pub mod Disk
pub mod Atomic
pub mod Released
use vaulttls.Prelude.{Bool, Option, none, some, Bytes}
use vaulttls.Errors.{Result, ok, ◌>>=◌}
use vaulttls.Dict
use vaulttls.Dict.{text_eq, Dict}
use vaulttls.Python.Text.{Text}
use vaulttls.Python.Hex.{fromhex, hex}

-- A file's dictionary, over the values that the store is used with.
abbrev pub JsonStore : Type 0 → Type 0
JsonStore V = Dict Text V

module _ {V : Type 0} where
  -- `get(key)`
  unfoldable pub get : Text → JsonStore V → Option V
  get key store = Dict.get text_eq key store

  -- `set(key, value)`
  unfoldable pub set : Text → V → JsonStore V → JsonStore V
  set key value store = Dict.put text_eq key value store

  -- `delete(key)`
  unfoldable pub delete : Text → JsonStore V → JsonStore V
  delete key store = Dict.remove text_eq key store

  -- `exists(key)`
  unfoldable pub exists : Text → JsonStore V → Bool
  exists key store = Dict.has text_eq key store

-- A user's entry in the file.
pub record StoredRecord : Type 0 where
  pub oprf_key_hex : Text
  pub client_pub_hex : Text
  pub envelope_hex : Text
  pub credential_id_hex : Text

-- A user's record as the server uses it.
pub record OpaqueRecord : Type 0 where
  pub oprf_key : Bytes
  pub client_pub : Bytes
  pub envelope : Bytes
  pub credential_id : Bytes

abbrev pub UsersDb : Type 0
UsersDb = JsonStore StoredRecord

unfoldable pub store_opaque_record : Bytes → Bytes → Bytes → Bytes → UsersDb → UsersDb
unfolding set
store_opaque_record credential_id oprf_key client_pub envelope db =
    set (hex credential_id)
      (record {
        oprf_key_hex = hex oprf_key;
        client_pub_hex = hex client_pub;
        envelope_hex = hex envelope;
        credential_id_hex = hex credential_id;
      })
      db

-- The four fields decoded; a field that is no hex raises.
unfoldable pub decode_record : StoredRecord → Result OpaqueRecord
decode_record raw = do
  oprf_key ← fromhex raw.oprf_key_hex
  client_pub ← fromhex raw.client_pub_hex
  envelope ← fromhex raw.envelope_hex
  credential_id ← fromhex raw.credential_id_hex
  ok (record {
    oprf_key = oprf_key;
    client_pub = client_pub;
    envelope = envelope;
    credential_id = credential_id;
  })

unfoldable pub load_opaque_record : Bytes → UsersDb → Result (Option OpaqueRecord)
unfolding get
load_opaque_record credential_id db = elim (get (hex credential_id) db) [
  | none ↦ ok none
  | some raw ↦ (do r ← decode_record raw; ok (some r))
]

unfoldable pub record_exists : Bytes → UsersDb → Bool
unfolding exists
record_exists credential_id db = exists (hex credential_id) db
