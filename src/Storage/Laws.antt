-- ===== src/Storage/Laws.antt =====
-- storage.py: what is read back after a write, per credential.
use vaulttls.Dict
use vaulttls.Prelude.{
  bytes_eq→eq, Bool-cases, bytes_eq_refl, bytes_eq, ◌≡◌, sym, ◌∙◌, ◌≢◌, inl, inr, true, false, none,
  some, if◌then◌else◌, Bytes, IsBytes,
}
use vaulttls.Errors.{ok}
use vaulttls.Python.Text.{Text}
use vaulttls.Storage.{
  record_exists, delete, set, store_opaque_record, StoredRecord, UsersDb, get, JsonStore,
  load_opaque_record, decode_record, OpaqueRecord, exists,
}
use vaulttls.Python.Hex.{hex-injective, hex, fromhex-hex}
use vaulttls.Dict.{get-remove, get-put, text_eq, has-eq-get}

module _ {V : Type 0} (k j : Text) (v : V) (store : JsonStore V) where
  pub get-set : get k (set j v store) ≡ (if bytes_eq j k then some v else get k store)
  unfolding get set
  get-set = get-put text_eq k j v store

  pub get-delete : get k (delete j store) ≡ (if bytes_eq j k then none else get k store)
  unfolding get delete
  get-delete = get-remove text_eq k j store

pub exists-eq-get :
    {V : Type 0} (k : Text) (store : JsonStore V)
    → exists k store ≡ (elim (get k store) [ some v ↦ true | none ↦ false ])
unfolding exists get
exists-eq-get k store = has-eq-get text_eq k store

-- The fields of a record are byte strings.
pub record IsRecord (r : OpaqueRecord) : Type 0 where
  pub oprf_key_bytes : IsBytes r.oprf_key
  pub client_pub_bytes : IsBytes r.client_pub
  pub envelope_bytes : IsBytes r.envelope
  pub credential_id_bytes : IsBytes r.credential_id

abbrev pub stored : OpaqueRecord → UsersDb → UsersDb
stored r db = store_opaque_record r.credential_id r.oprf_key r.client_pub r.envelope db

abbrev pub hexed : OpaqueRecord → StoredRecord
hexed r = record {
  oprf_key_hex = hex r.oprf_key;
  client_pub_hex = hex r.client_pub;
  envelope_hex = hex r.envelope;
  credential_id_hex = hex r.credential_id;
}

pub decode-hexed : (r : OpaqueRecord) → IsRecord r → decode_record (hexed r) ≡ ok r
unfolding decode_record
decode-hexed r h = rw (fromhex-hex r.oprf_key h.oprf_key_bytes) (
    rw (fromhex-hex r.client_pub h.client_pub_bytes) (
      rw (fromhex-hex r.envelope h.envelope_bytes)
        (rw (fromhex-hex r.credential_id h.credential_id_bytes))))

get-stored_self :
    (r : OpaqueRecord) (db : UsersDb)
    → Dict.get text_eq (hex r.credential_id) (stored r db) ≡ some (hexed r)
unfolding store_opaque_record
get-stored_self r db =
    get-put text_eq (hex r.credential_id) (hex r.credential_id) (hexed r) db
    ∙ rw (bytes_eq_refl (hex r.credential_id))

hex_ne : (a b : Bytes) → IsBytes a → IsBytes b → a ≢ b → bytes_eq (hex a) (hex b) ≡ false
hex_ne a b h k ne = elim (Bool-cases (bytes_eq (hex a) (hex b))) [
  | inl same ↦ absurd (ne (hex-injective a b h k (bytes_eq→eq (hex a) (hex b) same)))
  | inr other ↦ other
]

get-stored_ne :
    (r : OpaqueRecord) (other : Bytes) (db : UsersDb)
    → IsBytes r.credential_id
    → IsBytes other
    → r.credential_id ≢ other
    → Dict.get text_eq (hex other) (stored r db) ≡ Dict.get text_eq (hex other) db
unfolding store_opaque_record
get-stored_ne r other db h k ne =
    get-put text_eq (hex other) (hex r.credential_id) (hexed r) db
    ∙ rw (hex_ne r.credential_id other h k ne)

-- A record whose fields are byte strings, when it was stored, is loaded back, field by field, and answers `record_exists`.
pub load-store_self :
    (r : OpaqueRecord) (db : UsersDb)
    → IsRecord r
    → (load_opaque_record r.credential_id (stored r db) ≡ ok (some r))
      × (record_exists r.credential_id (stored r db) ≡ true)
unfolding load_opaque_record record_exists
load-store_self r db h = (
  rw (get-stored_self r db, load_opaque_record) (rw (decode-hexed r h)),
  has-eq-get text_eq (hex r.credential_id) (stored r db) ∙ rw (get-stored_self r db),
)

-- Storing a record changes neither what another credential loads nor whether it exists.
pub load-store_ne :
    (r : OpaqueRecord) (other : Bytes) (db : UsersDb)
    → IsBytes r.credential_id
    → IsBytes other
    → r.credential_id ≢ other
    → (load_opaque_record other (stored r db) ≡ load_opaque_record other db)
      × (record_exists other (stored r db) ≡ record_exists other db)
unfolding load_opaque_record record_exists
load-store_ne r other db h k ne = (
  rw (get-stored_ne r other db h k ne, load_opaque_record),
  has-eq-get text_eq (hex other) (stored r db)
      ∙ rw (get-stored_ne r other db h k ne) (sym (has-eq-get text_eq (hex other) db)),
)
