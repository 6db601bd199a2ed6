-- ===== src/Opaque/Server.antt =====
-- opaque_adapter.py: the class ConcreteOpaqueServer, over the users of storage.py. What its methods
-- draw at random is an argument.
use vaulttls.Prelude.{
  ◌+◌, bytes_eq, not, from_big_endian, ℕ, Bool, true, false, Option, none, some, [], ◌++◌, Bytes,
  take, drop,
}
use vaulttls.Errors.{
  client_mac_wrong, unknown_user, no_pending_key, guard, no_attribute, Result, ok, err, ◌>>=◌, ◌>>◌,
}
use vaulttls.Dict
use vaulttls.Dict.{text_eq, Dict}
use vaulttls.Opaque.Keys.{
  server_mac_of, derive_3dh, login_transcript, ecdh, export_key_of, client_mac_of, Keys,
}
use vaulttls.Python.Hex.{hex}
use vaulttls.Opaque.Crypto.{Crypto, Random}
use vaulttls.Python.Text.{Text}
use vaulttls.Storage.{OpaqueRecord, UsersDb, load_opaque_record, store_opaque_record}
use vaulttls.Opaque.Oprf.{oprf_evaluate}
use vaulttls.Opaque.Envelope.{gcm_nonce_len, argon_salt_len, env_version, load_pub, pub_bytes}
use vaulttls.Python.{to_bytes}
use vaulttls.Opaque.Wire.{opaque_nonce_len, pack_ke2, unpack_ke1}

-- The object: its private key, and the attribute that `registration_respond` sets. An object on
-- which a method raised is not used again.
pub record OpaqueServer : Type 0 where
  pub s_priv : ℕ
  pub pending_oprf_keys : Option (Dict Text Bytes)

-- The state that `login_start` returns.
pub record ServerState : Type 0 where
  pub keys : Keys
  pub transcript : Bytes
  pub server_mac : Bytes
  pub is_fake : Bool

-- What the server's `login_start` draws, the last five only for a user who does not exist.
pub record Draw : Type 0 where
  pub s_eph : ℕ
  pub nonce_s : Random
  pub fake_oprf : ℕ
  pub fake_c : ℕ
  pub fake_salt : Random
  pub fake_nonce : Random
  pub fake_ct : Random

-- What a login is answered from: the stored record, or a made-up one.
pub record Answer : Type 0 where
  pub oprf_key : ℕ
  pub client_pub : Bytes
  pub envelope : Bytes
  pub is_fake : Bool

-- `getattr(self, "_pending_oprf_keys", {})`
abbrev pub pending_of : OpaqueServer → Dict Text Bytes
pending_of server = elim server.pending_oprf_keys [ some keys ↦ keys | none ↦ [] ]

-- `registration_store(credential_id, reg_upload)`
unfoldable pub registration_store : OpaqueServer → Bytes → Bytes → UsersDb → Result UsersDb
unfolding hex store_opaque_record
registration_store server credential_id reg_upload db = elim server.pending_oprf_keys [
  | none ↦ err no_attribute
  | some keys ↦ elim (Dict.get text_eq (hex credential_id) keys) [
    | none ↦ err no_pending_key
    | some oprf_key ↦
        ok (store_opaque_record credential_id oprf_key (take 65 reg_upload) (drop 65 reg_upload) db)
  ]
]

module _ {P : Type 0} (C : Crypto P) where
  -- `registration_respond(credential_id, reg_request)`, with the OPRF key that it generates.
  unfoldable pub registration_respond :
      ℕ → OpaqueServer → Bytes → Bytes → Result (Bytes × OpaqueServer)
  unfolding oprf_evaluate pub_bytes hex
  registration_respond oprf_key server credential_id reg_request = do
    z ← oprf_evaluate C oprf_key reg_request
    key ← to_bytes 32 oprf_key
    ok (
      z ++ pub_bytes C (C.public_key server.s_priv),
      record server {
        pending_oprf_keys = some (Dict.put text_eq (hex credential_id) key (pending_of server));
      },
    )

  -- The record that `login_start` goes on with.
  unfoldable pub answer_for : Draw → Option OpaqueRecord → Answer
  unfolding pub_bytes
  answer_for d none = record {
    oprf_key = d.fake_oprf;
    client_pub = pub_bytes C (C.public_key d.fake_c);
    envelope =
        env_version
        ++ (d.fake_salt argon_salt_len ++ (d.fake_nonce gcm_nonce_len ++ d.fake_ct (97 + 16)));
    is_fake = true;
  }
  answer_for d (some r) = record {
    oprf_key = from_big_endian r.oprf_key;
    client_pub = r.client_pub;
    envelope = r.envelope;
    is_fake = false;
  }

  -- The three Diffie-Hellman secrets of `login_start`, from the stored and the received key.
  unfoldable pub server_dh : ℕ → ℕ → Bytes → Bytes → Result (Bytes × Bytes × Bytes)
  unfolding load_pub ecdh
  server_dh s_eph s_priv client_pub c_eph_pub_b = do
    c_eph_pub ← load_pub C c_eph_pub_b
    c_pub ← load_pub C client_pub
    dh1 ← ecdh C s_priv c_eph_pub
    dh2 ← ecdh C s_eph c_pub
    dh3 ← ecdh C s_eph c_eph_pub
    ok (dh1, dh2, dh3)

  -- `login_start` from its record on, with the parts of KE1.
  unfoldable pub answer_login :
      Draw → ℕ → Answer → Bytes × Bytes × Bytes → Result (Bytes × ServerState)
  unfolding oprf_evaluate pub_bytes server_dh login_transcript derive_3dh server_mac_of pack_ke2
  answer_login d s_priv a (m, nonce_c, c_eph_pub_b) = do
    z ← oprf_evaluate C a.oprf_key m
    let s_eph_pub = pub_bytes C (C.public_key d.s_eph)
    let nonce_s = d.nonce_s opaque_nonce_len
    dh ← server_dh d.s_eph s_priv a.client_pub c_eph_pub_b
    transcript ← login_transcript m nonce_c c_eph_pub_b z a.envelope nonce_s s_eph_pub
    keys ← derive_3dh C dh.0 dh.1 dh.2 transcript
    let server_mac = server_mac_of C keys transcript
    ke2 ← pack_ke2 (record {
      z = z;
      envelope = a.envelope;
      nonce_s = nonce_s;
      s_eph_pub = s_eph_pub;
      server_mac = server_mac;
    })
    ok (
      ke2,
      record { keys = keys; transcript = transcript; server_mac = server_mac; is_fake = a.is_fake },
    )

  -- `login_start(credential_id, ke1, context)`
  unfoldable pub login_start :
      Draw → OpaqueServer → Bytes → Bytes → UsersDb → Result (Bytes × ServerState)
  unfolding load_opaque_record answer_for answer_login unpack_ke1
  login_start d server credential_id ke1 db = do
    stored_record ← load_opaque_record credential_id db
    answer_login d server.s_priv (answer_for d stored_record) (unpack_ke1 ke1)

  -- `login_finish(server_state, ke3)`: the session key and the export key.
  unfoldable pub login_finish : ServerState → Bytes → Result (Bytes × Bytes)
  unfolding client_mac_of export_key_of
  login_finish state ke3 = do
    guard (not state.is_fake) unknown_user
    let expected = client_mac_of C state.keys state.transcript state.server_mac
    guard (bytes_eq ke3 expected) client_mac_wrong
    export_key ← export_key_of C state.transcript state.keys.session_key
    ok (state.keys.session_key, export_key)
