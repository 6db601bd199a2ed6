-- ===== src/Opaque/Client.antt =====
-- opaque_adapter.py: the class ConcreteOpaqueClient. What its methods draw at random is an argument.
use vaulttls.Prelude.{bytes_eq, ℕ, ◌++◌, if◌then◌else◌, Bytes, take, drop}
use vaulttls.Errors.{
  server_mac_wrong, guard, login_failed, is_value_error, Result, ok, err, ◌>>=◌, ◌>>◌,
}
use vaulttls.Opaque.Crypto.{Crypto, Random}
use vaulttls.Opaque.Oprf.{oprf_finalize, oprf_blind}
use vaulttls.Opaque.Envelope.{
  envelope_open, pub_bytes, envelope_seal, load_priv, priv_bytes, load_pub,
}
use vaulttls.Opaque.Keys.{
  login_transcript, derive_3dh, ecdh, Keys, export_key_of, client_mac_of, server_mac_of,
}
use vaulttls.Opaque.Wire.{Ke2, pack_ke1, point_len, unpack_ke2}

-- The state that `registration_start` returns.
pub record RegistrationState : Type 0 where
  pub blind : ℕ
  pub password : Bytes

-- The state that `login_start` returns.
pub record LoginState : Type 0 where
  pub blind : ℕ
  pub password : Bytes
  pub c_eph_priv : Bytes
  pub c_eph_pub : Bytes
  pub nonce_c : Bytes
  pub m : Bytes

-- What the client's `login_finish` returns.
pub record LoginResult : Type 0 where
  pub session_key : Bytes
  pub export_key : Bytes
  pub ke3 : Bytes

module _ {P : Type 0} (C : Crypto P) where
  -- `registration_start(password, …)`, with the blind `r`.
  unfoldable pub registration_start : ℕ → Bytes → Result (Bytes × RegistrationState)
  unfolding oprf_blind
  registration_start r password = do
    bm ← oprf_blind C r password
    ok (bm.1, record { blind = bm.0; password = password })

  -- `registration_finish(state, reg_response)`, with the key pair, the salt and the nonce.
  unfoldable pub registration_finish :
      ℕ → Random → Random → RegistrationState → Bytes → Result Bytes
  unfolding load_pub oprf_finalize envelope_seal pub_bytes
  registration_finish c_priv salt nonce state reg_response = do
    let z = take point_len reg_response
    s_pub ← load_pub C (drop point_len reg_response)
    rw_raw ← oprf_finalize C state.password state.blind z
    envelope ← envelope_seal C salt nonce rw_raw c_priv s_pub
    ok (pub_bytes C (C.public_key c_priv) ++ envelope)

  -- `login_start(password, …)`, with the blind, the ephemeral key and the nonce.
  unfoldable pub login_start : ℕ → ℕ → Bytes → Bytes → Result (Bytes × LoginState)
  unfolding oprf_blind priv_bytes pub_bytes pack_ke1
  login_start r c_eph nonce_c password = do
    bm ← oprf_blind C r password
    let c_eph_pub = pub_bytes C (C.public_key c_eph)
    c_eph_priv ← priv_bytes C c_eph
    ok (
      pack_ke1 bm.1 nonce_c c_eph_pub,
      record {
        blind = bm.0;
        password = password;
        c_eph_priv = c_eph_priv;
        c_eph_pub = c_eph_pub;
        nonce_c = nonce_c;
        m = bm.1;
      },
    )

  -- The `try` of `login_finish`: a ValueError is raised again as another, the rest goes through.
  unfoldable pub envelope_or_failed : Result (ℕ × P) → Result (ℕ × P)
  envelope_or_failed (ok keys) = ok keys
  envelope_or_failed (err e) = err (if is_value_error e then login_failed e else e)

  -- The end of `login_finish`, from the keys and the transcript on.
  unfoldable pub confirm : Keys → Bytes → Bytes → Result LoginResult
  unfolding server_mac_of client_mac_of export_key_of
  confirm keys transcript server_mac = do
    guard (bytes_eq server_mac (server_mac_of C keys transcript)) server_mac_wrong
    let client_mac = client_mac_of C keys transcript server_mac
    export_key ← export_key_of C transcript keys.session_key
    ok (record { session_key = keys.session_key; export_key = export_key; ke3 = client_mac })

  -- The three Diffie-Hellman secrets of `login_finish`, by the keys that the envelope holds.
  unfoldable pub client_dh : LoginState → Ke2 → Result (Bytes × Bytes × Bytes)
  unfolding load_priv load_pub oprf_finalize envelope_open envelope_or_failed ecdh
  client_dh state k = do
    c_eph_priv ← load_priv C state.c_eph_priv
    rw_raw ← oprf_finalize C state.password state.blind k.z
    cs ← envelope_or_failed (envelope_open C rw_raw k.envelope)
    s_eph_pub ← load_pub C k.s_eph_pub
    dh1 ← ecdh C c_eph_priv cs.1
    dh2 ← ecdh C cs.0 s_eph_pub
    dh3 ← ecdh C c_eph_priv s_eph_pub
    ok (dh1, dh2, dh3)

  -- `login_finish(state, ke2)`
  unfoldable pub login_finish : LoginState → Bytes → Result LoginResult
  unfolding unpack_ke2 client_dh derive_3dh login_transcript confirm
  login_finish state ke2 = do
    let k = unpack_ke2 ke2
    dh ← client_dh state k
    transcript ←
        login_transcript state.m state.nonce_c state.c_eph_pub k.z k.envelope k.nonce_s k.s_eph_pub
    keys ← derive_3dh C dh.0 dh.1 dh.2 transcript
    confirm keys transcript k.server_mac
