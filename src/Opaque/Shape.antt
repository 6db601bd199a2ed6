-- ===== src/Opaque/Shape.antt =====
-- opaque_adapter.py: what the length of a KE2 shows of a user.
use vaulttls.Prelude.{
  length-append, length-big_endian, ℕ, ◌+◌, ◌≡◌, sym, ap, ◌∙◌, true, false, none, some, ◌++◌, arith,
  Bytes, length,
}
use vaulttls.Errors.{ok_inj, >>=-eq-ok, ok}
use vaulttls.Opaque.Server
use vaulttls.Opaque.Crypto.{Crypto, Random}
use vaulttls.Opaque.Runs.{answer_login-ServerRan, CryptoLaws}
use vaulttls.Opaque.Envelope.{env_version, derive_env_key, pub_bytes, priv_bytes, envelope_seal}
use vaulttls.Opaque.Wire.{unpack_ke1, Ke2, pack_ke2}
use vaulttls.Opaque.Server.{OpaqueServer, answer_for, answer_login, ServerState, Answer, Draw}
use vaulttls.Opaque.RoundTrip.{FitsKe2}
use vaulttls.Record.Channel.{AeadLaws}
use vaulttls.Opaque.Oprf.{ksf}
use vaulttls.Python.{to_bytes-eq_ok, to_bytes}
use vaulttls.Storage.{load_opaque_record, record_exists, UsersDb, OpaqueRecord}
use vaulttls.Storage.Laws.{load-store_self, stored, IsRecord}
use vaulttls.Opaque.Agreement.{absent}

-- A sealed envelope, and the made-up one of a user who does not exist.
abbrev envelope_len : ℕ
envelope_len = 142

-- What Python documents of `os.urandom`.
abbrev pub IsSized : Random → Type 0
IsSized draw = (n : ℕ) → length (draw n) ≡ n

module _ {P : Type 0} (C : Crypto P) (L : CryptoLaws C) where
  length-envelope_seal :
      AeadLaws C.aes_gcm
      → (salt nonce : Random) (rw_raw : Bytes) (c_priv : ℕ) (s_pub : P) {envelope : Bytes}
      → IsSized salt
      → IsSized nonce
      → envelope_seal C salt nonce rw_raw c_priv s_pub ≡ ok envelope
      → length envelope ≡ envelope_len
  unfolding envelope_seal priv_bytes pub_bytes
  length-envelope_seal A salt nonce rw_raw c_priv s_pub {envelope} sl nl e =
      let (rw_s, _, e1) = >>=-eq-ok (ksf C rw_raw (salt 16)) _ e in
      let (enc_key, _, e2) = >>=-eq-ok (derive_env_key C rw_s) _ e1 in
      let (key, p, e3) = >>=-eq-ok (to_bytes 32 c_priv) _ e2 in
      let plaintext = key ++ C.public_bytes s_pub in
      let (ct, q, e4) =
        >>=-eq-ok (C.aes_gcm.encrypt enc_key (nonce 12) plaintext env_version) _ e3 in
      let (_, sealed) = A.opens enc_key (nonce 12) plaintext env_version ct q in
      let out = ap length (ok_inj e4) in
      omega (
        arith,
        sl 16,
        nl 12,
        out,
        sealed,
        ap length (to_bytes-eq_ok 32 c_priv p).1,
        length-big_endian 32 c_priv,
        length-append key (C.public_bytes s_pub),
        L.point_length s_pub,
        length-append (salt 16) (nonce 12 ++ ct),
        length-append (nonce 12) ct,
      )

  pub length-pack_ke2 :
      (k : Ke2) {ke2 : Bytes}
      → FitsKe2 k
      → pack_ke2 k ≡ ok ke2
      → length ke2 ≡ 197 + length k.envelope
  unfolding pack_ke2
  length-pack_ke2 k f e =
      let (n, p, q) = >>=-eq-ok (to_bytes 3 (length k.envelope)) _ e in
      let out = ap length (ok_inj q) in
      omega (
        arith,
        f,
        out,
        ap length (to_bytes-eq_ok 3 (length k.envelope) p).1,
        length-big_endian 3 (length k.envelope),
        length-append k.z (n ++ (k.envelope ++ (k.nonce_s ++ (k.s_eph_pub ++ k.server_mac)))),
        length-append n (k.envelope ++ (k.nonce_s ++ (k.s_eph_pub ++ k.server_mac))),
        length-append k.envelope (k.nonce_s ++ (k.s_eph_pub ++ k.server_mac)),
        length-append k.nonce_s (k.s_eph_pub ++ k.server_mac),
        length-append k.s_eph_pub k.server_mac,
      )

  length-answer_login :
      (d : Draw) (s_priv : ℕ) (a : Answer) (ke1 : Bytes × Bytes × Bytes) {ke2 : Bytes}
      {state : ServerState}
      → length (d.nonce_s 32) ≡ 32
      → answer_login C d s_priv a ke1 ≡ ok (ke2, state)
      → (length ke2 ≡ 197 + length a.envelope) × (state.is_fake ≡ a.is_fake)
  length-answer_login d s_priv a ke1 nl e =
      let r = answer_login-ServerRan C L d s_priv a ke1 nl e in
      (length-pack_ke2 r.k r.fits r.packed ∙ ap (λ b. 197 + length b) r.envelope_is, r.fake_is)

  -- The record of a user who is stored with a sealed envelope, and a user who is not stored: the two
  -- KE2 that the server answers their logins with have the same length, although the server keeps
  -- apart in its state which one is made up. `os.urandom` draws as many bytes as it is asked for,
  -- HMACs have 64 bytes, points 65, and the package adds a tag of 16 bytes.
  pub length-login_start :
      AeadLaws C.aes_gcm
      → (r : OpaqueRecord) (salt nonce : Random) (rw_raw : Bytes) (c_priv : ℕ) (s_pub : P)
        (db db' : UsersDb) (d d' : Draw) (server server' : OpaqueServer) (ke1 ke1' other : Bytes)
        {ke2 ke2' : Bytes} {state state' : ServerState}
      → IsRecord r
      → IsSized salt
      → IsSized nonce
      → envelope_seal C salt nonce rw_raw c_priv s_pub ≡ ok r.envelope
      → record_exists other db' ≡ false
      → IsSized d.nonce_s
      → IsSized d'.nonce_s
      → IsSized d'.fake_salt
      → IsSized d'.fake_nonce
      → IsSized d'.fake_ct
      → Server.login_start C d server r.credential_id ke1 (stored r db) ≡ ok (ke2, state)
      → Server.login_start C d' server' other ke1' db' ≡ ok (ke2', state')
      → (length ke2 ≡ length ke2') × (state.is_fake ≡ false) × (state'.is_fake ≡ true)
  unfolding Server.login_start answer_for
  length-login_start A r salt nonce rw_raw c_priv s_pub db db' d d' server server' ke1 ke1' other h
        sl nl sealed none_there ns ns' fs fn fc e e' =
      let (found, p, q) = >>=-eq-ok (load_opaque_record r.credential_id (stored r db)) _ e in
      let (missed, p', q') = >>=-eq-ok (load_opaque_record other db') _ e' in
      let real : found ≡ some r = ok_inj (sym p ∙ (load-store_self r db h).0) in
      let made_up : missed ≡ none = ok_inj (sym p' ∙ absent C other db' none_there) in
      let (l, is) =
        length-answer_login d server.s_priv (answer_for C d found) (unpack_ke1 ke1) (ns 32) q in
      let (l', is') =
        length-answer_login d' server'.s_priv (answer_for C d' missed) (unpack_ke1 ke1') (ns' 32)
          q' in
      let env = length-envelope_seal A salt nonce rw_raw c_priv s_pub sl nl sealed in
      let a : length (answer_for C d found).envelope ≡ 142 =
        ap (λ o. length (answer_for C d o).envelope) real ∙ env in
      let b : length (answer_for C d' missed).envelope ≡ 142 =
        ap (λ o. length (answer_for C d' o).envelope) made_up
        ∙ omega (
          arith,
          fs 16,
          fn 12,
          fc 113,
          length-append (d'.fake_salt 16) (d'.fake_nonce 12 ++ d'.fake_ct 113),
          length-append (d'.fake_nonce 12) (d'.fake_ct 113),
        ) in
      (
        omega (arith, l, l', a, b),
        is ∙ ap (λ o. (answer_for C d o).is_fake) real,
        is' ∙ ap (λ o. (answer_for C d' o).is_fake) made_up,
      )
