-- ===== src/Opaque/Agreement.antt =====
-- opaque_adapter.py: a client and a server that run one login agree on its keys.
use vaulttls.Opaque.Client
use vaulttls.Opaque.Server
use vaulttls.Prelude.{
  Option, Option-cases, bytes_eq→eq, Bool-cases, bytes_eq_refl, bytes_eq, ℕ, ◌≡◌, refl, sym, ap,
  ◌∙◌, subst, ◌≢◌, ◌⊎◌, inl, inr, true, false, none, ◌++◌, Bytes, length,
}
use vaulttls.Errors.{◌>>=◌, Result, unknown_user, >>=-eq-ok, ok_inj, ok, err}
use vaulttls.Opaque.Crypto.{Crypto}
use vaulttls.Opaque.Keys.{
  derive_3dh, login_transcript, client_mac_of, export_key_of, server_mac_of, Keys,
}
use vaulttls.Opaque.Server.{
  server_dh, OpaqueServer, Draw, Answer, answer_for, answer_login, ServerState,
}
use vaulttls.Opaque.Client.{client_dh, LoginResult, LoginState}
use vaulttls.Opaque.Runs.{
  derive_3dh-Derived, login_finish-ClientRan, answer_login-ServerRan, ClientRan,
  login_start-Started, ServerRan, CryptoLaws,
}
use vaulttls.Storage.{OpaqueRecord, UsersDb, record_exists, load_opaque_record}
use vaulttls.Python.Text.{codes}
use vaulttls.Opaque.Wire.{Ke2, pack_ke2, unpack_ke2, unpack_ke1}
use vaulttls.Opaque.Oprf.{oprf_evaluate}
use vaulttls.Dict.{get, text_eq, has-eq-get}
use vaulttls.Opaque.RoundTrip.{unpack-pack_ke2, unpack-pack_ke1}
use vaulttls.Opaque.Envelope.{pub_bytes}
use vaulttls.Python.Hex.{hex}

bytes_cases : (a b : Bytes) → (a ≡ b) ⊎ (a ≢ b)
bytes_cases a b = elim (Bool-cases (bytes_eq a b)) [
  | inl same ↦ inl (bytes_eq→eq a b same)
  | inr other ↦ inr (λ e. differ (subst (λ x. bytes_eq a x ≡ false) (sym e) other))
]
  where
    differ : bytes_eq a a ≡ false → ⊥
    differ h = let r = bytes_eq_refl a in cc

module _ {P : Type 0} (C : Crypto P) where
  -- The input of the key derivation.
  abbrev ikm : Bytes × Bytes × Bytes → Bytes
  ikm dh = dh.0 ++ (dh.1 ++ dh.2)

  -- The Diffie-Hellman secrets of the server's `login_start`.
  pub server_secrets :
      Draw → OpaqueServer → Bytes → Bytes → UsersDb → Result (Bytes × Bytes × Bytes)
  server_secrets d server credential_id ke1 db = do
    stored_record ← load_opaque_record credential_id db
    server_dh C d.s_eph server.s_priv (answer_for C d stored_record).client_pub (unpack_ke1 ke1).2

  -- What these two runs computed collides: their two different MAC keys gave one MAC over the
  -- transcript, or their two different inputs of the key derivation gave one MAC key.
  pub record RunsCollide (r c_eph : ℕ) (nonce_c password : Bytes) (d : Draw) (server : OpaqueServer)
      (credential_id : Bytes) (db : UsersDb) : Type 0 where
    pub ke1 : Bytes
    pub ke2 : Bytes
    pub cst : LoginState
    pub sst : ServerState
    pub client_dhs : Bytes × Bytes × Bytes
    pub server_dhs : Bytes × Bytes × Bytes
    pub client_keys : Keys
    pub client_started : Client.login_start C r c_eph nonce_c password ≡ ok (ke1, cst)
    pub server_started : Server.login_start C d server credential_id ke1 db ≡ ok (ke2, sst)
    pub client_dhs_are : client_dh C cst (unpack_ke2 ke2) ≡ ok client_dhs
    pub server_dhs_are : server_secrets d server credential_id ke1 db ≡ ok server_dhs
    pub client_keys_are :
        derive_3dh C client_dhs.0 client_dhs.1 client_dhs.2 sst.transcript ≡ ok client_keys
    pub server_keys_are :
        derive_3dh C server_dhs.0 server_dhs.1 server_dhs.2 sst.transcript ≡ ok sst.keys
    pub collide :
        ((client_keys.mac_key ≢ sst.keys.mac_key)
          × (server_mac_of C client_keys sst.transcript ≡ server_mac_of C sst.keys sst.transcript))
        ⊎ ((ikm client_dhs ≢ ikm server_dhs) × (client_keys.mac_key ≡ sst.keys.mac_key))

  -- The server's `login_finish` on the MAC that its own keys give.
  accepts :
      (state : ServerState) {result : Bytes}
      → state.is_fake ≡ false
      → export_key_of C state.transcript state.keys.session_key ≡ ok result
      → Server.login_finish C state (client_mac_of C state.keys state.transcript state.server_mac)
        ≡ ok (state.keys.session_key, result)
  unfolding Server.login_finish
  accepts state f e =
      let r = bytes_eq_refl (client_mac_of C state.keys state.transcript state.server_mac) in
      rw (f, r, e) refl

  -- The two sides of one login: what the client sent and received is what the server did.
  finish-agree :
      (cst : LoginState) (d : Draw) (s_priv : ℕ) (a : Answer) {ke2 : Bytes} (sst : ServerState)
      (result : LoginResult)
      → sst.is_fake ≡ false
      → (s : ServerRan C d s_priv a (cst.m, cst.nonce_c, cst.c_eph_pub) ke2 sst)
      → (c : ClientRan C cst (unpack_ke2 ke2) result)
      → (derive_3dh C c.dh.0 c.dh.1 c.dh.2 sst.transcript ≡ ok c.keys)
        × ((Server.login_finish C sst result.ke3 ≡ ok (result.session_key, result.export_key))
            ⊎ ((c.keys.mac_key ≢ sst.keys.mac_key)
                × (server_mac_of C c.keys sst.transcript ≡ server_mac_of C sst.keys sst.transcript))
            ⊎ ((ikm c.dh ≢ ikm s.dh) × (c.keys.mac_key ≡ sst.keys.mac_key)))
  finish-agree cst d s_priv a {ke2} sst result f s c =
      let same : unpack_ke2 ke2 ≡ s.k = unpack-pack_ke2 s.k s.fits s.packed in
      let tr : c.transcript ≡ sst.transcript = ok_inj (
        sym c.transcript_is
        ∙ ap
            (λ (k : Ke2).
              login_transcript cst.m cst.nonce_c cst.c_eph_pub k.z k.envelope k.nonce_s k.s_eph_pub)
            same
        ∙ s.transcript_is) in
      let server_mac : (unpack_ke2 ke2).server_mac ≡ s.k.server_mac =
        ap (λ (k : Ke2). k.server_mac) same in
      let mac : server_mac_of C c.keys sst.transcript ≡ server_mac_of C sst.keys sst.transcript =
        ap (server_mac_of C c.keys) (sym tr) ∙ sym c.mac_confirmed ∙ server_mac ∙ s.mac_made in
      let keys_are : derive_3dh C c.dh.0 c.dh.1 c.dh.2 sst.transcript ≡ ok c.keys =
        ap (derive_3dh C c.dh.0 c.dh.1 c.dh.2) (sym tr) ∙ c.keys_are in
      (
        keys_are,
        elim (bytes_cases c.keys.mac_key sst.keys.mac_key) [
          | inr other ↦ inr (inl (other, mac))
          | inl key ↦ elim (bytes_cases (ikm c.dh) (ikm s.dh)) [
            | inr other ↦ inr (inr (other, key))
            | inl one ↦ inl (agreed tr server_mac key keys_are one)
          ]
        ],
      )
    where
      agreed :
          c.transcript ≡ sst.transcript
          → (unpack_ke2 ke2).server_mac ≡ s.k.server_mac
          → c.keys.mac_key ≡ sst.keys.mac_key
          → derive_3dh C c.dh.0 c.dh.1 c.dh.2 sst.transcript ≡ ok c.keys
          → ikm c.dh ≡ ikm s.dh
          → Server.login_finish C sst result.ke3 ≡ ok (result.session_key, result.export_key)
      agreed tr server_mac key keys_are one =
          let x = derive_3dh-Derived C c.dh.0 c.dh.1 c.dh.2 sst.transcript keys_are in
          let y = derive_3dh-Derived C s.dh.0 s.dh.1 s.dh.2 sst.transcript s.keys_are in
          let session : c.keys.session_key ≡ sst.keys.session_key = ok_inj (
            sym x.session_is
            ∙ ap (C.hkdf 64 sst.transcript (codes "3DH-session-key")) one
            ∙ y.session_is) in
          let keys : c.keys ≡ sst.keys = λ i. record { session_key = session i; mac_key = key i } in
          let ke3 : result.ke3 ≡ client_mac_of C sst.keys sst.transcript sst.server_mac =
            c.ke3_is ∙ (λ i. client_mac_of C (keys i) (tr i) ((server_mac ∙ sym s.kept_mac) i)) in
          let exported : export_key_of C sst.transcript sst.keys.session_key
              ≡ ok result.export_key =
            (λ i. export_key_of C (sym tr i) (sym session i)) ∙ c.export_is in
          rw (ke3, c.session_is, session) (accepts sst f exported)

  -- What a server ran that answered a client's KE1.
  pub login_start-ServerRan :
      CryptoLaws C
      → (r c_eph : ℕ) (nonce_c password : Bytes) (d : Draw) (server : OpaqueServer)
        (credential_id : Bytes) (db : UsersDb) {ke1 ke2 : Bytes} {cst : LoginState}
        {sst : ServerState}
      → length nonce_c ≡ 32
      → length (d.nonce_s 32) ≡ 32
      → Client.login_start C r c_eph nonce_c password ≡ ok (ke1, cst)
      → Server.login_start C d server credential_id ke1 db ≡ ok (ke2, sst)
      → (found : Option OpaqueRecord) × (load_opaque_record credential_id db ≡ ok found)
        × ServerRan C d server.s_priv
            (answer_for C d found)
            (cst.m, cst.nonce_c, cst.c_eph_pub)
            ke2
            sst
  unfolding Server.login_start
  login_start-ServerRan L r c_eph nonce_c password d server credential_id db {ke1} {ke2} {cst} {sst}
        nl sl e1 e2 =
      let b = login_start-Started C r c_eph nonce_c password e1 in
      let (record_of, p, e) = >>=-eq-ok (load_opaque_record credential_id db) _ e2 in
      let a = answer_for C d record_of in
      let parts : unpack_ke1 ke1 ≡ (cst.m, cst.nonce_c, cst.c_eph_pub) =
        ap unpack_ke1 b.sent
        ∙ unpack-pack_ke1 cst.m cst.nonce_c cst.c_eph_pub b.m_length (ap length b.nonce_is ∙ nl) in
      (
        record_of,
        p,
        answer_login-ServerRan C L d server.s_priv a (cst.m, cst.nonce_c, cst.c_eph_pub) sl
            (ap (answer_login C d server.s_priv a) (sym parts) ∙ e),
      )

  -- A client and a server run one login: the client's KE1 reaches the server, and the server's KE2
  -- the client, who accepts it. If the server answered from a stored record, then it accepts the
  -- client's KE3 and both hold the same session key and the same export key, or else the values
  -- that the two runs computed collide: their different MAC keys gave one HMAC over the transcript,
  -- or their different Diffie-Hellman secrets one MAC key. HMACs have 64 bytes, points 65, and the
  -- two nonces 32.
  pub login-agree :
      CryptoLaws C
      → (r c_eph : ℕ) (nonce_c password : Bytes) (d : Draw) (server : OpaqueServer)
        (credential_id : Bytes) (db : UsersDb) {ke1 ke2 : Bytes} {cst : LoginState}
        {sst : ServerState} {result : LoginResult}
      → length nonce_c ≡ 32
      → length (d.nonce_s 32) ≡ 32
      → Client.login_start C r c_eph nonce_c password ≡ ok (ke1, cst)
      → Server.login_start C d server credential_id ke1 db ≡ ok (ke2, sst)
      → sst.is_fake ≡ false
      → Client.login_finish C cst ke2 ≡ ok result
      → (Server.login_finish C sst result.ke3 ≡ ok (result.session_key, result.export_key))
        ⊎ RunsCollide r c_eph nonce_c password d server credential_id db
  unfolding server_secrets
  login-agree L r c_eph nonce_c password d server credential_id db {ke1} {ke2} {cst} {sst} {result}
        nl sl e1 e2 f e3 =
      let (found, p, s) =
        login_start-ServerRan L r c_eph nonce_c password d server credential_id db nl sl e1 e2 in
      let c = login_finish-ClientRan C cst ke2 e3 in
      let b = login_start-Started C r c_eph nonce_c password e1 in
      let a = answer_for C d found in
      let part : (unpack_ke1 ke1).2 ≡ cst.c_eph_pub =
        ap (λ k. (unpack_ke1 k).2) b.sent
        ∙ ap (λ (x : Bytes × Bytes × Bytes). x.2)
            (unpack-pack_ke1 cst.m cst.nonce_c cst.c_eph_pub b.m_length
              (ap length b.nonce_is ∙ nl)) in
      let secrets : server_secrets d server credential_id ke1 db ≡ ok s.dh =
        rw p (ap (server_dh C d.s_eph server.s_priv a.client_pub) part ∙ s.dh_is) in
      let (keys_are, cases) = finish-agree cst d server.s_priv a sst result f s c in
      elim cases [
        | inl agreed ↦ inl agreed
        | inr found ↦ inr (record {
          ke1 = ke1;
          ke2 = ke2;
          cst = cst;
          sst = sst;
          client_dhs = c.dh;
          server_dhs = s.dh;
          client_keys = c.keys;
          client_started = e1;
          server_started = e2;
          client_dhs_are = c.dh_is;
          server_dhs_are = secrets;
          client_keys_are = keys_are;
          server_keys_are = s.keys_are;
          collide = found;
        })
      ]

  answer_login-fake :
      (d : Draw) (s_priv : ℕ) (a : Answer) (m nonce_c c_eph : Bytes) {ke2 : Bytes}
      {state : ServerState}
      → answer_login C d s_priv a (m, nonce_c, c_eph) ≡ ok (ke2, state)
      → state.is_fake ≡ a.is_fake
  unfolding answer_login
  answer_login-fake d s_priv a m nonce_c c_eph e =
      let s_eph_pub = pub_bytes C (C.public_key d.s_eph) in
      let (z, _, e1) = >>=-eq-ok (oprf_evaluate C a.oprf_key m) _ e in
      let (dh, _, e6) = >>=-eq-ok (server_dh C d.s_eph s_priv a.client_pub c_eph) _ e1 in
      let (tr, _, e7) =
        >>=-eq-ok (login_transcript m nonce_c c_eph z a.envelope (d.nonce_s 32) s_eph_pub) _ e6 in
      let (keys, _, e8) = >>=-eq-ok (derive_3dh C dh.0 dh.1 dh.2 tr) _ e7 in
      let k : Ke2 = record {
        z = z;
        envelope = a.envelope;
        nonce_s = (d.nonce_s 32);
        s_eph_pub = s_eph_pub;
        server_mac = server_mac_of C keys tr;
      } in
      let (w, _, e9) = >>=-eq-ok (pack_ke2 k) _ e8 in
      ap (λ (x : Bytes × ServerState). x.1.is_fake) (sym (ok_inj e9))

  pub absent :
      (credential_id : Bytes) (db : UsersDb)
      → record_exists credential_id db ≡ false
      → load_opaque_record credential_id db ≡ ok none
  unfolding load_opaque_record record_exists vaulttls.Storage.get vaulttls.Storage.exists
  absent credential_id db h = elim (Option-cases (get text_eq (hex credential_id) db)) [
    | inl p ↦ rw (p, load_opaque_record) refl
    | inr (v, p) ↦
        let q : true ≡ false = sym (has-eq-get text_eq (hex credential_id) db ∙ rw p refl) ∙ h in cc
  ]

  -- A login for a credential that is not stored never succeeds: whatever the server drew for its
  -- answer and whatever KE3 comes, the server refuses it.
  pub login_finish_unknown :
      (d : Draw) (server : OpaqueServer) (credential_id ke1 ke3 : Bytes) (db : UsersDb)
      {ke2 : Bytes} {sst : ServerState}
      → record_exists credential_id db ≡ false
      → Server.login_start C d server credential_id ke1 db ≡ ok (ke2, sst)
      → Server.login_finish C sst ke3 ≡ err unknown_user
  unfolding Server.login_start Server.login_finish answer_for unpack_ke1
  login_finish_unknown d server credential_id ke1 ke3 db {ke2} {sst} h e =
      let f : sst.is_fake ≡ true =
        answer_login-fake d server.s_priv (answer_for C d none) _ _ _
          (rw (absent credential_id db h) at e) in
      rw f refl
