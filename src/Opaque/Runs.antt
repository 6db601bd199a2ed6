-- ===== src/Opaque/Runs.antt =====
-- opaque_adapter.py: what the runs of the login that did not raise have computed.
use vaulttls.Opaque.Client
use vaulttls.Prelude.{bytes_eq→eq, bytes_eq, ℕ, ◌≡◌, refl, sym, ap, ◌∙◌, subst, ◌++◌, Bytes, length}
use vaulttls.Errors.{guard-eq_ok, ok_inj, >>=-eq-ok, ok}
use vaulttls.Opaque.Crypto.{Crypto}
use vaulttls.Opaque.Client.{client_dh, envelope_or_failed, LoginResult, confirm, LoginState}
use vaulttls.Opaque.Oprf.{hash_to_curve, oprf_evaluate, oprf_blind}
use vaulttls.Opaque.Keys.{
  client_mac_of, export_key_of, server_mac_of, login_transcript, derive_3dh, Keys,
}
use vaulttls.Opaque.Server.{server_dh, Draw, ServerState, answer_login, Answer}
use vaulttls.Opaque.Wire.{pack_ke2, unpack_ke2, Ke2, pack_ke1}
use vaulttls.Python.Text.{codes}
use vaulttls.Opaque.Envelope.{priv_bytes, pub_bytes}
use vaulttls.Opaque.Curve.{length-p256_scalar_mult, p256_scalar_mult}
use vaulttls.Opaque.RoundTrip.{FitsKe2}

-- What the packages document of their lengths: HMAC-SHA512 has 64 bytes, an uncompressed point 65.
pub record CryptoLaws {P : Type 0} (C : Crypto P) : Type 0 where
  pub mac_length : (k m : Bytes) → length (C.hash.hmac_sha512 k m) ≡ 64
  pub point_length : (p : P) → length (C.public_bytes p) ≡ 65

module _ {P : Type 0} (C : Crypto P) where
  -- The client's `login_start`: what it sent, and what it keeps.
  pub record Started (nonce_c ke1 : Bytes) (state : LoginState) : Type 0 where
    pub sent : ke1 ≡ pack_ke1 state.m state.nonce_c state.c_eph_pub
    pub m_length : length state.m ≡ 33
    pub nonce_is : state.nonce_c ≡ nonce_c

  pub login_start-Started :
      (r c_eph : ℕ) (nonce_c password : Bytes) {ke1 : Bytes} {state : LoginState}
      → Client.login_start C r c_eph nonce_c password ≡ ok (ke1, state)
      → Started nonce_c ke1 state
  unfolding Client.login_start oprf_blind
  login_start-Started r c_eph nonce_c password {ke1} {state} e =
      let (bm, p, q) = >>=-eq-ok (oprf_blind C r password) _ e in
      let (point, p1, q1) = >>=-eq-ok (hash_to_curve C password) _ p in
      let (m, p2, q2) = >>=-eq-ok (p256_scalar_mult r point) _ q1 in
      let (priv, p3, q3) = >>=-eq-ok (priv_bytes C c_eph) _ q in
      let st : _ ≡ (ke1, state) = ok_inj q3 in
      let of_m : bm.1 ≡ m = sym (ap (λ (x : ℕ × Bytes). x.1) (ok_inj q2)) in
      let same = ap (λ (x : Bytes × LoginState). x.1) st in
      record {
        sent =
            sym (ap (λ (x : Bytes × LoginState). x.0) st)
            ∙ ap (λ (s : LoginState). pack_ke1 s.m s.nonce_c s.c_eph_pub) same;
        m_length =
            ap (λ (s : LoginState). length s.m) (sym same)
            ∙ ap length of_m
            ∙ length-p256_scalar_mult r point p2;
        nonce_is = ap (λ (s : LoginState). s.nonce_c) (sym same);
      }

  -- Keys that were derived, and from what.
  pub record Derived (ikm transcript : Bytes) (keys : Keys) : Type 0 where
    pub session_is : C.hkdf 64 transcript (codes "3DH-session-key") ikm ≡ ok keys.session_key
    pub mac_is : C.hkdf 64 transcript (codes "3DH-mac-key") ikm ≡ ok keys.mac_key

  pub derive_3dh-Derived :
      (dh1 dh2 dh3 transcript : Bytes) {keys : Keys}
      → derive_3dh C dh1 dh2 dh3 transcript ≡ ok keys
      → Derived (dh1 ++ (dh2 ++ dh3)) transcript keys
  unfolding derive_3dh
  derive_3dh-Derived dh1 dh2 dh3 transcript e =
      let (s, p, q) = >>=-eq-ok (C.hkdf 64 transcript (codes "3DH-session-key") _) _ e in
      let (m, p1, q1) = >>=-eq-ok (C.hkdf 64 transcript (codes "3DH-mac-key") _) _ q in
      record {
        session_is = p ∙ ap (λ (k : Keys). ok k.session_key) (ok_inj q1);
        mac_is = p1 ∙ ap (λ (k : Keys). ok k.mac_key) (ok_inj q1);
      }

  -- The client's `login_finish`: its transcript and its keys, which the server's MAC confirmed.
  pub record ClientRan (state : LoginState) (k : Ke2) (result : LoginResult) : Type 0 where
    pub dh : Bytes × Bytes × Bytes
    pub transcript : Bytes
    pub keys : Keys
    pub dh_is : client_dh C state k ≡ ok dh
    pub transcript_is :
        login_transcript state.m state.nonce_c state.c_eph_pub k.z k.envelope k.nonce_s k.s_eph_pub
        ≡ ok transcript
    pub keys_are : derive_3dh C dh.0 dh.1 dh.2 transcript ≡ ok keys
    pub mac_confirmed : k.server_mac ≡ server_mac_of C keys transcript
    pub session_is : result.session_key ≡ keys.session_key
    pub export_is : export_key_of C transcript keys.session_key ≡ ok result.export_key
    pub ke3_is : result.ke3 ≡ client_mac_of C keys transcript k.server_mac

  -- The keys and the transcript that `login_finish` confirms.
  record Reached (state : LoginState) (k : Ke2) (result : LoginResult) : Type 0 where
    dh : Bytes × Bytes × Bytes
    transcript : Bytes
    keys : Keys
    dh_is : client_dh C state k ≡ ok dh
    transcript_is :
        login_transcript state.m state.nonce_c state.c_eph_pub k.z k.envelope k.nonce_s k.s_eph_pub
        ≡ ok transcript
    keys_are : derive_3dh C dh.0 dh.1 dh.2 transcript ≡ ok keys
    confirmed : confirm C keys transcript k.server_mac ≡ ok result

  -- From the envelope's keys on.
  login_finish-Reached :
      (state : LoginState) (ke2 : Bytes) {result : LoginResult}
      → Client.login_finish C state ke2 ≡ ok result
      → Reached state (unpack_ke2 ke2) result
  unfolding Client.login_finish
  login_finish-Reached state ke2 {result} e =
      let k = unpack_ke2 ke2 in
      let (dh, f, e7) = >>=-eq-ok (client_dh C state k) _ e in
      let (tr, t, e8) =
        >>=-eq-ok
          (login_transcript state.m state.nonce_c state.c_eph_pub k.z k.envelope k.nonce_s
            k.s_eph_pub)
          _ e7 in
      let (keys, d, e9) = >>=-eq-ok (derive_3dh C dh.0 dh.1 dh.2 tr) _ e8 in
      record {
        dh = dh;
        transcript = tr;
        keys = keys;
        dh_is = f;
        transcript_is = t;
        keys_are = d;
        confirmed = e9;
      }

  confirm-ClientRan :
      (state : LoginState) (k : Ke2) {result : LoginResult}
      → Reached state k result
      → ClientRan state k result
  unfolding confirm
  confirm-ClientRan state k {result} r =
      let (same, e) =
        guard-eq_ok (bytes_eq k.server_mac (server_mac_of C r.keys r.transcript)) _ _ r.confirmed in
      let (exported, x, f) = >>=-eq-ok (export_key_of C r.transcript r.keys.session_key) _ e in
      let out = ok_inj f in
      record {
        dh = r.dh;
        dh_is = r.dh_is;
        transcript = r.transcript;
        keys = r.keys;
        transcript_is = r.transcript_is;
        keys_are = r.keys_are;
        mac_confirmed = bytes_eq→eq k.server_mac (server_mac_of C r.keys r.transcript) same;
        session_is = ap (λ (r : LoginResult). r.session_key) (sym out);
        export_is = x ∙ ap (λ (r : LoginResult). ok r.export_key) out;
        ke3_is = ap (λ (r : LoginResult). r.ke3) (sym out);
      }

  pub login_finish-ClientRan :
      (state : LoginState) (ke2 : Bytes) {result : LoginResult}
      → Client.login_finish C state ke2 ≡ ok result
      → ClientRan state (unpack_ke2 ke2) result
  login_finish-ClientRan state ke2 e =
      confirm-ClientRan state (unpack_ke2 ke2) (login_finish-Reached state ke2 e)

  -- The server's `login_start` behind the lookup: the KE2 it packed, and what it keeps.
  pub record ServerRan (d : Draw) (s_priv : ℕ) (a : Answer) (ke1 : Bytes × Bytes × Bytes)
      (ke2 : Bytes) (state : ServerState) : Type 0 where
    pub dh : Bytes × Bytes × Bytes
    pub dh_is : server_dh C d.s_eph s_priv a.client_pub ke1.2 ≡ ok dh
    pub k : Ke2
    pub envelope_is : k.envelope ≡ a.envelope
    pub transcript_is :
        login_transcript ke1.0 ke1.1 ke1.2 k.z k.envelope k.nonce_s k.s_eph_pub
        ≡ ok state.transcript
    pub keys_are : derive_3dh C dh.0 dh.1 dh.2 state.transcript ≡ ok state.keys
    pub kept_mac : state.server_mac ≡ k.server_mac
    pub mac_made : k.server_mac ≡ server_mac_of C state.keys state.transcript
    pub packed : pack_ke2 k ≡ ok ke2
    pub fits : FitsKe2 k
    pub fake_is : state.is_fake ≡ a.is_fake

  pub answer_login-ServerRan :
      CryptoLaws C
      → (d : Draw) (s_priv : ℕ) (a : Answer) (ke1 : Bytes × Bytes × Bytes) {ke2 : Bytes}
        {state : ServerState}
      → length (d.nonce_s 32) ≡ 32
      → answer_login C d s_priv a ke1 ≡ ok (ke2, state)
      → ServerRan d s_priv a ke1 ke2 state
  unfolding answer_login oprf_evaluate pub_bytes server_mac_of
  answer_login-ServerRan L d s_priv a (m, nonce_c, c_eph) {ke2} {state} nl e =
      let s_eph_pub = pub_bytes C (C.public_key d.s_eph) in
      let (z, pz, e1) = >>=-eq-ok (oprf_evaluate C a.oprf_key m) _ e in
      let (dh, f, e6) = >>=-eq-ok (server_dh C d.s_eph s_priv a.client_pub c_eph) _ e1 in
      let (tr, t, e7) =
        >>=-eq-ok (login_transcript m nonce_c c_eph z a.envelope (d.nonce_s 32) s_eph_pub) _ e6 in
      let (keys, pk, e8) = >>=-eq-ok (derive_3dh C dh.0 dh.1 dh.2 tr) _ e7 in
      let k : Ke2 = record {
        z = z;
        envelope = a.envelope;
        nonce_s = (d.nonce_s 32);
        s_eph_pub = s_eph_pub;
        server_mac = server_mac_of C keys tr;
      } in
      let (w, pw, e9) = >>=-eq-ok (pack_ke2 k) _ e8 in
      let out = ok_inj e9 in
      let st = ap (λ (x : Bytes × ServerState). x.1) out in
      record {
        dh = dh;
        dh_is = f;
        k = k;
        envelope_is = refl;
        transcript_is = t ∙ ap (λ (s : ServerState). ok s.transcript) st;
        keys_are =
            subst (λ (s : ServerState). derive_3dh C dh.0 dh.1 dh.2 s.transcript ≡ ok s.keys) st pk;
        kept_mac = ap (λ (s : ServerState). s.server_mac) (sym st);
        mac_made = ap (λ (s : ServerState). server_mac_of C s.keys s.transcript) st;
        packed = pw ∙ ap (λ (x : Bytes × ServerState). ok x.0) out;
        fits = record {
          z_length = length-p256_scalar_mult a.oprf_key m pz;
          nonce_length = nl;
          s_eph_length = L.point_length (C.public_key d.s_eph);
          mac_length = L.mac_length keys.mac_key _;
        };
        fake_is = ap (λ (s : ServerState). s.is_fake) (sym st);
      }
