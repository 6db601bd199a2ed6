-- ===== src/Trace/Wrote.antt =====
-- formal/trace_checker.py: what a registration and a login that return have written.
use vaulttls.Prelude.{
  length-append, ℕ, ◌≤◌, ◌≡◌, sym, ap, ◌∙◌, [], ◌∷◌, ◌++◌, arith, Bytes, length, take, drop,
}
use vaulttls.Errors.{>>=-eq-ok, ok_inj, Result, ok}
use vaulttls.Opaque.Client
use vaulttls.Opaque.Server
use vaulttls.Trace
use vaulttls.Trace.{
  Event, Checker, Outcome, LoginDraws, RegisterDraws, l2_holds, l3_holds, attacker_knows, cred,
  client_finished, server_responded, server_finished, client_started, registration_complete,
  pw_record_stored,
}
use vaulttls.Act.{lift-eq_ok}
use vaulttls.Opaque.Client.{RegistrationState, LoginState, LoginResult}
use vaulttls.Opaque.Crypto.{Crypto, Random}
use vaulttls.Opaque.Oprf.{oprf_finalize, hash_to_curve, oprf_evaluate, oprf_blind}
use vaulttls.Opaque.Runs.{CryptoLaws}
use vaulttls.Opaque.Server.{OpaqueServer, ServerState}
use vaulttls.Opaque.Envelope.{envelope_seal, load_pub, pub_bytes}
use vaulttls.Python.{to_bytes}
use vaulttls.Opaque.Curve.{length-p256_scalar_mult, p256_scalar_mult}

-- The state behind a login.
abbrev pub logged_in : Checker → Bytes → Bytes → Bytes → Bytes → LoginResult → Bytes → Checker
logged_in s username cid ke1 ke2 client sk = record s {
  log =
      (((s.log ++ (client_started username cid ∷ [])) ++ (server_responded username cid ∷ []))
        ++ (client_finished username cid client.session_key ∷ []))
      ++ (server_finished username cid sk ∷ []);
  channel = ((s.channel ++ (ke1 ∷ [])) ++ (ke2 ∷ [])) ++ (client.ke3 ∷ []);
}

module _ {P : Type 0} (C : Crypto P) where
  -- The calls that a login made.
  pub record LoginWrote (d : LoginDraws) (username password : Bytes) (s : Checker)
      (keys : Bytes × Bytes) (t : Checker) : Type 0 where
    pub started : Bytes × LoginState
    pub answer : Bytes × ServerState
    pub client : LoginResult
    pub got : Bytes × Bytes
    pub started_is : Client.login_start C d.r d.c_eph d.nonce_c password ≡ ok started
    pub answer_is :
        Server.login_start C d.server s.srv (cred C username) started.0 s.users ≡ ok answer
    pub client_is : Client.login_finish C started.1 answer.0 ≡ ok client
    pub got_is : Server.login_finish C answer.1 client.ke3 ≡ ok got
    pub keys_are : (client.session_key, got.0) ≡ keys
    pub state_is : logged_in s username (cred C username) started.0 answer.0 client got.0 ≡ t

  pub login-LoginWrote :
      (d : LoginDraws) (username password : Bytes) (s : Checker) {keys : Bytes × Bytes}
      {t : Checker}
      → Trace.login C d username password s ≡ (ok keys, t)
      → LoginWrote d username password s keys t
  unfolding Trace.login Trace.send Trace.emit
  login-LoginWrote d username password s {keys} e =
      let (started, p1, e1) =
        lift-eq_ok (Client.login_start C d.r d.c_eph d.nonce_c password) _ s e in
      let (answer, p2, e2) =
        lift-eq_ok (Server.login_start C d.server s.srv (cred C username) started.0 s.users) _ _
          e1 in
      let (client, p3, e3) = lift-eq_ok (Client.login_finish C started.1 answer.0) _ _ e2 in
      let (got, p4, e4) = lift-eq_ok (Server.login_finish C answer.1 client.ke3) _ _ e3 in
      record {
        started = started;
        answer = answer;
        client = client;
        got = got;
        started_is = p1;
        answer_is = p2;
        client_is = p3;
        got_is = p4;
        keys_are = ok_inj (ap (λ (x : Result (Bytes × Bytes) × Checker). x.0) e4);
        state_is = ap (λ (x : Result (Bytes × Bytes) × Checker). x.1) e4;
      }

  -- What a registration wrote, of which no message has 64 bytes.
  pub record RegisterWrote (d : RegisterDraws) (username password : Bytes) (s t : Checker)
      : Type 0 where
    pub request : Bytes
    pub response : Bytes
    pub upload : Bytes
    pub public : Bytes
    pub request_length : length request ≡ 33
    pub response_length : length response ≡ 98
    pub upload_length : 65 ≤ length upload
    pub log_is :
        t.log
        ≡ (s.log ++ (registration_complete username public ∷ []))
          ++ (pw_record_stored (cred C username) ∷ [])
    pub channel_is : t.channel ≡ ((s.channel ++ (request ∷ [])) ++ (response ∷ [])) ++ (upload ∷ [])
    pub results_are : t.results ≡ s.results

  length-registration_start :
      (r : ℕ) (password : Bytes) {started : Bytes × RegistrationState}
      → Client.registration_start C r password ≡ ok started
      → length started.0 ≡ 33
  unfolding Client.registration_start oprf_blind
  length-registration_start r password e =
      let (bm, p, q) = >>=-eq-ok (oprf_blind C r password) _ e in
      let (point, p1, q1) = >>=-eq-ok (hash_to_curve C password) _ p in
      let (m, p2, q2) = >>=-eq-ok (p256_scalar_mult r point) _ q1 in
      ap (λ (x : Bytes × RegistrationState). length x.0) (sym (ok_inj q))
      ∙ ap (λ (x : ℕ × Bytes). length x.1) (sym (ok_inj q2))
      ∙ length-p256_scalar_mult r point p2

  module _ (L : CryptoLaws C) where
    length-registration_respond :
        (k : ℕ) (server : OpaqueServer) (cid request : Bytes) {response : Bytes × OpaqueServer}
        → Server.registration_respond C k server cid request ≡ ok response
        → length response.0 ≡ 98
    unfolding Server.registration_respond oprf_evaluate pub_bytes
    length-registration_respond k server cid request e =
        let (z, p, q) = >>=-eq-ok (oprf_evaluate C k request) _ e in
        let (key, _, q1) = >>=-eq-ok (to_bytes 32 k) _ q in
        let public = C.public_bytes (C.public_key server.s_priv) in
        ap (λ (x : Bytes × OpaqueServer). length x.0) (sym (ok_inj q1))
        ∙ omega (
          arith,
          length-append z public,
          length-p256_scalar_mult k request p,
          L.point_length (C.public_key server.s_priv),
        )

    length-registration_finish :
        (c_priv : ℕ) (salt nonce : Random) (state : RegistrationState) (response : Bytes)
        {upload : Bytes}
        → Client.registration_finish C c_priv salt nonce state response ≡ ok upload
        → 65 ≤ length upload
    unfolding Client.registration_finish pub_bytes
    length-registration_finish c_priv salt nonce state response e =
        let z = take 33 response in
        let (s_pub, _, e1) = >>=-eq-ok (load_pub C (drop 33 response)) _ e in
        let (rw_raw, _, e2) = >>=-eq-ok (oprf_finalize C state.password state.blind z) _ e1 in
        let (envelope, _, e3) = >>=-eq-ok (envelope_seal C salt nonce rw_raw c_priv s_pub) _ e2 in
        let public = C.public_bytes (C.public_key c_priv) in
        omega (
          arith,
          ap length (ok_inj e3),
          length-append public envelope,
          L.point_length (C.public_key c_priv),
        )

    pub register-RegisterWrote :
        (d : RegisterDraws) (username password : Bytes) (s : Checker) {u : Unit {0}} {t : Checker}
        → Trace.register C d username password s ≡ (ok u, t)
        → RegisterWrote d username password s t
    unfolding Trace.register Trace.send Trace.emit
    register-RegisterWrote d username password s e =
        let cid = cred C username in
        let (started, p1, e1) = lift-eq_ok (Client.registration_start C d.r password) _ s e in
        let (response, p2, e2) =
          lift-eq_ok (Server.registration_respond C d.oprf_key s.srv cid started.0) _ _ e1 in
        let (upload, p3, e3) =
          lift-eq_ok (Client.registration_finish C d.c_priv d.salt d.nonce started.1 response.0) _ _
            e2 in
        let (users, _, e4) =
          lift-eq_ok (Server.registration_store response.1 cid upload s.users) _ _ e3 in
        record {
          request = started.0;
          response = response.0;
          upload = upload;
          public = pub_bytes C (C.public_key response.1.s_priv);
          request_length = length-registration_start d.r password p1;
          response_length = length-registration_respond d.oprf_key s.srv cid started.0 p2;
          upload_length =
              length-registration_finish d.c_priv d.salt d.nonce started.1 response.0 p3;
          log_is = ap (λ (x : Result (Unit {0}) × Checker). x.1.log) (sym e4);
          channel_is = ap (λ (x : Result (Unit {0}) × Checker). x.1.channel) (sym e4);
          results_are = ap (λ (x : Result (Unit {0}) × Checker). x.1.results) (sym e4);
        }
