-- ===== src/Agreement.antt =====
-- client.py against server.py: a login whose two sides both finish, over a network that carries the
-- bytes, ends with the same keys on both sides.
use vaulttls.Opaque.Client
use vaulttls.Opaque.Server
use vaulttls.Prelude.{
  append-nil, ℕ, ◌^◌, ◌<◌, ◌≡◌, refl, sym, ap, ◌∙◌, ◌⊎◌, inl, inr, some, List, [], ◌++◌, Bytes,
  length,
}
use vaulttls.Errors.{ok_inj, Exc, >>=-eq-ok, ok}
use vaulttls.Framing.{recv_frame, Segment, send_frame}
use vaulttls.Opaque.Crypto.{Crypto}
use vaulttls.Kdf.Labels.{append_inj, vector_inj}
use vaulttls.Framing.Exact.{total, IsOpen}
use vaulttls.Pki.{sign_cert_verify, encode_cert_chain, sign_server_config, X509}
use vaulttls.Python.{struct_pack-eq_ok, struct_pack}
use vaulttls.Framing.Frames.{recv_frame_sent, send_frame-eq_ok}
use vaulttls.Python.Text.{encode, codes, Text}
use vaulttls.Session.Hello.{opaque_of, build_signed_server_hello, ServerSession}
use vaulttls.Opaque.Runs.{login_start-Started, CryptoLaws}
use vaulttls.Kdf.{empty_transcript, add, TrafficSecrets, derive_traffic_secrets, digest, Transcript}
use vaulttls.Login.{client_login, Handshake, ClientDraw, Machine}
use vaulttls.Codec.Messages.{ParsedClientFinish, ParsedClientHello, ParsedServerHello}
use vaulttls.Codec.Decode.{decode_client_finish, decode_client_hello, decode_server_hello}
use vaulttls.ServerConfig.{server_id, encode_server_config}
use vaulttls.Session.State.{World, Outside}
use vaulttls.Record.{direction_state, DirectionState}
use vaulttls.Codec.Encode.{encode_server_hello_core}
use vaulttls.Login.Runs.{client_login-Done, Answered, Done}
use vaulttls.Session.Runs.{Established}
use vaulttls.Session.Handshake.{login_handshake}
use vaulttls.Opaque.Agreement.{login-agree, RunsCollide}
use vaulttls.Codec.Wire.{encode_client_hello_iff, encoded_server_hello}
use vaulttls.Session.Safety.{login_finish-eq_ok, login_handshake-Established}
use vaulttls.Codec.Exact.{
  decode-encode_client_finish, decode-encode_client_hello, decode-encode_server_hello,
}
use vaulttls.RateLimit.{allow}

send_frame_fits :
    (payload : Bytes) {w : Bytes} → send_frame payload ≡ ok w → length payload < 256 ^ 4
unfolding send_frame
send_frame_fits payload e =
    let (n, p, _) = >>=-eq-ok (struct_pack 4 (length payload)) _ e in
    (struct_pack-eq_ok 4 (length payload) p).0

-- Two frames with other bytes behind them that are the same bytes.
frames_agree :
    (a b : Bytes) {u v x y : Bytes}
    → send_frame a ≡ ok u
    → send_frame b ≡ ok v
    → u ++ x ≡ v ++ y
    → (a ≡ b) × (x ≡ y)
frames_agree a b {u} {v} {x} {y} p q e =
    vector_inj 4 a b (send_frame_fits a p) (send_frame_fits b q)
      (ap (λ t. t ++ x) (sym (send_frame-eq_ok a p)) ∙ e ∙ ap (λ t. t ++ y) (send_frame-eq_ok b q))

-- What is received from a connection that carries one frame.
one_frame :
    (payload : Bytes) {u : Bytes} (s : List Segment) {got : Bytes} {later : List Segment}
    → send_frame payload ≡ ok u
    → IsOpen s
    → total s ≡ u
    → recv_frame s ≡ ok (got, later)
    → got ≡ payload
one_frame payload {u} s p o t r = (recv_frame_sent payload s [] p o (t ∙ sym (append-nil u)) r).0

module _ {P Cert : Type 0} (C : Crypto P) (X : X509 Cert) (render : Exc → Text)
    (self : ServerSession Cert) where
  -- The ServerHello that the server builds is decoded to a message with its KE2.
  built-ke2 :
      (nonce : Bytes) (seconds : ℕ) (t : Transcript) (ke2 : Bytes) {hello : Bytes}
      {parsed : ParsedServerHello}
      → build_signed_server_hello C X self nonce seconds t ke2 ≡ ok hello
      → decode_server_hello hello ≡ ok parsed
      → parsed.opaque_ke2 ≡ ke2
  unfolding build_signed_server_hello
  built-ke2 nonce seconds t ke2 {hello} {parsed} e d =
      let (config, _, e1) = >>=-eq-ok (encode_server_config server_id seconds) _ e in
      let (config_sig, _, e2) = >>=-eq-ok (sign_server_config self.sign config) _ e1 in
      let (chain, _, e3) = >>=-eq-ok (encode_cert_chain X self.ca_cert self.server_cert) _ e2 in
      let (core, p, e4) = >>=-eq-ok (encode_server_hello_core 1 nonce chain config ke2) _ e3 in
      let (verify_sig, _, e5) =
        >>=-eq-ok (sign_cert_verify C.hash self.sign (digest C.hash t) core) _ e4 in
      let m : ParsedServerHello = record {
        version = 1;
        server_nonce = nonce;
        opaque_ke2 = ke2;
        certificate_chain = chain;
        server_config = config;
        server_config_sig = config_sig;
        cert_verify_sig = verify_sig;
      } in
      let whole : encoded_server_hello m ≡ ok hello = rw p e5 in
      ap (λ (q : ParsedServerHello). q.opaque_ke2)
        (ok_inj (sym d ∙ decode-encode_server_hello m whole))

  -- The values that the client's and the server's side of this login computed collide.
  abbrev pub LoginCollides : ClientDraw → Outside → ParsedClientHello → World → Text → Type 0
  LoginCollides d o ch w password =
      (secret : Bytes) × (encode password ≡ ok secret)
      × RunsCollide C d.r d.c_eph d.nonce_c secret o.draw (opaque_of self) ch.credential_id w.users

  -- The two sides of a login on the same bytes, message by message.
  finish-agree :
      CryptoLaws C
      → (machine : Machine Cert) (d : ClientDraw) (username password : Text)
        (incoming : List Segment) {done : Handshake} (o : Outside) (ch : ParsedClientHello)
        (raw : Bytes) (w : World) {send_enc recv_enc : DirectionState} {w' : World}
        (a : Done C X machine d username password incoming done)
        (x : Established C X render self o ch raw w w' send_enc recv_enc)
      → length (o.draw.nonce_s 32) ≡ 32
      → raw ≡ a.client_hello
      → decode_client_hello raw ≡ ok ch
      → a.hello ≡ x.hello
      → x.cf_raw ≡ a.answered.client_finish
      → ((direction_state C.hash done.secrets.server_app ≡ ok send_enc)
          × (direction_state C.hash done.secrets.client_app ≡ ok recv_enc))
        ⊎ LoginCollides d o ch w password
  finish-agree L machine d username password incoming {done} o ch raw w {send_enc} {recv_enc} {w'} a
        x sl first decoded hello finish =
      let c = a.answered in
      let sent_hello : ParsedClientHello = record {
        version = 1;
        credential_id = a.credential_id;
        client_nonce = a.state.nonce_c;
        opaque_ke1 = a.ke1;
      } in
      let fits = ((encode_client_hello_iff sent_hello a.client_hello).0 a.client_hello_is).0 in
      let begun = login_start-Started C d.r d.c_eph d.nonce_c a.secret a.started in
      let ch_is : ch ≡ sent_hello = ok_inj (
        sym decoded
        ∙ ap decode_client_hello first
        ∙ decode-encode_client_hello sent_hello a.client_hello_is) in
      let ke1_is : ch.opaque_ke1 ≡ a.ke1 = ap (λ (m : ParsedClientHello). m.opaque_ke1) ch_is in
      let t1_is : c.t1 ≡ x.t1 = ok_inj (
        sym c.t1_is
        ∙ ap (λ (b : Bytes). add (codes "client_hello") b empty_transcript) (sym first)
        ∙ x.t1_is) in
      let t2_is : c.t2 ≡ x.t2 =
        ok_inj (sym c.t2_is ∙ (λ i. add (codes "server_hello") (hello i) (t1_is i)) ∙ x.t2_is) in
      let t3_is : c.t3 ≡ x.t3 =
        ok_inj
          (sym c.t3_is ∙ (λ i. add (codes "client_finish") (sym finish i) (t2_is i)) ∙ x.t3_is) in
      let ke2_is : c.parsed.opaque_ke2 ≡ x.ke2 =
        built-ke2 o.server_nonce o.seconds x.t1 x.ke2 x.hello_is
          (ap decode_server_hello (sym hello) ∙ c.parsed_is) in
      let cf_is : x.cf ≡ record { opaque_ke3 = c.keys.ke3 } = ok_inj (
        sym x.cf_is
        ∙ ap decode_client_finish finish
        ∙ decode-encode_client_finish (record { opaque_ke3 = c.keys.ke3 }) c.client_finish_is) in
      let real = (login_finish-eq_ok C X render self x.state x.cf.opaque_ke3 x.finished).0 in
      elim (login-agree C L d.r d.c_eph d.nonce_c a.secret o.draw (opaque_of self) ch.credential_id
        w.users {ke2 = x.ke2} {sst = x.state} (ap length (sym begun.nonce_is) ∙ fits.nonce_length)
        sl a.started
        (ap (λ (k : Bytes). Server.login_start C o.draw (opaque_of self) ch.credential_id k w.users)
            (sym ke1_is)
          ∙ x.started)
        real (ap (Client.login_finish C a.state) (sym ke2_is) ∙ c.keys_are)) [
          | inr found ↦ inr (a.secret, a.secret_is, found)
          | inl accepted ↦ inl (
              agreed c x t3_is (
                ok_inj (
                  sym accepted
                  ∙ ap (λ (m : ParsedClientFinish). Server.login_finish C x.state m.opaque_ke3)
                      (sym cf_is)
                  ∙ x.finished)))
        ]
    where
      agreed :
          (c : Answered C X machine a.state a.client_hello a.first_sent a.hello a.later done)
          (x : Established C X render self o ch raw w w' send_enc recv_enc)
          → c.t3 ≡ x.t3
          → ◌≡◌ {A = Bytes × Bytes}
              (c.keys.session_key, c.keys.export_key)
              (x.session_key, x.export_key)
          → (direction_state C.hash done.secrets.server_app ≡ ok send_enc)
            × (direction_state C.hash done.secrets.client_app ≡ ok recv_enc)
      agreed c x t k =
          let secrets : done.secrets ≡ x.secrets = ok_inj (
            sym c.secrets_are
            ∙ (λ i. derive_traffic_secrets C.hash (k i).0 (digest C.hash (t i)))
            ∙ x.secrets_are) in
          (
            ap (λ (s : TrafficSecrets). direction_state C.hash s.server_app) secrets ∙ x.send_is,
            ap (λ (s : TrafficSecrets). direction_state C.hash s.client_app) secrets ∙ x.recv_is,
          )

  -- A client and a server that both finish a login, over a network that carries each side's bytes to
  -- the other unchanged, however it cuts them up: the server sends with the very key state that the
  -- client receives with, and the other way, or else the values that these two runs
  -- computed collide: their different MAC keys gave one HMAC over the transcript, or their different
  -- Diffie-Hellman secrets one MAC key. HMACs have 64 bytes, points 65, and the server's OPAQUE nonce 32.
  pub secure_channel :
      CryptoLaws C
      → (machine : Machine Cert) (d : ClientDraw) (username password : Text)
        (incoming : List Segment) {done : Handshake} (o : Outside) (ch : ParsedClientHello)
        (raw : Bytes) (w : World) {first_sent : Bytes} {send_enc recv_enc : DirectionState}
        {w' : World}
      → length (o.draw.nonce_s 32) ≡ 32
      → IsOpen incoming
      → IsOpen w.incoming
      → client_login C X machine d username password incoming ≡ ok done
      → send_frame raw ≡ ok first_sent
      → decode_client_hello raw ≡ ok ch
      → login_handshake C X render self o ch raw w ≡ (ok (some (send_enc, recv_enc)), w')
      → done.sent ≡ first_sent ++ total w.incoming
      → w'.sent ≡ w.sent ++ total incoming
      → ((direction_state C.hash done.secrets.server_app ≡ ok send_enc)
          × (direction_state C.hash done.secrets.client_app ≡ ok recv_enc))
        ⊎ LoginCollides d o ch w password
  secure_channel L machine d username password incoming {done} o ch raw w {first_sent} sl oc os
        client framed decoded server to_server to_client =
      let a = client_login-Done C X machine d username password incoming client in
      let (_, x) = login_handshake-Established C X render self o ch raw w server in
      let (first, rest) =
        frames_agree raw a.client_hello framed a.first_sent_is
          (sym to_server ∙ a.answered.sent_is) in
      let hello_bytes : total incoming ≡ x.frame =
        (append_inj w.sent w.sent refl (sym to_client ∙ x.sent)).1 in
      finish-agree L machine d username password incoming o ch raw
        (record w { limiter = (allow self.ip ch.credential_id o.monotonic w.limiter).1 }) a x sl
        first decoded (one_frame x.hello incoming x.frame_is oc hello_bytes a.received)
        (one_frame a.answered.client_finish w.incoming a.answered.last_sent_is os rest x.received)
