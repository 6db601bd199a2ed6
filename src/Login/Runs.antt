-- ===== src/Login/Runs.antt =====
-- client.py: what a login that did not raise has done.
use vaulttls.Opaque.Client
use vaulttls.Prelude.{◌≡◌, sym, ap, ◌∙◌, List, ◌++◌, Bytes}
use vaulttls.Errors.{ok_inj, >>=-eq-ok, ok}
use vaulttls.Opaque.Crypto.{Crypto}
use vaulttls.Pki.{X509}
use vaulttls.Login.{
  authenticate, refuse_alert, make_login_credential_id, Handshake, ClientDraw, client_login,
  finish_login, Machine,
}
use vaulttls.Opaque.Client.{LoginResult, LoginState}
use vaulttls.Framing.{recv_frame, send_frame, Segment}
use vaulttls.Python.Text.{encode, codes, Text}
use vaulttls.Kdf.{digest, derive_traffic_secrets, empty_transcript, add, Transcript}
use vaulttls.Codec.Encode.{encode_client_finish, encode_client_hello}
use vaulttls.Python.{first}
use vaulttls.Codec.Messages.{ParsedServerHello}
use vaulttls.Codec.Decode.{decode_server_hello}
use vaulttls.Login.Authentic.{authenticate-Authentic, Authentic}

module _ {P Cert : Type 0} (C : Crypto P) (X : X509 Cert) where
  -- What the client did with the ServerHello.
  pub record Answered (machine : Machine Cert) (state : LoginState)
      (client_hello first_sent hello : Bytes) (later : List Segment) (done : Handshake)
      : Type 0 where
    pub t1 : Transcript
    pub t1_is : add (codes "client_hello") client_hello empty_transcript ≡ ok t1
    pub t2 : Transcript
    pub t2_is : add (codes "server_hello") hello t1 ≡ ok t2
    pub parsed : ParsedServerHello
    pub parsed_is : decode_server_hello hello ≡ ok parsed
    pub cert : Cert
    pub authentic : authenticate C X machine client_hello parsed ≡ ok cert
    pub keys : LoginResult
    pub keys_are : Client.login_finish C state parsed.opaque_ke2 ≡ ok keys
    pub client_finish : Bytes
    pub client_finish_is : encode_client_finish keys.ke3 ≡ ok client_finish
    pub t3 : Transcript
    pub t3_is : add (codes "client_finish") client_finish t2 ≡ ok t3
    pub last_sent : Bytes
    pub last_sent_is : send_frame client_finish ≡ ok last_sent
    pub secrets_are :
        derive_traffic_secrets C.hash keys.session_key (digest C.hash t3) ≡ ok done.secrets
    pub sent_is : done.sent ≡ first_sent ++ last_sent
    pub export_is : done.export_key ≡ keys.export_key
    pub later_is : done.later ≡ later

  finish_login-Answered :
      (machine : Machine Cert) (state : LoginState) (client_hello first_sent hello : Bytes)
      (later : List Segment) {done : Handshake}
      → finish_login C X machine state client_hello first_sent hello later ≡ ok done
      → Answered machine state client_hello first_sent hello later done
  unfolding finish_login
  finish_login-Answered machine state client_hello first_sent hello later e =
      let (tag, _, e1) = >>=-eq-ok (first hello) _ e in
      let (_, _, e2) = >>=-eq-ok (refuse_alert tag hello) _ e1 in
      let (t1, p1, e3) =
        >>=-eq-ok (add (codes "client_hello") client_hello empty_transcript) _ e2 in
      let (t2, p2, e4) = >>=-eq-ok (add (codes "server_hello") hello t1) _ e3 in
      let (parsed, p3, e5) = >>=-eq-ok (decode_server_hello hello) _ e4 in
      let (cert, p4, e6) = >>=-eq-ok (authenticate C X machine client_hello parsed) _ e5 in
      let (keys, p5, e7) = >>=-eq-ok (Client.login_finish C state parsed.opaque_ke2) _ e6 in
      let (finish, p6, e8) = >>=-eq-ok (encode_client_finish keys.ke3) _ e7 in
      let (t3, p7, e9) = >>=-eq-ok (add (codes "client_finish") finish t2) _ e8 in
      let (last, p8, e10) = >>=-eq-ok (send_frame finish) _ e9 in
      let (secrets, p9, e11) =
        >>=-eq-ok (derive_traffic_secrets C.hash keys.session_key (digest C.hash t3)) _ e10 in
      let out = ok_inj e11 in
      record {
        t1 = t1;
        t1_is = p1;
        t2 = t2;
        t2_is = p2;
        parsed = parsed;
        parsed_is = p3;
        cert = cert;
        authentic = p4;
        keys = keys;
        keys_are = p5;
        client_finish = finish;
        client_finish_is = p6;
        t3 = t3;
        t3_is = p7;
        last_sent = last;
        last_sent_is = p8;
        secrets_are = p9 ∙ ap (λ (h : Handshake). ok h.secrets) out;
        sent_is = ap (λ (h : Handshake). h.sent) (sym out);
        export_is = ap (λ (h : Handshake). h.export_key) (sym out);
        later_is = ap (λ (h : Handshake). h.later) (sym out);
      }

  -- A login that finished: what it sent first, and what it did with the answer.
  pub record Done (machine : Machine Cert) (d : ClientDraw) (username password : Text)
      (incoming : List Segment) (done : Handshake) : Type 0 where
    pub credential_id : Bytes
    pub secret : Bytes
    pub secret_is : encode password ≡ ok secret
    pub ke1 : Bytes
    pub state : LoginState
    pub started : Client.login_start C d.r d.c_eph d.nonce_c secret ≡ ok (ke1, state)
    pub client_hello : Bytes
    pub client_hello_is : encode_client_hello 1 credential_id state.nonce_c ke1 ≡ ok client_hello
    pub first_sent : Bytes
    pub first_sent_is : send_frame client_hello ≡ ok first_sent
    pub hello : Bytes
    pub later : List Segment
    pub received : recv_frame incoming ≡ ok (hello, later)
    pub answered : Answered machine state client_hello first_sent hello later done

  pub client_login-Done :
      (machine : Machine Cert) (d : ClientDraw) (username password : Text) (incoming : List Segment)
      {done : Handshake}
      → client_login C X machine d username password incoming ≡ ok done
      → Done machine d username password incoming done
  unfolding client_login
  client_login-Done machine d username password incoming e =
      let (id, _, e1) = >>=-eq-ok (make_login_credential_id C.hash username) _ e in
      let (secret, p0, e2) = >>=-eq-ok (encode password) _ e1 in
      let (start, p1, e3) = >>=-eq-ok (Client.login_start C d.r d.c_eph d.nonce_c secret) _ e2 in
      let (hello, p2, e4) = >>=-eq-ok (encode_client_hello 1 id start.1.nonce_c start.0) _ e3 in
      let (_, _, e5) = >>=-eq-ok (add (codes "client_hello") hello empty_transcript) _ e4 in
      let (sent, p3, e6) = >>=-eq-ok (send_frame hello) _ e5 in
      let (got, p4, e7) = >>=-eq-ok (recv_frame incoming) _ e6 in
      record {
        credential_id = id;
        secret = secret;
        secret_is = p0;
        ke1 = start.0;
        state = start.1;
        started = p1;
        client_hello = hello;
        client_hello_is = p2;
        first_sent = sent;
        first_sent_is = p3;
        hello = got.0;
        later = got.1;
        received = p4;
        answered = finish_login-Answered machine start.1 hello sent got.0 got.1 e7;
      }

  -- A client finishes its login only with a server that it authenticated: it received a ServerHello
  -- whose certificate chain it trusts for "localhost", whose configuration that certificate's key
  -- signed and is valid now, and whose CertificateVerify that key made over the hash of the
  -- ClientHello which the client sent and over this ServerHello.
  pub client_login-Authentic :
      (machine : Machine Cert) (d : ClientDraw) (username password : Text) (incoming : List Segment)
      {done : Handshake}
      → client_login C X machine d username password incoming ≡ ok done
      → (client_hello : Bytes) × (frame : Bytes) × (more : Bytes) × (hello : Bytes) × (later : List
          Segment)
        × (parsed : ParsedServerHello) × (cert : Cert) × (send_frame client_hello ≡ ok frame)
        × (done.sent ≡ frame ++ more)
        × (recv_frame incoming ≡ ok (hello, later))
        × (decode_server_hello hello ≡ ok parsed)
        × Authentic C X machine client_hello parsed cert
  client_login-Authentic machine d username password incoming e =
      let a = client_login-Done machine d username password incoming e in
      (
        a.client_hello,
        a.first_sent,
        a.answered.last_sent,
        a.hello,
        a.later,
        a.answered.parsed,
        a.answered.cert,
        a.first_sent_is,
        a.answered.sent_is,
        a.received,
        a.answered.parsed_is,
        authenticate-Authentic C X machine a.client_hello a.answered.parsed a.answered.authentic,
      )
