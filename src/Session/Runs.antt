-- ===== src/Session/Runs.antt =====
-- server.py: what the parts of a login that did not raise have done.
use vaulttls.Opaque.Server
use vaulttls.Framing
use vaulttls.Prelude.{
  take, ℕ, Bool-cases, ◌≡◌, refl, sym, ap, ◌∙◌, inl, inr, Option, none, some, List, ◌++◌,
  if◌then◌else◌, Bytes,
}
use vaulttls.Session.State.{sendall, alert, Outside, World, receive, send}
use vaulttls.Opaque.Crypto.{Crypto}
use vaulttls.Pki.{X509}
use vaulttls.Errors.{is_value_error, ok_inj, err, Result, ok, Exc}
use vaulttls.Python.Text.{codes, Text}
use vaulttls.Act.{continue-eq_ok, Act, raise, pure, none_after, try_some, lift-eq_ok, ◌>>=◌, ◌>>◌}
use vaulttls.Framing.{Segment}
use vaulttls.Session.Hello.{build_signed_server_hello, opaque_of, ServerSession}
use vaulttls.Session.Handshake.{answer_client, establish, finish_or_alert, start_or_alert}
use vaulttls.Opaque.Server.{ServerState}
use vaulttls.Codec.Messages.{ParsedClientFinish, ParsedClientHello}
use vaulttls.Record.{direction_state, DirectionState}
use vaulttls.Kdf.{digest, derive_traffic_secrets, TrafficSecrets, empty_transcript, add, Transcript}
use vaulttls.Codec.Decode.{decode_client_finish}
use vaulttls.RateLimit.{reset}

sendall-eq_ok :
    (frame : Bytes) (w : World) {u : Unit {0}} {w' : World}
    → sendall frame w ≡ (ok u, w')
    → w' ≡ record w { sent = w.sent ++ frame }
unfolding sendall
sendall-eq_ok frame w {u} {w'} e = sent (w.fault w.sent frame) e
  where
    sent :
        (o : Option (ℕ × Exc))
        → elim o as (λ x. Result (Unit {0}) × World) [
          | none ↦ (ok tt, record w { sent = w.sent ++ frame })
          | some (n, x) ↦ (err x, record w { sent = w.sent ++ take n frame })
        ]
          ≡ (ok u, w')
        → w' ≡ record w { sent = w.sent ++ frame }
    sent none q = ap (λ (x : Result (Unit {0}) × World). x.1) (sym q)
    sent (some (n, x)) q = cc

pub send-eq_ok :
    (payload : Bytes) (w : World) {u : Unit {0}} {w' : World}
    → send payload w ≡ (ok u, w')
    → (frame : Bytes) × (Framing.send_frame payload ≡ ok frame)
      × (w' ≡ record w { sent = w.sent ++ frame })
unfolding send
send-eq_ok payload w e =
    let (frame, p, q) = lift-eq_ok (Framing.send_frame payload) _ w e in
    (frame, p, sendall-eq_ok frame w q)

pub receive-eq_ok :
    (w : World) {payload : Bytes} {w' : World}
    → receive w ≡ (ok payload, w')
    → (later : List Segment) × (Framing.recv_frame w.incoming ≡ ok (payload, later))
      × (w' ≡ record w { incoming = later })
unfolding receive
receive-eq_ok w {payload} {w'} e = read (Framing.recv_frame w.incoming) e
  where
    read :
        (r : Result (Bytes × List Segment))
        → elim r as (λ x. Result Bytes × World) [
          | ok (got, later) ↦ (ok got, record w { incoming = later })
          | err x ↦ (err x, w)
        ]
          ≡ (ok payload, w')
        → (later : List Segment) × (r ≡ ok (payload, later)) × (w' ≡ record w { incoming = later })
    read (ok (got, later)) h = (
      later,
      ap (λ (g : Bytes). ok (g, later)) (ok_inj (ap (λ (x : Result Bytes × World). x.0) h)),
      ap (λ (x : Result Bytes × World). x.1) (sym h),
    )
    read (err x) h = cc

module _ {P Cert : Type 0} (C : Crypto P) (X : X509 Cert) (render : Exc → Text)
    (self : ServerSession Cert) where
  -- The handler of either `try` returns `none` or raises.
  pub start_or_alert-eq_some :
      (o : Outside) (ch : ParsedClientHello) (w : World) {answer : Bytes × ServerState} {w' : World}
      → start_or_alert C X render self o ch w ≡ (ok (some answer), w')
      → (Server.login_start C o.draw (opaque_of self) ch.credential_id ch.opaque_ke1 w.users
          ≡ ok answer)
        × (w' ≡ w)
  unfolding start_or_alert
  start_or_alert-eq_some o ch w {answer} {w'} e =
      let start =
        Server.login_start C o.draw (opaque_of self) ch.credential_id ch.opaque_ke1 w.users in
      let (a, p, q, r) =
        try_some start w (λ x. x) _
          (λ x h. none_after (alert (codes "Internal error: " ++ render x) w) h) e in
      (p ∙ ap ok (sym q), r)

  finish_or_alert-eq_some :
      (state : ServerState) (ke3 : Bytes) (w : World) {key : Bytes} {w' : World}
      → finish_or_alert C X render self state ke3 w ≡ (ok (some key), w')
      → (export_key : Bytes) × (Server.login_finish C state ke3 ≡ ok (key, export_key)) × (w' ≡ w)
  unfolding finish_or_alert
  finish_or_alert-eq_some state ke3 w {key} {w'} e =
      let (a, p, q, r) =
        try_some (Server.login_finish C state ke3) w (λ (x : Bytes × Bytes). x.0) _ never e in
      (a.1, p ∙ ap (λ (k : Bytes). ok (k, a.1)) (sym q), r)
    where
      never :
          (x : Exc)
          → (if is_value_error x then (do alert (render x); pure none) else raise x) w
            ≡ (ok (some key), w')
          → ⊥
      never x h = elim (Bool-cases (is_value_error x)) [
        | inl y ↦ none_after (alert (render x) w) (rw y at h)
        | inr n ↦ let k = rw n at h in cc
      ]

  -- A login that came to the application data.
  pub record Established (o : Outside) (ch : ParsedClientHello) (raw : Bytes) (w w' : World)
      (send_enc recv_enc : DirectionState) : Type 0 where
    pub t1 : Transcript
    pub t1_is : add (codes "client_hello") raw empty_transcript ≡ ok t1
    pub ke2 : Bytes
    pub state : ServerState
    pub started :
        Server.login_start C o.draw (opaque_of self) ch.credential_id ch.opaque_ke1 w.users
        ≡ ok (ke2, state)
    pub hello : Bytes
    pub hello_is : build_signed_server_hello C X self o.server_nonce o.seconds t1 ke2 ≡ ok hello
    pub t2 : Transcript
    pub t2_is : add (codes "server_hello") hello t1 ≡ ok t2
    pub frame : Bytes
    pub frame_is : Framing.send_frame hello ≡ ok frame
    pub sent : w'.sent ≡ w.sent ++ frame
    pub cf_raw : Bytes
    pub later : List Segment
    pub received : Framing.recv_frame w.incoming ≡ ok (cf_raw, later)
    pub left : w'.incoming ≡ later
    pub cf : ParsedClientFinish
    pub cf_is : decode_client_finish cf_raw ≡ ok cf
    pub t3 : Transcript
    pub t3_is : add (codes "client_finish") cf_raw t2 ≡ ok t3
    pub session_key : Bytes
    pub export_key : Bytes
    pub finished : Server.login_finish C state cf.opaque_ke3 ≡ ok (session_key, export_key)
    pub secrets : TrafficSecrets
    pub secrets_are : derive_traffic_secrets C.hash session_key (digest C.hash t3) ≡ ok secrets
    pub send_is : direction_state C.hash secrets.server_app ≡ ok send_enc
    pub recv_is : direction_state C.hash secrets.client_app ≡ ok recv_enc
    pub same_users : w'.users ≡ w.users

  -- The keys and the directions of a session key.
  record Keyed (ch : ParsedClientHello) (transcript : Transcript) (session_key : Bytes)
      (w w' : World) (send_enc recv_enc : DirectionState) : Type 0 where
    secrets : TrafficSecrets
    secrets_are : derive_traffic_secrets C.hash session_key (digest C.hash transcript) ≡ ok secrets
    send_is : direction_state C.hash secrets.server_app ≡ ok send_enc
    recv_is : direction_state C.hash secrets.client_app ≡ ok recv_enc
    after : w' ≡ record w { limiter = reset self.ip ch.credential_id w.limiter }

  establish-Keyed :
      (ch : ParsedClientHello) (transcript : Transcript) (session_key : Bytes) (w : World)
      {send_enc recv_enc : DirectionState} {w' : World}
      → establish C X render self ch transcript session_key w ≡ (ok (send_enc, recv_enc), w')
      → Keyed ch transcript session_key w w' send_enc recv_enc
  unfolding establish
  establish-Keyed ch transcript session_key w {send_enc} {recv_enc} {w'} e =
      let (secrets, p1, e1) =
        lift-eq_ok (derive_traffic_secrets C.hash session_key (digest C.hash transcript)) _ w e in
      let (s, p2, e2) = lift-eq_ok (direction_state C.hash secrets.server_app) _ w e1 in
      let (r, p3, e3) = lift-eq_ok (direction_state C.hash secrets.client_app) _ w e2 in
      let Out : Type 0 = Result (DirectionState × DirectionState) × World in
      let both : _ ≡ (send_enc, recv_enc) = ok_inj (ap (λ (x : Out). x.0) e3) in
      record {
        secrets = secrets;
        secrets_are = p1;
        send_is = p2 ∙ ap (λ (x : DirectionState × DirectionState). ok x.0) both;
        recv_is = p3 ∙ ap (λ (x : DirectionState × DirectionState). ok x.1) both;
        after = ap (λ (x : Out). x.1) (sym e3);
      }

  pub answer_client-Established :
      (o : Outside) (ch : ParsedClientHello) (raw : Bytes) (t1 : Transcript) (ke2 : Bytes)
      (state : ServerState) (w : World) {send_enc recv_enc : DirectionState} {w' : World}
      → add (codes "client_hello") raw empty_transcript ≡ ok t1
      → Server.login_start C o.draw (opaque_of self) ch.credential_id ch.opaque_ke1 w.users
        ≡ ok (ke2, state)
      → answer_client C X render self o ch t1 (ke2, state) w ≡ (ok (some (send_enc, recv_enc)), w')
      → Established o ch raw w w' send_enc recv_enc
  unfolding answer_client
  answer_client-Established o ch raw t1 ke2 state w {send_enc} {recv_enc} {w'} et es e =
      let (hello, p1, e1) =
        lift-eq_ok (build_signed_server_hello C X self o.server_nonce o.seconds t1 ke2) _ w e in
      let (t2, p2, e2) = lift-eq_ok (add (codes "server_hello") hello t1) _ w e1 in
      let (_, w1, p3, e3) = continue-eq_ok (send hello w) _ e2 in
      let (cf_raw, w2, p4, e4) = continue-eq_ok (receive w1) _ e3 in
      let (cf, p5, e5) = lift-eq_ok (decode_client_finish cf_raw) _ w2 e4 in
      let (t3, p6, e6) = lift-eq_ok (add (codes "client_finish") cf_raw t2) _ w2 e5 in
      let (key, w3, p7, e7) =
        continue-eq_ok (finish_or_alert C X render self state cf.opaque_ke3 w2) _ e6 in
      let (frame, f1, f2) = send-eq_ok hello w p3 in
      let (later, r1, r2) = receive-eq_ok w1 p4 in
      keyed hello t2 cf_raw cf t3 w1 w2 frame later key w3 p1 p2 f1 f2 r1 r2 p5 p6 p7 e7
    where
      keyed :
          (hello : Bytes) (t2 : Transcript) (cf_raw : Bytes) (cf : ParsedClientFinish)
          (t3 : Transcript) (w1 w2 : World) (frame : Bytes) (later : List Segment)
          (key : Option Bytes) (w3 : World)
          → build_signed_server_hello C X self o.server_nonce o.seconds t1 ke2 ≡ ok hello
          → add (codes "server_hello") hello t1 ≡ ok t2
          → Framing.send_frame hello ≡ ok frame
          → w1 ≡ record w { sent = w.sent ++ frame }
          → Framing.recv_frame w1.incoming ≡ ok (cf_raw, later)
          → w2 ≡ record w1 { incoming = later }
          → decode_client_finish cf_raw ≡ ok cf
          → add (codes "client_finish") cf_raw t2 ≡ ok t3
          → finish_or_alert C X render self state cf.opaque_ke3 w2 ≡ (ok key, w3)
          → elim key as (λ k. Act World (Option (DirectionState × DirectionState))) [
            | none ↦ pure none
            | some k ↦ (do both ← establish C X render self ch t3 k; pure (some both))
          ]
              w3
            ≡ (ok (some (send_enc, recv_enc)), w')
          → Established o ch raw w w' send_enc recv_enc
      keyed hello t2 cf_raw cf t3 w1 w2 frame later none w3 p1 p2 f1 f2 r1 r2 p5 p6 p7 e7 = cc
      keyed hello t2 cf_raw cf t3 w1 w2 frame later (some key) w3 p1 p2 f1 f2 r1 r2 p5 p6 p7 e7 =
          let (both, w4, q1, q2) = continue-eq_ok (establish C X render self ch t3 key w3) _ e7 in
          let (exported, q3, q4) = finish_or_alert-eq_some state cf.opaque_ke3 w2 p7 in
          let Out : Type 0 = Result (Option (DirectionState × DirectionState)) × World in
          let same : both ≡ (send_enc, recv_enc) = cc in
          let last : w4 ≡ w' = ap (λ (x : Out). x.1) q2 in
          let k = establish-Keyed ch t3 key w3 (q1 ∙ (λ i. (ok (same i), last i))) in
          record {
            t1 = t1;
            t1_is = et;
            ke2 = ke2;
            state = state;
            started = es;
            hello = hello;
            hello_is = p1;
            t2 = t2;
            t2_is = p2;
            frame = frame;
            frame_is = f1;
            sent = rw (k.after, q4, r2, f2) refl;
            cf_raw = cf_raw;
            later = later;
            received = ap (λ (x : World). Framing.recv_frame x.incoming) (sym f2) ∙ r1;
            left = rw (k.after, q4, r2) refl;
            cf = cf;
            cf_is = p5;
            t3 = t3;
            t3_is = p6;
            session_key = key;
            export_key = exported;
            finished = q3;
            secrets = k.secrets;
            secrets_are = k.secrets_are;
            send_is = k.send_is;
            recv_is = k.recv_is;
            same_users = rw (k.after, q4, r2, f2) refl;
          }
