-- ===== src/Tools/Echoed.antt =====
-- tools/benchmark_artifact.py and server.py: both ends of the rounds of the benchmark.
use vaulttls.Prelude.{
  length, append-nil, append_assoc, bytes_eq_refl, ℕ, suc, ◌+◌, ◌≡◌, refl, sym, ap, ◌∙◌, none, List,
  [], ◌++◌, arith, Bytes,
}
use vaulttls.Errors.{ok, Exc}
use vaulttls.Framing
use vaulttls.Framing.{Segment}
use vaulttls.Session.State.{World}
use vaulttls.Framing.Exact.{total, IsOpen}
use vaulttls.Tools.Rounds.{
  Round, Exchanged, requests, replies, next, finished, one_more, encode-echo,
}
use vaulttls.Opaque.Crypto.{Crypto}
use vaulttls.Record.Channel.{decrypt-encrypt, AeadLaws}
use vaulttls.Tools.Benchmark.{Benched, echo_rounds}
use vaulttls.Record.{ct_app_data, DirectionState}
use vaulttls.Python.Text.{encode, Text, codes}
use vaulttls.Codec.Messages.{ParsedAppData}
use vaulttls.Codec.Exact.{decode-encode_app_data}
use vaulttls.Framing.Frames.{recv_frame-send_frame}
use vaulttls.Chat.Echo.{echo_printed, IsText}
use vaulttls.Session.Echo.{after_break, app_round, app_loop}
use vaulttls.Session.Loop.{app_loop_enough, app_loop_round}
use vaulttls.Python.{first}
use vaulttls.Codec.Encode.{encode_close}

module _ {P : Type 0} (C : Crypto P) (L : AeadLaws C.aead) (message : Bytes) where
  -- One round of the benchmark, on a connection that has the reply.
  echo_round :
      (n : ℕ) (client server : DirectionState) (r : Round C message client server)
      (s later : List Segment) {b : Benched}
      → Framing.recv_frame s ≡ ok (r.resp, later)
      → echo_rounds C n message
          (next C message message client, next C message (codes "echo:" ++ message) server)
          later
        ≡ ok b
      → echo_rounds C (suc n) message (client, server) s
        ≡ ok (record { sent = r.request ++ b.sent; later = b.later })
  unfolding echo_rounds
  echo_round n client server r s later p rest =
      let ad : ParsedAppData = record { seq = r.number'; ciphertext = r.sealed' } in
      let opened =
        (decrypt-encrypt C.aead L ct_app_data (codes "echo:" ++ message) server r.sealed_is').1 in
      let parsed = decode-encode_app_data ad r.resp_is in
      let same = bytes_eq_refl (codes "echo:" ++ message) in
      rw (r.sealed_is, echo_rounds)
        (rw r.payload_is (rw r.request_is (rw p (rw parsed (rw opened (rw same (rw rest refl)))))))

  -- All rounds of the benchmark, on a connection that has the replies.
  client_echoed :
      {n : ℕ} {client server : DirectionState} (x : Exchanged C message n client server)
      (s : List Segment) (more : Bytes)
      → IsOpen s
      → total s ≡ replies C message x ++ more
      → (later : List Segment) × (echo_rounds C n message (client, server) s
          ≡ ok (record { sent = requests C message x; later = later }))
        × (total later ≡ more)
  unfolding echo_rounds
  client_echoed (finished client server) s more o t = (s, refl, t)
  client_echoed (one_more client server r rest) s more o t =
      let (s1, p, q, o1) =
        recv_frame-send_frame r.resp s (replies C message rest ++ more) r.reply_is r.reply_fits o
          (t ∙ append_assoc r.reply (replies C message rest) more) in
      let (later, done, left) = client_echoed rest s1 more o1 q in
      (later, echo_round _ client server r s s1 p done, left)

  module _ (render : Exc → Text) (text : Text) (k : IsText text)
      (e : encode text ≡ ok message) where
    -- All rounds of the server's loop, on a connection that has the requests.
    server_echoed :
        {n : ℕ} {client server : DirectionState} (x : Exchanged C message n client server)
        (fuel : ℕ) (w : World) (more : Bytes)
        → ((before frame : Bytes) → w.fault before frame ≡ none)
        → IsOpen w.incoming
        → total w.incoming ≡ requests C message x ++ more
        → (both : DirectionState × DirectionState) × (w' : World) × (app_loop C render
              (n + fuel)
              (server, client)
              w
            ≡ app_loop C render fuel both w')
          × (w'.sent ≡ w.sent ++ replies C message x)
          × (total w'.incoming ≡ more)
          × IsOpen w'.incoming
    server_echoed (finished client server) fuel w more calm o t =
        let zero_fuel : 0 + fuel ≡ fuel = omega arith in
        (
          (server, client),
          w,
          ap (λ f. app_loop C render f (server, client) w) zero_fuel,
          sym (append-nil w.sent),
          t,
          o,
        )
    server_echoed (one_more {n = m} client server r rest) fuel w more calm o t =
        let (later, p, q, o1) =
          recv_frame-send_frame r.payload w.incoming (requests C message rest ++ more) r.request_is
            r.request_fits o (t ∙ append_assoc r.request (requests C message rest) more) in
        let round =
          (echo_printed C render L text client server (record w { incoming = later }) k e
            r.sealed_is r.payload_is (encode-echo text e) r.sealed_is' r.resp_is r.reply_is
            (calm w.sent r.reply)).0 in
        let w1 : World = record w { incoming = later; sent = w.sent ++ r.reply } in
        let (both, w', same, sent, left, o2) = server_echoed rest fuel w1 more calm o1 q in
        let plus : suc m + fuel ≡ suc (m + fuel) = omega arith in
        (
          both,
          w',
          ap (λ f. app_loop C render f (server, client) w) plus
              ∙ app_loop_round C render (m + fuel) (server, client) w p round
              ∙ same,
          sent ∙ append_assoc w.sent r.reply (replies C message rest),
          left,
          o2,
        )

    -- The loop on a frame with the tag Close.
    closed_by :
        (fuel : ℕ) (both : DirectionState × DirectionState) (w : World) {frame : Bytes}
        → Framing.send_frame encode_close ≡ ok frame
        → IsOpen w.incoming
        → total w.incoming ≡ frame
        → (w' : World) × (app_loop C render (suc fuel) both w ≡ (ok after_break, w'))
          × (w'.sent ≡ w.sent)
    unfolding app_round first
    closed_by fuel both w {frame} f o t =
        let (later, p, _, _) =
          recv_frame-send_frame encode_close w.incoming [] f (omega arith) o
            (t ∙ sym (append-nil frame)) in
        (record w { incoming = later }, app_loop_round C render fuel both w {o = none} p refl, refl)

    -- The rounds of the benchmark and the server's loop, on a message of code points whose records
    -- could be made, framed and sent in frames of at most `MAX_FRAME` bytes: the client that receives
    -- the server's replies sends the requests and takes every answer for the expected one, and the
    -- server that receives these requests and a Close, however they are cut up, sends these replies
    -- and leaves its loop by a `break`. No `sendall` of the server
    -- fails. The package opens what it sealed.
    pub echo_rounds-app_loop :
        {n : ℕ} {client server : DirectionState} (x : Exchanged C message n client server)
        (s : List Segment) (more : Bytes) (w : World) {frame : Bytes}
        → IsOpen s
        → total s ≡ replies C message x ++ more
        → Framing.send_frame encode_close ≡ ok frame
        → ((before after : Bytes) → w.fault before after ≡ none)
        → IsOpen w.incoming
        → total w.incoming ≡ requests C message x ++ frame
        → ((later : List Segment) × (echo_rounds C n message (client, server) s
              ≡ ok (record { sent = requests C message x; later = later }))
            × (total later ≡ more))
          × ((w' : World) × (app_loop C render (suc (length (total w.incoming))) (server, client) w
                ≡ (ok after_break, w'))
              × (w'.sent ≡ w.sent ++ replies C message x))
    echo_rounds-app_loop {n} {client} {server} x s more w {frame} o t f calm ow tw =
        let enough = suc (length (total w.incoming)) in
        let (both, w1, same, sent, left, o1) = server_echoed x enough w frame calm ow tw in
        let (w2, ended, kept) = closed_by (length (total w.incoming)) both w1 f o1 left in
        (
          client_echoed x s more o t,
          (
            w2,
            sym (app_loop_enough C render (n + enough) (server, client) w (omega arith)).1
                ∙ same
                ∙ ended,
            kept ∙ sent,
          ),
        )
