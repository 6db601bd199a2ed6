-- ===== src/Session/Sound.antt =====
-- server.py: what holds of the server's state between two connections, and of what a connection sent.
use vaulttls.Framing
use vaulttls.Dict
use vaulttls.Codec.Encode
use vaulttls.Prelude.{
  append_assoc, append-nil, sym, ap, ◌∙◌, take, length-append, Bool-cases, All, ℕ, ◌≤◌, ◌≡◌, refl,
  inl, inr, Option, none, some, List, [], ◌∷◌, ◌++◌, arith, leb, Bytes, IsBytes, length,
}
use vaulttls.Python.Text.{Text}
use vaulttls.Session.State.{alert, receive, send, sendall, World}
use vaulttls.RateLimit.{key_eq, RateLimiter, allow_key, timestamps, Key, recent}
use vaulttls.Storage.{OpaqueRecord, StoredRecord}
use vaulttls.Framing.Stream.{recv_frame-IsBytes, IsByteStream}
use vaulttls.Act.Gives.{Gives-pure, Returned, Gives-lift, Gives-try_except, Gives-bind, Any, Gives}
use vaulttls.Storage.Laws.{hexed, IsRecord}
use vaulttls.Errors.{Exc, err, ok, Result}
use vaulttls.Python.Hex.{hex}
use vaulttls.Dict.Every.{All-put, All-get}
use vaulttls.Framing.{Segment}
use vaulttls.Act.{lift}
use vaulttls.Codec.Messages.{alert_fatal}

-- Whole frames, one behind the other.
pub data IsFramed : Bytes → Type 0 where
  no_frames : {s : Bytes} → s ≡ [] → IsFramed s
  one_more :
      {s t : Bytes} (payload frame : Bytes)
      → IsFramed s
      → Framing.send_frame payload ≡ ok frame
      → t ≡ s ++ frame
      → IsFramed t

-- Whole frames, up to the first call of `sendall` that failed, if one did.
pub data IsSentBy (fault : Bytes → Bytes → Option (ℕ × Exc)) : Bytes → Type 0 where
  all_whole : {s : Bytes} → IsFramed s → IsSentBy fault s
  failed_behind :
      {s : Bytes} (before payload frame rest : Bytes) (n : ℕ) (e : Exc)
      → IsFramed before
      → Framing.send_frame payload ≡ ok frame
      → fault before frame ≡ some (n, e)
      → s ≡ before ++ (take n frame ++ rest)
      → IsSentBy fault s

-- An entry of the user database is the hex form of a record of byte strings, under its own key.
pub record IsEntry (entry : Text × StoredRecord) : Type 0 where
  pub user : OpaqueRecord
  pub is_record : IsRecord user
  pub key_is : entry.0 ≡ hex user.credential_id
  pub raw_is : entry.1 ≡ hexed user

pub record IsSound (w : World) : Type 0 where
  pub incoming_bytes : IsByteStream w.incoming
  pub sent_frames : IsSentBy w.fault w.sent
  pub users_good : All IsEntry w.users
  pub attempts_bounded : All (λ (e : Key × List ℕ). length e.1 ≤ w.limiter.max) w.limiter.history

length-recent : (window now : ℕ) (ts : List ℕ) → length (recent window now ts) ≤ length ts
unfolding recent
length-recent window now [] = omega arith
length-recent window now (t ∷ ts) = ground (arith, length-recent window now ts)

abbrev Small : ℕ → Key × List ℕ → Type 0
Small max e = length e.1 ≤ max

timestamps_bound :
    (k : Key) (s : RateLimiter) → All (Small s.max) s.history → length (timestamps k s) ≤ s.max
unfolding timestamps
timestamps_bound k s h = found (Dict.get key_eq k s.history) refl
  where
    found :
        (o : Option (List ℕ))
        → Dict.get key_eq k s.history ≡ o
        → length (elim o [ some ts ↦ ts | none ↦ [] ]) ≤ s.max
    found none e = omega arith
    found (some ts) e = All-get key_eq (Small s.max) k s.history h e

pub allow_key-bound :
    (k : Key) (now : ℕ) (s : RateLimiter)
    → All (Small s.max) s.history
    → All (Small (allow_key k now s).1.max) (allow_key k now s).1.history
unfolding allow_key
allow_key-bound k now s h =
    let live = recent s.window now (timestamps k s) in
    let small : length live ≤ s.max =
      omega (arith, length-recent s.window now (timestamps k s), timestamps_bound k s h) in
    elim (Bool-cases (leb s.max (length live))) [
      | inl full ↦ rw full (All-put key_eq (Small s.max) k live s.history small h)
      | inr room ↦ rw room (
          All-put key_eq (Small s.max) k (live ++ (now ∷ [])) s.history
            (ground (arith, length-append live (now ∷ []))) h)
    ]

-- Whatever is sent behind a call that failed.
sent_more :
    {fault : Bytes → Bytes → Option (ℕ × Exc)} (before payload frame rest more : Bytes) (n : ℕ)
    (e : Exc) {s : Bytes}
    → IsFramed before
    → Framing.send_frame payload ≡ ok frame
    → fault before frame ≡ some (n, e)
    → s ≡ before ++ (take n frame ++ rest)
    → IsSentBy fault (s ++ more)
sent_more before payload frame rest more n e framed made fails is =
    failed_behind before payload frame (rest ++ more) n e framed made fails (
      ap (λ t. t ++ more) is
      ∙ append_assoc before (take n frame ++ rest) more
      ∙ ap (λ t. before ++ t) (append_assoc (take n frame) rest more))

-- A frame that is sent as a whole, and one of which only a part is.
sent_whole :
    {fault : Bytes → Bytes → Option (ℕ × Exc)} {s : Bytes} (payload frame : Bytes)
    → Framing.send_frame payload ≡ ok frame
    → IsSentBy fault s
    → IsSentBy fault (s ++ frame)
sent_whole payload frame made (all_whole framed) =
    all_whole (one_more payload frame framed made refl)
sent_whole payload frame made (failed_behind b p f rest n e framed q fails is) =
    sent_more b p f rest frame n e framed q fails is

sent_part :
    {fault : Bytes → Bytes → Option (ℕ × Exc)} {s : Bytes} (payload frame : Bytes) (n : ℕ) (e : Exc)
    → Framing.send_frame payload ≡ ok frame
    → fault s frame ≡ some (n, e)
    → IsSentBy fault s
    → IsSentBy fault (s ++ take n frame)
sent_part {fault} {s} payload frame n e made fails (all_whole framed) =
    failed_behind s payload frame [] n e framed made fails
      (ap (λ t. s ++ t) (sym (append-nil (take n frame))))
sent_part payload frame n e made fails (failed_behind b p f rest m x framed q failed is) =
    sent_more b p f rest (take n frame) m x framed q failed is

sendall-IsSound :
    (payload frame : Bytes)
    → Framing.send_frame payload ≡ ok frame
    → Gives IsSound Any (sendall frame)
unfolding sendall
sendall-IsSound payload frame made = record { at = λ w h. sent w h (w.fault w.sent frame) refl }
  where
    sent :
        (w : World)
        → IsSound w
        → (o : Option (ℕ × Exc)) → w.fault w.sent frame ≡ o
        → IsSound
            (elim o as (λ x. Result (Unit {0}) × World) [
              | none ↦ (ok tt, record w { sent = w.sent ++ frame })
              | some (n, x) ↦ (err x, record w { sent = w.sent ++ take n frame })
            ]).1
          × Returned Any
              (elim o as (λ x. Result (Unit {0}) × World) [
                | none ↦ (ok tt, record w { sent = w.sent ++ frame })
                | some (n, x) ↦ (err x, record w { sent = w.sent ++ take n frame })
              ]).0
    sent w h none e = (
      record {
        incoming_bytes = h.incoming_bytes;
        sent_frames = sent_whole payload frame made h.sent_frames;
        users_good = h.users_good;
        attempts_bounded = h.attempts_bounded;
      },
      tt,
    )
    sent w h (some (n, x)) e = (
      record {
        incoming_bytes = h.incoming_bytes;
        sent_frames = sent_part payload frame n x made e h.sent_frames;
        users_good = h.users_good;
        attempts_bounded = h.attempts_bounded;
      },
      tt,
    )

-- Sending keeps all of it.
pub send-IsSound : (payload : Bytes) → Gives IsSound Any (send payload)
unfolding send
send-IsSound payload =
    Gives-bind (λ frame. Framing.send_frame payload ≡ ok frame) (lift (Framing.send_frame payload))
      _ (Gives-lift (Framing.send_frame payload) (λ frame e. e))
      (λ frame e. sendall-IsSound payload frame e)

pub receive-IsSound : Gives IsSound IsBytes receive
unfolding receive
receive-IsSound = record { at = λ w h. read w h (Framing.recv_frame w.incoming) refl }
  where
    read :
        (w : World)
        → IsSound w
        → (r : Result (Bytes × List Segment)) → Framing.recv_frame w.incoming ≡ r
        → IsSound
            (elim r as (λ x. Result Bytes × World) [
              | ok (payload, later) ↦ (ok payload, record w { incoming = later })
              | err e ↦ (err e, w)
            ]).1
          × Returned IsBytes
              (elim r as (λ x. Result Bytes × World) [
                | ok (payload, later) ↦ (ok payload, record w { incoming = later })
                | err e ↦ (err e, w)
              ]).0
    read w h (ok (payload, later)) e =
        let (b, l) = recv_frame-IsBytes w.incoming h.incoming_bytes e in
        (
          record {
            incoming_bytes = l;
            sent_frames = h.sent_frames;
            users_good = h.users_good;
            attempts_bounded = h.attempts_bounded;
          },
          b,
        )
    read w h (err x) e = (h, tt)

pub alert-IsSound : (msg : Text) → Gives IsSound Any (alert msg)
unfolding alert
alert-IsSound msg =
    Gives-try_except _ _
      (Gives-bind Any (lift (Encode.encode_alert alert_fatal msg)) _
        (Gives-lift (Encode.encode_alert alert_fatal msg) (λ a e. tt))
        (λ frame q. send-IsSound frame))
      (λ e. Gives-pure tt tt)
