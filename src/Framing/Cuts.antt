-- ===== src/Framing/Cuts.antt =====
-- transcript.py: the reads of frames whose bytes are cut up in two ways.
use vaulttls.Prelude.{
  from_big_endian, dec_lt, ℕ, ◌≡◌, sym, ap, ◌∙◌, Bool, true, false, List, arith, leb, Bytes, length,
  take, drop,
}
use vaulttls.Errors.{peer_closed, Exc, Result, ok, err, guard, ◌>>=◌}
use vaulttls.Framing
use vaulttls.Framing.Exact.{total, IsOpen}
use vaulttls.Framing.Frames.{recv_exactly_enough, recv_exactly_short}

-- Two reads that return the same bytes and leave the same ones, or raise the same.
pub data SameRead
    : Result (Bytes × List Framing.Segment) → Result (Bytes × List Framing.Segment) → Type 0 where
  same_bytes :
      (c : Bytes) (l l' : List Framing.Segment)
      → IsOpen l
      → IsOpen l'
      → total l' ≡ total l
      → SameRead (ok (c, l)) (ok (c, l'))
  same_error : (e : Exc) → SameRead (err e) (err e)

SameRead-recv_exactly :
    (n : ℕ) (s s' : List Framing.Segment)
    → IsOpen s
    → IsOpen s'
    → total s' ≡ total s
    → SameRead (Framing.recv_exactly n s) (Framing.recv_exactly n s')
SameRead-recv_exactly n s s' o o' t = elim (dec_lt (length (total s)) n) [
  | yes few ↦
      let p = recv_exactly_short n s few o in
      let p' =
        recv_exactly_short n s' (omega (arith, ap length t, few)) o'
        ∙ ap (λ b. err (peer_closed (length b) n)) t in
      rw (p, p') (same_error _)
  | no many ↦
      let (l, p, q, ol) = recv_exactly_enough n s (omega arith) o in
      let (l', p', q', ol') = recv_exactly_enough n s' (omega (arith, ap length t, many)) o' in
      let p'' : Framing.recv_exactly n s' ≡ ok (take n (total s), l') =
        p' ∙ ap (λ b. ok (take n b, l')) t in
      rw (p, p'') (same_bytes _ l l' ol ol' (q' ∙ ap (drop n) t ∙ sym q))
]

SameRead-bind :
    (f : Bytes × List Framing.Segment → Result (Bytes × List Framing.Segment))
    {r r' : Result (Bytes × List Framing.Segment)}
    → SameRead r r'
    → ((c : Bytes) (l l' : List Framing.Segment)
        → IsOpen l
        → IsOpen l'
        → total l' ≡ total l
        → SameRead (f (c, l)) (f (c, l')))
    → SameRead (r >>= f) (r' >>= f)
SameRead-bind f (same_bytes c l l' o o' t) k = k c l l' o o' t
SameRead-bind f (same_error e) k = same_error e

guarded :
    (b : Bool) (e : Exc) {r r' : Result (Bytes × List Framing.Segment)}
    → SameRead r r'
    → SameRead (guard b e >>= λ u. r) (guard b e >>= λ u. r')
unfolding guard
guarded true e h = h
guarded false e h = same_error e

pub SameRead-recv_frame :
    (s s' : List Framing.Segment)
    → IsOpen s
    → IsOpen s'
    → total s' ≡ total s
    → SameRead (Framing.recv_frame s) (Framing.recv_frame s')
unfolding Framing.recv_frame
SameRead-recv_frame s s' o o' t =
    SameRead-bind _ (SameRead-recv_exactly 4 s s' o o' t) (λ c l l' ol ol' tl.
      guarded (leb (from_big_endian c) Framing.max_frame) _
        (SameRead-recv_exactly (from_big_endian c) l l' ol ol' tl))
