-- ===== src/Framing/Frames.antt =====
-- transcript.py: frames sent one after the other, and what the receiver makes of any input.
use vaulttls.Prelude.{
  subst, drop-append, leb→le, take-append, big_endian-from_big_endian, le→leb, IsByte, take_prefix,
  All-append_left, drop_prefix, from_big_endian, length-big_endian, append_assoc,
  from_big_endian-big_endian, big_endian, take-append-drop, length-drop, length-take, length-append,
  dec_lt, ℕ, zero, suc, ◌+◌, ◌-◌, ◌^◌, ◌≤◌, ◌<◌, ◌≡◌, sym, ap, ◌∙◌, List, [], ◌∷◌, ◌++◌, arith, leb,
  if◌then◌else◌, Bytes, IsBytes, length, take, drop,
}
use vaulttls.Errors.{ok_inj, guard-eq_ok, >>=-eq-ok, frame_too_large, peer_closed, ok, err}
use vaulttls.Framing.{
  silence, put_back, chunk, recv_frame, recv, max_frame, recv_loop, send_frame, recv_exactly,
  Segment,
}
use vaulttls.Framing.Exact.{
  put_back-IsOpen, recv_loop_more, total-put_back, recv_loop_enough, IsOpen, total,
}
use vaulttls.Python.{struct_pack-eq_ok, struct_pack}

recv_loop_short :
    (fuel n : ℕ) (buf : Bytes) (s : List Segment)
    → n ≤ length buf + fuel
    → length buf + length (total s) < n
    → IsOpen s
    → recv_loop fuel n buf s ≡ err (peer_closed (length buf + length (total s)) n)
recv_loop_short zero n buf s q l o = absurd (omega arith)
recv_loop_short (suc fuel) n buf [] q l o = unfold recv_loop recv in ground arith
recv_loop_short (suc fuel) n buf (silence ∷ s) q l o = absurd o
recv_loop_short (suc fuel) n buf (chunk [] ∷ s) q l o = absurd o
recv_loop_short (suc fuel) n buf (chunk (b ∷ bs) ∷ s) q l o =
    let m : ℕ = n - length buf - 1 in
    let e : n - length buf ≡ suc (n - length buf - 1) = omega arith in
    let c : Bytes = b ∷ take (n - length buf - 1) bs in
    let t : List Segment = put_back (drop (n - length buf - 1) bs) s in
    let sizes : length (buf ++ c) + length (total t) ≡ length buf + suc (length (bs ++ total s)) =
      omega (
        arith,
        length-append buf c,
        length-take (n - length buf - 1) bs,
        ap length (total-put_back (drop (n - length buf - 1) bs) s),
        length-append (drop (n - length buf - 1) bs) (total s),
        length-append bs (total s),
        length-drop (n - length buf - 1) bs,
      ) in
    recv_loop_more fuel n (n - length buf - 1) buf b bs s e
    ∙ recv_loop_short fuel n (buf ++ c) t (omega (arith, length-append buf c))
        (omega (arith, sizes)) (put_back-IsOpen (drop (n - length buf - 1) bs) s o)
    ∙ ap (λ k. err (peer_closed k n)) sizes

-- `_recv_exactly(sock, n)` on an open connection: the first `n` bytes if there are as many, and
-- otherwise the error with the number of bytes that came.
pub recv_exactly_enough :
    (n : ℕ) (s : List Segment)
    → n ≤ length (total s)
    → IsOpen s
    → (later : List Segment) × (recv_exactly n s ≡ ok (take n (total s), later))
      × (total later ≡ drop n (total s))
      × IsOpen later
unfolding recv_exactly
recv_exactly_enough n s l o =
    let h = recv_loop_enough n n [] s (omega arith) (omega arith) (omega arith) o in
    let e : n - 0 ≡ n = omega arith in
    (
      h.later,
      h.result ∙ ap (λ k. ok (take k (total s), h.later)) e,
      h.left ∙ ap (λ k. drop k (total s)) e,
      h.open_later,
    )

pub recv_exactly_short :
    (n : ℕ) (s : List Segment)
    → length (total s) < n
    → IsOpen s
    → recv_exactly n s ≡ err (peer_closed (length (total s)) n)
unfolding recv_exactly
recv_exactly_short n s l o =
    let e : 0 + length (total s) ≡ length (total s) = omega arith in
    rw e at (recv_loop_short n n [] s (omega arith) (omega arith) o)

-- What a successful read of `n` bytes returned.
recv_exactly-eq_ok :
    (n : ℕ) (s : List Segment) {c : Bytes} {later : List Segment}
    → IsOpen s
    → recv_exactly n s ≡ ok (c, later)
    → (length c ≡ n) × (total s ≡ c ++ total later) × IsOpen later
recv_exactly-eq_ok n s {c} {later} o e = elim (dec_lt (length (total s)) n) [
  | yes few ↦ cc (e, recv_exactly_short n s few o)
  | no many ↦
      let (t, p, q, r) = recv_exactly_enough n s (omega arith) o in
      let same : (c ≡ take n (total s)) × (later ≡ t) = ground (arith, p) in
      (
        ap length same.0 ∙ omega (arith, length-take n (total s)),
        rw (same.0, same.1, q) (sym (take-append-drop n (total s))),
        rw same.1 r,
      )
]

-- The header of a frame, and the frame behind it.
recv_frame_step :
    (s later : List Segment) (len : ℕ)
    → len < 256 ^ 4
    → recv_exactly 4 s ≡ ok (big_endian 4 len, later)
    → recv_frame s
      ≡ (if leb len max_frame then recv_exactly len later else err (frame_too_large len))
unfolding recv_frame
recv_frame_step s later len l e = rw e (rw (from_big_endian-big_endian 4 len l) (ground arith))

pub send_frame-eq_ok :
    (payload : Bytes) {w : Bytes}
    → send_frame payload ≡ ok w
    → w ≡ big_endian 4 (length payload) ++ payload
unfolding send_frame struct_pack
send_frame-eq_ok payload e = ground arith

-- A frame that was sent, of at most `MAX_FRAME` bytes, is received whole, and what was sent after it
-- is left for the next read, however the network cut the bytes up.
pub recv_frame-send_frame :
    (payload : Bytes) {w : Bytes} (s : List Segment) (more : Bytes)
    → send_frame payload ≡ ok w
    → length payload ≤ max_frame
    → IsOpen s
    → total s ≡ w ++ more
    → (later : List Segment) × (recv_frame s ≡ ok (payload, later))
      × (total later ≡ more)
      × IsOpen later
recv_frame-send_frame payload {w} s more e l o t =
    let len : ℕ = length payload in
    let f : w ≡ big_endian 4 (length payload) ++ payload = send_frame-eq_ok payload e in
    let t' : total s ≡ big_endian 4 (length payload) ++ (payload ++ more) =
      t ∙ ap (λ v. v ++ more) f ∙ append_assoc (big_endian 4 (length payload)) payload more in
    let size : length (big_endian 4 (length payload)) ≡ 4 = length-big_endian 4 (length payload) in
    let all : length (total s) ≡ 4 + (length payload + length more) =
      ap length t'
      ∙ omega (
        arith,
        size,
        length-append payload more,
        length-append (big_endian 4 (length payload)) (payload ++ more),
      ) in
    let (s1, p1, q1, o1) = recv_exactly_enough 4 s (omega (arith, all)) o in
    let rest1 : total s1 ≡ payload ++ more =
      q1 ∙ ap (drop 4) t' ∙ drop_prefix 4 (big_endian 4 (length payload)) (payload ++ more) size in
    let header : take 4 (total s) ≡ big_endian 4 (length payload) =
      ap (take 4) t' ∙ take_prefix 4 (big_endian 4 (length payload)) (payload ++ more) size in
    let (s2, p2, q2, o2) =
      recv_exactly_enough (length payload) s1
        (omega (arith, ap length rest1, length-append payload more)) o1 in
    (
      s2,
      recv_frame_step s s1 (length payload) (omega arith) (p1 ∙ ap (λ h. ok (h, s1)) header)
          ∙ rw (le→leb (length payload) max_frame l) (
              p2
              ∙ ap (λ h. ok (h, s2)) (ap (take (length payload)) rest1 ∙ take-append payload more)),
      q2 ∙ ap (drop (length payload)) rest1 ∙ drop-append payload more,
      o2,
    )

-- Whatever bytes arrive on an open connection, a frame that is received stood whole at their front
-- and has at most `MAX_FRAME` bytes, and the rest is left.
pub recv_frame-eq_ok :
    (s : List Segment) {payload : Bytes} {later : List Segment}
    → IsOpen s
    → IsBytes (total s)
    → recv_frame s ≡ ok (payload, later)
    → (total s ≡ big_endian 4 (length payload) ++ (payload ++ total later))
      × (length payload ≤ max_frame)
      × IsOpen later
unfolding recv_frame
recv_frame-eq_ok s {payload} {later} o b e =
    let (ht, p, q) = >>=-eq-ok (recv_exactly 4 s) _ e in
    let (size, front, o1) = recv_exactly-eq_ok 4 s o p in
    let (fits, q') = guard-eq_ok (leb (from_big_endian ht.0) max_frame) _ _ q in
    let (len, rest, o2) = recv_exactly-eq_ok (from_big_endian ht.0) ht.1 o1 q' in
    let header : IsBytes ht.0 = All-append_left IsByte ht.0 (total ht.1) (rw front at b) in
    let written : big_endian 4 (from_big_endian ht.0) ≡ ht.0 =
      rw size at (big_endian-from_big_endian ht.0 header) in
    (front ∙ rw (len, written, rest), rw len (leb→le _ _ fits), o2)

-- What is received where a frame was sent is that frame, and no other bytes are taken.
pub recv_frame_sent :
    (payload : Bytes) {w : Bytes} (s : List Segment) (more : Bytes) {got : Bytes}
    {later : List Segment}
    → send_frame payload ≡ ok w
    → IsOpen s
    → total s ≡ w ++ more
    → recv_frame s ≡ ok (got, later)
    → (got ≡ payload) × (total later ≡ more) × IsOpen later
unfolding recv_frame send_frame
recv_frame_sent payload {w} s more {got} {later} e o t r =
    let (n, pn, _) = >>=-eq-ok (struct_pack 4 (length payload)) _ e in
    let f : w ≡ big_endian 4 (length payload) ++ payload = send_frame-eq_ok payload e in
    let (ht, p, q) = >>=-eq-ok (recv_exactly 4 s) _ r in
    let (size, front, _) = recv_exactly-eq_ok 4 s o p in
    let (fits, _) = guard-eq_ok (leb (from_big_endian ht.0) max_frame) _ _ q in
    let header : ht.0 ≡ big_endian 4 (length payload) =
      sym (take_prefix 4 ht.0 (total ht.1) size)
      ∙ ap (take 4) (
          sym front
          ∙ t
          ∙ ap (λ v. v ++ more) f
          ∙ append_assoc (big_endian 4 (length payload)) payload more)
      ∙ take_prefix 4 (big_endian 4 (length payload)) (payload ++ more)
          (length-big_endian 4 (length payload)) in
    let len : from_big_endian ht.0 ≡ length payload =
      ap from_big_endian header
      ∙ from_big_endian-big_endian 4 (length payload) (struct_pack-eq_ok 4 (length payload) pn).0 in
    let (later', back, left, open_later) =
      recv_frame-send_frame payload s more e
        (rw len at (leb→le (from_big_endian ht.0) max_frame fits)) o t in
    let same = ok_inj (sym r ∙ back) in
    (
      ap (λ (x : Bytes × List Segment). x.0) same,
      ap (λ (x : Bytes × List Segment). total x.1) same ∙ left,
      subst IsOpen (ap (λ (x : Bytes × List Segment). x.1) (sym same)) open_later,
    )
