-- ===== src/Framing/Stream.antt =====
-- transcript.py: what is received of a stream of bytes are bytes.
use vaulttls.Prelude.{
  from_big_endian, All-drop, All-append, IsByte, All-take, Bool-cases, ℕ, zero, suc, ◌-◌, ◌≡◌,
  subst, inl, inr, List, [], ◌∷◌, ◌++◌, ltb, leb, Bytes, IsBytes, length, drop,
}
use vaulttls.Errors.{guard-eq_ok, >>=-eq-ok, peer_closed, ok_inj, Result, ok, err}
use vaulttls.Framing.{
  silence, max_frame, chunk, recv_exactly, put_back, recv_frame, recv_loop, recv, Segment,
}

abbrev pub IsByteStream : List Segment → Type 0
IsByteStream [] = Unit
IsByteStream (chunk bs ∷ s) = IsBytes bs × IsByteStream s
IsByteStream (silence ∷ s) = IsByteStream s

put_back-IsByteStream :
    (bs : Bytes) (s : List Segment) → IsBytes bs → IsByteStream s → IsByteStream (put_back bs s)
put_back-IsByteStream [] s h k = k
put_back-IsByteStream (b ∷ bs) s h k = (h, k)

recv-IsBytes :
    (n : ℕ) (s : List Segment) {c : Bytes} {later : List Segment}
    → IsByteStream s
    → recv n s ≡ ok (c, later)
    → IsBytes c × IsByteStream later
unfolding recv
recv-IsBytes n [] h e =
    subst (λ (x : Bytes × List Segment). IsBytes x.0 × IsByteStream x.1) (ok_inj e) (tt, tt)
recv-IsBytes n (silence ∷ s) h e = cc
recv-IsBytes n (chunk bs ∷ s) (b, h) e =
    subst (λ (x : Bytes × List Segment). IsBytes x.0 × IsByteStream x.1) (ok_inj e)
      (All-take IsByte n bs b, put_back-IsByteStream (drop n bs) s (All-drop IsByte n bs b) h)

recv_loop-IsBytes :
    (fuel n : ℕ) (buf : Bytes) (s : List Segment) {p : Bytes} {later : List Segment}
    → IsBytes buf
    → IsByteStream s
    → recv_loop fuel n buf s ≡ ok (p, later)
    → IsBytes p × IsByteStream later
unfolding recv_loop
recv_loop-IsBytes zero n buf s h k e = elim (Bool-cases (ltb (length buf) n)) [
  | inl more ↦ let f = rw (more, recv_loop) at e in cc
  | inr done ↦
      subst (λ (x : Bytes × List Segment). IsBytes x.0 × IsByteStream x.1)
        (ok_inj (rw (done, recv_loop) at e)) (h, k)
]
recv_loop-IsBytes (suc fuel) n buf s {p} {later} h k e = elim (Bool-cases (ltb (length buf) n)) [
  | inr done ↦
      subst (λ (x : Bytes × List Segment). IsBytes x.0 × IsByteStream x.1)
        (ok_inj (rw (done, recv_loop) at e)) (h, k)
  | inl more ↦
      let (got, q, f) = >>=-eq-ok (recv (n - length buf) s) _ (rw (more, recv_loop) at e) in
      let (hc, hl) = recv-IsBytes (n - length buf) s k q in
      next got.0 got.1 hc hl (λ b t hb ht r. recv_loop-IsBytes fuel n b t hb ht r) f
]
  where
    next :
        (c : Bytes) (l : List Segment)
        → IsBytes c
        → IsByteStream l
        → ((b : Bytes) (t : List Segment)
            → IsBytes b
            → IsByteStream t
            → recv_loop fuel n b t ≡ ok (p, later)
            → IsBytes p × IsByteStream later)
        → elim c as (λ _. Result (Bytes × List Segment)) [
          | [] ↦ err (peer_closed (length buf) n)
          | b ∷ bs ↦ recv_loop fuel n (buf ++ (b ∷ bs)) l
        ]
          ≡ ok (p, later)
        → IsBytes p × IsByteStream later
    next [] l hc hl again f = cc
    next (b ∷ bs) l hc hl again f =
        again (buf ++ (b ∷ bs)) l (All-append IsByte buf (b ∷ bs) h hc) hl f

pub recv_frame-IsBytes :
    (s : List Segment) {p : Bytes} {later : List Segment}
    → IsByteStream s
    → recv_frame s ≡ ok (p, later)
    → IsBytes p × IsByteStream later
unfolding recv_frame recv_exactly
recv_frame-IsBytes s h e =
    let (ht, q, f) = >>=-eq-ok (recv_exactly 4 s) _ e in
    let (_, k) = recv_loop-IsBytes 4 4 [] s tt h q in
    let (_, g) = guard-eq_ok (leb (from_big_endian ht.0) max_frame) _ _ f in
    recv_loop-IsBytes (from_big_endian ht.0) (from_big_endian ht.0) [] ht.1 tt k g
