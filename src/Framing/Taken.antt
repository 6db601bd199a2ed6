-- ===== src/Framing/Taken.antt =====
-- transcript.py: what a read takes from the bytes that are still to come.
use vaulttls.Prelude.{
  Bool-cases, take-append-drop, length-append, from_big_endian, ℕ, zero, suc, ◌+◌, ◌-◌, ◌≤◌, ◌<◌,
  ◌≡◌, ap, inl, inr, List, [], ◌∷◌, ◌++◌, arith, ltb, leb, Bytes, length, take, drop,
}
use vaulttls.Errors.{Result, ok, err, >>=-eq-ok, guard-eq_ok, peer_closed}
use vaulttls.Framing
use vaulttls.Framing.{max_frame, put_back, Segment, silence, chunk}
use vaulttls.Framing.Exact.{total-put_back, total}

-- A read takes the bytes that it returns.
recv-total :
    (n : ℕ) (s : List Segment) {c : Bytes} {later : List Segment}
    → Framing.recv n s ≡ ok (c, later)
    → length (total s) ≡ length c + length (total later)
unfolding Framing.recv
recv-total n [] e = ground arith
recv-total n (silence ∷ s) e = cc
recv-total n (chunk bs ∷ s) {c} {later} e =
    let same : (c ≡ take n bs) × (later ≡ put_back (drop n bs) s) = ground arith in
    omega (
      arith,
      ap length same.0,
      ap (λ l. length (total l)) same.1,
      ap length (total-put_back (drop n bs) s),
      length-append (drop n bs) (total s),
      length-append bs (total s),
      ap length (take-append-drop n bs),
      length-append (take n bs) (drop n bs),
    )

recv_loop-total :
    (fuel n : ℕ) (buf : Bytes) (s : List Segment) {c : Bytes} {later : List Segment}
    → Framing.recv_loop fuel n buf s ≡ ok (c, later)
    → (length buf + length (total s) ≡ length c + length (total later)) × (n ≤ length c)
unfolding Framing.recv_loop
recv_loop-total zero n buf s e = ground arith
recv_loop-total (suc fuel) n buf s {c} {later} e = elim (Bool-cases (ltb (length buf) n)) [
  | inr done ↦ ground (arith, rw (done, Framing.recv_loop) at e)
  | inl more ↦
      let (got, q, f) =
        >>=-eq-ok (Framing.recv (n - length buf) s) _ (rw (more, Framing.recv_loop) at e) in
      next got.0 got.1 (recv-total (n - length buf) s q) (λ b l r. recv_loop-total fuel n b l r) f
]
  where
    next :
        (b : Bytes) (l : List Segment)
        → length (total s) ≡ length b + length (total l)
        → ((b : Bytes) (l : List Segment)
            → Framing.recv_loop fuel n b l ≡ ok (c, later)
            → (length b + length (total l) ≡ length c + length (total later)) × (n ≤ length c))
        → elim b as (λ _. Result (Bytes × List Segment)) [
          | [] ↦ err (peer_closed (length buf) n)
          | x ∷ xs ↦ Framing.recv_loop fuel n (buf ++ (x ∷ xs)) l
        ]
          ≡ ok (c, later)
        → (length buf + length (total s) ≡ length c + length (total later)) × (n ≤ length c)
    next [] l h again f = cc
    next (x ∷ xs) l h again f =
        let (sizes, enough) = again (buf ++ (x ∷ xs)) l f in
        (omega (arith, sizes, h, length-append buf (x ∷ xs)), enough)

-- A frame takes four bytes at least.
pub recv_frame-total :
    (s : List Segment) {payload : Bytes} {later : List Segment}
    → Framing.recv_frame s ≡ ok (payload, later)
    → length (total later) < length (total s)
unfolding Framing.recv_frame Framing.recv_exactly
recv_frame-total s e =
    let (ht, p, q) = >>=-eq-ok (Framing.recv_exactly 4 s) _ e in
    let (_, r) = guard-eq_ok (leb (from_big_endian ht.0) max_frame) _ _ q in
    let (a, four) = recv_loop-total 4 4 [] s p in
    let (b, _) = recv_loop-total (from_big_endian ht.0) (from_big_endian ht.0) [] ht.1 r in
    omega (arith, a, four, b)
