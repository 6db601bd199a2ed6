-- ===== src/Framing/Exact.antt =====
-- transcript.py: a frame arrives whole however the network cuts it up.
use vaulttls.Prelude.{
  length-drop, length-take, dec_lt, append_assoc, length-append, append-nil, lt→ltb, ℕ, zero, suc,
  ◌+◌, ◌-◌, ◌≤◌, ◌≡◌, refl, ap, ◌∙◌, true, List, [], ◌∷◌, ◌++◌, arith, ltb, Bytes, length, take,
  drop,
}
use vaulttls.Errors.{Result, ok}
use vaulttls.Framing.{silence, chunk, put_back, recv_loop, Segment}

-- The bytes still to come.
abbrev pub total : List Segment → Bytes
total [] = []
total (chunk bs ∷ s) = bs ++ total s
total (silence ∷ s) = total s

-- Every segment holds bytes; the end of the list is the end of the connection.
abbrev pub IsOpen : List Segment → Type 0
IsOpen [] = Unit
IsOpen (silence ∷ s) = ⊥
IsOpen (chunk [] ∷ s) = ⊥
IsOpen (chunk (b ∷ bs) ∷ s) = IsOpen s

pub total-put_back : (bs : Bytes) (s : List Segment) → total (put_back bs s) ≡ bs ++ total s
total-put_back [] s = refl
total-put_back (b ∷ bs) s = refl

pub put_back-IsOpen : (bs : Bytes) (s : List Segment) → IsOpen s → IsOpen (put_back bs s)
put_back-IsOpen [] s h = h
put_back-IsOpen (b ∷ bs) s h = h

take_in_two :
    (m : ℕ) (xs ys : Bytes)
    → take m (xs ++ ys) ≡ take m xs ++ take (m - length (take m xs)) (drop m xs ++ ys)
take_in_two zero xs ys = refl
take_in_two (suc m) [] ys = let e : suc m - 0 ≡ suc m = omega arith in rw e
take_in_two (suc m) (x ∷ xs) ys =
    let e : suc m - suc (length (take m xs)) ≡ m - length (take m xs) = omega arith in
    rw e (ap (λ t. x ∷ t) (take_in_two m xs ys))

drop_in_two :
    (m : ℕ) (xs ys : Bytes) → drop m (xs ++ ys) ≡ drop (m - length (take m xs)) (drop m xs ++ ys)
drop_in_two zero xs ys = refl
drop_in_two (suc m) [] ys = let e : suc m - 0 ≡ suc m = omega arith in rw e
drop_in_two (suc m) (x ∷ xs) ys =
    let e : suc m - suc (length (take m xs)) ≡ m - length (take m xs) = omega arith in
    rw e (drop_in_two m xs ys)

-- What the loop has to return: the bytes asked for, with the others still to come.
pub record Received (n : ℕ) (buf : Bytes) (s : List Segment) (r : Result (Bytes × List Segment))
    : Type 0 where
  pub later : List Segment
  pub result : r ≡ ok (buf ++ take (n - length buf) (total s), later)
  pub left : total later ≡ drop (n - length buf) (total s)
  pub open_later : IsOpen later

recv_loop_done :
    (fuel n : ℕ) (buf : Bytes) (s : List Segment)
    → n ≤ length buf
    → recv_loop fuel n buf s ≡ ok (buf, s)
unfolding recv_loop
recv_loop_done zero n buf s h = ground arith
recv_loop_done (suc fuel) n buf s h = ground arith

pub recv_loop_more :
    (fuel n m : ℕ) (buf : Bytes) (b : ℕ) (bs : Bytes) (s : List Segment)
    → n - length buf ≡ suc m
    → recv_loop (suc fuel) n buf (chunk (b ∷ bs) ∷ s)
      ≡ recv_loop fuel n (buf ++ (b ∷ take m bs)) (put_back (drop m bs) s)
unfolding recv_loop
recv_loop_more fuel n m buf b bs s e =
    let more : ltb (length buf) n ≡ true = lt→ltb (length buf) n (omega arith) in
    rw (more, recv_loop) (rw e)

Received-done :
    (fuel n : ℕ) (buf : Bytes) (s : List Segment)
    → n ≡ length buf
    → IsOpen s
    → Received n buf s (recv_loop fuel n buf s)
Received-done fuel n buf s e o =
    let z : n - length buf ≡ 0 = omega arith in
    record {
      later = s;
      result = recv_loop_done fuel n buf s (omega arith) ∙ rw (z, append-nil buf);
      left = rw z;
      open_later = o;
    }

-- One round that took `c = b ∷ take m bs`, and the rounds after it.
Received-more :
    (n m : ℕ) (buf : Bytes) (b : ℕ) (bs : Bytes) (s : List Segment)
    {r : Result (Bytes × List Segment)}
    → n - length buf ≡ suc m
    → Received n (buf ++ (b ∷ take m bs)) (put_back (drop m bs) s) r
    → Received n buf (chunk (b ∷ bs) ∷ s) r
Received-more n m buf b bs s e h =
    let f : n - length (buf ++ (b ∷ take m bs)) ≡ m - length (take m bs) =
      omega (arith, length-append buf (b ∷ take m bs)) in
    record {
      later = h.later;
      result =
          h.result
          ∙ rw (f, e, total-put_back (drop m bs) s, take_in_two m bs (total s), append_assoc);
      left = h.left ∙ rw (f, e, total-put_back (drop m bs) s, drop_in_two m bs (total s));
      open_later = h.open_later;
    }

pub recv_loop_enough :
    (fuel n : ℕ) (buf : Bytes) (s : List Segment)
    → length buf ≤ n
    → n ≤ length buf + fuel
    → n ≤ length buf + length (total s)
    → IsOpen s
    → Received n buf s (recv_loop fuel n buf s)
recv_loop_enough zero n buf s p q l o = Received-done zero n buf s (omega arith) o
recv_loop_enough (suc fuel) n buf [] p q l o = Received-done (suc fuel) n buf [] (omega arith) o
recv_loop_enough (suc fuel) n buf (silence ∷ s) p q l o = absurd o
recv_loop_enough (suc fuel) n buf (chunk [] ∷ s) p q l o = absurd o
recv_loop_enough (suc fuel) n buf (chunk (b ∷ bs) ∷ s) p q l o = elim (dec_lt (length buf) n) [
  | no done ↦ Received-done (suc fuel) n buf (chunk (b ∷ bs) ∷ s) (omega arith) o
  | yes more ↦
      let m : ℕ = n - length buf - 1 in
      let e : n - length buf ≡ suc (n - length buf - 1) = omega arith in
      let c : Bytes = b ∷ take (n - length buf - 1) bs in
      rw (recv_loop_more fuel n (n - length buf - 1) buf b bs s e) (
        Received-more n (n - length buf - 1) buf b bs s e (
          recv_loop_enough fuel n (buf ++ c) (put_back (drop (n - length buf - 1) bs) s)
            (omega (arith, length-append buf c, length-take (n - length buf - 1) bs))
            (omega (arith, length-append buf c))
            (omega (
              arith,
              length-append buf c,
              length-take (n - length buf - 1) bs,
              ap length (total-put_back (drop (n - length buf - 1) bs) s),
              length-append (drop (n - length buf - 1) bs) (total s),
              length-append bs (total s),
              length-drop (n - length buf - 1) bs,
            ))
            (put_back-IsOpen (drop (n - length buf - 1) bs) s o)))
]
