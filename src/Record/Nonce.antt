-- ===== src/Record/Nonce.antt =====
-- record.py: no nonce is used for two sequence numbers.
use vaulttls.Prelude.{
  [], ◌∷◌, from_big_endian, from_big_endian-big_endian, drop, drop_prefix, length-big_endian,
  length-append, big_endian-IsBytes, IsByte, All-append, ◌++◌, big_endian, ◌^◌, length, IsBytes, ap,
  Bytes, ◌∙◌, sym, ==_iff, ℕ, zero, suc, ◌<◌, ◌≡◌, refl, Bool, true, ◌&&◌, arith, ◌==◌,
}
use Prim.Native.Nat.{bit_xor}
use vaulttls.Record.{ok, nonce, DirectionState, xor_bytes}
use vaulttls.Python.{to_bytes}

-- A test on all bytes, by evaluation.
tried : (ℕ → Bool) → ℕ → Bool
tried test zero = true
tried test (suc bound) = tried test bound && test bound

tried_sound : (test : ℕ → Bool) (bound b : ℕ) → tried test bound ≡ true → b < bound → test b ≡ true
unfolding tried
tried_sound test zero b passed small = absurd (omega arith)
tried_sound test (suc bound) b passed small = ground (arith, tried_sound test bound b)

xor_twice : ℕ → ℕ → Bool
xor_twice x y = bit_xor x (bit_xor x y) == y

xor_table : tried (λ x. tried (xor_twice x) 256) 256 ≡ true
unfolding tried xor_twice
xor_table = refl

xor_cancel : (x y : ℕ) → x < 256 → y < 256 → bit_xor x (bit_xor x y) ≡ y
unfolding xor_twice
xor_cancel x y hx hy = (==_iff _ y).0 (
    tried_sound (xor_twice x) 256 y (tried_sound (λ z. tried (xor_twice z) 256) 256 x xor_table hx)
      hy)

xor_injective : (x a b : ℕ) → x < 256 → a < 256 → b < 256 → bit_xor x a ≡ bit_xor x b → a ≡ b
xor_injective x a b hx ha hb e =
    sym (xor_cancel x a hx ha) ∙ ap (bit_xor x) e ∙ xor_cancel x b hx hb

xor_bytes-injective :
    (iv a b : Bytes)
    → IsBytes iv
    → IsBytes a
    → IsBytes b
    → length a ≡ length iv
    → length b ≡ length iv
    → xor_bytes iv a ≡ xor_bytes iv b
    → a ≡ b
unfolding xor_bytes
xor_bytes-injective [] [] [] hi ha hb la lb e = refl
xor_bytes-injective [] (a ∷ r) b hi ha hb la lb e = absurd (omega arith)
xor_bytes-injective [] [] (b ∷ r) hi ha hb la lb e = absurd (omega arith)
xor_bytes-injective (x ∷ iv) [] b hi ha hb la lb e = absurd (omega arith)
xor_bytes-injective (x ∷ iv) (a ∷ r) [] hi ha hb la lb e = absurd (omega arith)
xor_bytes-injective (x ∷ iv) (a ∷ r) (b ∷ s) (hx, hi) (ha, hr) (hb, hs) la lb e =
    let heads : a ≡ b = xor_injective x a b hx ha hb (ground arith) in
    let tails : r ≡ s =
      xor_bytes-injective iv r s hi hr hs (omega arith) (omega arith) (ground arith) in
    cc

-- Two sequence numbers with one nonce are the same, whatever the keys of a direction.
pub nonce-injective :
    (s : DirectionState) (a b : ℕ) {n : Bytes}
    → IsBytes s.iv
    → length s.iv ≡ 12
    → nonce s a ≡ ok n
    → nonce s b ≡ ok n
    → a ≡ b
nonce-injective s a b {n} h l p q =
    sym (from_big_endian-big_endian 8 a (fits a p).0)
    ∙ ap from_big_endian (same)
    ∙ from_big_endian-big_endian 8 b (fits b q).0
  where
    fits :
        (x : ℕ)
        → nonce s x ≡ ok n
        → (x < 256 ^ 8) × (n ≡ xor_bytes s.iv (big_endian 4 0 ++ big_endian 8 x))
    fits x e = unfold nonce to_bytes in ground arith

    padded : (x : ℕ) → IsBytes (big_endian 4 0 ++ big_endian 8 x)
    padded x = All-append IsByte _ _ (big_endian-IsBytes 4 0) (big_endian-IsBytes 8 x)

    size : (x : ℕ) → length (big_endian 4 0 ++ big_endian 8 x) ≡ length s.iv
    size x = omega (
      arith,
      l,
      length-append (big_endian 4 0) (big_endian 8 x),
      length-big_endian 4 0,
      length-big_endian 8 x,
    )

    same : big_endian 8 a ≡ big_endian 8 b
    same =
        let e =
          xor_bytes-injective s.iv _ _ h (padded a) (padded b) (size a) (size b)
            (sym (fits a p).1 ∙ (fits b q).1) in
        sym (drop_prefix 4 (big_endian 4 0) (big_endian 8 a) (length-big_endian 4 0))
        ∙ ap (drop 4) e
        ∙ drop_prefix 4 (big_endian 4 0) (big_endian 8 b) (length-big_endian 4 0)
