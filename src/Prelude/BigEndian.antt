-- ===== src/Prelude/BigEndian.antt =====
-- Byte strings, and unsigned integers in big-endian byte order.
use Prim.Native.Nat.{ℕ, zero, suc, ◌+◌, ◌*◌, ◌/◌, ◌%◌, ◌^◌, ◌<◌}
use mathlib.Core.Path.{◌≡◌, refl, ◌∙◌}
use mathlib.Core.List.{List, [], ◌∷◌, ◌++◌, append-nil, append_assoc}
use native.Mathlib.Omega.{arith}
use native.Mathlib.Nat.{pow-suc}
use vaulttls.Prelude.Lists.{length, length-append, All, All-append}

-- A Python `bytes` value is a list of numbers below 256.
abbrev pub Bytes : Type 0
Bytes = List ℕ

abbrev pub IsByte : ℕ → Type 0
IsByte b = b < 256

abbrev pub IsBytes : Bytes → Type 0
IsBytes = All IsByte

-- The lowest `k` bytes of `n`, highest first: `n.to_bytes(k, "big")` where that fits.
unfoldable pub big_endian : ℕ → ℕ → Bytes
big_endian zero n = []
big_endian (suc k) n = big_endian k (n / 256) ++ (n % 256 ∷ [])

from_acc : ℕ → Bytes → ℕ
from_acc acc [] = acc
from_acc acc (b ∷ bs) = from_acc (acc * 256 + b) bs

-- `int.from_bytes(bs, "big")`.
unfoldable pub from_big_endian : Bytes → ℕ
unfolding from_acc
from_big_endian bs = from_acc 0 bs

pub length-big_endian : (k n : ℕ) → length (big_endian k n) ≡ k
unfolding big_endian
length-big_endian zero n = refl
length-big_endian (suc k) n =
    omega
      (arith, length-append (big_endian k (n / 256)) (n % 256 ∷ []), length-big_endian k (n / 256))

pub big_endian-IsBytes : (k n : ℕ) → IsBytes (big_endian k n)
unfolding big_endian
big_endian-IsBytes zero n = tt
big_endian-IsBytes (suc k) n =
    All-append IsByte _ _ (big_endian-IsBytes k (n / 256)) (omega arith, tt)

from_acc-append :
    (acc : ℕ) (xs ys : Bytes) → from_acc acc (xs ++ ys) ≡ from_acc (from_acc acc xs) ys
unfolding from_acc
from_acc-append acc [] ys = refl
from_acc-append acc (x ∷ xs) ys = from_acc-append (acc * 256 + x) xs ys

div_small : (k n : ℕ) → n < 256 ^ suc k → n / 256 < 256 ^ k
div_small k n h = let e : 256 ^ suc k ≡ 256 ^ k * 256 = pow-suc 256 k in omega (arith, e)

-- Reading back a number that fits.
pub from_big_endian-big_endian : (k n : ℕ) → n < 256 ^ k → from_big_endian (big_endian k n) ≡ n
unfolding from_big_endian big_endian
from_big_endian-big_endian zero n h = omega arith
from_big_endian-big_endian (suc k) n h =
    from_acc-append 0 (big_endian k (n / 256)) (n % 256 ∷ [])
    ∙ omega (arith, from_big_endian-big_endian k (n / 256) (div_small k n h))

big_endian-from_acc :
    (k acc : ℕ) (bs : Bytes)
    → IsBytes bs
    → big_endian (k + length bs) (from_acc acc bs) ≡ big_endian k acc ++ bs
unfolding from_acc
big_endian-from_acc k acc [] h = let e : k + 0 ≡ k = omega arith in rw (e, append-nil) refl
big_endian-from_acc k acc (b ∷ bs) (p, h) =
    let e : k + suc (length bs) ≡ suc k + length bs = omega arith in
    rw e (big_endian-from_acc (suc k) (acc * 256 + b) bs h ∙ push)
  where
    push : big_endian (suc k) (acc * 256 + b) ++ bs ≡ big_endian k acc ++ b ∷ bs
    push =
        let q : (acc * 256 + b) / 256 ≡ acc = omega arith in
        let r : (acc * 256 + b) % 256 ≡ b = omega arith in
        unfold big_endian in rw (q, r) (append_assoc (big_endian k acc) (b ∷ []) bs)

-- Writing a number that was read gives the bytes back.
pub big_endian-from_big_endian :
    (bs : Bytes) → IsBytes bs → big_endian (length bs) (from_big_endian bs) ≡ bs
unfolding from_big_endian big_endian
big_endian-from_big_endian bs h =
    let e : 0 + length bs ≡ length bs = omega arith in rw e at (big_endian-from_acc 0 0 bs h)

from_acc-lt :
    (k acc : ℕ) (bs : Bytes) → IsBytes bs → acc < 256 ^ k → from_acc acc bs < 256 ^ (k + length bs)
unfolding from_acc
from_acc-lt k acc [] h p = let e : k + 0 ≡ k = omega arith in rw e p
from_acc-lt k acc (b ∷ bs) (q, h) p =
    let e : k + suc (length bs) ≡ suc k + length bs = omega arith in
    let f : 256 ^ suc k ≡ 256 ^ k * 256 = pow-suc 256 k in
    rw e (from_acc-lt (suc k) (acc * 256 + b) bs h (omega (arith, f)))

-- A number read from `k` bytes is below 256 ^ k.
pub from_big_endian-lt : (bs : Bytes) → IsBytes bs → from_big_endian bs < 256 ^ length bs
unfolding from_big_endian
from_big_endian-lt bs h =
    let e : 0 + length bs ≡ length bs = omega arith in rw e at (from_acc-lt 0 0 bs h (omega arith))
