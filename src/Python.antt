-- ===== src/Python.antt =====
-- The parts of Python that the program uses on byte strings: conversions that raise, and slices.
pub mod Text
pub mod Hex
use vaulttls.Prelude.{
  from_big_endian, ℕ, ◌+◌, ◌-◌, ◌^◌, ◌≡◌, ◌<◌, refl, List, [], ◌∷◌, ◌++◌, take, drop, Bytes,
  big_endian, ltb, if◌then◌else◌, arith, length, length-big_endian, IsBytes, big_endian-IsBytes,
  lt→ltb,
}
use vaulttls.Errors.{Result, ok, err, byte_range, struct_range, int_too_big, index_range}

-- `bytes([n])`
unfoldable pub one_byte : ℕ → Result Bytes
one_byte n = if ltb n 256 then ok (n ∷ []) else err byte_range

-- `struct.pack` of one unsigned big-endian number in `k` bytes: "!H" is 2, "!I" is 4, "!Q" is 8.
unfoldable pub struct_pack : ℕ → ℕ → Result Bytes
struct_pack k n = if ltb n (256 ^ k) then ok (big_endian k n) else err struct_range

-- `n.to_bytes(k, "big")`
unfoldable pub to_bytes : ℕ → ℕ → Result Bytes
to_bytes k n = if ltb n (256 ^ k) then ok (big_endian k n) else err int_too_big

-- `raw[0]`
unfoldable pub first : Bytes → Result ℕ
first [] = err index_range
first (b ∷ bs) = ok b

-- `data[i]`
unfoldable pub item : Bytes → ℕ → Result ℕ
unfolding first
item bs i = first (drop i bs)

-- `struct.unpack_from` of one unsigned big-endian number of `k` bytes at an offset.
unfoldable pub unpack_from : ℕ → Bytes → ℕ → Result ℕ
unpack_from k bs i =
    if ltb (length bs) (i + k) then err struct_range else ok (from_big_endian (take k (drop i bs)))

-- `data[a:b]` with 0 ≤ a ≤ b: it is cut short, and never raises.
abbrev pub slice : Bytes → ℕ → ℕ → Bytes
slice bs a b = take (b - a) (drop a bs)

-- What a successful conversion returned, and that it succeeds when the number fits.
pub struct_pack-eq_ok :
    (k n : ℕ) {w : Bytes} → struct_pack k n ≡ ok w → (n < 256 ^ k) × (w ≡ big_endian k n)
unfolding struct_pack
struct_pack-eq_ok k n h = ground arith

pub to_bytes-eq_ok :
    (k n : ℕ) {w : Bytes} → to_bytes k n ≡ ok w → (n < 256 ^ k) × (w ≡ big_endian k n)
unfolding to_bytes
to_bytes-eq_ok k n h = ground arith

pub one_byte-eq_ok : (n : ℕ) {w : Bytes} → one_byte n ≡ ok w → (n < 256) × (w ≡ n ∷ [])
unfolding one_byte
one_byte-eq_ok n h = ground arith

pub struct_pack_fits : (k n : ℕ) → n < 256 ^ k → struct_pack k n ≡ ok (big_endian k n)
unfolding struct_pack
struct_pack_fits k n h = rw (lt→ltb n (256 ^ k) h)

pub to_bytes_fits : (k n : ℕ) → n < 256 ^ k → to_bytes k n ≡ ok (big_endian k n)
unfolding to_bytes
to_bytes_fits k n h = rw (lt→ltb n (256 ^ k) h)

pub one_byte_fits : (n : ℕ) → n < 256 → one_byte n ≡ ok (n ∷ [])
unfolding one_byte
one_byte_fits n h = rw (lt→ltb n 256 h)
