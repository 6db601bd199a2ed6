-- ===== src/Python/Hex.antt =====
-- `bytes.hex()` and `bytes.fromhex(text)`.
use vaulttls.Prelude.{
  ℕ, ◌+◌, ◌-◌, ◌*◌, ◌/◌, ◌%◌, ◌<◌, ◌≡◌, refl, sym, ap, ◌∙◌, Bool, false, ◌&&◌, ◌||◌, Option, none,
  some, [], ◌∷◌, arith, ltb, leb, ◌==◌, if◌then◌else◌, Bytes, IsBytes,
}
use vaulttls.Errors.{ok_inj, bad_hex, Result, ok, err, ◌>>=◌}
use vaulttls.Python.Text.{Text}

abbrev pub hex_digit : ℕ → ℕ
hex_digit n = if ltb n 10 then b'0' + n else b'a' + (n - 10)

-- `data.hex()`
unfoldable pub hex : Bytes → Text
hex [] = []
hex (b ∷ bs) = hex_digit (b / 16) ∷ hex_digit (b % 16) ∷ hex bs

-- The value of a digit of either case.
unfoldable pub digit_value : ℕ → Option ℕ
digit_value c =
    if leb b'0' c && leb c b'9'
    then some (c - b'0')
    else if leb b'a' c && leb c b'f'
    then some (c - b'a' + 10)
    else if leb b'A' c && leb c b'F'
    then some (c - b'A' + 10)
    else none

-- The ASCII white space that `fromhex` passes over between two bytes.
abbrev pub is_space : ℕ → Bool
is_space c = c == 32 || (leb 9 c && leb c 13)

-- One byte from two digits.
unfoldable pub hex_pair : ℕ → ℕ → Result ℕ
unfolding digit_value
hex_pair c d = elim (digit_value c) [
  | none ↦ err bad_hex
  | some h ↦ elim (digit_value d) [ none ↦ err bad_hex | some l ↦ ok (h * 16 + l) ]
]

-- `bytes.fromhex(text)`
unfoldable pub fromhex : Text → Result Bytes
unfolding hex_pair
fromhex [] = ok []
fromhex (c ∷ []) = if is_space c then ok [] else err bad_hex
fromhex (c ∷ d ∷ rest) =
    let skipped = fromhex (d ∷ rest) in
    let taken = (do b ← hex_pair c d; bs ← fromhex rest; ok (b ∷ bs)) in
    if is_space c then skipped else taken

hex_digit_value : (n : ℕ) → n < 16 → digit_value (hex_digit n) ≡ some n
unfolding digit_value
hex_digit_value n h = ground arith

hex_digit_space : (n : ℕ) → n < 16 → is_space (hex_digit n) ≡ false
hex_digit_space n h = ground arith

hex_pair_digits : (b : ℕ) → b < 256 → hex_pair (hex_digit (b / 16)) (hex_digit (b % 16)) ≡ ok b
unfolding hex_pair
hex_pair_digits b h =
    let e : b / 16 * 16 + b % 16 ≡ b = omega arith in
    rw (hex_digit_value (b / 16) (omega arith), hex_pair)
      (rw (hex_digit_value (b % 16) (omega arith), hex_pair) (rw e))

-- Reading back what `hex` wrote.
pub fromhex-hex : (bs : Bytes) → IsBytes bs → fromhex (hex bs) ≡ ok bs
unfolding fromhex hex
fromhex-hex [] h = refl
fromhex-hex (b ∷ bs) (p, h) =
    rw (hex_digit_space (b / 16) (omega arith)) (rw (hex_pair_digits b p) (rw (fromhex-hex bs h)))

-- Two byte strings with one hex text are the same.
pub hex-injective : (a b : Bytes) → IsBytes a → IsBytes b → hex a ≡ hex b → a ≡ b
hex-injective a b h k e = ok_inj (sym (fromhex-hex a h) ∙ ap fromhex e ∙ fromhex-hex b k)
