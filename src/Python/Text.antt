-- ===== src/Python/Text.antt =====
-- Python's `str`: a list of code points, with UTF-8 encoding and decoding.
pub mod RoundTrip
use Prim.Native.Char.{code}
use vaulttls.Prelude.{
  ℕ, zero, suc, ◌+◌, ◌-◌, ◌*◌, ◌/◌, ◌%◌, ◌≤◌, ◌<◌, ◌≡◌, refl, ◌&&◌, List, [], ◌∷◌, ◌++◌, ltb, leb,
  ◌==◌, if◌then◌else◌, arith, String, Bytes, ◌⊎◌,
}
use vaulttls.Errors.{Result, ok, err, surrogate, ◌>>=◌}

abbrev pub Text : Type 0
Text = List ℕ

-- A literal as its code points.
unfoldable pub codes : String → Text
codes String.[] = []
codes (String.◌∷◌ c s) = code c ∷ codes s

-- A code point that is not a surrogate.
abbrev pub IsScalar : ℕ → Type 0
IsScalar c = (c < 0xd800) ⊎ ((0xe000 ≤ c) × (c < 0x110000))

-- One code point in UTF-8, whether or not it is a surrogate.
unfoldable pub utf8_char : ℕ → Bytes
utf8_char c =
    if ltb c 0x80
    then c ∷ []
    else if ltb c 0x800
    then (0xc0 + c / 0x40) ∷ (0x80 + c % 0x40) ∷ []
    else if ltb c 0x10000
    then (0xe0 + c / 0x1000) ∷ (0x80 + c / 0x40 % 0x40) ∷ (0x80 + c % 0x40) ∷ []
    else (0xf0 + c / 0x40000)
      ∷ (0x80 + c / 0x1000 % 0x40)
      ∷ (0x80 + c / 0x40 % 0x40)
      ∷ (0x80 + c % 0x40)
      ∷ []

-- `s.encode("utf-8")`
unfoldable pub encode : Text → Result Bytes
unfolding utf8_char
encode [] = ok []
encode (c ∷ cs) = do
  rest ← encode cs
  if leb 0xd800 c && ltb c 0xe000 then err surrogate else ok (utf8_char c ++ rest)

-- The decoder between two bytes: `more n acc lo hi` still wants `n + 1` bytes, the next in lo..hi.
pub data State : Type 0 where
  start : State
  more : ℕ → ℕ → ℕ → ℕ → State

-- A byte where a character starts: what it writes, and the state after it.
lead : ℕ → Text × State
lead b =
    if ltb b 0x80
    then (b ∷ [], start)
    else if ltb b 0xc2
    then (0xfffd ∷ [], start)
    else if ltb b 0xe0
    then ([], more 0 (b - 0xc0) 0x80 0xbf)
    else if b == 0xe0
    then ([], more 1 0 0xa0 0xbf)
    else if b == 0xed
    then ([], more 1 0xd 0x80 0x9f)
    else if ltb b 0xf0
    then ([], more 1 (b - 0xe0) 0x80 0xbf)
    else if b == 0xf0
    then ([], more 2 0 0x90 0xbf)
    else if ltb b 0xf4
    then ([], more 2 (b - 0xf0) 0x80 0xbf)
    else if b == 0xf4
    then ([], more 2 4 0x80 0x8f)
    else (0xfffd ∷ [], start)

-- The next byte of a character: a byte that does not continue it starts another one.
continue : ℕ → ℕ → ℕ → ℕ → ℕ → Text × State
unfolding lead
continue n acc lo hi b =
    let acc' = acc * 0x40 + (b - 0x80) in
    if leb lo b && leb b hi
    then (elim n [ zero ↦ (acc' ∷ [], start) | suc m ↦ ([], more m acc' 0x80 0xbf) ])
    else let (out, s) = lead b in (0xfffd ∷ out, s)

step : State → ℕ → Text × State
unfolding continue
step start b = lead b
step (more n acc lo hi) b = continue n acc lo hi b

decode_from : State → Bytes → Text
unfolding step
decode_from start [] = []
decode_from (more n acc lo hi) [] = 0xfffd ∷ []
decode_from s (b ∷ bs) = let (out, s') = step s b in out ++ decode_from s' bs

-- `data.decode("utf-8", errors="replace")`
unfoldable pub decode_replace : Bytes → Text
unfolding decode_from
decode_replace bs = decode_from start bs

decode_euro :
    decode_replace (0xe2 ∷ 0x82 ∷ 0xac ∷ 0x41 ∷ 0xff ∷ 0xc3 ∷ [])
    ≡ 0x20ac ∷ 0x41 ∷ 0xfffd ∷ 0xfffd ∷ []
unfolding decode_replace
decode_euro = refl
