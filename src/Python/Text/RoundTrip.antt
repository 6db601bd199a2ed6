-- ===== src/Python/Text/RoundTrip.antt =====
-- UTF-8 round trip: what `encode` writes, `decode_replace` reads back.
use mathlib.Core.Path.{subst}
use vaulttls.Prelude.{
  ℕ, zero, suc, ◌+◌, ◌-◌, ◌*◌, ◌/◌, ◌%◌, ◌≤◌, ◌<◌, ◌≡◌, false, ◌&&◌, [], ◌∷◌, ◌++◌, ltb, leb, ◌==◌,
  if◌then◌else◌, arith, All, Bytes, append_assoc, append-nil, ◌∙◌, ap,
}
use vaulttls.Errors.{ok, >>=-eq-ok, guarded-eq_ok}
use vaulttls.Python.Text.{
  Text, IsScalar, utf8_char, encode, start, more, lead, continue, step, decode_from, decode_replace,
}

-- A byte that continues a character.
continue_last :
    (acc lo hi b : ℕ)
    → lo ≤ b
    → b ≤ hi
    → continue zero acc lo hi b ≡ ((acc * 0x40 + (b - 0x80)) ∷ [], start)
unfolding continue
continue_last acc lo hi b p q = ground arith

continue_more :
    (n acc lo hi b : ℕ)
    → lo ≤ b
    → b ≤ hi
    → continue (suc n) acc lo hi b ≡ ([], more n (acc * 0x40 + (b - 0x80)) 0x80 0xbf)
unfolding continue
continue_more n acc lo hi b p q = ground arith

lead_one : (c : ℕ) → c < 0x80 → lead c ≡ (c ∷ [], start)
unfolding lead
lead_one c h = ground arith

lead_two : (q : ℕ) → 2 ≤ q → q < 32 → lead (0xc0 + q) ≡ ([], more 0 q 0x80 0xbf)
unfolding lead
lead_two q h k = ground arith

abbrev low_three : ℕ → ℕ
low_three q = if q == 0 then 0xa0 else 0x80

abbrev high_three : ℕ → ℕ
high_three q = if q == 13 then 0x9f else 0xbf

abbrev low_four : ℕ → ℕ
low_four q = if q == 0 then 0x90 else 0x80

abbrev high_four : ℕ → ℕ
high_four q = if q == 4 then 0x8f else 0xbf

lead_three : (q : ℕ) → q < 16 → lead (0xe0 + q) ≡ ([], more 1 q (low_three q) (high_three q))
unfolding lead
lead_three q h = ground arith

lead_four : (q : ℕ) → q < 5 → lead (0xf0 + q) ≡ ([], more 2 q (low_four q) (high_four q))
unfolding lead
lead_four q h = ground arith

utf8_one : (c : ℕ) (bs : Bytes) → c < 0x80 → decode_from start (c ∷ bs) ≡ c ∷ decode_from start bs
unfolding decode_from step
utf8_one c bs h = rw (lead_one c h)

utf8_two :
    (q r : ℕ) (bs : Bytes)
    → 2 ≤ q
    → q < 32
    → r < 64
    → decode_from start ((0xc0 + q) ∷ (0x80 + r) ∷ bs) ≡ (q * 64 + r) ∷ decode_from start bs
unfolding decode_from step
utf8_two q r bs h k l =
    let e : 0x80 + r - 0x80 ≡ r = omega arith in
    rw (lead_two q h k, continue_last q 0x80 0xbf (0x80 + r) (omega arith) (omega arith), e)

utf8_three :
    (q r t : ℕ) (bs : Bytes)
    → q < 16
    → r < 64
    → t < 64
    → low_three q ≤ 0x80 + r
    → 0x80 + r ≤ high_three q
    → decode_from start ((0xe0 + q) ∷ (0x80 + r) ∷ (0x80 + t) ∷ bs)
      ≡ ((q * 64 + r) * 64 + t) ∷ decode_from start bs
unfolding decode_from step
utf8_three q r t bs hq hr ht lo hi =
    let e : 0x80 + r - 0x80 ≡ r = omega arith in
    let f : 0x80 + t - 0x80 ≡ t = omega arith in
    rw (
      lead_three q hq,
      continue_more 0 q (low_three q) (high_three q) (0x80 + r) lo hi,
      e,
      continue_last (q * 64 + r) 0x80 0xbf (0x80 + t) (omega arith) (omega arith),
      f,
    )

utf8_four :
    (q r t u : ℕ) (bs : Bytes)
    → q < 5
    → r < 64
    → t < 64
    → u < 64
    → low_four q ≤ 0x80 + r
    → 0x80 + r ≤ high_four q
    → decode_from start ((0xf0 + q) ∷ (0x80 + r) ∷ (0x80 + t) ∷ (0x80 + u) ∷ bs)
      ≡ (((q * 64 + r) * 64 + t) * 64 + u) ∷ decode_from start bs
unfolding decode_from step
utf8_four q r t u bs hq hr ht hu lo hi =
    let e : 0x80 + r - 0x80 ≡ r = omega arith in
    let f : 0x80 + t - 0x80 ≡ t = omega arith in
    let g : 0x80 + u - 0x80 ≡ u = omega arith in
    rw (
      lead_four q hq,
      continue_more 1 q (low_four q) (high_four q) (0x80 + r) lo hi,
      e,
      continue_more 0 (q * 64 + r) 0x80 0xbf (0x80 + t) (omega arith) (omega arith),
      f,
      continue_last ((q * 64 + r) * 64 + t) 0x80 0xbf (0x80 + u) (omega arith) (omega arith),
      g,
    )

utf8_char-decode :
    (c : ℕ) (bs : Bytes)
    → IsScalar c
    → decode_from start (utf8_char c ++ bs) ≡ c ∷ decode_from start bs
unfolding utf8_char
utf8_char-decode c bs h = ground (
  arith,
  utf8_one c bs,
  utf8_two (c / 64) (c % 64) bs,
  utf8_three (c / 4096) (c / 64 % 64) (c % 64) bs,
  utf8_four (c / 262144) (c / 4096 % 64) (c / 64 % 64) (c % 64) bs,
)

utf8_cons :
    (c : ℕ) (w bs : Bytes)
    → IsScalar c
    → decode_from start ((utf8_char c ++ w) ++ bs) ≡ c ∷ decode_from start (w ++ bs)
utf8_cons c w bs h = rw append_assoc (utf8_char-decode c (w ++ bs) h)

IsScalar-of_test : (c : ℕ) → c < 0x110000 → (leb 0xd800 c && ltb c 0xe000) ≡ false → IsScalar c
IsScalar-of_test c h k = ground arith

decode_from-encode :
    (s : Text) {w : Bytes} (bs : Bytes)
    → All (λ c. c < 0x110000) s
    → encode s ≡ ok w
    → decode_from start (w ++ bs) ≡ s ++ decode_from start bs
unfolding encode
decode_from-encode [] bs k h = cc
decode_from-encode (c ∷ cs) {w} bs (k, ks) h =
    let (w', e, f) = >>=-eq-ok (encode cs) _ h in
    let (good, g) = guarded-eq_ok (leb 0xd800 c && ltb c 0xe000) _ f in
    subst (λ v. decode_from start (v ++ bs) ≡ c ∷ cs ++ decode_from start bs) g
      (utf8_cons c w' bs (IsScalar-of_test c k good)
        ∙ ap (λ t. c ∷ t) (decode_from-encode cs bs ks e))

-- `s.encode("utf-8").decode("utf-8", errors="replace")` is `s`.
pub decode_replace-encode :
    (s : Text) {w : Bytes} → All (λ c. c < 0x110000) s → encode s ≡ ok w → decode_replace w ≡ s
unfolding decode_replace
decode_replace-encode s {w} k h = rw (append-nil w) at (decode_from-encode s [] k h ∙ append-nil s)
