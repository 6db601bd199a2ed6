-- ===== src/Opaque/Curve.antt =====
-- opaque_adapter.py: point addition and scalar multiplication on P-256.
use vaulttls.Prelude.{
  length-big_endian, from_big_endian, ℕ, zero, suc, ◌+◌, ◌-◌, ◌*◌, ◌/◌, ◌%◌, ◌≡◌, sym, ap, ◌∙◌,
  true, false, Option, none, some, ◌∷◌, ◌==◌, if◌then◌else◌, Bytes, length,
}
use vaulttls.Errors.{ok_inj, >>=-eq-ok, at_infinity, Result, ok, err, ◌>>=◌}
use vaulttls.Python.{to_bytes-eq_ok, to_bytes, slice, first}

abbrev pub p256_order : ℕ
p256_order = 0xFFFFFFFF00000000FFFFFFFFFFFFFFFFBCE6FAADA7179E84F3B9CAC2FC632551

abbrev pub p256_field : ℕ
p256_field = 0xFFFFFFFF00000001000000000000000000000000FFFFFFFFFFFFFFFFFFFFFFFF

abbrev pub p256_a : ℕ
p256_a = 0xFFFFFFFF00000001000000000000000000000000FFFFFFFFFFFFFFFFFFFFFFFC

abbrev pub p256_b : ℕ
p256_b = 0x5AC635D8AA3A93E7B3EBBD55769886BC651D06B0CC53B0F63BCE3C3E27D2604B

-- `pow(b, e, m)`, by squaring, on fuel: each round halves the exponent, so 512 rounds are enough
-- below 2 ^ 512.
unfoldable pub pow_loop : ℕ → ℕ → ℕ → ℕ → ℕ → ℕ
pow_loop zero acc b e m = acc
pow_loop (suc fuel) acc b e m =
    pow_loop fuel (if e % 2 == 1 then acc * b % m else acc) (b * b % m) (e / 2) m

unfoldable pub pow : ℕ → ℕ → ℕ → ℕ
unfolding pow_loop
pow b e m = pow_loop 512 (1 % m) (b % m) e m

-- `(a - b) % m` on the integers, for m > 0.
unfoldable pub sub_mod : ℕ → ℕ → ℕ → ℕ
sub_mod a b m = (a % m + (m - b % m)) % m

-- A point, or `none` for the point at infinity.
abbrev pub Point : Type 0
Point = Option (ℕ × ℕ)

-- The third point of the line through (x1, y1) with the slope `lam`, and through (x2, _).
unfoldable pub third_point : ℕ → ℕ → ℕ → ℕ → ℕ × ℕ
unfolding sub_mod
third_point lam x1 y1 x2 =
    let x3 = sub_mod (lam * lam) (x1 + x2) p256_field in
    (x3, sub_mod (lam * sub_mod x1 x3 p256_field) y1 p256_field)

-- `_p256_affine_add(P, Q)`
unfoldable pub p256_affine_add : Point → Point → Point
unfolding third_point pow sub_mod
p256_affine_add none q = q
p256_affine_add (some p) none = some p
p256_affine_add (some (x1, y1)) (some (x2, y2)) =
    if x1 == x2
    then (if y1 == y2
        then (let lam =
              (3 * x1 * x1 + p256_a) * pow (2 * y1) (p256_field - 2) p256_field % p256_field in
            some (third_point lam x1 y1 x2))
        else none)
    else (let lam =
          sub_mod y2 y1 p256_field
          * pow (sub_mod x2 x1 p256_field) (p256_field - 2) p256_field
          % p256_field in
        some (third_point lam x1 y1 x2))

-- The loop `while k` of `_p256_scalar_mult`, on fuel: each round halves `k`.
unfoldable pub scalar_loop : ℕ → ℕ → Point → Point → Point
unfolding p256_affine_add
scalar_loop zero k r q = r
scalar_loop (suc fuel) k r q = elim (k == 0) [
  | true ↦ r
  | false ↦
      scalar_loop fuel (k / 2) (if k % 2 == 1 then p256_affine_add r q else r) (p256_affine_add q q)
]

-- The point that a compressed encoding stands for: the flag and the 32 bytes of x.
unfoldable pub decompress : ℕ → Bytes → ℕ × ℕ
unfolding pow sub_mod
decompress flag xs =
    let x = from_big_endian xs in
    let y_sq = (pow x 3 p256_field + p256_a * x + p256_b) % p256_field in
    let y = pow y_sq ((p256_field + 1) / 4) p256_field in
    (x, if y % 2 + 2 == flag then y else p256_field - y)

-- `_p256_scalar_mult(k, compressed)`. A `k` takes at most `k` rounds.
unfoldable pub p256_scalar_mult : ℕ → Bytes → Result Bytes
unfolding decompress scalar_loop
p256_scalar_mult k compressed = do
  flag ← first compressed
  elim (scalar_loop k k none (some (decompress flag (slice compressed 1 33)))) [
    | none ↦ err at_infinity
    | some (rx, ry) ↦ (do x ← to_bytes 32 rx; ok ((if ry % 2 == 0 then 2 else 3) ∷ x))
  ]

-- A scalar multiple is a compressed point, of 33 bytes.
pub length-p256_scalar_mult :
    (k : ℕ) (compressed : Bytes) {w : Bytes} → p256_scalar_mult k compressed ≡ ok w → length w ≡ 33
unfolding p256_scalar_mult
length-p256_scalar_mult k compressed {w} e =
    let (flag, p, q) = >>=-eq-ok (first compressed) _ e in
    multiple (scalar_loop k k none (some (decompress flag (slice compressed 1 33)))) q
  where
    multiple :
        (r : Point)
        → elim r [
          | none ↦ err at_infinity
          | some (rx, ry) ↦ (do x ← to_bytes 32 rx; ok ((if ry % 2 == 0 then 2 else 3) ∷ x))
        ]
          ≡ ok w
        → length w ≡ 33
    multiple none h = cc
    multiple (some (rx, ry)) h =
        let (x, p, q) = >>=-eq-ok (to_bytes 32 rx) _ h in
        ap length (sym (ok_inj q))
        ∙ ap suc (ap length (to_bytes-eq_ok 32 rx p).1 ∙ length-big_endian 32 rx)
