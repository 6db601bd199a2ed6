-- ===== src/Opaque/Oprf.antt =====
-- opaque_adapter.py: the oblivious evaluation of the password, and the stretching of its output.
use vaulttls.Prelude.{
  from_big_endian, big_endian, ℕ, zero, suc, ◌+◌, ◌-◌, ◌%◌, Option, none, some, List, [], ◌∷◌, ◌++◌,
  Bytes, take,
}
use vaulttls.Errors.{no_curve_point, Result, ok, err, ◌>>=◌}
use vaulttls.Opaque.Crypto.{Crypto}
use vaulttls.Python.{struct_pack, to_bytes}
use vaulttls.Opaque.Curve.{p256_field, p256_order, pow, p256_scalar_mult}
use vaulttls.Python.Text.{codes}

module _ {P : Type 0} (C : Crypto P) where
  -- The two candidates of one round: the flag 2, then the flag 3. An exception means the next one.
  unfoldable pub try_flags : List ℕ → ℕ → Option Bytes
  try_flags [] x = none
  try_flags (flag ∷ flags) x =
      let rest = try_flags flags x in
      elim (do xs ← to_bytes 32 x; C.from_encoded_point (flag ∷ xs)) [
        | ok point ↦ some (flag ∷ big_endian 32 x)
        | err e ↦ rest
      ]

  -- The rounds of `_hash_to_curve` from `counter` on.
  unfoldable pub hash_rounds : ℕ → ℕ → Bytes → Result Bytes
  unfolding try_flags
  hash_rounds zero counter input = err no_curve_point
  hash_rounds (suc rounds) counter input =
      let rest = hash_rounds rounds (counter + 1) input in
      do
        n ← struct_pack 4 counter
        let candidate = take 32 (C.hash.sha512 (input ++ (codes "h2c" ++ n)))
        let x = from_big_endian candidate % p256_field
        elim (try_flags (2 ∷ 3 ∷ []) x) [ some point ↦ ok point | none ↦ rest ]

  -- `_hash_to_curve(data)`
  unfoldable pub hash_to_curve : Bytes → Result Bytes
  unfolding hash_rounds
  hash_to_curve input = hash_rounds 256 0 input

  -- `_oprf_blind(password)`, with the private value `r` of the key that it generates.
  unfoldable pub oprf_blind : ℕ → Bytes → Result (ℕ × Bytes)
  unfolding hash_to_curve
  oprf_blind r password = do
    p_bytes ← hash_to_curve password
    m ← p256_scalar_mult r p_bytes
    ok (r, m)

  -- `_oprf_evaluate(k_int, M)`
  unfoldable pub oprf_evaluate : ℕ → Bytes → Result Bytes
  oprf_evaluate k m = p256_scalar_mult k m

  -- `_oprf_finalize(password, blind, Z)`
  unfoldable pub oprf_finalize : Bytes → ℕ → Bytes → Result Bytes
  unfolding pow
  oprf_finalize password blind z = do
    let r_inv = pow blind (p256_order - 2) p256_order
    n ← p256_scalar_mult r_inv z
    C.hkdf 64 (codes "VAULTTLS-OPRF-finalise") (codes "OPRF output v1")
        (n ++ C.hash.sha512 password)

  -- `_ksf(oprf_output, salt)`
  unfoldable pub ksf : Bytes → Bytes → Result Bytes
  ksf oprf_output salt = elim C.argon2 [
    | some hash_secret_raw ↦ hash_secret_raw oprf_output salt
    | none ↦ C.hkdf 64 salt (codes "pbkdf2-fallback") oprf_output
  ]
