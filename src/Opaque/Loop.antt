-- ===== src/Opaque/Loop.antt =====
-- opaque_adapter.py: the loop of the scalar multiplication.
use vaulttls.Prelude.{Bool-cases, ℕ, zero, suc, ◌+◌, ◌/◌, ◌≤◌, ◌≡◌, refl, inl, inr, arith, ◌==◌}
use vaulttls.Opaque.Curve.{Point, scalar_loop}

-- The loop `while k` ends within `k` rounds: any more fuel gives the same.
scalar_loop_enough :
    (fuel more k : ℕ) (r q : Point)
    → k ≤ fuel
    → scalar_loop (fuel + more) k r q ≡ scalar_loop fuel k r q
unfolding scalar_loop
scalar_loop_enough zero zero k r q h = refl
scalar_loop_enough zero (suc more) k r q h =
    let z : k ≡ 0 = omega arith in let p : 0 + suc more ≡ suc more = omega arith in rw (p, z) refl
scalar_loop_enough (suc fuel) more k r q h =
    let plus : suc fuel + more ≡ suc (fuel + more) = omega arith in
    rw plus (elim (Bool-cases (k == 0)) [
      | inl done ↦ rw (done, scalar_loop) refl
      | inr on ↦ rw (on, scalar_loop) (scalar_loop_enough fuel more (k / 2) _ _ (omega arith))
    ])
