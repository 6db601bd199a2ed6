-- ===== src/Dict/Every.antt =====
-- Python's `dict`: a property of every entry.
use vaulttls.Dict
use vaulttls.Prelude.{Bool-cases, All, ◌≡◌, sym, subst, inl, inr, some, [], ◌∷◌, arith}

module _ {K V : Type 0} (E : Dict.Eq K) (Q : K × V → Type 0) where
  pub All-put : (k : K) (v : V) (d : Dict.Dict K V) → Q (k, v) → All Q d → All Q (Dict.put E k v d)
  unfolding Dict.put
  All-put k v [] q h = (q, tt)
  All-put k v ((j, w) ∷ d) q (p, h) = elim (Bool-cases (E.beq j k)) [
    | inl same ↦ rw same (subst (λ i. Q (i, v)) (sym (E.beq_sound j k same)) q, h)
    | inr other ↦ rw other (p, All-put k v d q h)
  ]

  pub All-remove : (k : K) (d : Dict.Dict K V) → All Q d → All Q (Dict.remove E k d)
  unfolding Dict.remove
  All-remove k [] h = tt
  All-remove k ((j, w) ∷ d) (p, h) = elim (Bool-cases (E.beq j k)) [
    | inl same ↦ rw same (All-remove k d h)
    | inr other ↦ rw other (p, All-remove k d h)
  ]

  -- What is found under a key has the property.
  pub All-get : (k : K) (d : Dict.Dict K V) {v : V} → All Q d → Dict.get E k d ≡ some v → Q (k, v)
  unfolding Dict.get
  All-get k [] h e = cc
  All-get k ((j, w) ∷ d) {v} (p, h) e = elim (Bool-cases (E.beq j k)) [
    | inl same ↦
        let found : w ≡ v = ground arith in
        subst (λ x. Q (k, x)) found (subst (λ i. Q (i, w)) (E.beq_sound j k same) p)
    | inr other ↦ All-get k d h (rw other at e)
  ]
