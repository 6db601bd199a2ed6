-- ===== src/Dict.antt =====
-- Python's `dict`: an association list in insertion order, over keys with a decidable equality.
pub mod Every
use vaulttls.Prelude.{
  bytes_eq_refl, bytes_eq→eq, Bool-cases, bytes_eq, ℕ, ◌≡◌, refl, inl, inr, Bool, true, false, ◌||◌,
  Option, none, some, List, [], ◌∷◌, arith, if◌then◌else◌,
}

pub record Eq (K : Type 0) : Type 0 where
  pub beq : K → K → Bool
  pub beq_sound : (a b : K) → beq a b ≡ true → a ≡ b
  pub beq_refl : (a : K) → beq a a ≡ true

abbrev pub Dict : Type 0 → Type 0 → Type 0
Dict K V = List (K × V)

abbrev pub text_eq : Eq (List ℕ)
text_eq = record { beq = bytes_eq; beq_sound = bytes_eq→eq; beq_refl = bytes_eq_refl }

module _ {K V : Type 0} (E : Eq K) where
  -- `d.get(k)`
  unfoldable pub get : K → Dict K V → Option V
  get k [] = none
  get k ((j, v) ∷ d) = if E.beq j k then some v else get k d

  -- `d[k] = v`: in place if the key is there, else at the end.
  unfoldable pub put : K → V → Dict K V → Dict K V
  put k v [] = (k, v) ∷ []
  put k v ((j, w) ∷ d) = if E.beq j k then (j, v) ∷ d else (j, w) ∷ put k v d

  -- `d.pop(k, None)`
  unfoldable pub remove : K → Dict K V → Dict K V
  remove k [] = []
  remove k ((j, w) ∷ d) = let rest = remove k d in if E.beq j k then rest else (j, w) ∷ rest

  -- `k in d`
  unfoldable pub has : K → Dict K V → Bool
  has k [] = false
  has k ((j, v) ∷ d) = E.beq j k || has k d

  pub get-put :
      (k j : K) (v : V) (d : Dict K V) → get k (put j v d) ≡ (if E.beq j k then some v else get k d)
  unfolding get put
  get-put k j v [] = refl
  get-put k j v ((i, w) ∷ d) = elim (Bool-cases (E.beq i j)) [
    | inl same ↦ rw (same, E.beq_sound i j same) (ground arith)
    | inr other ↦
        rw other
          (ground (arith, get-put k j v d, E.beq_sound i k, E.beq_sound j k, E.beq_refl k, other))
  ]

  pub get-remove :
      (k j : K) (d : Dict K V) → get k (remove j d) ≡ (if E.beq j k then none else get k d)
  unfolding get remove
  get-remove k j [] = ground arith
  get-remove k j ((i, w) ∷ d) = elim (Bool-cases (E.beq i j)) [
    | inl same ↦ rw (same, E.beq_sound i j same) (ground (arith, get-remove k j d))
    | inr other ↦
        rw other
          (ground (arith, get-remove k j d, E.beq_sound i k, E.beq_sound j k, E.beq_refl k, other))
  ]

  pub has-eq-get :
      (k : K) (d : Dict K V) → has k d ≡ (elim (get k d) [ some v ↦ true | none ↦ false ])
  unfolding get has
  has-eq-get k [] = refl
  has-eq-get k ((j, v) ∷ d) = ground (arith, has-eq-get k d)
