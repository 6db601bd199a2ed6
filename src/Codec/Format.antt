-- ===== src/Codec/Format.antt =====
-- codec.py: what a decoder that reads exactly one layout does on every input.
use vaulttls.Codec.Reader.{Reader, reader, Parser}
use vaulttls.Prelude.{
  length-append, length, arith, append-nil, [], sym, append_assoc, inl, inr, refl, ap, ◌∙◌, ◌↔◌,
  ◌∷◌, ◌≡◌, ◌++◌, ℕ, IsBytes, Bytes,
}
use vaulttls.Codec.Decode.{run}
use vaulttls.Codec.Fields.{rest, Reads}
use vaulttls.Codec.Accepts.{Accepts}
use vaulttls.Errors.{ok_inj, Result, Result-cases, err, ok, Exc}

-- `m` reads the layout `wire` of the messages that satisfy `Fits`, and nothing else.
pub record Format {A : Type 0} (m : Parser A) (Fits : A → Type 0) (wire : A → Bytes) : Type 0 where
  pub complete : (a : A) → Fits a → Reads m (wire a) a
  pub sound : Accepts m (λ a w. Fits a × (w ≡ wire a))

-- A decoder returns what its reads return, whatever follows the bytes that they read.
pub run-Reads :
    {A : Type 0} {m : Parser A} {w : Bytes} {a : A} (t : Bytes)
    → Reads m w a
    → run m (w ++ t) ≡ ok a
unfolding run
run-Reads {m = m} {w = w} t h = rw (h.at (reader (w ++ t)) t refl, run)

module _ {A : Type 0} (m : Parser A) {Fits : A → Type 0} {wire : A → Bytes}
    (F : Format m Fits wire) where
  run-wire : (a : A) (t : Bytes) → Fits a → run m (wire a ++ t) ≡ ok a
  run-wire a t h = run-Reads t (F.complete a h)

  run-eq_ok : (w : Bytes) {a : A} → run m w ≡ ok a → (r : Reader) × (m (reader w) ≡ ok (a, r))
  unfolding run
  run-eq_ok w {a} e = go (m (reader w)) refl e
    where
      go :
          (x : Result (A × Reader))
          → m (reader w) ≡ x
          → elim x as (λ _. Result A) [ ok (b, r) ↦ ok b | err y ↦ err y ] ≡ ok a
          → (r : Reader) × (m (reader w) ≡ ok (a, r))
      go (ok (b, r)) p k = (r, p ∙ ap (λ c. ok (c, r)) (ok_inj k))
      go (err y) p k = cc

  -- A decoder succeeds exactly on the layout of a message that fits, with any bytes behind it.
  pub run_iff :
      (w : Bytes) (a : A)
      → IsBytes w
      → (run m w ≡ ok a) ↔ Fits a × ((t : Bytes) × (w ≡ wire a ++ t))
  run_iff w a h = (there, back)
    where
      there : run m w ≡ ok a → Fits a × ((t : Bytes) × (w ≡ wire a ++ t))
      there e =
          let (r, p) = run-eq_ok w e in
          let (u, (f, q), s) = F.sound.at (reader w) a r h p in
          (f, (rest r, s ∙ ap (λ v. v ++ rest r) q))

      back : Fits a × ((t : Bytes) × (w ≡ wire a ++ t)) → run m w ≡ ok a
      back (f, (t, e)) = rw e (run-wire a t f)

  -- A decoder raises on every message that was cut short.
  pub run_truncated :
      (a : A) (front : Bytes) (x : ℕ) (back : Bytes)
      → Fits a
      → IsBytes front
      → wire a ≡ front ++ (x ∷ back)
      → (e : Exc) × (run m front ≡ err e)
  run_truncated a front x back f h s = elim (Result-cases (run m front)) [
    | inr bad ↦ bad
    | inl (b, p) ↦
        let (g, (t, q)) = (run_iff front b h).0 p in
        let whole : wire a ≡ wire b ++ (t ++ (x ∷ back)) =
          s ∙ ap (λ v. v ++ (x ∷ back)) q ∙ append_assoc (wire b) t (x ∷ back) in
        let same : a ≡ b = ok_inj (
          sym (run-wire a [] f)
          ∙ ap (run m) (append-nil (wire a) ∙ whole)
          ∙ run-wire b (t ++ (x ∷ back)) g) in
        absurd (
          omega (
            arith,
            ap length s,
            ap length q,
            ap (λ c. length (wire c)) same,
            length-append front (x ∷ back),
            length-append (wire b) t,
          ))
  ]
