-- ===== src/Kdf/Binding.antt =====
-- tls13_kdf.py: the transcript's encoding is unambiguous.
use vaulttls.Prelude.{
  length-big_endian, length-append, append-nil, big_endian, append_assoc, All, ◌^◌, ◌<◌, ◌≡◌, refl,
  sym, ap, ◌∙◌, List, [], ◌∷◌, ◌++◌, arith, Bytes, length,
}
use vaulttls.Errors.{>>=-eq-ok, ok_inj, Result, ok, ◌>>=◌}
use vaulttls.Python.Text.{encode, Text}
use vaulttls.Kdf.{HashSuite, hash_bytes, digest, empty_transcript, Transcript, concat, add}
use vaulttls.Python.{struct_pack}
use vaulttls.Python.Text.RoundTrip.{decode_replace-encode}
use vaulttls.Kdf.Labels.{vector_inj}

-- `add` of each message in turn.
unfoldable pub add_all : List (Text × Bytes) → Transcript → Result Transcript
add_all [] t = ok t
add_all ((label, value) ∷ ms) t = do u ← add label value t; add_all ms u

abbrev pub IsText : Text → Type 0
IsText s = All (λ c. c < 0x110000) s

abbrev pub IsLabelled : List (Text × Bytes) → Type 0
IsLabelled [] = Unit
IsLabelled ((label, value) ∷ ms) = IsText label × IsLabelled ms

-- The encoding in the class's header.
data Encodes : List (Text × Bytes) → Bytes → Type 0 where
  none_left : Encodes [] []
  message :
      {label : Text} {lb value : Bytes} {ms : List (Text × Bytes)} {w v : Bytes}
      → encode label ≡ ok lb
      → length lb < 256 ^ 2
      → length value < 256 ^ 4
      → Encodes ms w
      → v ≡ (big_endian 2 (length lb) ++ lb) ++ ((big_endian 4 (length value) ++ value) ++ w)
      → Encodes ((label, value) ∷ ms) v

add-eq_ok :
    (label : Text) (value : Bytes) (t : Transcript) {u : Transcript}
    → add label value t ≡ ok u
    → (lb : Bytes) × (encode label ≡ ok lb)
      × (length lb < 256 ^ 2)
      × (length value < 256 ^ 4)
      × (u.parts
          ≡ t.parts
            ++ ((big_endian 2 (length lb) ++ lb) ∷ (big_endian 4 (length value) ++ value) ∷ []))
unfolding add struct_pack
add-eq_ok label value t e =
    let (lb, p, q) = >>=-eq-ok (encode label) _ e in
    (lb, p, ground arith, ground arith, ground arith)

concat-append : (xs ys : List Bytes) → concat (xs ++ ys) ≡ concat xs ++ concat ys
concat-append [] ys = refl
concat-append (x ∷ xs) ys =
    ap (λ t. x ++ t) (concat-append xs ys) ∙ sym (append_assoc x (concat xs) (concat ys))

add_all-Encodes :
    (ms : List (Text × Bytes)) (t : Transcript) {u : Transcript}
    → add_all ms t ≡ ok u
    → (w : Bytes) × Encodes ms w × (concat u.parts ≡ concat t.parts ++ w)
unfolding add_all
add_all-Encodes [] t {u} e = (
  [],
  none_left,
  ap (λ (x : Transcript). concat x.parts) (sym (ok_inj e)) ∙ sym (append-nil (concat t.parts)),
)
add_all-Encodes ((label, value) ∷ ms) t {u} e =
    let (t', p, q) = >>=-eq-ok (add label value t) _ e in
    let (lb, r, s, l, x) = add-eq_ok label value t p in
    let (w, y, z) = add_all-Encodes ms t' q in
    let a : Bytes = big_endian 2 (length lb) ++ lb in
    let b : Bytes = big_endian 4 (length value) ++ value in
    (
      a ++ (b ++ w),
      message r s l y refl,
      z
          ∙ ap (λ v. v ++ w) (ap concat x ∙ concat-append t.parts (a ∷ b ∷ []))
          ∙ append_assoc (concat t.parts) (a ++ (b ++ [])) w
          ∙ ap (λ v. concat t.parts ++ v)
              (append_assoc a (b ++ []) w ∙ ap (λ v. a ++ (v ++ w)) (append-nil b)),
    )

encode-injective :
    (s t : Text) {w : Bytes} → IsText s → IsText t → encode s ≡ ok w → encode t ≡ ok w → s ≡ t
encode-injective s t h k e f = sym (decode_replace-encode s h e) ∙ decode_replace-encode t k f

not_empty : (lb x v : Bytes) → v ≡ (big_endian 2 (length lb) ++ lb) ++ x → v ≡ [] → ⊥
not_empty lb x v f e = absurd (
    omega (
      arith,
      ap length (sym e ∙ f),
      length-append (big_endian 2 (length lb) ++ lb) x,
      length-append (big_endian 2 (length lb)) lb,
      length-big_endian 2 (length lb),
    ))

Encodes-injective :
    {ms ms' : List (Text × Bytes)} {v v' : Bytes}
    → IsLabelled ms
    → IsLabelled ms'
    → v ≡ v'
    → Encodes ms v
    → Encodes ms' v'
    → ms ≡ ms'
Encodes-injective h k e none_left none_left = refl
Encodes-injective {v' = v'} h k e none_left (message {lb = lb} a b c d f) =
    absurd (not_empty lb _ v' f (sym e))
Encodes-injective {v = v} h k e (message {lb = lb} a b c d f) none_left =
    absurd (not_empty lb _ v f e)
Encodes-injective h k e (message {label = l} {lb = lb} {value = x} a b c d f)
      (message {label = l'} {lb = lb'} {value = x'} a' b' c' d' f') =
    let (p, q) = vector_inj 2 lb lb' b b' (sym f ∙ e ∙ f') in
    let (r, s) = vector_inj 4 x x' c c' q in
    let t = Encodes-injective h.1 k.1 s d d' in
    let u : l ≡ l' = encode-injective l l' h.0 k.0 a (a' ∙ ap ok (sym p)) in cc (r, t, u)

-- Two transcripts that feed the same bytes to the hash hold the same labels and the same values, in
-- the same order.
pub add_all-injective :
    (ms ms' : List (Text × Bytes)) {t u : Transcript}
    → IsLabelled ms
    → IsLabelled ms'
    → add_all ms empty_transcript ≡ ok t
    → add_all ms' empty_transcript ≡ ok u
    → concat t.parts ≡ concat u.parts
    → ms ≡ ms'
add_all-injective ms ms' h k e f same =
    let (w, x, y) = add_all-Encodes ms empty_transcript e in
    let (w', x', y') = add_all-Encodes ms' empty_transcript f in
    Encodes-injective h k (sym y ∙ same ∙ y') x x'

-- Where SHA-512 has no collision at the two encodings, two transcripts with one digest hold the
-- same labels and the same values, in the same order.
pub digest-injective :
    (H : HashSuite) (ms ms' : List (Text × Bytes)) {t u : Transcript}
    → (H.sha512 (concat t.parts) ≡ H.sha512 (concat u.parts) → concat t.parts ≡ concat u.parts)
    → IsLabelled ms
    → IsLabelled ms'
    → add_all ms empty_transcript ≡ ok t
    → add_all ms' empty_transcript ≡ ok u
    → digest H t ≡ digest H u
    → ms ≡ ms'
unfolding digest hash_bytes
digest-injective H ms ms' free h k e f same = add_all-injective ms ms' h k e f (free same)
