-- ===== src/Kdf/Labels.antt =====
-- tls13_kdf.py: what HKDF-Expand-Label and the transcript hash bind.
use vaulttls.Prelude.{
  append-nil, length-big_endian, from_big_endian, append_assoc, from_big_endian-big_endian,
  big_endian, ℕ, ◌%◌, ◌^◌, ◌<◌, ◌≡◌, refl, sym, ap, ◌∙◌, [], ◌∷◌, ◌++◌, arith, Bytes, length,
}
use vaulttls.Errors.{ok}
use vaulttls.Kdf.{hkdf_label}
use vaulttls.Python.Text.{codes}
use vaulttls.Python.{one_byte, struct_pack}

-- Equal concatenations of pieces of equal length have equal pieces.
pub append_inj :
    (a b : Bytes) {x y : Bytes} → length a ≡ length b → a ++ x ≡ b ++ y → (a ≡ b) × (x ≡ y)
append_inj [] [] l e = (refl, e)
append_inj [] (b ∷ bs) l e = absurd (omega arith)
append_inj (a ∷ as') [] l e = absurd (omega arith)
append_inj (a ∷ as') (b ∷ bs) l e =
    let (p, q) = append_inj as' bs (omega arith) (ap tail_of e) in (ground (arith, p), q)
  where
    tail_of : Bytes → Bytes
    tail_of [] = []
    tail_of (x ∷ xs) = xs

pub big_endian-injective :
    (k a b : ℕ) → a < 256 ^ k → b < 256 ^ k → big_endian k a ≡ big_endian k b → a ≡ b
big_endian-injective k a b h l e =
    sym (from_big_endian-big_endian k a h) ∙ ap from_big_endian e ∙ from_big_endian-big_endian k b l

-- A vector in front of other bytes is read back.
pub vector_inj :
    (k : ℕ) (a b : Bytes) {x y : Bytes}
    → length a < 256 ^ k
    → length b < 256 ^ k
    → (big_endian k (length a) ++ a) ++ x ≡ (big_endian k (length b) ++ b) ++ y
    → (a ≡ b) × (x ≡ y)
vector_inj k a b {x} {y} h l e =
    let e' : big_endian k (length a) ++ (a ++ x) ≡ big_endian k (length b) ++ (b ++ y) =
      sym (append_assoc (big_endian k (length a)) a x)
      ∙ e
      ∙ append_assoc (big_endian k (length b)) b y in
    let (p, q) =
      append_inj (big_endian k (length a)) (big_endian k (length b))
        (length-big_endian k (length a) ∙ sym (length-big_endian k (length b))) e' in
    append_inj a b (big_endian-injective k (length a) (length b) h l p) q

one_byte_vector : (d : Bytes) → length d < 256 → big_endian 1 (length d) ++ d ≡ length d ∷ d
unfolding big_endian
one_byte_vector d h = let e : length d % 256 ≡ length d = omega arith in rw e

hkdf_label-eq_ok :
    (label context : Bytes) (len : ℕ) {w : Bytes}
    → hkdf_label label context len ≡ ok w
    → (len < 256 ^ 2)
      × (length (codes "tls13 " ++ label) < 256)
      × (length context < 256)
      × (w
          ≡ big_endian 2 len
            ++ ((big_endian 1 (length (codes "tls13 " ++ label)) ++ (codes "tls13 " ++ label))
                ++ ((big_endian 1 (length context) ++ context) ++ [])))
unfolding hkdf_label struct_pack one_byte
hkdf_label-eq_ok label context len e =
    ground (
      arith,
      one_byte_vector (codes "tls13 " ++ label),
      one_byte_vector context,
      append-nil context,
    )

-- One HkdfLabel is made of one length, one label and one context only.
pub hkdf_label-injective :
    (label label' context context' : Bytes) (len len' : ℕ) {w : Bytes}
    → hkdf_label label context len ≡ ok w
    → hkdf_label label' context' len' ≡ ok w
    → (label ≡ label') × (context ≡ context') × (len ≡ len')
hkdf_label-injective label label' context context' len len' e e' =
    let (a, b, c, d) = hkdf_label-eq_ok label context len e in
    let (a', b', c', d') = hkdf_label-eq_ok label' context' len' e' in
    let (p, q) =
      append_inj (big_endian 2 len) (big_endian 2 len')
        (length-big_endian 2 len ∙ sym (length-big_endian 2 len')) (sym d ∙ d') in
    let (r, s) = vector_inj 1 (codes "tls13 " ++ label) (codes "tls13 " ++ label') b b' q in
    let (t, u) = vector_inj 1 context context' c c' s in
    (
      (append_inj (codes "tls13 ") (codes "tls13 ") refl r).1,
      t,
      big_endian-injective 2 len len' a a' p,
    )
