-- ===== src/Codec/Accepts.antt =====
-- codec.py: what the reader `_R` accepts, field by field. `Accepts m R`: where `m` succeeds, it
-- stood before some bytes `w` with `R a w`, and stops behind them.
use vaulttls.Prelude.{
  ℕ, ◌^◌, ◌<◌, ◌≡◌, refl, sym, ap, ◌∙◌, Bool, true, [], ◌∷◌, ◌++◌, length, take, Bytes, big_endian,
  from_big_endian, String, IsBytes, IsByte, arith, drop-drop, take-append-drop, append_assoc,
  append-nil, big_endian-from_big_endian, from_big_endian-lt, All-take,
}
use vaulttls.Errors.{Result, ok, err}
use vaulttls.Python.{first}
use vaulttls.Codec.Reader.{
  Reader, Parser, pure, lift, check, read, u8, u16, u24, u32, u64, v16, v24, ◌>>=◌,
}
use vaulttls.Codec.Fields.{rest, advance, number}

bind-eq_ok {ℓ} :
    {A B : Type ℓ} (m : Parser A) (f : A → Parser B) (r : Reader) {b : B} {r'' : Reader}
    → (m >>= f) r ≡ ok (b, r'')
    → (a : A) × (r' : Reader) × (m r ≡ ok (a, r')) × (f a r' ≡ ok (b, r''))
bind-eq_ok {A} {B} m f r {b} {r''} h = go (m r) refl h
  where
    go :
        (x : Result (A × Reader))
        → m r ≡ x
        → elim x as (λ _. Result (B × Reader)) [ ok (a, r') ↦ f a r' | err e ↦ err e ] ≡ ok (b, r'')
        → (a : A) × (r' : Reader) × (m r ≡ ok (a, r')) × (f a r' ≡ ok (b, r''))
    go (ok (a, r')) e k = (a, r', e, k)
    go (err x) e k = cc

pub record Accepts {ℓ κ} {A : Type ℓ} (m : Parser A) (R : A → Bytes → Type κ) : Type (ℓ ⊔ κ) where
  pub at :
      (r : Reader) (a : A) (r' : Reader)
      → IsBytes (rest r)
      → m r ≡ ok (a, r')
      → (w : Bytes) × R a w × (rest r ≡ w ++ rest r')

All-append_right : (w v : Bytes) → IsBytes (w ++ v) → IsBytes v
All-append_right [] v h = h
All-append_right (x ∷ w) v h = All-append_right w v h.1

-- What a sequence of two parsers accepts.
abbrev pub Then {ℓ} :
    {A B : Type ℓ} → (A → Bytes → Type ℓ) → (A → B → Bytes → Type ℓ) → B → Bytes → Type ℓ
Then {A = A} R S b w = (a : A) × (u : Bytes) × (v : Bytes) × R a u × S a b v × (w ≡ u ++ v)

pub Accepts-bind {ℓ} :
    {A B : Type ℓ} (m : Parser A) (f : A → Parser B) {R : A → Bytes → Type ℓ}
    {S : A → B → Bytes → Type ℓ}
    → Accepts m R
    → ((a : A) → Accepts (f a) (S a))
    → Accepts (m >>= f) (Then R S)
Accepts-bind m f p q = record {
  at = λ r b r'' h e.
      let (a, r', e1, e2) = bind-eq_ok m f r e in
      let (u, x, s) = p.at r a r' h e1 in
      let (v, y, t) = (q a).at r' b r'' (All-append_right u (rest r') (rw s at h)) e2 in
      (u ++ v, (a, u, v, x, y, refl), s ∙ ap (λ z. u ++ z) t ∙ sym (append_assoc u v (rest r'')));
}

-- What each read accepts: exactly the bytes that the packing helper of its format writes.
abbrev pub IsChunk : ℕ → Bytes → Bytes → Type 0
IsChunk n c w = (w ≡ c) × (length c ≡ n) × IsBytes c

abbrev pub IsNumber : ℕ → ℕ → Bytes → Type 0
IsNumber k n w = (n < 256 ^ k) × (w ≡ big_endian k n)

abbrev pub IsVector : ℕ → Bytes → Bytes → Type 0
IsVector k c w = (length c < 256 ^ k) × (w ≡ big_endian k (length c) ++ c)

pub Accepts-pure : {A : Type 0} (a : A) → Accepts (pure a) (λ b w. (a ≡ b) × (w ≡ []))
unfolding pure
Accepts-pure a = record {
  at = λ r b r' h e. let same : r ≡ r' = ground arith in ([], (ground arith, refl), ap rest same);
}

pub Accepts-check :
    (b : Bool) (message : String) → Accepts (check b message) (λ _ w. (b ≡ true) × (w ≡ []))
unfolding check
Accepts-check b message = record {
  at = λ r u r' h e. let same : r ≡ r' = ground arith in ([], (ground arith, refl), ap rest same);
}

read-eq_ok :
    (n : ℕ) (r : Reader) {c : Bytes} {r' : Reader}
    → read n r ≡ ok (c, r')
    → (c ≡ take n (rest r)) × (length c ≡ n) × (r' ≡ advance n r)
unfolding read
read-eq_ok n r e = ground arith

pub Accepts-read : (n : ℕ) → Accepts (read n) (IsChunk n)
Accepts-read n = record {
  at = λ r c r' h e.
      let (p, q, s) = read-eq_ok n r e in
      (
        c,
        (refl, q, rw p (All-take IsByte n (rest r) h)),
        rw (p, s)
            (sym (take-append-drop n (rest r))
              ∙ ap (λ z. take n (rest r) ++ z) (drop-drop r.p n r.d)),
      );
}

-- A relation may be replaced by a weaker one.
pub Accepts-weaken {ℓ κ μ} :
    {A : Type ℓ} (m : Parser A) {R : A → Bytes → Type κ} {S : A → Bytes → Type μ}
    → ((a : A) (w : Bytes) → R a w → S a w)
    → Accepts m R
    → Accepts m S
Accepts-weaken m k p = record {
  at = λ r a r' h e. let (w, x, s) = p.at r a r' h e in (w, k a w x, s);
}

IsNumber-read :
    (k n : ℕ) (c : Bytes)
    → n ≡ from_big_endian c
    → length c ≡ k
    → IsBytes c
    → (n < 256 ^ k) × (c ≡ big_endian k n)
IsNumber-read k n c e l h =
    rw (e, ← l) (from_big_endian-lt c h, sym (big_endian-from_big_endian c h))

Accepts-number : (k : ℕ) → Accepts (number k) (IsNumber k)
unfolding number
Accepts-number k =
    Accepts-weaken (number k)
      (λ n w (c, u, v, (x, l, h), (y, z), s).
        let (lt, e) = IsNumber-read k n c (sym y) l h in
        (lt, s ∙ ap (λ t. u ++ t) z ∙ append-nil u ∙ x ∙ e))
      (Accepts-bind (read k) _ (Accepts-read k) (λ c. Accepts-pure (from_big_endian c)))

pub Accepts-u16 : Accepts u16 (IsNumber 2)
unfolding u16 number
Accepts-u16 = Accepts-number 2

pub Accepts-u24 : Accepts u24 (IsNumber 3)
unfolding u24 number
Accepts-u24 = Accepts-number 3

pub Accepts-u32 : Accepts u32 (IsNumber 4)
unfolding u32 number
Accepts-u32 = Accepts-number 4

pub Accepts-u64 : Accepts u64 (IsNumber 8)
unfolding u64 number
Accepts-u64 = Accepts-number 8

-- `self.read(1)[0]`
first-eq_ok :
    (c : Bytes) (r : Reader) {n : ℕ} {r' : Reader}
    → lift (first c) r ≡ ok (n, r')
    → length c ≡ 1
    → (c ≡ n ∷ []) × (r ≡ r')
unfolding lift first
first-eq_ok [] r e l = cc
first-eq_ok (b ∷ []) r e l = ground arith
first-eq_ok (b ∷ x ∷ c) r e l = absurd (omega arith)

pub Accepts-u8 : Accepts u8 (λ n w. (n < 256) × (w ≡ n ∷ []))
unfolding u8
Accepts-u8 = record {
  at = λ r n r' h e.
      let (c, r1, e1, e2) = bind-eq_ok (read 1) (λ c. lift (first c)) r e in
      let (w, (x, l, k), s) = (Accepts-read 1).at r c r1 h e1 in
      let (y, z) = first-eq_ok c r1 e2 l in
      let k' : IsBytes (n ∷ []) = rw y at k in (w, (k'.0, x ∙ y), s ∙ ap (λ t. w ++ rest t) z);
}

IsVector-read :
    (k : ℕ) (c w : Bytes) → Then (IsNumber k) (λ n c v. IsChunk n c v) c w → IsVector k c w
IsVector-read k c w (n, u, v, (lt, x), (y, l, h), s) = rw (l, s, x, y) (lt, refl)

pub Accepts-v16 : Accepts v16 (IsVector 2)
unfolding v16
Accepts-v16 =
    Accepts-weaken v16 (IsVector-read 2) (Accepts-bind u16 _ Accepts-u16 (λ n. Accepts-read n))

pub Accepts-v24 : Accepts v24 (IsVector 3)
unfolding v24
Accepts-v24 =
    Accepts-weaken v24 (IsVector-read 3) (Accepts-bind u24 _ Accepts-u24 (λ n. Accepts-read n))
