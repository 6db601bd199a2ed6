-- ===== src/Codec/Fields.antt =====
-- codec.py: what the reader `_R` reads, field by field. `Reads m w a`: on bytes that begin with `w`,
-- `m` returns `a` and stops behind `w`.
use mathlib.Core.Path.{subst}
use vaulttls.Prelude.{
  ℕ, ◌+◌, ◌^◌, ◌<◌, ◌≡◌, refl, sym, ap, ◌∙◌, Bool, true, [], ◌∷◌, ◌++◌, length, drop, Bytes,
  big_endian, from_big_endian, String, arith, take-append, drop-append, drop-drop, ==_refl,
  append_assoc, append-nil, length-append, length-big_endian, from_big_endian-big_endian,
}
use vaulttls.Errors.{Result, ok}
use vaulttls.Python.{first}
use vaulttls.Codec.Reader.{
  Reader, Parser, pure, lift, check, read, u8, u16, u24, u32, u64, v16, v24, ◌>>=◌,
}

-- The bytes that are still to be read.
abbrev pub rest : Reader → Bytes
rest r = drop r.p r.d

abbrev pub advance : ℕ → Reader → Reader
advance n r = record r { p = r.p + n }

pub record Reads {ℓ} {A : Type ℓ} (m : Parser A) (w : Bytes) (a : A) : Type ℓ where
  pub at : (r : Reader) (t : Bytes) → rest r ≡ w ++ t → m r ≡ ok (a, advance (length w) r)

rest-advance : (r : Reader) (w t : Bytes) → rest r ≡ w ++ t → rest (advance (length w) r) ≡ t
rest-advance r w t h = sym (drop-drop r.p (length w) r.d) ∙ ap (drop (length w)) h ∙ drop-append w t

pub Reads-pure {ℓ} : {A : Type ℓ} (a : A) → Reads (pure a) [] a
unfolding pure
Reads-pure a = record { at = λ r t h. let e : r.p + 0 ≡ r.p = omega arith in rw e }

bind_ok {ℓ} :
    {A B : Type ℓ} (m : Parser A) (f : A → Parser B) (r : Reader) {a : A} {r' : Reader}
    → m r ≡ ok (a, r')
    → (m >>= f) r ≡ f a r'
bind_ok m f r e = rw (e, ◌>>=◌)

pub Reads-bind {ℓ} :
    {A B : Type ℓ} (m : Parser A) (f : A → Parser B) {w v : Bytes} {a : A} {b : B}
    → Reads m w a
    → Reads (f a) v b
    → Reads (m >>= f) (w ++ v) b
Reads-bind m f {w} {v} {a} {b} p q = record {
  at = λ r t h.
      let s : rest r ≡ w ++ (v ++ t) = h ∙ append_assoc w v t in
      let e : r.p + length w + length v ≡ r.p + length (w ++ v) =
        omega (arith, length-append w v) in
      bind_ok m f r (p.at r (v ++ t) s)
      ∙ q.at (advance (length w) r) t (rest-advance r w (v ++ t) s)
      ∙ rw e;
}

pub Reads-read : (w : Bytes) (n : ℕ) → length w ≡ n → Reads (read n) w w
unfolding read
Reads-read w n k = record { at = λ r t h. rw (← k, h, take-append w t, ==_refl (length w)) }

pub Reads-check : (b : Bool) (message : String) → b ≡ true → Reads (check b message) [] tt
unfolding check
Reads-check b message h = record { at = λ r t k. let e : r.p + 0 ≡ r.p = omega arith in rw (h, e) }

pub Reads-lift {ℓ} : {A : Type ℓ} (m : Result A) {a : A} → m ≡ ok a → Reads (lift m) [] a
unfolding lift
Reads-lift m h = record { at = λ r t k. let e : r.p + 0 ≡ r.p = omega arith in rw (h, e) }

pub Reads-u8 : (n : ℕ) → Reads u8 (n ∷ []) n
unfolding u8 first
Reads-u8 n = Reads-bind (read 1) _ (Reads-read (n ∷ []) 1 refl) (Reads-lift _ refl)

-- A fixed-width number, as `read k` and `from_big_endian` read it.
unfoldable pub number : ℕ → Parser ℕ
number k = do c ← read k; pure (from_big_endian c)

Reads-number : (k n : ℕ) → n < 256 ^ k → Reads (number k) (big_endian k n) n
unfolding number
Reads-number k n h =
    subst (λ w. Reads (number k) w n) (append-nil (big_endian k n))
      (Reads-bind (read k) _ (Reads-read (big_endian k n) k (length-big_endian k n)) (
        subst (Reads (pure (from_big_endian (big_endian k n))) [])
          (from_big_endian-big_endian k n h) (Reads-pure _)))

pub Reads-u16 : (n : ℕ) → n < 65536 → Reads u16 (big_endian 2 n) n
unfolding u16 number
Reads-u16 n h = Reads-number 2 n h

pub Reads-u24 : (n : ℕ) → n < 16777216 → Reads u24 (big_endian 3 n) n
unfolding u24 number
Reads-u24 n h = Reads-number 3 n h

pub Reads-u32 : (n : ℕ) → n < 256 ^ 4 → Reads u32 (big_endian 4 n) n
unfolding u32 number
Reads-u32 n h = Reads-number 4 n h

pub Reads-u64 : (n : ℕ) → n < 256 ^ 8 → Reads u64 (big_endian 8 n) n
unfolding u64 number
Reads-u64 n h = Reads-number 8 n h

pub Reads-v16 : (d : Bytes) → length d < 65536 → Reads v16 (big_endian 2 (length d) ++ d) d
unfolding v16
Reads-v16 d h = Reads-bind u16 _ (Reads-u16 (length d) h) (Reads-read d (length d) refl)

pub Reads-v24 : (d : Bytes) → length d < 16777216 → Reads v24 (big_endian 3 (length d) ++ d) d
unfolding v24
Reads-v24 d h = Reads-bind u24 _ (Reads-u24 (length d) h) (Reads-read d (length d) refl)
