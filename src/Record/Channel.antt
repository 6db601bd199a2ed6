-- ===== src/Record/Channel.antt =====
-- record.py: a sender and a receiver with the same keys, and a network that may do what it likes.
use vaulttls.Prelude.{
  inr, inl, ◌++◌, ap, refl, All, ◌<◌, subst, ◌∙◌, ◌≤◌, ◌⊎◌, ==_refl, ℕ, ◌+◌, ◌≡◌, sym, ◌≢◌, List,
  [], ◌∷◌, arith, Bytes, length,
}
use vaulttls.Errors.{ok_inj, >>=-eq-ok, record_sequence, Result, ok, err, ◌>>=◌}
use vaulttls.Record.{nonce, tag_len, aad, encrypt, decrypt, DirectionState, Aead}

-- What the package documents: decryption under the same key, nonce and data gives the plaintext
-- back, and the ciphertext is 16 bytes longer.
pub record AeadLaws (C : Aead) : Type 0 where
  pub opens :
      (key nonce plaintext aad ciphertext : Bytes)
      → C.encrypt key nonce plaintext aad ≡ ok ciphertext
      → (C.decrypt key nonce ciphertext aad ≡ ok plaintext)
        × (length ciphertext ≡ length plaintext + 16)

module _ (C : Aead) where
  -- `encrypt` of each message in turn: the records that were made, in order.
  unfoldable pub encrypt_all : ℕ → List Bytes → DirectionState → Result (List (ℕ × Bytes))
  encrypt_all ct [] s = ok []
  encrypt_all ct (m ∷ ms) s = do
    r ← (encrypt C ct m s).0
    rs ← encrypt_all ct ms (encrypt C ct m s).1
    ok (r ∷ rs)

  -- `decrypt` of each record in turn: the plaintexts of the calls that did not raise.
  unfoldable pub decrypt_all : ℕ → List (ℕ × Bytes) → DirectionState → List Bytes
  decrypt_all ct [] s = []
  decrypt_all ct ((n, c) ∷ rs) s =
      let rest = decrypt_all ct rs (decrypt C ct n c s).1 in
      elim (decrypt C ct n c s).0 [ ok m ↦ m ∷ rest | err e ↦ rest ]

  -- A record whose number is not the expected one is refused, and changes nothing.
  pub decrypt_refused :
      (ct n : ℕ) (c : Bytes) (s : DirectionState)
      → n ≢ s.seq
      → decrypt C ct n c s ≡ (err (record_sequence s.seq n), s)
  unfolding decrypt
  decrypt_refused ct n c s h = ground arith

  pub decrypt-encrypt :
      AeadLaws C
      → (ct : ℕ) (m : Bytes) (s : DirectionState) {n : ℕ} {c : Bytes}
      → (encrypt C ct m s).0 ≡ ok (n, c)
      → (n ≡ s.seq) × (decrypt C ct n c s ≡ (ok m, (encrypt C ct m s).1))
  unfolding decrypt encrypt
  decrypt-encrypt L ct m s {n} {c} e =
      let (a, p, q) = >>=-eq-ok (aad ct s.seq (length m + tag_len)) _ e in
      let (v, r, t) = >>=-eq-ok (nonce s s.seq) _ q in
      let (d, u, w) = >>=-eq-ok (C.encrypt s.key v m a) _ t in
      let same : (s.seq ≡ n) × (d ≡ c) = ground (arith, w) in
      let (opened, size) = L.opens s.key v m a d u in
      (sym same.0, rw (← same.0, ← same.1, size) (rw (==_refl s.seq) (rw p (rw r (rw opened)))))

  encrypt_all_nil :
      (ct : ℕ) (s : DirectionState) {rs : List (ℕ × Bytes)} → encrypt_all ct [] s ≡ ok rs → rs ≡ []
  unfolding encrypt_all
  encrypt_all_nil ct s e = ground arith

  encrypt_all_cons :
      (ct : ℕ) (m : Bytes) (ms : List Bytes) (s : DirectionState) {rs : List (ℕ × Bytes)}
      → encrypt_all ct (m ∷ ms) s ≡ ok rs
      → (n : ℕ) × (c : Bytes) × (later : List (ℕ × Bytes)) × ((encrypt C ct m s).0 ≡ ok (n, c))
        × (encrypt_all ct ms (encrypt C ct m s).1 ≡ ok later)
        × (rs ≡ (n, c) ∷ later)
  unfolding encrypt_all
  encrypt_all_cons ct m ms s e =
      let (r, p, q) = >>=-eq-ok (encrypt C ct m s).0 _ e in
      let (later, t, u) = >>=-eq-ok (encrypt_all ct ms (encrypt C ct m s).1) _ q in
      (r.0, r.1, later, p, t, sym (ok_inj u))

  encrypt_seq : (ct : ℕ) (m : Bytes) (s : DirectionState) → (encrypt C ct m s).1.seq ≡ s.seq + 1
  unfolding encrypt
  encrypt_seq ct m s = refl

  taken :
      (ct n : ℕ) (c : Bytes) (rs : List (ℕ × Bytes)) (s : DirectionState) {m : Bytes}
      {s' : DirectionState}
      → decrypt C ct n c s ≡ (ok m, s')
      → decrypt_all ct ((n, c) ∷ rs) s ≡ m ∷ decrypt_all ct rs s'
  unfolding decrypt_all
  taken ct n c rs s e = rw (e, decrypt_all) (rw e)

  dropped :
      (ct n : ℕ) (c : Bytes) (rs : List (ℕ × Bytes)) (s : DirectionState)
      → n ≢ s.seq
      → decrypt_all ct ((n, c) ∷ rs) s ≡ decrypt_all ct rs s
  unfolding decrypt_all
  dropped ct n c rs s h =
      rw (decrypt_refused ct n c s h, decrypt_all) (rw (decrypt_refused ct n c s h))

  -- With a cipher that opens what it sealed, every record that the sender made of `ms` from the state
  -- `s` on is taken in order: the receiver with the same keys gets `ms`.
  pub decrypt_all-encrypt_all :
      AeadLaws C
      → (ct : ℕ) (ms : List Bytes) (s : DirectionState) {rs : List (ℕ × Bytes)}
      → encrypt_all ct ms s ≡ ok rs
      → decrypt_all ct rs s ≡ ms
  decrypt_all-encrypt_all L ct [] s {rs} e =
      rw (encrypt_all_nil ct s e) (unfold decrypt_all in refl)
  decrypt_all-encrypt_all L ct (m ∷ ms) s {rs} e =
      let (n, c, later, p, q, r) = encrypt_all_cons ct m ms s e in
      rw r (
        taken ct n c later s (decrypt-encrypt L ct m s p).1
        ∙ ap (λ t. m ∷ t) (decrypt_all-encrypt_all L ct ms (encrypt C ct m s).1 q))

  -- The record is one of the list's.
  abbrev pub Among : ℕ × Bytes → List (ℕ × Bytes) → Type 0
  Among r [] = ⊥
  Among r (x ∷ xs) = (r ≡ x) ⊎ Among r xs

  sent_later :
      AeadLaws C
      → (ct : ℕ) (ms : List Bytes) (s : DirectionState) {rs : List (ℕ × Bytes)} (r : ℕ × Bytes)
      → encrypt_all ct ms s ≡ ok rs
      → Among r rs
      → s.seq ≤ r.0
  sent_later L ct [] s r e h = absurd (subst (Among r) (encrypt_all_nil ct s e) h)
  sent_later L ct (m ∷ ms) s r e h =
      let (n, c, later, p, q, t) = encrypt_all_cons ct m ms s e in
      elim (subst (Among r) t h) [
        | inl same ↦ omega (arith, ap (λ (x : ℕ × Bytes). x.0) same, (decrypt-encrypt L ct m s p).0)
        | inr other ↦
            omega (arith, encrypt_seq ct m s, sent_later L ct ms (encrypt C ct m s).1 r q other)
      ]

  -- A record that the sender made: its number was passed, or it is one of those still to come.
  abbrev pub Known : DirectionState → List (ℕ × Bytes) → ℕ × Bytes → Type 0
  Known s rs r = (r.0 < s.seq) ⊎ Among r rs

  Known-later :
      (s s' : DirectionState) (n : ℕ) (c : Bytes) (later inc : List (ℕ × Bytes))
      → n ≡ s.seq
      → s'.seq ≡ s.seq + 1
      → All (Known s ((n, c) ∷ later)) inc
      → All (Known s' later) inc
  Known-later s s' n c later [] p q h = tt
  Known-later s s' n c later (r ∷ inc) p q (inl l, h) =
      (inl (omega arith), Known-later s s' n c later inc p q h)
  Known-later s s' n c later (r ∷ inc) p q (inr (inl same), h) =
      (inl (omega (arith, ap (λ (x : ℕ × Bytes). x.0) same)), Known-later s s' n c later inc p q h)
  Known-later s s' n c later (r ∷ inc) p q (inr (inr other), h) =
      (inr other, Known-later s s' n c later inc p q h)

  -- With a cipher that opens what it sealed, and whatever the network does with the sender's records,
  -- dropping, repeating and reordering them as it likes, what the receiver accepts is a first part of
  -- what was sent, in order. The records that come are the sender's own: later ones of this run, or
  -- any bytes under a number that was passed.
  pub decrypt_all_prefix :
      AeadLaws C
      → (ct : ℕ) (inc : List (ℕ × Bytes)) (ms : List Bytes) (s : DirectionState)
        {rs : List (ℕ × Bytes)}
      → encrypt_all ct ms s ≡ ok rs
      → All (Known s rs) inc
      → (lost : List Bytes) × (ms ≡ decrypt_all ct inc s ++ lost)
  decrypt_all_prefix L ct [] ms s e h = (ms, unfold decrypt_all in refl)
  decrypt_all_prefix L ct ((n, c) ∷ inc) ms s e (inl l, h) =
      let (lost, p) = decrypt_all_prefix L ct inc ms s e h in
      (lost, p ∙ ap (λ t. t ++ lost) (sym (dropped ct n c inc s (omega arith))))
  decrypt_all_prefix L ct ((n, c) ∷ inc) [] s e (inr a, h) =
      absurd (subst (Among (n, c)) (encrypt_all_nil ct s e) a)
  decrypt_all_prefix L ct ((n, c) ∷ inc) (m ∷ ms) s {rs} e (inr a, h) =
      let (n', c', later, p, q, t) = encrypt_all_cons ct m ms s e in
      let (at_seq, opened) = decrypt-encrypt L ct m s p in
      elim (subst (Among (n, c)) t a) [
        | inr other ↦
            let (lost, k) = decrypt_all_prefix L ct inc (m ∷ ms) s e h in
            let far : (encrypt C ct m s).1.seq ≤ n =
              sent_later L ct ms (encrypt C ct m s).1 (n, c) q other in
            (
              lost,
              k
                  ∙ ap (λ z. z ++ lost)
                      (sym (dropped ct n c inc s (omega (arith, encrypt_seq ct m s)))),
            )
        | inl same ↦
            let known =
              Known-later s (encrypt C ct m s).1 n' c' later inc at_seq (encrypt_seq ct m s)
                (subst (λ z. All (Known s z) inc) t h) in
            let (lost, k) = decrypt_all_prefix L ct inc ms (encrypt C ct m s).1 q known in
            (
              lost,
              ap (λ z. m ∷ z) k
                  ∙ ap (λ z. z ++ lost)
                      (sym (
                        ap (λ (r : ℕ × Bytes). decrypt_all ct (r ∷ inc) s) same
                        ∙ taken ct n' c' inc s opened)),
            )
      ]
