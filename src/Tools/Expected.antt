-- ===== src/Tools/Expected.antt =====
-- tools/fuzz_codec.py: which exceptions the decoders raise.
use vaulttls.Prelude.{
  from_big_endian, Bool-cases, String, ℕ, ◌+◌, ◌≡◌, refl, ◌∙◌, subst, inl, inr, Bool, true, false,
  List, [], ◌∷◌, arith, ◌==◌, Bytes, length, take, drop,
}
use vaulttls.Errors.{is_value_error, Exc, Result, ok, err}
use vaulttls.Dict
use vaulttls.Tools.Fuzz.{
  type_name, input_of, Trial, Tally, count_of, campaign, recorded, increment, dropped, Decoder,
  attempt, is_expected, client_hello, server_hello, client_finish, app_data, alert,
}
use vaulttls.Codec.Reader
use vaulttls.Codec.Decode.{run}
use vaulttls.Codec.Reader.{
  reader, u64, u32, u24, u16, v24, v16, check, ◌>>◌, ◌>>=◌, Parser, Reader, read, u8,
}
use vaulttls.Python.{first}
use vaulttls.Codec.Decode.{
  read_alert, read_app_data, read_client_finish, read_server_hello, read_client_hello, decode_alert,
  decode_app_data, decode_client_finish, decode_server_hello, decode_client_hello,
}
use vaulttls.Python.Text.{codes, Text}

same_err :
    {A B : Type 0} {x y : Exc}
    → ◌≡◌ {A = Result A} (err x) (err y)
    → ◌≡◌ {A = Result B} (err x) (err y)
same_err p = cc

err_inj : {A : Type 0} {x y : Exc} → ◌≡◌ {A = Result A} (err x) (err y) → x ≡ y
err_inj p = cc

-- A parser that raises, raises what the campaign expects.
record Careful {A : Type 0} (m : Parser A) : Type 0 where
  at : (r : Reader) {e : Exc} → m r ≡ err e → is_expected e ≡ true

module _ {A : Type 0} where
  Careful-pure : (a : A) → Careful (Reader.pure a)
  unfolding Reader.pure
  Careful-pure a = record { at = λ r e. cc }

  Careful-bind :
      {B : Type 0} (m : Parser A) (f : A → Parser B)
      → Careful m
      → ((a : A) (r r' : Reader) → m r ≡ ok (a, r') → Careful (f a))
      → Careful (m >>= f)
  Careful-bind {B} m f g k = record { at = λ r {e} p. go r (m r) refl p }
    where
      go :
          (r : Reader) (x : Result (A × Reader)) {e : Exc}
          → m r ≡ x
          → elim x as (λ y. Result (B × Reader)) [ ok (a, r') ↦ f a r' | err y ↦ err y ] ≡ err e
          → is_expected e ≡ true
      go r (ok (a, r')) q p = (k a r r' q).at r' p
      go r (err y) {e} q p = g.at r (q ∙ same_err p)

Careful-check : (b : Bool) (message : String) → Careful (check b message)
unfolding check is_expected
Careful-check true message = record { at = λ r p. cc }
Careful-check false message = record {
  at = λ r {e} p. subst (λ x. is_expected x ≡ true) (err_inj p) refl;
}

Careful-read : (n : ℕ) → Careful (read n)
unfolding read is_expected is_value_error
Careful-read n = record {
  at = λ r {e} p. elim (Bool-cases (length (take n (drop r.p r.d)) == n)) [
    | inl enough ↦ let q = rw enough at p in cc
    | inr short ↦ subst (λ x. is_expected x ≡ true) (err_inj (rw short at p)) refl
  ];
}

length-read : (n : ℕ) (r : Reader) {c : Bytes} {r' : Reader} → read n r ≡ ok (c, r') → length c ≡ n
unfolding read
length-read n r e = ground arith

Careful-lift-first : (c : Bytes) → length c ≡ 1 → Careful (Reader.lift (first c))
unfolding Reader.lift first
Careful-lift-first [] h = absurd (omega arith)
Careful-lift-first (b ∷ bs) h = record { at = λ r p. cc }

-- A byte that was read is there.
Careful-u8 : Careful u8
unfolding u8
Careful-u8 =
    Careful-bind (read 1) _ (Careful-read 1) (λ c r r' q. Careful-lift-first c (length-read 1 r q))

-- A number that was read, and then as many bytes.
Careful-number : {A : Type 0} (n : ℕ) (f : Bytes → A) → Careful (do c ← read n; Reader.pure (f c))
Careful-number n f = Careful-bind (read n) _ (Careful-read n) (λ c r r' q. Careful-pure (f c))

Careful-counted : (m : Parser ℕ) → Careful m → Careful (do n ← m; read n)
Careful-counted m g = Careful-bind m _ g (λ n r r' q. Careful-read n)

Careful-v16 : Careful v16
unfolding v16 u16
Careful-v16 = Careful-counted u16 (Careful-number 2 from_big_endian)

Careful-v24 : Careful v24
unfolding v24 u24
Careful-v24 = Careful-counted u24 (Careful-number 3 from_big_endian)

-- A field that is read before the others.
field :
    {A B : Type 0} (m : Parser A) (f : A → Parser B)
    → Careful m
    → ((a : A) → Careful (f a))
    → Careful (m >>= f)
field m f g k = Careful-bind m f g (λ a r r' q. k a)

tagged :
    {A : Type 0} (tag : ℕ) (message : String) (rest : Parser A)
    → Careful rest
    → Careful (do t ← u8; check (t == tag) message; rest)
tagged tag message rest g =
    field u8 _ Careful-u8
      (λ t. field (check (t == tag) message) _ (Careful-check (t == tag) message) (λ u. g))

attempt-Careful :
    {A : Type 0} (m : Parser A) (bytes : Bytes) {e : Exc}
    → Careful m
    → dropped (run m bytes) ≡ err e
    → is_expected e ≡ true
unfolding run
attempt-Careful {A} m bytes g p = go (m (reader bytes)) refl p
  where
    go :
        (x : Result (A × Reader)) {e : Exc}
        → m (reader bytes) ≡ x
        → dropped (elim x as (λ y. Result A) [ ok (a, r') ↦ ok a | err y ↦ err y ]) ≡ err e
        → is_expected e ≡ true
    go (ok (a, r')) q p = cc
    go (err y) q p = g.at (reader bytes) (q ∙ same_err p)

attempt-expected :
    (d : Decoder) (bytes : Bytes) {e : Exc} → attempt d bytes ≡ err e → is_expected e ≡ true
unfolding attempt decode_client_hello decode_server_hello decode_client_finish decode_app_data
    decode_alert read_client_hello read_server_hello read_client_finish read_app_data read_alert u32
    u64
attempt-expected client_hello bytes p =
    attempt-Careful read_client_hello bytes
      (tagged 1 "Not a ClientHello" _ (
        field u8 _ Careful-u8 (λ v. field (read 64) _ (Careful-read 64) (λ c.
          field (read 32) _ (Careful-read 32)
            (λ n. field v16 _ Careful-v16 (λ k. Careful-pure _))))))
      p
attempt-expected server_hello bytes p =
    attempt-Careful read_server_hello bytes
      (tagged 2 "Not a ServerHello" _ (
        field u8 _ Careful-u8 (λ v. field (read 32) _ (Careful-read 32) (λ n.
          field v16 _ Careful-v16 (λ k. field v24 _ Careful-v24 (λ c. field v16 _ Careful-v16 (λ g.
            field v16 _ Careful-v16 (λ s. field v16 _ Careful-v16 (λ t. Careful-pure _)))))))))
      p
attempt-expected client_finish bytes p =
    attempt-Careful read_client_finish bytes
      (tagged 3 "Not a ClientFinish" _ (field v16 _ Careful-v16 (λ k. Careful-pure _))) p
attempt-expected app_data bytes p =
    attempt-Careful read_app_data bytes
      (tagged 4 "Not AppData" _ (
        field u64 _ (Careful-number 8 from_big_endian) (λ s.
          field u32 _ (Careful-number 4 from_big_endian)
            (λ n. field (read n) _ (Careful-read n) (λ c. Careful-pure _)))))
      p
attempt-expected alert bytes p =
    attempt-Careful read_alert bytes
      (tagged 5 "Not an Alert" _
        (field u8 _ Careful-u8 (λ l. field v16 _ Careful-v16 (λ m. Careful-pure _))))
      p

-- The number of attempts that a counter has counted.
abbrev pub total : Dict.Dict Text ℕ → ℕ
total [] = 0
total ((name, n) ∷ counter) = n + total counter

total-put :
    (key : Text) (v : ℕ) (counter : Dict.Dict Text ℕ)
    → total (Dict.put Dict.text_eq key v counter) + count_of key counter ≡ total counter + v
unfolding Dict.put Dict.get
total-put key v [] = omega arith
total-put key v ((name, n) ∷ counter) = ground (arith, total-put key v counter)

total-increment :
    (key : Text) (counter : Dict.Dict Text ℕ) → total (increment key counter) ≡ total counter + 1
unfolding increment
total-increment key counter = omega (arith, total-put key (count_of key counter + 1) counter)

recorded_kept :
    (d : Decoder) (r : Result (Unit {0})) (t : Tally)
    → ((e : Exc) → r ≡ err e → is_expected e ≡ true)
    → ((recorded d r t).unexpected ≡ t.unexpected)
      × (total (recorded d r t).counter ≡ total t.counter + 1)
unfolding recorded
recorded_kept d (ok u) t h = (refl, total-increment (codes "accepted") t.counter)
recorded_kept d (err e) t h = (rw (h e refl) refl, total-increment (type_name e) t.counter)

-- Whatever the mutations and the random bytes are: the campaign against a decoder adds no sample of
-- an unexpected exception, and counts each of its iterations once.
pub campaign_lem :
    (d : Decoder) (seed : Bytes) (trials : List Trial) (t : Tally)
    → ((campaign d seed trials t).unexpected ≡ t.unexpected)
      × (total (campaign d seed trials t).counter ≡ total t.counter + length trials)
unfolding campaign
campaign_lem d seed [] t = (refl, omega arith)
campaign_lem d seed (trial ∷ trials) t =
    let bytes = input_of seed trial in
    let (u, n) = recorded_kept d (attempt d bytes) t (λ e p. attempt-expected d bytes p) in
    let (v, m) = campaign_lem d seed trials (recorded d (attempt d bytes) t) in
    (v ∙ u, omega (arith, n, m))
