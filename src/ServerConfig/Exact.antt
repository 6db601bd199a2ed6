-- ===== src/ServerConfig/Exact.antt =====
-- server_config.py: what the decoder and the validation accept, on every input.
use vaulttls.Prelude.{
  ◌↔◌, All-drop, big_endian-from_big_endian, IsByte, from_big_endian-lt, All-take, ap, refl, ◌∙◌,
  length-big_endian, length-append, length-drop, take-append-drop, from_big_endian-big_endian, ◌%◌,
  drop-append, length-take, sym, append_assoc, ◌/◌, take-append, ◌++◌, ◌^◌, IsBytes, big_endian,
  ◌<◌, ◌≤◌, from_big_endian, ℕ, suc, ◌+◌, ◌-◌, ◌≡◌, [], ◌∷◌, arith, leb, if◌then◌else◌, Bytes,
  length, take, drop,
}
use vaulttls.Errors.{config_too_short, config_truncated, ok, err}
use vaulttls.ServerConfig.{decode_rest, decode_server_config, ServerConfig}
use vaulttls.Python.{unpack_from, item}
use vaulttls.Codec.Wire.{vector}

abbrev pub config : ℕ → ℕ → ℕ → ℕ → Bytes → ℕ → ServerConfig
config v k a h name ts = record {
  version = v;
  kex = k;
  aead = a;
  hash = h;
  server_name = name;
  timestamp = ts;
}

module _ (v k a h x y : ℕ) (r : Bytes) where
  abbrev whole : Bytes
  whole = v ∷ k ∷ a ∷ h ∷ x ∷ y ∷ r

  rest_lem :
      (n : ℕ)
      → decode_rest whole v k a h n ≡ (
          if leb (n + 8) (length r)
          then ok (config v k a h (take n r) (from_big_endian (take 8 (drop n r))))
          else err config_truncated)
  unfolding decode_rest unpack_from
  rest_lem n =
      let six : 6 + n ≡ suc (suc (suc (suc (suc (suc n))))) = omega arith in
      let sub : suc (suc (suc (suc (suc (suc n))))) - 6 ≡ n = omega arith in
      rw (six, sub) (ground arith)

  decode_lem : decode_server_config whole ≡ (
      if leb 8 (length r)
      then decode_rest whole v k a h (from_big_endian (x ∷ y ∷ []))
      else err config_too_short)
  unfolding decode_server_config item unpack_from
  decode_lem = ground arith

short : (bytes : Bytes) (c : ServerConfig) → decode_server_config bytes ≡ ok c → 14 ≤ length bytes
unfolding decode_server_config
short bytes c e = ground arith

pub record FitsConfig (c : ServerConfig) : Type 0 where
  pub version_fits : c.version < 256
  pub kex_fits : c.kex < 256
  pub aead_fits : c.aead < 256
  pub hash_fits : c.hash < 256
  pub name_fits : length c.server_name < 256 ^ 2
  pub time_fits : c.timestamp < 256 ^ 8

-- The layout of the header of server_config.py.
abbrev pub server_config_wire : ServerConfig → Bytes
server_config_wire c =
    c.version ∷ c.kex ∷ c.aead ∷ c.hash ∷ vector 2 c.server_name ++ big_endian 8 c.timestamp

decoded_from :
    (v k a h x y : ℕ) (name s t : Bytes)
    → from_big_endian (x ∷ y ∷ []) ≡ length name
    → length s ≡ 8
    → decode_server_config (whole v k a h x y (name ++ (s ++ t)))
      ≡ ok (config v k a h name (from_big_endian s))
decoded_from v k a h x y name s t p q =
    let r : Bytes = name ++ (s ++ t) in
    let first : take 8 (s ++ t) ≡ s = rw q at (take-append s t) in
    ground (
      arith,
      decode_lem v k a h x y r,
      rest_lem v k a h x y r (length name),
      take-append name (s ++ t),
      drop-append name (s ++ t),
      first,
      length-append name (s ++ t),
      length-append s t,
    )

two_bytes : (n : ℕ) → big_endian 2 n ≡ (n / 256 % 256) ∷ (n % 256) ∷ []
unfolding big_endian
two_bytes n = refl

pub decoded_wire :
    (c : ServerConfig) (t : Bytes)
    → FitsConfig c
    → decode_server_config (server_config_wire c ++ t) ≡ ok c
decoded_wire c t f =
    let s : Bytes = big_endian 8 c.timestamp in
    rw (two_bytes (length c.server_name), append_assoc c.server_name s t)
      (decoded_from c.version c.kex c.aead c.hash _ _ c.server_name s t
          (rw (← two_bytes (length c.server_name))
            (from_big_endian-big_endian 2 (length c.server_name) f.name_fits))
          (length-big_endian 8 c.timestamp)
        ∙ rw (from_big_endian-big_endian 8 c.timestamp f.time_fits))

written :
    (k : ℕ) (s : Bytes)
    → IsBytes s
    → length s ≡ k
    → (from_big_endian s < 256 ^ k) × (big_endian k (from_big_endian s) ≡ s)
written k s h e = rw (← e) (from_big_endian-lt s h, big_endian-from_big_endian s h)

module _ (v k a h x y : ℕ) (r : Bytes) (c : ServerConfig) (b : IsBytes (whole v k a h x y r))
    (e : decode_server_config (whole v k a h x y r) ≡ ok c) where
  abbrev n : ℕ
  n = from_big_endian (x ∷ y ∷ [])

  decoded_parts :
      (n + 8 ≤ length r) × (c ≡ config v k a h (take n r) (from_big_endian (take 8 (drop n r))))
  decoded_parts = ground (arith, decode_lem v k a h x y r, rest_lem v k a h x y r n)

  -- The name, the time and what follows, out of the bytes behind the length.
  pieces : r ≡ take n r ++ (take 8 (drop n r) ++ drop 8 (drop n r))
  pieces =
      sym (take-append-drop n r) ∙ ap (λ z. take n r ++ z) (sym (take-append-drop 8 (drop n r)))

  lengths : (length (take n r) ≡ n) × (length (take 8 (drop n r)) ≡ 8)
  lengths = (
    omega (arith, length-take n r, decoded_parts.0),
    omega (arith, length-take 8 (drop n r), length-drop n r, decoded_parts.0),
  )

  rest_IsBytes : IsBytes r
  rest_IsBytes = b.1.1.1.1.1.1

  time_IsBytes : IsBytes (take 8 (drop n r))
  time_IsBytes = All-take IsByte 8 (drop n r) (All-drop IsByte n r rest_IsBytes)

  name_length : (n < 256 ^ 2) × (big_endian 2 n ≡ x ∷ y ∷ [])
  name_length =
      let h : IsBytes (x ∷ y ∷ []) = (b.1.1.1.1.0, (b.1.1.1.1.1.0, tt)) in
      (from_big_endian-lt (x ∷ y ∷ []) h, big_endian-from_big_endian (x ∷ y ∷ []) h)

  time_written :
      (from_big_endian (take 8 (drop n r)) < 256 ^ 8)
      × (big_endian 8 (from_big_endian (take 8 (drop n r))) ≡ take 8 (drop n r))
  time_written = written 8 (take 8 (drop n r)) time_IsBytes lengths.1

  decoded_split : FitsConfig c × ((t : Bytes) × (whole v k a h x y r ≡ server_config_wire c ++ t))
  decoded_split = rw decoded_parts.1 (
    record {
      version_fits = b.0;
      kex_fits = b.1.0;
      aead_fits = b.1.1.0;
      hash_fits = b.1.1.1.0;
      name_fits = rw lengths.0 name_length.0;
      time_fits = time_written.0;
    },
    (
      drop 8 (drop n r),
      rw (lengths.0, name_length.1, time_written.1)
          (ap (λ z. v ∷ k ∷ a ∷ h ∷ x ∷ y ∷ z)
            (pieces ∙ sym (append_assoc (take n r) (take 8 (drop n r)) (drop 8 (drop n r))))),
    ),
  )

decoded_shape :
    (bytes : Bytes) (c : ServerConfig)
    → IsBytes bytes
    → 14 ≤ length bytes
    → decode_server_config bytes ≡ ok c
    → FitsConfig c × ((t : Bytes) × (bytes ≡ server_config_wire c ++ t))
decoded_shape (v ∷ k ∷ a ∷ h ∷ x ∷ y ∷ r) c b l e = decoded_split v k a h x y r c b e
decoded_shape _ c b l e = absurd (omega arith)

-- The decoder returns a blob exactly when the bytes are the layout of that blob, its fields in the
-- range of their widths, with anything behind it.
pub decode_server_config_iff :
    (bytes : Bytes) (c : ServerConfig)
    → IsBytes bytes
    → (decode_server_config bytes ≡ ok c)
      ↔ FitsConfig c × ((t : Bytes) × (bytes ≡ server_config_wire c ++ t))
decode_server_config_iff bytes c b =
    (λ e. decoded_shape bytes c b (short bytes c e) e, λ (f, (t, s)). rw s (decoded_wire c t f))
