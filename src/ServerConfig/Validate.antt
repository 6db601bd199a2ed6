-- ===== src/ServerConfig/Validate.antt =====
-- server_config.py: what the client's validation accepts, and the server's blob among it.
use vaulttls.Prelude.{
  append-nil, bytes_eq_refl, bytes_eq→eq, ℕ, ◌+◌, ◌≤◌, ◌≡◌, refl, sym, ap, ◌∙◌, subst, ◌↔◌, [],
  arith, Bytes,
}
use vaulttls.Errors.{ok_inj, >>=-eq-ok, ok}
use vaulttls.ServerConfig.{
  decode_server_config, encode_server_config, validate_server_config, check_server_config,
  ServerConfig,
}
use vaulttls.Python.{struct_pack}
use vaulttls.ServerConfig.Exact.{decoded_wire, server_config_wire, FitsConfig, config}

-- What the client requires of a blob.
pub record IsAcceptable (c : ServerConfig) (name : Bytes) (max_age now : ℕ) : Type 0 where
  pub version_is : c.version ≡ 1
  pub kex_is : c.kex ≡ 1
  pub aead_is : c.aead ≡ 2
  pub hash_is : c.hash ≡ 3
  pub name_is : c.server_name ≡ name
  pub not_older : now ≤ c.timestamp + max_age
  pub not_newer : c.timestamp ≤ now + max_age

check_iff :
    (c d : ServerConfig) (name : Bytes) (max_age now : ℕ)
    → (check_server_config c name max_age now ≡ ok d) ↔ (c ≡ d) × IsAcceptable c name max_age now
unfolding check_server_config
check_iff c d name max_age now = (
  λ e. ground (arith, bytes_eq→eq c.server_name name),
  λ (p, a). ground (arith, bytes_eq_refl name),
)

-- `validate_server_config` returns a blob exactly when the bytes decode to it, its version and its
-- three suites are the fixed ones, its name is the expected one and its time is at most `max_age`
-- seconds from now, either way.
pub validate_server_config_iff :
    (bytes : Bytes) (c : ServerConfig) (name : Bytes) (max_age now : ℕ)
    → (validate_server_config bytes name max_age now ≡ ok c)
      ↔ (decode_server_config bytes ≡ ok c) × IsAcceptable c name max_age now
unfolding validate_server_config
validate_server_config_iff bytes c name max_age now = (there, back)
  where
    there :
        validate_server_config bytes name max_age now ≡ ok c
        → (decode_server_config bytes ≡ ok c) × IsAcceptable c name max_age now
    there e =
        let (d, p, q) = >>=-eq-ok (decode_server_config bytes) _ e in
        let (r, a) = (check_iff d c name max_age now).0 q in
        (p ∙ ap ok r, subst (λ z. IsAcceptable z name max_age now) r a)

    back :
        (decode_server_config bytes ≡ ok c) × IsAcceptable c name max_age now
        → validate_server_config bytes name max_age now ≡ ok c
    back (p, a) = rw p ((check_iff c c name max_age now).1 (refl, a))

encode_server_config-eq_ok :
    (name : Bytes) (ts : ℕ) {w : Bytes}
    → encode_server_config name ts ≡ ok w
    → FitsConfig (config 1 1 2 3 name ts) × (w ≡ server_config_wire (config 1 1 2 3 name ts))
unfolding encode_server_config struct_pack
encode_server_config-eq_ok name ts e = ground arith

-- A blob that the server made at the time `ts` is validated by the client at the time `now` exactly
-- if the two clocks are at most `max_age` apart.
validate-encode_server_config :
    (name : Bytes) (ts max_age now : ℕ) {w : Bytes} (c : ServerConfig)
    → encode_server_config name ts ≡ ok w
    → (validate_server_config w name max_age now ≡ ok c)
      ↔ (c ≡ config 1 1 2 3 name ts) × ((now ≤ ts + max_age) × (ts ≤ now + max_age))
validate-encode_server_config name ts max_age now {w} c e = (there, back)
  where
    f : FitsConfig (config 1 1 2 3 name ts) × (w ≡ server_config_wire (config 1 1 2 3 name ts))
    f = encode_server_config-eq_ok name ts e

    decoded : decode_server_config w ≡ ok (config 1 1 2 3 name ts)
    decoded =
        ap decode_server_config (f.1 ∙ sym (append-nil _))
        ∙ decoded_wire (config 1 1 2 3 name ts) [] f.0

    there :
        validate_server_config w name max_age now ≡ ok c
        → (c ≡ config 1 1 2 3 name ts) × ((now ≤ ts + max_age) × (ts ≤ now + max_age))
    there v =
        let (d, a) = (validate_server_config_iff w c name max_age now).0 v in
        let same : c ≡ config 1 1 2 3 name ts = ok_inj (sym d ∙ decoded) in
        let a' : IsAcceptable (config 1 1 2 3 name ts) name max_age now =
          subst (λ z. IsAcceptable z name max_age now) same a in
        (same, (a'.not_older, a'.not_newer))

    back :
        (c ≡ config 1 1 2 3 name ts) × ((now ≤ ts + max_age) × (ts ≤ now + max_age))
        → validate_server_config w name max_age now ≡ ok c
    back (same, (p, q)) = (validate_server_config_iff w c name max_age now).1 (
      decoded ∙ ap ok (sym same),
      subst (λ z. IsAcceptable z name max_age now) (sym same)
          (record {
            version_is = refl;
            kex_is = refl;
            aead_is = refl;
            hash_is = refl;
            name_is = refl;
            not_older = p;
            not_newer = q;
          }),
    )
