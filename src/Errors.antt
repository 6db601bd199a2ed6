-- ===== src/Errors.antt =====
-- Exceptions as values. `Exc` has one constructor for each `raise` of the program, with the values
-- that its message shows, and one for each failure of Python itself that the program can meet.
-- A function that may raise returns a `Result`.
use vaulttls.Prelude.{ℕ, ◌≡◌, refl, ◌⊎◌, inl, inr, Bool, true, false, String, List, if◌then◌else◌}

-- The exception classes that the program tells apart.
pub data Class : Type 0 where
  value_class assertion_class struct_class overflow_class index_class attribute_class : Class
  connection_class timeout_class runtime_class other_class : Class

pub data Exc : Type 0 where
  -- codec.py: `_R.read` at an offset, the bytes needed and the bytes there.
  truncated : ℕ → ℕ → ℕ → Exc
  -- A failed `assert`, with its message.
  assertion : String → Exc
  -- `bytes([n])` with n > 255.
  byte_range : Exc
  -- `struct.pack` of a number that does not fit the format.
  struct_range : Exc
  -- `int.to_bytes` of a number that does not fit.
  int_too_big : Exc
  -- `raw[0]` of empty bytes.
  index_range : Exc
  -- `str.encode` of a lone surrogate.
  surrogate : Exc
  -- `bytes.fromhex` of a text that is no hex.
  bad_hex : Exc
  -- An attribute that was never set.
  no_attribute : Exc
  -- transcript.py: the bytes received and the bytes asked for; a length above the limit.
  peer_closed : ℕ → ℕ → Exc
  timed_out : Exc
  frame_too_large : ℕ → Exc
  -- server_config.py.
  config_too_short config_truncated config_kex config_aead config_hash config_name : Exc
  config_stale : Exc
  config_version : ℕ → Exc
  -- record.py: the expected and the received sequence number.
  record_sequence : ℕ → ℕ → Exc
  -- opaque_adapter.py.
  at_infinity no_curve_point wrong_password server_mac_wrong client_mac_wrong : Exc
  unknown_user no_pending_key : Exc
  envelope_version : List ℕ → Exc
  login_failed : Exc → Exc
  -- pki.py.
  chain_length_truncated chain_body_truncated untrusted_ca wrong_issuer not_yet_valid expired : Exc
  marked_as_ca no_basic_constraints name_not_found : Exc
  chain_count : ℕ → Exc
  ca_signature server_signature cert_verify_invalid config_signature_invalid : Exc → Exc
  -- client.py: the alert that the server sent.
  server_alert : List ℕ → Exc
  -- `bytes.decode` of what is no UTF-8.
  bad_utf8 : Exc
  -- register_user.py: the server's two keys differ; the tag in place of the acknowledgement.
  static_key_mismatch : Exc
  unexpected_ack : ℕ → Exc
  -- An exception of a library outside the program, with its class and its text.
  external : Class → List ℕ → Exc

-- `except ValueError`: the class and its subclass UnicodeEncodeError.
unfoldable pub is_value_error : Exc → Bool
is_value_error (truncated p n have) = true
is_value_error (assertion message) = false
is_value_error byte_range = true
is_value_error struct_range = false
is_value_error int_too_big = false
is_value_error index_range = false
is_value_error surrogate = true
is_value_error bad_hex = true
is_value_error no_attribute = false
is_value_error (peer_closed got n) = false
is_value_error timed_out = false
is_value_error (frame_too_large n) = true
is_value_error config_too_short = true
is_value_error config_truncated = true
is_value_error config_kex = true
is_value_error config_aead = true
is_value_error config_hash = true
is_value_error config_name = true
is_value_error config_stale = true
is_value_error (config_version n) = true
is_value_error (record_sequence expected got) = true
is_value_error at_infinity = true
is_value_error no_curve_point = false
is_value_error wrong_password = true
is_value_error server_mac_wrong = true
is_value_error client_mac_wrong = true
is_value_error unknown_user = true
is_value_error no_pending_key = true
is_value_error (envelope_version v) = true
is_value_error (login_failed e) = true
is_value_error chain_length_truncated = true
is_value_error chain_body_truncated = true
is_value_error untrusted_ca = true
is_value_error wrong_issuer = true
is_value_error not_yet_valid = true
is_value_error expired = true
is_value_error marked_as_ca = true
is_value_error no_basic_constraints = true
is_value_error name_not_found = true
is_value_error (chain_count n) = true
is_value_error (ca_signature e) = true
is_value_error (server_signature e) = true
is_value_error (cert_verify_invalid e) = true
is_value_error (config_signature_invalid e) = true
is_value_error (server_alert frame) = false
is_value_error bad_utf8 = true
is_value_error static_key_mismatch = true
is_value_error (unexpected_ack tag) = false
is_value_error (external value_class text) = true
is_value_error (external _ text) = false

pub data Result {ℓ} (A : Type ℓ) : Type ℓ where
  err : Exc → Result A
  ok : A → Result A

infixl 5 ◌>>=◌ ◌>>◌
abbrev pub ◌>>=◌ {ℓ κ} : {A : Type ℓ} {B : Type κ} → Result A → (A → Result B) → Result B
err raised >>= k = err raised
ok value >>= k = k value

abbrev pub ◌>>◌ {ℓ} : {B : Type ℓ} → Result (Unit {0}) → Result B → Result B
checked >> k = checked >>= λ u. k

-- `if not b: raise e`, and `assert b, message`.
abbrev pub guard : Bool → Exc → Result (Unit {0})
guard false raised = err raised
guard true raised = ok tt

pub Result-cases {ℓ} :
    {A : Type ℓ} (r : Result A) → ((a : A) × (r ≡ ok a)) ⊎ ((e : Exc) × (r ≡ err e))
Result-cases (ok a) = inl (a, refl)
Result-cases (err e) = inr (e, refl)

-- Inversion of a successful bind.
pub >>=-eq-ok {ℓ κ} :
    {A : Type ℓ} {B : Type κ} (r : Result A) (k : A → Result B) {b : B}
    → (r >>= k) ≡ ok b
    → (value : A) × (r ≡ ok value) × (k value ≡ ok b)
>>=-eq-ok (err raised) k h = cc
>>=-eq-ok (ok value) k h = (value, refl, h)

pub ok_inj {ℓ} : {A : Type ℓ} {a b : A} → ok a ≡ ok b → a ≡ b
ok_inj h = cc

-- A guard that lets the value through.
pub guarded-eq_ok {ℓ} :
    {A : Type ℓ} (b : Bool) (e : Exc) {v a : A}
    → (if b then err e else ok v) ≡ ok a
    → (b ≡ false) × (v ≡ a)
guarded-eq_ok false raised h = (refl, ok_inj h)
guarded-eq_ok true raised h = cc

pub guard-eq_ok {ℓ} :
    {A : Type ℓ} (b : Bool) (e : Exc) (k : Result A) {a : A}
    → (guard b e >> k) ≡ ok a
    → (b ≡ true) × (k ≡ ok a)
guard-eq_ok false raised k h = cc
guard-eq_ok true raised k h = (refl, h)
