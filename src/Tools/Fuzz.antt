-- ===== src/Tools/Fuzz.antt =====
-- tools/fuzz_codec.py: the campaign of malformed inputs against the decoders. What it draws at random
-- is an argument.
use vaulttls.Prelude.{
  ℕ, zero, suc, ◌+◌, Bool, true, none, some, List, [], ◌∷◌, ◌++◌, if◌then◌else◌, Bytes, take, drop,
}
use vaulttls.Errors.{Class, is_value_error, assertion, Exc, Result, ok, err, ◌>>=◌}
use vaulttls.Dict
use Prim.Native.Nat.{bit_xor}
use vaulttls.Errors.{
  struct_range, int_too_big, index_range, surrogate, bad_utf8, no_attribute, peer_closed, timed_out,
  external, assertion,
}
use vaulttls.Codec.Encode
use vaulttls.Python.Text.{Text, codes}
use vaulttls.Codec.Encode.{encode_client_hello}
use vaulttls.Codec.Decode.{
  decode_alert, decode_app_data, decode_client_finish, decode_server_hello, decode_client_hello,
}

-- `rng.choice(["flip", "truncate", "extend", "splice"])`, with the draws of that action.
pub data Action : Type 0 where
  flip : List (ℕ × ℕ) → Action
  truncate : ℕ → Action
  extend : Bytes → Action
  splice : ℕ → ℕ → Action

-- `buf[i] ^= x`
unfoldable pub xor_at : ℕ → ℕ → Bytes → Bytes
xor_at i x [] = []
xor_at zero x (b ∷ bs) = bit_xor b x ∷ bs
xor_at (suc i) x (b ∷ bs) = b ∷ xor_at i x bs

unfoldable pub xor_all : List (ℕ × ℕ) → Bytes → Bytes
unfolding xor_at
xor_all [] buf = buf
xor_all ((i, x) ∷ flips) buf = xor_all flips (xor_at i x buf)

unfoldable pub act : Action → Bytes → Bytes
unfolding xor_all
act (flip flips) buf = xor_all flips buf
act (truncate cut) buf = take cut buf
act (extend more) buf = buf ++ more
act (splice i j) buf = take i buf ++ drop j buf

-- `_mutate(data, rng)`: empty data gives way to random bytes.
unfoldable pub mutate : Bytes → Action → Bytes → Bytes
unfolding act
mutate random action [] = random
mutate random action (b ∷ bs) = act action (b ∷ bs)

pub data Decoder : Type 0 where
  client_hello server_hello client_finish app_data alert : Decoder

-- What `_seed_inputs` draws.
pub record SeedDraws : Type 0 where
  pub credential_id : Bytes
  pub client_nonce : Bytes
  pub server_nonce : Bytes
  pub config_sig : Bytes
  pub verify_sig : Bytes
  pub ciphertext : Bytes

-- `_seed_inputs()`: the one input of each corpus.
unfoldable pub seed_input : SeedDraws → Decoder → Result Bytes
seed_input s client_hello =
    Encode.encode_client_hello 1 s.credential_id s.client_nonce (codes "ke1")
seed_input s server_hello = do
  core ← Encode.encode_server_hello_core 1 s.server_nonce (codes "cert") (codes "cfg") (codes "ke2")
  Encode.encode_server_hello core s.config_sig s.verify_sig
seed_input s client_finish = Encode.encode_client_finish (codes "ke3")
seed_input s app_data = Encode.encode_app_data 7 s.ciphertext
seed_input s alert = Encode.encode_alert 2 (codes "fatal")

abbrev pub dropped : {A : Type 0} → Result A → Result (Unit {0})
dropped (ok a) = ok tt
dropped (err e) = err e

-- `fn(data)`, of which only an exception counts.
unfoldable pub attempt : Decoder → Bytes → Result (Unit {0})
attempt client_hello bytes = dropped (decode_client_hello bytes)
attempt server_hello bytes = dropped (decode_server_hello bytes)
attempt client_finish bytes = dropped (decode_client_finish bytes)
attempt app_data bytes = dropped (decode_app_data bytes)
attempt alert bytes = dropped (decode_alert bytes)

abbrev class_name : Class → Text
class_name Class.value_class = codes "ValueError"
class_name Class.assertion_class = codes "AssertionError"
class_name Class.struct_class = codes "error"
class_name Class.overflow_class = codes "OverflowError"
class_name Class.index_class = codes "IndexError"
class_name Class.attribute_class = codes "AttributeError"
class_name Class.connection_class = codes "ConnectionError"
class_name Class.timeout_class = codes "TimeoutError"
class_name Class.runtime_class = codes "RuntimeError"
class_name Class.other_class = codes "Exception"

-- `type(exc).__name__`
unfoldable pub type_name : Exc → Text
type_name (assertion message) = codes "AssertionError"
type_name struct_range = codes "error"
type_name int_too_big = codes "OverflowError"
type_name index_range = codes "IndexError"
type_name surrogate = codes "UnicodeEncodeError"
type_name bad_utf8 = codes "UnicodeDecodeError"
type_name no_attribute = codes "AttributeError"
type_name (peer_closed got n) = codes "ConnectionError"
type_name timed_out = codes "TimeoutError"
type_name (external c text) = class_name c
type_name e = if is_value_error e then codes "ValueError" else codes "RuntimeError"

-- `isinstance(exc, (AssertionError, ValueError, UnicodeDecodeError, struct.error))`
unfoldable pub is_expected : Exc → Bool
is_expected (assertion message) = true
is_expected struct_range = true
is_expected (external Class.assertion_class text) = true
is_expected (external Class.struct_class text) = true
is_expected e = is_value_error e

pub record Sample : Type 0 where
  pub decoder : Decoder
  pub exc : Exc

-- `counters[name]` and `unexpected`.
pub record Tally : Type 0 where
  pub counter : Dict.Dict Text ℕ
  pub unexpected : List Sample

abbrev pub count_of : Text → Dict.Dict Text ℕ → ℕ
count_of name counter = elim (Dict.get Dict.text_eq name counter) [ some n ↦ n | none ↦ 0 ]

-- `counters[name][key] += 1`
unfoldable pub increment : Text → Dict.Dict Text ℕ → Dict.Dict Text ℕ
increment key counter = Dict.put Dict.text_eq key (count_of key counter + 1) counter

unfoldable pub recorded : Decoder → Result (Unit {0}) → Tally → Tally
unfolding increment type_name is_expected
recorded d (ok u) t = record t { counter = increment (codes "accepted") t.counter }
recorded d (err e) t = record t {
  counter = increment (type_name e) t.counter;
  unexpected =
      if is_expected e
      then t.unexpected
      else t.unexpected ++ (record { decoder = d; exc = e } ∷ []);
}

-- An iteration: the seed mutated, or random bytes.
pub data Trial : Type 0 where
  mutation : Bytes → Action → Trial
  random_bytes : Bytes → Trial

unfoldable pub input_of : Bytes → Trial → Bytes
unfolding mutate
input_of seed (mutation random action) = mutate random action seed
input_of seed (random_bytes bytes) = bytes

-- The loop of `main` over the iterations of one decoder.
unfoldable pub campaign : Decoder → Bytes → List Trial → Tally → Tally
unfolding recorded input_of attempt
campaign d seed [] t = t
campaign d seed (trial ∷ trials) t =
    campaign d seed trials (recorded d (attempt d (input_of seed trial)) t)
