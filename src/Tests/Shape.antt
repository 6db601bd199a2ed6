-- ===== src/Tests/Shape.antt =====
-- opaque_adapter.py: the answers to a user who is stored and to one who is not.
use vaulttls.Prelude.{
  big_endian, from_big_endian, IsByte, length-big_endian, All-append, ℕ, zero, suc, ◌+◌, ◌-◌, ◌*◌,
  ◌/◌, ◌%◌, ◌^◌, ◌≤◌, ◌<◌, ◌≡◌, refl, sym, ap, ◌∙◌, subst, ◌≢◌, ◌↔◌, ◌⊎◌, inl, inr, Bool, true,
  false, ◌&&◌, ◌||◌, Option, none, some, List, [], ◌∷◌, ◌++◌, arith, ltb, leb, ◌==◌, if◌then◌else◌,
  Bytes, IsBytes, length, take, drop,
}
use vaulttls.Errors.{Result, ok}
use vaulttls.Opaque.Server
use vaulttls.Tests.Echo.{padded_stub}
use vaulttls.Opaque.Runs.{CryptoLaws}
use vaulttls.Kdf.{zeros}
use vaulttls.Opaque.Envelope.{derive_env_key, pub_bytes, priv_bytes, envelope_seal}
use vaulttls.Storage.{OpaqueRecord}
use vaulttls.Storage.Laws.{stored, IsRecord}
use vaulttls.Opaque.Server.{Draw, ServerState}
use vaulttls.Python.{first, to_bytes, struct_pack}
use vaulttls.Opaque.Shape.{length-login_start}
use vaulttls.Tests.Sound.{zeros-IsBytes}
use vaulttls.Tests.Stubs.{adapter, draws, value_or}
use vaulttls.Tests.Keys.{length-zeros, padded-AeadLaws}
use vaulttls.Opaque.Oprf.{ksf}
use vaulttls.Opaque.Curve.{p256_scalar_mult}

padded_stub-CryptoLaws : CryptoLaws padded_stub
padded_stub-CryptoLaws = record {
  mac_length = λ k m. refl;
  point_length = λ p. length-big_endian 65 p;
}

abbrev envelope : Bytes
envelope = 1 ∷ zeros 59 ++ (3 ∷ (zeros 64 ++ (7 ∷ zeros 16)))

envelope_sealed : envelope_seal padded_stub zeros zeros (zeros 64) 3 7 ≡ ok envelope
unfolding envelope_seal priv_bytes pub_bytes ksf derive_env_key to_bytes big_endian
envelope_sealed = refl

envelope-IsBytes : IsBytes envelope
envelope-IsBytes =
    All-append IsByte (1 ∷ zeros 59) (3 ∷ (zeros 64 ++ (7 ∷ zeros 16)))
      (omega arith, zeros-IsBytes 59)
      (
        omega arith,
        All-append IsByte (zeros 64) (7 ∷ zeros 16) (zeros-IsBytes 64)
            (omega arith, zeros-IsBytes 16),
      )

abbrev known : OpaqueRecord
known = record {
  oprf_key = 1 ∷ [];
  client_pub = zeros 65;
  envelope = envelope;
  credential_id = zeros 64;
}

known-IsRecord : IsRecord known
known-IsRecord = record {
  oprf_key_bytes = (omega arith, tt);
  client_pub_bytes = zeros-IsBytes 65;
  envelope_bytes = envelope-IsBytes;
  credential_id_bytes = zeros-IsBytes 64;
}

abbrev answer_known : Result (Bytes × ServerState)
answer_known = Server.login_start padded_stub draws adapter (zeros 64) (zeros 162) (stored known [])

abbrev answer_unknown : Result (Bytes × ServerState)
answer_unknown = Server.login_start padded_stub draws adapter (zeros 64) (zeros 162) []

abbrev no_answer : Bytes × ServerState
no_answer = (
  [],
  record {
    keys = record { session_key = []; mac_key = [] };
    transcript = [];
    server_mac = [];
    is_fake = false;
  },
)

pair_known : Bytes × ServerState
unfolding Server.login_start
pair_known = value_or answer_known no_answer

pair_unknown : Bytes × ServerState
unfolding Server.login_start
pair_unknown = value_or answer_unknown no_answer

known_answered : answer_known ≡ ok pair_known
unfolding pair_known struct_pack to_bytes from_big_endian p256_scalar_mult first big_endian
    vaulttls.Dict.get Server.login_start vaulttls.Storage.store_opaque_record vaulttls.Dict.put
    vaulttls.Prelude.bytes_eq vaulttls.Python.Hex.hex vaulttls.Storage.decode_record
    vaulttls.Python.Hex.fromhex vaulttls.Kdf.hash_bytes vaulttls.Storage.load_opaque_record
known_answered = refl

unknown_answered : answer_unknown ≡ ok pair_unknown
unfolding pair_unknown struct_pack to_bytes from_big_endian p256_scalar_mult first big_endian
    vaulttls.Dict.get Server.login_start vaulttls.Storage.store_opaque_record vaulttls.Dict.put
    vaulttls.Prelude.bytes_eq vaulttls.Python.Hex.hex vaulttls.Storage.decode_record
    vaulttls.Python.Hex.fromhex vaulttls.Kdf.hash_bytes vaulttls.Storage.load_opaque_record
unknown_answered = refl

length-login_start_example :
    (length pair_known.0 ≡ length pair_unknown.0)
    × (pair_known.1.is_fake ≡ false)
    × (pair_unknown.1.is_fake ≡ true)
unfolding vaulttls.Storage.record_exists vaulttls.Dict.has
length-login_start_example =
    length-login_start padded_stub padded_stub-CryptoLaws padded-AeadLaws known zeros zeros
      (zeros 64) 3 7 [] [] draws draws adapter adapter (zeros 162) (zeros 162) (zeros 64)
      known-IsRecord length-zeros length-zeros envelope_sealed refl length-zeros length-zeros
      length-zeros length-zeros length-zeros known_answered unknown_answered
