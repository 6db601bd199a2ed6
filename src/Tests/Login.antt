-- ===== src/Tests/Login.antt =====
-- A login with stand-ins for the cryptographic packages: opaque_adapter.py.
use vaulttls.Opaque.Client
use vaulttls.Opaque.Server
use vaulttls.Prelude.{
  from_big_endian, big_endian, length-big_endian, ℕ, zero, suc, ◌+◌, ◌-◌, ◌*◌, ◌/◌, ◌%◌, ◌^◌, ◌≤◌,
  ◌<◌, ◌≡◌, refl, sym, ap, ◌∙◌, subst, ◌≢◌, ◌↔◌, ◌⊎◌, inl, inr, Bool, true, false, ◌&&◌, ◌||◌,
  Option, none, some, List, [], ◌∷◌, ◌++◌, arith, ltb, leb, ◌==◌, if◌then◌else◌, Bytes, IsBytes,
  length, take, drop,
}
use vaulttls.Errors.{unknown_user, ok, err}
use vaulttls.Storage.{
  decode_record, store_opaque_record, record_exists, load_opaque_record, OpaqueRecord,
}
use vaulttls.Opaque.Server.{ServerState, OpaqueServer, Draw}
use vaulttls.Opaque.Client.{LoginResult, LoginState}
use vaulttls.Opaque.Oprf.{try_flags, hash_rounds, hash_to_curve, oprf_blind}
use vaulttls.Kdf.{zeros}
use vaulttls.Opaque.Curve.{p256_scalar_mult}
use vaulttls.Python.{first, to_bytes, struct_pack}
use vaulttls.Opaque.Agreement.{login_finish_unknown, login-agree, RunsCollide}
use vaulttls.Storage.Laws.{stored}
use vaulttls.Python.Hex.{fromhex, hex}
use vaulttls.Tests.Stubs.{adapter, stub-CryptoLaws, draws, stub, value_or}

abbrev user : OpaqueRecord
user = record {
  oprf_key = 1 ∷ [];
  client_pub = zeros 65;
  envelope = 1 ∷ zeros 141;
  credential_id = 171 ∷ [];
}

no_start : Bytes × LoginState
no_start =
    ([], record { blind = 0; password = []; c_eph_priv = []; c_eph_pub = []; nonce_c = []; m = [] })

started : Bytes × LoginState
started = value_or (Client.login_start stub 1 9 (zeros 32) (112 ∷ 119 ∷ [])) no_start

started_lem : Client.login_start stub 1 9 (zeros 32) (112 ∷ 119 ∷ []) ≡ ok (started.0, started.1)
unfolding started no_start Client.login_start oprf_blind hash_to_curve hash_rounds try_flags
    p256_scalar_mult struct_pack to_bytes from_big_endian first big_endian
started_lem = refl

no_answer : Bytes × ServerState
no_answer = (
  [],
  record {
    keys = record { session_key = []; mac_key = [] };
    transcript = [];
    server_mac = [];
    is_fake = true;
  },
)

answered : Bytes × ServerState
answered =
    value_or (Server.login_start stub draws adapter (171 ∷ []) started.0 (stored user [])) no_answer

answered_lem :
    Server.login_start stub draws adapter (171 ∷ []) started.0 (stored user [])
    ≡ ok (answered.0, answered.1)
unfolding answered no_answer started no_start Client.login_start oprf_blind hash_to_curve
    hash_rounds try_flags p256_scalar_mult Server.login_start load_opaque_record store_opaque_record
    struct_pack to_bytes from_big_endian first big_endian decode_record hex fromhex
    vaulttls.Dict.get vaulttls.Dict.put vaulttls.Prelude.bytes_eq
answered_lem = refl

answered_real : answered.1.is_fake ≡ false
unfolding answered no_answer started no_start Client.login_start oprf_blind hash_to_curve
    hash_rounds try_flags p256_scalar_mult Server.login_start load_opaque_record store_opaque_record
    struct_pack to_bytes from_big_endian first big_endian decode_record hex fromhex
    vaulttls.Dict.get vaulttls.Dict.put vaulttls.Prelude.bytes_eq
answered_real = refl

no_result : LoginResult
no_result = record { session_key = []; export_key = []; ke3 = [] }

finished : LoginResult
finished = value_or (Client.login_finish stub started.1 answered.0) no_result

finished_lem : Client.login_finish stub started.1 answered.0 ≡ ok finished
unfolding finished no_result answered no_answer started no_start Client.login_start oprf_blind
    hash_to_curve hash_rounds try_flags p256_scalar_mult Server.login_start load_opaque_record
    store_opaque_record Client.login_finish struct_pack to_bytes from_big_endian first big_endian
    decode_record hex fromhex vaulttls.Dict.get vaulttls.Dict.put vaulttls.Prelude.bytes_eq
finished_lem = refl

login-agree_example :
    (Server.login_finish stub answered.1 finished.ke3
      ≡ ok (finished.session_key, finished.export_key))
    ⊎ RunsCollide stub 1 9 (zeros 32) (112 ∷ 119 ∷ []) draws adapter (171 ∷ []) (stored user [])
login-agree_example =
    login-agree stub stub-CryptoLaws 1 9 (zeros 32) (112 ∷ 119 ∷ []) draws adapter (171 ∷ [])
      (stored user []) refl refl started_lem answered_lem answered_real finished_lem

unanswered : Bytes × ServerState
unanswered = value_or (Server.login_start stub draws adapter (171 ∷ []) started.0 []) no_answer

unanswered_lem :
    Server.login_start stub draws adapter (171 ∷ []) started.0 [] ≡ ok (unanswered.0, unanswered.1)
unfolding unanswered no_answer started no_start Client.login_start oprf_blind hash_to_curve
    hash_rounds try_flags p256_scalar_mult Server.login_start load_opaque_record struct_pack
    to_bytes from_big_endian first big_endian hex vaulttls.Dict.get
unanswered_lem = refl

no_user : record_exists (171 ∷ []) [] ≡ false
unfolding record_exists hex vaulttls.Dict.has
no_user = refl

login_finish_unknown_example : Server.login_finish stub unanswered.1 (zeros 64) ≡ err unknown_user
login_finish_unknown_example =
    login_finish_unknown stub draws adapter (171 ∷ []) started.0 (zeros 64) [] no_user
      unanswered_lem
