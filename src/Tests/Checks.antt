-- ===== src/Tests/Checks.antt =====
-- formal/trace_checker.py: a run of all checks, with stand-ins for the packages.
use vaulttls.Prelude.{
  big_endian, from_big_endian, ℕ, zero, suc, ◌+◌, ◌-◌, ◌*◌, ◌/◌, ◌%◌, ◌^◌, ◌≤◌, ◌<◌, ◌≡◌, refl, sym,
  ap, ◌∙◌, subst, ◌≢◌, ◌↔◌, ◌⊎◌, inl, inr, Bool, true, false, ◌&&◌, ◌||◌, Option, none, some, List,
  [], ◌∷◌, ◌++◌, arith, ltb, leb, ◌==◌, if◌then◌else◌, Bytes, IsBytes, length, take, drop,
}
use vaulttls.Errors.{Result, ok}
use vaulttls.Opaque.Client
use vaulttls.Opaque.Server
use vaulttls.Trace
use vaulttls.Trace.{Checker, LoginDraws, RegisterDraws}
use vaulttls.Kdf.{zeros}
use vaulttls.Trace.Checks.{run_all_checks, RunDraws}
use vaulttls.Tests.Stubs.{stub-CryptoLaws, stub, draws, value_or, adapter}
use vaulttls.Trace.Report.{run_all_checks_lem, Reported}
use vaulttls.Python.{first, to_bytes, struct_pack}
use vaulttls.Opaque.Curve.{p256_scalar_mult}

abbrev login_with : ℕ → LoginDraws
login_with n = record { r = 1; c_eph = 9; nonce_c = n ∷ zeros 31; server = draws }

abbrev run_draws : RunDraws
run_draws = record {
  srv_key = 7;
  registration = record { r = 1; oprf_key = 1; c_priv = 3; salt = zeros; nonce = zeros };
  first = login_with 0;
  replay = login_with 1;
  fake_cid = 1 ∷ zeros 63;
  ghost = login_with 2;
  wrong = login_with 3;
  second = login_with 4;
  third = login_with 5;
}

abbrev no_results : Checker
no_results = record { log = []; channel = []; results = []; srv = adapter; users = [] }

whole_run : Result ℕ × Checker
unfolding run_all_checks
whole_run = run_all_checks stub run_draws no_results

found : ℕ
found = value_or whole_run.0 0

whole_run_lem : run_all_checks stub run_draws no_results ≡ (ok found, whole_run.1)
unfolding whole_run found run_all_checks Trace.register Trace.login Trace.send Trace.emit Trace.cred
    struct_pack to_bytes from_big_endian p256_scalar_mult first big_endian vaulttls.Dict.get
    Server.login_start Server.login_finish Client.login_start Client.login_finish
    vaulttls.Storage.store_opaque_record vaulttls.Dict.put vaulttls.Prelude.bytes_eq
    vaulttls.Python.Hex.hex vaulttls.Storage.decode_record vaulttls.Python.Hex.fromhex
    vaulttls.Kdf.hash_bytes Server.registration_respond Server.registration_store
    Client.registration_start Client.registration_finish vaulttls.Trace.Checks.check_further
    vaulttls.Trace.Checks.check_first vaulttls.Trace.Checks.replay_rejected
    vaulttls.Trace.Checks.refuses vaulttls.Trace.Checks.fake_path_ok
    vaulttls.Trace.Checks.wrong_pw_rejected vaulttls.Trace.Checks.raises_value_error
    vaulttls.Trace.Checks.ke3_events
whole_run_lem = refl

run_all_checks_lem_example : Reported stub run_draws no_results found whole_run.1
run_all_checks_lem_example =
    run_all_checks_lem stub stub-CryptoLaws run_draws no_results refl refl refl whole_run_lem
