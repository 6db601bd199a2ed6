-- ===== src/Tests/Events.antt =====
-- formal/trace_checker.py: a login of a registered user, with stand-ins for the packages.
use vaulttls.Prelude.{refl, [], ◌∷◌, Bytes}
use vaulttls.Errors.{Result}
use vaulttls.Trace
use vaulttls.Trace.{l3_holds, LoginDraws, Checker}
use vaulttls.Tests.Stubs.{draws, stub, adapter}
use vaulttls.Kdf.{zeros}
use vaulttls.Trace.Answered.{Answered}
use vaulttls.Storage.Laws.{stored}
use vaulttls.Trace.Answered.{login-Answered}

abbrev checker : Checker
checker = record {
  log = [];
  channel = [];
  results = [];
  srv = adapter;
  users =
      stored
        (record {
          oprf_key = 1 ∷ [];
          client_pub = zeros 65;
          envelope = 1 ∷ zeros 141;
          credential_id = zeros 64;
        })
        [];
}

abbrev login_draws : LoginDraws
login_draws = record { r = 1; c_eph = 9; nonce_c = zeros 32; server = draws }

abbrev alice : Bytes
alice = 97 ∷ []

first_login : Result (Bytes × Bytes) × Checker
unfolding Trace.login
first_login = Trace.login stub login_draws alice alice checker

no_event_yet : Answered checker
unfolding l3_holds
no_event_yet = refl

login-Answered_example : Answered first_login.1
unfolding first_login
login-Answered_example = login-Answered stub login_draws alice alice checker no_event_yet
