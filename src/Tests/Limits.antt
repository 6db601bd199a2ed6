-- ===== src/Tests/Limits.antt =====
-- The rate limiter and the user database: ratelimit.py, storage.py.
use vaulttls.Prelude.{
  bytes_eq, ◌≤◌, ◌≡◌, refl, Bool, true, false, some, List, [], ◌∷◌, arith, length,
}
use vaulttls.Errors.{ok}
use vaulttls.Dict
use vaulttls.RateLimit.{reset_key, limiter, allow_key, recent, Key}
use vaulttls.RateLimit.History.{
  allow_bound, allow-IsExact, granted, success, no_grants, step, attempt, IsExact, trace, Event,
}
use vaulttls.Storage.{
  decode_record, record_exists, store_opaque_record, load_opaque_record, OpaqueRecord,
}
use vaulttls.Storage.Laws.{load-store_ne, load-store_self, stored}
use vaulttls.Python.Hex.{fromhex, hex}

abbrev alice : Key
alice = (1 ∷ [], 97 ∷ [])

abbrev bob : Key
bob = (1 ∷ [], 98 ∷ [])

-- Three attempts in a window that takes two, one of another key, one when the window has moved on,
-- and one after a reset.
abbrev attempts : List Event
attempts =
    attempt alice 1
    ∷ attempt alice 2
    ∷ attempt alice 3
    ∷ attempt bob 3
    ∷ attempt alice 11
    ∷ success alice
    ∷ attempt alice 12
    ∷ []

answers : List (Event × Bool) → List Bool
answers [] = []
answers ((e, b) ∷ ps) = b ∷ answers ps

limited :
    answers (trace (limiter 10 2) attempts) ≡ true ∷ true ∷ false ∷ true ∷ true ∷ true ∷ true ∷ []
unfolding answers trace step allow_key reset_key Dict.get Dict.put Dict.remove bytes_eq
limited = refl

allow-IsExact_example : IsExact 10 2 no_grants (trace (limiter 10 2) attempts)
allow-IsExact_example = allow-IsExact 10 2 attempts (omega arith)

allow_bound_example :
    length (recent 10 12 (granted no_grants (trace (limiter 10 2) attempts) alice)) ≤ 2
allow_bound_example = allow_bound 10 2 attempts alice 12 (omega arith) (omega arith)

abbrev user : OpaqueRecord
user = record {
  oprf_key = 1 ∷ 255 ∷ [];
  client_pub = 2 ∷ [];
  envelope = 3 ∷ 4 ∷ [];
  credential_id = 171 ∷ [];
}

user_loaded : load_opaque_record (171 ∷ []) (stored user []) ≡ ok (some user)
unfolding load_opaque_record store_opaque_record hex fromhex Dict.get Dict.put bytes_eq
    decode_record
user_loaded = refl

load-store_self_example :
    (load_opaque_record (171 ∷ []) (stored user []) ≡ ok (some user))
    × (record_exists (171 ∷ []) (stored user []) ≡ true)
load-store_self_example = load-store_self user [] (omega arith)

load-store_ne_example :
    (load_opaque_record (172 ∷ []) (stored user []) ≡ load_opaque_record (172 ∷ []) [])
    × (record_exists (172 ∷ []) (stored user []) ≡ record_exists (172 ∷ []) [])
load-store_ne_example =
    load-store_ne user (172 ∷ []) [] (omega arith) (omega arith) (λ p. ground (arith, p))
