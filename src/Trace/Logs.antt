-- ===== src/Trace/Logs.antt =====
-- formal/trace_checker.py: the checks of the log and of the channel behind a registration and a
-- login.
use vaulttls.Prelude.{
  inr, inl, Bool-cases, bytes_eq_refl, bytes_eq, ◌≤◌, ◌≡◌, refl, true, List, [], ◌∷◌, ◌++◌, arith,
  Bytes, length,
}
use vaulttls.Trace.{
  responded_to, clients_with, Event, l2_holds, l3_holds, attacker_knows, client_finished,
  server_responded, server_finished, client_started, registration_complete, pw_record_stored,
}
use vaulttls.Trace.Checks.{event_eq, index, all_behind, ke3_events, l4_holds}

-- The log behind a registration and a login.
abbrev pub first_log : Bytes → Bytes → Bytes → Bytes → Bytes → List Event
first_log user public cid k k' =
    registration_complete user public
    ∷ pw_record_stored cid
    ∷ client_started user cid
    ∷ server_responded user cid
    ∷ client_finished user cid k
    ∷ server_finished user cid k'
    ∷ []

module _ (user public cid k k' : Bytes) where
  abbrev whole : List Event
  whole = first_log user public cid k k'

  pub l2_first : l2_holds whole whole ≡ bytes_eq k k'
  unfolding l2_holds clients_with
  l2_first = elim (Bool-cases (bytes_eq k k')) [
    | inl same ↦ rw same refl
    | inr other ↦ rw other refl
  ]

  pub l3_first : l3_holds whole whole ≡ true
  unfolding l3_holds responded_to
  l3_first = rw (bytes_eq_refl user, bytes_eq_refl cid) refl

  pub l4_first : l4_holds whole whole ≡ true
  unfolding l4_holds all_behind index event_eq
  l4_first = rw (bytes_eq_refl user, bytes_eq_refl public, bytes_eq_refl cid) refl

-- What is on the channel is still there with more on it.
pub attacker_knows-append :
    (secret : Bytes) (channel more : List Bytes)
    → attacker_knows secret channel ≡ true
    → attacker_knows secret (channel ++ more) ≡ true
unfolding attacker_knows
attacker_knows-append secret [] more h = cc
attacker_knows-append secret (msg ∷ channel) more h =
    ground (arith, attacker_knows-append secret channel more)

-- The first message of 64 bytes behind a registration and a login is the KE3.
pub ke3_events_first :
    (request response upload ke1 ke2 ke3 : Bytes)
    → length request ≡ 33
    → length response ≡ 98
    → 65 ≤ length upload
    → 65 ≤ length ke1
    → 65 ≤ length ke2
    → length ke3 ≡ 64
    → ke3_events (request ∷ response ∷ upload ∷ ke1 ∷ ke2 ∷ ke3 ∷ []) ≡ ke3 ∷ []
unfolding ke3_events
ke3_events_first request response upload ke1 ke2 ke3 a b c d e f = ground arith
