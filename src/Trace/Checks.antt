-- ===== src/Trace/Checks.antt =====
-- formal/trace_checker.py: `run_all_checks`, with what it draws at random.
use vaulttls.Prelude.{
  not, bytes_eq, ℕ, suc, Bool, true, false, ◌&&◌, none, List, [], ◌∷◌, ◌++◌, ltb, ◌==◌,
  if◌then◌else◌, Bytes, length,
}
use vaulttls.Errors.{is_value_error, Result, ok, err}
use vaulttls.Opaque.Client
use vaulttls.Opaque.Server
use vaulttls.Trace
use vaulttls.Trace.{
  Event, Checker, Outcome, LoginDraws, RegisterDraws, l2_holds, l3_holds, attacker_knows, cred,
  client_finished, server_responded, server_finished, client_started, registration_complete,
  pw_record_stored,
}
use vaulttls.Act.{Act, lift, gets, modify, pure, raise, ◌>>=◌, ◌>>◌}
use vaulttls.Python.Text.{Text, codes}
use vaulttls.Opaque.Crypto.{Crypto}
use vaulttls.Opaque.Server.{OpaqueServer}
use vaulttls.Opaque.Envelope.{pub_bytes}

pub record RunDraws : Type 0 where
  pub srv_key : ℕ
  pub registration : RegisterDraws
  pub first : LoginDraws
  pub replay : LoginDraws
  pub fake_cid : Bytes
  pub ghost : LoginDraws
  pub wrong : LoginDraws
  pub second : LoginDraws
  pub third : LoginDraws

abbrev pub password : Bytes
password = codes "correcthorsebatterystaple"

abbrev pub username : Bytes
username = codes "alice"

-- `check(lemma, holds, reason)`
unfoldable pub check : Text → Bool → Text → Act Checker (Unit {0})
check lemma holds reason = modify (λ s. record s {
  results = s.results ++ (record { lemma = lemma; holds = holds; reason = reason } ∷ []);
})

-- `==` of two events, their names and their arguments.
unfoldable pub event_eq : Event → Event → Bool
event_eq (registration_complete u k) (registration_complete u' k') = bytes_eq u u' && bytes_eq k k'
event_eq (pw_record_stored c) (pw_record_stored c') = bytes_eq c c'
event_eq (client_started u c) (client_started u' c') = bytes_eq u u' && bytes_eq c c'
event_eq (server_responded u c) (server_responded u' c') = bytes_eq u u' && bytes_eq c c'
event_eq (client_finished u c k) (client_finished u' c' k') =
    bytes_eq u u' && (bytes_eq c c' && bytes_eq k k')
event_eq (server_finished u c k) (server_finished u' c' k') =
    bytes_eq u u' && (bytes_eq c c' && bytes_eq k k')
event_eq e e' = false

-- `_log.index(e)`, of an event that is in the log.
unfoldable pub index : Event → List Event → ℕ
unfolding event_eq
index e [] = 0
index e (x ∷ log) = let n = index e log in if event_eq x e then 0 else suc n

-- `all(i > rc_idx for i in prs_idx)`, over the PwRecordStored events of a log.
unfoldable pub all_behind : ℕ → List Event → List Event → Bool
unfolding index
all_behind rc_idx whole [] = true
all_behind rc_idx whole (pw_record_stored c ∷ log) =
    ltb rc_idx (index (pw_record_stored c) whole) && all_behind rc_idx whole log
all_behind rc_idx whole (_ ∷ log) = all_behind rc_idx whole log

-- The loop of L4, over the RegistrationComplete events of a log.
unfoldable pub l4_holds : List Event → List Event → Bool
unfolding index all_behind
l4_holds whole [] = true
l4_holds whole (registration_complete u k ∷ log) =
    all_behind (index (registration_complete u k) whole) whole whole && l4_holds whole log
l4_holds whole (_ ∷ log) = l4_holds whole log

-- The messages of 64 bytes, of which L6 replays the first.
unfoldable pub ke3_events : List Bytes → List Bytes
ke3_events [] = []
ke3_events (msg ∷ channel) =
    let rest = ke3_events channel in if length msg == 64 then msg ∷ rest else rest

-- `except ValueError`, of a call whose value is not used.
unfoldable pub raises_value_error : {A : Type 0} → Result A → Act Checker Bool
raises_value_error (ok a) = pure false
raises_value_error (err e) = if is_value_error e then pure true else raise e

unfoldable pub violations : List Outcome → ℕ
violations [] = 0
violations (o ∷ results) = let n = violations results in if o.holds then n else suc n

module _ {P : Type 0} (C : Crypto P) where
  -- Whether the server refuses an old KE3 in a new login.
  unfoldable pub refuses : LoginDraws → Bytes → Act Checker Bool
  unfolding cred
  refuses d ke3 = do
    started ← lift (Client.login_start C d.r d.c_eph d.nonce_c password)
    srv ← gets (λ s. s.srv)
    users ← gets (λ s. s.users)
    answer ← lift (Server.login_start C d.server srv (cred C username) started.0 users)
    pure (elim (Server.login_finish C answer.1 ke3) [ ok keys ↦ false | err e ↦ true ])

  -- L6
  unfoldable pub replay_rejected : LoginDraws → List Bytes → Act Checker Bool
  unfolding refuses
  replay_rejected d [] = pure true
  replay_rejected d (ke3 ∷ others) = refuses d ke3

  -- L7
  unfoldable pub fake_path_ok : LoginDraws → Bytes → Act Checker Bool
  fake_path_ok d fake_cid = do
    started ← lift (Client.login_start C d.r d.c_eph d.nonce_c (codes "pw"))
    srv ← gets (λ s. s.srv)
    users ← gets (λ s. s.users)
    pure (elim (Server.login_start C d.server srv fake_cid started.0 users) [
      | ok answer ↦ answer.1.is_fake
      | err e ↦ false
    ])

  -- L8
  unfoldable pub wrong_pw_rejected : LoginDraws → Act Checker Bool
  unfolding cred raises_value_error
  wrong_pw_rejected d = do
    started ← lift (Client.login_start C d.r d.c_eph d.nonce_c (codes "WRONGPASSWORD"))
    srv ← gets (λ s. s.srv)
    users ← gets (λ s. s.users)
    answer ← lift (Server.login_start C d.server srv (cred C username) started.0 users)
    raises_value_error (Client.login_finish C started.1 answer.0)

  -- The checks of the channel and of the log behind the first login, whose session key this is.
  unfoldable pub check_first : Bytes → OpaqueServer → Act Checker (Unit {0})
  unfolding check attacker_knows l2_holds l3_holds l4_holds
  check_first sk srv = do
    sk_known ← gets (λ s. attacker_knows sk s.channel)
    check (codes "L1  session_key_secrecy") (not sk_known)
        (codes "Session key found verbatim in channel messages")
    pw_known ← gets (λ s. attacker_knows password s.channel)
    check (codes "L9  password_not_on_wire (login)") (not pw_known)
        (codes "Password bytes found in channel (login phase)")
    agreement_ok ← gets (λ s. l2_holds s.log s.log)
    check (codes "L2  client_to_server_agreement") agreement_ok
        (codes "ServerFinished without exactly one matching ClientFinished")
    c_to_s_ok ← gets (λ s. l3_holds s.log s.log)
    check (codes "L3  server_to_client_agreement") c_to_s_ok
        (codes "ClientFinished without prior ServerResponded")
    reg_auth_ok ← gets (λ s. l4_holds s.log s.log)
    check (codes "L4  registration_authenticity") reg_auth_ok
        (codes "PwRecordStored before RegistrationComplete in event log")
    let long_term = pub_bytes C (C.public_key srv.s_priv)
    revealed ← gets (λ s. attacker_knows sk (s.channel ++ (long_term ∷ [])))
    check (codes "L5  forward_secrecy") (not revealed)
        (codes "Session key derivable from long-term server key + channel data")

  -- The checks that run further logins.
  unfoldable pub check_further : RunDraws → Act Checker (Unit {0})
  unfolding check ke3_events replay_rejected fake_path_ok wrong_pw_rejected
  check_further d = do
    old ← gets (λ s. ke3_events s.channel)
    rejected ← replay_rejected d.replay old
    check (codes "L6  replay_resistance") rejected
        (codes "Replayed KE3 from a previous session was accepted")
    fake_ok ← fake_path_ok d.ghost d.fake_cid
    check (codes "L7  fake_user_path_exists") fake_ok
        (codes "Server crashed or raised on unknown-user login_start")
    wrong_rejected ← wrong_pw_rejected d.wrong
    check (codes "L8  wrong_password_rejected") wrong_rejected
        (codes "login_finish succeeded with wrong password")
    keys1 ← Trace.login C d.second username password
    keys2 ← Trace.login C d.third username password
    check (codes "L10 transcript_binding") (not (bytes_eq keys1.0 keys2.0))
        (codes "Two separate logins produced identical session keys (missing transcript entropy)")

  -- `run_all_checks()`: the number of violations.
  unfoldable pub run_all_checks : RunDraws → Act Checker ℕ
  unfolding check attacker_knows check_first check_further violations
  run_all_checks d = do
    let srv : OpaqueServer = record { s_priv = d.srv_key; pending_oprf_keys = none }
    modify (λ s. record s { log = []; channel = []; srv = srv })
    Trace.register C d.registration username password
    on_wire ← gets (λ s. attacker_knows password s.channel)
    check (codes "L9  password_not_on_wire") (not on_wire)
        (codes "Password bytes found in channel (registration phase)")
    keys ← Trace.login C d.first username password
    check_first keys.0 srv
    check_further d
    gets (λ s. violations s.results)
