-- ===== src/Trace.antt =====
-- formal/trace_checker.py: the event log and the channel, a registration and a login that write
-- them, and the checks of the log.
pub mod Answered
pub mod Checks
pub mod Wrote
pub mod Logs
pub mod Stages
pub mod Further
pub mod Logged
pub mod Report
use vaulttls.Prelude.{
  bytes_eq, ℕ, suc, Bool, true, false, ◌&&◌, ◌||◌, List, [], ◌∷◌, ◌++◌, ◌==◌, if◌then◌else◌, Bytes,
}
use vaulttls.Opaque.Client
use vaulttls.Opaque.Server
use vaulttls.Act.{Act, lift, gets, modify, pure, ◌>>=◌, ◌>>◌}
use vaulttls.Opaque.Server.{Draw, OpaqueServer}
use vaulttls.Opaque.Crypto.{Crypto, Random}
use vaulttls.Storage.{UsersDb}
use vaulttls.Kdf.{hash_bytes}
use vaulttls.Opaque.Envelope.{pub_bytes}
use vaulttls.Login.{context_string}
use vaulttls.Python.Text.{Text}

-- `Event(name, args)`
pub data Event : Type 0 where
  registration_complete : Bytes → Bytes → Event
  pw_record_stored : Bytes → Event
  client_started server_responded : Bytes → Bytes → Event
  client_finished server_finished : Bytes → Bytes → Bytes → Event

-- An entry of `_results`.
pub record Outcome : Type 0 where
  pub lemma : Text
  pub holds : Bool
  pub reason : Text

-- `_log`, `_channel` and `_results`, and the server's object with its users.
pub record Checker : Type 0 where
  pub log : List Event
  pub channel : List Bytes
  pub results : List Outcome
  pub srv : OpaqueServer
  pub users : UsersDb

-- What a registration and a login draw at random, on both sides.
pub record RegisterDraws : Type 0 where
  pub r : ℕ
  pub oprf_key : ℕ
  pub c_priv : ℕ
  pub salt : Random
  pub nonce : Random

pub record LoginDraws : Type 0 where
  pub r : ℕ
  pub c_eph : ℕ
  pub nonce_c : Bytes
  pub server : Draw

unfoldable pub emit : Event → Act Checker (Unit {0})
emit e = modify (λ s. record s { log = s.log ++ (e ∷ []) })

unfoldable pub send : Bytes → Act Checker (Unit {0})
send bytes = modify (λ s. record s { channel = s.channel ++ (bytes ∷ []) })

-- `secret in msg`
unfoldable pub starts : Bytes → Bytes → Bool
starts [] msg = true
starts (x ∷ xs) [] = false
starts (x ∷ xs) (y ∷ ys) = x == y && starts xs ys

unfoldable pub occurs : Bytes → Bytes → Bool
unfolding starts
occurs secret [] = starts secret []
occurs secret (b ∷ msg) = starts secret (b ∷ msg) || occurs secret msg

-- `attacker_knows(secret)`, on the channel.
unfoldable pub attacker_knows : Bytes → List Bytes → Bool
unfolding occurs
attacker_knows secret [] = false
attacker_knows secret (msg ∷ channel) = occurs secret msg || attacker_knows secret channel

module _ {P : Type 0} (C : Crypto P) where
  -- `_cred(username)`
  unfoldable pub cred : Bytes → Bytes
  cred username = hash_bytes C.hash ((context_string ++ username) ∷ [])

  -- `_register(srv, username, password)`
  unfoldable pub register : RegisterDraws → Bytes → Bytes → Act Checker (Unit {0})
  unfolding emit send cred
  register d username password = do
    started ← lift (Client.registration_start C d.r password)
    send started.0
    srv ← gets (λ s. s.srv)
    response ← lift (Server.registration_respond C d.oprf_key srv (cred username) started.0)
    modify (λ s. record s { srv = response.1 })
    send response.0
    upload ← lift (Client.registration_finish C d.c_priv d.salt d.nonce started.1 response.0)
    send upload
    users ← gets (λ s. s.users)
    users' ← lift (Server.registration_store response.1 (cred username) upload users)
    modify (λ s. record s { users = users' })
    emit (registration_complete username (pub_bytes C (C.public_key response.1.s_priv)))
    emit (pw_record_stored (cred username))

  -- `_login(srv, username, password)`: the client's and the server's session key.
  unfoldable pub login : LoginDraws → Bytes → Bytes → Act Checker (Bytes × Bytes)
  unfolding emit send cred
  login d username password = do
    started ← lift (Client.login_start C d.r d.c_eph d.nonce_c password)
    send started.0
    emit (client_started username (cred username))
    srv ← gets (λ s. s.srv)
    users ← gets (λ s. s.users)
    answer ← lift (Server.login_start C d.server srv (cred username) started.0 users)
    send answer.0
    emit (server_responded username (cred username))
    client ← lift (Client.login_finish C started.1 answer.0)
    send client.ke3
    emit (client_finished username (cred username) client.session_key)
    keys ← lift (Server.login_finish C answer.1 client.ke3)
    emit (server_finished username (cred username) keys.0)
    pure (client.session_key, keys.0)

-- How often `e.args[2] == sk` among the ClientFinished events.
unfoldable pub clients_with : Bytes → List Event → ℕ
clients_with sk [] = 0
clients_with sk (client_finished u c k ∷ log) =
    let n = clients_with sk log in if bytes_eq k sk then suc n else n
clients_with sk (_ ∷ log) = clients_with sk log

-- Whether a ServerResponded event has this user and credential.
unfoldable pub responded_to : Bytes → Bytes → List Event → Bool
responded_to user cid [] = false
responded_to user cid (server_responded u c ∷ log) =
    (bytes_eq u user && bytes_eq c cid) || responded_to user cid log
responded_to user cid (_ ∷ log) = responded_to user cid log

-- The loop of L2, over the ServerFinished events of a log.
unfoldable pub l2_holds : List Event → List Event → Bool
unfolding clients_with
l2_holds whole [] = true
l2_holds whole (server_finished u c k ∷ log) = (clients_with k whole == 1) && l2_holds whole log
l2_holds whole (_ ∷ log) = l2_holds whole log

-- The loop of L3, over the ClientFinished events of a log.
unfoldable pub l3_holds : List Event → List Event → Bool
unfolding responded_to
l3_holds whole [] = true
l3_holds whole (client_finished u c k ∷ log) = responded_to u c whole && l3_holds whole log
l3_holds whole (_ ∷ log) = l3_holds whole log
