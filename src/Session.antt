-- ===== src/Session.antt =====
-- server.py: one connection of the server, from the first frame to the close.
pub mod State
pub mod Hello
pub mod Handshake
pub mod Echo
pub mod Runs
pub mod Safety
pub mod Sound
pub mod Entries
pub mod Keeps
pub mod Steady
pub mod Left
pub mod Loop
pub mod Near
pub mod Uncut
pub mod Whole
use vaulttls.Opaque.Server
use vaulttls.Record
use vaulttls.Act.{pure, raise, lift, gets, modify, try_except, ◌>>=◌, ◌>>◌, Act}
use vaulttls.Errors.{is_value_error, Class}
use vaulttls.Framing
use vaulttls.Framing.Exact
use vaulttls.Codec.Encode
use vaulttls.Prelude.{
  not, ℕ, zero, suc, ◌+◌, ◌-◌, ◌*◌, ◌/◌, ◌%◌, ◌^◌, ◌≤◌, ◌<◌, ◌≡◌, refl, sym, ap, ◌∙◌, subst, ◌≢◌,
  ◌↔◌, ◌⊎◌, inl, inr, Bool, true, false, ◌&&◌, ◌||◌, Option, none, some, List, [], ◌∷◌, ◌++◌, arith,
  ltb, leb, ◌==◌, if◌then◌else◌, Bytes, IsBytes, length, take, drop,
}
use vaulttls.Errors.{external, peer_closed, Exc, Result, ok, err}
use vaulttls.Framing.{Segment}
use vaulttls.Opaque.Server.{ServerState, Draw}
use vaulttls.Python.Text.{decode_replace, encode, codes, Text}
use vaulttls.RateLimit.{reset, allow, RateLimiter}
use vaulttls.Storage.{UsersDb}
use vaulttls.Codec.Messages.{tag_client_hello, tag_close, ParsedClientHello, alert_fatal}
use vaulttls.Opaque.Crypto.{Crypto}
use vaulttls.Pki.{X509}
use vaulttls.Session.Hello.{reg_version, build_signed_server_hello, opaque_of, ServerSession}
use vaulttls.Kdf.{digest, derive_traffic_secrets, Transcript, empty_transcript, add}
use vaulttls.Record.{direction_state, ct_app_data, DirectionState}
use vaulttls.Codec.Decode.{decode_client_hello, decode_app_data, decode_client_finish}
use vaulttls.Codec.Encode.{encode_close}
use vaulttls.Python.{first}
use vaulttls.Python.Hex.{hex}
use vaulttls.Session.Handshake.{handle_registration, login_handshake}
use vaulttls.Session.State.{World, receive, Outside, alert}
use vaulttls.Session.Echo.{app_loop}

module _ {P Cert : Type 0} (C : Crypto P) (X : X509 Cert) (render : Exc → Text)
    (self : ServerSession Cert) where
  -- `_handle_login(ch, raw_client_hello, ip)`
  unfoldable pub handle_login : Outside → ParsedClientHello → Bytes → Act World (Unit {0})
  unfolding login_handshake app_loop
  handle_login o ch raw = do
    both ← login_handshake C X render self o ch raw
    fuel ← gets (λ w. suc (length (Exact.total w.incoming)))
    elim both [
      | none ↦ pure tt
      | some directions ↦ (do exit ← app_loop C render fuel directions; pure tt)
    ]

  -- The `try` of `run`.
  unfoldable pub handle : Outside → Act World (Unit {0})
  unfolding alert receive handle_registration handle_login
  handle o = do
    raw ← receive
    tag ← lift (first raw)
    if tag == tag_client_hello
        then (do
          ch ← lift (decode_client_hello raw)
          if ch.version == reg_version
              then handle_registration C X self o ch raw
              else handle_login o ch raw)
        else alert (codes "Expected ClientHello, got tag 0x" ++ hex (tag ∷ []))

  -- `run()`: whatever was raised, the connection is closed.
  unfoldable pub run : Outside → World → World
  unfolding handle
  run o w = record (handle o w).1 { closed = true }
