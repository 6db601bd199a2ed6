-- ===== src/Session/State.antt =====
-- server.py: what a session changes, and its sending and receiving.
use vaulttls.Act.{pure, lift, try_except, ◌>>=◌, Act}
use vaulttls.Errors.{Class}
use vaulttls.Framing
use vaulttls.Codec.Encode
use vaulttls.Prelude.{take, Option, some, none, ℕ, Bool, true, false, List, ◌++◌, Bytes}
use vaulttls.Errors.{external, peer_closed, Exc, ok, err}
use vaulttls.Framing.{Segment}
use vaulttls.Opaque.Server.{Draw}
use vaulttls.Python.Text.{Text}
use vaulttls.RateLimit.{RateLimiter}
use vaulttls.Storage.{UsersDb}
use vaulttls.Codec.Messages.{alert_fatal}
use vaulttls.Codec.Encode.{encode_close}

-- What a session can change: what it still has to receive, what it sent, whether it closed its
-- connection, the rate limiter and the user database. Which calls of `sendall` fail is given: `fault`
-- says, behind what was sent and for a frame, how many bytes of it go out and what is raised.
pub record World : Type 0 where
  pub incoming : List Segment
  pub sent : Bytes
  pub fault : Bytes → Bytes → Option (ℕ × Exc)
  pub closed : Bool
  pub limiter : RateLimiter
  pub users : UsersDb

-- What the session reads from outside: the server's nonce, the OPRF key of a registration, what a
-- login draws, the limiter's clock and the time in seconds.
pub record Outside : Type 0 where
  pub server_nonce : Bytes
  pub oprf_key : ℕ
  pub draw : Draw
  pub monotonic : ℕ
  pub seconds : ℕ

-- `sock.sendall(frame)`, as it is documented: all of the frame is sent, or some part of it and an
-- exception is raised.
unfoldable pub sendall : Bytes → Act World (Unit {0})
sendall frame w = elim (w.fault w.sent frame) [
  | none ↦ (ok tt, record w { sent = w.sent ++ frame })
  | some (n, e) ↦ (err e, record w { sent = w.sent ++ take n frame })
]

-- `send_frame(self.conn, payload)`
unfoldable pub send : Bytes → Act World (Unit {0})
unfolding sendall
send payload = do frame ← lift (Framing.send_frame payload); sendall frame

-- `recv_frame(self.conn)`. After an error the connection is not read again.
unfoldable pub receive : Act World Bytes
receive w = elim (Framing.recv_frame w.incoming) [
  | ok (payload, later) ↦ (ok payload, record w { incoming = later })
  | err e ↦ (err e, w)
]

-- `_alert(msg)`
unfoldable pub alert : Text → Act World (Unit {0})
unfolding send
alert msg =
    try_except (do frame ← lift (Encode.encode_alert alert_fatal msg); send frame) (λ e. pure tt)

-- `except ConnectionError`
abbrev pub is_connection_error : Exc → Bool
is_connection_error (peer_closed got n) = true
is_connection_error (external Class.connection_class text) = true
is_connection_error _ = false
