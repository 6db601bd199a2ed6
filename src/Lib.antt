-- ===== src/Lib.antt =====
-- VAULTTLS: an OPAQUE login bound to a TLS 1.3 style key schedule, in Python. A client and a server
-- exchange framed messages (client.py, server.py over transcript.py); codec.py writes and reads
-- them; server_config.py carries the signed parameters; pki.py the certificates; opaque_adapter.py
-- the password protocol; tls13_kdf.py turns its session key and the hash of the transcript into
-- traffic secrets; record.py encrypts the application data; ratelimit.py and storage.py are the
-- server's state.
--
-- Which file models what:
--   Codec         codec.py: `Messages` the Parsed* classes, `Reader` the class _R, `Encode` and
--                 `Decode` the functions of those names. Reading is a parser on the reader's state.
--   ServerConfig  server_config.py.
--   Framing       transcript.py. The socket is the list of segments that `recv` will return; a
--                 segment may be a timeout, and the end of the list is a closed connection.
--   Kdf           tls13_kdf.py. SHA-512, HMAC and HKDF-Expand are the record `HashSuite`.
--   Record        record.py. ChaCha20-Poly1305 is the record `Aead`.
--   RateLimit     ratelimit.py. `allow` takes the time of the clock as an argument.
--   Storage       storage.py. The JSON file is its dictionary; `Disk` has the file, the temporary
--                 file and the lock, with any interleaving of threads and a process that may die.
--   Pki           pki.py: certificate chains and the checks of a chain; `Issue` and `Files` have the
--                 making of the certificates and bootstrap_pki. X.509, Ed25519 and the clock are
--                 parameters.
--   Opaque        opaque_adapter.py: P-256 arithmetic, the OPRF, the envelope and the messages. The
--                 package's calls are parameters.
--   Login, Chat   client.py: the handshake of the client, and the message behind it. What it draws
--                 at random is an argument.
--   Register      register_user.py: the client's side of a registration.
--   Session       server.py: one connection of the server. What of a frame `sendall` sends, and whether
--                 it raises, is the connection's `fault`. `Act` is its monad: a method returns or
--                 raises, and the changed `World` comes back either way. `render` is Python's text
--                 of an exception.
--   Agreement     client.py and server.py together.
--   Trace         formal/trace_checker.py: the event log, a registration and a login that write it;
--                 `Checks` is its run of all checks. What it draws at random is an argument.
--   Tools         tools/fuzz_codec.py: its campaign; tools/benchmark_artifact.py: the files that it keeps,
--                 as tools/measure_fake_user_timing.py does, and its rounds of application data.
--   Python        the operations of Python that these files use: bytes, struct, text, hex.
--   Errors        the exceptions, one constructor for each place that raises, and `Result`.
--
-- How the code is read. A byte is a number below 256 and a byte string a list of numbers; an `int` of
-- the source is a natural number, since all of them are sizes, times or bytes. Times are whole ticks.
-- Assertions are on. A call that raises returns `err`, and an operation on an object returns the new
-- object with it; the text of an exception's message is not rendered, its values are kept. A loop is
-- recursion on its input, or on fuel: `recv_loop` has `n + 1` rounds, since each round that goes on
-- adds a byte; `app_loop` one for each byte to come and one more, with the end of its fuel as a result
-- of its own, and `decode_certs` one for each byte, since each round takes some; `scalar_loop` as many
-- as its scalar, which each round halves.
--
-- Not modelled: the threads of the server, each of which runs one session; `Session` has one session
-- on a store whose calls are whole and do not fail; `Storage.Disk` has their steps and failures, with
-- one store and one lock: two threads that both make a store in users_db(), each with a lock of its
-- own, are not modelled. A `sendall` of a client or of a tool sends its whole frame. Listening,
-- connecting and command lines; what the tools measure and report, which are times and statistics of
-- floating point; the tests.
pub mod Prelude
pub mod Errors
pub mod Python
pub mod Codec
pub mod Dict
pub mod RateLimit
pub mod ServerConfig
pub mod Storage
pub mod Kdf
pub mod Record
pub mod Framing
pub mod Opaque
pub mod Pki
pub mod Login
pub mod Act
pub mod Session
pub mod Register
pub mod Chat
pub mod Agreement
pub mod Trace
pub mod Tools
pub mod Tests
