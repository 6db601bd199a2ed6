-- ===== src/Tests/Sound.antt =====
-- server.py: the registration of a client, for what holds of the server's state.
use vaulttls.Session.Whole.{run-Uncut}
use vaulttls.Prelude.{
  none, drop, ◌≡◌, take, List, IsByte, All-append, ℕ, zero, suc, refl, false, [], ◌∷◌, ◌++◌, arith,
  Bytes, IsBytes,
}
use vaulttls.Session
use vaulttls.Framing.Exact
use vaulttls.Framing.{Segment, chunk}
use vaulttls.Kdf.{zeros}
use vaulttls.Session.State.{World}
use vaulttls.Session.Sound.{all_whole, no_frames, IsSound}
use vaulttls.Tests.Stubs.{stub}
use vaulttls.Tests.Handshake.{outside, session, local_certs}
use vaulttls.Session.Steady.{run-IsSound}
use vaulttls.RateLimit.{limiter}

pub zeros-IsBytes : (n : ℕ) → IsBytes (zeros n)
zeros-IsBytes zero = tt
zeros-IsBytes (suc n) = (omega arith, zeros-IsBytes n)

abbrev hello_frame : Bytes
hello_frame = 0 ∷ 0 ∷ 0 ∷ 165 ∷ 1 ∷ 2 ∷ zeros 64 ++ (zeros 32 ++ (0 ∷ 65 ∷ zeros 65))

abbrev finish_frame : Bytes
finish_frame = 0 ∷ 0 ∷ 0 ∷ 210 ∷ 3 ∷ 0 ∷ 207 ∷ zeros 207

hello_frame-IsBytes : IsBytes hello_frame
hello_frame-IsBytes = (
  omega arith,
  (
    omega arith,
    (
      omega arith,
      (
        omega arith,
        (
          omega arith,
          (
            omega arith,
            All-append IsByte (zeros 64) (zeros 32 ++ (0 ∷ 65 ∷ zeros 65)) (zeros-IsBytes 64) (
                All-append IsByte (zeros 32) (0 ∷ 65 ∷ zeros 65) (zeros-IsBytes 32)
                  (omega arith, (omega arith, zeros-IsBytes 65))),
          ),
        ),
      ),
    ),
  ),
)

finish_frame-IsBytes : IsBytes finish_frame
finish_frame-IsBytes = (
  omega arith,
  (
    omega arith,
    (omega arith, (omega arith, (omega arith, (omega arith, (omega arith, zeros-IsBytes 207))))),
  ),
)

abbrev empty_server : World
empty_server = record {
  incoming = chunk hello_frame ∷ chunk finish_frame ∷ [];
  sent = [];
  fault = λ before frame. none;
  closed = false;
  limiter = limiter 60 10;
  users = [];
}

empty_server-IsSound : IsSound empty_server
empty_server-IsSound = record {
  incoming_bytes = (hello_frame-IsBytes, (finish_frame-IsBytes, tt));
  sent_frames = all_whole (no_frames refl);
  users_good = tt;
  attempts_bounded = tt;
}

run-IsSound_example : IsSound (Session.run stub local_certs (λ e. []) session outside empty_server)
run-IsSound_example =
    run-IsSound stub local_certs (λ e. []) session outside empty_server empty_server-IsSound

-- The two frames in other pieces: two bytes of the first header, and the rest.
abbrev recut : List Segment
recut = chunk (take 2 hello_frame) ∷ chunk (drop 2 hello_frame ++ finish_frame) ∷ []

run-Uncut_example :
    (later : List Segment) × (Session.run stub local_certs
        (λ e. [])
        session
        outside
        (record empty_server { incoming = recut })
      ≡ record (Session.run stub local_certs (λ e. []) session outside empty_server) {
        incoming = later;
      })
    × (Exact.total later
        ≡ Exact.total
            (Session.run stub local_certs (λ e. []) session outside empty_server).incoming)
run-Uncut_example =
    run-Uncut stub local_certs (λ e. []) session outside empty_server recut tt tt refl
