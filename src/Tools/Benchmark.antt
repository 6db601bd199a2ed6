-- ===== src/Tools/Benchmark.antt =====
-- tools/benchmark_artifact.py: the rounds of application data behind a login.
use vaulttls.Prelude.{bytes_eq, ℕ, zero, suc, List, [], ◌∷◌, ◌++◌, Bytes}
use vaulttls.Errors.{assertion, guard, Result, ok, ◌>>=◌, ◌>>◌}
use vaulttls.Record
use vaulttls.Codec.Encode
use vaulttls.Framing
use vaulttls.Framing.{Segment}
use vaulttls.Opaque.Crypto.{Crypto}
use vaulttls.Record.{direction_state, ct_app_data, DirectionState}
use vaulttls.Kdf.{TrafficSecrets}
use vaulttls.Codec.Encode.{encode_close, encode_app_data}
use vaulttls.Codec.Decode.{decode_app_data}
use vaulttls.Python.Text.{codes}

-- What the rounds sent, and what is still to come.
pub record Benched : Type 0 where
  pub sent : Bytes
  pub later : List Segment

-- `b"A" * message_size`
unfoldable pub letters : ℕ → Bytes
letters zero = []
letters (suc n) = 65 ∷ letters n

module _ {P : Type 0} (C : Crypto P) where
  -- The loop over `app_rounds`, with `send_state` and `recv_state`.
  unfoldable pub echo_rounds :
      ℕ → Bytes → DirectionState × DirectionState → List Segment → Result Benched
  echo_rounds zero message both incoming = ok (record { sent = []; later = incoming })
  echo_rounds (suc n) message (send_state, recv_state) incoming = do
    numbered ← (Record.encrypt C.aead ct_app_data message send_state).0
    app_data ← Encode.encode_app_data numbered.0 numbered.1
    request ← Framing.send_frame app_data
    frame ← Framing.recv_frame incoming
    parsed ← decode_app_data frame.0
    let opened = Record.decrypt C.aead ct_app_data parsed.seq parsed.ciphertext recv_state
    plaintext ← opened.0
    guard (bytes_eq plaintext (codes "echo:" ++ message)) (assertion "Unexpected echo payload")
    rest ←
        echo_rounds n message ((Record.encrypt C.aead ct_app_data message send_state).1, opened.1)
          frame.1
    ok (record { sent = request ++ rest.sent; later = rest.later })

  -- `_benchmark_login_and_app` behind `client_login`: the bytes that it sends.
  unfoldable pub benchmark_app : TrafficSecrets → ℕ → ℕ → List Segment → Result Bytes
  unfolding echo_rounds
  benchmark_app secrets app_rounds message_size incoming = do
    send_state ← direction_state C.hash secrets.client_app
    recv_state ← direction_state C.hash secrets.server_app
    benched ← echo_rounds app_rounds (letters message_size) (send_state, recv_state) incoming
    last ← Framing.send_frame encode_close
    ok (benched.sent ++ last)
