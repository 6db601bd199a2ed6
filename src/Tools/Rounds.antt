-- ===== src/Tools/Rounds.antt =====
-- tools/benchmark_artifact.py and server.py: the rounds of the benchmark with the server's loop.
use vaulttls.Prelude.{ℕ, zero, suc, ◌≤◌, ◌≡◌, refl, [], ◌++◌, Bytes, length}
use vaulttls.Errors.{ok}
use vaulttls.Record
use vaulttls.Codec.Encode
use vaulttls.Framing
use vaulttls.Framing.{Segment}
use vaulttls.Python.Text.{Text, codes, encode}
use vaulttls.Opaque.Crypto.{Crypto}
use vaulttls.Record.{ct_app_data, DirectionState}

pub encode-echo :
    (text : Text) {message : Bytes}
    → encode text ≡ ok message
    → encode (codes "echo:" ++ text) ≡ ok (codes "echo:" ++ message)
unfolding encode codes
encode-echo text e = rw e refl

module _ {P : Type 0} (C : Crypto P) (message : Bytes) where
  abbrev pub next : Bytes → DirectionState → DirectionState
  next bytes s = (Record.encrypt C.aead ct_app_data bytes s).1

  abbrev answer : Bytes
  answer = codes "echo:" ++ message

  -- The two records of a round, each made, encoded and framed.
  pub record Round (client server : DirectionState) : Type 0 where
    pub number : ℕ
    pub sealed : Bytes
    pub payload : Bytes
    pub request : Bytes
    pub sealed_is : (Record.encrypt C.aead ct_app_data message client).0 ≡ ok (number, sealed)
    pub payload_is : Encode.encode_app_data number sealed ≡ ok payload
    pub request_is : Framing.send_frame payload ≡ ok request
    pub request_fits : length payload ≤ Framing.max_frame
    pub number' : ℕ
    pub sealed' : Bytes
    pub resp : Bytes
    pub reply : Bytes
    pub sealed_is' : (Record.encrypt C.aead ct_app_data answer server).0 ≡ ok (number', sealed')
    pub resp_is : Encode.encode_app_data number' sealed' ≡ ok resp
    pub reply_is : Framing.send_frame resp ≡ ok reply
    pub reply_fits : length resp ≤ Framing.max_frame

  -- As many rounds, from the two sending states on.
  pub data Exchanged : ℕ → DirectionState → DirectionState → Type 0 where
    finished : (client server : DirectionState) → Exchanged zero client server
    one_more :
        {n : ℕ} (client server : DirectionState)
        → Round client server
        → Exchanged n (next message client) (next answer server)
        → Exchanged (suc n) client server

  abbrev pub requests : {n : ℕ} {c s : DirectionState} → Exchanged n c s → Bytes
  requests (finished c s) = []
  requests (one_more c s r rest) = r.request ++ requests rest

  abbrev pub replies : {n : ℕ} {c s : DirectionState} → Exchanged n c s → Bytes
  replies (finished c s) = []
  replies (one_more c s r rest) = r.reply ++ replies rest
