-- ===== src/Session/Echo.antt =====
-- server.py: the loop that answers the application data.
use vaulttls.Record
use vaulttls.Act.{pure, raise, lift, try_except, ◌>>=◌, ◌>>◌, Act}
use vaulttls.Codec.Encode
use vaulttls.Prelude.{not, ℕ, zero, suc, ◌||◌, Option, none, some, ◌++◌, ◌==◌, if◌then◌else◌, Bytes}
use vaulttls.Errors.{Exc, ok, err}
use vaulttls.Python.Text.{decode_replace, encode, codes, Text}
use vaulttls.Codec.Messages.{tag_close}
use vaulttls.Opaque.Crypto.{Crypto}
use vaulttls.Record.{direction_state, ct_app_data, DirectionState}
use vaulttls.Codec.Decode.{decode_app_data}
use vaulttls.Codec.Encode.{encode_close}
use vaulttls.Python.{first}
use vaulttls.Session.State.{is_connection_error, World, receive, alert, send}

-- How `_app_loop` left off without an exception: by a `break`, or because the fuel ran out.
pub data LoopExit : Type 0 where
  after_break : LoopExit
  out_of_rounds : LoopExit

module _ {P : Type 0} (C : Crypto P) (render : Exc → Text) where
  -- The rest of a round of `_app_loop`, behind the decryption: the reply.
  unfoldable pub reply :
      Bytes → DirectionState × DirectionState → Act World (DirectionState × DirectionState)
  unfolding send
  reply plaintext (send_enc, recv_enc) = do
    text ← lift (encode (codes "echo:" ++ decode_replace plaintext))
    let (sealed, send_enc') = Record.encrypt C.aead ct_app_data text send_enc
    numbered ← lift sealed
    frame ← lift (Encode.encode_app_data numbered.0 numbered.1)
    send frame
    pure (send_enc', recv_enc)

  -- A round of `_app_loop` on a frame: `none` for `break`.
  unfoldable pub app_round :
      Bytes → DirectionState × DirectionState → Act World (Option (DirectionState × DirectionState))
  unfolding alert reply
  app_round frame (send_enc, recv_enc) = do
    tag ← lift (first frame)
    if tag == tag_close || not (tag == 4) then pure none else (do
      ad ← lift (decode_app_data frame)
      let (opened, recv_enc') = Record.decrypt C.aead ct_app_data ad.seq ad.ciphertext recv_enc
      elim opened [
        | err e ↦ (do alert (codes "Decryption failed: " ++ render e); pure none)
        | ok plaintext ↦ (do both ← reply plaintext (send_enc, recv_enc'); pure (some both))
      ])

  -- `_app_loop(send_enc, recv_enc)` on fuel: each round that goes on has taken a frame of four
  -- bytes at least. Whether the fuel ran out is part of the result.
  unfoldable pub app_loop : ℕ → DirectionState × DirectionState → Act World LoopExit
  unfolding receive app_round
  app_loop zero both = pure out_of_rounds
  app_loop (suc fuel) both =
      try_except (do frame ← receive; pure (some frame))
        (λ e. if is_connection_error e then pure none else raise e)
      >>= λ frame. elim frame [
        | none ↦ pure after_break
        | some payload ↦ (do
          next ← app_round payload both
          elim next [ none ↦ pure after_break | some both' ↦ app_loop fuel both' ])
      ]
