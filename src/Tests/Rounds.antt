-- ===== src/Tests/Rounds.antt =====
-- tools/benchmark_artifact.py and server.py: one round with the message "hi".
use vaulttls.Prelude.{
  append-nil, ℕ, zero, suc, ◌+◌, ◌-◌, ◌*◌, ◌/◌, ◌%◌, ◌^◌, ◌≤◌, ◌<◌, ◌≡◌, refl, sym, ap, ◌∙◌, subst,
  ◌≢◌, ◌↔◌, ◌⊎◌, inl, inr, Bool, true, false, ◌&&◌, ◌||◌, Option, none, some, List, [], ◌∷◌, ◌++◌,
  arith, ltb, leb, ◌==◌, if◌then◌else◌, Bytes, IsBytes, length, take, drop,
}
use vaulttls.Errors.{ok}
use vaulttls.Record
use vaulttls.Codec.Encode
use vaulttls.Framing
use vaulttls.Framing.{chunk, Segment, max_frame}
use vaulttls.Framing.Exact.{IsOpen, total}
use vaulttls.Session.State.{World}
use vaulttls.Tools.Rounds.{Round, Exchanged, finished, one_more, requests, replies}
use vaulttls.Tests.Stubs.{value_or}
use vaulttls.Python.{struct_pack}
use vaulttls.Tests.Echo.{
  echo_framed, hi_encoded, echo_written, hi_written, hi_sealed, echo_sealed, hi, echo_hi, quiet,
  echo_frame, padded_stub, echo_record, hi_record,
}
use vaulttls.Python.Text.{codes}
use vaulttls.Tools.Benchmark.{echo_rounds}
use vaulttls.Tests.Keys.{padded-AeadLaws, direction, padded}
use vaulttls.Record.{ct_app_data}
use vaulttls.Kdf.{zeros}
use vaulttls.Session.Echo.{after_break, app_loop}
use vaulttls.Tools.Echoed.{echo_rounds-app_loop}

hi_frame : Bytes
hi_frame = value_or (Framing.send_frame hi_record) []

hi_framed : Framing.send_frame hi_record ≡ ok hi_frame
unfolding Framing.send_frame struct_pack hi_record hi_frame Encode.encode_app_data
    vaulttls.Prelude.big_endian
hi_framed = refl

hi_fits : length hi_record ≤ max_frame
unfolding hi_record Encode.encode_app_data struct_pack vaulttls.Prelude.big_endian
hi_fits = omega arith

echo_fits : length echo_record ≤ max_frame
unfolding echo_record echo_hi Encode.encode_app_data struct_pack vaulttls.Prelude.big_endian
echo_fits = omega arith

answer_sealed :
    (Record.encrypt padded ct_app_data (codes "echo:" ++ hi) direction).0
    ≡ ok (0, echo_hi ++ zeros 16)
unfolding codes echo_hi
answer_sealed = echo_sealed

abbrev one_round : Round padded_stub hi direction direction
one_round = record {
  number = 0;
  sealed = hi ++ zeros 16;
  payload = hi_record;
  request = hi_frame;
  sealed_is = hi_sealed;
  payload_is = hi_written;
  request_is = hi_framed;
  request_fits = hi_fits;
  number' = 0;
  sealed' = echo_hi ++ zeros 16;
  resp = echo_record;
  reply = echo_frame;
  sealed_is' = answer_sealed;
  resp_is = echo_written;
  reply_is = echo_framed;
  reply_fits = echo_fits;
}

abbrev once : Exchanged padded_stub hi 1 direction direction
once = one_more direction direction one_round (finished _ _)

abbrev replied : List Segment
replied = chunk echo_frame ∷ []

replied-IsOpen : IsOpen replied
unfolding echo_frame echo_record echo_hi Framing.send_frame struct_pack Encode.encode_app_data
    vaulttls.Prelude.big_endian
replied-IsOpen = tt

abbrev close_frame : Bytes
close_frame = 0 ∷ 0 ∷ 0 ∷ 1 ∷ 6 ∷ []

abbrev asked : World
asked = record quiet { incoming = chunk hi_frame ∷ chunk close_frame ∷ [] }

asked-IsOpen : IsOpen asked.incoming
unfolding hi_frame hi_record Framing.send_frame struct_pack Encode.encode_app_data
    vaulttls.Prelude.big_endian
asked-IsOpen = tt

close_framed : Framing.send_frame (6 ∷ []) ≡ ok close_frame
unfolding Framing.send_frame struct_pack vaulttls.Prelude.big_endian
close_framed = refl

echo_rounds-app_loop_example :
    ((later : List Segment) × (echo_rounds padded_stub 1 hi (direction, direction) replied
        ≡ ok (record { sent = requests padded_stub hi once; later = later }))
      × (total later ≡ []))
    × ((w' : World) × (app_loop padded_stub
            (λ e. [])
            (suc (length (total asked.incoming)))
            (direction, direction)
            asked
          ≡ (ok after_break, w'))
        × (w'.sent ≡ [] ++ replies padded_stub hi once))
echo_rounds-app_loop_example =
    echo_rounds-app_loop padded_stub padded-AeadLaws hi (λ e. []) hi
      (omega arith, (omega arith, tt)) hi_encoded once replied [] asked replied-IsOpen
      (sym (append-nil (echo_frame ++ []))) close_framed (λ before frame. refl) asked-IsOpen
      (ap (λ b. b ++ close_frame) (sym (append-nil hi_frame)))
