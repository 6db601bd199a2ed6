-- ===== src/Framing.antt =====
-- transcript.py: length-prefixed frames over a socket. What the peer sent is a list of segments:
-- `recv(n)` returns the first `n` bytes of the first segment, and the rest of it stays.
pub mod Exact
pub mod Frames
pub mod Stream
pub mod Taken
pub mod Cuts
use vaulttls.Prelude.{
  from_big_endian, ℕ, zero, suc, ◌-◌, ◌*◌, true, false, List, [], ◌∷◌, ◌++◌, ltb, leb,
  if◌then◌else◌, Bytes, length, take, drop,
}
use vaulttls.Errors.{frame_too_large, guard, peer_closed, timed_out, Result, ok, err, ◌>>=◌, ◌>>◌}
use vaulttls.Python.{struct_pack}

abbrev pub max_frame : ℕ
max_frame = 4 * 1024 * 1024

-- One read of the socket: some bytes (none, if the peer closed), or a timeout.
pub data Segment : Type 0 where
  chunk : Bytes → Segment
  silence : Segment

-- The segments behind the first `n` bytes of the first one.
abbrev pub put_back : Bytes → List Segment → List Segment
put_back [] segments = segments
put_back (b ∷ bs) segments = chunk (b ∷ bs) ∷ segments

-- `sock.recv(n)`
unfoldable pub recv : ℕ → List Segment → Result (Bytes × List Segment)
recv n [] = ok ([], [])
recv n (silence ∷ segments) = err timed_out
recv n (chunk bs ∷ segments) = ok (take n bs, put_back (drop n bs) segments)

-- The loop of `_recv_exactly`, with the bytes in `buf` so far. Each round that goes on adds a byte,
-- so `n` rounds and one test are enough.
unfoldable pub recv_loop : ℕ → ℕ → Bytes → List Segment → Result (Bytes × List Segment)
unfolding recv
recv_loop zero n buf segments =
    if ltb (length buf) n then err (peer_closed (length buf) n) else ok (buf, segments)
recv_loop (suc fuel) n buf segments = elim (ltb (length buf) n) [
  | false ↦ ok (buf, segments)
  | true ↦ (do
    (c, later) ← recv (n - length buf) segments
    elim c [
      | [] ↦ err (peer_closed (length buf) n)
      | b ∷ bs ↦ recv_loop fuel n (buf ++ (b ∷ bs)) later
    ])
]

unfoldable pub recv_exactly : ℕ → List Segment → Result (Bytes × List Segment)
unfolding recv_loop
recv_exactly n segments = recv_loop n n [] segments

-- `recv_frame(sock)`
unfoldable pub recv_frame : List Segment → Result (Bytes × List Segment)
recv_frame segments = do
  (header, later) ← recv_exactly 4 segments
  let len = from_big_endian header
  guard (leb len max_frame) (frame_too_large len)
  recv_exactly len later

-- What `send_frame(sock, payload)` puts on the wire.
unfoldable pub send_frame : Bytes → Result Bytes
send_frame payload = do n ← struct_pack 4 (length payload); ok (n ++ payload)
