-- ===== src/Protocol/Frame/Io.antt =====
-- crates/crosspuck-core/src/protocol/frame.rs: `read_frame` and `write_frame`, over `Read` and
-- `Write` of the standard library. A reader is what is still to arrive, byte by byte, with the
-- failures of reading (a timeout, say) at the places where they strike; a writer is what the sink
-- has taken, how much more it takes, and how it fails then. Reading goes on after `Interrupted`
-- inside `read_exact`, so that kind is none of these failures.
pub mod Reading
pub mod Interrupted
pub mod Writing
use crosspuck.Base.{
  ℕ, zero, suc, ◌+◌, ◌-◌, ◌^◌, not, Option, none, some, List, [], ◌∷◌, ◌++◌, map, ◌==◌, ltb, leb,
  if◌then◌else◌, length, take, Bytes,
}
use crosspuck.Base.Result.{Result, ok, err, map_err}
use crosspuck.Base.Action.{Action, pure, raise, lift, ◌>>=◌, ◌>>◌, convert}
use crosspuck.Protocol.Frame.Message.{Channel, FrameError, payload_limit}
use crosspuck.Protocol.Frame.Header.{FrameHeader, Frame, frame_header_len, encode, decode}

-- The kinds of `io::Error` that the program tells apart.
pub data IoError : Type 0 where
  unexpected_eof would_block timed_out other : IoError

pub data FrameIoError : Type 0 where
  io : IoError → FrameIoError
  frame : FrameError → FrameIoError
  payload_too_large : Channel → ℕ → ℕ → FrameIoError
  payload_len_mismatch : ℕ → ℕ → FrameIoError
  payload_len_overflow : ℕ → FrameIoError

pub data Arrival : Type 0 where
  byte : ℕ → Arrival
  failure : IoError → Arrival

abbrev pub Reader : Type 0
Reader = List Arrival

-- What was read before a failure is lost to the caller.
abbrev pub prepend : ℕ → Result IoError Bytes × Reader → Result IoError Bytes × Reader
prepend b (ok bytes, r) = (ok (b ∷ bytes), r)
prepend b (err e, r) = (err e, r)

unfoldable pub read_exact : ℕ → Action IoError Reader Bytes
read_exact zero r = (ok [], r)
read_exact (suc n) [] = (err unexpected_eof, [])
read_exact (suc n) (failure e ∷ r) = (err e, r)
read_exact (suc n) (byte b ∷ r) = prepend b (read_exact n r)

-- `usize::try_from` of a `u32`.
unfoldable pub payload_usize : ℕ → Result FrameIoError ℕ
payload_usize n = if ltb n (2 ^ 64) then ok n else err (payload_len_overflow n)

unfoldable pub read_frame : Channel → Action FrameIoError Reader Frame
read_frame channel = do
  header_bytes ← convert io (read_exact frame_header_len)
  header ← lift (map_err frame (decode header_bytes))
  payload_len ← lift (payload_usize header.payload_len)
  let limit = payload_limit channel
  if ltb limit payload_len then raise (payload_too_large channel payload_len limit) else do
    payload ← convert io (read_exact payload_len)
    pure (record { header = header; payload = payload })

pub record Writer : Type 0 where
  pub written : Bytes
  pub room : ℕ
  pub write_failure : IoError
  pub flush_failure : Option IoError

unfoldable pub write_all : Bytes → Action IoError Writer Unit
write_all bytes w =
    if leb (length bytes) w.room
    then (ok tt, record w { written = w.written ++ bytes; room = w.room - length bytes })
    else (err w.write_failure, record w { written = w.written ++ take w.room bytes; room = 0 })

unfoldable pub flush : Action IoError Writer Unit
flush w = elim w.flush_failure [ none ↦ (ok tt, w) | some e ↦ (err e, w) ]

unfoldable pub write_frame : Frame → Channel → Action FrameIoError Writer Unit
write_frame f channel =
    let actual_len = length f.payload in
    let limit = payload_limit channel in
    if not (f.header.payload_len == actual_len)
    then raise (payload_len_mismatch f.header.payload_len actual_len)
    else if ltb limit actual_len
    then raise (payload_too_large channel actual_len limit)
    else do
      convert io (write_all (encode f.header))
      convert io (write_all f.payload)
      convert io flush
      pure tt
