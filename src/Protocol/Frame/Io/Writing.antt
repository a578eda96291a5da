-- ===== src/Protocol/Frame/Io/Writing.antt =====
-- crates/crosspuck-core/src/protocol/frame.rs: what `write_frame` leaves in the sink.
use crosspuck.Base.{
  ◌-◌, ◌<◌, ◌≡◌, ◌≢◌, ◌⊎◌, ◌++◌, append_assoc, arith, length, take, take-append_add, take-append_le,
  take_all, IsU32, ◌==◌, if◌then◌else◌,
}
use crosspuck.Base.Result.{ok, err}
use crosspuck.Protocol.Frame.Message.{Channel, payload_limit}
use crosspuck.Protocol.Frame.Header.{Frame, encode}
use crosspuck.Protocol.Frame.Io.{
  payload_too_large, payload_len_mismatch, Writer, write_all, flush, write_frame, FrameIoError,
}
use crosspuck.Protocol.Frame.Io.Reading.{frame_bytes, Fits}

-- The error of a frame that is not accepted.
abbrev pub refusal : Channel → Frame → FrameIoError
refusal channel f =
    if f.header.payload_len == length f.payload
    then payload_too_large channel (length f.payload) (payload_limit channel)
    else payload_len_mismatch f.header.payload_len (length f.payload)

-- A frame whose declared length is not its payload's, or whose payload is over the limit, is
-- refused before anything is written.
write_frame_refused :
    (channel : Channel) (f : Frame) (w : Writer)
    → (f.header.payload_len ≢ length f.payload) ⊎ (payload_limit channel < length f.payload)
    → write_frame f channel w ≡ (err (refusal channel f), w)
unfolding write_frame
write_frame_refused channel f w h = ground arith

-- A write that succeeds has added exactly the header and the payload, of a frame that fits.
pub write_frame-written :
    (channel : Channel) (f : Frame) (w w' : Writer)
    → IsU32 f.header.id
    → write_frame f channel w ≡ (ok tt, w')
    → Fits channel f × (w'.written ≡ w.written ++ frame_bytes f)
unfolding write_frame write_all flush
write_frame-written channel f w w' hi e =
    ground (arith, append_assoc w.written (encode f.header) f.payload)

-- The two writes of a frame into a sink with little room.
two_writes :
    (w : Writer) (f : Frame)
    → (let r = write_all (encode f.header) w in
        elim r.0 [ ok _ ↦ (write_all f.payload r.1).1.written | err _ ↦ r.1.written ])
      ≡ w.written ++ take w.room (frame_bytes f)
unfolding write_all
two_writes w f = ground (
  arith,
  append_assoc w.written (encode f.header) f.payload,
  take-append_le w.room (encode f.header) f.payload,
  take-append_add (w.room - length (encode f.header)) (encode f.header) f.payload,
  take_all (w.room - length (encode f.header)) f.payload,
  append_assoc w.written (encode f.header) (take (w.room - length (encode f.header)) f.payload),
)

-- A frame that fits adds as much of its bytes as the sink takes, in order, however the call ends.
pub write_frame_prefix :
    (channel : Channel) (f : Frame) (w : Writer)
    → Fits channel f
    → (write_frame f channel w).1.written ≡ w.written ++ take w.room (frame_bytes f)
unfolding write_frame flush
write_frame_prefix channel f w fits = ground (arith, two_writes w f)
