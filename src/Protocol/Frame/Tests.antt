-- ===== src/Protocol/Frame/Tests.antt =====
-- crates/crosspuck-core/src/protocol/frame.rs: frames of the tests, `SetOutput` among them.
use crosspuck.Base.{
  ℕ, ◌+◌, ◌<◌, ◌≡◌, refl, [], ◌∷◌, ◌++◌, arith, inl, inr, take, drop, length, Bytes, AreBytes,
  IsU32, are_bytes-AreBytes, none,
}
use crosspuck.Base.Result.{ok, err}
use crosspuck.Protocol.Frame.Message.{control, input, set_output, ping, input_report, payload_limit}
use crosspuck.Protocol.Frame.Header.{FrameHeader, Frame, encode, decode}
use crosspuck.Protocol.Frame.Io.{
  Reader, Writer, byte, failure, timed_out, other, io, payload_too_large, payload_len_mismatch,
  read_frame, write_frame,
}
use crosspuck.Protocol.Frame.Io.Reading.{
  Arrived, Fits, arriving, frame_bytes, read_frame-arriving, read_frame_too_large, read_frame_inv,
}
use crosspuck.Protocol.Frame.Io.Interrupted.{broken_at, read_frame_interrupted}
use crosspuck.Protocol.Frame.Io.Writing.{write_frame-written, write_frame_prefix}

abbrev haptic_header : FrameHeader
haptic_header = record { message_type = set_output; id = 7; payload_len = 3 }

abbrev haptic : Frame
haptic = record { header = haptic_header; payload = 0x82 ∷ 0x03 ∷ 0x00 ∷ [] }

abbrev haptic_bytes : Bytes
haptic_bytes = 0x43 ∷ 0x50 ∷ 1 ∷ 0x14 ∷ 7 ∷ 0 ∷ 0 ∷ 0 ∷ 3 ∷ 0 ∷ 0 ∷ 0 ∷ []

abbrev oversized_header : FrameHeader
oversized_header = record { message_type = input_report; id = 1; payload_len = 257 }

abbrev next_byte : Reader
next_byte = byte 0x43 ∷ []

abbrev sink : Writer
sink = record { written = 9 ∷ []; room = 100; write_failure = other; flush_failure = none }

abbrev narrow_sink : Writer
narrow_sink = record { written = 9 ∷ []; room = 13; write_failure = other; flush_failure = none }

haptic-Fits : Fits control haptic
unfolding payload_limit
haptic-Fits = record { id_fits = omega arith; declared = refl; within = omega arith }

haptic_encoded : encode haptic_header ≡ haptic_bytes
unfolding encode crosspuck.Protocol.Frame.Message.to_u8 crosspuck.Base.to_le_bytes
haptic_encoded = refl

haptic_decoded : decode haptic_bytes ≡ ok haptic_header
unfolding decode crosspuck.Protocol.Frame.Message.message_type_of_u8 crosspuck.Base.from_le_bytes
haptic_decoded = refl

read_frame-arriving_example :
    read_frame control (arriving (frame_bytes haptic) ++ next_byte) ≡ (ok haptic, next_byte)
read_frame-arriving_example = read_frame-arriving control haptic next_byte haptic-Fits

read_frame_too_large_example :
    read_frame input (arriving (encode oversized_header) ++ next_byte)
    ≡ (err (payload_too_large input 257 (payload_limit input)), next_byte)
unfolding payload_limit
read_frame_too_large_example =
    read_frame_too_large input oversized_header next_byte (omega arith) (omega arith) (omega arith)

abbrev haptic_stream : Reader
haptic_stream = arriving (haptic_bytes ++ (0x82 ∷ 0x03 ∷ 0x00 ∷ [])) ++ next_byte

haptic_read : read_frame control haptic_stream ≡ (ok haptic, next_byte)
unfolding read_frame crosspuck.Protocol.Frame.Io.read_exact decode
    crosspuck.Protocol.Frame.Message.message_type_of_u8 crosspuck.Protocol.Frame.Io.payload_usize
    crosspuck.Base.from_le_bytes payload_limit
haptic_read = refl

haptic_stream-Arrived : Arrived haptic_stream
haptic_stream-Arrived = ground arith

read_frame_inv_example :
    (haptic_stream ≡ arriving (frame_bytes haptic) ++ next_byte) × Fits control haptic
read_frame_inv_example =
    read_frame_inv control haptic_stream next_byte haptic haptic_stream-Arrived haptic_read

read_frame_interrupted_example :
    read_frame control (broken_at 13 timed_out (frame_bytes haptic) next_byte)
    ≡ (err (io timed_out), arriving (drop 13 (frame_bytes haptic)) ++ next_byte)
unfolding encode crosspuck.Base.to_le_bytes
read_frame_interrupted_example =
    read_frame_interrupted control haptic 13 timed_out next_byte haptic-Fits (omega arith)

abbrev sink_after : Writer
sink_after = record {
  written = 9 ∷ (haptic_bytes ++ (0x82 ∷ 0x03 ∷ 0x00 ∷ []));
  room = 85;
  write_failure = other;
  flush_failure = none;
}

haptic_sent : write_frame haptic control sink ≡ (ok tt, sink_after)
unfolding write_frame payload_limit crosspuck.Protocol.Frame.Io.write_all encode
    crosspuck.Base.to_le_bytes crosspuck.Protocol.Frame.Io.flush
    crosspuck.Protocol.Frame.Message.to_u8
haptic_sent = refl

write_frame-written_example :
    Fits control haptic × (sink_after.written ≡ sink.written ++ frame_bytes haptic)
write_frame-written_example =
    write_frame-written control haptic sink sink_after (omega arith) haptic_sent

write_frame_prefix_example :
    (write_frame haptic control narrow_sink).1.written
    ≡ narrow_sink.written ++ take narrow_sink.room (frame_bytes haptic)
write_frame_prefix_example = write_frame_prefix control haptic narrow_sink haptic-Fits
