-- ===== src/Protocol/Frame/Io/Interrupted.antt =====
-- crates/crosspuck-core/src/protocol/frame.rs: `read_frame` when a read fails inside a frame.
use crosspuck.Base.{
  ℕ, ◌+◌, ◌-◌, ◌<◌, ◌≡◌, ◌∷◌, ◌++◌, append_assoc, arith, length, length-append, take, drop,
  length-take, take-append_add, drop-append_add, le→ltb_false, Bytes,
}
use mathlib.Core.List.{map-append}
use native.Mathlib.Decide.{dec_lt}
use crosspuck.Base.Result.{err}
use crosspuck.Protocol.Frame.Message.{Channel, payload_limit}
use crosspuck.Protocol.Frame.Header.{Frame, encode, frame_header_len, length-encode}
use crosspuck.Protocol.Frame.Io.{IoError, io, failure, Reader, read_frame}
use crosspuck.Protocol.Frame.Io.Reading.{
  arriving, frame_bytes, Fits, Fits-IsU32, read_exact-failure, read_frame_header,
}

-- The stream fails once, after `k` bytes of the frame.
abbrev pub broken_at : ℕ → IoError → Bytes → Reader → Reader
broken_at k e bytes rest =
    arriving (take k bytes) ++ (failure e ∷ (arriving (drop k bytes) ++ rest))

in_header :
    (channel : Channel) (bytes : Bytes) (k : ℕ) (e : IoError) (rest : Reader)
    → k < frame_header_len
    → read_frame channel (arriving (take k bytes) ++ (failure e ∷ rest)) ≡ (err (io e), rest)
unfolding read_frame
in_header channel bytes k e rest h =
    rw (
      read_exact-failure frame_header_len (take k bytes) e rest
        (omega (arith, length-take k bytes)))

in_payload :
    (channel : Channel) (f : Frame) (k : ℕ) (e : IoError) (rest : Reader)
    → Fits channel f
    → k < length f.payload
    → read_frame channel
        (arriving (encode f.header) ++ (arriving (take k f.payload) ++ (failure e ∷ rest)))
      ≡ (err (io e), rest)
in_payload channel f k e rest fits h =
    rw (read_frame_header channel f.header _ fits.id_fits (Fits-IsU32 channel f fits)) (
      rw (le→ltb_false (payload_limit channel) f.header.payload_len (omega arith)) (
        rw (
          read_exact-failure f.header.payload_len (take k f.payload) e rest
            (omega (arith, length-take k f.payload)))))

-- Wherever inside a frame the read fails, the caller gets that failure alone, the bytes read so far
-- are gone, and the next read starts in the middle of the frame.
pub read_frame_interrupted :
    (channel : Channel) (f : Frame) (k : ℕ) (e : IoError) (rest : Reader)
    → Fits channel f
    → k < length (frame_bytes f)
    → read_frame channel (broken_at k e (frame_bytes f) rest)
      ≡ (err (io e), arriving (drop k (frame_bytes f)) ++ rest)
read_frame_interrupted channel f k e rest fits h = elim (dec_lt k frame_header_len) [
  | yes early ↦ in_header channel (frame_bytes f) k e _ early
  | no late ↦
      let over : k ≡ length (encode f.header) + (k - frame_header_len) =
        omega (arith, length-encode f.header) in
      rw over (
        rw (drop-append_add (k - frame_header_len) (encode f.header) f.payload) (
          rw (take-append_add (k - frame_header_len) (encode f.header) f.payload) (
            simp (map-append, append_assoc)
              (in_payload channel f (k - frame_header_len) e _ fits (
                omega
                  (arith, length-encode f.header, length-append (encode f.header) f.payload))))))
]
