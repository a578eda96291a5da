-- ===== src/Protocol/Payload/Count.antt =====
-- crates/crosspuck-core/src/protocol/payload.rs: the replies that count bytes, `SetFeatureResult`,
-- `SetOutputResult` and `WriteResult`, over `encode_count_result` and `decode_count_result`.
use crosspuck.Base.{
  ◌≡◌, ℕ, ◌↔◌, ◌++◌, append_assoc, append-nil, length, Bytes, AreBytes, IsU16, IsU32, IsUsize,
  to_le_bytes,
}
use crosspuck.Base.Result.{Result, ok, map_ok}
use crosspuck.Base.Action.{pure, lift, ◌>>=◌, ◌>>◌}
use crosspuck.Protocol.Frame
use crosspuck.Protocol.Status.{StatusCode, to_u16, to_u16-IsU16}
use crosspuck.Protocol.Codec.Error.{ProtocolError, decode_status}
use crosspuck.Protocol.Codec.Encoder
use crosspuck.Protocol.Codec.Encoder.{Encoding}
use crosspuck.Protocol.Codec.Decoder
use crosspuck.Protocol.Codec.Decoder.{Decoding}
use crosspuck.Protocol.Codec.Reads.{
  Ends-bind, Ends-last, Ends-finish, Reads-u16, Reads-u32, Reads-status,
}
use crosspuck.Protocol.Codec.Parses.{Parses-u16, Parses-u32, Parses-status}
use crosspuck.Protocol.Codec.Whole.{All-bind, All-finish}
use crosspuck.Protocol.Codec.Wire.{WirePayload, to_bytes, exact}

-- The status, the count of bytes and the error of the operating system.
abbrev pub CountResult : Type 0
CountResult = StatusCode × ℕ × ℕ

unfoldable pub encode_count_result : CountResult → Encoding
encode_count_result (status, count, os_error) = do
  Encoder.u16 (to_u16 status)
  Encoder.u16 count
  Encoder.u32 os_error

unfoldable pub decode_count_result : Bytes → Result ProtocolError CountResult
decode_count_result = Decoder.run (do
  code ← Decoder.u16 "status"
  status ← lift (decode_status code)
  count ← Decoder.u16 "bytes"
  os_error ← Decoder.u32 "os_error"
  Decoder.finish
  pure (status, count, os_error))

pub record SetFeatureResult : Type 0 where
  pub status : StatusCode
  pub bytes_accepted : ℕ
  pub os_error : ℕ

pub record SetOutputResult : Type 0 where
  pub status : StatusCode
  pub bytes_accepted : ℕ
  pub os_error : ℕ

pub record WriteResult : Type 0 where
  pub status : StatusCode
  pub bytes_written : ℕ
  pub os_error : ℕ

unfoldable pub encode_set_feature_result : SetFeatureResult → Encoding
encode_set_feature_result r = encode_count_result (r.status, r.bytes_accepted, r.os_error)

abbrev set_feature_result_of : CountResult → SetFeatureResult
set_feature_result_of (s, n, e) = record { status = s; bytes_accepted = n; os_error = e }

unfoldable pub decode_set_feature_result : Bytes → Result ProtocolError SetFeatureResult
decode_set_feature_result input = map_ok set_feature_result_of (decode_count_result input)

unfoldable pub encode_set_output_result : SetOutputResult → Encoding
encode_set_output_result r = encode_count_result (r.status, r.bytes_accepted, r.os_error)

abbrev set_output_result_of : CountResult → SetOutputResult
set_output_result_of (s, n, e) = record { status = s; bytes_accepted = n; os_error = e }

unfoldable pub decode_set_output_result : Bytes → Result ProtocolError SetOutputResult
decode_set_output_result input = map_ok set_output_result_of (decode_count_result input)

unfoldable pub encode_write_result : WriteResult → Encoding
encode_write_result r = encode_count_result (r.status, r.bytes_written, r.os_error)

abbrev write_result_of : CountResult → WriteResult
write_result_of (s, n, e) = record { status = s; bytes_written = n; os_error = e }

unfoldable pub decode_write_result : Bytes → Result ProtocolError WriteResult
decode_write_result input = map_ok write_result_of (decode_count_result input)

abbrev pub set_feature_result_wire : WirePayload SetFeatureResult
set_feature_result_wire = record {
  message_type = Frame.set_feature_result;
  encode = encode_set_feature_result;
  decode = decode_set_feature_result;
}

abbrev pub set_output_result_wire : WirePayload SetOutputResult
set_output_result_wire = record {
  message_type = Frame.set_output_result;
  encode = encode_set_output_result;
  decode = decode_set_output_result;
}

abbrev pub write_result_wire : WirePayload WriteResult
write_result_wire = record {
  message_type = Frame.write_result;
  encode = encode_write_result;
  decode = decode_write_result;
}

pub record CountIsValid (r : CountResult) : Type 0 where
  pub count_fits : IsU16 r.1
  pub error_fits : IsU32 r.2

abbrev layout : CountResult → Bytes
layout (status, count, os_error) =
    to_le_bytes 2 (to_u16 status) ++ (to_le_bytes 2 count ++ to_le_bytes 4 os_error)

written : (r : CountResult) → to_bytes (encode_count_result r) ≡ ok (layout r)
unfolding encode_count_result Encoder.u16 Encoder.u32
written r = simp append_assoc

-- `decode_count_result` accepts exactly the encodings of the replies whose numbers fit their
-- widths.
decode_count_result_iff :
    (r : CountResult) (input : Bytes)
    → AreBytes input
    → IsUsize (length input)
    → (decode_count_result input ≡ ok r)
      ↔ (CountIsValid r × (to_bytes (encode_count_result r) ≡ ok input))
unfolding decode_count_result
decode_count_result_iff =
    exact layout encode_count_result _ (λ r _. written r)
      (λ r v. Ends-bind _ _ (Reads-u16 _ _ (to_u16-IsU16 r.0)) (
        Ends-bind _ _ (Reads-status r.0) (
          Ends-bind _ _ (Reads-u16 _ _ v.count_fits)
            (Ends-last _ _ (Reads-u32 _ _ v.error_fits) (Ends-finish r)))))
      (All-bind _ _ (Parses-u16 _) λ code b1 p1. All-bind _ _ (Parses-status code) λ status b2 p2.
        All-bind _ _ (Parses-u16 _) λ count b3 p3. All-bind _ _ (Parses-u32 _) λ os_error b4 p4.
          All-finish _ (
            record { count_fits = p3.0; error_fits = p4.0 },
            simp (p1.1, p2.1, ← p2.0, p3.1, p4.1, append-nil),
          ))
