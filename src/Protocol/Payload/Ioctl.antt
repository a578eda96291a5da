-- ===== src/Protocol/Payload/Ioctl.antt =====
-- crates/crosspuck-core/src/protocol/payload.rs: `IoctlCommand` and `IoctlResult`.
use crosspuck.Base.{
  ◌≡◌, ℕ, ◌↔◌, [], ◌∷◌, ◌++◌, append_assoc, append-nil, length, ltb, lt→ltb, if◌then◌else◌, Bytes,
  AreBytes, IsU8, IsU16, IsU32, IsUsize, to_le_bytes,
}
use crosspuck.Base.Result.{Result, ok}
use crosspuck.Base.Action.{pure, raise, lift, ◌>>=◌, ◌>>◌}
use crosspuck.Protocol.Frame
use crosspuck.Protocol.Status.{StatusCode, to_u16, to_u16-IsU16}
use crosspuck.Protocol.Codec.Error.{ProtocolError, invalid_length, decode_status}
use crosspuck.Protocol.Codec.Encoder
use crosspuck.Protocol.Codec.Encoder.{Encoding}
use crosspuck.Protocol.Codec.Decoder
use crosspuck.Protocol.Codec.Decoder.{Decoding}
use crosspuck.Protocol.Codec.Reads.{
  Ends-bind, Ends-last, Ends-finish, Reads-u8, Reads-u16, Reads-u32, Reads-bytes, Reads-reserved_u8,
  Reads-status,
}
use crosspuck.Protocol.Codec.Parses.{
  Parses-u8, Parses-u16, Parses-u32, Parses-bytes, Parses-reserved_u8, Parses-status,
}
use crosspuck.Protocol.Codec.Whole.{All-bind, All-finish}
use crosspuck.Protocol.Codec.Wire.{WirePayload, to_bytes, exact}

pub record IoctlCommand : Type 0 where
  pub ioctl_code : ℕ
  pub interface_number : ℕ
  pub timeout_ms : ℕ
  pub out_len : ℕ
  pub payload : Bytes

pub record IoctlResult : Type 0 where
  pub status : StatusCode
  pub bytes_returned : ℕ
  pub os_error : ℕ
  pub payload : Bytes

unfoldable pub encode_ioctl : IoctlCommand → Encoding
encode_ioctl c =
    if ltb (length c.payload) 65536
    then (do
      Encoder.u32 c.ioctl_code
      Encoder.u8 c.interface_number
      Encoder.u8 0
      Encoder.u16 c.timeout_ms
      Encoder.u16 (length c.payload)
      Encoder.u16 c.out_len
      Encoder.bytes c.payload)
    else raise (invalid_length "in_len")

unfoldable pub decode_ioctl : Bytes → Result ProtocolError IoctlCommand
decode_ioctl = Decoder.run (do
  ioctl_code ← Decoder.u32 "ioctl_code"
  interface_number ← Decoder.u8 "interface_number"
  Decoder.reserved_u8 "ioctl.reserved_zero"
  timeout_ms ← Decoder.u16 "timeout_ms"
  in_len ← Decoder.u16 "in_len"
  out_len ← Decoder.u16 "out_len"
  payload ← Decoder.bytes "raw_in_buffer" in_len
  Decoder.finish
  pure (record {
    ioctl_code = ioctl_code;
    interface_number = interface_number;
    timeout_ms = timeout_ms;
    out_len = out_len;
    payload = payload;
  }))

unfoldable pub encode_ioctl_result : IoctlResult → Encoding
encode_ioctl_result r =
    if ltb (length r.payload) 65536
    then (do
      Encoder.u16 (to_u16 r.status)
      Encoder.u16 (length r.payload)
      Encoder.u32 r.bytes_returned
      Encoder.u32 r.os_error
      Encoder.bytes r.payload)
    else raise (invalid_length "out_len")

unfoldable pub decode_ioctl_result : Bytes → Result ProtocolError IoctlResult
decode_ioctl_result = Decoder.run (do
  code ← Decoder.u16 "status"
  status ← lift (decode_status code)
  out_len ← Decoder.u16 "out_len"
  bytes_returned ← Decoder.u32 "bytes_returned"
  os_error ← Decoder.u32 "os_error"
  payload ← Decoder.bytes "raw_out_buffer" out_len
  Decoder.finish
  pure (record {
    status = status;
    bytes_returned = bytes_returned;
    os_error = os_error;
    payload = payload;
  }))

abbrev pub ioctl_wire : WirePayload IoctlCommand
ioctl_wire = record { message_type = Frame.ioctl; encode = encode_ioctl; decode = decode_ioctl }

abbrev pub ioctl_result_wire : WirePayload IoctlResult
ioctl_result_wire = record {
  message_type = Frame.ioctl_result;
  encode = encode_ioctl_result;
  decode = decode_ioctl_result;
}

pub record IoctlIsValid (c : IoctlCommand) : Type 0 where
  pub code_fits : IsU32 c.ioctl_code
  pub interface_fits : IsU8 c.interface_number
  pub timeout_fits : IsU16 c.timeout_ms
  pub len_fits : IsU16 (length c.payload)
  pub out_fits : IsU16 c.out_len
  pub bytes : AreBytes c.payload

pub record IoctlResultIsValid (r : IoctlResult) : Type 0 where
  pub len_fits : IsU16 (length r.payload)
  pub returned_fits : IsU32 r.bytes_returned
  pub error_fits : IsU32 r.os_error
  pub bytes : AreBytes r.payload

abbrev layout : IoctlCommand → Bytes
layout c =
    to_le_bytes 4 c.ioctl_code
    ++ ((c.interface_number ∷ [])
        ++ ((0 ∷ [])
            ++ (to_le_bytes 2 c.timeout_ms
                ++ (to_le_bytes 2 (length c.payload) ++ (to_le_bytes 2 c.out_len ++ c.payload)))))

abbrev result_layout : IoctlResult → Bytes
result_layout r =
    to_le_bytes 2 (to_u16 r.status)
    ++ (to_le_bytes 2 (length r.payload)
        ++ (to_le_bytes 4 r.bytes_returned ++ (to_le_bytes 4 r.os_error ++ r.payload)))

written : (c : IoctlCommand) → IoctlIsValid c → to_bytes (encode_ioctl c) ≡ ok (layout c)
unfolding encode_ioctl Encoder.u8 Encoder.u16 Encoder.u32 Encoder.bytes
written c v = rw (lt→ltb (length c.payload) 65536 v.len_fits) (simp append_assoc)

result_written :
    (r : IoctlResult)
    → IoctlResultIsValid r
    → to_bytes (encode_ioctl_result r) ≡ ok (result_layout r)
unfolding encode_ioctl_result Encoder.u16 Encoder.u32 Encoder.bytes
result_written r v = rw (lt→ltb (length r.payload) 65536 v.len_fits) (simp append_assoc)

-- `IoctlCommand::decode` accepts exactly the encodings of the commands whose fields fit their
-- widths and whose data is at most 65535 bytes long.
decode_ioctl_iff :
    (c : IoctlCommand) (input : Bytes)
    → AreBytes input
    → IsUsize (length input)
    → (decode_ioctl input ≡ ok c) ↔ (IoctlIsValid c × (to_bytes (encode_ioctl c) ≡ ok input))
unfolding decode_ioctl
decode_ioctl_iff =
    exact layout encode_ioctl _ written
      (λ c v. Ends-bind _ _ (Reads-u32 _ _ v.code_fits) (
        Ends-bind _ _ (Reads-u8 _ _) (
          Ends-bind _ _ (Reads-reserved_u8 _) (
            Ends-bind _ _ (Reads-u16 _ _ v.timeout_fits) (
              Ends-bind _ _ (Reads-u16 _ _ v.len_fits) (
                Ends-bind _ _ (Reads-u16 _ _ v.out_fits)
                  (Ends-last _ _ (Reads-bytes _ c.payload) (Ends-finish c))))))))
      (All-bind _ _ (Parses-u32 _) λ code b1 p1. All-bind _ _ (Parses-u8 _) λ i b2 p2.
        All-bind _ _ (Parses-reserved_u8 _) λ _ b3 p3. All-bind _ _ (Parses-u16 _) λ timeout b4 p4.
          All-bind _ _ (Parses-u16 _) λ len b5 p5. All-bind _ _ (Parses-u16 _) λ out b6 p6.
            All-bind _ _ (Parses-bytes _ _) λ payload b7 p7. All-finish _ (
              record {
                code_fits = p1.0;
                interface_fits = p2.0;
                timeout_fits = p4.0;
                len_fits = rw p7.1 p5.0;
                out_fits = p6.0;
                bytes = p7.2;
              },
              simp (p1.1, p2.1, p3, p4.1, p5.1, p6.1, p7.0, p7.1, append-nil),
            ))

-- `IoctlResult::decode` accepts exactly the encodings of the results whose numbers fit their widths
-- and whose data is at most 65535 bytes long.
decode_ioctl_result_iff :
    (r : IoctlResult) (input : Bytes)
    → AreBytes input
    → IsUsize (length input)
    → (decode_ioctl_result input ≡ ok r)
      ↔ (IoctlResultIsValid r × (to_bytes (encode_ioctl_result r) ≡ ok input))
unfolding decode_ioctl_result
decode_ioctl_result_iff =
    exact result_layout encode_ioctl_result _ result_written
      (λ r v. Ends-bind _ _ (Reads-u16 _ _ (to_u16-IsU16 r.status)) (
        Ends-bind _ _ (Reads-status r.status) (
          Ends-bind _ _ (Reads-u16 _ _ v.len_fits) (
            Ends-bind _ _ (Reads-u32 _ _ v.returned_fits) (
              Ends-bind _ _ (Reads-u32 _ _ v.error_fits)
                (Ends-last _ _ (Reads-bytes _ r.payload) (Ends-finish r)))))))
      (All-bind _ _ (Parses-u16 _) λ code b1 p1. All-bind _ _ (Parses-status code) λ status b2 p2.
        All-bind _ _ (Parses-u16 _) λ len b3 p3. All-bind _ _ (Parses-u32 _) λ returned b4 p4.
          All-bind _ _ (Parses-u32 _) λ os_error b5 p5.
            All-bind _ _ (Parses-bytes _ _) λ payload b6 p6. All-finish _ (
              record {
                len_fits = rw p6.1 p3.0;
                returned_fits = p4.0;
                error_fits = p5.0;
                bytes = p6.2;
              },
              simp (p1.1, p2.1, ← p2.0, p3.1, p4.1, p5.1, p6.0, p6.1, append-nil),
            ))
