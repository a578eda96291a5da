-- ===== src/Protocol/Payload/Command.antt =====
-- crates/crosspuck-core/src/protocol/payload.rs: the commands that carry data, `SetFeature`,
-- `SetOutput` and `WriteReport`, over their shared `encode_data_command`, `decode_data_command`.
use crosspuck.Base.{
  ◌≡◌, ℕ, ◌↔◌, [], ◌∷◌, ◌++◌, append_assoc, append-nil, length, ltb, lt→ltb, if◌then◌else◌, Bytes,
  AreBytes, IsU8, IsU16, IsUsize, to_le_bytes, String,
}
use crosspuck.Base.Result.{Result, ok, map_ok}
use crosspuck.Base.Action.{pure, raise, ◌>>=◌, ◌>>◌}
use crosspuck.Protocol.Frame
use crosspuck.Protocol.Codec.Error.{ProtocolError, invalid_length}
use crosspuck.Protocol.Codec.Encoder
use crosspuck.Protocol.Codec.Encoder.{Encoding}
use crosspuck.Protocol.Codec.Decoder
use crosspuck.Protocol.Codec.Decoder.{Decoding}
use crosspuck.Protocol.Codec.Reads.{
  Ends-bind, Ends-last, Ends-finish, Reads-u8, Reads-u16, Reads-bytes, Reads-reserved_u8,
  Reads-reserved_u16,
}
use crosspuck.Protocol.Codec.Parses.{
  Parses-u8, Parses-u16, Parses-bytes, Parses-reserved_u8, Parses-reserved_u16,
}
use crosspuck.Protocol.Codec.Whole.{All-bind, All-finish}
use crosspuck.Protocol.Codec.Wire.{WirePayload, to_bytes, exact}

-- The fields of such a command: the interface, the timeout and the data.
abbrev pub DataCommand : Type 0
DataCommand = ℕ × ℕ × Bytes

unfoldable pub encode_data_command : DataCommand → Encoding
encode_data_command (interface_number, timeout_ms, payload) =
    if ltb (length payload) 65536
    then (do
      Encoder.u8 interface_number
      Encoder.u8 0
      Encoder.u16 timeout_ms
      Encoder.u16 (length payload)
      Encoder.u16 0
      Encoder.bytes payload)
    else raise (invalid_length "data_len")

unfoldable pub decode_data_command : String → Bytes → Result ProtocolError DataCommand
decode_data_command data_field = Decoder.run (do
  interface_number ← Decoder.u8 "interface_number"
  Decoder.reserved_u8 "data_command.reserved_zero"
  timeout_ms ← Decoder.u16 "timeout_ms"
  data_len ← Decoder.u16 "data_len"
  Decoder.reserved_u16 "data_command.reserved_zero"
  payload ← Decoder.bytes data_field data_len
  Decoder.finish
  pure (interface_number, timeout_ms, payload))

pub record SetFeature : Type 0 where
  pub interface_number : ℕ
  pub timeout_ms : ℕ
  pub payload : Bytes

pub record SetOutput : Type 0 where
  pub interface_number : ℕ
  pub timeout_ms : ℕ
  pub payload : Bytes

pub record WriteReport : Type 0 where
  pub interface_number : ℕ
  pub timeout_ms : ℕ
  pub payload : Bytes

unfoldable pub encode_set_feature : SetFeature → Encoding
encode_set_feature c = encode_data_command (c.interface_number, c.timeout_ms, c.payload)

abbrev set_feature_of : DataCommand → SetFeature
set_feature_of (i, t, p) = record { interface_number = i; timeout_ms = t; payload = p }

unfoldable pub decode_set_feature : Bytes → Result ProtocolError SetFeature
decode_set_feature input = map_ok set_feature_of (decode_data_command "set_feature.data" input)

unfoldable pub encode_set_output : SetOutput → Encoding
encode_set_output c = encode_data_command (c.interface_number, c.timeout_ms, c.payload)

abbrev set_output_of : DataCommand → SetOutput
set_output_of (i, t, p) = record { interface_number = i; timeout_ms = t; payload = p }

unfoldable pub decode_set_output : Bytes → Result ProtocolError SetOutput
decode_set_output input = map_ok set_output_of (decode_data_command "set_output.data" input)

unfoldable pub encode_write : WriteReport → Encoding
encode_write c = encode_data_command (c.interface_number, c.timeout_ms, c.payload)

abbrev write_of : DataCommand → WriteReport
write_of (i, t, p) = record { interface_number = i; timeout_ms = t; payload = p }

unfoldable pub decode_write : Bytes → Result ProtocolError WriteReport
decode_write input = map_ok write_of (decode_data_command "write.data" input)

abbrev pub set_feature_wire : WirePayload SetFeature
set_feature_wire = record {
  message_type = Frame.set_feature;
  encode = encode_set_feature;
  decode = decode_set_feature;
}

abbrev pub set_output_wire : WirePayload SetOutput
set_output_wire = record {
  message_type = Frame.set_output;
  encode = encode_set_output;
  decode = decode_set_output;
}

abbrev pub write_wire : WirePayload WriteReport
write_wire = record { message_type = Frame.write; encode = encode_write; decode = decode_write }

pub record CommandIsValid (c : DataCommand) : Type 0 where
  pub interface_fits : IsU8 c.0
  pub timeout_fits : IsU16 c.1
  pub len_fits : IsU16 (length c.2)
  pub bytes : AreBytes c.2

abbrev layout : DataCommand → Bytes
layout (i, t, p) =
    (i ∷ [])
    ++ ((0 ∷ []) ++ (to_le_bytes 2 t ++ (to_le_bytes 2 (length p) ++ (to_le_bytes 2 0 ++ p))))

written : (c : DataCommand) → CommandIsValid c → to_bytes (encode_data_command c) ≡ ok (layout c)
unfolding encode_data_command Encoder.u8 Encoder.u16 Encoder.bytes
written c v = rw (lt→ltb (length c.2) 65536 v.len_fits) (simp append_assoc)

-- `decode_data_command` accepts exactly the encodings of the commands whose fields fit their
-- widths and whose data is at most 65535 bytes long, under whatever name of the data field.
pub decode_data_command_iff :
    (field : String) (c : DataCommand) (input : Bytes)
    → AreBytes input
    → IsUsize (length input)
    → (decode_data_command field input ≡ ok c)
      ↔ (CommandIsValid c × (to_bytes (encode_data_command c) ≡ ok input))
unfolding decode_data_command
decode_data_command_iff field =
    exact layout encode_data_command _ written
      (λ c v. Ends-bind _ _ (Reads-u8 _ _) (
        Ends-bind _ _ (Reads-reserved_u8 _) (
          Ends-bind _ _ (Reads-u16 _ _ v.timeout_fits) (
            Ends-bind _ _ (Reads-u16 _ _ v.len_fits) (
              Ends-bind _ _ (Reads-reserved_u16 _)
                (Ends-last _ _ (Reads-bytes _ c.2) (Ends-finish c)))))))
      (All-bind _ _ (Parses-u8 _) λ i b1 p1. All-bind _ _ (Parses-reserved_u8 _) λ _ b2 p2.
        All-bind _ _ (Parses-u16 _) λ t b3 p3. All-bind _ _ (Parses-u16 _) λ len b4 p4.
          All-bind _ _ (Parses-reserved_u16 _) λ _ b5 p5.
            All-bind _ _ (Parses-bytes _ _) λ payload b6 p6. All-finish _ (
              record {
                interface_fits = p1.0;
                timeout_fits = p3.0;
                len_fits = rw p6.1 p4.0;
                bytes = p6.2;
              },
              simp (p1.1, p2, p3.1, p4.1, p5, p6.0, p6.1, append-nil),
            ))
