-- ===== src/Protocol/Payload/Report.antt =====
-- crates/crosspuck-core/src/protocol/payload.rs: `InputReport`.
use crosspuck.Base.{
  ◌≡◌, ℕ, ◌↔◌, [], ◌∷◌, ◌++◌, append_assoc, append-nil, length, ltb, lt→ltb, if◌then◌else◌, Bytes,
  AreBytes, IsU8, IsU16, IsU64, IsUsize, to_le_bytes,
}
use crosspuck.Base.Result.{Result, ok}
use crosspuck.Base.Action.{pure, raise, lift, ◌>>=◌, ◌>>◌}
use crosspuck.Protocol.Frame
use crosspuck.Protocol.Codec.Error.{ProtocolError, invalid_length}
use crosspuck.Protocol.Codec.Encoder
use crosspuck.Protocol.Codec.Encoder.{Encoding}
use crosspuck.Protocol.Codec.Decoder
use crosspuck.Protocol.Codec.Decoder.{Decoding}
use crosspuck.Protocol.Codec.Reads.{
  Ends-bind, Ends-last, Ends-finish, Reads-u8, Reads-u16, Reads-u64, Reads-bytes,
}
use crosspuck.Protocol.Codec.Parses.{Parses-u8, Parses-u16, Parses-u64, Parses-bytes}
use crosspuck.Protocol.Codec.Whole.{All-bind, All-finish}
use crosspuck.Protocol.Codec.Wire.{WirePayload, to_bytes, exact}
use crosspuck.Protocol.Payload.Role.{CollectionRole, role_id, role_of_u8, Reads-role, Parses-role}

pub record InputReport : Type 0 where
  pub interface_number : ℕ
  pub role : CollectionRole
  pub host_monotonic_us : ℕ
  pub payload : Bytes

unfoldable pub encode_input_report : InputReport → Encoding
encode_input_report r =
    if ltb (length r.payload) 65536
    then (do
      Encoder.u8 r.interface_number
      Encoder.u8 (role_id r.role)
      Encoder.u16 (length r.payload)
      Encoder.u64 r.host_monotonic_us
      Encoder.bytes r.payload)
    else raise (invalid_length "report_len")

unfoldable pub decode_input_report : Bytes → Result ProtocolError InputReport
decode_input_report = Decoder.run (do
  interface_number ← Decoder.u8 "interface_number"
  role_byte ← Decoder.u8 "role"
  role ← lift (role_of_u8 role_byte)
  report_len ← Decoder.u16 "report_len"
  host_monotonic_us ← Decoder.u64 "host_monotonic_us"
  payload ← Decoder.bytes "raw_input_report" report_len
  Decoder.finish
  pure (record {
    interface_number = interface_number;
    role = role;
    host_monotonic_us = host_monotonic_us;
    payload = payload;
  }))

abbrev pub input_report_wire : WirePayload InputReport
input_report_wire = record {
  message_type = Frame.input_report;
  encode = encode_input_report;
  decode = decode_input_report;
}

pub record IsValid (r : InputReport) : Type 0 where
  pub interface_fits : IsU8 r.interface_number
  pub len_fits : IsU16 (length r.payload)
  pub time_fits : IsU64 r.host_monotonic_us
  pub bytes : AreBytes r.payload

abbrev layout : InputReport → Bytes
layout r =
    (r.interface_number ∷ [])
    ++ ((role_id r.role ∷ [])
        ++ (to_le_bytes 2 (length r.payload) ++ (to_le_bytes 8 r.host_monotonic_us ++ r.payload)))

written : (r : InputReport) → IsValid r → to_bytes (encode_input_report r) ≡ ok (layout r)
unfolding encode_input_report Encoder.u8 Encoder.u16 Encoder.u64 Encoder.bytes
written r v = rw (lt→ltb (length r.payload) 65536 v.len_fits) (simp append_assoc)

-- `InputReport::decode` accepts exactly the encodings of the reports whose numbers fit their widths
-- and whose data is at most 65535 bytes long.
pub decode_input_report_iff :
    (r : InputReport) (input : Bytes)
    → AreBytes input
    → IsUsize (length input)
    → (decode_input_report input ≡ ok r)
      ↔ (IsValid r × (to_bytes (encode_input_report r) ≡ ok input))
unfolding decode_input_report
decode_input_report_iff =
    exact layout encode_input_report _ written
      (λ r v. Ends-bind _ _ (Reads-u8 _ _) (
        Ends-bind _ _ (Reads-u8 _ _) (
          Ends-bind _ _ (Reads-role r.role) (
            Ends-bind _ _ (Reads-u16 _ _ v.len_fits) (
              Ends-bind _ _ (Reads-u64 _ _ v.time_fits)
                (Ends-last _ _ (Reads-bytes _ r.payload) (Ends-finish r)))))))
      (All-bind _ _ (Parses-u8 _) λ i b1 p1. All-bind _ _ (Parses-u8 _) λ role_byte b2 p2.
        All-bind _ _ (Parses-role role_byte) λ role b3 p3. All-bind _ _ (Parses-u16 _) λ len b4 p4.
          All-bind _ _ (Parses-u64 _) λ time b5 p5. All-bind _ _ (Parses-bytes _ _) λ payload b6 p6.
            All-finish _ (
              record {
                interface_fits = p1.0;
                len_fits = rw p6.1 p4.0;
                time_fits = p5.0;
                bytes = p6.2;
              },
              simp (p1.1, p2.1, p3.1, ← p3.0, p4.1, p5.1, p6.0, p6.1, append-nil),
            ))
