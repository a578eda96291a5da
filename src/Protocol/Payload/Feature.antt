-- ===== src/Protocol/Payload/Feature.antt =====
-- crates/crosspuck-core/src/protocol/payload.rs: `GetFeature` and `FeatureResult`.
use crosspuck.Base.{
  ◌≡◌, ℕ, ◌↔◌, [], ◌∷◌, ◌++◌, append_assoc, append-nil, length, ltb, lt→ltb, if◌then◌else◌, Bytes,
  AreBytes, IsU8, IsU16, IsU32, IsUsize, to_le_bytes,
}
use crosspuck.Base.Result.{Result, ok}
use crosspuck.Base.Action.{pure, raise, lift, ◌>>=◌, ◌>>◌}
use crosspuck.Protocol.Frame
use crosspuck.Protocol.Status.{StatusCode, to_u16, to_u16-IsU16}
use crosspuck.Protocol.Codec.Error.{ProtocolError, invalid_length, decode_status}
use crosspuck.Protocol.Codec.Encoder
use crosspuck.Protocol.Codec.Encoder.{Encoding}
use crosspuck.Protocol.Codec.Decoder
use crosspuck.Protocol.Codec.Decoder.{Decoding}
use crosspuck.Protocol.Codec.Reads.{
  Ends-bind, Ends-last, Ends-finish, Reads-u8, Reads-u16, Reads-u32, Reads-bytes,
  Reads-reserved_u16, Reads-status,
}
use crosspuck.Protocol.Codec.Parses.{
  Parses-u8, Parses-u16, Parses-u32, Parses-bytes, Parses-reserved_u16, Parses-status,
}
use crosspuck.Protocol.Codec.Whole.{All-bind, All-finish}
use crosspuck.Protocol.Codec.Wire.{WirePayload, to_bytes, exact}

pub record GetFeature : Type 0 where
  pub interface_number : ℕ
  pub report_id : ℕ
  pub requested_len : ℕ
  pub timeout_ms : ℕ

pub record FeatureResult : Type 0 where
  pub status : StatusCode
  pub os_error : ℕ
  pub payload : Bytes

unfoldable pub encode_get_feature : GetFeature → Encoding
encode_get_feature g = do
  Encoder.u8 g.interface_number
  Encoder.u8 g.report_id
  Encoder.u16 g.requested_len
  Encoder.u16 g.timeout_ms
  Encoder.u16 0

unfoldable pub decode_get_feature : Bytes → Result ProtocolError GetFeature
decode_get_feature = Decoder.run (do
  interface_number ← Decoder.u8 "interface_number"
  report_id ← Decoder.u8 "report_id"
  requested_len ← Decoder.u16 "requested_len"
  timeout_ms ← Decoder.u16 "timeout_ms"
  Decoder.reserved_u16 "get_feature.reserved_zero"
  Decoder.finish
  pure (record {
    interface_number = interface_number;
    report_id = report_id;
    requested_len = requested_len;
    timeout_ms = timeout_ms;
  }))

unfoldable pub encode_feature_result : FeatureResult → Encoding
encode_feature_result r =
    if ltb (length r.payload) 65536
    then (do
      Encoder.u16 (to_u16 r.status)
      Encoder.u16 (length r.payload)
      Encoder.u32 r.os_error
      Encoder.bytes r.payload)
    else raise (invalid_length "data_len")

unfoldable pub decode_feature_result : Bytes → Result ProtocolError FeatureResult
decode_feature_result = Decoder.run (do
  code ← Decoder.u16 "status"
  status ← lift (decode_status code)
  data_len ← Decoder.u16 "data_len"
  os_error ← Decoder.u32 "os_error"
  payload ← Decoder.bytes "raw_feature_report" data_len
  Decoder.finish
  pure (record { status = status; os_error = os_error; payload = payload }))

abbrev pub get_feature_wire : WirePayload GetFeature
get_feature_wire = record {
  message_type = Frame.get_feature;
  encode = encode_get_feature;
  decode = decode_get_feature;
}

abbrev pub feature_result_wire : WirePayload FeatureResult
feature_result_wire = record {
  message_type = Frame.feature_result;
  encode = encode_feature_result;
  decode = decode_feature_result;
}

pub record GetIsValid (g : GetFeature) : Type 0 where
  pub interface_fits : IsU8 g.interface_number
  pub report_fits : IsU8 g.report_id
  pub requested_fits : IsU16 g.requested_len
  pub timeout_fits : IsU16 g.timeout_ms

pub record ResultIsValid (r : FeatureResult) : Type 0 where
  pub error_fits : IsU32 r.os_error
  pub len_fits : IsU16 (length r.payload)
  pub bytes : AreBytes r.payload

abbrev get_layout : GetFeature → Bytes
get_layout g =
    (g.interface_number ∷ [])
    ++ ((g.report_id ∷ [])
        ++ (to_le_bytes 2 g.requested_len ++ (to_le_bytes 2 g.timeout_ms ++ to_le_bytes 2 0)))

abbrev result_layout : FeatureResult → Bytes
result_layout r =
    to_le_bytes 2 (to_u16 r.status)
    ++ (to_le_bytes 2 (length r.payload) ++ (to_le_bytes 4 r.os_error ++ r.payload))

get_written : (g : GetFeature) → to_bytes (encode_get_feature g) ≡ ok (get_layout g)
unfolding encode_get_feature Encoder.u8 Encoder.u16
get_written g = simp append_assoc

result_written :
    (r : FeatureResult)
    → ResultIsValid r
    → to_bytes (encode_feature_result r) ≡ ok (result_layout r)
unfolding encode_feature_result Encoder.u16 Encoder.u32 Encoder.bytes
result_written r v = rw (lt→ltb (length r.payload) 65536 v.len_fits) (simp append_assoc)

-- `GetFeature::decode` accepts exactly the encodings of the requests whose fields fit their widths.
decode_get_feature_iff :
    (g : GetFeature) (input : Bytes)
    → AreBytes input
    → IsUsize (length input)
    → (decode_get_feature input ≡ ok g)
      ↔ (GetIsValid g × (to_bytes (encode_get_feature g) ≡ ok input))
unfolding decode_get_feature
decode_get_feature_iff =
    exact get_layout encode_get_feature _ (λ g _. get_written g)
      (λ g v. Ends-bind _ _ (Reads-u8 _ _) (
        Ends-bind _ _ (Reads-u8 _ _) (
          Ends-bind _ _ (Reads-u16 _ _ v.requested_fits) (
            Ends-bind _ _ (Reads-u16 _ _ v.timeout_fits)
              (Ends-last _ _ (Reads-reserved_u16 _) (Ends-finish g))))))
      (All-bind _ _ (Parses-u8 _) λ i b1 p1. All-bind _ _ (Parses-u8 _) λ report b2 p2.
        All-bind _ _ (Parses-u16 _) λ requested b3 p3. All-bind _ _ (Parses-u16 _) λ timeout b4 p4.
          All-bind _ _ (Parses-reserved_u16 _) λ _ b5 p5. All-finish _ (
            record {
              interface_fits = p1.0;
              report_fits = p2.0;
              requested_fits = p3.0;
              timeout_fits = p4.0;
            },
            simp (p1.1, p2.1, p3.1, p4.1, p5, append-nil),
          ))

-- `FeatureResult::decode` accepts exactly the encodings of the results whose error fits 32 bits and
-- whose data is at most 65535 bytes long.
pub decode_feature_result_iff :
    (r : FeatureResult) (input : Bytes)
    → AreBytes input
    → IsUsize (length input)
    → (decode_feature_result input ≡ ok r)
      ↔ (ResultIsValid r × (to_bytes (encode_feature_result r) ≡ ok input))
unfolding decode_feature_result
decode_feature_result_iff =
    exact result_layout encode_feature_result _ result_written
      (λ r v. Ends-bind _ _ (Reads-u16 _ _ (to_u16-IsU16 r.status)) (
        Ends-bind _ _ (Reads-status r.status) (
          Ends-bind _ _ (Reads-u16 _ _ v.len_fits) (
            Ends-bind _ _ (Reads-u32 _ _ v.error_fits)
              (Ends-last _ _ (Reads-bytes _ r.payload) (Ends-finish r))))))
      (All-bind _ _ (Parses-u16 _) λ code b1 p1. All-bind _ _ (Parses-status code) λ status b2 p2.
        All-bind _ _ (Parses-u16 _) λ len b3 p3. All-bind _ _ (Parses-u32 _) λ os_error b4 p4.
          All-bind _ _ (Parses-bytes _ _) λ payload b5 p5. All-finish _ (
            record { error_fits = p4.0; len_fits = rw p5.1 p3.0; bytes = p5.2 },
            simp (p1.1, p2.1, ← p2.0, p3.1, p4.1, p5.0, p5.1, append-nil),
          ))
