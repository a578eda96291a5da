-- ===== src/Protocol/Payload/Tests/Commands.antt =====
-- crates/crosspuck-core/src/protocol/payload.rs: commands and their results, and their bytes.
use crosspuck.Base.{◌≡◌, refl, ◌↔◌, [], ◌∷◌, arith, Bytes, are_bytes-AreBytes}
use crosspuck.Base.Result.{ok}
use crosspuck.Protocol.Status
use crosspuck.Protocol.Codec.Wire.{to_bytes}
use crosspuck.Protocol.Payload.Command.{
  DataCommand, CommandIsValid, encode_data_command, decode_data_command, decode_data_command_iff,
}
use crosspuck.Protocol.Payload.Count.{CountResult, decode_count_result}
use crosspuck.Protocol.Payload.Feature.{
  GetFeature, decode_get_feature, FeatureResult, ResultIsValid, encode_feature_result,
  decode_feature_result, decode_feature_result_iff,
}
use crosspuck.Protocol.Payload.Ioctl.{IoctlCommand, decode_ioctl, IoctlResult, decode_ioctl_result}

abbrev some_command : DataCommand
some_command = (0x02, 50, 0x82 ∷ 0x03 ∷ [])

abbrev command_bytes : Bytes
command_bytes = 2 ∷ 0 ∷ 50 ∷ 0 ∷ 2 ∷ 0 ∷ 0 ∷ 0 ∷ 0x82 ∷ 0x03 ∷ []

decode_data_command_iff_example :
    (decode_data_command "write.data" command_bytes ≡ ok some_command) ↔ (
      CommandIsValid some_command
      × (to_bytes (encode_data_command some_command) ≡ ok command_bytes))
decode_data_command_iff_example =
    decode_data_command_iff "write.data" some_command command_bytes
      (are_bytes-AreBytes command_bytes refl) (omega arith)

command_read : decode_data_command "write.data" command_bytes ≡ ok some_command
unfolding decode_data_command crosspuck.Protocol.Codec.Decoder.run
    crosspuck.Protocol.Codec.Decoder.u8 crosspuck.Protocol.Codec.Decoder.take
    crosspuck.Protocol.Codec.Decoder.reserved_u8 crosspuck.Protocol.Frame.Header.byte_at
    crosspuck.Protocol.Codec.Decoder.u16 crosspuck.Protocol.Codec.Decoder.reserved_u16
    crosspuck.Base.from_le_bytes crosspuck.Protocol.Codec.Decoder.bytes
    crosspuck.Protocol.Codec.Decoder.finish
command_read = refl

abbrev some_count : CountResult
some_count = (Status.success, 54, 0)

abbrev count_bytes : Bytes
count_bytes = 0 ∷ 0 ∷ 54 ∷ 0 ∷ 0 ∷ 0 ∷ 0 ∷ 0 ∷ []

count_read : decode_count_result count_bytes ≡ ok some_count
unfolding decode_count_result crosspuck.Protocol.Codec.Decoder.run
    crosspuck.Protocol.Codec.Decoder.u16 crosspuck.Protocol.Codec.Decoder.take
    crosspuck.Protocol.Codec.Error.decode_status Status.status_of_u16 crosspuck.Base.from_le_bytes
    crosspuck.Protocol.Codec.Decoder.u32 crosspuck.Protocol.Codec.Decoder.finish
count_read = refl

abbrev some_get : GetFeature
some_get = record { interface_number = 2; report_id = 2; requested_len = 64; timeout_ms = 50 }

abbrev get_bytes : Bytes
get_bytes = 2 ∷ 2 ∷ 64 ∷ 0 ∷ 50 ∷ 0 ∷ 0 ∷ 0 ∷ []

get_read : decode_get_feature get_bytes ≡ ok some_get
unfolding decode_get_feature crosspuck.Protocol.Codec.Decoder.run
    crosspuck.Protocol.Codec.Decoder.u8 crosspuck.Protocol.Codec.Decoder.take
    crosspuck.Protocol.Codec.Decoder.u16 crosspuck.Protocol.Codec.Decoder.reserved_u16
    crosspuck.Base.from_le_bytes crosspuck.Protocol.Codec.Decoder.finish
    crosspuck.Protocol.Frame.Header.byte_at
get_read = refl

abbrev some_feature : FeatureResult
some_feature = record { status = Status.success; os_error = 0; payload = 2 ∷ 0xb4 ∷ 1 ∷ [] }

abbrev feature_bytes : Bytes
feature_bytes = 0 ∷ 0 ∷ 3 ∷ 0 ∷ 0 ∷ 0 ∷ 0 ∷ 0 ∷ 2 ∷ 0xb4 ∷ 1 ∷ []

decode_feature_result_iff_example : (decode_feature_result feature_bytes ≡ ok some_feature) ↔ (
    ResultIsValid some_feature × (to_bytes (encode_feature_result some_feature) ≡ ok feature_bytes))
decode_feature_result_iff_example =
    decode_feature_result_iff some_feature feature_bytes (are_bytes-AreBytes feature_bytes refl)
      (omega arith)

feature_read : decode_feature_result feature_bytes ≡ ok some_feature
unfolding decode_feature_result crosspuck.Protocol.Codec.Decoder.run
    crosspuck.Protocol.Codec.Decoder.u16 crosspuck.Protocol.Codec.Decoder.take
    crosspuck.Protocol.Codec.Error.decode_status Status.status_of_u16 crosspuck.Base.from_le_bytes
    crosspuck.Protocol.Codec.Decoder.u32 crosspuck.Protocol.Codec.Decoder.bytes
    crosspuck.Protocol.Codec.Decoder.finish
feature_read = refl

abbrev some_ioctl : IoctlCommand
some_ioctl = record {
  ioctl_code = 0xb0192;
  interface_number = 2;
  timeout_ms = 50;
  out_len = 64;
  payload = 5 ∷ [];
}

abbrev ioctl_bytes : Bytes
ioctl_bytes = 0x92 ∷ 1 ∷ 0xb ∷ 0 ∷ 2 ∷ 0 ∷ 50 ∷ 0 ∷ 1 ∷ 0 ∷ 64 ∷ 0 ∷ 5 ∷ []

ioctl_read : decode_ioctl ioctl_bytes ≡ ok some_ioctl
unfolding decode_ioctl crosspuck.Protocol.Codec.Decoder.run crosspuck.Protocol.Codec.Decoder.u32
    crosspuck.Protocol.Codec.Decoder.take crosspuck.Protocol.Codec.Decoder.u8
    crosspuck.Protocol.Codec.Decoder.reserved_u8 crosspuck.Protocol.Frame.Header.byte_at
    crosspuck.Protocol.Codec.Decoder.u16 crosspuck.Protocol.Codec.Decoder.bytes
    crosspuck.Base.from_le_bytes crosspuck.Protocol.Codec.Decoder.finish
ioctl_read = refl

abbrev some_ioctl_result : IoctlResult
some_ioctl_result = record {
  status = Status.success;
  bytes_returned = 1;
  os_error = 0;
  payload = 9 ∷ [];
}

abbrev ioctl_result_bytes : Bytes
ioctl_result_bytes = 0 ∷ 0 ∷ 1 ∷ 0 ∷ 1 ∷ 0 ∷ 0 ∷ 0 ∷ 0 ∷ 0 ∷ 0 ∷ 0 ∷ 9 ∷ []

ioctl_result_read : decode_ioctl_result ioctl_result_bytes ≡ ok some_ioctl_result
unfolding decode_ioctl_result crosspuck.Protocol.Codec.Decoder.run
    crosspuck.Protocol.Codec.Decoder.u16 crosspuck.Protocol.Codec.Decoder.take
    crosspuck.Protocol.Codec.Error.decode_status Status.status_of_u16 crosspuck.Base.from_le_bytes
    crosspuck.Protocol.Codec.Decoder.u32 crosspuck.Protocol.Codec.Decoder.bytes
    crosspuck.Protocol.Codec.Decoder.finish
ioctl_result_read = refl
