-- ===== src/Protocol/Payload/Tests.antt =====
-- crates/crosspuck-core/src/protocol/payload.rs: messages of a session, and their bytes.
mod Commands
use crosspuck.Base.{
  ℕ, ◌<◌, ◌≤◌, ◌≡◌, refl, ◌↔◌, [], ◌∷◌, arith, length, Bytes, AreBytes, are_bytes-AreBytes, none,
  some, true,
}
use crosspuck.Base.Result.{ok}
use crosspuck.Protocol.Status
use crosspuck.Protocol.Codec.Wire.{to_bytes}
use crosspuck.Protocol.Payload.Hello
use crosspuck.Protocol.Payload.Hello.{Hello, decode-hello_iff}
use crosspuck.Protocol.Payload.Attach.{
  InputAttach, InputAttachOk, AttachIsValid, AttachOkIsValid, encode_attach, decode_attach,
  encode_attach_ok, decode_attach_ok,
}
use crosspuck.Protocol.Payload.Overrides.{GuestRuntimeOverrides, no_overrides}
use crosspuck.Protocol.Payload.HelloOk.{HelloOk, encode_hello_ok, decode_hello_ok}
use crosspuck.Protocol.Payload.HelloOk.RoundTrip.{HelloOkIsValid, decode-encode_hello_ok}
use crosspuck.Protocol.Payload.Role.{puck_main}
use crosspuck.Protocol.Payload.Identity.{
  CollectionDescriptor, IdentityPayload, encode_identity, decode_identity,
}
use crosspuck.Protocol.Payload.Identity.Exact.{IdentityIsValid, decode_identity_iff}
use crosspuck.Protocol.Payload.Report
use crosspuck.Protocol.Payload.Report.{
  InputReport, encode_input_report, decode_input_report, decode_input_report_iff,
}

abbrev some_hello : Hello
some_hello = record { guest_pid = 4242; guest_protocol_version = 1; guest_capabilities = 0 }

abbrev hello_bytes : Bytes
hello_bytes = 0x92 ∷ 0x10 ∷ 0 ∷ 0 ∷ 1 ∷ 0 ∷ 0 ∷ 0 ∷ 0 ∷ 0 ∷ 0 ∷ 0 ∷ []

decode-hello_iff_example :
    (Hello.decode hello_bytes ≡ ok some_hello)
    ↔ (Hello.IsValid some_hello × (to_bytes (Hello.encode some_hello) ≡ ok hello_bytes))
decode-hello_iff_example =
    decode-hello_iff some_hello hello_bytes (are_bytes-AreBytes hello_bytes refl) (omega arith)

abbrev some_overrides : GuestRuntimeOverrides
some_overrides = record no_overrides { io_timeout_ms = some 250; replay_enabled = some true }

abbrev some_hello_ok : HelloOk
some_hello_ok = record {
  status = Status.success;
  protocol_version = 1;
  session_id = 0xcafe;
  session_trace_id = 0xabcde;
  guest_runtime_overrides = some_overrides;
  control_payload_limit = 4096;
  input_payload_limit = 256;
  default_input_report_len = 54;
}

some_hello_ok-IsValid : HelloOkIsValid some_hello_ok
some_hello_ok-IsValid = record {
  version_fits = omega arith;
  session_fits = omega arith;
  trace_fits = omega arith;
  control_fits = omega arith;
  input_fits = omega arith;
  len_fits = omega arith;
  overrides_fit = record {
    limit_fits = tt;
    max_bytes_fits = tt;
    timeout_fits = omega arith;
    interval_fits = tt;
    capacity_fits = tt;
    hooks_fit = tt;
  };
}

abbrev hello_ok_bytes : Bytes
hello_ok_bytes =
    0 ∷ 0 ∷ 1 ∷ 0 ∷ 0xfe ∷ 0xca ∷ 0 ∷ 0 ∷ 0 ∷ 0x10 ∷ 0 ∷ 1 ∷ 54 ∷ 0 ∷ 0 ∷ 0 ∷ 0xde ∷ 0xbc ∷ 0x0a ∷ 0
    ∷ 0xff ∷ 0 ∷ 0 ∷ 0 ∷ 0x43 ∷ 0x50 ∷ 0x47 ∷ 0x31 ∷ 0x48 ∷ 0 ∷ 0 ∷ 0 ∷ 0xfa ∷ 0 ∷ 0 ∷ 0 ∷ 1 ∷ []

hello_ok_encoded : to_bytes (encode_hello_ok some_hello_ok) ≡ ok hello_ok_bytes
unfolding encode_hello_ok crosspuck.Protocol.Codec.Encoder.u16 crosspuck.Protocol.Codec.Encoder.u32
    crosspuck.Protocol.Payload.Overrides.is_empty crosspuck.Protocol.Codec.Encoder.u8
    crosspuck.Protocol.Payload.Overrides.encode_extended_block
    crosspuck.Protocol.Payload.Overrides.has_extended_block
    crosspuck.Protocol.Payload.Overrides.encode_bool crosspuck.Base.to_le_bytes Status.to_u16
    crosspuck.Protocol.Payload.Overrides.flags
hello_ok_encoded = refl

decode-encode_hello_ok_example : decode_hello_ok hello_ok_bytes ≡ ok some_hello_ok
decode-encode_hello_ok_example =
    decode-encode_hello_ok some_hello_ok hello_ok_bytes some_hello_ok-IsValid (omega arith)
      hello_ok_encoded

abbrev main_collection : CollectionDescriptor
main_collection = record {
  role = puck_main;
  interface_number = 2;
  usage_page = 0xff00;
  usage = 1;
  input_report_len = 54;
  output_report_len = 64;
  feature_report_len = 64;
}

abbrev some_identity : IdentityPayload
some_identity = record {
  vendor_id = 0x28de;
  product_id = 0x1304;
  version_number = 2;
  manufacturer = b'V' ∷ [];
  product = b'P' ∷ [];
  serial = [];
  collections = main_collection ∷ [];
}

abbrev identity_bytes : Bytes
identity_bytes =
    0xde ∷ 0x28 ∷ 4 ∷ 0x13 ∷ 2 ∷ 0 ∷ 1 ∷ 0 ∷ b'V' ∷ 1 ∷ 0 ∷ b'P' ∷ 0 ∷ 0 ∷ 1 ∷ 1 ∷ 2 ∷ 0 ∷ 0xff ∷ 1
    ∷ 0 ∷ 54 ∷ 0 ∷ 64 ∷ 0 ∷ 64 ∷ 0 ∷ []

decode_identity_iff_example : (decode_identity identity_bytes ≡ ok some_identity) ↔ (
    IdentityIsValid some_identity × (to_bytes (encode_identity some_identity) ≡ ok identity_bytes))
decode_identity_iff_example =
    decode_identity_iff some_identity identity_bytes (are_bytes-AreBytes identity_bytes refl)
      (omega arith)

abbrev some_report : InputReport
some_report = record {
  interface_number = 2;
  role = puck_main;
  host_monotonic_us = 10;
  payload = 0x79 ∷ 0x02 ∷ [];
}

abbrev report_bytes : Bytes
report_bytes = 2 ∷ 1 ∷ 2 ∷ 0 ∷ 10 ∷ 0 ∷ 0 ∷ 0 ∷ 0 ∷ 0 ∷ 0 ∷ 0 ∷ 0x79 ∷ 0x02 ∷ []

decode_input_report_iff_example :
    (decode_input_report report_bytes ≡ ok some_report)
    ↔ (Report.IsValid some_report × (to_bytes (encode_input_report some_report) ≡ ok report_bytes))
decode_input_report_iff_example =
    decode_input_report_iff some_report report_bytes (are_bytes-AreBytes report_bytes refl)
      (omega arith)

-- The bytes of the examples are those that the code writes and reads.
identity_read : decode_identity identity_bytes ≡ ok some_identity
unfolding decode_identity crosspuck.Protocol.Codec.Decoder.run crosspuck.Protocol.Codec.Decoder.u16
    crosspuck.Protocol.Codec.Decoder.take crosspuck.Protocol.Codec.Decoder.string
    crosspuck.Base.from_le_bytes crosspuck.Base.Utf8.is_utf8 crosspuck.Protocol.Codec.Decoder.u8
    crosspuck.Protocol.Frame.Header.byte_at crosspuck.Protocol.Payload.Identity.decode_collections
    crosspuck.Protocol.Payload.Identity.decode_collection crosspuck.Protocol.Payload.Role.role_of_u8
    crosspuck.Protocol.Codec.Decoder.finish
identity_read = refl

report_read : decode_input_report report_bytes ≡ ok some_report
unfolding decode_input_report crosspuck.Protocol.Codec.Decoder.run
    crosspuck.Protocol.Codec.Decoder.u8 crosspuck.Protocol.Codec.Decoder.take
    crosspuck.Protocol.Payload.Role.role_of_u8 crosspuck.Protocol.Frame.Header.byte_at
    crosspuck.Protocol.Codec.Decoder.u16 crosspuck.Protocol.Codec.Decoder.u64
    crosspuck.Protocol.Codec.Decoder.bytes crosspuck.Base.from_le_bytes
    crosspuck.Protocol.Codec.Decoder.finish
report_read = refl
