-- ===== src/Protocol/Payload/Overrides.antt =====
-- crates/crosspuck-core/src/protocol/payload.rs: `LogSeverity` and `GuestRuntimeOverrides`, the
-- settings of the guest that the host may override, with their optional block on the wire.
-- `DiagnosticHookGroups` is its bits.
pub mod Flags
pub mod Block
use Prim.Native.Nat.{bit_and, bit_or}
use crosspuck.Base.{
  ℕ, ◌-◌, ◌^◌, Bool, true, false, not, ◌&&◌, ◌||◌, Option, none, some, ◌==◌, if◌then◌else◌, String,
}
use crosspuck.Base.Result.{Result, ok, err}
use crosspuck.Base.Action.{pure, raise, ◌>>=◌, ◌>>◌}
use crosspuck.Protocol.Codec.Error.{ProtocolError, invalid_reserved, invalid_log_severity}
use crosspuck.Protocol.Codec.Encoder
use crosspuck.Protocol.Codec.Encoder.{Encoding}
use crosspuck.Protocol.Codec.Decoder
use crosspuck.Protocol.Codec.Decoder.{Decoding}

pub data LogSeverity : Type 0 where
  off error warn info debug trace : LogSeverity

-- `LogSeverity::id`
unfoldable pub severity_id : LogSeverity → ℕ
severity_id off = 0
severity_id error = 1
severity_id warn = 2
severity_id info = 3
severity_id debug = 4
severity_id trace = 5

-- `TryFrom<u8> for LogSeverity`
unfoldable pub severity_of_u8 : ℕ → Result ProtocolError LogSeverity
severity_of_u8 value =
    if value == 0
    then ok off
    else if value == 1
    then ok error
    else if value == 2
    then ok warn
    else if value == 3
    then ok info
    else if value == 4
    then ok debug
    else if value == 5
    then ok trace
    else err (invalid_log_severity value)

pub record GuestRuntimeOverrides : Type 0 where
  pub log_level : Option LogSeverity
  pub trace_reports : Option Bool
  pub trace_report_limit : Option ℕ
  pub trace_report_max_bytes : Option ℕ
  pub io_timeout_ms : Option ℕ
  pub reconnect_interval_ms : Option ℕ
  pub input_queue_capacity : Option ℕ
  pub replay_enabled : Option Bool
  pub diagnostic_hook_groups : Option ℕ

-- `GuestRuntimeOverrides::default`
abbrev pub no_overrides : GuestRuntimeOverrides
no_overrides = record {
  log_level = none;
  trace_reports = none;
  trace_report_limit = none;
  trace_report_max_bytes = none;
  io_timeout_ms = none;
  reconnect_interval_ms = none;
  input_queue_capacity = none;
  replay_enabled = none;
  diagnostic_hook_groups = none;
}

abbrev pub is_some {ℓ} : {A : Type ℓ} → Option A → Bool
is_some none = false
is_some (some a) = true

unfoldable pub has_extended_block : GuestRuntimeOverrides → Bool
has_extended_block o =
    is_some o.trace_reports
    || is_some o.trace_report_limit
    || is_some o.trace_report_max_bytes
    || is_some o.io_timeout_ms
    || is_some o.reconnect_interval_ms
    || is_some o.input_queue_capacity
    || is_some o.replay_enabled
    || is_some o.diagnostic_hook_groups

unfoldable pub is_empty : GuestRuntimeOverrides → Bool
is_empty o =
    not (is_some o.log_level)
    && not (is_some o.trace_reports)
    && not (is_some o.trace_report_limit)
    && not (is_some o.trace_report_max_bytes)
    && not (is_some o.io_timeout_ms)
    && not (is_some o.reconnect_interval_ms)
    && not (is_some o.input_queue_capacity)
    && not (is_some o.replay_enabled)
    && not (is_some o.diagnostic_hook_groups)

-- `u32::from_le_bytes(*b"CPG1")`
abbrev pub overrides_magic : ℕ
overrides_magic = 0x31475043

-- The bits 0 to 7 of the flags, in the order of the fields.
abbrev pub known_flags : ℕ
known_flags = 0xff

-- `flags |= bit`, under the test that the field is there.
abbrev pub or_flag : ℕ → Bool → ℕ → ℕ
or_flag flags present bit = if present then bit_or flags bit else flags

abbrev pub flag_bits : Bool → Bool → Bool → Bool → Bool → Bool → Bool → Bool → ℕ
flag_bits b0 b1 b2 b3 b4 b5 b6 b7 =
    let f0 : ℕ = or_flag 0 b0 1 in
    let f1 : ℕ = or_flag f0 b1 2 in
    let f2 : ℕ = or_flag f1 b2 4 in
    let f3 : ℕ = or_flag f2 b3 8 in
    let f4 : ℕ = or_flag f3 b4 16 in
    let f5 : ℕ = or_flag f4 b5 32 in let f6 : ℕ = or_flag f5 b6 64 in or_flag f6 b7 128

unfoldable pub flags : GuestRuntimeOverrides → ℕ
flags o =
    flag_bits (is_some o.trace_reports) (is_some o.trace_report_limit)
      (is_some o.trace_report_max_bytes) (is_some o.io_timeout_ms) (is_some o.reconnect_interval_ms)
      (is_some o.input_queue_capacity) (is_some o.replay_enabled) (is_some o.diagnostic_hook_groups)

unfoldable pub encode_bool : Bool → Encoding
encode_bool value = Encoder.u8 (if value then 1 else 0)

unfoldable pub decode_bool : String → Decoding Bool
decode_bool field = do
  value ← Decoder.u8 field
  if value == 0
      then pure false
      else if value == 1
      then pure true
      else raise (invalid_reserved field)

-- `if let Some(value) = field { encode(value) }`
abbrev pub encode_some {ℓ} : {A : Type ℓ} → Option A → (A → Encoding) → Encoding
encode_some none encode = pure tt
encode_some (some a) encode = encode a

unfoldable pub encode_extended_block : GuestRuntimeOverrides → Encoding
encode_extended_block o = if not (has_extended_block o) then pure tt else do
  Encoder.u32 overrides_magic
  Encoder.u32 (flags o)
  encode_some o.trace_reports encode_bool
  encode_some o.trace_report_limit Encoder.u32
  encode_some o.trace_report_max_bytes Encoder.u16
  encode_some o.io_timeout_ms Encoder.u32
  encode_some o.reconnect_interval_ms Encoder.u32
  encode_some o.input_queue_capacity Encoder.u16
  encode_some o.replay_enabled encode_bool
  encode_some o.diagnostic_hook_groups Encoder.u32

-- `flags & bit != 0`
abbrev pub has_flag : ℕ → ℕ → Bool
has_flag flags bit = not (bit_and flags bit == 0)

-- `if present { field = Some(decode()?) }`
abbrev pub decode_some : {A : Type 0} → Bool → Decoding A → Decoding (Option A)
decode_some true m = do a ← m; pure (some a)
decode_some false m = pure none

-- `!GUEST_OVERRIDE_KNOWN_FLAGS`, of 32 bits.
abbrev pub unknown_flags : ℕ
unknown_flags = 2 ^ 32 - 1 - known_flags

unfoldable pub decode_extended_block : Decoding GuestRuntimeOverrides
decode_extended_block = do
  magic ← Decoder.u32 "guest_runtime_overrides.magic"
  if not (magic == overrides_magic)
      then raise (invalid_reserved "guest_runtime_overrides.magic")
      else do
        flags ← Decoder.u32 "guest_runtime_overrides.flags"
        if has_flag flags unknown_flags
            then raise (invalid_reserved "guest_runtime_overrides.flags")
            else do
              trace_reports ←
                  decode_some (has_flag flags 1) (decode_bool "guest_runtime_overrides.trace")
              trace_report_limit ←
                  decode_some (has_flag flags 2)
                    (Decoder.u32 "guest_runtime_overrides.trace_report_limit")
              trace_report_max_bytes ←
                  decode_some (has_flag flags 4)
                    (Decoder.u16 "guest_runtime_overrides.trace_report_max_bytes")
              io_timeout_ms ←
                  decode_some (has_flag flags 8)
                    (Decoder.u32 "guest_runtime_overrides.io_timeout_ms")
              reconnect_interval_ms ←
                  decode_some (has_flag flags 16)
                    (Decoder.u32 "guest_runtime_overrides.reconnect_interval_ms")
              input_queue_capacity ←
                  decode_some (has_flag flags 32)
                    (Decoder.u16 "guest_runtime_overrides.input_queue_capacity")
              replay_enabled ←
                  decode_some (has_flag flags 64) (decode_bool "guest_runtime_overrides.replay")
              diagnostic_hook_groups ←
                  decode_some (has_flag flags 128)
                    (Decoder.u32 "guest_runtime_overrides.diagnostic_hook_groups")
              pure (record {
                log_level = none;
                trace_reports = trace_reports;
                trace_report_limit = trace_report_limit;
                trace_report_max_bytes = trace_report_max_bytes;
                io_timeout_ms = io_timeout_ms;
                reconnect_interval_ms = reconnect_interval_ms;
                input_queue_capacity = input_queue_capacity;
                replay_enabled = replay_enabled;
                diagnostic_hook_groups = diagnostic_hook_groups;
              })
