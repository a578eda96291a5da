-- ===== src/Protocol/Frame/Message.antt =====
-- crates/crosspuck-core/src/protocol/frame.rs: the channels and the message types.
use crosspuck.Base.{ℕ, ◌≡◌, refl, arith, ◌==◌, if◌then◌else◌, IsU8}
use crosspuck.Base.Result.{Result, ok, err}

pub data Channel : Type 0 where
  control input : Channel

abbrev pub control_payload_limit : ℕ
control_payload_limit = 4096

abbrev pub input_payload_limit : ℕ
input_payload_limit = 256

unfoldable pub payload_limit : Channel → ℕ
payload_limit control = control_payload_limit
payload_limit input = input_payload_limit

pub data MessageType : Type 0 where
  hello hello_ok identity input_attach input_attach_ok status ping pong : MessageType
  get_feature feature_result set_feature set_feature_result : MessageType
  set_output set_output_result write write_result ioctl ioctl_result : MessageType
  input_report : MessageType

pub data FrameError : Type 0 where
  bad_magic : ℕ → ℕ → FrameError
  unsupported_version : ℕ → FrameError
  unknown_message_type : ℕ → FrameError

-- The discriminants, `message_type as u8`.
unfoldable pub to_u8 : MessageType → ℕ
to_u8 hello = 0x01
to_u8 hello_ok = 0x02
to_u8 identity = 0x03
to_u8 input_attach = 0x04
to_u8 input_attach_ok = 0x05
to_u8 status = 0x06
to_u8 ping = 0x07
to_u8 pong = 0x08
to_u8 get_feature = 0x10
to_u8 feature_result = 0x11
to_u8 set_feature = 0x12
to_u8 set_feature_result = 0x13
to_u8 set_output = 0x14
to_u8 set_output_result = 0x15
to_u8 write = 0x16
to_u8 write_result = 0x17
to_u8 ioctl = 0x18
to_u8 ioctl_result = 0x19
to_u8 input_report = 0x30

-- `TryFrom<u8> for MessageType`
unfoldable pub message_type_of_u8 : ℕ → Result FrameError MessageType
message_type_of_u8 value =
    if value == 0x01
    then ok hello
    else if value == 0x02
    then ok hello_ok
    else if value == 0x03
    then ok identity
    else if value == 0x04
    then ok input_attach
    else if value == 0x05
    then ok input_attach_ok
    else if value == 0x06
    then ok status
    else if value == 0x07
    then ok ping
    else if value == 0x08
    then ok pong
    else if value == 0x10
    then ok get_feature
    else if value == 0x11
    then ok feature_result
    else if value == 0x12
    then ok set_feature
    else if value == 0x13
    then ok set_feature_result
    else if value == 0x14
    then ok set_output
    else if value == 0x15
    then ok set_output_result
    else if value == 0x16
    then ok write
    else if value == 0x17
    then ok write_result
    else if value == 0x18
    then ok ioctl
    else if value == 0x19
    then ok ioctl_result
    else if value == 0x30
    then ok input_report
    else err (unknown_message_type value)

pub to_u8-IsU8 : (t : MessageType) → IsU8 (to_u8 t)
unfolding to_u8
to_u8-IsU8 hello = omega arith
to_u8-IsU8 _ = omega arith

pub message_type_of_u8-to_u8 : (t : MessageType) → message_type_of_u8 (to_u8 t) ≡ ok t
unfolding message_type_of_u8 to_u8
message_type_of_u8-to_u8 hello = refl
message_type_of_u8-to_u8 _ = refl

pub to_u8-message_type_of_u8 : (n : ℕ) (t : MessageType) → message_type_of_u8 n ≡ ok t → to_u8 t ≡ n
unfolding message_type_of_u8 to_u8
to_u8-message_type_of_u8 n t h = ground arith
