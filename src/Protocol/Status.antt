-- ===== src/Protocol/Status.antt =====
-- crates/crosspuck-core/src/protocol/status.rs: the status codes of replies.
use crosspuck.Base.{ℕ, ◌≡◌, refl, Bool, true, false, arith, ◌==◌, if◌then◌else◌, IsU16}
use crosspuck.Base.Result.{Result, ok, err}

pub data StatusCode : Type 0 where
  success bad_request unsupported_interface unsupported_operation : StatusCode
  hid_timeout hid_io_error device_disconnected protocol_error host_busy : StatusCode

-- `InvalidStatusCode(pub u16)`
pub data InvalidStatusCode : Type 0 where
  invalid_status_code : ℕ → InvalidStatusCode

-- `From<StatusCode> for u16`
unfoldable pub to_u16 : StatusCode → ℕ
to_u16 success = 0
to_u16 bad_request = 1
to_u16 unsupported_interface = 2
to_u16 unsupported_operation = 3
to_u16 hid_timeout = 4
to_u16 hid_io_error = 5
to_u16 device_disconnected = 6
to_u16 protocol_error = 7
to_u16 host_busy = 8

-- `TryFrom<u16> for StatusCode`
unfoldable pub status_of_u16 : ℕ → Result InvalidStatusCode StatusCode
status_of_u16 value =
    if value == 0
    then ok success
    else if value == 1
    then ok bad_request
    else if value == 2
    then ok unsupported_interface
    else if value == 3
    then ok unsupported_operation
    else if value == 4
    then ok hid_timeout
    else if value == 5
    then ok hid_io_error
    else if value == 6
    then ok device_disconnected
    else if value == 7
    then ok protocol_error
    else if value == 8
    then ok host_busy
    else err (invalid_status_code value)

unfoldable pub is_ok : StatusCode → Bool
is_ok success = true
is_ok _ = false

pub to_u16-IsU16 : (s : StatusCode) → IsU16 (to_u16 s)
unfolding to_u16
to_u16-IsU16 success = omega arith
to_u16-IsU16 _ = omega arith

pub status_of_u16-to_u16 : (s : StatusCode) → status_of_u16 (to_u16 s) ≡ ok s
unfolding status_of_u16 to_u16
status_of_u16-to_u16 success = refl
status_of_u16-to_u16 _ = refl

pub to_u16-status_of_u16 : (n : ℕ) (s : StatusCode) → status_of_u16 n ≡ ok s → to_u16 s ≡ n
unfolding status_of_u16 to_u16
to_u16-status_of_u16 n s h = ground arith
