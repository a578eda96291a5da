-- ===== src/Protocol/Codec/Encoder.antt =====
-- crates/crosspuck-core/src/protocol/codec.rs: `Encoder`, which appends to the output.
use crosspuck.Base.{ℕ, [], ◌∷◌, ◌++◌, ltb, if◌then◌else◌, length, Bytes, to_le_bytes}
use crosspuck.Base.Result.{ok}
use crosspuck.Base.Action.{Action, ◌>>◌, raise}
use crosspuck.Protocol.Codec.Error.{ProtocolError, string_too_long}

abbrev pub Encoding : Type 0
Encoding = Action ProtocolError Bytes Unit

unfoldable pub u8 : ℕ → Encoding
u8 value out = (ok tt, out ++ (value ∷ []))

unfoldable pub u16 : ℕ → Encoding
u16 value out = (ok tt, out ++ to_le_bytes 2 value)

unfoldable pub u32 : ℕ → Encoding
u32 value out = (ok tt, out ++ to_le_bytes 4 value)

unfoldable pub u64 : ℕ → Encoding
u64 value out = (ok tt, out ++ to_le_bytes 8 value)

unfoldable pub bytes : Bytes → Encoding
bytes value out = (ok tt, out ++ value)

unfoldable pub string : Bytes → Encoding
string value =
    if ltb (length value) 65536
    then (do u16 (length value); bytes value)
    else raise (string_too_long (length value))
