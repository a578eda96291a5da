-- ===== src/Protocol/Codec/Decoder.antt =====
-- crates/crosspuck-core/src/protocol/codec.rs: `Decoder`, a place in the input.
use crosspuck.Base.{
  ℕ, ◌+◌, ◌-◌, ◌^◌, Option, none, some, ◌==◌, ltb, if◌then◌else◌, length, take as first, drop,
  String, Bytes, from_le_bytes,
}
use crosspuck.Base.Utf8.{is_utf8}
use crosspuck.Base.Result.{Result, ok, err}
use crosspuck.Base.Action.{Action, pure, raise, ◌>>=◌}
use crosspuck.Protocol.Frame.Header.{byte_at}
use crosspuck.Protocol.Codec.Error.{
  ProtocolError, invalid_utf8, invalid_length, invalid_reserved, trailing_bytes,
}

pub record Decoder : Type 0 where
  pub input : Bytes
  pub offset : ℕ

abbrev pub Decoding : Type 0 → Type 0
Decoding A = Action ProtocolError Decoder A

unfoldable pub new : Bytes → Decoder
new input = record { input = input; offset = 0 }

-- `usize::checked_add`
unfoldable pub checked_add : ℕ → ℕ → Option ℕ
checked_add a b = if ltb (a + b) (2 ^ 64) then some (a + b) else none

abbrev take_to : String → Option ℕ → Decoding Bytes
take_to field none d = (err (invalid_length field), d)
take_to field (some end) d =
    if ltb (length d.input) end
    then (err (invalid_length field), d)
    else (ok (first (end - d.offset) (drop d.offset d.input)), record d { offset = end })

unfoldable pub take : String → ℕ → Decoding Bytes
unfolding checked_add
take field len d = take_to field (checked_add d.offset len) d

-- `saturating_sub` is the subtraction of the native numbers.
unfoldable pub remaining : Decoder → ℕ
remaining d = length d.input - d.offset

unfoldable pub finish : Decoding Unit
finish d =
    let trailing = length d.input - d.offset in
    if trailing == 0 then (ok tt, d) else (err (trailing_bytes trailing), d)

unfoldable pub u8 : String → Decoding ℕ
u8 field = do bytes ← take field 1; pure (byte_at bytes 0)

unfoldable pub u16 : String → Decoding ℕ
u16 field = do bytes ← take field 2; pure (from_le_bytes bytes)

unfoldable pub u32 : String → Decoding ℕ
u32 field = do bytes ← take field 4; pure (from_le_bytes bytes)

unfoldable pub u64 : String → Decoding ℕ
u64 field = do bytes ← take field 8; pure (from_le_bytes bytes)

unfoldable pub reserved_u8 : String → Decoding Unit
reserved_u8 field = do
  value ← u8 field
  if value == 0 then pure tt else raise (invalid_reserved field)

unfoldable pub reserved_u16 : String → Decoding Unit
reserved_u16 field = do
  value ← u16 field
  if value == 0 then pure tt else raise (invalid_reserved field)

unfoldable pub bytes : String → ℕ → Decoding Bytes
bytes field len = take field len

unfoldable pub string : String → Decoding Bytes
string field = do
  len ← u16 field
  text ← take field len
  if is_utf8 text then pure text else raise invalid_utf8

abbrev result {ℓ} : {E A S : Type ℓ} → Result E A × S → Result E A
result (r, s) = r

-- A `decode` of the source: its fields are read by a fresh decoder, which is dropped at the end.
unfoldable pub run : {A : Type 0} → Decoding A → Bytes → Result ProtocolError A
unfolding new
run m input = result (m (new input))
