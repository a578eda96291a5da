-- ===== src/Protocol/Frame/Header.antt =====
-- crates/crosspuck-core/src/protocol/frame.rs: `FrameHeader` and `Frame`.
use crosspuck.Base.{
  ℕ, zero, suc, ◌-◌, ◌%◌, ◌^◌, ◌≡◌, refl, not, ◌&&◌, [], ◌∷◌, ◌++◌, arith, ◌==◌, if◌then◌else◌,
  length, take, drop, IsU32, Bytes, AreBytes, to_le_bytes, from_le_bytes, from-to_le_bytes,
  to-from_le_bytes, from_le_bytes-lt,
}
use crosspuck.Base.Result.{Result, ok, err, ◌>>=◌}
use crosspuck.Protocol.Frame.Message.{
  MessageType, FrameError, bad_magic, unsupported_version, to_u8, message_type_of_u8,
  message_type_of_u8-to_u8, to_u8-message_type_of_u8,
}

abbrev pub protocol_version : ℕ
protocol_version = 1

abbrev pub frame_header_len : ℕ
frame_header_len = 12

pub record FrameHeader : Type 0 where
  pub message_type : MessageType
  pub id : ℕ
  pub payload_len : ℕ

pub record Frame : Type 0 where
  pub header : FrameHeader
  pub payload : Bytes

-- `bytes[i]` of an array that is long enough.
unfoldable pub byte_at : Bytes → ℕ → ℕ
byte_at [] i = 0
byte_at (b ∷ bs) zero = b
byte_at (b ∷ bs) (suc i) = byte_at bs i

-- `bytes[first..last]`
abbrev pub slice : Bytes → ℕ → ℕ → Bytes
slice bytes first last = take (last - first) (drop first bytes)

unfoldable pub encode : FrameHeader → Bytes
encode h =
    b'C'
    ∷ b'P'
    ∷ protocol_version
    ∷ to_u8 h.message_type
    ∷ (to_le_bytes 4 h.id ++ to_le_bytes 4 h.payload_len)

unfoldable pub decode : Bytes → Result FrameError FrameHeader
unfolding byte_at
decode bytes =
    if not (byte_at bytes 0 == b'C' && byte_at bytes 1 == b'P')
    then err (bad_magic (byte_at bytes 0) (byte_at bytes 1))
    else if not (byte_at bytes 2 == protocol_version)
    then err (unsupported_version (byte_at bytes 2))
    else do
      message_type ← message_type_of_u8 (byte_at bytes 3)
      ok (record {
        message_type = message_type;
        id = from_le_bytes (slice bytes 4 8);
        payload_len = from_le_bytes (slice bytes 8 12);
      })

-- `Frame::new`: the length is cut to 32 bits.
unfoldable pub new : MessageType → ℕ → Bytes → Frame
new message_type id payload = record {
  header = record { message_type = message_type; id = id; payload_len = length payload % 2 ^ 32 };
  payload = payload;
}

pub length-encode : (h : FrameHeader) → length (encode h) ≡ frame_header_len
unfolding encode to_le_bytes
length-encode h = refl

word_of_slice : (v : ℕ) → IsU32 v → from_le_bytes (to_le_bytes 4 v) ≡ v
word_of_slice v h = from-to_le_bytes 4 v (omega arith)

-- Reading back the header that `encode` writes gives the header.
pub decode-encode : (h : FrameHeader) → IsU32 h.id → IsU32 h.payload_len → decode (encode h) ≡ ok h
unfolding encode decode to_le_bytes
decode-encode h hi hl =
    rw (message_type_of_u8-to_u8 h.message_type)
      (rw (word_of_slice h.id hi, word_of_slice h.payload_len hl))

-- What a header that decodes says of its bytes.
decode_inv :
    (bytes : Bytes) (h : FrameHeader)
    → decode bytes ≡ ok h
    → (byte_at bytes 0 ≡ b'C')
      × (byte_at bytes 1 ≡ b'P')
      × (byte_at bytes 2 ≡ protocol_version)
      × (to_u8 h.message_type ≡ byte_at bytes 3)
      × (h.id ≡ from_le_bytes (slice bytes 4 8))
      × (h.payload_len ≡ from_le_bytes (slice bytes 8 12))
unfolding decode
decode_inv bytes h e = ground (arith, to_u8-message_type_of_u8 (byte_at bytes 3) h.message_type)

twelve :
    (m0 m1 v t i0 i1 i2 i3 l0 l1 l2 l3 : ℕ) (h : FrameHeader)
    → AreBytes (i0 ∷ i1 ∷ i2 ∷ i3 ∷ [])
    → AreBytes (l0 ∷ l1 ∷ l2 ∷ l3 ∷ [])
    → decode (m0 ∷ m1 ∷ v ∷ t ∷ i0 ∷ i1 ∷ i2 ∷ i3 ∷ l0 ∷ l1 ∷ l2 ∷ l3 ∷ []) ≡ ok h
    → (encode h ≡ m0 ∷ m1 ∷ v ∷ t ∷ i0 ∷ i1 ∷ i2 ∷ i3 ∷ l0 ∷ l1 ∷ l2 ∷ l3 ∷ [])
      × IsU32 h.id
      × IsU32 h.payload_len
unfolding encode byte_at
twelve m0 m1 v t i0 i1 i2 i3 l0 l1 l2 l3 h hi hl e =
    let (c, p, one, kind, id_eq, len_eq) = decode_inv _ h e in
    let id_bytes = to-from_le_bytes (i0 ∷ i1 ∷ i2 ∷ i3 ∷ []) hi in
    let len_bytes = to-from_le_bytes (l0 ∷ l1 ∷ l2 ∷ l3 ∷ []) hl in
    (
      rw (id_eq, len_eq, id_bytes, len_bytes, kind, c, p, one),
      omega (arith, from_le_bytes-lt (i0 ∷ i1 ∷ i2 ∷ i3 ∷ []) hi),
      omega (arith, from_le_bytes-lt (l0 ∷ l1 ∷ l2 ∷ l3 ∷ []) hl),
    )

-- Twelve bytes that decode are the encoding of what they decode to.
pub encode-decode :
    (bytes : Bytes) (h : FrameHeader)
    → length bytes ≡ frame_header_len
    → AreBytes bytes
    → decode bytes ≡ ok h
    → (encode h ≡ bytes) × IsU32 h.id × IsU32 h.payload_len
encode-decode (m0 ∷ m1 ∷ v ∷ t ∷ i0 ∷ i1 ∷ i2 ∷ i3 ∷ l0 ∷ l1 ∷ l2 ∷ l3 ∷ []) h hl hb e =
    twelve m0 m1 v t i0 i1 i2 i3 l0 l1 l2 l3 h (omega arith) (omega arith) e
encode-decode _ h hl hb e = absurd (omega arith)
