-- ===== src/Protocol/Payload/Hello.antt =====
-- crates/crosspuck-core/src/protocol/payload.rs: `Hello`, the first message of a guest.
use crosspuck.Base.{
  ◌≡◌, ℕ, ◌↔◌, ◌++◌, append_assoc, append-nil, length, Bytes, AreBytes, IsU16, IsU32, IsUsize,
  to_le_bytes,
}
use crosspuck.Base.Result.{Result, ok}
use crosspuck.Base.Action.{pure, ◌>>=◌, ◌>>◌}
use crosspuck.Protocol.Frame
use crosspuck.Protocol.Frame.Header.{protocol_version}
use crosspuck.Protocol.Codec.Error.{ProtocolError}
use crosspuck.Protocol.Codec.Encoder
use crosspuck.Protocol.Codec.Encoder.{Encoding}
use crosspuck.Protocol.Codec.Decoder
use crosspuck.Protocol.Codec.Reads.{
  Ends-bind, Ends-last, Ends-finish, Reads-u16, Reads-u32, Reads-reserved_u16,
}
use crosspuck.Protocol.Codec.Parses.{Parses-u16, Parses-u32, Parses-reserved_u16}
use crosspuck.Protocol.Codec.Whole.{All-bind, All-finish}
use crosspuck.Protocol.Codec.Wire.{WirePayload, to_bytes, exact}

pub record Hello : Type 0 where
  pub guest_pid : ℕ
  pub guest_protocol_version : ℕ
  pub guest_capabilities : ℕ

abbrev pub default_guest_capabilities : ℕ
default_guest_capabilities = 0

-- `Hello::new`
unfoldable pub new_hello : ℕ → Hello
new_hello guest_pid = record {
  guest_pid = guest_pid;
  guest_protocol_version = protocol_version;
  guest_capabilities = default_guest_capabilities;
}

unfoldable pub encode : Hello → Encoding
encode h = do
  Encoder.u32 h.guest_pid
  Encoder.u16 h.guest_protocol_version
  Encoder.u16 0
  Encoder.u32 h.guest_capabilities

unfoldable pub decode : Bytes → Result ProtocolError Hello
decode = Decoder.run (do
  guest_pid ← Decoder.u32 "guest_pid"
  guest_protocol_version ← Decoder.u16 "guest_protocol_version"
  Decoder.reserved_u16 "hello.reserved_zero"
  guest_capabilities ← Decoder.u32 "guest_capabilities"
  Decoder.finish
  pure (record {
    guest_pid = guest_pid;
    guest_protocol_version = guest_protocol_version;
    guest_capabilities = guest_capabilities;
  }))

abbrev pub wire : WirePayload Hello
wire = record { message_type = Frame.hello; encode = encode; decode = decode }

pub record IsValid (h : Hello) : Type 0 where
  pub pid_fits : IsU32 h.guest_pid
  pub version_fits : IsU16 h.guest_protocol_version
  pub capabilities_fit : IsU32 h.guest_capabilities

abbrev layout : Hello → Bytes
layout h =
    to_le_bytes 4 h.guest_pid
    ++ (to_le_bytes 2 h.guest_protocol_version
        ++ (to_le_bytes 2 0 ++ to_le_bytes 4 h.guest_capabilities))

written : (h : Hello) → to_bytes (encode h) ≡ ok (layout h)
unfolding encode Encoder.u16 Encoder.u32
written h = simp append_assoc

-- `Hello::decode` accepts an input and returns `h` exactly when the fields of `h` fit their widths
-- and the input is the encoding of `h`.
pub decode-hello_iff :
    (h : Hello) (input : Bytes)
    → AreBytes input
    → IsUsize (length input)
    → (decode input ≡ ok h) ↔ (IsValid h × (to_bytes (encode h) ≡ ok input))
unfolding decode
decode-hello_iff =
    exact layout encode _ (λ h _. written h)
      (λ h v. Ends-bind _ _ (Reads-u32 _ _ v.pid_fits) (
        Ends-bind _ _ (Reads-u16 _ _ v.version_fits) (
          Ends-bind _ _ (Reads-reserved_u16 _)
            (Ends-last _ _ (Reads-u32 _ _ v.capabilities_fit) (Ends-finish h)))))
      (All-bind _ _ (Parses-u32 _) λ pid bs p. All-bind _ _ (Parses-u16 _) λ version cs q.
        All-bind _ _ (Parses-reserved_u16 _) λ _ ds z.
          All-bind _ _ (Parses-u32 _) λ capabilities es r. All-finish _ (
            record { pid_fits = p.0; version_fits = q.0; capabilities_fit = r.0 },
            simp (p.1, q.1, z, r.1, append-nil),
          ))
