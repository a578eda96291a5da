-- ===== src/Protocol/Payload/Attach.antt =====
-- crates/crosspuck-core/src/protocol/payload.rs: `InputAttach` and `InputAttachOk`, which open the
-- input channel of a session.
use crosspuck.Base.{
  ◌≡◌, refl, ℕ, ◌↔◌, ◌++◌, append_assoc, append-nil, length, Bytes, AreBytes, IsU16, IsU32, IsUsize,
  to_le_bytes,
}
use crosspuck.Base.Result.{Result, ok}
use crosspuck.Base.Action.{pure, lift, ◌>>=◌, ◌>>◌}
use crosspuck.Protocol.Frame
use crosspuck.Protocol.Status.{StatusCode, to_u16, to_u16-IsU16}
use crosspuck.Protocol.Codec.Error.{ProtocolError, decode_status}
use crosspuck.Protocol.Codec.Encoder
use crosspuck.Protocol.Codec.Encoder.{Encoding}
use crosspuck.Protocol.Codec.Decoder
use crosspuck.Protocol.Codec.Decoder.{Decoding}
use crosspuck.Protocol.Codec.Reads.{
  Ends-bind, Ends-last, Ends-finish, Reads-u16, Reads-u32, Reads-status,
}
use crosspuck.Protocol.Codec.Parses.{Parses-u16, Parses-u32, Parses-status}
use crosspuck.Protocol.Codec.Whole.{All-bind, All-finish}
use crosspuck.Protocol.Codec.Wire.{WirePayload, to_bytes, exact}

pub record InputAttach : Type 0 where
  pub session_id : ℕ
  pub last_seen_input_seq : ℕ

pub record InputAttachOk : Type 0 where
  pub status : StatusCode
  pub input_report_len : ℕ
  pub first_input_seq : ℕ

unfoldable pub encode_attach : InputAttach → Encoding
encode_attach a = do Encoder.u32 a.session_id; Encoder.u32 a.last_seen_input_seq

unfoldable pub decode_attach : Bytes → Result ProtocolError InputAttach
decode_attach = Decoder.run (do
  session_id ← Decoder.u32 "session_id"
  last_seen_input_seq ← Decoder.u32 "last_seen_input_seq"
  Decoder.finish
  pure (record { session_id = session_id; last_seen_input_seq = last_seen_input_seq }))

unfoldable pub encode_attach_ok : InputAttachOk → Encoding
encode_attach_ok a = do
  Encoder.u16 (to_u16 a.status)
  Encoder.u16 a.input_report_len
  Encoder.u32 a.first_input_seq

unfoldable pub decode_attach_ok : Bytes → Result ProtocolError InputAttachOk
decode_attach_ok = Decoder.run (do
  code ← Decoder.u16 "status"
  status ← lift (decode_status code)
  input_report_len ← Decoder.u16 "input_report_len"
  first_input_seq ← Decoder.u32 "first_input_seq"
  Decoder.finish
  pure (record {
    status = status;
    input_report_len = input_report_len;
    first_input_seq = first_input_seq;
  }))

abbrev pub attach_wire : WirePayload InputAttach
attach_wire = record {
  message_type = Frame.input_attach;
  encode = encode_attach;
  decode = decode_attach;
}

abbrev pub attach_ok_wire : WirePayload InputAttachOk
attach_ok_wire = record {
  message_type = Frame.input_attach_ok;
  encode = encode_attach_ok;
  decode = decode_attach_ok;
}

pub record AttachIsValid (a : InputAttach) : Type 0 where
  pub session_fits : IsU32 a.session_id
  pub seq_fits : IsU32 a.last_seen_input_seq

pub record AttachOkIsValid (a : InputAttachOk) : Type 0 where
  pub len_fits : IsU16 a.input_report_len
  pub seq_fits : IsU32 a.first_input_seq

abbrev attach_layout : InputAttach → Bytes
attach_layout a = to_le_bytes 4 a.session_id ++ to_le_bytes 4 a.last_seen_input_seq

abbrev attach_ok_layout : InputAttachOk → Bytes
attach_ok_layout a =
    to_le_bytes 2 (to_u16 a.status)
    ++ (to_le_bytes 2 a.input_report_len ++ to_le_bytes 4 a.first_input_seq)

attach_written : (a : InputAttach) → to_bytes (encode_attach a) ≡ ok (attach_layout a)
unfolding encode_attach Encoder.u32
attach_written a = refl

attach_ok_written : (a : InputAttachOk) → to_bytes (encode_attach_ok a) ≡ ok (attach_ok_layout a)
unfolding encode_attach_ok Encoder.u16 Encoder.u32
attach_ok_written a = simp append_assoc

-- `InputAttach::decode` accepts exactly the encodings of the values whose fields fit their widths.
decode_attach_iff :
    (a : InputAttach) (input : Bytes)
    → AreBytes input
    → IsUsize (length input)
    → (decode_attach input ≡ ok a) ↔ (AttachIsValid a × (to_bytes (encode_attach a) ≡ ok input))
unfolding decode_attach
decode_attach_iff =
    exact attach_layout encode_attach _ (λ a _. attach_written a)
      (λ a v.
        Ends-bind _ _ (Reads-u32 _ _ v.session_fits)
          (Ends-last _ _ (Reads-u32 _ _ v.seq_fits) (Ends-finish a)))
      (All-bind _ _ (Parses-u32 _) λ session bs p. All-bind _ _ (Parses-u32 _) λ seq cs q.
        All-finish _ (record { session_fits = p.0; seq_fits = q.0 }, simp (p.1, q.1, append-nil)))

-- `InputAttachOk::decode` accepts exactly the encodings of the values whose fields fit their
-- widths.
decode_attach_ok_iff :
    (a : InputAttachOk) (input : Bytes)
    → AreBytes input
    → IsUsize (length input)
    → (decode_attach_ok input ≡ ok a)
      ↔ (AttachOkIsValid a × (to_bytes (encode_attach_ok a) ≡ ok input))
unfolding decode_attach_ok
decode_attach_ok_iff =
    exact attach_ok_layout encode_attach_ok _ (λ a _. attach_ok_written a)
      (λ a v. Ends-bind _ _ (Reads-u16 _ _ (to_u16-IsU16 a.status)) (
        Ends-bind _ _ (Reads-status a.status) (
          Ends-bind _ _ (Reads-u16 _ _ v.len_fits)
            (Ends-last _ _ (Reads-u32 _ _ v.seq_fits) (Ends-finish a)))))
      (All-bind _ _ (Parses-u16 _) λ code bs c. All-bind _ _ (Parses-status code) λ status bs' s.
        All-bind _ _ (Parses-u16 _) λ len cs p. All-bind _ _ (Parses-u32 _) λ seq ds q.
          All-finish _ (
            record { len_fits = p.0; seq_fits = q.0 },
            simp (c.1, s.1, ← s.0, p.1, q.1, append-nil),
          ))
