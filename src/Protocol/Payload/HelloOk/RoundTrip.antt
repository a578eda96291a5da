-- ===== src/Protocol/Payload/HelloOk/RoundTrip.antt =====
-- crates/crosspuck-core/src/protocol/payload.rs: `HelloOk` read back after it was written.
use crosspuck.Base.{
  Option, none, some, ◌≡◌, ℕ, ◌<◌, ◌≤◌, [], ◌∷◌, ◌++◌, append_assoc, append-nil, arith, length,
  true, false, ◌==◌, lt→ltb, if◌then◌else◌, Bytes, IsU16, IsU32, IsUsize, to_le_bytes,
}
use crosspuck.Base.Result.{ok}
use crosspuck.Base.Action.{◌>>=◌}
use crosspuck.Protocol.Status.{to_u16, to_u16-IsU16}
use crosspuck.Protocol.Codec.Encoder
use crosspuck.Protocol.Codec.Encoder.{Encoding}
use crosspuck.Protocol.Codec.Decoder
use crosspuck.Protocol.Codec.Decoder.{Decoding}
use crosspuck.Protocol.Codec.Reads.{
  Reads, Ends, Reads-bind, Reads-last, Reads-pure, Ends-bind, Ends-last, Ends-finish, Reads-u8,
  Reads-u16, Reads-u32, Reads-reserved_u8, Reads-reserved_u16, Reads-status,
}
use crosspuck.Protocol.Codec.Wire.{to_bytes}
use crosspuck.Base.{inl, inr, Bool-cases, length-append, ◌^◌, ◌-◌, le→ltb_false, length-to_le_bytes}
use crosspuck.Base.Masks.{mask_keeps}
use crosspuck.Protocol.Codec.Reads.{length-Ahead, run-layout}
use crosspuck.Protocol.Payload.Overrides.{
  LogSeverity, severity_id, severity_of_u8, GuestRuntimeOverrides, no_overrides, is_empty,
  has_extended_block, encode_extended_block, off, overrides_magic, flags,
}
use crosspuck.Protocol.Payload.Overrides.Block.{
  BlockIsValid, fields_layout, block_layout, block_written, block_part, Reads-block,
}
use crosspuck.Protocol.Payload.HelloOk.{
  HelloOk, level_byte, encode_hello_ok, if_remaining, decode_trace_id, decode_level_byte,
  decode_level, decode_block, decode_hello_ok,
}

pub record HelloOkIsValid (h : HelloOk) : Type 0 where
  pub version_fits : IsU16 h.protocol_version
  pub session_fits : IsU32 h.session_id
  pub trace_fits : h.session_trace_id < 2 ^ 20
  pub control_fits : IsU16 h.control_payload_limit
  pub input_fits : IsU16 h.input_payload_limit
  pub len_fits : IsU16 h.default_input_report_len
  pub overrides_fit : BlockIsValid h.guest_runtime_overrides

abbrev pub head_layout : HelloOk → Bytes → Bytes
head_layout h rest =
    to_le_bytes 2 (to_u16 h.status)
    ++ (to_le_bytes 2 h.protocol_version
        ++ (to_le_bytes 4 h.session_id
            ++ (to_le_bytes 2 h.control_payload_limit
                ++ (to_le_bytes 2 h.input_payload_limit
                    ++ (to_le_bytes 2 h.default_input_report_len ++ (to_le_bytes 2 0 ++ rest))))))

abbrev extended_layout : GuestRuntimeOverrides → Bytes
extended_layout o = if has_extended_block o then block_layout o else []

abbrev overrides_layout : GuestRuntimeOverrides → Bytes
overrides_layout o =
    if is_empty o
    then []
    else (level_byte o.log_level ∷ []) ++ ((0 ∷ []) ++ (to_le_bytes 2 0 ++ extended_layout o))

abbrev layout : HelloOk → Bytes
layout h =
    head_layout h (to_le_bytes 4 h.session_trace_id ++ overrides_layout h.guest_runtime_overrides)

-- Stepping past an optional part that is there, or over one that is not.
module _ {A B : Type 0} where
  Ends-there :
      (a : A) (m : Decoding A) (f : A → Decoding B) {bs : Bytes} {b : B}
      → 0 < length bs
      → Ends (m >>= f) bs b
      → Ends (if_remaining a m >>= f) bs b
  unfolding if_remaining Decoder.remaining
  Ends-there a m f {bs = bs} pos ends = record {
    at = λ d h.
        rw (lt→ltb 0 (length d.input - d.offset) (omega (arith, length-Ahead d bs h)))
          (ends.at d h);
  }

  Ends-missing :
      (a : A) (m : Decoding A) (f : A → Decoding B) {b : B}
      → Ends (f a) [] b
      → Ends (if_remaining a m >>= f) [] b
  unfolding if_remaining Decoder.remaining
  Ends-missing a m f ends = record {
    at = λ d h.
        rw (le→ltb_false 0 (length d.input - d.offset) (omega (arith, length-Ahead d [] h)))
          (ends.at d h);
  }

Reads-trace : (id : ℕ) → id < 2 ^ 20 → Reads decode_trace_id (to_le_bytes 4 id) id
unfolding decode_trace_id
Reads-trace id h =
    Reads-last _ _ (Reads-u32 _ id (omega arith)) (rw (mask_keeps id 20 h) (Reads-pure id))

level_read : (level : Option LogSeverity) → Reads (decode_level_byte (level_byte level)) [] level
unfolding decode_level_byte severity_of_u8 severity_id
level_read none = Reads-pure none
level_read (some off) = Reads-pure (some off)
level_read (some level) = Reads-pure (some level)

Reads-level :
    (level : Option LogSeverity)
    → Reads decode_level ((level_byte level ∷ []) ++ ((0 ∷ []) ++ to_le_bytes 2 0)) level
unfolding decode_level
Reads-level level = Reads-bind _ _ (Reads-u8 _ _) (
    Reads-bind _ _ (level_read level) (
      Reads-bind _ _ (Reads-reserved_u8 _)
        (Reads-last _ _ (Reads-reserved_u16 _) (Reads-pure level))))

long_block : (o : GuestRuntimeOverrides) → 8 ≤ length (block_layout o)
long_block o = omega (
  arith,
  length-append (to_le_bytes 4 overrides_magic) (to_le_bytes 4 (flags o) ++ fields_layout o),
  length-append (to_le_bytes 4 (flags o)) (fields_layout o),
  length-to_le_bytes 4 overrides_magic,
  length-to_le_bytes 4 (flags o),
)

-- A block is longer than the four bytes of older hosts.
Reads-decode_block :
    (o : GuestRuntimeOverrides)
    → BlockIsValid o
    → Reads decode_block (block_layout o) (block_part o)
unfolding decode_block Decoder.remaining
Reads-decode_block o v = record {
  at = λ d rest h.
      rw
        (not_four (length d.input - d.offset)
          (omega (arith, length-Ahead d _ h, length-append (block_layout o) rest, long_block o)))
        ((Reads-block o v).at d rest h);
}
  where
    not_four : (n : ℕ) → 8 ≤ n → (n == 4) ≡ false
    not_four n h = ground arith

no_block : (o : GuestRuntimeOverrides) → has_extended_block o ≡ false → block_part o ≡ no_overrides
unfolding has_extended_block
no_block o e = ground arith

nothing_empty :
    (o : GuestRuntimeOverrides)
    → is_empty o ≡ true
    → (o.log_level ≡ none) × (has_extended_block o ≡ false)
unfolding is_empty has_extended_block
nothing_empty o e = ground arith

Ends-overrides :
    {A : Type 0} {a : A} (o : GuestRuntimeOverrides) (k : GuestRuntimeOverrides → Decoding A)
    → BlockIsValid o
    → Ends (k (block_part o)) [] a
    → Ends (if_remaining no_overrides decode_block >>= k) (extended_layout o) a
Ends-overrides o k v ends = elim (Bool-cases (has_extended_block o)) [
  | inl there ↦ rw there (
      Ends-there no_overrides decode_block k (omega (arith, long_block o))
        (Ends-last decode_block k (Reads-decode_block o v) ends))
  | inr missing ↦
      rw missing (Ends-missing no_overrides decode_block k (rw (no_block o missing) at ends))
]

Ends-level :
    {A : Type 0} {a : A} (o : GuestRuntimeOverrides) (k : Option LogSeverity → Decoding A)
    → Ends (k o.log_level) (extended_layout o) a
    → Ends (if_remaining none decode_level >>= k) (overrides_layout o) a
Ends-level o k ends = elim (Bool-cases (is_empty o)) [
  | inl nothing ↦
      let (no_level, no_ext) = nothing_empty o nothing in
      rw nothing (Ends-missing none decode_level k (rw (no_ext, no_level) at ends))
  | inr something ↦ rw something (
      Ends-there none decode_level k (omega arith)
        (Ends-bind decode_level k (Reads-level o.log_level) ends))
]

no_block_written :
    (o : GuestRuntimeOverrides) (out : Bytes)
    → has_extended_block o ≡ false
    → encode_extended_block o out ≡ (ok tt, out)
unfolding encode_extended_block
no_block_written o out e = rw e

written : (h : HelloOk) → HelloOkIsValid h → to_bytes (encode_hello_ok h) ≡ ok (layout h)
unfolding encode_hello_ok Encoder.u8 Encoder.u16 Encoder.u32
written h v =
    let o = h.guest_runtime_overrides in
    rw (mask_keeps h.session_trace_id 20 v.trace_fits) (elim (Bool-cases (is_empty o)) [
      | inl nothing ↦ rw nothing (simp (append_assoc, append-nil))
      | inr something ↦ rw something (elim (Bool-cases (has_extended_block o)) [
        | inl there ↦ rw there (rw (block_written o _ there) (simp append_assoc))
        | inr missing ↦
            rw missing (rw (no_block_written o _ missing) (simp (append_assoc, append-nil)))
      ])
    ])

-- What `HelloOk::encode` writes for an answer whose numbers fit their widths, whose trace id fits
-- its 20 bits and whose overrides fit theirs, `HelloOk::decode` reads back as the same answer,
-- whichever of the overrides are there.
pub decode-encode_hello_ok :
    (h : HelloOk) (bytes : Bytes)
    → HelloOkIsValid h
    → IsUsize (length bytes)
    → to_bytes (encode_hello_ok h) ≡ ok bytes
    → decode_hello_ok bytes ≡ ok h
unfolding decode_hello_ok
decode-encode_hello_ok h bytes v fits e =
    run-layout _ (layout h) bytes h (cc (written h v, e))
      (Ends-bind _ _ (Reads-u16 _ _ (to_u16-IsU16 h.status)) (
        Ends-bind _ _ (Reads-status h.status) (
          Ends-bind _ _ (Reads-u16 _ _ v.version_fits) (
            Ends-bind _ _ (Reads-u32 _ _ v.session_fits) (
              Ends-bind _ _ (Reads-u16 _ _ v.control_fits) (
                Ends-bind _ _ (Reads-u16 _ _ v.input_fits) (
                  Ends-bind _ _ (Reads-u16 _ _ v.len_fits) (
                    Ends-bind _ _ (Reads-reserved_u16 _) (
                      Ends-there _ _ _
                        (omega (
                          arith,
                          length-append (to_le_bytes 4 h.session_trace_id)
                              (overrides_layout h.guest_runtime_overrides),
                          length-to_le_bytes 4 h.session_trace_id,
                        ))
                        (Ends-bind _ _ (Reads-trace h.session_trace_id v.trace_fits) (
                          Ends-level h.guest_runtime_overrides _ (
                            Ends-overrides h.guest_runtime_overrides _ v.overrides_fit
                              (Ends-finish h)))))))))))))
      fits
