-- ===== src/Protocol/Payload/Overrides/Block.antt =====
-- crates/crosspuck-core/src/protocol/payload.rs: the block of overrides read back.
use crosspuck.Base.{
  Option, none, some, ◌≡◌, refl, ℕ, [], ◌∷◌, ◌++◌, append_assoc, append-nil, arith, Bool, true,
  false, if◌then◌else◌, Bytes, IsU16, IsU32, to_le_bytes, String, subst,
}
use crosspuck.Base.Result.{ok}
use crosspuck.Protocol.Codec.Encoder
use crosspuck.Protocol.Codec.Encoder.{Encoding}
use crosspuck.Protocol.Codec.Decoder.{Decoding}
use crosspuck.Protocol.Codec.Reads.{
  Reads, Reads-bind, Reads-last, Reads-pure, Reads-u8, Reads-u16, Reads-u32,
}
use crosspuck.Protocol.Payload.Overrides.{
  GuestRuntimeOverrides, is_some, has_extended_block, overrides_magic, flags, encode_bool,
  decode_bool, encode_some, encode_extended_block, decode_some, decode_extended_block,
}
use crosspuck.Protocol.Payload.Overrides.Flags.{flags-FlagsSay}

abbrev pub some_layout : {A : Type 0} → (A → Bytes) → Option A → Bytes
some_layout layout none = []
some_layout layout (some a) = layout a

abbrev pub bool_layout : Bool → Bytes
bool_layout b = (if b then 1 else 0) ∷ []

abbrev pub Fits : {A : Type 0} → (A → Type 0) → Option A → Type 0
Fits P none = Unit
Fits P (some a) = P a

-- The overrides in the block fit their widths.
pub record BlockIsValid (o : GuestRuntimeOverrides) : Type 0 where
  pub limit_fits : Fits IsU32 o.trace_report_limit
  pub max_bytes_fits : Fits IsU16 o.trace_report_max_bytes
  pub timeout_fits : Fits IsU32 o.io_timeout_ms
  pub interval_fits : Fits IsU32 o.reconnect_interval_ms
  pub capacity_fits : Fits IsU16 o.input_queue_capacity
  pub hooks_fit : Fits IsU32 o.diagnostic_hook_groups

abbrev pub fields_layout : GuestRuntimeOverrides → Bytes
fields_layout o =
    some_layout bool_layout o.trace_reports
    ++ (some_layout (to_le_bytes 4) o.trace_report_limit
        ++ (some_layout (to_le_bytes 2) o.trace_report_max_bytes
            ++ (some_layout (to_le_bytes 4) o.io_timeout_ms
                ++ (some_layout (to_le_bytes 4) o.reconnect_interval_ms
                    ++ (some_layout (to_le_bytes 2) o.input_queue_capacity
                        ++ (some_layout bool_layout o.replay_enabled
                            ++ some_layout (to_le_bytes 4) o.diagnostic_hook_groups))))))

abbrev pub block_layout : GuestRuntimeOverrides → Bytes
block_layout o = to_le_bytes 4 overrides_magic ++ (to_le_bytes 4 (flags o) ++ fields_layout o)

some_written :
    {A : Type 0} (o : Option A) (encode : A → Encoding) (layout : A → Bytes) (out : Bytes)
    → ((a : A) (out : Bytes) → encode a out ≡ (ok tt, out ++ layout a))
    → encode_some o encode out ≡ (ok tt, out ++ some_layout layout o)
some_written none encode layout out h = rw append-nil
some_written (some a) encode layout out h = h a out

u16_written : (v : ℕ) (out : Bytes) → Encoder.u16 v out ≡ (ok tt, out ++ to_le_bytes 2 v)
unfolding Encoder.u16
u16_written v out = refl

u32_written : (v : ℕ) (out : Bytes) → Encoder.u32 v out ≡ (ok tt, out ++ to_le_bytes 4 v)
unfolding Encoder.u32
u32_written v out = refl

bool_written : (b : Bool) (out : Bytes) → encode_bool b out ≡ (ok tt, out ++ bool_layout b)
unfolding encode_bool Encoder.u8
bool_written b out = refl

pub block_written :
    (o : GuestRuntimeOverrides) (out : Bytes)
    → has_extended_block o ≡ true
    → encode_extended_block o out ≡ (ok tt, out ++ block_layout o)
unfolding encode_extended_block
block_written o out h = rw h (
    rw (u32_written, u32_written)
      (rw (some_written o.trace_reports _ bool_layout _ bool_written) (
        rw (some_written o.trace_report_limit _ (to_le_bytes 4) _ u32_written) (
          rw (some_written o.trace_report_max_bytes _ (to_le_bytes 2) _ u16_written) (
            rw (some_written o.io_timeout_ms _ (to_le_bytes 4) _ u32_written) (
              rw (some_written o.reconnect_interval_ms _ (to_le_bytes 4) _ u32_written) (
                rw (some_written o.input_queue_capacity _ (to_le_bytes 2) _ u16_written) (
                  rw (some_written o.replay_enabled _ bool_layout _ bool_written) (
                    rw (some_written o.diagnostic_hook_groups _ (to_le_bytes 4) _ u32_written)
                      (simp append_assoc))))))))))

Reads-bool : (field : String) (b : Bool) → Reads (decode_bool field) (bool_layout b) b
unfolding decode_bool
Reads-bool field true = Reads-last _ _ (Reads-u8 _ 1) (Reads-pure true)
Reads-bool field false = Reads-last _ _ (Reads-u8 _ 0) (Reads-pure false)

-- An optional field is read if the flag says that it is there.
Reads-some :
    {A : Type 0} {present : Bool} (o : Option A) (m : Decoding A) (layout : A → Bytes)
    → present ≡ is_some o
    → ((a : A) → o ≡ some a → Reads m (layout a) a)
    → Reads (decode_some present m) (some_layout layout o) o
Reads-some none m layout e h = rw e (Reads-pure none)
Reads-some (some a) m layout e h = rw e (Reads-last _ _ (h a refl) (Reads-pure (some a)))

fits_some : {A : Type 0} (P : A → Type 0) (o : Option A) (a : A) → Fits P o → o ≡ some a → P a
fits_some P o a f e = subst (Fits P) e f

Reads-else :
    {A : Type 0} {b : Bool} (m n : Decoding A) {bs : Bytes} {a : A}
    → b ≡ false
    → Reads n bs a
    → Reads (if b then m else n) bs a
Reads-else m n e h = rw e h

-- The overrides without the log level, which stands before the block.
abbrev pub block_part : GuestRuntimeOverrides → GuestRuntimeOverrides
block_part o = record o { log_level = none }

pub Reads-block :
    (o : GuestRuntimeOverrides)
    → BlockIsValid o
    → Reads decode_extended_block (block_layout o) (block_part o)
unfolding decode_extended_block
Reads-block o v =
    let say = flags-FlagsSay o in
    Reads-bind _ _ (Reads-u32 _ overrides_magic (omega arith)) (
      Reads-bind _ _ (Reads-u32 _ (flags o) say.fits) (
        Reads-else _ _ say.no_other (
          Reads-bind _ _
            (Reads-some o.trace_reports _ bool_layout say.reports (λ b _. Reads-bool _ b))
            (Reads-bind _ _
              (Reads-some o.trace_report_limit _ (to_le_bytes 4) say.limit
                (λ a e. Reads-u32 _ a (fits_some IsU32 _ a v.limit_fits e)))
              (Reads-bind _ _
                (Reads-some o.trace_report_max_bytes _ (to_le_bytes 2) say.max_bytes
                  (λ a e. Reads-u16 _ a (fits_some IsU16 _ a v.max_bytes_fits e)))
                (Reads-bind _ _
                  (Reads-some o.io_timeout_ms _ (to_le_bytes 4) say.timeout
                    (λ a e. Reads-u32 _ a (fits_some IsU32 _ a v.timeout_fits e)))
                  (Reads-bind _ _
                    (Reads-some o.reconnect_interval_ms _ (to_le_bytes 4) say.interval
                      (λ a e. Reads-u32 _ a (fits_some IsU32 _ a v.interval_fits e)))
                    (Reads-bind _ _
                      (Reads-some o.input_queue_capacity _ (to_le_bytes 2) say.capacity
                        (λ a e. Reads-u16 _ a (fits_some IsU16 _ a v.capacity_fits e)))
                      (Reads-bind _ _
                        (Reads-some o.replay_enabled _ bool_layout say.replay
                          (λ b _. Reads-bool _ b))
                        (Reads-last _ _
                          (Reads-some o.diagnostic_hook_groups _ (to_le_bytes 4) say.hooks
                            (λ a e. Reads-u32 _ a (fits_some IsU32 _ a v.hooks_fit e)))
                          (Reads-pure (block_part o))))))))))))
