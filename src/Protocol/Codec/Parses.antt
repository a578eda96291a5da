-- ===== src/Protocol/Codec/Parses.antt =====
-- crates/crosspuck-core/src/protocol/codec.rs: decoding backwards. `Parses m Q` says that, where
-- `m` returns `a`, it has taken bytes `bs` with `Q a bs`, and has looked at no others.
use crosspuck.Base.{
  ℕ, ◌+◌, ◌-◌, ◌^◌, ◌≤◌, ◌<◌, ◌≡◌, refl, sym, ap, ◌∙◌, subst, Bool, true, false, inl, inr, [], ◌∷◌,
  ◌++◌, append_assoc, append-nil, arith, ◌==◌, ==_iff, if◌then◌else◌, length, length-take,
  take as first, drop, take-append-drop, All-append_inv, String, Bytes, AreBytes, IsU8, IsU16,
  IsU32, IsU64, to_le_bytes, from_le_bytes, to-from_le_bytes, from_le_bytes-lt,
}
use crosspuck.Base.Utf8.{is_utf8}
use crosspuck.Base.Result.{Result, ok, err}
use crosspuck.Base.Action.{pure, raise, lift, ◌>>=◌, outcome_cases}
use crosspuck.Protocol.Frame.Header.{byte_at}
use crosspuck.Protocol.Status.{to_u16, to_u16-status_of_u16}
use crosspuck.Protocol.Codec.Error.{ProtocolError, decode_status}
use crosspuck.Protocol.Codec.Decoder
use crosspuck.Protocol.Codec.Decoder.{Decoder, Decoding}
use crosspuck.Protocol.Codec.Reads.{Ahead, past, length-Ahead, Ahead-past}

pub record Parses {A : Type 0} (m : Decoding A) (Q : A → Bytes → Type 0) : Type 0 where
  pub at :
      (d d' : Decoder) (a : A) (r : Bytes)
      → Ahead d r
      → AreBytes r
      → m d ≡ (ok a, d')
      → (bs : Bytes) × (rest : Bytes) × (r ≡ bs ++ rest) × Q a bs × Ahead d' rest

pub Parses-pure : {A : Type 0} {Q : A → Bytes → Type 0} (a : A) → Q a [] → Parses (pure a) Q
Parses-pure {Q = Q} a q = record {
  at = λ d d' a' r h b e.
      let same : a ≡ a' = cc in
      let stay : d ≡ d' = cc in
      ([], r, refl, subst (λ x. Q x []) same q, subst (λ x. Ahead x r) stay h);
}

module _ {A B : Type 0} where
  -- The rest of a `do` block may use what is known of the first part.
  pub Parses-bind :
      {Q : A → Bytes → Type 0} {S : B → Bytes → Type 0} (m : Decoding A) (f : A → Decoding B)
      → Parses m Q
      → ((a : A) (bs : Bytes) → Q a bs → Parses (f a) (λ b cs. S b (bs ++ cs)))
      → Parses (m >>= f) S
  Parses-bind {S = S} m f head tail = record {
    at = λ d d' b r h v e. elim (outcome_cases (m d)) [
      | inl (a, d1, e1) ↦
          let (bs, rest, split, q, h1) = head.at d d1 a r h v e1 in
          let (cs, rest', split', s, h2) =
            (tail a bs q).at d1 d' b rest h1
              (All-append_inv IsU8 bs rest (subst AreBytes split v)).1 (rw e1 at e) in
          (bs ++ cs, rest', split ∙ ap (◌++◌ bs) split' ∙ sym (append_assoc bs cs rest'), s, h2)
      | inr (x, d1, e1) ↦ absurd (cc (rw e1 at e))
    ];
  }

take_inv :
    (field : String) (len : ℕ) (d d' : Decoder) (bs : Bytes)
    → Decoder.take field len d ≡ (ok bs, d')
    → (d' ≡ past len d)
      × (bs ≡ first (d.offset + len - d.offset) (drop d.offset d.input))
      × (d.offset + len ≤ length d.input)
unfolding Decoder.take Decoder.checked_add
take_inv field len d d' bs e = ground arith

take_parses :
    (field : String) (len : ℕ) (d d' : Decoder) (bs r : Bytes)
    → Ahead d r
    → Decoder.take field len d ≡ (ok bs, d')
    → (r ≡ bs ++ drop len r) × (length bs ≡ len) × Ahead d' (drop len r)
take_parses field len d d' bs r h e =
    let (moved, taken, room) = take_inv field len d d' bs e in
    let width : d.offset + len - d.offset ≡ len = omega arith in
    let bs_eq : bs ≡ first len r = taken ∙ (rw (width, h.ahead)) in
    let len_eq : length bs ≡ len =
      rw bs_eq (omega (arith, length-take len r, length-Ahead d r h)) in
    let split : r ≡ bs ++ drop len r = rw bs_eq (sym (take-append-drop len r)) in
    (
      split,
      len_eq,
      subst (λ x. Ahead x (drop len r)) (sym moved)
          (subst (λ n. Ahead (past n d) (drop len r)) len_eq
            (Ahead-past d bs (drop len r) (subst (Ahead d) split h))),
    )

Parses-take :
    (field : String) (len : ℕ)
    → Parses (Decoder.take field len) (λ b bs. (bs ≡ b) × (length b ≡ len) × AreBytes b)
Parses-take field len = record {
  at = λ d d' b r h v e.
      let (split, len_eq, h') = take_parses field len d d' b r h e in
      (
        b,
        drop len r,
        split,
        (refl, len_eq, (All-append_inv IsU8 b (drop len r) (subst AreBytes split v)).0),
        h',
      );
}

pub Parses-bytes :
    (field : String) (len : ℕ)
    → Parses (Decoder.bytes field len) (λ b bs. (bs ≡ b) × (length b ≡ len) × AreBytes b)
unfolding Decoder.bytes
Parses-bytes = Parses-take

-- A word of `k` bytes.
word :
    (field : String) (k : ℕ)
    → Parses
        (Decoder.take field k >>= λ bytes. pure (from_le_bytes bytes))
        (λ v bs. (v < 256 ^ k) × (bs ≡ to_le_bytes k v))
word field k =
    Parses-bind (Decoder.take field k) _ (Parses-take field k)
      λ b bs q. Parses-pure (from_le_bytes b) (fits b bs q)
  where
    fits :
        (b bs : Bytes)
        → (bs ≡ b) × (length b ≡ k) × AreBytes b
        → (from_le_bytes b < 256 ^ k) × (bs ++ [] ≡ to_le_bytes k (from_le_bytes b))
    fits b bs (same, len, valid) = (
      subst (λ n. from_le_bytes b < 256 ^ n) len (from_le_bytes-lt b valid),
      append-nil bs
          ∙ same
          ∙ sym (to-from_le_bytes b valid)
          ∙ ap (λ n. to_le_bytes n (from_le_bytes b)) len,
    )

pub Parses-u8 : (field : String) → Parses (Decoder.u8 field) (λ v bs. IsU8 v × (bs ≡ v ∷ []))
unfolding Decoder.u8 byte_at
Parses-u8 field =
    Parses-bind (Decoder.take field 1) _ (Parses-take field 1)
      λ b bs q. Parses-pure (byte_at b 0) (one b bs q)
  where
    one :
        (b bs : Bytes)
        → (bs ≡ b) × (length b ≡ 1) × AreBytes b
        → IsU8 (byte_at b 0) × (bs ++ [] ≡ byte_at b 0 ∷ [])
    one (x ∷ []) bs (same, len, valid) = (valid.0, append-nil bs ∙ same)
    one [] bs (same, len, valid) = absurd (omega arith)
    one (x ∷ y ∷ b) bs (same, len, valid) = absurd (omega arith)

pub Parses-u16 :
    (field : String) → Parses (Decoder.u16 field) (λ v bs. IsU16 v × (bs ≡ to_le_bytes 2 v))
unfolding Decoder.u16
Parses-u16 field = word field 2

pub Parses-u32 :
    (field : String) → Parses (Decoder.u32 field) (λ v bs. IsU32 v × (bs ≡ to_le_bytes 4 v))
unfolding Decoder.u32
Parses-u32 field = word field 4

pub Parses-u64 :
    (field : String) → Parses (Decoder.u64 field) (λ v bs. IsU64 v × (bs ≡ to_le_bytes 8 v))
unfolding Decoder.u64
Parses-u64 field = word field 8

module _ {A : Type 0} where
  pub Parses-lift :
      {Q : A → Bytes → Type 0} (r : Result ProtocolError A)
      → ((a : A) → r ≡ ok a → Q a [])
      → Parses (lift r) Q
  Parses-lift (ok a) q = Parses-pure a (q a refl)
  Parses-lift (err x) q = record { at = λ d d' a r h v e. absurd (cc e) }

  pub Parses-if :
      {Q : A → Bytes → Type 0} (b : Bool) (m n : Decoding A)
      → (b ≡ true → Parses m Q)
      → (b ≡ false → Parses n Q)
      → Parses (if b then m else n) Q
  Parses-if true m n p q = p refl
  Parses-if false m n p q = q refl

  pub Parses-raise : {Q : A → Bytes → Type 0} (x : ProtocolError) → Parses (raise {A = A} x) Q
  Parses-raise x = record { at = λ d d' a r h v e. absurd (cc e) }

pub Parses-reserved_u8 : (field : String) → Parses (Decoder.reserved_u8 field) (λ _ bs. bs ≡ 0 ∷ [])
unfolding Decoder.reserved_u8
Parses-reserved_u8 field = Parses-bind (Decoder.u8 field) _ (Parses-u8 field) λ v bs q.
    Parses-if (v == 0) _ _
      (λ z. Parses-pure tt (append-nil bs ∙ q.1 ∙ ap (λ x. x ∷ []) ((==_iff v 0).0 z)))
      (λ _. Parses-raise _)

pub Parses-reserved_u16 :
    (field : String) → Parses (Decoder.reserved_u16 field) (λ _ bs. bs ≡ to_le_bytes 2 0)
unfolding Decoder.reserved_u16
Parses-reserved_u16 field = Parses-bind (Decoder.u16 field) _ (Parses-u16 field) λ v bs q.
    Parses-if (v == 0) _ _
      (λ z. Parses-pure tt (append-nil bs ∙ q.1 ∙ ap (to_le_bytes 2) ((==_iff v 0).0 z)))
      (λ _. Parses-raise _)

-- The bytes of a `String` that the wire format can hold.
pub record IsText (text : Bytes) : Type 0 where
  pub short : IsU16 (length text)
  pub utf8 : is_utf8 text ≡ true
  pub valid : AreBytes text

pub Parses-string :
    (field : String)
    → Parses
        (Decoder.string field)
        (λ text bs. IsText text × (bs ≡ to_le_bytes 2 (length text) ++ text))
unfolding Decoder.string
Parses-string field = Parses-bind (Decoder.u16 field) _ (Parses-u16 field) λ len bs q.
    Parses-bind (Decoder.take field len) _ (Parses-take field len) λ text cs p.
      Parses-if (is_utf8 text) _ _ (λ z. Parses-pure text (joined len text bs cs q p z))
        (λ _. Parses-raise _)
  where
    joined :
        (len : ℕ) (text bs cs : Bytes)
        → IsU16 len × (bs ≡ to_le_bytes 2 len)
        → (cs ≡ text) × (length text ≡ len) × AreBytes text
        → is_utf8 text ≡ true
        → IsText text × (bs ++ (cs ++ []) ≡ to_le_bytes 2 (length text) ++ text)
    joined len text bs cs (short, word) (same, len_eq, valid) utf8 = (
      record { short = rw len_eq short; utf8 = utf8; valid = valid },
      rw (append-nil, word, same, len_eq),
    )

-- A status that decodes has the code that was read.
pub Parses-status :
    (code : ℕ) → Parses (lift (decode_status code)) (λ s bs. (to_u16 s ≡ code) × (bs ≡ []))
unfolding decode_status
Parses-status code =
    Parses-lift (decode_status code) λ s e. (to_u16-status_of_u16 code s (ground arith), refl)
