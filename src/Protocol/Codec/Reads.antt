-- ===== src/Protocol/Codec/Reads.antt =====
-- crates/crosspuck-core/src/protocol/codec.rs: decoding forwards. `Reads m bs a` says that, where
-- the bytes `bs` come next, `m` returns `a` and stands behind them; `Ends m bs a`, that this holds
-- where they are the last of the input.
use crosspuck.Base.{
  ℕ, ◌+◌, ◌-◌, ◌^◌, ◌≤◌, ◌<◌, ◌≡◌, refl, sym, ap, ◌∙◌, subst, Bool, true, false, [], ◌∷◌, ◌++◌,
  append_assoc, append-nil, arith, if◌then◌else◌, lt→ltb, le→ltb_false, length, length-append,
  length-drop, drop, drop-drop, take-append_self, drop-append_self, String, Bytes, IsU16, IsU32,
  IsU64, IsUsize, to_le_bytes, from_le_bytes, from-to_le_bytes, length-to_le_bytes,
}
use crosspuck.Base.Utf8.{is_utf8}
use crosspuck.Base.Result.{Result, ok}
use crosspuck.Base.Action.{pure, raise, lift, ◌>>=◌, ◌>>◌}
use crosspuck.Protocol.Frame.Header.{byte_at}
use crosspuck.Protocol.Status.{StatusCode, to_u16, status_of_u16-to_u16}
use crosspuck.Protocol.Codec.Error.{ProtocolError, invalid_utf8, decode_status}
use crosspuck.Protocol.Codec.Decoder
use crosspuck.Protocol.Codec.Decoder.{Decoder, Decoding}

-- The decoder stands before the bytes `rest`, which are all that is left.
pub record Ahead (d : Decoder) (rest : Bytes) : Type 0 where
  pub within : d.offset ≤ length d.input
  pub fits : IsUsize (length d.input)
  pub ahead : drop d.offset d.input ≡ rest

pub record Reads {A : Type 0} (m : Decoding A) (bs : Bytes) (a : A) : Type 0 where
  pub at :
      (d : Decoder) (rest : Bytes)
      → Ahead d (bs ++ rest)
      → (d' : Decoder) × (m d ≡ (ok a, d')) × Ahead d' rest

pub record Ends {A : Type 0} (m : Decoding A) (bs : Bytes) (a : A) : Type 0 where
  pub at : (d : Decoder) → Ahead d bs → (d' : Decoder) × (m d ≡ (ok a, d'))

abbrev pub past : ℕ → Decoder → Decoder
past n d = record d { offset = d.offset + n }

pub length-Ahead :
    (d : Decoder) (rest : Bytes) → Ahead d rest → d.offset + length rest ≡ length d.input
length-Ahead d rest h = omega (arith, ap length h.ahead, length-drop d.offset d.input)

pub Ahead-past :
    (d : Decoder) (bs rest : Bytes) → Ahead d (bs ++ rest) → Ahead (past (length bs) d) rest
Ahead-past d bs rest h = record {
  within = omega (arith, length-Ahead d _ h, length-append bs rest);
  fits = h.fits;
  ahead =
      sym (drop-drop d.offset (length bs) d.input)
      ∙ ap (drop (length bs)) h.ahead
      ∙ drop-append_self bs rest;
}

take-Ahead :
    (field : String) (d : Decoder) (bs rest : Bytes)
    → Ahead d (bs ++ rest)
    → Decoder.take field (length bs) d ≡ (ok bs, past (length bs) d)
unfolding Decoder.take Decoder.checked_add
take-Ahead field d bs rest h =
    let len = length-Ahead d _ h in
    rw (lt→ltb (d.offset + length bs) (2 ^ 64) (omega (arith, len, length-append bs rest, h.fits)))
      (rw
        (le→ltb_false (length d.input) (d.offset + length bs)
          (omega (arith, len, length-append bs rest)))
        (let width : d.offset + length bs - d.offset ≡ length bs = omega arith in
          rw (width, h.ahead, take-append_self bs rest)))

pub Reads-take : (field : String) (bs : Bytes) → Reads (Decoder.take field (length bs)) bs bs
Reads-take field bs = record {
  at = λ d rest h. (past (length bs) d, take-Ahead field d bs rest h, Ahead-past d bs rest h);
}

module _ {A B : Type 0} where
  pub Reads-bind :
      (m : Decoding A) (f : A → Decoding B) {bs cs : Bytes} {a : A} {b : B}
      → Reads m bs a
      → Reads (f a) cs b
      → Reads (m >>= f) (bs ++ cs) b
  Reads-bind m f {bs = bs} {cs = cs} head tail = record {
    at = λ d rest h.
        let (d1, e1, h1) = head.at d (cs ++ rest) (subst (Ahead d) (append_assoc bs cs rest) h) in
        let (d2, e2, h2) = tail.at d1 rest h1 in (d2, rw e1 e2, h2);
  }

  -- The last part, where what comes after it reads nothing more.
  pub Reads-last :
      (m : Decoding A) (f : A → Decoding B) {bs : Bytes} {a : A} {b : B}
      → Reads m bs a
      → Reads (f a) [] b
      → Reads (m >>= f) bs b
  Reads-last m f {bs = bs} {b = b} head tail =
      subst (λ cs. Reads (m >>= f) cs b) (append-nil bs) (Reads-bind m f head tail)

  pub Ends-bind :
      (m : Decoding A) (f : A → Decoding B) {bs cs : Bytes} {a : A} {b : B}
      → Reads m bs a
      → Ends (f a) cs b
      → Ends (m >>= f) (bs ++ cs) b
  Ends-bind m f {cs = cs} head tail = record {
    at = λ d h. let (d1, e1, h1) = head.at d cs h in let (d2, e2) = tail.at d1 h1 in (d2, rw e1 e2);
  }

  pub Ends-last :
      (m : Decoding A) (f : A → Decoding B) {bs : Bytes} {a : A} {b : B}
      → Reads m bs a
      → Ends (f a) [] b
      → Ends (m >>= f) bs b
  Ends-last m f {bs = bs} head tail = record {
    at = λ d h.
        let (d1, e1, h1) = head.at d [] (subst (Ahead d) (sym (append-nil bs)) h) in
        let (d2, e2) = tail.at d1 h1 in (d2, rw e1 e2);
  }

pub Reads-pure : {A : Type 0} (a : A) → Reads (pure a) [] a
Reads-pure a = record { at = λ d rest h. (d, refl, h) }

pub Reads-lift : {A : Type 0} {r : Result ProtocolError A} {a : A} → r ≡ ok a → Reads (lift r) [] a
Reads-lift e = record { at = λ d rest h. (d, rw e, h) }

-- A test that is known to fail.
pub Ends-else :
    {A : Type 0} {b : Bool} (m n : Decoding A) {bs : Bytes} {a : A}
    → b ≡ false
    → Ends n bs a
    → Ends (if b then m else n) bs a
Ends-else m n e h = rw e h

pub Ends-finish : {A : Type 0} (a : A) → Ends (Decoder.finish >> pure a) [] a
unfolding Decoder.finish
Ends-finish a = record { at = λ d h. (d, rw (none_left d h)) }
  where
    none_left : (d : Decoder) → Ahead d [] → length d.input - d.offset ≡ 0
    none_left d h = omega (arith, length-Ahead d [] h)

-- A word read from the bytes that `take` gives for its width.
word :
    (field : String) (k v : ℕ)
    → v < 256 ^ k
    → Reads (Decoder.take field k >>= λ bytes. pure (from_le_bytes bytes)) (to_le_bytes k v) v
word field k v h = record {
  at = λ d rest p.
      let e =
        subst (λ n. Decoder.take field n d ≡ (ok (to_le_bytes k v), past n d))
          (length-to_le_bytes k v) (take-Ahead field d (to_le_bytes k v) rest p) in
      let q =
        subst (λ n. Ahead (past n d) rest) (length-to_le_bytes k v)
          (Ahead-past d (to_le_bytes k v) rest p) in
      (past k d, rw e (rw (from-to_le_bytes k v h)), q);
}

pub Reads-u8 : (field : String) (v : ℕ) → Reads (Decoder.u8 field) (v ∷ []) v
unfolding Decoder.u8 byte_at
Reads-u8 field v = record {
  at =
      λ d rest p. (past 1 d, rw (take-Ahead field d (v ∷ []) rest p), Ahead-past d (v ∷ []) rest p);
}

pub Reads-u16 : (field : String) (v : ℕ) → IsU16 v → Reads (Decoder.u16 field) (to_le_bytes 2 v) v
unfolding Decoder.u16
Reads-u16 field v h = word field 2 v (omega arith)

pub Reads-u32 : (field : String) (v : ℕ) → IsU32 v → Reads (Decoder.u32 field) (to_le_bytes 4 v) v
unfolding Decoder.u32
Reads-u32 field v h = word field 4 v (omega arith)

pub Reads-u64 : (field : String) (v : ℕ) → IsU64 v → Reads (Decoder.u64 field) (to_le_bytes 8 v) v
unfolding Decoder.u64
Reads-u64 field v h = word field 8 v (omega arith)

pub Reads-bytes : (field : String) (bs : Bytes) → Reads (Decoder.bytes field (length bs)) bs bs
unfolding Decoder.bytes
Reads-bytes field bs = Reads-take field bs

pub Reads-reserved_u8 : (field : String) → Reads (Decoder.reserved_u8 field) (0 ∷ []) tt
unfolding Decoder.reserved_u8
Reads-reserved_u8 field = Reads-bind _ _ (Reads-u8 field 0) (Reads-pure tt)

pub Reads-reserved_u16 : (field : String) → Reads (Decoder.reserved_u16 field) (to_le_bytes 2 0) tt
unfolding Decoder.reserved_u16
Reads-reserved_u16 field = Reads-last _ _ (Reads-u16 field 0 (omega arith)) (Reads-pure tt)

pub Reads-string :
    (field : String) (text : Bytes)
    → IsU16 (length text)
    → is_utf8 text ≡ true
    → Reads (Decoder.string field) (to_le_bytes 2 (length text) ++ text) text
unfolding Decoder.string
Reads-string field text h valid =
    Reads-bind _ _ (Reads-u16 field (length text) h)
      (Reads-last (Decoder.take field (length text)) checked (Reads-take field text) accepted)
  where
    checked : Bytes → Decoding Bytes
    checked text = if is_utf8 text then pure text else raise invalid_utf8

    accepted : Reads (checked text) [] text
    accepted = rw valid (Reads-pure text)

-- A whole decode of an input that `Ends`.
pub run-Ends :
    {A : Type 0} (m : Decoding A) (bs : Bytes) (a : A)
    → Ends m bs a
    → IsUsize (length bs)
    → Decoder.run m bs ≡ ok a
unfolding Decoder.run
run-Ends m bs a ends h =
    let start : Ahead (Decoder.new bs) bs = record {
      within = omega arith;
      fits = h;
      ahead = refl;
    } in
    rw ((ends.at (Decoder.new bs) start).1)

pub run-layout :
    {A : Type 0} (m : Decoding A) (layout bs : Bytes) (a : A)
    → layout ≡ bs
    → Ends m layout a
    → IsUsize (length bs)
    → Decoder.run m bs ≡ ok a
run-layout m layout bs a same ends h = run-Ends m bs a (subst (λ x. Ends m x a) same ends) h

pub Reads-status : (s : StatusCode) → Reads (lift (decode_status (to_u16 s))) [] s
unfolding decode_status
Reads-status s = Reads-lift (rw status_of_u16-to_u16)
