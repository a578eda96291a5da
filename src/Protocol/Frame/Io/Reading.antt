-- ===== src/Protocol/Frame/Io/Reading.antt =====
-- `read_exact` and `read_frame` on what arrives.
use crosspuck.Base.{
  ◌^◌, ℕ, zero, suc, ◌≤◌, ◌<◌, ◌≡◌, refl, sym, ◌∙◌, [], ◌∷◌, ◌++◌, map, append_assoc, arith, length,
  ltb, if◌then◌else◌, le→ltb_false, lt→ltb, Bytes, IsU8, IsU32, AreBytes, inl, inr,
}
use mathlib.Core.List.{map-append}
use crosspuck.Base.Result.{ok, err, Result-cases}
use crosspuck.Base.Action.{Action, pure, raise, ◌>>=◌, convert, outcome_cases}
use crosspuck.Protocol.Frame.Message.{Channel, payload_limit}
use crosspuck.Protocol.Frame.Header.{
  FrameHeader, Frame, encode, decode, frame_header_len, length-encode, decode-encode, encode-decode,
}
use crosspuck.Protocol.Frame.Io.{
  IoError, FrameIoError, io, payload_too_large, byte, failure, Reader, read_exact, payload_usize,
  read_frame,
}

abbrev pub arriving : Bytes → Reader
arriving = map byte

pub read_exact-arriving :
    (bytes : Bytes) (rest : Reader)
    → read_exact (length bytes) (arriving bytes ++ rest) ≡ (ok bytes, rest)
unfolding read_exact
read_exact-arriving [] rest = refl
read_exact-arriving (b ∷ bytes) rest = rw (read_exact-arriving bytes rest)

-- The bytes before a failure are consumed, and are not in the result.
pub read_exact-failure :
    (n : ℕ) (bytes : Bytes) (e : IoError) (rest : Reader)
    → length bytes < n
    → read_exact n (arriving bytes ++ (failure e ∷ rest)) ≡ (err e, rest)
unfolding read_exact
read_exact-failure zero bytes e rest h = absurd (omega arith)
read_exact-failure (suc n) [] e rest h = refl
read_exact-failure (suc n) (b ∷ bytes) e rest h =
    rw (read_exact-failure n bytes e rest (omega arith))

pub read_exact_inv :
    (n : ℕ) (r rest : Reader) (bytes : Bytes)
    → read_exact n r ≡ (ok bytes, rest)
    → (r ≡ arriving bytes ++ rest) × (length bytes ≡ n)
unfolding read_exact
read_exact_inv zero r rest bytes h = ground arith
read_exact_inv (suc n) [] rest bytes h = absurd (cc h)
read_exact_inv (suc n) (failure e ∷ r) rest bytes h = absurd (cc h)
read_exact_inv (suc n) (byte b ∷ r) rest [] h = ground arith
read_exact_inv (suc n) (byte b ∷ r) rest (c ∷ bytes) h =
    ground (arith, read_exact_inv n r rest bytes)

-- Every byte that arrives is one.
abbrev pub Arrived : Reader → Type 0
Arrived [] = Unit {0}
Arrived (byte b ∷ r) = IsU8 b × Arrived r
Arrived (failure e ∷ r) = Arrived r

-- The bytes of a frame on the stream.
abbrev pub frame_bytes : Frame → Bytes
frame_bytes f = encode f.header ++ f.payload

-- A frame that `write_frame` accepts on the channel.
pub record Fits (channel : Channel) (f : Frame) : Type 0 where
  pub id_fits : IsU32 f.header.id
  pub declared : f.header.payload_len ≡ length f.payload
  pub within : length f.payload ≤ payload_limit channel

pub payload_limit-le : (channel : Channel) → payload_limit channel ≤ 4096
unfolding payload_limit
payload_limit-le channel = ground arith

read_exact_declared :
    (n : ℕ) (bytes : Bytes) (rest : Reader)
    → n ≡ length bytes
    → read_exact n (arriving bytes ++ rest) ≡ (ok bytes, rest)
read_exact_declared n bytes rest h = rw h (read_exact-arriving bytes rest)

read_header :
    (h : FrameHeader) (rest : Reader)
    → read_exact frame_header_len (arriving (encode h) ++ rest) ≡ (ok (encode h), rest)
read_header h rest = read_exact_declared _ _ rest (sym (length-encode h))

-- `read_frame` once the header has arrived.
abbrev pub payload_phase : Channel → FrameHeader → Action FrameIoError Reader Frame
payload_phase channel h =
    if ltb (payload_limit channel) h.payload_len
    then raise (payload_too_large channel h.payload_len (payload_limit channel))
    else do
      payload ← convert io (read_exact h.payload_len)
      pure (record { header = h; payload = payload })

payload_usize_u32 : (n : ℕ) → IsU32 n → payload_usize n ≡ ok n
unfolding payload_usize
payload_usize_u32 n h = rw (lt→ltb n (2 ^ 64) (omega arith))

pub read_frame_header :
    (channel : Channel) (h : FrameHeader) (rest : Reader)
    → IsU32 h.id
    → IsU32 h.payload_len
    → read_frame channel (arriving (encode h) ++ rest) ≡ payload_phase channel h rest
unfolding read_frame
read_frame_header channel h rest hi hl =
    rw read_header (rw (decode-encode h hi hl) (rw (payload_usize_u32 h.payload_len hl)))

pub Fits-IsU32 : (channel : Channel) (f : Frame) → Fits channel f → IsU32 f.header.payload_len
Fits-IsU32 channel f fits = omega (arith, payload_limit-le channel)

-- A frame that fits is read back whole, and what follows it stays unread.
pub read_frame-arriving :
    (channel : Channel) (f : Frame) (rest : Reader)
    → Fits channel f
    → read_frame channel (arriving (frame_bytes f) ++ rest) ≡ (ok f, rest)
read_frame-arriving channel f rest fits =
    simp (map-append, append_assoc)
      (rw
        (read_frame_header channel f.header (arriving f.payload ++ rest) fits.id_fits
          (Fits-IsU32 channel f fits))
        (rw (le→ltb_false (payload_limit channel) f.header.payload_len (omega arith))
          (rw (read_exact_declared f.header.payload_len f.payload rest fits.declared))))

-- A header that announces too much is refused whatever follows it: no payload byte is read.
pub read_frame_too_large :
    (channel : Channel) (h : FrameHeader) (rest : Reader)
    → IsU32 h.id
    → IsU32 h.payload_len
    → payload_limit channel < h.payload_len
    → read_frame channel (arriving (encode h) ++ rest)
      ≡ (err (payload_too_large channel h.payload_len (payload_limit channel)), rest)
read_frame_too_large channel h rest hi hl over =
    read_frame_header channel h rest hi hl ∙ rw (lt→ltb _ _ over)

payload_phase_inv :
    (channel : Channel) (h : FrameHeader) (r rest : Reader) (f : Frame)
    → payload_phase channel h r ≡ (ok f, rest)
    → (f.header ≡ h)
      × (r ≡ arriving f.payload ++ rest)
      × (h.payload_len ≡ length f.payload)
      × (h.payload_len ≤ payload_limit channel)
payload_phase_inv channel h r rest f e =
    ground (arith, read_exact_inv h.payload_len r rest f.payload)

AreBytes-arriving : (bytes : Bytes) (r : Reader) → Arrived (arriving bytes ++ r) → AreBytes bytes
AreBytes-arriving [] r a = tt
AreBytes-arriving (b ∷ bytes) r a = (a.0, AreBytes-arriving bytes r a.1)

-- A read that succeeds has taken a header and has gone on to its payload.
read_frame_phases :
    (channel : Channel) (r rest : Reader) (f : Frame)
    → read_frame channel r ≡ (ok f, rest)
    → (bytes : Bytes) × (h : FrameHeader) × (r' : Reader) × (read_exact frame_header_len r
        ≡ (ok bytes, r'))
      × (decode bytes ≡ ok h)
      × (payload_phase channel h r' ≡ (ok f, rest))
unfolding read_frame payload_usize
read_frame_phases channel r rest f e = elim (outcome_cases (read_exact frame_header_len r)) [
  | inl (bytes, r', taken) ↦ elim (Result-cases (decode bytes)) [
    | inl (h, decoded) ↦ (bytes, h, r', taken, decoded, ground arith)
    | inr (x, refused) ↦ ground arith
  ]
  | inr (x, r', failed) ↦ ground arith
]

-- What `read_frame` returns is what the stream held, and it is within the channel's limit.
pub read_frame_inv :
    (channel : Channel) (r rest : Reader) (f : Frame)
    → Arrived r
    → read_frame channel r ≡ (ok f, rest)
    → (r ≡ arriving (frame_bytes f) ++ rest) × Fits channel f
read_frame_inv channel r rest f a e =
    let (bytes, h, r', taken, decoded, phase) = read_frame_phases channel r rest f e in
    let (whole, len) = read_exact_inv frame_header_len r r' bytes taken in
    let (head, tail, declared, bound) = payload_phase_inv channel h r' rest f phase in
    let (encoded, id_fits, len_fits) =
      encode-decode bytes h len (AreBytes-arriving bytes r' (rw whole at a)) decoded in
    (
      rw (whole, tail) (simp (head, encoded, map-append, append_assoc)),
      record { id_fits = rw head id_fits; declared = rw head declared; within = omega arith },
    )
