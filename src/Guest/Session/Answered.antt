-- ===== src/Guest/Session/Answered.antt =====
-- crates/crosspuck-core/src/guest.rs: what a call on a channel that succeeded has sent and received.
use crosspuck.Base.{
  ℕ, ◌<◌, ◌≡◌, ◌≢◌, refl, sym, ap, subst, subst₂, ◌∙◌, true, Option, some, ◌++◌, ◌==◌, ==_iff, ltb,
  arith, Bool-cases, Option-cases, inl, inr, Bytes, IsU32,
}
use crosspuck.Base.Result.{Result, ok, Result-cases}
use crosspuck.Base.Action.{
  convert, and_then-ok, or_err-ok, ok_inv, and_then-keeps, or_err-keeps, outcome_cases,
}
use crosspuck.Protocol.Frame.{
  MessageType, FrameError, to_u8, message_type_of_u8, message_type_of_u8-to_u8,
}
use crosspuck.Protocol.Frame.Header.{Frame, new}
use crosspuck.Protocol.Frame.Io.{read_frame, write_frame}
use crosspuck.Protocol.Frame.Io.Reading.{Arrived, arriving, frame_bytes, read_frame_inv}
use crosspuck.Protocol.Frame.Io.Writing.{write_frame-written}
use crosspuck.Protocol.Codec.Wire.{WirePayload, to_bytes}
use crosspuck.Guest.Config.{from_millis}
use crosspuck.Guest.Stream.{
  ChannelStream, set_read_timeout, set_write_timeout, read_stream, write_stream,
}
use crosspuck.Guest.Session.{transport}
use crosspuck.Guest.Session.Exchange.{
  GuestControl, same_message, write_payload, decode_expected, check_response, set_both_timeouts,
  exchange, control_request, id_after,
}

-- Nothing but the timeouts is another.
pub record SameData (s t : ChannelStream) : Type 0 where
  pub read : t.reader ≡ s.reader
  pub wrote : t.writer ≡ s.writer
  pub channel : t.channel ≡ s.channel

pub set_read_timeout-SameData :
    (timeout : Option ℕ) (s : ChannelStream) → SameData s (set_read_timeout timeout s).1
unfolding set_read_timeout
set_read_timeout-SameData timeout s = elim (Option-cases (s.refuses timeout)) [
  | inl accepted ↦
      rw (accepted, set_read_timeout) record { read = refl; wrote = refl; channel = refl }
  | inr (e, refused) ↦
      rw (refused, set_read_timeout) record { read = refl; wrote = refl; channel = refl }
]

pub set_write_timeout-SameData :
    (timeout : Option ℕ) (s : ChannelStream) → SameData s (set_write_timeout timeout s).1
unfolding set_write_timeout
set_write_timeout-SameData timeout s = elim (Option-cases (s.refuses timeout)) [
  | inl accepted ↦
      rw (accepted, set_write_timeout) record { read = refl; wrote = refl; channel = refl }
  | inr (e, refused) ↦
      rw (refused, set_write_timeout) record { read = refl; wrote = refl; channel = refl }
]

pub SameData-trans : {s t u : ChannelStream} → SameData s t → SameData t u → SameData s u
SameData-trans a b = record {
  read = b.read ∙ a.read;
  wrote = b.wrote ∙ a.wrote;
  channel = b.channel ∙ a.channel;
}

set_both_timeouts-SameData :
    (millis : ℕ) (s : ChannelStream) → SameData s (set_both_timeouts millis s).1
unfolding set_both_timeouts
set_both_timeouts-SameData millis s = elim (Bool-cases (ltb 0 millis)) [
  | inl timed ↦
      let read = convert transport (set_read_timeout (some (from_millis millis))) in
      let write = convert transport (set_write_timeout (some (from_millis millis))) in
      let first =
        or_err-keeps (SameData s) transport (set_read_timeout (some (from_millis millis)) s)
          (set_read_timeout-SameData _ s) in
      rw timed (
        and_then-keeps (SameData s) (read s) (λ _. write) first
          (λ u t h.
            or_err-keeps (SameData s) transport (set_write_timeout (some (from_millis millis)) t)
              (SameData-trans h (set_write_timeout-SameData _ t))))
  | inr untimed ↦ rw untimed record { read = refl; wrote = refl; channel = refl }
]

message_inj : (a b : MessageType) → to_u8 a ≡ to_u8 b → a ≡ b
message_inj a b e =
    let same : Path (Result FrameError MessageType) (ok a) (ok b) =
      sym (message_type_of_u8-to_u8 a) ∙ ap message_type_of_u8 e ∙ message_type_of_u8-to_u8 b in
    cc same

pub same_message→≡ : (a b : MessageType) → same_message a b ≡ true → a ≡ b
same_message→≡ a b e = message_inj a b ((==_iff _ _).0 e)

-- What a payload that was written adds to the sink.
pub record Wrote {T : Type 0} (wire : WirePayload T) (id : ℕ) (payload : T) (s t : ChannelStream)
    : Type 0 where
  pub body : Bytes
  pub encoded : to_bytes (wire.encode payload) ≡ ok body
  pub added : t.writer.written ≡ s.writer.written ++ frame_bytes (new wire.message_type id body)
  pub unread : t.reader ≡ s.reader
  pub channel : t.channel ≡ s.channel

module _ {T : Type 0} where
  pub write_payload-Wrote :
      (wire : WirePayload T) (id : ℕ) (payload : T) (s t : ChannelStream)
      → IsU32 id
      → write_payload wire id payload s ≡ (ok tt, t)
      → Wrote wire id payload s t
  unfolding write_payload write_stream new
  write_payload-Wrote wire id payload s t small e =
      elim (Result-cases (to_bytes (wire.encode payload))) [
        | inl (body, encoded) ↦
            let write = or_err-ok transport _ tt t (rw encoded at e) in
            elim (outcome_cases (write_frame (new wire.message_type id body) s.channel s.writer)) [
              | inl (u, left, put) ↦
                  let left_is = (ok_inv tt tt (record s { writer = left }) t (rw put at write)).1 in
                  record {
                    body = body;
                    encoded = encoded;
                    added =
                        ap (λ x. x.writer.written) (sym left_is)
                        ∙ (write_frame-written s.channel (new wire.message_type id body) s.writer
                            left small put).1;
                    unread = ap (λ x. x.reader) (sym left_is);
                    channel = ap (λ x. x.channel) (sym left_is);
                  }
              | inr (x, left, failed) ↦ absurd (cc (rw failed at write))
            ]
        | inr (x, refused) ↦ absurd (cc (rw refused at e))
      ]

  -- The frame is of the expected type, and its payload decodes to the value.
  pub decode_expected-ok :
      (wire : WirePayload T) (f : Frame) (v : T)
      → decode_expected wire f ≡ ok v
      → (f.header.message_type ≡ wire.message_type) × (wire.decode f.payload ≡ ok v)
  unfolding decode_expected
  decode_expected-ok wire f v e =
      elim (Bool-cases (same_message f.header.message_type wire.message_type)) [
        | inl same ↦
            let typed : f.header.message_type ≡ wire.message_type = same_message→≡ _ _ same in
            (
              typed,
              elim (Result-cases (wire.decode f.payload)) [
                | inl (v', decoded) ↦ decoded ∙ ap ok (cc (rw (same, decoded) at e))
                | inr (x, refused) ↦ absurd (cc (rw (same, refused) at e))
              ],
            )
        | inr other ↦ absurd (cc (rw other at e))
      ]

-- A frame that was read stood at the front of the stream.
pub record Took (f : Frame) (s t : ChannelStream) : Type 0 where
  pub front : s.reader ≡ arriving (frame_bytes f) ++ t.reader
  pub unwritten : t.writer ≡ s.writer
  pub channel : t.channel ≡ s.channel

pub read_stream-Took :
    (f : Frame) (s t : ChannelStream) → Arrived s.reader → read_stream s ≡ (ok f, t) → Took f s t
unfolding read_stream
read_stream-Took f s t a e = elim (outcome_cases (read_frame s.channel s.reader)) [
  | inl (g, rest, taken) ↦
      let (same, left) = ok_inv g f (record s { reader = rest }) t (rw taken at e) in
      record {
        front =
            subst₂ (λ x u. s.reader ≡ arriving (frame_bytes x) ++ u.reader) same left
              (read_frame_inv s.channel s.reader rest g a taken).0;
        unwritten = ap (λ u. u.writer) (sym left);
        channel = ap (λ u. u.channel) (sym left);
      }
  | inr (x, rest, failed) ↦ absurd (cc (rw failed at e))
]

id_after_lem : (n : ℕ) → IsU32 n → IsU32 (id_after n) × (0 < id_after n) × (id_after n ≢ n)
id_after_lem n small = (omega arith, omega arith, λ e. omega arith)

-- What a request that was answered has sent and received.
pub record Answered {T R : Type 0} (wire : WirePayload T) (reply_wire : WirePayload R) (id : ℕ)
    (request : T) (reply : R) (s t : ChannelStream) : Type 0 where
  pub body : Bytes
  pub response : Frame
  pub encoded : to_bytes (wire.encode request) ≡ ok body
  pub sent : t.writer.written ≡ s.writer.written ++ frame_bytes (new wire.message_type id body)
  pub received : s.reader ≡ arriving (frame_bytes response) ++ t.reader
  pub same_id : response.header.id ≡ id
  pub same_type : response.header.message_type ≡ reply_wire.message_type
  pub decoded : reply_wire.decode response.payload ≡ ok reply

module _ {T R : Type 0} (wire : WirePayload T) (reply_wire : WirePayload R) where
  check_response-ok :
      (id : ℕ) (f : Frame) (v : R)
      → check_response reply_wire id f ≡ ok v
      → (f.header.id ≡ id) × (decode_expected reply_wire f ≡ ok v)
  unfolding check_response
  check_response-ok id f v e = elim (Bool-cases (f.header.id == id)) [
    | inl same ↦ ((==_iff _ _).0 same, rw same at e)
    | inr other ↦ absurd (cc (rw other at e))
  ]

  exchange-Answered :
      (id millis : ℕ) (request : T) (reply : R) (s t : ChannelStream)
      → IsU32 id
      → Arrived s.reader
      → exchange wire reply_wire id millis request s ≡ (ok reply, t)
      → Answered wire reply_wire id request reply s t
  unfolding exchange
  exchange-Answered id millis request reply s t small a e =
      let (u1, s1, timed, e1) = and_then-ok (set_both_timeouts millis s) _ reply t e in
      let (u2, s2, put, e2) = and_then-ok (write_payload wire id request s1) _ reply t e1 in
      let (f, s3, got, e3) = and_then-ok (convert transport read_stream s2) _ reply t e2 in
      let same = subst (SameData s) (ap (λ r. r.1) timed) (set_both_timeouts-SameData millis s) in
      let wrote = write_payload-Wrote wire id request s1 s2 small put in
      let front = wrote.unread ∙ same.read in
      let took =
        read_stream-Took f s2 s3 (rw front a) (or_err-ok transport (read_stream s2) f s3 got) in
      let checked = ap (λ r. r.0) e3 in
      let left = ap (λ r. r.1) e3 in
      let (same_id, expected) = check_response-ok id f reply checked in
      let (same_type, decoded) = decode_expected-ok reply_wire f reply expected in
      record {
        body = wrote.body;
        response = f;
        encoded = wrote.encoded;
        sent =
            ap (λ x. x.writer.written) (sym left)
            ∙ ap (λ w. w.written) took.unwritten
            ∙ wrote.added
            ∙ ap (λ w. w.written ++ frame_bytes (new wire.message_type id wrote.body)) same.wrote;
        received = sym front ∙ took.front ∙ ap (λ x. arriving (frame_bytes f) ++ x.reader) left;
        same_id = same_id;
        same_type = same_type;
        decoded = decoded;
      }

  -- A request with a 32-bit id, on a stream of bytes, that returns a reply has written one frame,
  -- with the encoding of the request and that id, and has read one frame, with the same id, of the
  -- type of the reply, and with the reply in it; the next id is another 32-bit number and not
  -- zero.
  pub control_request-Answered :
      (millis : ℕ) (request : T) (reply : R) (c d : GuestControl)
      → IsU32 c.next_request_id
      → Arrived c.control.reader
      → control_request wire reply_wire request millis c ≡ (ok reply, d)
      → Answered wire reply_wire c.next_request_id request reply c.control d.control
        × IsU32 d.next_request_id
        × (0 < d.next_request_id)
        × (d.next_request_id ≢ c.next_request_id)
  unfolding control_request
  control_request-Answered millis request reply c d small a e =
      let answered =
        exchange-Answered c.next_request_id millis request reply c.control d.control small a
          (ap (λ r. (r.0, r.1.control)) e) in
      let next : id_after c.next_request_id ≡ d.next_request_id = ap (λ r. r.1.next_request_id) e in
      let (fits, some_id, other) = id_after_lem c.next_request_id small in
      (answered, rw next at fits, rw next at some_id, rw next at other)
