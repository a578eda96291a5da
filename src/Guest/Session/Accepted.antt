-- ===== src/Guest/Session/Accepted.antt =====
-- crates/crosspuck-core/src/guest.rs: what a session was made from.
use crosspuck.Base.{
  ℕ, ◌≡◌, sym, ap, subst, subst₂, ◌∙◌, true, some, [], ◌∷◌, ◌++◌, arith, Bytes, String,
}
use crosspuck.Base.Result.{Result, ok}
use crosspuck.Base.Action.{Action, convert, and_then-ok, or_err-ok, ok_inv, lift}
use crosspuck.Protocol.Frame.Header.{Frame, new, protocol_version}
use crosspuck.Protocol.Frame.Io.{Reader}
use crosspuck.Protocol.Frame.Io.Reading.{Arrived, arriving, frame_bytes}
use crosspuck.Protocol.Status.{is_ok}
use crosspuck.Protocol.Codec.Wire.{WirePayload, to_bytes}
use crosspuck.Protocol.Payload.Hello
use crosspuck.Protocol.Payload.Hello.{new_hello}
use crosspuck.Protocol.Payload.HelloOk.{HelloOk, hello_ok_wire}
use crosspuck.Protocol.Payload.Identity.{IdentityPayload, identity_wire}
use crosspuck.Protocol.Payload.Attach.{InputAttach, InputAttachOk, attach_wire, attach_ok_wire}
use crosspuck.Guest.Stream.{ChannelStream, set_read_timeout, set_write_timeout, read_stream}
use crosspuck.Guest.Session.{GuestError, stage, transport}
use crosspuck.Guest.Session.Exchange.{write_payload, decode_expected}
use crosspuck.Guest.Session.Answered.{
  SameData, SameData-trans, set_read_timeout-SameData, set_write_timeout-SameData,
  write_payload-Wrote, Took, read_stream-Took, decode_expected-ok,
}
use crosspuck.Guest.Session.Handshake.{
  GuestTransportConfig, at_stage, check_hello_ok, check_attach_ok, greet, attach, set_timeouts,
  expect,
}

-- A stage that succeeds does what it stands for.
module _ {A : Type 0} where
  stage-ok :
      (name : String) (m : Action GuestError ChannelStream A) (s t : ChannelStream) (a : A)
      → at_stage name m s ≡ (ok a, t)
      → m s ≡ (ok a, t)
  unfolding at_stage
  stage-ok name m s t a e = or_err-ok (stage name) (m s) a t e

  -- A decoding stage reads nothing.
  lifted-ok :
      (r : Result GuestError A) (s t : ChannelStream) (a : A)
      → Path (Result GuestError A × ChannelStream) (r, s) (ok a, t)
      → (r ≡ ok a) × (t ≡ s)
  lifted-ok r s t a e = (ap (λ x. x.0) e, sym (ap (λ x. x.1) e))

pub set_timeouts-SameData :
    (a b : String) (timeout : ℕ) (s t : ChannelStream) (u : Unit {0})
    → set_timeouts a b timeout s ≡ (ok u, t)
    → SameData s t
unfolding set_timeouts
set_timeouts-SameData a b timeout s t u e =
    let read = convert transport (set_read_timeout (some timeout)) in
    let write = convert transport (set_write_timeout (some timeout)) in
    let (x, s', e1, e2) = and_then-ok (at_stage a read s) (λ _. at_stage b write) u t e in
    let first =
      or_err-ok transport (set_read_timeout (some timeout) s) x s' (stage-ok a read s s' x e1) in
    let second =
      or_err-ok transport (set_write_timeout (some timeout) s') u t (stage-ok b write s' t u e2) in
    SameData-trans
      (subst (SameData s) (ap (λ r. r.1) first) (set_read_timeout-SameData (some timeout) s))
      (subst (SameData s') (ap (λ r. r.1) second) (set_write_timeout-SameData (some timeout) s'))

-- A frame that carries a value of the wire.
pub record Carries {A : Type 0} (wire : WirePayload A) (f : Frame) (a : A) : Type 0 where
  pub typed : f.header.message_type ≡ wire.message_type
  pub decoded : wire.decode f.payload ≡ ok a

module _ {A : Type 0} (wire : WirePayload A) where
  -- What `expect` returns stood at the front of the stream.
  expect-Took :
      (a b : String) (s t : ChannelStream) (f : Frame) (v : A)
      → Arrived s.reader
      → expect wire a b s ≡ (ok (f, v), t)
      → Took f s t × Carries wire f v
  unfolding expect
  expect-Took a b s t f v arrived e =
      let read = convert transport read_stream in
      let (g, s1, e1, r1) = and_then-ok (at_stage a read s) _ (f, v) t e in
      let (w, s2, e2, r2) =
        and_then-ok (at_stage b (lift (decode_expected wire g)) s1) _ (f, v) t r1 in
      let (got, same) = ok_inv (g, w) (f, v) s2 t r2 in
      let taken = or_err-ok transport (read_stream s) g s1 (stage-ok a read s s1 g e1) in
      let (decodes, still) =
        lifted-ok (decode_expected wire g) s1 s2 w
          (stage-ok b (lift (decode_expected wire g)) s1 s2 w e2) in
      let (typed, decoded) = decode_expected-ok wire g w decodes in
      subst₂ (λ (x : Frame × A) (u : ChannelStream). Took x.0 s u × Carries wire x.0 x.1) got
        (sym still ∙ same)
        (read_stream-Took g s s1 arrived taken, record { typed = typed; decoded = decoded })

Arrived-tail : (bytes : Bytes) (r : Reader) → Arrived (arriving bytes ++ r) → Arrived r
Arrived-tail [] r a = a
Arrived-tail (b ∷ bytes) r a = Arrived-tail bytes r a.1

check_hello_ok-ok :
    (id : ℕ) (f : Frame) (h : HelloOk)
    → check_hello_ok id f h ≡ ok tt
    → (h.protocol_version ≡ protocol_version) × (f.header.id ≡ id) × (is_ok h.status ≡ true)
unfolding check_hello_ok
check_hello_ok-ok id f h e = ground arith

check_attach_ok-ok :
    (id : ℕ) (f : Frame) (h : InputAttachOk)
    → check_attach_ok id f h ≡ ok tt
    → (f.header.id ≡ id) × (is_ok h.status ≡ true)
unfolding check_attach_ok
check_attach_ok-ok id f h e = ground arith

-- What the control stream carried.
pub record Greeted (config : GuestTransportConfig) (s t : ChannelStream) (h : HelloOk)
    (i : IdentityPayload) : Type 0 where
  pub body : Bytes
  pub hello_ok_frame : Frame
  pub identity_frame : Frame
  pub encoded : to_bytes (Hello.wire.encode (new_hello config.guest_pid)) ≡ ok body
  pub sent : t.writer.written ≡ s.writer.written ++ frame_bytes (new Hello.wire.message_type 1 body)
  pub received :
      s.reader
      ≡ arriving (frame_bytes hello_ok_frame) ++ (arriving (frame_bytes identity_frame) ++ t.reader)
  pub answer : Carries hello_ok_wire hello_ok_frame h
  pub same_id : hello_ok_frame.header.id ≡ 1
  pub version : h.protocol_version ≡ protocol_version
  pub accepted : is_ok h.status ≡ true
  pub identity : Carries identity_wire identity_frame i

pub greet-Greeted :
    (config : GuestTransportConfig) (s t : ChannelStream) (h : HelloOk) (i : IdentityPayload)
    → Arrived s.reader
    → greet config s ≡ (ok (h, i), t)
    → Greeted config s t h i
unfolding greet
greet-Greeted config s t h i arrived e =
    let hello = at_stage "hello write" (write_payload Hello.wire 1 (new_hello config.guest_pid)) in
    let (x1, s1, e1, r1) =
      and_then-ok
        (set_timeouts "control set read timeout" "control set write timeout"
          config.handshake_timeout s)
        _ (h, i) t e in
    let (x2, s2, e2, r2) = and_then-ok (hello s1) _ (h, i) t r1 in
    let ((f, h'), s3, e3, r3) =
      and_then-ok (expect hello_ok_wire "hello ok read" "hello ok decode" s2) _ (h, i) t r2 in
    let (x4, s4, e4, r4) = and_then-ok (check_hello_ok 1 f h', s3) _ (h, i) t r3 in
    let ((g, i'), s5, e5, r5) =
      and_then-ok (expect identity_wire "identity read" "identity decode" s4) _ (h, i) t r4 in
    let same = set_timeouts-SameData _ _ config.handshake_timeout s s1 x1 e1 in
    let wrote =
      write_payload-Wrote Hello.wire 1 (new_hello config.guest_pid) s1 s2 (omega arith)
        (stage-ok _ _ s1 s2 x2 e2) in
    let front = wrote.unread ∙ same.read in
    let at_start = subst Arrived (sym front) arrived in
    let (took, answer) = expect-Took hello_ok_wire _ _ s2 s3 f h' at_start e3 in
    let (checked, still) = lifted-ok (check_hello_ok 1 f h') s3 s4 x4 e4 in
    let (version, same_id, accepted) = check_hello_ok-ok 1 f h' checked in
    let later = ap (λ x. x.reader) still in
    let tail : Arrived s3.reader =
      Arrived-tail (frame_bytes f) s3.reader (subst Arrived took.front at_start) in
    let (took', sent) =
      expect-Took identity_wire _ _ s4 s5 g i' (subst Arrived (sym later) tail) e5 in
    let (got, last) = ok_inv (h', i') (h, i) s5 t r5 in
    subst₂ (λ (x : HelloOk × IdentityPayload) (u : ChannelStream). Greeted config s u x.0 x.1) got
      last
      record {
        body = wrote.body;
        hello_ok_frame = f;
        identity_frame = g;
        encoded = wrote.encoded;
        sent =
            ap (λ w. w.written) (took'.unwritten ∙ ap (λ x. x.writer) still ∙ took.unwritten)
            ∙ wrote.added
            ∙ ap (λ w. w.written ++ frame_bytes (new Hello.wire.message_type 1 wrote.body))
                same.wrote;
        received =
            sym front
            ∙ took.front
            ∙ ap (λ r. arriving (frame_bytes f) ++ r) (sym later ∙ took'.front);
        answer = answer;
        same_id = same_id;
        version = version;
        accepted = accepted;
        identity = sent;
      }

-- What the input stream carried.
pub record Attached (session_id : ℕ) (s t : ChannelStream) : Type 0 where
  pub body : Bytes
  pub attach_ok_frame : Frame
  pub attach_ok : InputAttachOk
  pub encoded :
      to_bytes (attach_wire.encode (record { session_id = session_id; last_seen_input_seq = 0 }))
      ≡ ok body
  pub sent :
      t.writer.written ≡ s.writer.written ++ frame_bytes (new attach_wire.message_type 2 body)
  pub received : s.reader ≡ arriving (frame_bytes attach_ok_frame) ++ t.reader
  pub answer : Carries attach_ok_wire attach_ok_frame attach_ok
  pub same_id : attach_ok_frame.header.id ≡ 2
  pub accepted : is_ok attach_ok.status ≡ true

pub attach-Attached :
    (config : GuestTransportConfig) (session_id : ℕ) (s t : ChannelStream) (u : Unit {0})
    → Arrived s.reader
    → attach config session_id s ≡ (ok u, t)
    → Attached session_id s t
unfolding attach
attach-Attached config session_id s t u arrived e =
    let request : InputAttach = record { session_id = session_id; last_seen_input_seq = 0 } in
    let ask = at_stage "input attach write" (write_payload attach_wire 2 request) in
    let (x1, s1, e1, r1) =
      and_then-ok
        (set_timeouts "input set read timeout" "input set write timeout" config.handshake_timeout s)
        _ u t e in
    let (x2, s2, e2, r2) = and_then-ok (ask s1) _ u t r1 in
    let ((f, h), s3, e3, r3) =
      and_then-ok (expect attach_ok_wire "input attach ok read" "input attach ok decode" s2) _ u t
        r2 in
    let (checked, still) = lifted-ok (check_attach_ok 2 f h) s3 t u r3 in
    let same = set_timeouts-SameData _ _ config.handshake_timeout s s1 x1 e1 in
    let wrote =
      write_payload-Wrote attach_wire 2 request s1 s2 (omega arith) (stage-ok _ _ s1 s2 x2 e2) in
    let front = wrote.unread ∙ same.read in
    let (took, answer) =
      expect-Took attach_ok_wire _ _ s2 s3 f h (subst Arrived (sym front) arrived) e3 in
    let (same_id, accepted) = check_attach_ok-ok 2 f h checked in
    record {
      body = wrote.body;
      attach_ok_frame = f;
      attach_ok = h;
      encoded = wrote.encoded;
      sent =
          ap (λ w. w.written) (ap (λ x. x.writer) still ∙ took.unwritten)
          ∙ wrote.added
          ∙ ap (λ w. w.written ++ frame_bytes (new attach_wire.message_type 2 wrote.body))
              same.wrote;
      received =
          sym front ∙ took.front ∙ ap (λ x. arriving (frame_bytes f) ++ x.reader) (sym still);
      answer = answer;
      same_id = same_id;
      accepted = accepted;
    }
