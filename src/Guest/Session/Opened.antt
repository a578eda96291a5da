-- ===== src/Guest/Session/Opened.antt =====
-- crates/crosspuck-core/src/guest.rs: what `GuestTransportClient::connect` returns.
use crosspuck.Base.{ℕ, ◌<◌, ◌≡◌, refl, sym, ap, subst, ◌∙◌, some, [], ◌++◌, max, arith, String}
use mathlib.Core.Option.{some-injective}
use crosspuck.Base.Result.{Result, ok, err, >>=-ok}
use crosspuck.Protocol.Frame.Io.Reading.{Arrived, arriving, frame_bytes}
use crosspuck.Protocol.Payload.HelloOk.{HelloOk}
use crosspuck.Protocol.Payload.Identity.{IdentityPayload}
use crosspuck.Protocol.Queue.{zero_stats, with_capacity}
use crosspuck.Guest.Stream.{ChannelStream}
use crosspuck.Guest.Session.{GuestError, GuestSessionInfo}
use crosspuck.Guest.Session.Answered.{SameData}
use crosspuck.Guest.Session.Handshake.{
  GuestTransportConfig, GuestSession, greet, attach, set_timeouts, steady_io_timeout,
  session_queue_capacity,
}
use crosspuck.Guest.Session.Connect.{
  session_with, put_queue, with_state, open_streams, with_queue, connect,
}
use crosspuck.Guest.Session.Accepted.{
  Greeted, Attached, greet-Greeted, attach-Attached, set_timeouts-SameData,
}

-- A stream after other timeouts were set.
Greeted-SameData :
    (config : GuestTransportConfig) (s t u : ChannelStream) (h : HelloOk) (i : IdentityPayload)
    → SameData t u
    → Greeted config s t h i
    → Greeted config s u h i
Greeted-SameData config s t u h i same g = record {
  body = g.body;
  hello_ok_frame = g.hello_ok_frame;
  identity_frame = g.identity_frame;
  encoded = g.encoded;
  sent = ap (λ w. w.written) same.wrote ∙ g.sent;
  received =
      g.received
      ∙ ap
          (λ r.
            arriving (frame_bytes g.hello_ok_frame)
            ++ (arriving (frame_bytes g.identity_frame) ++ r))
          (sym same.read);
  answer = g.answer;
  same_id = g.same_id;
  version = g.version;
  accepted = g.accepted;
  identity = g.identity;
}

Attached-SameData :
    (session_id : ℕ) (s t u : ChannelStream)
    → SameData t u
    → Attached session_id s t
    → Attached session_id s u
Attached-SameData session_id s t u same a = record {
  body = a.body;
  attach_ok_frame = a.attach_ok_frame;
  attach_ok = a.attach_ok;
  encoded = a.encoded;
  sent = ap (λ w. w.written) same.wrote ∙ a.sent;
  received = a.received ∙ ap (λ r. arriving (frame_bytes a.attach_ok_frame) ++ r) (sym same.read);
  answer = a.answer;
  same_id = a.same_id;
  accepted = a.accepted;
}

ok_injective {ℓ} : {E A : Type ℓ} {a b : A} → Path (Result E A) (ok a) (ok b) → a ≡ b
ok_injective e = cc e

with_state-ok {ℓ} :
    {E A S : Type ℓ} (r : Result E A × S) (p : A × S) → with_state r ≡ ok p → r ≡ (ok p.0, p.1)
with_state-ok {E = E} (ok b, t) p e = ap (λ q. (ok q.0, q.1)) (ok_injective {E = E} e)
with_state-ok (err x, t) p e = absurd (cc e)

-- The info of a session, its streams, and what the host sent over them.
pub record StreamsOpened (config : GuestTransportConfig) (c i : ChannelStream)
    (info : GuestSessionInfo) (c' i' : ChannelStream) : Type 0 where
  pub hello_ok : HelloOk
  pub greeted : Greeted config c c' hello_ok info.identity
  pub attached : Attached info.session_id i i'
  pub session_id : info.session_id ≡ hello_ok.session_id
  pub session_trace_id : info.session_trace_id ≡ hello_ok.session_trace_id
  pub overrides : info.guest_runtime_overrides ≡ hello_ok.guest_runtime_overrides
  pub guest_label : info.guest_label ≡ config.guest_label

-- The info that a session gets.
abbrev info_of : GuestTransportConfig → HelloOk → IdentityPayload → GuestSessionInfo
info_of config h identity = record {
  identity = identity;
  session_id = h.session_id;
  session_trace_id = h.session_trace_id;
  guest_runtime_overrides = h.guest_runtime_overrides;
  guest_label = config.guest_label;
}

assembled :
    (config : GuestTransportConfig) (c i s1 s2 s3 s4 : ChannelStream) (h : HelloOk)
    (identity : IdentityPayload) (a b a' b' : String) (timeout : ℕ) (x2 x3 x4 : Unit {0})
    → Arrived c.reader
    → Arrived i.reader
    → greet config c ≡ (ok (h, identity), s1)
    → attach config h.session_id i ≡ (ok x2, s2)
    → set_timeouts a b timeout s1 ≡ (ok x3, s3)
    → set_timeouts a' b' timeout s2 ≡ (ok x4, s4)
    → StreamsOpened config c i (info_of config h identity) s3 s4
assembled config c i s1 s2 s3 s4 h identity a b a' b' timeout x2 x3 x4 ac ai e1 e2 e3 e4 = record {
  hello_ok = h;
  greeted =
      Greeted-SameData config c s1 s3 h identity (set_timeouts-SameData a b timeout s1 s3 x3 e3)
        (greet-Greeted config c s1 h identity ac e1);
  attached =
      Attached-SameData h.session_id i s2 s4 (set_timeouts-SameData a' b' timeout s2 s4 x4 e4)
        (attach-Attached config h.session_id i s2 x2 ai e2);
  session_id = refl;
  session_trace_id = refl;
  overrides = refl;
  guest_label = refl;
}

open_streams-StreamsOpened :
    (config : GuestTransportConfig) (c i : ChannelStream)
    (opened : GuestSessionInfo × ChannelStream × ChannelStream)
    → Arrived c.reader
    → Arrived i.reader
    → open_streams config (ok c) (ok i) ≡ ok opened
    → StreamsOpened config c i opened.0 opened.1 opened.2
unfolding open_streams
open_streams-StreamsOpened config c i opened ac ai e =
    let (p1, e1, r1) = >>=-ok (with_state (greet config c)) _ opened e in
    let h = p1.0.0 in
    let (p2, e2, r2) = >>=-ok (with_state (attach config h.session_id i)) _ opened r1 in
    let timeout = steady_io_timeout config h.guest_runtime_overrides in
    let (p3, e3, r3) =
      >>=-ok
        (with_state (
          set_timeouts "control set steady read timeout" "control set steady write timeout" timeout
            p1.1))
        _ opened r2 in
    let (p4, e4, r4) =
      >>=-ok
        (with_state (
          set_timeouts "input set steady read timeout" "input set steady write timeout" timeout
            p2.1))
        _ opened r3 in
    subst (λ p. StreamsOpened config c i p.0 p.1 p.2) (ok_injective {E = GuestError} r4)
      (assembled config c i p1.1 p2.1 p3.1 p4.1 h p1.0.1 _ _ _ _ timeout p2.0 p3.0 p4.0 ac ai
        (with_state-ok (greet config c) p1 e1) (with_state-ok (attach config h.session_id i) p2 e2)
        (with_state-ok
          (set_timeouts "control set steady read timeout" "control set steady write timeout" timeout
            p1.1)
          p3 e3)
        (with_state-ok
          (set_timeouts "input set steady read timeout" "input set steady write timeout" timeout
            p2.1)
          p4 e4))

queue_room : (n : ℕ) → 0 < max n 1
queue_room n = omega arith

-- Connecting never trips the assertion of the queue.
queued :
    (n : ℕ)
    → 0 < n
    → with_capacity n ≡ some (record { capacity = n; reports = []; stats = zero_stats })
unfolding with_capacity
queued n some_room = ground arith

with_queue-ok :
    (r : Result GuestError (GuestSessionInfo × ChannelStream × ChannelStream))
    (session : GuestSession)
    → with_queue r ≡ some (ok session)
    → (r ≡ ok (session.info, session.control.control, session.input.stream))
      × (session.control.next_request_id ≡ 3)
      × (session.input.input_queue.reports ≡ [])
      × (0 < session.input.input_queue.capacity)
unfolding session_queue_capacity
with_queue-ok (err x) session e = absurd (cc e)
with_queue-ok (ok parts) session e =
    let room : ℕ = session_queue_capacity parts.0.guest_runtime_overrides in
    let made : some
          (ok (session_with parts (record { capacity = room; reports = []; stats = zero_stats })))
        ≡ some (ok session) =
      sym (ap (put_queue parts) (queued room (queue_room _))) ∙ e in
    let same = ok_injective {E = GuestError} (some-injective _ _ made) in
    subst
      (λ x.
        (Path (Result GuestError (GuestSessionInfo × ChannelStream × ChannelStream)) (ok parts)
          (ok (x.info, x.control.control, x.input.stream)))
        × (x.control.next_request_id ≡ 3)
        × (x.input.input_queue.reports ≡ [])
        × (0 < x.input.input_queue.capacity))
      same (refl, refl, refl, queue_room _)

-- A session that `connect` returns, from two streams of bytes, was agreed on: the host answered
-- the hello, of the first id, with this version of the protocol and a status that is ok, sent the
-- identity that the session has, and answered the attachment, of the second id and with the number
-- of the session, with a status that is ok; nothing else was sent or received; the next request
-- has the third id, and the queue has room and is empty.
pub connect-opened :
    (config : GuestTransportConfig) (c i : ChannelStream) (session : GuestSession)
    → Arrived c.reader
    → Arrived i.reader
    → connect config (ok c) (ok i) ≡ some (ok session)
    → StreamsOpened config c i session.info session.control.control session.input.stream
      × (session.control.next_request_id ≡ 3)
      × (session.input.input_queue.reports ≡ [])
      × (0 < session.input.input_queue.capacity)
unfolding connect
connect-opened config c i session ac ai e =
    let (opened, next, free, some_room) =
      with_queue-ok (open_streams config (ok c) (ok i)) session e in
    (
      open_streams-StreamsOpened config c i
          (session.info, session.control.control, session.input.stream) ac ai opened,
      next,
      free,
      some_room,
    )
