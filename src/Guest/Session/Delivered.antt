-- ===== src/Guest/Session/Delivered.antt =====
-- crates/crosspuck-core/src/guest.rs: the report that `read_input_report` returns.
use crosspuck.Base.{
  ◌<◌, ◌≡◌, ◌⊎◌, refl, sym, ap, ◌∙◌, false, none, some, List, [], ◌∷◌, ◌++◌, ◌==◌, arith,
  Bool-cases, inl, inr,
}
use crosspuck.Base.Result.{Result, ok, Result-cases}
use crosspuck.Base.Action.{ok_inv, outcome_cases}
use crosspuck.Protocol.Frame
use crosspuck.Protocol.Frame.Header.{Frame}
use crosspuck.Protocol.Frame.Io.Reading.{Arrived, arriving, frame_bytes}
use crosspuck.Protocol.Payload.Report.{InputReport, input_report_wire}
use crosspuck.Protocol.Queue.{
  QueuedInputReport, InputReportQueue, from_wire, push, pop, pop_from, make_room,
}
use crosspuck.Guest.Stream.{read_stream}
use crosspuck.Guest.Session.{GuestError}
use crosspuck.Guest.Session.Exchange.{
  GuestInput, same_message, queue_report, after_read, after_pop, read_input_report,
}
use crosspuck.Guest.Session.Answered.{read_stream-Took, same_message→≡}

-- The report came off the stream: a frame of input reports, whose id is the number of the report.
pub record FromStream (r : QueuedInputReport) (g h : GuestInput) : Type 0 where
  pub response : Frame
  pub report : InputReport
  pub front : g.stream.reader ≡ arriving (frame_bytes response) ++ h.stream.reader
  pub typed : response.header.message_type ≡ Frame.input_report
  pub decoded : input_report_wire.decode response.payload ≡ ok report
  pub same : r ≡ from_wire response.header.id report
  pub emptied : h.input_queue.reports ≡ []

pop-push :
    (r : QueuedInputReport) (q : InputReportQueue)
    → q.reports ≡ []
    → 0 < q.capacity
    → ((pop (push r q)).0 ≡ some r) × ((pop (push r q)).1.reports ≡ [])
unfolding pop push make_room
pop-push r q free some_room =
    let room : (0 == q.capacity) ≡ false = ground arith in rw (free, room) (refl, refl)

module _ (g h : GuestInput) (r : QueuedInputReport) where
  queue_report-ok :
      (f : Frame) (q q' : InputReportQueue)
      → q.reports ≡ []
      → 0 < q.capacity
      → queue_report f q ≡ (ok r, q')
      → (f.header.message_type ≡ Frame.input_report)
        × ((report : InputReport) × (input_report_wire.decode f.payload ≡ ok report)
            × (r ≡ from_wire f.header.id report))
        × (q'.reports ≡ [])
  unfolding queue_report
  queue_report-ok f q q' free some_room e =
      elim (Bool-cases (same_message f.header.message_type Frame.input_report)) [
        | inl same ↦ elim (Result-cases (input_report_wire.decode f.payload)) [
          | inl (report, decoded) ↦
              let (popped, left) = pop-push (from_wire f.header.id report) q free some_room in
              let (got, rest) =
                ok_inv (from_wire f.header.id report) r
                  (pop (push (from_wire f.header.id report) q)).1 q'
                  (rw (same, decoded, popped) at e) in
              (
                same_message→≡ _ _ same,
                (report, decoded, sym got),
                ap (λ x. x.reports) (sym rest) ∙ left,
              )
          | inr (x, refused) ↦ absurd (cc (rw (same, refused) at e))
        ]
        | inr other ↦ absurd (cc (rw other at e))
      ]

  read_report-FromStream :
      g.input_queue.reports ≡ []
      → 0 < g.input_queue.capacity
      → Arrived g.stream.reader
      → after_read g (read_stream g.stream) ≡ (ok r, h)
      → FromStream r g h
  read_report-FromStream free some_room a e = elim (outcome_cases (read_stream g.stream)) [
    | inl (f, left, read) ↦
        let done = sym (ap (after_read g) read) ∙ e in
        let queued : Path (Result GuestError QueuedInputReport × InputReportQueue)
            (queue_report f g.input_queue) (ok r, h.input_queue) =
          ap (λ x. (x.0, x.1.input_queue)) done in
        let same : left ≡ h.stream = ap (λ x. x.1.stream) done in
        let (typed, (report, decoded, got), emptied) =
          queue_report-ok f g.input_queue h.input_queue free some_room queued in
        record {
          response = f;
          report = report;
          front =
              (read_stream-Took f g.stream left a read).front
              ∙ ap (λ x. arriving (frame_bytes f) ++ x.reader) same;
          typed = typed;
          decoded = decoded;
          same = got;
          emptied = emptied;
        }
    | inr (x, left, failed) ↦ absurd (cc (sym (ap (after_read g) failed) ∙ e))
  ]

  pop_cases :
      (xs : List QueuedInputReport) (q : InputReportQueue)
      → ((xs ≡ []) × (pop_from xs q ≡ (none, q)))
        ⊎ ((x : QueuedInputReport) × (p : InputReportQueue) × (xs ≡ x ∷ p.reports)
            × (pop_from xs q ≡ (some x, p)))
  pop_cases [] q = inl (refl, refl)
  pop_cases (x ∷ xs) q = inr (x, (pop_from (x ∷ xs) q).1, refl, refl)

  -- When the queue has some capacity and the stream has bytes, a report that a read returns is the
  -- oldest of the queue, which loses it while the stream stays as it was, or, when the queue was
  -- empty, it is the one of the frame at the front of the stream, which is a frame of input
  -- reports, and the queue is empty again.
  pub read_input_report-delivered :
      0 < g.input_queue.capacity
      → Arrived g.stream.reader
      → read_input_report g ≡ (ok r, h)
      → ((g.input_queue.reports ≡ r ∷ h.input_queue.reports) × (h.stream ≡ g.stream))
        ⊎ ((g.input_queue.reports ≡ []) × FromStream r g h)
  unfolding read_input_report pop
  read_input_report-delivered some_room a e = elim (pop_cases g.input_queue.reports g.input_queue) [
    | inl (free, popped) ↦
        inr (free, read_report-FromStream free some_room a (sym (ap (after_pop g) popped) ∙ e))
    | inr (x, p, held, popped) ↦
        let (got, rest) =
          ok_inv x r (record g { input_queue = p }) h (sym (ap (after_pop g) popped) ∙ e) in
        inl (
          held ∙ rw (got) (ap (λ y. r ∷ y.input_queue.reports) rest),
          ap (λ y. y.stream) (sym rest),
        )
  ]
