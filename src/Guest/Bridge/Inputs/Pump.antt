-- ===== src/Guest/Bridge/Inputs/Pump.antt =====
-- crates/crosspuck-core/src/guest_driver/bridge.rs: what the input pump does with its reports.
use crosspuck.Base.{
  ℕ, ◌-◌, ◌≤◌, ◌<◌, ◌≡◌, refl, sym, ap, ◌∙◌, some, List, [], ◌∷◌, ◌++◌, arith, Bool-cases, inl, inr,
  length, length-append, drop-append_le, leb,
}
use crosspuck.Protocol.Queue.{QueuedInputReport, without_front, count_one}
use crosspuck.Protocol.Queue.Newest.{newest, without_front-drop}
use crosspuck.Guest.Bridge.Inputs.{
  InputSide, pump_report, pump_locked, drop_oldest, append_report, with_stats,
}
use crosspuck.Guest.Bridge.Inputs.Latest.{with_stats_kept}

-- What is left of a queue to which one more is to be added.
room_left :
    (capacity : ℕ) (queue : List QueuedInputReport) (b : InputSide)
    → b.input_queue ≡ some queue
    → 0 < capacity
    → length queue ≤ capacity
    → (kept : List QueuedInputReport) × ((drop_oldest capacity queue b).input_queue ≡ some kept)
      × ((report : QueuedInputReport)
          → kept ++ (report ∷ []) ≡ newest capacity (queue ++ (report ∷ [])))
unfolding newest
room_left capacity queue b held some_room within = elim (Bool-cases (leb capacity (length queue))) [
  | inl full ↦
      let (q, _) =
        with_stats_kept (λ s. record s { dropped_oldest = count_one s.dropped_oldest })
          (record b { input_queue = some (without_front queue) }) in
      (
        without_front queue,
        rw (full, drop_oldest) q,
        λ report.
            let one : length (queue ++ (report ∷ [])) - capacity ≡ 1 =
              ground (arith, length-append queue (report ∷ [])) in
            rw one (
              rw (without_front-drop queue)
                (sym (drop-append_le 1 queue (report ∷ []) (ground arith)))),
      )
  | inr room ↦ (
    queue,
    rw (room, drop_oldest) held,
    λ report.
        let zero_over : length (queue ++ (report ∷ [])) - capacity ≡ 0 =
          ground (arith, length-append queue (report ∷ [])) in
        rw zero_over refl,
  )
]

-- A pump whose queue is not poisoned goes on, and its queue keeps the newest reports in order.
pub pump_report-newest :
    (capacity : ℕ) (report : QueuedInputReport) (b : InputSide) (queue : List QueuedInputReport)
    → b.input_queue ≡ some queue
    → 0 < capacity
    → length queue ≤ capacity
    → (b' : InputSide) × (pump_report capacity report b ≡ some b')
      × (b'.input_queue ≡ some (newest capacity (queue ++ (report ∷ []))))
unfolding pump_report
pump_report-newest capacity report b queue held some_room within =
    let (kept, left, added) = room_left capacity queue b held some_room within in
    let appended = append_report report (drop_oldest capacity queue b) in
    let (q, _) = with_stats_kept (λ s. record s { pushed = count_one s.pushed }) appended in
    (
      with_stats (λ s. record s { pushed = count_one s.pushed }) appended,
      ap (λ q. pump_locked capacity report q b) held,
      q ∙ rw (left, append_report) (ap some (added report)),
    )
