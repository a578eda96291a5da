-- ===== src/Guest/Bridge/Process/Served.antt =====
-- crates/crosspuck-core/src/guest_driver/bridge.rs: every request in the queue gets its answer.
use crosspuck.Base.{
  subst₂, if◌then◌else◌, ℕ, zero, suc, ◌≤◌, ◌≡◌, refl, sym, true, some, List, [], ◌∷◌, length,
  arith, Bool-cases, Option-cases, inl, inr,
}
use crosspuck.Base.Result.{Result, ok, err}
use crosspuck.Guest.Session.Exchange.{GuestControl}
use crosspuck.Guest.Bridge.Error.{HostBridgeError, should_disconnect_bridge}
use crosspuck.Guest.Bridge.Inputs.{InputStats}
use crosspuck.Guest.Bridge.Commands.{
  CommandRequest, CommandSide, get_feature, set_feature, set_output, write, with_stats,
  respond_stopped, respond_all, wait_for_command, stop_command_worker,
}
use crosspuck.Guest.Bridge.Process.{
  Processed, Handled, process_command, fed_back, channels, more, stopped, disconnects, serve,
}

-- Only the counters are another.
record SameQueue (c d : CommandSide) : Type 0 where
  running : d.running ≡ c.running
  queue : d.command_queue ≡ c.command_queue

with_stats-SameQueue :
    (update : InputStats → InputStats) (c : CommandSide) → SameQueue c (with_stats update c)
with_stats-SameQueue update c = elim (Option-cases c.stats) [
  | inl poisoned ↦ rw (poisoned, with_stats) record { running = refl; queue = refl }
  | inr (s, held) ↦ rw (held, with_stats) record { running = refl; queue = refl }
]

-- A command that was processed has answered its channel, if it has one.
record Answers (command : CommandRequest) (c : CommandSide) (p : Processed) : Type 0 where
  told : channels p.sent ≡ respond_stopped command
  same : SameQueue c p.side

fed_back-Answers :
    (command : CommandRequest) (r : Result HostBridgeError ℕ) (control : GuestControl)
    (c : CommandSide)
    → respond_stopped command ≡ []
    → Answers command c (fed_back r control c)
fed_back-Answers command (ok n) control c silent = record {
  told = sym silent;
  same = with_stats-SameQueue _ c;
}
fed_back-Answers command (err e) control c silent = elim (Bool-cases (should_disconnect_bridge e)) [
  | inl drop ↦ rw drop record { told = sym silent; same = with_stats-SameQueue _ c }
  | inr keep ↦ rw keep record { told = sym silent; same = record { running = refl; queue = refl } }
]

process_command-Answers :
    (command : CommandRequest) (control : GuestControl) (c : CommandSide)
    → Answers command c (process_command command control c)
unfolding process_command respond_stopped
process_command-Answers (get_feature i r n t u response) control c = record {
  told = refl;
  same = record { running = refl; queue = refl };
}
process_command-Answers (set_feature i payload t u response) control c = record {
  told = refl;
  same = record { running = refl; queue = refl };
}
process_command-Answers (set_output i payload t u) control c =
    fed_back-Answers (set_output i payload t u) _ _ c refl
process_command-Answers (write i payload t u) control c =
    fed_back-Answers (write i payload t u) _ _ c refl

-- What is told to the channels of the commands that are left, and what is left then.
Settled : List CommandRequest → Handled → Type 0
Settled queue s = (s.answered ≡ respond_all queue) × (s.side.command_queue ≡ some [])

stopped-Settled :
    (queue : List CommandRequest) (c : CommandSide)
    → c.command_queue ≡ some queue
    → Settled queue (stopped c)
unfolding Settled stop_command_worker
stopped-Settled queue c held = rw held (refl, refl)

more-Settled :
    (command : CommandRequest) (queue : List CommandRequest) (first : List ℕ) (s : Handled)
    → first ≡ respond_stopped command
    → Settled queue s
    → Settled (command ∷ queue) (more first s)
unfolding Settled
more-Settled command queue first s told left = (rw (told, left.0) refl, left.1)

-- While it runs and its queue is not poisoned, and as long as it may take so many commands, the
-- worker answers every request of the queue once, in the order of the queue, whether the host
-- answers, refuses or breaks the connection, and leaves the queue empty.
pub serve_answers :
    (rounds : ℕ) (queue : List CommandRequest) (control : GuestControl) (c : CommandSide)
    → c.running ≡ true
    → c.command_queue ≡ some queue
    → length queue ≤ rounds
    → ((serve rounds control c).answered ≡ respond_all queue)
      × ((serve rounds control c).side.command_queue ≡ some [])
unfolding serve wait_for_command Settled
serve_answers zero [] control c runs held enough = (refl, held)
serve_answers zero (command ∷ queue) control c runs held enough = absurd (omega arith)
serve_answers (suc rounds) [] control c runs held enough = rw (runs, held) (refl, refl)
serve_answers (suc rounds) (command ∷ queue) control c runs held enough =
    let c' : CommandSide = record { running = true; command_queue = some queue; stats = c.stats } in
    let p = process_command command control c' in
    let a = process_command-Answers command control c' in
    let rest : Handled =
      if disconnects p.result then stopped p.side else serve rounds p.control p.side in
    let left : Settled queue rest = elim (Bool-cases (disconnects p.result)) [
      | inl broken ↦ rw broken (stopped-Settled queue p.side a.same.queue)
      | inr fine ↦
          rw fine
            (serve_answers rounds queue p.control p.side a.same.running a.same.queue (omega arith))
    ] in
    subst₂
      (λ r q.
        Settled (command ∷ queue)
          (serve (suc rounds) control (record { running = r; command_queue = q; stats = c.stats })))
      (sym runs) (sym held) (more-Settled command queue (channels p.sent) rest a.told left)
