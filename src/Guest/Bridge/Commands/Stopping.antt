-- ===== src/Guest/Bridge/Commands/Stopping.antt =====
-- crates/crosspuck-core/src/guest_driver/bridge.rs: the commands that come after the end of the command
-- worker.
use crosspuck.Base.{◌≡◌, refl, true, false, Option, none, some, List}
use crosspuck.Base.Result.{err}
use crosspuck.Guest.Bridge.Commands.{
  CommandRequest, CommandSide, command_worker_stopped, is_feedback, enqueue_command,
  enqueue_feedback, stop_command_worker, drain,
}

drained :
    (queue : Option (List CommandRequest)) (c : CommandSide)
    → c.running ≡ false
    → (drain queue c).1.running ≡ false
drained none c stopped = stopped
drained (some queue) c stopped = stopped

-- Once the worker was stopped, a request is refused and so is a feedback command, and neither
-- changes anything.
pub stopped_refuses :
    (c : CommandSide) (command : CommandRequest)
    → (enqueue_command command (stop_command_worker c).1
        ≡ (err command_worker_stopped, (stop_command_worker c).1))
      × (is_feedback command ≡ true
          → enqueue_feedback command (stop_command_worker c).1
            ≡ (err command_worker_stopped, (stop_command_worker c).1))
unfolding stop_command_worker enqueue_command enqueue_feedback
stopped_refuses c command =
    let stopped : (stop_command_worker c).1.running ≡ false = drained c.command_queue _ refl in
    (rw (stopped, enqueue_command) refl, λ is_one. rw (is_one, stopped, enqueue_feedback) refl)
