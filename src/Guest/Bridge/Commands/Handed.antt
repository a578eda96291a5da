-- ===== src/Guest/Bridge/Commands/Handed.antt =====
-- crates/crosspuck-core/src/guest_driver/bridge.rs: what becomes of the callers that wait for an answer
-- to their commands, from the queue to the worker or to its end.
use crosspuck.Base.{
  subst, Bool, not, false, if◌then◌else◌, ℕ, ◌≡◌, refl, sym, ap, ◌∙◌, true, some, List, [], ◌∷◌,
  ◌++◌, append-nil, append_assoc, Bool-cases, inl, inr,
}
use crosspuck.Base.Result.{Result, ok, err}
use crosspuck.Guest.Bridge.Commands.{
  look, CommandRequest, CommandSide, CommandError, Waited, command, ended, wait_again,
  command_worker_stopped, is_feedback, enqueue_command, enqueue_feedback, feedback_room,
  push_locked, push_feedback, wait_for_command, stop_command_worker,
}
use crosspuck.Guest.Bridge.Commands.Channels.{
  channel_of, channels_of, channels_of-append, room_channels, respond_all-channels_of,
}
use crosspuck.Guest.Bridge.Commands.Feedback.{with_stats-queue}

-- A caller enqueues a command of either kind, or the worker looks for its next command.
pub data Event : Type 0 where
  asks feeds : CommandRequest → Event
  looks : Event

-- The channels of the commands that were accepted, those of the commands that the worker got, and
-- the queue after that.
pub record Passed : Type 0 where
  pub accepted : List ℕ
  pub handed : List ℕ
  pub side : CommandSide

abbrev accepted_of : CommandRequest → Result CommandError Unit × CommandSide → Passed
accepted_of c (ok done, side) = record { accepted = channel_of c; handed = []; side = side }
accepted_of c (err e, side) = record { accepted = []; handed = []; side = side }

abbrev handed_of : Waited × CommandSide → Passed
handed_of (command c, side) = record { accepted = []; handed = channel_of c; side = side }
handed_of (ended, side) = record { accepted = []; handed = []; side = side }
handed_of (wait_again, side) = record { accepted = []; handed = []; side = side }

abbrev pub pass : Event → CommandSide → Passed
pass (asks c) side = accepted_of c (enqueue_command c side)
pass (feeds c) side = accepted_of c (enqueue_feedback c side)
pass looks side = handed_of (wait_for_command side)

abbrev pub pass_all : List Event → CommandSide → Passed
pass_all [] side = record { accepted = []; handed = []; side = side }
pass_all (e ∷ es) side =
    let first = pass e side in
    let rest = pass_all es first.side in
    record {
      accepted = first.accepted ++ rest.accepted;
      handed = first.handed ++ rest.handed;
      side = rest.side;
    }

-- No channel is lost or doubled, and their order is kept.
record Keeps (queue : List CommandRequest) (p : Passed) : Type 0 where
  left : List CommandRequest
  held : p.side.command_queue ≡ some left
  same : channels_of queue ++ p.accepted ≡ p.handed ++ channels_of left

unmoved :
    (queue : List CommandRequest) (side : CommandSide)
    → side.command_queue ≡ some queue
    → Keeps queue (record { accepted = []; handed = []; side = side })
unmoved queue side held = record {
  left = queue;
  held = held;
  same = append-nil (channels_of queue);
}

-- A side whose worker was stopped refuses, and stays as it was.
guarded :
    (runs : Bool) (c : CommandRequest) (queue : List CommandRequest) (side : CommandSide)
    (done : Result CommandError Unit × CommandSide)
    → side.command_queue ≡ some queue
    → Keeps queue (accepted_of c done)
    → Keeps queue (accepted_of c (if not runs then (err command_worker_stopped, side) else done))
guarded true c queue side done held k = k
guarded false c queue side done held k = unmoved queue side held

asks-Keeps :
    (c : CommandRequest) (queue : List CommandRequest) (side : CommandSide)
    → side.command_queue ≡ some queue
    → Keeps queue (pass (asks c) side)
unfolding enqueue_command
asks-Keeps c queue side held =
    guarded side.running c queue side (push_locked c side.command_queue side) held (
      subst (λ q. Keeps queue (accepted_of c (push_locked c q side))) (sym held)
        record {
          left = queue ++ (c ∷ []);
          held = refl;
          same = sym (channels_of-append queue (c ∷ []) ∙ rw append-nil refl);
        })

feeds-Keeps :
    (c : CommandRequest) (queue : List CommandRequest) (side : CommandSide)
    → side.command_queue ≡ some queue
    → Keeps queue (pass (feeds c) side)
unfolding enqueue_feedback
feeds-Keeps c queue side held = elim (Bool-cases (is_feedback c)) [
  | inr other ↦ rw (other, enqueue_feedback) (unmoved queue side held)
  | inl is_one ↦
      rw (is_one, enqueue_feedback)
        (guarded side.running c queue side (push_feedback c side.command_queue side) held (
          subst (λ q. Keeps queue (accepted_of c (push_feedback c q side))) (sym held)
            record {
              left = (feedback_room queue).0 ++ (c ∷ []);
              held = with_stats-queue _ _;
              same = sym (
                  channels_of-append (feedback_room queue).0 (c ∷ [])
                  ∙ rw (room_channels queue, append-nil) refl);
            }))
]

none_handed :
    (runs : Bool) (side : CommandSide)
    → handed_of (if runs then wait_again else ended, side)
      ≡ record { accepted = []; handed = []; side = side }
none_handed true side = refl
none_handed false side = refl

looks-Keeps :
    (queue : List CommandRequest) (side : CommandSide)
    → side.command_queue ≡ some queue
    → Keeps queue (pass looks side)
unfolding wait_for_command
looks-Keeps [] side held =
    subst (Keeps []) (sym (ap (λ q. handed_of (look q side)) held ∙ none_handed side.running side))
      (unmoved [] side held)
looks-Keeps (c ∷ queue) side held =
    rw held
      record { left = queue; held = refl; same = append-nil (channel_of c ++ channels_of queue) }

pass-Keeps :
    (e : Event) (queue : List CommandRequest) (side : CommandSide)
    → side.command_queue ≡ some queue
    → Keeps queue (pass e side)
pass-Keeps (asks c) queue side held = asks-Keeps c queue side held
pass-Keeps (feeds c) queue side held = feeds-Keeps c queue side held
pass-Keeps looks queue side held = looks-Keeps queue side held

-- Two runs in a row, by their channels.
joined_runs :
    (q a h l a' h' l' : List ℕ)
    → q ++ a ≡ h ++ l
    → l ++ a' ≡ h' ++ l'
    → q ++ (a ++ a') ≡ (h ++ h') ++ l'
joined_runs q a h l a' h' l' first rest =
    sym (append_assoc q a a')
    ∙ ap (λ x. x ++ a') first
    ∙ append_assoc h l a'
    ∙ ap (λ x. h ++ x) rest
    ∙ sym (append_assoc h h' l')

pass_all-Keeps :
    (es : List Event) (queue : List CommandRequest) (side : CommandSide)
    → side.command_queue ≡ some queue
    → Keeps queue (pass_all es side)
pass_all-Keeps [] queue side held = unmoved queue side held
pass_all-Keeps (e ∷ es) queue side held =
    let first = pass-Keeps e queue side held in
    let rest = pass_all-Keeps es first.left (pass e side).side first.held in
    record {
      left = rest.left;
      held = rest.held;
      same =
          joined_runs (channels_of queue) _ _ (channels_of first.left) _ _ _ first.same rest.same;
    }

-- While the queue is not poisoned, however callers enqueue commands and feedback and the worker
-- takes commands, when the worker then stops: those who wait on a command that was in the queue or
-- was accepted are, once each and in the order of their commands, first those whose command the
-- worker got and then those who are told that it stopped; and the queue is empty.
pub stopped_answers :
    (es : List Event) (queue : List CommandRequest) (side : CommandSide)
    → side.command_queue ≡ some queue
    → (channels_of queue ++ (pass_all es side).accepted
        ≡ (pass_all es side).handed ++ (stop_command_worker (pass_all es side).side).0)
      × ((stop_command_worker (pass_all es side).side).1.command_queue ≡ some [])
unfolding stop_command_worker
stopped_answers es queue side held =
    let k = pass_all-Keeps es queue side held in
    rw k.held (
      k.same ∙ ap (λ l. (pass_all es side).handed ++ l) (sym (respond_all-channels_of k.left)),
      refl,
    )
