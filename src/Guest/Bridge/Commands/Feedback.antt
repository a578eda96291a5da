-- ===== src/Guest/Bridge/Commands/Feedback.antt =====
-- crates/crosspuck-core/src/guest_driver/bridge.rs: which commands an added feedback command drops.
use crosspuck.Base.{
  suc, ◌-◌, ◌≤◌, ◌≡◌, refl, sym, ap, if◌then◌else◌, ◌∙◌, Bool, true, not, some, List, [], ◌∷◌, ◌++◌,
  arith, Bool-cases, Option-cases, inl, inr, length, length-append, drop, leb, append-nil,
  drop-append_le,
}
use crosspuck.Base.Result.{ok, err}
use crosspuck.Base.Selection.{retain, position, position-some, position-none, retain-append}
use crosspuck.Protocol.Queue.Newest.{newest, length-newest}
use crosspuck.Guest.Bridge.Inputs.{InputStats}
use crosspuck.Guest.Bridge.Commands.{
  CommandRequest, CommandSide, command_worker_stopped, is_feedback, default_feedback_queue_capacity,
  with_stats, feedback_room, push_feedback, enqueue_feedback,
}

-- The requests that somebody waits for.
abbrev pub is_request : CommandRequest → Bool
is_request c = not (is_feedback c)

-- The feedback commands of a queue, within their bound.
abbrev pub Bounded : List CommandRequest → Type 0
Bounded queue = length (retain is_feedback queue) ≤ default_feedback_queue_capacity

room_kept :
    (queue : List CommandRequest)
    → Bounded queue
    → (retain is_request (feedback_room queue).0 ≡ retain is_request queue)
      × (retain is_feedback (feedback_room queue).0
          ≡ drop
              (suc (length (retain is_feedback queue)) - default_feedback_queue_capacity)
              (retain is_feedback queue))
unfolding feedback_room
room_kept queue bounded = elim (Bool-cases (leb 64 (length (retain is_feedback queue)))) [
  | inr room ↦
      let none_over : suc (length (retain is_feedback queue)) - 64 ≡ 0 = ground arith in
      rw (none_over, room) (refl, refl)
  | inl full ↦
      let one : suc (length (retain is_feedback queue)) - 64 ≡ 1 = ground arith in
      elim (Option-cases (position is_feedback queue)) [
        | inl lacking ↦ absurd (ground (arith, position-none is_feedback queue lacking))
        | inr (index, found) ↦
            let (taken, others) = position-some is_feedback queue index found in
            rw (one, full, found) (others, taken)
      ]
]

-- What the queue is to be after `command`, a feedback command, was added: the requests as they
-- were, and the newest 64 feedback commands, `command` the last of them.
pub record Added (command : CommandRequest) (queue queue' : List CommandRequest) : Type 0 where
  pub requests : retain is_request queue' ≡ retain is_request queue
  pub feedback :
      retain is_feedback queue'
      ≡ newest default_feedback_queue_capacity (retain is_feedback queue ++ (command ∷ []))
  pub bounded : Bounded queue'

room-Added :
    (command : CommandRequest) (queue : List CommandRequest)
    → is_feedback command ≡ true
    → Bounded queue
    → Added command queue ((feedback_room queue).0 ++ (command ∷ []))
unfolding newest
room-Added command queue is_one bounded =
    let (requests, rest) = room_kept queue bounded in
    let over : length (retain is_feedback queue ++ (command ∷ [])) - 64
        ≡ suc (length (retain is_feedback queue)) - 64 =
      omega (arith, length-append (retain is_feedback queue) (command ∷ [])) in
    let split : retain is_feedback ((feedback_room queue).0 ++ (command ∷ []))
        ≡ retain is_feedback (feedback_room queue).0 ++ (command ∷ []) =
      rw (retain-append is_feedback (feedback_room queue).0 (command ∷ []), is_one) refl in
    let feedback : retain is_feedback ((feedback_room queue).0 ++ (command ∷ []))
        ≡ newest default_feedback_queue_capacity (retain is_feedback queue ++ (command ∷ [])) =
      split
      ∙ rw (over, rest)
          (sym (
            drop-append_le (suc (length (retain is_feedback queue)) - 64) (retain is_feedback queue)
              (command ∷ []) (omega arith))) in
    record {
      requests =
          rw (retain-append is_request (feedback_room queue).0 (command ∷ []), is_one)
            (append-nil _ ∙ requests);
      feedback = feedback;
      bounded = rw feedback (length-newest 64 (retain is_feedback queue ++ (command ∷ [])));
    }

pub with_stats-queue :
    (update : InputStats → InputStats) (c : CommandSide)
    → (with_stats update c).command_queue ≡ c.command_queue
with_stats-queue update c = elim (Option-cases c.stats) [
  | inl poisoned ↦ rw poisoned refl
  | inr (stats, held) ↦ rw held refl
]

-- While the worker runs and the queue is not poisoned, a feedback command is accepted: the requests
-- stay in the queue, as do the newest 64 feedback commands, in their order.
pub enqueue_feedback-Added :
    (command : CommandRequest) (c : CommandSide) (queue : List CommandRequest)
    → is_feedback command ≡ true
    → c.running ≡ true
    → c.command_queue ≡ some queue
    → Bounded queue
    → ((enqueue_feedback command c).0 ≡ ok tt)
      × (queue' : List CommandRequest) × ((enqueue_feedback command c).1.command_queue
          ≡ some queue')
      × Added command queue queue'
unfolding enqueue_feedback
enqueue_feedback-Added command c queue is_one runs held bounded =
    let start : enqueue_feedback command c ≡ push_feedback command (some queue) c =
      rw (is_one, enqueue_feedback)
        (ap
            (λ r.
              if not r
              then (err command_worker_stopped, c)
              else push_feedback command c.command_queue c)
            runs
          ∙ ap (λ q. push_feedback command q c) held) in
    rw start (
      refl,
      (feedback_room queue).0 ++ (command ∷ []),
      with_stats-queue _ _,
      room-Added command queue is_one bounded,
    )
