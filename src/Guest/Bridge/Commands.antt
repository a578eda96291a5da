-- ===== src/Guest/Bridge/Commands.antt =====
-- crates/crosspuck-core/src/guest_driver/bridge.rs: the queue of commands between the hooks and the
-- command worker. A response channel is a number, and a sent response is an entry of the outcome. The two
-- reads of `running` around a lock are one, since each call is one step here.
pub mod Feedback
pub mod Stopping
pub mod Channels
pub mod Handed
use crosspuck.Base.{
  ℕ, ◌+◌, ◌%◌, ◌^◌, Bool, true, false, not, Option, none, some, List, [], ◌∷◌, ◌++◌, leb,
  if◌then◌else◌, length, Bytes, String,
}
use crosspuck.Base.Result.{Result, ok, err}
use crosspuck.Base.Selection.{retain, position, remove}
use crosspuck.Protocol.Queue.{count_one}
use crosspuck.Guest.Bridge.Inputs.{InputStats}

pub data CommandRequest : Type 0 where
  -- interface, report id, requested length, timeout, transport timeout, response
  get_feature : ℕ → ℕ → ℕ → ℕ → ℕ → ℕ → CommandRequest
  -- interface, data, timeout, transport timeout, response
  set_feature : ℕ → Bytes → ℕ → ℕ → ℕ → CommandRequest
  -- interface, data, timeout, transport timeout
  set_output write : ℕ → Bytes → ℕ → ℕ → CommandRequest

-- The errors of this queue: those of `HostBridgeError` that it raises.
pub data CommandError : Type 0 where
  bad_request : String → CommandError
  command_queue_poisoned command_worker_stopped : CommandError

unfoldable pub is_feedback : CommandRequest → Bool
is_feedback (get_feature i r n t u response) = false
is_feedback (set_feature i payload t u response) = false
is_feedback (set_output i payload t u) = true
is_feedback (write i payload t u) = true

-- The channels that get `CommandWorkerStopped`.
unfoldable pub respond_stopped : CommandRequest → List ℕ
respond_stopped (get_feature i r n t u response) = response ∷ []
respond_stopped (set_feature i payload t u response) = response ∷ []
respond_stopped (set_output i payload t u) = []
respond_stopped (write i payload t u) = []

-- `none` is a poisoned mutex.
pub record CommandSide : Type 0 where
  pub running : Bool
  pub command_queue : Option (List CommandRequest)
  pub stats : Option InputStats

abbrev pub default_feedback_queue_capacity : ℕ
default_feedback_queue_capacity = 64

abbrev pub with_stats : (InputStats → InputStats) → CommandSide → CommandSide
with_stats update c = elim c.stats [
  | none ↦ c
  | some stats ↦ record c { stats = some (update stats) }
]

abbrev pub push_locked :
    CommandRequest
    → Option (List CommandRequest)
    → CommandSide
    → Result CommandError Unit × CommandSide
push_locked command none c = (err command_queue_poisoned, c)
push_locked command (some queue) c =
    (ok tt, record c { command_queue = some (queue ++ (command ∷ [])) })

unfoldable pub enqueue_command :
    CommandRequest → CommandSide → Result CommandError Unit × CommandSide
enqueue_command command c =
    if not c.running then (err command_worker_stopped, c) else push_locked command c.command_queue c

-- The queue with room for one feedback command more, and whether one was dropped for it.
unfoldable pub feedback_room : List CommandRequest → List CommandRequest × Bool
feedback_room queue =
    if leb default_feedback_queue_capacity (length (retain is_feedback queue))
    then (elim (position is_feedback queue) [
      | none ↦ (queue, false)
      | some index ↦ ((remove index queue).1, true)
    ])
    else (queue, false)

abbrev pub count_dropped : Bool → CommandSide → CommandSide
count_dropped dropped c =
    if dropped
    then with_stats (λ s. record s { feedback_dropped = count_one s.feedback_dropped }) c
    else c

abbrev pub push_feedback :
    CommandRequest
    → Option (List CommandRequest)
    → CommandSide
    → Result CommandError Unit × CommandSide
push_feedback command none c = (err command_queue_poisoned, c)
push_feedback command (some queue) c =
    let (kept, dropped) = feedback_room queue in
    let c' = count_dropped dropped c in
    (
      ok tt,
      with_stats (λ s. record s { feedback_enqueued = count_one s.feedback_enqueued })
          (record c' { command_queue = some (kept ++ (command ∷ [])) }),
    )

unfoldable pub enqueue_feedback :
    CommandRequest → CommandSide → Result CommandError Unit × CommandSide
enqueue_feedback command c =
    if not (is_feedback command)
    then (err (bad_request "non-feedback command"), c)
    else if not c.running
    then (err command_worker_stopped, c)
    else push_feedback command c.command_queue c

abbrev pub respond_all : List CommandRequest → List ℕ
respond_all [] = []
respond_all (command ∷ commands) = respond_stopped command ++ respond_all commands

abbrev pub drain : Option (List CommandRequest) → CommandSide → List ℕ × CommandSide
drain none c = ([], c)
drain (some queue) c = (respond_all queue, record c { command_queue = some [] })

-- The channels that are told that the worker stopped, in their order.
unfoldable pub stop_command_worker : CommandSide → List ℕ × CommandSide
stop_command_worker c = let c' = record c { running = false } in drain c'.command_queue c'

-- What `wait_for_command` finds when it looks: a command, the end, or that it has to wait again.
pub data Waited : Type 0 where
  command : CommandRequest → Waited
  ended : Waited
  wait_again : Waited

abbrev pub look : Option (List CommandRequest) → CommandSide → Waited × CommandSide
look none c = (ended, c)
look (some (first ∷ queue)) c = (command first, record c { command_queue = some queue })
look (some []) c = (if c.running then wait_again else ended, c)

unfoldable pub wait_for_command : CommandSide → Waited × CommandSide
wait_for_command c = look c.command_queue c
