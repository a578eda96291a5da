-- ===== src/Guest/Runtime/Attempts.antt =====
-- crates/crosspuck-core/src/guest_driver/runtime.rs: when the worker tries to connect, and what
-- becomes of an attempt that the callers overtake.
use crosspuck.Base.{
  ℕ, ◌+◌, ◌%◌, ◌^◌, ◌<◌, ◌≡◌, refl, sym, ap, ◌∙◌, Bool, true, false, not, ◌||◌, Option, none, some,
  List, [], ◌∷◌, ◌++◌, ◌==◌, ==_self, append-nil, arith, if◌then◌else◌, Bool-cases, Option-cases,
  inl, inr,
}
use crosspuck.Base.Result.{Result, ok, err}
use crosspuck.Guest.Bridge.Error.{HostBridgeError, should_disconnect_bridge}
use crosspuck.Guest.Runtime.{HostBridge, GuestDriverRuntime, ErrorCounts, retire_bridge, remaining}
use crosspuck.Guest.Runtime.Worker.{
  WorkerPc, outside, looping, finishing, waiting, Turn, in_connect, worker_turn, take_cleanup,
  finish_connect, publish,
}
use crosspuck.Guest.Runtime.Turn.{worker_turn_ind}
use crosspuck.Guest.Runtime.Reached.{no_bridge}
use mathlib.Core.Option.{some-injective}
use crosspuck.Guest.Runtime.Calls.{
  clear_bridge, clear_bridge_if_current, request_connection_worker_stop, settle,
}

-- What callers may do while the worker connects.
pub data Call : Type 0 where
  clearing stopping_worker : Call
  settling : HostBridge → Result HostBridgeError Unit → Call

abbrev pub call : Call → GuestDriverRuntime → GuestDriverRuntime
call clearing r = clear_bridge r
call stopping_worker r = request_connection_worker_stop r
call (settling b result) r = (settle b result r).1

abbrev pub call_all : List Call → GuestDriverRuntime → GuestDriverRuntime
call_all [] r = r
call_all (c ∷ cs) r = call_all cs (call c r)

-- The calls that ask for another connection, or none.
abbrev pub overtakes : Call → Bool
overtakes clearing = true
overtakes stopping_worker = true
overtakes (settling b result) = false

abbrev pub overtakings : List Call → ℕ
overtakings [] = 0
overtakings (c ∷ cs) = (if overtakes c then 1 else 0) + overtakings cs

-- With no bridge published, a call moves the epoch just when it overtakes.
record Idle (moves : ℕ) (r s : GuestDriverRuntime) : Type 0 where
  epoch : s.connection.epoch ≡ (r.connection.epoch + moves) % 2 ^ 64
  free : s.connection.bridge ≡ none
  still : moves ≡ 0 → s ≡ r

settle_idle :
    (b : HostBridge) (result : Result HostBridgeError Unit) (r : GuestDriverRuntime)
    → r.connection.bridge ≡ none
    → (settle b result r).1 ≡ r
unfolding settle clear_bridge_if_current
settle_idle b (ok value) r free = refl
settle_idle b (err e) r free = elim (Bool-cases (should_disconnect_bridge e)) [
  | inl drop ↦ rw (drop, free) refl
  | inr keep ↦ rw keep refl
]

call-Idle :
    (c : Call) (r : GuestDriverRuntime)
    → r.connection.bridge ≡ none
    → r.connection.epoch < 2 ^ 64
    → Idle (if overtakes c then 1 else 0) r (call c r)
unfolding clear_bridge retire_bridge request_connection_worker_stop
call-Idle clearing r free small = record {
  epoch = rw free refl;
  free = rw free refl;
  still = λ e. absurd (omega arith);
}
call-Idle stopping_worker r free small = record {
  epoch = refl;
  free = free;
  still = λ e. absurd (omega arith);
}
call-Idle (settling b result) r free small = record {
  epoch = rw (settle_idle b result r free) (ground arith);
  free = rw (settle_idle b result r free) free;
  still = λ e. settle_idle b result r free;
}

call_all-Idle :
    (cs : List Call) (r : GuestDriverRuntime)
    → r.connection.bridge ≡ none
    → r.connection.epoch < 2 ^ 64
    → Idle (overtakings cs) r (call_all cs r)
call_all-Idle [] r free small = record { epoch = ground arith; free = free; still = λ e. refl }
call_all-Idle (c ∷ cs) r free small =
    let first = call-Idle c r free small in
    let rest = call_all-Idle cs (call c r) first.free (rw first.epoch (ground arith)) in
    record {
      epoch = ground (arith, first.epoch, rest.epoch);
      free = rest.free;
      still = λ e. rest.still (omega arith) ∙ first.still (omega arith);
    }

-- What an attempt of the worker starts from.
pub record Attempted (now : ℕ) (r : GuestDriverRuntime) (t : Turn) (epoch : ℕ) : Type 0 where
  same : t.runtime.connection.epoch ≡ epoch
  before : r.connection.epoch ≡ epoch
  free : t.runtime.connection.bridge ≡ none
  runs : t.runtime.connection.stopping ≡ false
  pub due : remaining now r.connection.retry ≡ 0

abbrev epoch_of : WorkerPc → Option ℕ
epoch_of (in_connect epoch) = some epoch
epoch_of outside = none
epoch_of looping = none
epoch_of finishing = none
epoch_of (waiting time) = none

record Aside (r s : GuestDriverRuntime) : Type 0 where
  epoch : s.connection.epoch ≡ r.connection.epoch
  retry : s.connection.retry ≡ r.connection.retry

retire_bridge-Aside : (r s : GuestDriverRuntime) → Aside r s → Aside r (retire_bridge s)
unfolding retire_bridge
retire_bridge-Aside r s a = elim (Option-cases s.connection.bridge) [
  | inl gone ↦ rw gone record { epoch = a.epoch; retry = a.retry }
  | inr (b, at) ↦ rw at record { epoch = a.epoch; retry = a.retry }
]

pub worker_turn-Attempted :
    (clones : ℕ → ℕ) (errors : ErrorCounts) (now : ℕ) (r : GuestDriverRuntime) (epoch : ℕ)
    → (worker_turn clones errors now r).pc ≡ in_connect epoch
    → Attempted now r (worker_turn clones errors now r) epoch
unfolding take_cleanup
worker_turn-Attempted clones errors now r epoch =
    worker_turn_ind clones errors now r (λ t. t.pc ≡ in_connect epoch → Attempted now r t epoch)
      (Aside r) record { epoch = refl; retry = refl } (retire_bridge-Aside r)
      (λ s a stops last e. absurd (cc (ap epoch_of e)))
      (λ s changed a go e.
        let same : s.connection.epoch ≡ epoch = some-injective _ _ (ap epoch_of e) in
        record {
          same = same;
          before = sym a.epoch ∙ same;
          free = no_bridge s (ground (arith, go));
          runs = ground (arith, go);
          due = ground (arith, go, a.retry);
        })
      (λ s changed a stay e. absurd (cc (ap epoch_of e)))

-- A caller overtook the attempt.
abbrev pub Outcome : Bool → HostBridge → GuestDriverRuntime → GuestDriverRuntime → Type 0
Outcome overtaken b late end =
    (end.connection.bridge ≡ (if overtaken then none else some b))
    × (end.connection.retired ≡ late.connection.retired ++ (if overtaken then b ∷ [] else []))
    × (end.connection.connecting ≡ false)

finish_connect-Outcome :
    (done epoch : ℕ) (b : HostBridge) (late : GuestDriverRuntime) (overtaken : Bool)
    → (late.connection.stopping || not (late.connection.epoch == epoch)) ≡ overtaken
    → late.connection.bridge ≡ none
    → Outcome overtaken b late (finish_connect done epoch (ok b) late)
unfolding finish_connect publish
finish_connect-Outcome done epoch b late true at free = rw at (free, refl, refl)
finish_connect-Outcome done epoch b late false at free = rw at (refl, sym (append-nil _), refl)

epoch_moves :
    (epoch moves : ℕ)
    → epoch < 2 ^ 64
    → 0 < moves
    → moves < 2 ^ 64
    → ((epoch + moves) % 2 ^ 64 == epoch) ≡ false
epoch_moves epoch moves small some_moves few = ground arith

or_true : (b : Bool) → (b || true) ≡ true
or_true true = refl
or_true false = refl

-- The bridge that an attempt yields is published if no caller asked in the meantime to clear the
-- connection or to stop, and otherwise it is retired and nothing is published, as long as the
-- epoch has 64 bits and fewer than 2^64 callers ask.
pub finish_connect-overtaken :
    (clones : ℕ → ℕ) (errors : ErrorCounts) (now done epoch : ℕ) (r : GuestDriverRuntime)
    (cs : List Call) (b : HostBridge)
    → r.connection.epoch < 2 ^ 64
    → overtakings cs < 2 ^ 64
    → (worker_turn clones errors now r).pc ≡ in_connect epoch
    → Outcome
        (not (overtakings cs == 0))
        b
        (call_all cs (worker_turn clones errors now r).runtime)
        (finish_connect done epoch (ok b) (call_all cs (worker_turn clones errors now r).runtime))
finish_connect-overtaken clones errors now done epoch r cs b small few at =
    let a = worker_turn-Attempted clones errors now r epoch at in
    let t = worker_turn clones errors now r in
    let calls = call_all-Idle cs t.runtime a.free (omega (arith, a.same, a.before)) in
    finish_connect-Outcome done epoch b (call_all cs t.runtime) _
      (elim (Bool-cases (overtakings cs == 0)) [
        | inl calm ↦
            rw (calls.still (ground (arith, calm)), a.runs, a.same, ==_self epoch, calm) refl
        | inr overtaken ↦
            let moved : ((call_all cs t.runtime).connection.epoch == epoch) ≡ false =
              rw (calls.epoch, a.same)
                (epoch_moves epoch (overtakings cs) (omega (arith, a.before))
                  (ground (arith, overtaken)) few) in
            rw (moved, overtaken) (or_true _)
      ])
      calls.free
