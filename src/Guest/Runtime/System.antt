-- ===== src/Guest/Runtime/System.antt =====
-- crates/crosspuck-core/src/guest_driver/runtime.rs: the worker, the callers and the threads of the
-- bridges, in any order. A step is what happens under one lock.
use crosspuck.Base.{ℕ, suc, ◌-◌, ◌<◌, ◌≡◌, List, [], ◌++◌, ◌==◌, if◌then◌else◌, Bytes}
use crosspuck.Base.Result.{Result, ok, err}
use crosspuck.Guest.Config.{RuntimeConfig}
use crosspuck.Guest.Profile.{VirtualHidProfile}
use crosspuck.Guest.Session.{GuestSessionInfo}
use crosspuck.Guest.Bridge.Error.{HostBridgeError}
use crosspuck.Guest.Runtime.{HostBridge, GuestDriverRuntime, ErrorCounts, new_runtime}
use crosspuck.Guest.Runtime.Worker.{
  WorkerPc, outside, looping, finishing, in_connect, waiting, Turn, begin_worker, worker_turn,
  end_worker, finish_connect,
}
use crosspuck.Guest.Runtime.Calls.{
  clear_bridge, request_connection_worker_stop, bridge_for, settle, open_profile, close_profile,
  trace_payload,
}

-- `clones` counts the references to a bridge that operations hold; `joined` are the bridges whose
-- last reference was dropped; `next_id` is the number of the next bridge.
pub record World : Type 0 where
  pub runtime : GuestDriverRuntime
  pub pc : WorkerPc
  pub clones : ℕ → ℕ
  pub errors : ErrorCounts
  pub joined : List HostBridge
  pub next_id : ℕ

unfoldable pub first_world : RuntimeConfig → World
first_world config = record {
  runtime = new_runtime config;
  pc = outside;
  clones = λ id. 0;
  errors = record { read_errors = λ id. 0; command_errors = λ id. 0 };
  joined = [];
  next_id = 0;
}

abbrev pub set_clones : ℕ → ℕ → (ℕ → ℕ) → ℕ → ℕ
set_clones id n clones j = if j == id then n else clones j

abbrev pub after_turn : World → Turn → World
after_turn w t = record w { runtime = t.runtime; pc = t.pc; joined = t.cleanup ++ w.joined }

abbrev pub with_runtime : GuestDriverRuntime → World → World
with_runtime r w = record w { runtime = r }

pub data Step (w : World) : World → Type 0 where
  begins :
      w.pc ≡ outside
      → Step w (record w { pc = (begin_worker w.runtime).0; runtime = (begin_worker w.runtime).1 })
  turns :
      (now : ℕ)
      → w.pc ≡ looping
      → Step w (after_turn w (worker_turn w.clones w.errors now w.runtime))
  connects :
      (now epoch : ℕ) (info : GuestSessionInfo)
      → w.pc ≡ in_connect epoch
      → Step w (record w {
        pc = looping;
        runtime = finish_connect now epoch (ok (record { id = w.next_id; info = info })) w.runtime;
        next_id = suc w.next_id;
      })
  fails :
      (now epoch : ℕ) (text : Bytes)
      → w.pc ≡ in_connect epoch
      → Step w (record w { pc = looping; runtime = finish_connect now epoch (err text) w.runtime })
  wakes : (time : ℕ) → w.pc ≡ waiting time → Step w (record w { pc = looping })
  ends : w.pc ≡ finishing → Step w (record w { pc = outside; runtime = end_worker w.runtime })
  clears : Step w (with_runtime (clear_bridge w.runtime) w)
  stops : Step w (with_runtime (request_connection_worker_stop w.runtime) w)
  -- An operation gets its clone of the bridge.
  takes :
      (p : VirtualHidProfile) (b : HostBridge) (interface_number : ℕ)
      → bridge_for w.errors p w.runtime ≡ ok (b, interface_number)
      → Step w (record w { clones = set_clones b.id (suc (w.clones b.id)) w.clones })
  -- An operation ends, and drops its clone; its value aside.
  settles :
      (b : HostBridge) (result : Result HostBridgeError Unit)
      → 0 < w.clones b.id
      → Step w (record w {
        runtime = (settle b result w.runtime).1;
        clones = set_clones b.id (w.clones b.id - 1) w.clones;
      })
  -- The threads of the bridges count errors.
  errs : (errors : ErrorCounts) → Step w (record w { errors = errors })
  opens : (p : VirtualHidProfile) → Step w (with_runtime (open_profile w.errors p w.runtime).1 w)
  closes : (id : ℕ) → Step w (with_runtime (close_profile id w.runtime).1 w)
  traces : Step w (with_runtime (trace_payload w.runtime).1 w)

pub data Reach (config : RuntimeConfig) : World → Type 0 where
  start : Reach config (first_world config)
  later : {v w : World} → Reach config v → Step v w → Reach config w
