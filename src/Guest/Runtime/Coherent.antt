-- ===== src/Guest/Runtime/Coherent.antt =====
-- crates/crosspuck-core/src/guest_driver/runtime.rs: what holds in every world that the worker, the
-- callers and the threads of the bridges reach.
use crosspuck.Base.{
  ℕ, suc, ◌+◌, ◌<◌, ◌≤◌, ◌≡◌, refl, ap, ◌∙◌, Bool, true, false, not, none, List, [], ◌∷◌, ◌++◌,
  ◌==◌, ==_iff, ltb, arith, All, Bool-cases, inl, inr,
}
use crosspuck.Base.Result.{ok}
use crosspuck.Guest.Config.{RuntimeConfig}
use crosspuck.Guest.Runtime.{HostBridge, GuestDriverRuntime, new_runtime}
use crosspuck.Guest.Runtime.Sweep.{count, count-append}
use crosspuck.Guest.Runtime.Worker.{
  WorkerPc, outside, looping, finishing, in_connect, waiting, Turn, finish_connect,
}
use crosspuck.Guest.Runtime.Owners.{has_id, live, live-connected, Dropped}
use crosspuck.Guest.Runtime.Shown.{Shows, new_runtime-Shows}
use crosspuck.Guest.Runtime.Quiet.{Quiet}
use crosspuck.Guest.Runtime.System.{World, first_world}

abbrev pub is_outside : WorkerPc → Bool
is_outside outside = true
is_outside looping = false
is_outside finishing = false
is_outside (in_connect epoch) = false
is_outside (waiting time) = false

abbrev pub is_connecting : WorkerPc → Bool
is_connecting outside = false
is_connecting looping = false
is_connecting finishing = false
is_connecting (in_connect epoch) = true
is_connecting (waiting time) = false

-- The flags say where the worker stands, and it connects only while no bridge is published.
pub record Attended (pc : WorkerPc) (r : GuestDriverRuntime) : Type 0 where
  pub shows : Shows r
  pub running : r.connection.worker_running ≡ not (is_outside pc)
  pub connecting : r.connection.connecting ≡ is_connecting pc
  pub free : is_connecting pc ≡ true → r.connection.bridge ≡ none

-- A bridge that was made has one reference of the runtime or has been joined once, and not both; one
-- that was not made yet has none; a bridge that an operation holds is one of the runtime's.
pub record Owned (r : GuestDriverRuntime) (clones : ℕ → ℕ) (joined : List HostBridge) (next_id : ℕ)
    : Type 0 where
  pub made : (id : ℕ) → id < next_id → live id r + count (has_id id) joined ≡ 1
  pub fresh : (id : ℕ) → next_id ≤ id → live id r + count (has_id id) joined ≡ 0
  pub held : (id : ℕ) → 0 < clones id → live id r ≡ 1

pub Owned-once :
    (r : GuestDriverRuntime) (clones : ℕ → ℕ) (joined : List HostBridge) (next_id : ℕ)
    → Owned r clones joined next_id
    → (id : ℕ) → live id r + count (has_id id) joined ≤ 1
Owned-once r clones joined next_id o id = elim (Bool-cases (ltb id next_id)) [
  | inl early ↦ omega (arith, o.made id (ground (arith, early)))
  | inr late ↦ omega (arith, o.fresh id (ground (arith, late)))
]

pub record Coherent (w : World) : Type 0 where
  pub attended : Attended w.pc w.runtime
  pub owned : Owned w.runtime w.clones w.joined w.next_id

pub first_world-Coherent : (config : RuntimeConfig) → Coherent (first_world config)
unfolding first_world new_runtime live
first_world-Coherent config = record {
  attended = record {
    shows = new_runtime-Shows config;
    running = refl;
    connecting = refl;
    free = λ e. refl;
  };
  owned = record {
    made = λ id early. absurd (omega arith);
    fresh = λ id late. refl;
    held = λ id some_held. absurd (omega arith);
  };
}

pub Quiet-Attended :
    (pc : WorkerPc) (r s : GuestDriverRuntime) → Quiet r s → Attended pc r → Attended pc s
Quiet-Attended pc r s q a = record {
  shows = q.shows a.shows;
  running = q.running ∙ a.running;
  connecting = q.connecting ∙ a.connecting;
  free = λ e. q.free (a.free e);
}

-- Functions that keep every count of references keep the owners.
pub same-Owned :
    (r s : GuestDriverRuntime) (clones : ℕ → ℕ) (joined : List HostBridge) (next_id : ℕ)
    → ((id : ℕ) → live id s ≡ live id r)
    → Owned r clones joined next_id
    → Owned s clones joined next_id
same-Owned r s clones joined next_id same o = record {
  made = λ id early. omega (arith, same id, o.made id early);
  fresh = λ id late. omega (arith, same id, o.fresh id late);
  held = λ id h. same id ∙ o.held id h;
}

pub connected-Owned :
    (now epoch : ℕ) (b : HostBridge) (r : GuestDriverRuntime) (clones : ℕ → ℕ)
    (joined : List HostBridge)
    → r.connection.bridge ≡ none
    → Owned r clones joined b.id
    → Owned (finish_connect now epoch (ok b) r) clones joined (suc b.id)
connected-Owned now epoch b r clones joined free o =
    let made : (id : ℕ)
        → id < suc b.id
        → live id (finish_connect now epoch (ok b) r) + count (has_id id) joined ≡ 1 =
      λ id early. elim (Bool-cases (b.id == id)) [
        | inl same ↦
            ground
              (arith, same, live-connected id now epoch b r free, o.fresh id (ground (arith, same)))
        | inr other ↦ ground (
          arith,
          other,
          live-connected id now epoch b r free,
          o.made id (ground (arith, other, early)),
        )
      ] in
    record {
      made = made;
      fresh =
          λ id late. ground (arith, live-connected id now epoch b r free, o.fresh id (omega arith));
      held = λ id h. elim (Bool-cases (b.id == id)) [
        | inl same ↦ absurd (ground (arith, same, o.held id h, o.fresh id (ground (arith, same))))
        | inr other ↦ ground (arith, other, live-connected id now epoch b r free, o.held id h)
      ];
    }

unused_count :
    (clones : ℕ → ℕ) (id : ℕ) (bs : List HostBridge)
    → 0 < clones id
    → All (λ b. clones b.id ≡ 0) bs
    → count (has_id id) bs ≡ 0
unused_count clones id [] h unused = refl
unused_count clones id (b ∷ bs) h unused = elim (Bool-cases (b.id == id)) [
  | inl same ↦ absurd (omega (arith, h, unused.0, ap clones ((==_iff b.id id).0 same)))
  | inr other ↦ rw other (omega (arith, unused_count clones id bs h unused.1))
]

pub turn-Owned :
    (r : GuestDriverRuntime) (clones : ℕ → ℕ) (joined : List HostBridge) (next_id : ℕ) (t : Turn)
    → Dropped clones r t
    → Owned r clones joined next_id
    → Owned t.runtime clones (t.cleanup ++ joined) next_id
turn-Owned r clones joined next_id t d o = record {
  made = λ id early.
      omega (arith, d.counts id, o.made id early, count-append (has_id id) t.cleanup joined);
  fresh = λ id late.
      omega (arith, d.counts id, o.fresh id late, count-append (has_id id) t.cleanup joined);
  held =
      λ id h. omega (arith, d.counts id, o.held id h, unused_count clones id t.cleanup h d.unused);
}
