-- ===== src/Guest/Runtime/Ends.antt =====
-- crates/crosspuck-core/src/guest_driver/runtime.rs: the worker ends once it was asked to stop.
use crosspuck.Base.{
  ℕ, ◌≡◌, ◌⊎◌, refl, ◌∙◌, true, false, none, some, List, [], ◌∷◌, length, All, arith, Option-cases,
  inl, inr,
}
use crosspuck.Guest.Runtime.{HostBridge, GuestDriverRuntime, ErrorCounts, retire_bridge}
use crosspuck.Guest.Runtime.Sweep.{sweep-Sweeps}
use crosspuck.Guest.Runtime.Worker.{
  finishing, Turn, worker_turn, take_cleanup, check_health, attempt_or_wait, unheld,
}
use crosspuck.Guest.Runtime.Owners.{live}

-- The pass ends the loop, and the runtime has no reference to a bridge left.
pub record Drained (t : Turn) : Type 0 where
  pub finished : t.pc ≡ finishing
  pub bare : (id : ℕ) → live id t.runtime ≡ 0

module _ (clones : ℕ → ℕ) (unused : (id : ℕ) → clones id ≡ 0) where
  none_held : (bs : List HostBridge) → All (λ b. unheld clones b ≡ false) bs → bs ≡ []
  none_held [] h = refl
  none_held (b ∷ bs) h = absurd (ground (arith, h.0, unused b.id))

  taken_all : (r : GuestDriverRuntime) → (take_cleanup clones r).0.connection.retired ≡ []
  unfolding take_cleanup
  taken_all r =
      none_held _
        (sweep-Sweeps (length r.connection.retired) (unheld clones) 0 r.connection.retired []
          (omega arith) tt tt).kept

  taken_rest :
      (r : GuestDriverRuntime)
      → ((take_cleanup clones r).0.connection.stopping ≡ r.connection.stopping)
        × ((take_cleanup clones r).0.connection.bridge ≡ r.connection.bridge)
  unfolding take_cleanup
  taken_rest r = (refl, refl)

  -- With no bridge published, the pass is the last.
  last_turn :
      (errors : ErrorCounts) (now : ℕ) (r : GuestDriverRuntime)
      → r.connection.stopping ≡ true
      → r.connection.bridge ≡ none
      → Drained (worker_turn clones errors now r)
  unfolding worker_turn retire_bridge live
  last_turn errors now r stops gone =
      let s = (take_cleanup clones r).0 in
      let stops' : s.connection.stopping ≡ true = (taken_rest r).0 ∙ stops in
      let gone' : s.connection.bridge ≡ none = (taken_rest r).1 ∙ gone in
      rw (stops', gone', taken_all r) record { finished = refl; bare = λ id. refl }

  -- Otherwise it retires the bridge.
  first_turn :
      (errors : ErrorCounts) (now : ℕ) (r : GuestDriverRuntime) (b : HostBridge)
      → r.connection.stopping ≡ true
      → r.connection.bridge ≡ some b
      → ((worker_turn clones errors now r).runtime.connection.stopping ≡ true)
        × ((worker_turn clones errors now r).runtime.connection.bridge ≡ none)
  unfolding worker_turn retire_bridge check_health attempt_or_wait
  first_turn errors now r b stops at =
      let s = (take_cleanup clones r).0 in
      let stops' : s.connection.stopping ≡ true = (taken_rest r).0 ∙ stops in
      let at' : s.connection.bridge ≡ some b = (taken_rest r).1 ∙ at in
      rw (stops', at', taken_all r) (refl, refl)

  -- Once the worker was asked to stop and no operation holds a bridge, the first or the second
  -- pass of its loop is the last, and the runtime then has no reference to a bridge.
  pub worker_turn-Drained :
      (errors errors' : ErrorCounts) (now now' : ℕ) (r : GuestDriverRuntime)
      → r.connection.stopping ≡ true
      → Drained (worker_turn clones errors now r)
        ⊎ Drained (worker_turn clones errors' now' (worker_turn clones errors now r).runtime)
  worker_turn-Drained errors errors' now now' r stops = elim (Option-cases r.connection.bridge) [
    | inl gone ↦ inl (last_turn errors now r stops gone)
    | inr (b, at) ↦
        let first = first_turn errors now r b stops at in
        inr (last_turn errors' now' _ first.0 first.1)
  ]
