-- ===== src/Guest/Runtime/Operations.antt =====
-- crates/crosspuck-core/src/guest_driver/runtime.rs: the bridge that an operation holds.
use crosspuck.Base.{
  ℕ, ◌+◌, ◌%◌, ◌^◌, ◌≤◌, ◌≡◌, ◌⊎◌, refl, sym, ap, ◌∙◌, true, Option, none, some, ◌==◌, ==_iff,
  arith, Bool-cases, inl, inr, if◌then◌else◌,
}
use crosspuck.Base.Result.{ok, err}
use crosspuck.Guest.Config.{RuntimeConfig}
use crosspuck.Guest.Profile.{VirtualHidProfile}
use mathlib.Core.Option.{some-injective}
use crosspuck.Protocol.Payload.Identity.{CollectionDescriptor}
use crosspuck.Guest.Profile.Catalog.{
  VirtualHidProfileDescriptor, from_collection, collection_for, from_identity, descriptor,
}
use crosspuck.Guest.Profile.Catalog.Offers.{described, descriptor-described}
use crosspuck.Guest.Profile.Catalog.Entries.{Offered, collection_for-Offered}
use crosspuck.Guest.Bridge.Error.{HostBridgeError, should_disconnect_bridge}
use crosspuck.Guest.Runtime.{
  HostBridge, GuestDriverRuntime, retire_bridge, state_bridge_healthy,
  allow_debug_fallback_with_overrides,
}
use crosspuck.Guest.Runtime.Sweep.{count}
use crosspuck.Guest.Runtime.Owners.{live, has_id, live-settle}
use crosspuck.Guest.Runtime.Found.{bridge_for-Found}
use crosspuck.Guest.Runtime.Calls.{bridge_for, settle, clear_bridge, clear_bridge_if_current}
use crosspuck.Guest.Runtime.Coherent.{Owned-once}
use crosspuck.Guest.Runtime.Reached.{Reach-Coherent}
use crosspuck.Guest.Runtime.System.{World, Reach}

-- In every world that is reached, no bridge that an operation holds has been joined, and none is
-- joined twice.
pub Reach-unjoined :
    {config : RuntimeConfig} {w : World} (id : ℕ)
    → Reach config w
    → (count (has_id id) w.joined ≤ 1) × ((w.clones id ≡ 0) ⊎ (count (has_id id) w.joined ≡ 0))
Reach-unjoined {w} id reached =
    let o = (Reach-Coherent reached).owned in
    let once = Owned-once w.runtime w.clones w.joined w.next_id o id in
    (
      omega (arith, once),
      elim (Bool-cases (w.clones id == 0)) [
        | inl unused ↦ inl ((==_iff _ _).0 unused)
        | inr used ↦ inr (omega (arith, once, o.held id (ground (arith, used))))
      ],
    )

described-some :
    (o : Option CollectionDescriptor) (d : VirtualHidProfileDescriptor)
    → described o ≡ some d
    → (c : CollectionDescriptor) × (o ≡ some c) × (c.interface_number ≡ d.interface_number)
unfolding from_collection
described-some none d e = absurd (cc e)
described-some (some c) d e =
    (c, refl, ap (λ x. x.interface_number) (some-injective (from_collection c) d e))

-- In every world that is reached, a bridge that an operation is given has counted no errors, and
-- the interface that comes with it is that of the first collection of the profile's role among those
-- that the host of this bridge sent, or among the fallback's where the host sent none and its
-- settings allow it.
pub Reach-bridge_for :
    {config : RuntimeConfig} {w : World} (p : VirtualHidProfile) (b : HostBridge) (n : ℕ)
    → Reach config w
    → bridge_for w.errors p w.runtime ≡ ok (b, n)
    → (w.errors.read_errors b.id ≡ 0)
      × (w.errors.command_errors b.id ≡ 0)
      × ((c : CollectionDescriptor) × (collection_for b.info.identity
              (allow_debug_fallback_with_overrides w.runtime.config b.info.guest_runtime_overrides)
              p
            ≡ some c)
          × Offered b.info.identity
              (allow_debug_fallback_with_overrides w.runtime.config b.info.guest_runtime_overrides)
              p
              c
          × (c.interface_number ≡ n))
unfolding state_bridge_healthy
Reach-bridge_for {w} p b n reached e =
    let found = bridge_for-Found w.errors p w.runtime b n e in
    let shown = (Reach-Coherent reached).attended.shows.shown b found.published in
    let allow =
      allow_debug_fallback_with_overrides w.runtime.config b.info.guest_runtime_overrides in
    let same : found.catalog ≡ from_identity b.info.identity allow =
      some-injective _ _ (sym found.listed ∙ shown.1) in
    let (c, has, interface) = described-some _ found.profile (
      sym (descriptor-described b.info.identity allow p)
      ∙ ap (λ c. descriptor c p) (sym same)
      ∙ found.offered) in
    let healthy = rw (found.published) at found.healthy in
    (
      ground (arith, healthy),
      ground (arith, healthy),
      (c, has, collection_for-Offered b.info.identity allow p c has, interface ∙ found.interface),
    )

taken_back :
    (b published : HostBridge) (e : HostBridgeError) (r : GuestDriverRuntime)
    → r.connection.bridge ≡ some published
    → should_disconnect_bridge e ≡ true
    → ((settle {T = Unit} b (err e) r).1.connection.bridge
        ≡ (if published.id == b.id then none else some published))
      × ((settle {T = Unit} b (err e) r).1.connection.epoch ≡ (
          if published.id == b.id then (r.connection.epoch + 1) % 2 ^ 64 else r.connection.epoch))
unfolding settle clear_bridge_if_current clear_bridge retire_bridge
taken_back b published e r at drop = elim (Bool-cases (published.id == b.id)) [
  | inl own ↦ rw (drop, at, own) (refl, refl)
  | inr other ↦ rw (drop, at, other) (refl, refl)
]

-- An operation that ends with an error of the connection, while some bridge is published, takes
-- back its own bridge only: another that was published since stays, and in no case is a reference
-- to a bridge lost.
pub settle-own :
    (b published : HostBridge) (e : HostBridgeError) (r : GuestDriverRuntime) (id : ℕ)
    → r.connection.bridge ≡ some published
    → should_disconnect_bridge e ≡ true
    → ((settle {T = Unit} b (err e) r).1.connection.bridge
        ≡ (if published.id == b.id then none else some published))
      × ((settle {T = Unit} b (err e) r).1.connection.epoch ≡ (
          if published.id == b.id then (r.connection.epoch + 1) % 2 ^ 64 else r.connection.epoch))
      × (live id (settle {T = Unit} b (err e) r).1 ≡ live id r)
settle-own b published e r id at drop =
    let back = taken_back b published e r at drop in (back.0, back.1, live-settle id b (err e) r)
