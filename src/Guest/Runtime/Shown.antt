-- ===== src/Guest/Runtime/Shown.antt =====
-- crates/crosspuck-core/src/guest_driver/runtime.rs: what is shown to the guest agrees with the
-- bridge, after every function of the runtime.
use crosspuck.Base.{
  ℕ, ◌%◌, ◌≡◌, refl, ◌∙◌, ap, subst, not, Option, none, some, ◌||◌, arith, if◌then◌else◌,
  Bool-cases, Option-cases, inl, inr, Bytes, ◌==◌,
}
use mathlib.Core.Option.{some-injective}
use crosspuck.Base.Result.{Result, ok, err}
use crosspuck.Guest.Config.{RuntimeConfig}
use crosspuck.Guest.Identity.{new_identity, set_host_identity, mark_stale, live_identity, present}
use crosspuck.Guest.Profile.Catalog.{from_identity}
use crosspuck.Guest.Runtime.{
  HostBridge, GuestDriverRuntime, new_runtime, retire_bridge, catalog_of, push_retired,
  allow_debug_fallback_with_overrides,
}
use crosspuck.Guest.Runtime.Worker.{publish, finish_connect, has_bridge}

-- What is shown is what the host of the bridge sent.
abbrev pub Serves : GuestDriverRuntime → HostBridge → Type 0
Serves r b =
    (live_identity r.connection.identity ≡ some b.info.identity)
    × (r.connection.catalog
        ≡ some (
            from_identity b.info.identity
              (allow_debug_fallback_with_overrides r.config b.info.guest_runtime_overrides)))

-- The identity and the catalog are those of the published bridge; without one, no identity of a
-- host is live, and the catalog is that of the fallback, if there is one. The generation is odd
-- just while a bridge is published.
pub record Shows (r : GuestDriverRuntime) : Type 0 where
  pub shown : (b : HostBridge) → r.connection.bridge ≡ some b → Serves r b
  pub hidden :
      r.connection.bridge ≡ none
      → (live_identity r.connection.identity ≡ none)
        × (r.connection.catalog ≡ catalog_of r.config r.connection.identity)
  pub parity : r.device_generation % 2 ≡ (if has_bridge r then 1 else 0)

pub new_runtime-Shows : (config : RuntimeConfig) → Shows (new_runtime config)
unfolding new_runtime live_identity new_identity
new_runtime-Shows config = record {
  shown = λ b e. absurd (ground arith);
  hidden = λ e. (refl, refl);
  parity = refl;
}

stale_hidden : (r : GuestDriverRuntime) → live_identity (mark_stale r.connection.identity) ≡ none
unfolding live_identity mark_stale
stale_hidden r = ground arith

taken-Shows :
    (found : Option HostBridge) (r : GuestDriverRuntime)
    → r.connection.bridge ≡ none
    → live_identity r.connection.identity ≡ none
    → r.connection.catalog ≡ catalog_of r.config r.connection.identity
    → r.device_generation % 2 ≡ (if present found then 1 else 0)
    → Shows (push_retired found r)
taken-Shows none r gone hid cat parity = record {
  shown = λ b e. absurd (ground (arith, e, gone));
  hidden = λ e. (hid, cat);
  parity = ground (arith, parity, gone);
}
taken-Shows (some b) r gone hid cat parity = record {
  shown = λ b e. absurd (ground (arith, e, gone));
  hidden = λ e. (hid, cat);
  parity = ground (arith, parity, gone);
}

has-present : (r : GuestDriverRuntime) → has_bridge r ≡ present r.connection.bridge
has-present r = elim (Option-cases r.connection.bridge) [
  | inl gone ↦ ground (arith, gone)
  | inr (b, at) ↦ ground (arith, at)
]

pub retire_bridge-Shows : (r : GuestDriverRuntime) → Shows r → Shows (retire_bridge r)
unfolding retire_bridge
retire_bridge-Shows r s =
    taken-Shows r.connection.bridge _ refl (stale_hidden r) refl
      (s.parity ∙ ap (λ t. if t then 1 else 0) (has-present r))

pub publish-Shows :
    (b : HostBridge) (r : GuestDriverRuntime)
    → Shows r
    → r.connection.bridge ≡ none
    → Shows (publish b r)
unfolding publish live_identity set_host_identity new_identity
publish-Shows b r s free = record {
  shown = λ c e. subst (Serves (publish b r)) (some-injective _ _ e) (refl, refl);
  hidden = λ e. absurd (ground (arith, e));
  parity = ground (arith, s.parity, free);
}

pub finish_connect-Shows :
    (now epoch : ℕ) (result : Result Bytes HostBridge) (r : GuestDriverRuntime)
    → Shows r
    → r.connection.bridge ≡ none
    → Shows (finish_connect now epoch result r)
unfolding finish_connect
finish_connect-Shows now epoch (err text) r s free = record {
  shown = s.shown;
  hidden = s.hidden;
  parity = s.parity;
}
finish_connect-Shows now epoch (ok b) r s free =
    elim (Bool-cases (r.connection.stopping || not (r.connection.epoch == epoch))) [
      | inl drop ↦ rw drop record { shown = s.shown; hidden = s.hidden; parity = s.parity }
      | inr keep ↦
          rw keep (
            publish-Shows b _ record { shown = s.shown; hidden = s.hidden; parity = s.parity } free)
    ]
