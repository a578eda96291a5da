-- ===== src/Guest/Runtime/Found.antt =====
-- crates/crosspuck-core/src/guest_driver/runtime.rs: what `with_bridge` finds under the lock.
use crosspuck.Base.{
  ℕ, ◌≡◌, ap, ◌∙◌, true, not, ◌||◌, some, arith, Bool-cases, Option-cases, inl, inr,
}
use crosspuck.Base.Result.{Result, ok}
use crosspuck.Guest.Profile.{VirtualHidProfile}
use crosspuck.Guest.Profile.Catalog.{
  VirtualHidProfileCatalog, VirtualHidProfileDescriptor, descriptor,
}
use crosspuck.Guest.Runtime.{HostBridge, GuestDriverRuntime, ErrorCounts, state_bridge_healthy}
use crosspuck.Guest.Runtime.Calls.{GuestDriverError, bridge_for}

-- The bridge is the published one, it is healthy, and the interface is that of the profile in the
-- catalog.
pub record Found (errors : ErrorCounts) (p : VirtualHidProfile) (r : GuestDriverRuntime)
    (b : HostBridge) (n : ℕ) : Type 0 where
  pub catalog : VirtualHidProfileCatalog
  pub profile : VirtualHidProfileDescriptor
  pub published : r.connection.bridge ≡ some b
  pub healthy : state_bridge_healthy errors r.connection ≡ true
  pub listed : r.connection.catalog ≡ some catalog
  pub offered : descriptor catalog p ≡ some profile
  pub interface : profile.interface_number ≡ n

pub bridge_for-Found :
    (errors : ErrorCounts) (p : VirtualHidProfile) (r : GuestDriverRuntime) (b : HostBridge) (n : ℕ)
    → bridge_for errors p r ≡ ok (b, n)
    → Found errors p r b n
unfolding bridge_for
bridge_for-Found errors p r b n e =
    elim (Bool-cases
      (not r.config.host_bridge_enabled || not (state_bridge_healthy errors r.connection))) [
        | inl refused ↦ absurd (cc (rw refused at e))
        | inr allowed ↦ elim (Option-cases r.connection.catalog) [
          | inl bare ↦ absurd (cc (rw (allowed, bare) at e))
          | inr (c, has) ↦ elim (Option-cases (descriptor c p)) [
            | inl gone ↦ absurd (cc (rw (allowed, has, gone) at e))
            | inr (d, at) ↦ elim (Option-cases r.connection.bridge) [
              | inl lost ↦ absurd (cc (rw (allowed, has, at, lost) at e))
              | inr (b', pub_b) ↦
                  let same : (Path (Result GuestDriverError (HostBridge × ℕ))
                      (ok (b', d.interface_number)) (ok (b, n))) =
                    rw (allowed, has, at, pub_b) at e in
                  record {
                    catalog = c;
                    profile = d;
                    published = pub_b ∙ ap some (cc same);
                    healthy = ground (arith, allowed);
                    listed = has;
                    offered = at;
                    interface = cc same;
                  }
            ]
          ]
        ]
      ]
