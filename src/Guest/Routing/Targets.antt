-- ===== src/Guest/Routing/Targets.antt =====
-- crates/crosspuck-core/src/guest_driver/routing.rs: what a query for HID devices has to ask for.
use crosspuck.Base.{ℕ, ◌≡◌, true, ◌⊎◌, ◌↔◌, arith}
use crosspuck.Protocol.Payload.Identity.{IdentityPayload}
use crosspuck.Guest.Routing.{
  crosspuck_vendor_id, is_known_product, appends_synthetic, hid_query_may_target_crosspuck,
  classify_hid_query,
}

-- The queries that name the device: for everything, or for the vendor, when it is the device's,
-- with any product or with the device's product, when that is a known one.
abbrev pub Targets : ℕ → ℕ → IdentityPayload → Type 0
Targets vendor_id product_id identity =
    ((vendor_id ≡ 0) × (product_id ≡ 0))
    ⊎ ((vendor_id ≡ crosspuck_vendor_id)
        × (identity.vendor_id ≡ crosspuck_vendor_id)
        × ((product_id ≡ 0)
            ⊎ ((product_id ≡ identity.product_id) × (is_known_product product_id ≡ true))))

-- A query is answered with the virtual device exactly when it names the device.
pub classify_hid_query-Targets :
    (vendor_id product_id : ℕ) (identity : IdentityPayload)
    → (appends_synthetic (classify_hid_query vendor_id product_id identity) ≡ true)
      ↔ Targets vendor_id product_id identity
unfolding appends_synthetic classify_hid_query hid_query_may_target_crosspuck
classify_hid_query-Targets vendor_id product_id identity = ground arith
