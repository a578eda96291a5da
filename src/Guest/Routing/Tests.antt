-- ===== src/Guest/Routing/Tests.antt =====
-- crates/crosspuck-core/src/guest_driver/routing.rs: a query for the vendor alone.
use crosspuck.Base.{◌≡◌, true, ◌↔◌, [], ◌∷◌}
use crosspuck.Protocol.Payload.Identity.{IdentityPayload}
use crosspuck.Guest.Routing.{appends_synthetic, classify_hid_query}
use crosspuck.Guest.Routing.Targets.{Targets, classify_hid_query-Targets}

abbrev wired_puck : IdentityPayload
wired_puck = record {
  vendor_id = 0x28de;
  product_id = 0x1302;
  version_number = 1;
  manufacturer = [];
  product = b'P' ∷ [];
  serial = [];
  collections = [];
}

classify_hid_query-Targets_example :
    (appends_synthetic (classify_hid_query 0x28de 0 wired_puck) ≡ true)
    ↔ Targets 0x28de 0 wired_puck
classify_hid_query-Targets_example = classify_hid_query-Targets 0x28de 0 wired_puck
