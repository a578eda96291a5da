-- ===== src/Guest/Routing.antt =====
-- crates/crosspuck-core/src/guest_driver/routing.rs: which queries for HID devices are answered with
-- the virtual device. The routing of device paths, a search in texts, is not here.
pub mod Targets
mod Tests
use crosspuck.Base.{ℕ, Bool, true, false, not, ◌&&◌, ◌||◌, ◌==◌, if◌then◌else◌}
use crosspuck.Protocol.Payload.Identity.{IdentityPayload}

abbrev pub crosspuck_vendor_id : ℕ
crosspuck_vendor_id = 0x28de

-- `CROSSPUCK_KNOWN_PRODUCT_IDS.contains`
abbrev pub is_known_product : ℕ → Bool
is_known_product product_id = product_id == 0x1302 || product_id == 0x1303 || product_id == 0x1304

pub data HidQueryRoute : Type 0 where
  append_crosspuck_synthetic native_only : HidQueryRoute

unfoldable pub appends_synthetic : HidQueryRoute → Bool
appends_synthetic append_crosspuck_synthetic = true
appends_synthetic native_only = false

unfoldable pub hid_query_may_target_crosspuck : ℕ → ℕ → Bool
hid_query_may_target_crosspuck vendor_id product_id =
    (vendor_id == 0 && product_id == 0)
    || (vendor_id == crosspuck_vendor_id && (product_id == 0 || is_known_product product_id))

unfoldable pub classify_hid_query : ℕ → ℕ → IdentityPayload → HidQueryRoute
classify_hid_query vendor_id product_id identity =
    if not (hid_query_may_target_crosspuck vendor_id product_id)
    then native_only
    else if vendor_id == 0 && product_id == 0
    then append_crosspuck_synthetic
    else if vendor_id == identity.vendor_id
        && (product_id == 0 || product_id == identity.product_id)
    then append_crosspuck_synthetic
    else native_only

unfoldable pub is_crosspuck_vid_pid : ℕ → ℕ → IdentityPayload → Bool
is_crosspuck_vid_pid vendor_id product_id identity =
    vendor_id == identity.vendor_id && product_id == identity.product_id
