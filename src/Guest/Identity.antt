-- ===== src/Guest/Identity.antt =====
-- crates/crosspuck-core/src/guest_driver/identity.rs: the identity that the driver shows to the
-- guest, from the host, or a built-in one for debugging.
use crosspuck.Base.{ℕ, Bool, true, false, Option, none, some, ◌&&◌, not, if◌then◌else◌, [], ◌∷◌}
use crosspuck.Base.Text.{ascii}
use crosspuck.Protocol.Payload.Role.{
  CollectionRole, puck_main, puck_interface3, puck_interface4, puck_interface5, puck_vendor_dongle,
}
use crosspuck.Protocol.Payload.Identity.{CollectionDescriptor, IdentityPayload}

unfoldable pub fallback_collection : CollectionRole → ℕ → ℕ → ℕ → ℕ → ℕ → ℕ → CollectionDescriptor
fallback_collection role interface_number usage_page usage input_report_len output_report_len
      feature_report_len =
    record {
      role = role;
      interface_number = interface_number;
      usage_page = usage_page;
      usage = usage;
      input_report_len = input_report_len;
      output_report_len = output_report_len;
      feature_report_len = feature_report_len;
    }

unfoldable pub default_fallback_identity : IdentityPayload
default_fallback_identity = record {
  vendor_id = 0x28de;
  product_id = 0x1304;
  version_number = 0x0002;
  manufacturer = ascii "Valve Software";
  product = ascii "Steam Controller Puck";
  serial = ascii "FXB9961303C9C";
  collections =
      fallback_collection puck_main 2 0x0001 0x0001 54 64 64
      ∷ fallback_collection puck_interface3 3 0x0001 0x0001 54 64 64
      ∷ fallback_collection puck_interface4 4 0x0001 0x0001 54 64 64
      ∷ fallback_collection puck_interface5 5 0x0001 0x0001 54 64 64
      ∷ fallback_collection puck_vendor_dongle 6 0xff00 0x0002 54 1 64
      ∷ [];
}

-- The fallback identity, if it is allowed.
abbrev pub fallback_if : Bool → Option IdentityPayload
fallback_if allowed = if allowed then some default_fallback_identity else none

pub record RuntimeIdentity : Type 0 where
  pub host : Option IdentityPayload
  pub fallback : Option IdentityPayload
  pub stale : Bool

pub data RuntimeIdentityState : Type 0 where
  missing fallback_only live outdated : RuntimeIdentityState

-- `RuntimeIdentity::new`
unfoldable pub new_identity : Bool → RuntimeIdentity
new_identity allow_debug_fallback = record {
  host = none;
  fallback = fallback_if allow_debug_fallback;
  stale = false;
}

unfoldable pub set_host_identity : IdentityPayload → RuntimeIdentity → RuntimeIdentity
set_host_identity identity r = record r { host = some identity; stale = false }

abbrev pub present {ℓ} : {A : Type ℓ} → Option A → Bool
present none = false
present (some a) = true

unfoldable pub mark_stale : RuntimeIdentity → RuntimeIdentity
mark_stale r = if present r.host then record r { stale = true } else r

unfoldable pub clear_host_identity : RuntimeIdentity → RuntimeIdentity
clear_host_identity r = record r { host = none; stale = false }

-- `RuntimeIdentity::state`
unfoldable pub identity_state : RuntimeIdentity → RuntimeIdentityState
identity_state r =
    if present r.host && r.stale
    then outdated
    else if present r.host
    then live
    else if present r.fallback
    then fallback_only
    else missing

unfoldable pub live_identity : RuntimeIdentity → Option IdentityPayload
live_identity r = if not r.stale then r.host else none

-- `Option::or`
abbrev pub or_else {ℓ} : {A : Type ℓ} → Option A → Option A → Option A
or_else none b = b
or_else (some a) b = some a

-- `RuntimeIdentity::identity`
unfoldable pub shown_identity : RuntimeIdentity → Option IdentityPayload
shown_identity r = or_else (live_identity r) r.fallback

unfoldable pub can_advertise : Bool → RuntimeIdentity → Bool
can_advertise host_bridge_required r =
    if host_bridge_required then present (live_identity r) else present (shown_identity r)
