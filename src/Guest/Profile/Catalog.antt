-- ===== src/Guest/Profile/Catalog.antt =====
-- crates/crosspuck-core/src/guest_driver/profile.rs: the catalog of the profiles that an identity
-- offers. The texts of device paths and hardware ids are not here.
pub mod Offers
pub mod Entries
use crosspuck.Base.{
  ℕ, Bool, true, false, Option, none, some, List, [], ◌∷◌, ◌++◌, ◌==◌, ltb, if◌then◌else◌,
}
use crosspuck.Protocol.Payload.Role.{
  CollectionRole, puck_main, puck_interface3, puck_interface4, puck_interface5, puck_vendor_dongle,
  role_id,
}
use crosspuck.Protocol.Payload.Identity.{CollectionDescriptor, IdentityPayload}
use crosspuck.Guest.Profile.{
  VirtualHidProfile, main, interface3, interface4, interface5, vendor_dongle, same_profile,
}
use crosspuck.Guest.Identity.{fallback_if, or_else}

-- `VirtualHidProfile::ALL`
abbrev pub all_profiles : List VirtualHidProfile
all_profiles = main ∷ interface3 ∷ interface4 ∷ interface5 ∷ vendor_dongle ∷ []

unfoldable pub role_of : VirtualHidProfile → CollectionRole
role_of main = puck_main
role_of interface3 = puck_interface3
role_of interface4 = puck_interface4
role_of interface5 = puck_interface5
role_of vendor_dongle = puck_vendor_dongle

unfoldable pub from_role : CollectionRole → VirtualHidProfile
from_role puck_main = main
from_role puck_interface3 = interface3
from_role puck_interface4 = interface4
from_role puck_interface5 = interface5
from_role puck_vendor_dongle = vendor_dongle

unfoldable pub collection_number_of : VirtualHidProfile → ℕ
collection_number_of vendor_dongle = 2
collection_number_of _ = 1

unfoldable pub instance_suffix_of : VirtualHidProfile → ℕ
instance_suffix_of main = 1
instance_suffix_of interface3 = 2
instance_suffix_of interface4 = 3
instance_suffix_of interface5 = 4
instance_suffix_of vendor_dongle = 5

pub record VirtualHidProfileDescriptor : Type 0 where
  pub profile : VirtualHidProfile
  pub role : CollectionRole
  pub interface_number : ℕ
  pub collection_number : ℕ
  pub instance_suffix : ℕ
  pub usage_page : ℕ
  pub usage : ℕ
  pub input_report_len : ℕ
  pub output_report_len : ℕ
  pub feature_report_len : ℕ

unfoldable pub from_collection : CollectionDescriptor → VirtualHidProfileDescriptor
from_collection c =
    let p = from_role c.role in
    record {
      profile = p;
      role = c.role;
      interface_number = c.interface_number;
      collection_number = collection_number_of p;
      instance_suffix = instance_suffix_of p;
      usage_page = c.usage_page;
      usage = c.usage;
      input_report_len = c.input_report_len;
      output_report_len = c.output_report_len;
      feature_report_len = c.feature_report_len;
    }

pub record HidCaps : Type 0 where
  pub usage : ℕ
  pub usage_page : ℕ
  pub input_report_byte_length : ℕ
  pub output_report_byte_length : ℕ
  pub feature_report_byte_length : ℕ
  pub number_link_collection_nodes : ℕ
  pub number_input_value_caps : ℕ
  pub number_output_value_caps : ℕ
  pub number_feature_value_caps : ℕ

unfoldable pub caps : VirtualHidProfileDescriptor → HidCaps
caps d = record {
  usage = d.usage;
  usage_page = d.usage_page;
  input_report_byte_length = d.input_report_len;
  output_report_byte_length = d.output_report_len;
  feature_report_byte_length = d.feature_report_len;
  number_link_collection_nodes = if same_profile d.profile vendor_dongle then 1 else 4;
  number_input_value_caps = 1;
  number_output_value_caps = if ltb 1 d.output_report_len then 1 else 0;
  number_feature_value_caps = 1;
}

pub record VirtualHidProfileCatalog : Type 0 where
  pub identity : IdentityPayload
  pub descriptors : List VirtualHidProfileDescriptor

-- `collections.iter().find(|collection| collection.role == role)`, the roles by their numbers.
abbrev pub find_role : CollectionRole → List CollectionDescriptor → Option CollectionDescriptor
find_role role [] = none
find_role role (c ∷ cs) = if role_id c.role == role_id role then some c else find_role role cs

-- The collection for a profile: the identity's, or else the fallback's, if that is allowed.
abbrev pub collection_for : IdentityPayload → Bool → VirtualHidProfile → Option CollectionDescriptor
collection_for identity allow profile =
    or_else (find_role (role_of profile) identity.collections) (elim (fallback_if allow) [
      | none ↦ none
      | some fallback ↦ find_role (role_of profile) fallback.collections
    ])

abbrev pub descriptors_for :
    IdentityPayload → Bool → List VirtualHidProfile → List VirtualHidProfileDescriptor
descriptors_for identity allow [] = []
descriptors_for identity allow (p ∷ ps) =
    let rest = descriptors_for identity allow ps in
    elim (collection_for identity allow p) [ none ↦ rest | some c ↦ from_collection c ∷ rest ]

unfoldable pub from_identity : IdentityPayload → Bool → VirtualHidProfileCatalog
from_identity identity allow_debug_fallback = record {
  identity = identity;
  descriptors = descriptors_for identity allow_debug_fallback all_profiles;
}

abbrev pub find_profile :
    VirtualHidProfile → List VirtualHidProfileDescriptor → Option VirtualHidProfileDescriptor
find_profile p [] = none
find_profile p (d ∷ ds) = if same_profile d.profile p then some d else find_profile p ds

unfoldable pub descriptor :
    VirtualHidProfileCatalog → VirtualHidProfile → Option VirtualHidProfileDescriptor
descriptor catalog p = find_profile p catalog.descriptors

abbrev find_interface : ℕ → List VirtualHidProfileDescriptor → Option VirtualHidProfile
find_interface i [] = none
find_interface i (d ∷ ds) = if d.interface_number == i then some d.profile else find_interface i ds

unfoldable pub profile_for_interface : VirtualHidProfileCatalog → ℕ → Option VirtualHidProfile
profile_for_interface catalog i = find_interface i catalog.descriptors
