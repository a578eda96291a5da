-- ===== src/Guest/Profile.antt =====
-- crates/crosspuck-core/src/guest_driver/profile.rs: the profiles of the virtual devices.
pub mod Catalog
use crosspuck.Base.{ℕ, Bool, ◌==◌, ◌≡◌, arith, true}

pub data VirtualHidProfile : Type 0 where
  main interface3 interface4 interface5 vendor_dongle : VirtualHidProfile

-- The discriminant.
abbrev pub profile_number : VirtualHidProfile → ℕ
profile_number main = 0
profile_number interface3 = 1
profile_number interface4 = 2
profile_number interface5 = 3
profile_number vendor_dongle = 4

-- The derived `==`.
abbrev pub same_profile : VirtualHidProfile → VirtualHidProfile → Bool
same_profile p q = profile_number p == profile_number q

pub same_profile→≡ : (p q : VirtualHidProfile) → same_profile p q ≡ true → p ≡ q
same_profile→≡ p q h = ground arith
