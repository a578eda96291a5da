-- ===== src/Guest/Profile/Catalog/Offers.antt =====
-- crates/crosspuck-core/src/guest_driver/profile.rs: what a search in a catalog finds for a profile.
use crosspuck.Base.{
  Bool, true, false, Option, none, some, List, [], ◌∷◌, ◌==◌, if◌then◌else◌, ◌||◌, ◌≡◌, refl, arith,
  ◌∙◌, ap, Option-cases, Bool-cases, inl, inr,
}
use crosspuck.Protocol.Payload.Role.{CollectionRole, role_id}
use crosspuck.Protocol.Payload.Identity.{CollectionDescriptor, IdentityPayload}
use crosspuck.Guest.Identity.{fallback_if, or_else, default_fallback_identity}
use crosspuck.Guest.Profile.{
  VirtualHidProfile, main, interface3, interface4, interface5, vendor_dongle, same_profile,
  same_profile→≡,
}
use crosspuck.Guest.Profile.Catalog.{
  role_of, from_role, from_collection, find_role, collection_for, descriptors_for, from_identity,
  find_profile, descriptor, all_profiles, VirtualHidProfileDescriptor,
}

-- `Option::map`
abbrev pub described : Option CollectionDescriptor → Option VirtualHidProfileDescriptor
described none = none
described (some c) = some (from_collection c)

pub from_role-role_of :
    (r : CollectionRole) (p : VirtualHidProfile)
    → (role_id r == role_id (role_of p)) ≡ true
    → from_role r ≡ p
unfolding from_role role_of role_id
from_role-role_of r main e = ground arith
from_role-role_of r interface3 e = ground arith
from_role-role_of r interface4 e = ground arith
from_role-role_of r interface5 e = ground arith
from_role-role_of r vendor_dongle e = ground arith

find_role-profile :
    (p : VirtualHidProfile) (cs : List CollectionDescriptor) (c : CollectionDescriptor)
    → find_role (role_of p) cs ≡ some c
    → (from_collection c).profile ≡ p
unfolding from_collection
find_role-profile p [] c e = absurd (ground arith)
find_role-profile p (d ∷ cs) c e = elim (Bool-cases (role_id d.role == role_id (role_of p))) [
  | inl here ↦
      let same : d ≡ c = ground (arith, here) in rw (← same) (from_role-role_of d.role p here)
  | inr other ↦ find_role-profile p cs c (ground (arith, other))
]

-- The collection that the fallback has for a profile.
abbrev pub fallback_for : Bool → VirtualHidProfile → Option CollectionDescriptor
fallback_for allow p = elim (fallback_if allow) [
  | none ↦ none
  | some fallback ↦ find_role (role_of p) fallback.collections
]

fallback_for-profile :
    (allow : Bool) (p : VirtualHidProfile) (c : CollectionDescriptor)
    → fallback_for allow p ≡ some c
    → (from_collection c).profile ≡ p
fallback_for-profile true p c e = find_role-profile p default_fallback_identity.collections c e
fallback_for-profile false p c e = absurd (ground (arith, e))

pub collection_for-profile :
    (identity : IdentityPayload) (allow : Bool) (p : VirtualHidProfile) (c : CollectionDescriptor)
    → collection_for identity allow p ≡ some c
    → (from_collection c).profile ≡ p
collection_for-profile identity allow p c e =
    elim (Option-cases (find_role (role_of p) identity.collections)) [
      | inr (own, found) ↦
          let same : own ≡ c = ground (arith, found) in
          find_role-profile p identity.collections c (found ∙ ap some same)
      | inl lacking ↦ fallback_for-profile allow p c (rw lacking at e)
    ]

abbrev lists : VirtualHidProfile → List VirtualHidProfile → Bool
lists p [] = false
lists p (q ∷ qs) = same_profile q p || lists p qs

or_else_same {ℓ} : {A : Type ℓ} (b : Bool) (o : Option A) → or_else o (if b then o else none) ≡ o
or_else_same b none = ground arith
or_else_same b (some a) = refl

-- What a search finds when the descriptor for `q`, if there is one, is put in front.
find-cons :
    (p q : VirtualHidProfile) (o : Option CollectionDescriptor)
    (ds : List VirtualHidProfileDescriptor)
    → ((c : CollectionDescriptor) → o ≡ some c → (from_collection c).profile ≡ q)
    → find_profile p (elim o [ none ↦ ds | some c ↦ from_collection c ∷ ds ])
      ≡ (if same_profile q p then or_else (described o) (find_profile p ds) else find_profile p ds)
find-cons p q none ds own = ground arith
find-cons p q (some c) ds own = rw (own c refl) (ground arith)

find-descriptors :
    (identity : IdentityPayload) (allow : Bool) (p : VirtualHidProfile)
    (qs : List VirtualHidProfile)
    → find_profile p (descriptors_for identity allow qs)
      ≡ (if lists p qs then described (collection_for identity allow p) else none)
find-descriptors identity allow p [] = refl
find-descriptors identity allow p (q ∷ qs) =
    find-cons p q (collection_for identity allow q) (descriptors_for identity allow qs)
      (collection_for-profile identity allow q)
    ∙ elim (Bool-cases (same_profile q p)) [
      | inl here ↦ rw here (
          ap
            (λ r.
              or_else (described (collection_for identity allow r))
                (find_profile p (descriptors_for identity allow qs)))
            (same_profile→≡ q p here)
          ∙ rw (find-descriptors identity allow p qs)
              (or_else_same (lists p qs) (described (collection_for identity allow p))))
      | inr other ↦ rw (other, find-descriptors identity allow p qs) refl
    ]

all_listed : (p : VirtualHidProfile) → lists p all_profiles ≡ true
all_listed main = refl
all_listed interface3 = refl
all_listed interface4 = refl
all_listed interface5 = refl
all_listed vendor_dongle = refl

-- What a catalog finds for a profile.
pub descriptor-described :
    (identity : IdentityPayload) (allow : Bool) (p : VirtualHidProfile)
    → descriptor (from_identity identity allow) p ≡ described (collection_for identity allow p)
unfolding descriptor from_identity
descriptor-described identity allow p =
    find-descriptors identity allow p all_profiles ∙ rw (all_listed p) refl
