-- ===== src/Guest/Profile/Catalog/Entries.antt =====
-- crates/crosspuck-core/src/guest_driver/profile.rs: the entries of a catalog, and the collections of
-- the identity that they stand for.
use crosspuck.Base.{
  Bool, true, false, Option, none, some, List, [], ◌∷◌, ◌++◌, ◌==◌, if◌then◌else◌, ◌≡◌, ◌≢◌, ◌⊎◌,
  refl, sym, arith, ◌∙◌, ap, All, Bool-cases, inl, inr, append-nil, subst,
}
use mathlib.Core.Option.{some-injective}
use crosspuck.Base.Selection.{retain}
use crosspuck.Protocol.Payload.Role.{
  CollectionRole, role_id, puck_main, puck_interface3, puck_interface4, puck_interface5,
  puck_vendor_dongle,
}
use crosspuck.Protocol.Payload.Identity.{CollectionDescriptor, IdentityPayload}
use crosspuck.Guest.Identity.{default_fallback_identity}
use crosspuck.Guest.Profile.{
  VirtualHidProfile, main, interface3, interface4, interface5, vendor_dongle, same_profile,
  same_profile→≡,
}
use crosspuck.Guest.Profile.Catalog.{
  role_of, from_role, from_collection, find_role, collection_for, descriptors_for, from_identity,
  descriptor, all_profiles, VirtualHidProfileDescriptor,
}
use crosspuck.Guest.Profile.Catalog.Offers.{
  described, from_role-role_of, fallback_for, collection_for-profile, descriptor-described,
}

-- The first of the collections with the role.
abbrev pub First : CollectionRole → List CollectionDescriptor → CollectionDescriptor → Type 0
First role cs c =
    (before : List CollectionDescriptor) × (after : List CollectionDescriptor) × (cs
      ≡ before ++ (c ∷ after))
    × (c.role ≡ role)
    × All (λ d. d.role ≢ role) before

abbrev pub Lacks : CollectionRole → List CollectionDescriptor → Type 0
Lacks role cs = All (λ d. d.role ≢ role) cs

-- The collection that is to be offered for a profile: the identity's own, or that of the fallback
-- where the identity has none and the fallback is allowed.
abbrev pub Offered : IdentityPayload → Bool → VirtualHidProfile → CollectionDescriptor → Type 0
Offered identity allow p c =
    First (role_of p) identity.collections c
    ⊎ ((allow ≡ true)
        × Lacks (role_of p) identity.collections
        × First (role_of p) default_fallback_identity.collections c)

-- No collection is to be offered for the profile.
abbrev pub Unoffered : IdentityPayload → Bool → VirtualHidProfile → Type 0
Unoffered identity allow p =
    Lacks (role_of p) identity.collections
    × ((allow ≡ false) ⊎ Lacks (role_of p) default_fallback_identity.collections)

role_of-from_role : (r : CollectionRole) → role_of (from_role r) ≡ r
unfolding role_of from_role
role_of-from_role puck_main = refl
role_of-from_role puck_interface3 = refl
role_of-from_role puck_interface4 = refl
role_of-from_role puck_interface5 = refl
role_of-from_role puck_vendor_dongle = refl

same_role :
    (r : CollectionRole) (p : VirtualHidProfile)
    → (role_id r == role_id (role_of p)) ≡ true
    → r ≡ role_of p
same_role r p e = sym (role_of-from_role r) ∙ ap role_of (from_role-role_of r p e)

other_role :
    (r : CollectionRole) (p : VirtualHidProfile)
    → (role_id r == role_id (role_of p)) ≡ false
    → r ≢ role_of p
other_role r p e same = absurd (ground (arith, e, ap role_id same))

find_role-cases :
    (p : VirtualHidProfile) (cs : List CollectionDescriptor)
    → ((c : CollectionDescriptor) × (find_role (role_of p) cs ≡ some c) × First (role_of p) cs c)
      ⊎ ((find_role (role_of p) cs ≡ none) × Lacks (role_of p) cs)
find_role-cases p [] = inr (refl, tt)
find_role-cases p (d ∷ cs) = elim (Bool-cases (role_id d.role == role_id (role_of p))) [
  | inl here ↦ inl (d, rw here refl, ([], cs, refl, same_role d.role p here, tt))
  | inr other ↦ elim (find_role-cases p cs) [
    | inl (c, found, (before, after, split, same, others)) ↦ inl (
      c,
      rw other found,
      (d ∷ before, after, ap (◌∷◌ d) split, same, (other_role d.role p other, others)),
    )
    | inr (lacking, others) ↦ inr (rw other lacking, (other_role d.role p other, others))
  ]
]

-- The collection that the code finds is the one that is to be offered.
collection_for-cases :
    (identity : IdentityPayload) (allow : Bool) (p : VirtualHidProfile)
    → ((c : CollectionDescriptor) × (collection_for identity allow p ≡ some c)
        × Offered identity allow p c)
      ⊎ ((collection_for identity allow p ≡ none) × Unoffered identity allow p)
collection_for-cases identity allow p = elim (find_role-cases p identity.collections) [
  | inl (c, found, first) ↦ inl (c, rw found refl, inl first)
  | inr (lacking, others) ↦
      let rest : collection_for identity allow p ≡ fallback_for allow p = rw lacking refl in
      elim (Bool-cases allow) [
        | inr refused ↦ inr (rest ∙ rw refused refl, (others, inl refused))
        | inl allowed ↦ elim (find_role-cases p default_fallback_identity.collections) [
          | inl (c, found, first) ↦ inl (c, rest ∙ rw allowed found, inr (allowed, others, first))
          | inr (none_there, none_of) ↦ inr (rest ∙ rw allowed none_there, (others, inr none_of))
        ]
      ]
]

pub collection_for-Offered :
    (identity : IdentityPayload) (allow : Bool) (p : VirtualHidProfile) (c : CollectionDescriptor)
    → collection_for identity allow p ≡ some c
    → Offered identity allow p c
collection_for-Offered identity allow p c e = elim (collection_for-cases identity allow p) [
  | inl (d, at, offered) ↦
      subst (Offered identity allow p) (some-injective d c (sym at ∙ e)) offered
  | inr (at, unoffered) ↦ absurd (cc (sym at ∙ e))
]

-- The entries of a profile.
abbrev pub entries_for :
    VirtualHidProfile → List VirtualHidProfileDescriptor → List VirtualHidProfileDescriptor
entries_for p ds = retain (λ d. same_profile d.profile p) ds

abbrev entry : Option CollectionDescriptor → List VirtualHidProfileDescriptor
entry none = []
entry (some c) = from_collection c ∷ []

-- The entry, as often as the profile is among `qs`.
abbrev repeated :
    VirtualHidProfile
    → List VirtualHidProfile
    → Option CollectionDescriptor
    → List VirtualHidProfileDescriptor
repeated p [] o = []
repeated p (q ∷ qs) o = (if same_profile q p then entry o else []) ++ repeated p qs o

entries_for-cons :
    (p q : VirtualHidProfile) (o : Option CollectionDescriptor)
    (ds : List VirtualHidProfileDescriptor)
    → ((c : CollectionDescriptor) → o ≡ some c → (from_collection c).profile ≡ q)
    → entries_for p (elim o [ none ↦ ds | some c ↦ from_collection c ∷ ds ])
      ≡ (if same_profile q p then entry o else []) ++ entries_for p ds
entries_for-cons p q none ds own = ground arith
entries_for-cons p q (some c) ds own =
    ap (λ x. if same_profile x p then from_collection c ∷ entries_for p ds else entries_for p ds)
      (own c refl)
    ∙ elim (Bool-cases (same_profile q p)) [ inl here ↦ rw here refl | inr other ↦ rw other refl ]

same_entry :
    (identity : IdentityPayload) (allow : Bool) (p q : VirtualHidProfile)
    → (if same_profile q p then entry (collection_for identity allow q) else [])
      ≡ (if same_profile q p then entry (collection_for identity allow p) else [])
same_entry identity allow p q = elim (Bool-cases (same_profile q p)) [
  | inl here ↦ rw here (ap (λ r. entry (collection_for identity allow r)) (same_profile→≡ q p here))
  | inr other ↦ rw other refl
]

entries_for-descriptors :
    (identity : IdentityPayload) (allow : Bool) (p : VirtualHidProfile)
    (qs : List VirtualHidProfile)
    → entries_for p (descriptors_for identity allow qs)
      ≡ repeated p qs (collection_for identity allow p)
entries_for-descriptors identity allow p [] = refl
entries_for-descriptors identity allow p (q ∷ qs) =
    entries_for-cons p q (collection_for identity allow q) (descriptors_for identity allow qs)
      (collection_for-profile identity allow q)
    ∙ rw (same_entry identity allow p q, entries_for-descriptors identity allow p qs) refl

once_each :
    (p : VirtualHidProfile) (o : Option CollectionDescriptor) → repeated p all_profiles o ≡ entry o
once_each main o = append-nil (entry o)
once_each interface3 o = append-nil (entry o)
once_each interface4 o = append-nil (entry o)
once_each interface5 o = append-nil (entry o)
once_each vendor_dongle o = append-nil (entry o)

-- An entry shows a collection under a profile.
abbrev pub Describes :
    VirtualHidProfile → CollectionDescriptor → VirtualHidProfileDescriptor → Type 0
Describes p c d =
    (d.profile ≡ p)
    × (d.interface_number ≡ c.interface_number)
    × (d.usage_page ≡ c.usage_page)
    × (d.usage ≡ c.usage)
    × (d.input_report_len ≡ c.input_report_len)
    × (d.output_report_len ≡ c.output_report_len)
    × (d.feature_report_len ≡ c.feature_report_len)

from_collection-Describes :
    (p : VirtualHidProfile) (c : CollectionDescriptor)
    → (from_collection c).profile ≡ p
    → Describes p c (from_collection c)
unfolding from_collection
from_collection-Describes p c own = (own, refl, refl, refl, refl, refl, refl)

-- The catalog of an identity has for each profile one entry or none, which is what a search for the
-- profile finds: the entry has the interface, the usages and the lengths of the first collection
-- with the profile's role in the identity, or of the first in the fallback where the identity has
-- none and the fallback is allowed; there is no entry just where there is no such collection.
pub descriptor-from_identity :
    (identity : IdentityPayload) (allow : Bool) (p : VirtualHidProfile)
    → ((c : CollectionDescriptor) × (d : VirtualHidProfileDescriptor) × Offered identity allow p c
        × Describes p c d
        × (entries_for p (from_identity identity allow).descriptors ≡ d ∷ [])
        × (descriptor (from_identity identity allow) p ≡ some d))
      ⊎ (Unoffered identity allow p
          × (entries_for p (from_identity identity allow).descriptors ≡ [])
          × (descriptor (from_identity identity allow) p ≡ none))
unfolding from_identity
descriptor-from_identity identity allow p =
    let entries : entries_for p (descriptors_for identity allow all_profiles)
        ≡ entry (collection_for identity allow p) =
      entries_for-descriptors identity allow p all_profiles
      ∙ once_each p (collection_for identity allow p) in
    let found = descriptor-described identity allow p in
    elim (collection_for-cases identity allow p) [
      | inl (c, at, offered) ↦ inl (
        c,
        from_collection c,
        offered,
        from_collection-Describes p c (collection_for-profile identity allow p c at),
        entries ∙ ap entry at,
        found ∙ ap described at,
      )
      | inr (at, unoffered) ↦ inr (unoffered, entries ∙ ap entry at, found ∙ ap described at)
    ]
