-- ===== src/Guest/Handles/Counted.antt =====
-- crates/crosspuck-core/src/guest_driver/handles.rs: the open counts are the numbers of handles.
use crosspuck.Base.{
  ℕ, suc, ◌+◌, ◌-◌, ◌%◌, ◌^◌, ◌≤◌, ◌<◌, ◌≡◌, refl, ap, ◌∙◌, true, none, some, List, [], ◌∷◌, ◌==◌,
  if◌then◌else◌, length, All, arith, Bool-cases, Option-cases, inl, inr,
}
use crosspuck.Base.Selection.{retain}
use crosspuck.Guest.Profile.{VirtualHidProfile, same_profile, same_profile→≡}
use crosspuck.Guest.Handles.{
  VirtualHandleTable, profile_at, without, set_count, id_after, open_handle, close_handle,
  close_found,
}

-- How many entries have the profile.
abbrev pub held : VirtualHidProfile → List (ℕ × VirtualHidProfile) → ℕ
held p entries = length (retain (λ e. same_profile e.1 p) entries)

abbrev UpTo : ℕ → List (ℕ × VirtualHidProfile) → Type 0
UpTo n = All (λ e. e.0 ≤ n)

pub record IsCounted (t : VirtualHandleTable) : Type 0 where
  pub counts : (p : VirtualHidProfile) → t.open_counts p ≡ held p t.handles
  pub older : UpTo t.next_id t.handles
  pub few : length t.handles ≤ t.next_id

UpTo-absent :
    (n id : ℕ) (entries : List (ℕ × VirtualHidProfile))
    → UpTo n entries
    → n < id
    → (profile_at id entries ≡ none) × (without id entries ≡ entries)
UpTo-absent n id [] old later = (refl, refl)
UpTo-absent n id (e ∷ entries) old later =
    let (absent, same) = UpTo-absent n id entries old.1 later in ground (arith, absent, same, old.0)

UpTo-le :
    (m n : ℕ) (entries : List (ℕ × VirtualHidProfile)) → m ≤ n → UpTo m entries → UpTo n entries
UpTo-le m n [] h old = tt
UpTo-le m n (e ∷ entries) h old = (omega (arith, old.0), UpTo-le m n entries h old.1)

held-le :
    (p : VirtualHidProfile) (entries : List (ℕ × VirtualHidProfile))
    → held p entries ≤ length entries
held-le p [] = omega arith
held-le p (e ∷ entries) = ground (arith, held-le p entries)

-- Taking out the entry of a handle.
without-entry :
    (n id : ℕ) (p : VirtualHidProfile) (entries : List (ℕ × VirtualHidProfile))
    → UpTo n entries
    → profile_at id entries ≡ some p
    → UpTo n (without id entries)
      × (length entries ≡ suc (length (without id entries)))
      × ((q : VirtualHidProfile)
          → held q entries ≡ held q (without id entries) + (if same_profile p q then 1 else 0))
without-entry n id p [] old at = absurd (ground arith)
without-entry n id p (e ∷ entries) old at = elim (Bool-cases (e.0 == id)) [
  | inl here ↦
      let same : e.1 ≡ p = ground (arith, here) in
      rw (here, ← same) (old.1, refl, λ q. ground arith)
  | inr other ↦
      let (kept, one, rest) = without-entry n id p entries old.1 (ground (arith, other)) in
      rw other ((old.0, kept), omega (arith, one), λ q. ground (arith, rest q))
]

opened_count :
    (profile p : VirtualHidProfile) (id : ℕ) (t : VirtualHandleTable)
    → IsCounted t
    → t.next_id + 1 < 2 ^ 64
    → set_count profile ((t.open_counts profile + 1) % 2 ^ 64) t.open_counts p
      ≡ held p ((id, profile) ∷ t.handles)
opened_count profile p id t c few = elim (Bool-cases (same_profile profile p)) [
  | inl same ↦
      let here : held profile t.handles ≡ held p t.handles =
        ap (λ q. held q t.handles) (same_profile→≡ profile p same) in
      let little : held p t.handles ≤ length t.handles = held-le p t.handles in
      rw same (omega (arith, c.counts profile, here, little, c.few))
  | inr other ↦ rw other (c.counts p)
]

closed_count :
    (profile p : VirtualHidProfile) (id : ℕ) (t : VirtualHandleTable)
    → IsCounted t
    → profile_at id t.handles ≡ some profile
    → set_count profile (t.open_counts profile - 1) t.open_counts p ≡ held p (without id t.handles)
closed_count profile p id t c at =
    let (kept, one, rest) = without-entry t.next_id id profile t.handles c.older at in
    elim (Bool-cases (same_profile profile p)) [
      | inl same ↦
          let here : held profile t.handles ≡ held p t.handles =
            ap (λ q. held q t.handles) (same_profile→≡ profile p same) in
          let gone : held p t.handles ≡ held p (without id t.handles) + 1 = rest p ∙ rw same refl in
          rw same (omega (arith, c.counts profile, here, gone))
      | inr other ↦
          let gone : held p t.handles ≡ held p (without id t.handles) + 0 =
            rest p ∙ rw other refl in
          rw other (omega (arith, c.counts p, gone))
    ]

-- Opening gives a handle that was not open, under the profile asked for, and the open counts stay
-- the numbers of handles, while fewer than 2^64 - 1 handles were opened.
pub open-IsCounted :
    (profile : VirtualHidProfile) (t : VirtualHandleTable)
    → IsCounted t
    → t.next_id + 1 < 2 ^ 64
    → (profile_at (open_handle profile t).0 t.handles ≡ none)
      × (profile_at (open_handle profile t).0 (open_handle profile t).1.handles ≡ some profile)
      × IsCounted (open_handle profile t).1
unfolding open_handle
open-IsCounted profile t c few =
    let next : id_after t.next_id ≡ t.next_id + 1 = omega arith in
    let (absent, same) =
      UpTo-absent t.next_id (id_after t.next_id) t.handles c.older (omega (arith, next)) in
    (
      absent,
      ground arith,
      record {
        counts = λ p. rw same (opened_count profile p (id_after t.next_id) t c few);
        older = (omega arith, rw same (UpTo-le _ _ _ (omega (arith, next)) c.older));
        few = rw (same, next) (omega (arith, c.few));
      },
    )

-- Closing an open handle returns how many of its profile stay open, and closing any handle leaves
-- the open counts the numbers of handles.
pub close-IsCounted :
    (id : ℕ) (t : VirtualHandleTable)
    → IsCounted t
    → ((p : VirtualHidProfile)
        → profile_at id t.handles ≡ some p
        → (close_handle id t).0 ≡ some (held p (close_handle id t).1.handles))
      × IsCounted (close_handle id t).1
unfolding close_handle
close-IsCounted id t c = elim (Option-cases (profile_at id t.handles)) [
  | inl closed ↦
      let start : close_handle id t ≡ (none, t) = ap (λ o. close_found id o t) closed in
      rw start (λ p at. absurd (ground (arith, closed, at)), c)
  | inr (profile, at) ↦
      let start : close_handle id t ≡ close_found id (some profile) t =
        ap (λ o. close_found id o t) at in
      let (kept, one, rest) = without-entry t.next_id id profile t.handles c.older at in
      let self : same_profile profile profile ≡ true = ground arith in
      let gone : held profile t.handles ≡ held profile (without id t.handles) + 1 =
        rest profile ∙ rw self refl in
      let left : t.open_counts profile - 1 ≡ held profile (without id t.handles) =
        omega (arith, c.counts profile, gone) in
      rw start (
        λ p at'. let same : p ≡ profile = ground (arith, at, at') in rw same (ap some left),
        record {
          counts = λ p. closed_count profile p id t c at;
          older = kept;
          few = omega (arith, one, c.few);
        },
      )
]
