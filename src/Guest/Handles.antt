-- ===== src/Guest/Handles.antt =====
-- crates/crosspuck-core/src/guest_driver/handles.rs: the table of open handles. A hash map from
-- handles is a list of its entries; the map of open counts is a function, zero at a missing key.
pub mod Counted
mod Tests
use crosspuck.Base.{
  ℕ, ◌+◌, ◌-◌, ◌%◌, ◌^◌, Bool, Option, none, some, List, [], ◌∷◌, ◌==◌, if◌then◌else◌, length, max,
}
use crosspuck.Guest.Profile.{VirtualHidProfile, same_profile}

pub record VirtualHandleTable : Type 0 where
  pub next_id : ℕ
  pub handles : List (ℕ × VirtualHidProfile)
  pub open_counts : VirtualHidProfile → ℕ

-- `HashMap::get`
abbrev pub profile_at : ℕ → List (ℕ × VirtualHidProfile) → Option VirtualHidProfile
profile_at id [] = none
profile_at id (e ∷ entries) = if e.0 == id then some e.1 else profile_at id entries

-- `HashMap::remove`
abbrev pub without : ℕ → List (ℕ × VirtualHidProfile) → List (ℕ × VirtualHidProfile)
without id [] = []
without id (e ∷ entries) = if e.0 == id then entries else e ∷ without id entries

abbrev pub set_count : VirtualHidProfile → ℕ → (VirtualHidProfile → ℕ) → VirtualHidProfile → ℕ
set_count profile n counts p = if same_profile profile p then n else counts p

-- `VirtualHandleTable::default`
abbrev pub no_handles : VirtualHandleTable
no_handles = record { next_id = 0; handles = []; open_counts = λ p. 0 }

-- `wrapping_add(1).max(1)` of a `u64`
abbrev pub id_after : ℕ → ℕ
id_after n = max ((n + 1) % 2 ^ 64) 1

unfoldable pub open_handle : VirtualHidProfile → VirtualHandleTable → ℕ × VirtualHandleTable
open_handle profile t =
    let id = id_after t.next_id in
    (
      id,
      record {
        next_id = id;
        handles = (id, profile) ∷ without id t.handles;
        open_counts = set_count profile ((t.open_counts profile + 1) % 2 ^ 64) t.open_counts;
      },
    )

abbrev pub close_found :
    ℕ → Option VirtualHidProfile → VirtualHandleTable → Option ℕ × VirtualHandleTable
close_found id none t = (none, t)
close_found id (some profile) t =
    let n = t.open_counts profile - 1 in
    (
      some n,
      record t { handles = without id t.handles; open_counts = set_count profile n t.open_counts },
    )

unfoldable pub close_handle : ℕ → VirtualHandleTable → Option ℕ × VirtualHandleTable
close_handle id t = close_found id (profile_at id t.handles) t

unfoldable pub open_count : VirtualHidProfile → VirtualHandleTable → ℕ
open_count profile t = t.open_counts profile

unfoldable pub total_open_count : VirtualHandleTable → ℕ
total_open_count t = length t.handles

-- `VirtualHandleTable::clear`
unfoldable pub clear_handles : VirtualHandleTable → VirtualHandleTable
clear_handles t = record t { handles = []; open_counts = λ p. 0 }
