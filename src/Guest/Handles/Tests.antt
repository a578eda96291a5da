-- ===== src/Guest/Handles/Tests.antt =====
-- crates/crosspuck-core/src/guest_driver/handles.rs: a table with two handles.
use crosspuck.Base.{◌≡◌, refl, [], ◌∷◌, none, some, arith}
use crosspuck.Guest.Profile.{VirtualHidProfile, main, vendor_dongle}
use crosspuck.Guest.Handles.{VirtualHandleTable, profile_at, open_handle, close_handle}
use crosspuck.Guest.Handles.Counted.{IsCounted, held, open-IsCounted, close-IsCounted}

abbrev two_open : VirtualHandleTable
two_open = record {
  next_id = 2;
  handles = (2, vendor_dongle) ∷ (1, main) ∷ [];
  open_counts = λ p. held p ((2, vendor_dongle) ∷ (1, main) ∷ []);
}

two_open-IsCounted : IsCounted two_open
two_open-IsCounted = record {
  counts = λ p. refl;
  older = (omega arith, (omega arith, tt));
  few = omega arith;
}

open-IsCounted_example :
    (profile_at (open_handle main two_open).0 two_open.handles ≡ none)
    × (profile_at (open_handle main two_open).0 (open_handle main two_open).1.handles ≡ some main)
    × IsCounted (open_handle main two_open).1
open-IsCounted_example = open-IsCounted main two_open two_open-IsCounted (omega arith)

close-IsCounted_example :
    ((p : VirtualHidProfile)
      → profile_at 1 two_open.handles ≡ some p
      → (close_handle 1 two_open).0 ≡ some (held p (close_handle 1 two_open).1.handles))
    × IsCounted (close_handle 1 two_open).1
close-IsCounted_example = close-IsCounted 1 two_open two_open-IsCounted
