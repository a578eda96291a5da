-- ===== src/Guest/Trace/Limit.antt =====
-- crates/crosspuck-core/src/guest_driver/trace.rs: how often `should_trace` says yes.
use crosspuck.Base.{ℕ, zero, suc, ◌+◌, ◌-◌, ◌≤◌, ◌≡◌, arith, min, if◌then◌else◌}
use crosspuck.Guest.Trace.{TraceLimiter, should_trace}

-- How many of the next `n` calls say yes, and the limiter after them.
abbrev pub traced : ℕ → TraceLimiter → ℕ × TraceLimiter
traced zero t = (0, t)
traced (suc n) t =
    let (said, t') = should_trace t in
    let (rest, t'') = traced n t' in ((if said then suc rest else rest), t'')

-- From a count within the limit, of any number of calls exactly so many say yes as are asked for
-- and left under the limit, none when tracing is off, and the count is never over the limit.
pub traced_lem :
    (n : ℕ) (t : TraceLimiter)
    → t.count ≤ t.limit
    → ((traced n t).0 ≡ (if t.enabled then min n (t.limit - t.count) else 0))
      × ((traced n t).1.count ≡ t.count + (traced n t).0)
      × ((traced n t).1.count ≤ t.limit)
unfolding should_trace
traced_lem zero t h = ground arith
traced_lem (suc n) t h = ground (arith, traced_lem n (should_trace t).1)
