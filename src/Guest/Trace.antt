-- ===== src/Guest/Trace.antt =====
-- crates/crosspuck-core/src/guest_driver/trace.rs: how many reports are traced. The text of a
-- traced report is not here.
pub mod Limit
use crosspuck.Base.{ℕ, zero, suc, ◌+◌, Bool, true, false, not, ◌||◌, leb, if◌then◌else◌}

pub record TraceLimiter : Type 0 where
  pub enabled : Bool
  pub limit : ℕ
  pub max_bytes : ℕ
  pub count : ℕ

-- `TraceLimiter::new`
unfoldable pub new_limiter : Bool → ℕ → ℕ → TraceLimiter
new_limiter enabled limit max_bytes = record {
  enabled = enabled;
  limit = limit;
  max_bytes = max_bytes;
  count = 0;
}

unfoldable pub should_trace : TraceLimiter → Bool × TraceLimiter
should_trace t =
    if not t.enabled || leb t.limit t.count
    then (false, t)
    else (true, record t { count = t.count + 1 })
