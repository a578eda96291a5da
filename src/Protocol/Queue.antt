-- ===== src/Protocol/Queue.antt =====
-- crates/crosspuck-core/src/protocol/queue.rs: the queue of input reports, which drops its oldest
-- report when it is full. The counters have 64 bits and wrap.
pub mod Newest
pub mod Counts
mod Tests
use crosspuck.Base.{
  ℕ, ◌+◌, ◌%◌, ◌^◌, Bool, true, false, Option, none, some, List, [], ◌∷◌, ◌++◌, ◌==◌, if◌then◌else◌,
  length, Bytes,
}
use crosspuck.Protocol.Payload.Role.{CollectionRole}
use crosspuck.Protocol.Payload.Report.{InputReport}

pub record QueuedInputReport : Type 0 where
  pub sequence : ℕ
  pub interface_number : ℕ
  pub role : CollectionRole
  pub host_monotonic_us : ℕ
  pub payload : Bytes

unfoldable pub from_wire : ℕ → InputReport → QueuedInputReport
from_wire sequence report = record {
  sequence = sequence;
  interface_number = report.interface_number;
  role = report.role;
  host_monotonic_us = report.host_monotonic_us;
  payload = report.payload;
}

pub record InputQueueStats : Type 0 where
  pub pushed : ℕ
  pub popped : ℕ
  pub dropped_oldest : ℕ

pub record InputReportQueue : Type 0 where
  pub capacity : ℕ
  pub reports : List QueuedInputReport
  pub stats : InputQueueStats

abbrev pub zero_stats : InputQueueStats
zero_stats = record { pushed = 0; popped = 0; dropped_oldest = 0 }

-- `none` is the failed assertion.
unfoldable pub with_capacity : ℕ → Option InputReportQueue
with_capacity capacity =
    if capacity == 0
    then none
    else some (record { capacity = capacity; reports = []; stats = zero_stats })

-- `counter += 1` of a `u64`
abbrev pub count_one : ℕ → ℕ
count_one n = (n + 1) % 2 ^ 64

-- `VecDeque::pop_front`, without its result.
abbrev pub without_front {ℓ} : {A : Type ℓ} → List A → List A
without_front [] = []
without_front (x ∷ xs) = xs

unfoldable pub make_room : InputReportQueue → InputReportQueue
make_room q =
    if length q.reports == q.capacity
    then record q {
      reports = without_front q.reports;
      stats = record q.stats { dropped_oldest = count_one q.stats.dropped_oldest };
    }
    else q

unfoldable pub push : QueuedInputReport → InputReportQueue → InputReportQueue
unfolding make_room
push report q =
    let q' = make_room q in
    record q' {
      reports = q'.reports ++ (report ∷ []);
      stats = record q'.stats { pushed = count_one q'.stats.pushed };
    }

abbrev pub pop_from :
    List QueuedInputReport → InputReportQueue → Option QueuedInputReport × InputReportQueue
pop_from [] q = (none, q)
pop_from (report ∷ rest) q = (
  some report,
  record q { reports = rest; stats = record q.stats { popped = count_one q.stats.popped } },
)

unfoldable pub pop : InputReportQueue → Option QueuedInputReport × InputReportQueue
pop q = pop_from q.reports q

unfoldable pub clear : InputReportQueue → InputReportQueue
clear q = record q { reports = [] }

-- The reports of a burst, pushed one after the other.
unfoldable pub push_all : List QueuedInputReport → InputReportQueue → InputReportQueue
push_all [] q = q
push_all (r ∷ rs) q = push_all rs (push r q)
