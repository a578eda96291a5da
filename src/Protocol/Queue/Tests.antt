-- ===== src/Protocol/Queue/Tests.antt =====
-- crates/crosspuck-core/src/protocol/queue.rs: a queue of two reports.
use crosspuck.Base.{◌≡◌, refl, [], ◌∷◌, ◌++◌, arith, ℕ}
use crosspuck.Protocol.Payload.Role.{puck_main}
use crosspuck.Protocol.Queue.{QueuedInputReport, InputReportQueue, push, pop, push_all}
use crosspuck.Protocol.Queue.Newest.{IsValid, newest, push_all-newest}
use crosspuck.Protocol.Queue.Counts.{Accounts, push-Accounts, pop-Accounts}

abbrev report_of : ℕ → QueuedInputReport
report_of sequence = record {
  sequence = sequence;
  interface_number = 2;
  role = puck_main;
  host_monotonic_us = 10;
  payload = 0x79 ∷ [];
}

abbrev full_queue : InputReportQueue
full_queue = record {
  capacity = 2;
  reports = report_of 1 ∷ report_of 2 ∷ [];
  stats = record { pushed = 5; popped = 2; dropped_oldest = 1 };
}

full_queue-IsValid : IsValid full_queue
full_queue-IsValid = record { has_capacity = omega arith; within = omega arith }

full_queue-Accounts : Accounts full_queue
full_queue-Accounts = record { balance = refl; no_wrap = omega arith }

push_all-newest_example :
    ((push_all (report_of 3 ∷ report_of 4 ∷ report_of 5 ∷ []) full_queue).reports
      ≡ newest full_queue.capacity
          (full_queue.reports ++ (report_of 3 ∷ report_of 4 ∷ report_of 5 ∷ [])))
    × IsValid (push_all (report_of 3 ∷ report_of 4 ∷ report_of 5 ∷ []) full_queue)
push_all-newest_example =
    push_all-newest (report_of 3 ∷ report_of 4 ∷ report_of 5 ∷ []) full_queue full_queue-IsValid

push-Accounts_example : Accounts (push (report_of 3) full_queue)
push-Accounts_example =
    push-Accounts (report_of 3) full_queue full_queue-Accounts (omega arith) (omega arith)

pop-Accounts_example : Accounts (pop full_queue).1
pop-Accounts_example = pop-Accounts full_queue full_queue-Accounts

-- The burst leaves its two newest reports.
burst_kept :
    (push_all (report_of 3 ∷ report_of 4 ∷ report_of 5 ∷ []) full_queue).reports
    ≡ report_of 4 ∷ report_of 5 ∷ []
unfolding push_all push
burst_kept = refl
