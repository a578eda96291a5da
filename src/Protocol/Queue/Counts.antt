-- ===== src/Protocol/Queue/Counts.antt =====
-- crates/crosspuck-core/src/protocol/queue.rs: the counters account for every report.
use crosspuck.Base.{
  suc, ap, ◌+◌, ◌-◌, true, ◌^◌, ◌<◌, ◌≡◌, refl, List, [], ◌∷◌, arith, length, length-append, IsU64,
  Bool-cases, inl, inr, ◌==◌,
}
use crosspuck.Protocol.Queue.{
  QueuedInputReport, InputReportQueue, without_front, make_room, push, pop, pop_from,
}

-- Every report that was pushed was popped, was dropped, or is still there.
pub record Accounts (q : InputReportQueue) : Type 0 where
  pub balance : q.stats.pushed ≡ q.stats.popped + q.stats.dropped_oldest + length q.reports
  pub no_wrap : IsU64 q.stats.pushed

abbrev pub HasCapacity : InputReportQueue → Type 0
HasCapacity q = 0 < q.capacity

length-without_front {ℓ} : {A : Type ℓ} (xs : List A) → length (without_front xs) ≡ length xs - 1
length-without_front [] = refl
length-without_front (x ∷ xs) = omega arith

full_balance :
    (r : QueuedInputReport) (q : InputReportQueue)
    → (length q.reports == q.capacity) ≡ true
    → Accounts q
    → HasCapacity q
    → q.stats.pushed + 1 < 2 ^ 64
    → (push r q).stats.pushed
      ≡ (push r q).stats.popped + (push r q).stats.dropped_oldest + length (push r q).reports
unfolding push make_room
full_balance r q full a pos h =
    let rest : length (without_front q.reports) ≡ length q.reports - 1 =
      length-without_front q.reports in
    ground (arith, a.balance, rest, length-append (without_front q.reports) (r ∷ []))

-- While the count of pushes does not wrap, a push and a pop keep the accounts.
pub push-Accounts :
    (r : QueuedInputReport) (q : InputReportQueue)
    → Accounts q
    → HasCapacity q
    → q.stats.pushed + 1 < 2 ^ 64
    → Accounts (push r q)
unfolding push make_room
push-Accounts r q a pos h =
    let room = Bool-cases (length q.reports == q.capacity) in
    record {
      balance = elim room [
        | inl full ↦ full_balance r q full a pos h
        | inr open_ ↦ ground (arith, a.balance, length-append q.reports (r ∷ []))
      ];
      no_wrap = ground (arith);
    }

popped_balance :
    (reports : List QueuedInputReport) (q : InputReportQueue)
    → q.reports ≡ reports
    → Accounts q
    → Accounts (pop_from reports q).1
popped_balance [] q at a = a
popped_balance (r ∷ rest) q at a =
    let held : length q.reports ≡ suc (length rest) = ap length at in
    record { balance = ground (arith, a.balance, a.no_wrap, held); no_wrap = a.no_wrap }

pub pop-Accounts : (q : InputReportQueue) → Accounts q → Accounts (pop q).1
unfolding pop
pop-Accounts q a = popped_balance q.reports q refl a
