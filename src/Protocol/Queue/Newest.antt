-- ===== src/Protocol/Queue/Newest.antt =====
-- crates/crosspuck-core/src/protocol/queue.rs: which reports a full queue keeps.
use crosspuck.Base.{
  ℕ, ◌-◌, ◌≤◌, ◌<◌, ◌≡◌, refl, sym, ap, ◌∙◌, List, [], ◌∷◌, ◌++◌, append_assoc, append-nil, arith,
  length, length-append, drop, length-drop, drop-append_le, drop-drop, Bool-cases, inl, inr, ◌==◌,
}
use crosspuck.Protocol.Queue.{
  QueuedInputReport, InputReportQueue, without_front, make_room, push, push_all,
}

-- The last `n` of a list.
unfoldable pub newest {ℓ} : {A : Type ℓ} → ℕ → List A → List A
newest n xs = drop (length xs - n) xs

-- A queue in use: it has room for a report, and holds no more than it may.
pub record IsValid (q : InputReportQueue) : Type 0 where
  pub has_capacity : 0 < q.capacity
  pub within : length q.reports ≤ q.capacity

pub without_front-drop {ℓ} : {A : Type ℓ} (xs : List A) → without_front xs ≡ drop 1 xs
without_front-drop [] = refl
without_front-drop (x ∷ xs) = refl

pub newest_all {ℓ} : {A : Type ℓ} (n : ℕ) (xs : List A) → length xs ≤ n → newest n xs ≡ xs
unfolding newest
newest_all n xs h = let none_dropped : length xs - n ≡ 0 = omega arith in rw none_dropped

pub newest-newest {ℓ} :
    {A : Type ℓ} (n : ℕ) (xs ys : List A) → newest n (newest n xs ++ ys) ≡ newest n (xs ++ ys)
unfolding newest
newest-newest n xs ys =
    let k : ℕ = length xs - n in
    ap (λ zs. drop (length zs - n) zs) (sym (drop-append_le k xs ys (omega arith)))
    ∙ drop-drop k (length (drop k (xs ++ ys)) - n) (xs ++ ys)
    ∙ ap (λ m. drop m (xs ++ ys)) (omega (arith, length-drop k (xs ++ ys), length-append xs ys))

room_reports :
    (r : QueuedInputReport) (q : InputReportQueue)
    → IsValid q
    → (make_room q).reports ++ (r ∷ []) ≡ newest q.capacity (q.reports ++ (r ∷ []))
unfolding make_room newest
room_reports r q v = elim (Bool-cases (length q.reports == q.capacity)) [
  | inl full ↦
      let one : length (q.reports ++ (r ∷ [])) - q.capacity ≡ 1 =
        ground (arith, length-append q.reports (r ∷ [])) in
      rw (full, one)
        (rw (without_front-drop q.reports)
          (sym (drop-append_le 1 q.reports (r ∷ []) (ground arith))))
  | inr room ↦
      let zero_over : length (q.reports ++ (r ∷ [])) - q.capacity ≡ 0 =
        ground (arith, length-append q.reports (r ∷ [])) in
      rw (room, zero_over)
]

pub length-newest {ℓ} : {A : Type ℓ} (n : ℕ) (xs : List A) → length (newest n xs) ≤ n
unfolding newest
length-newest n xs = omega (arith, length-drop (length xs - n) xs)

make_room-capacity : (q : InputReportQueue) → (make_room q).capacity ≡ q.capacity
unfolding make_room
make_room-capacity q = ground arith

-- Pushing a report keeps the newest `capacity` of the old reports and the new one, in order, and
-- the queue valid.
push-newest :
    (r : QueuedInputReport) (q : InputReportQueue)
    → IsValid q
    → ((push r q).reports ≡ newest q.capacity (q.reports ++ (r ∷ [])))
      × ((push r q).capacity ≡ q.capacity)
      × IsValid (push r q)
unfolding push
push-newest r q v =
    let kept = room_reports r q v in
    let cap = make_room-capacity q in
    (
      kept,
      cap,
      record {
        has_capacity = rw cap v.has_capacity;
        within = rw (cap, kept) (length-newest q.capacity (q.reports ++ (r ∷ [])));
      },
    )

-- After a burst the queue holds the newest `capacity` of what it held and of the burst, in order.
pub push_all-newest :
    (rs : List QueuedInputReport) (q : InputReportQueue)
    → IsValid q
    → ((push_all rs q).reports ≡ newest q.capacity (q.reports ++ rs)) × IsValid (push_all rs q)
unfolding push_all
push_all-newest [] q v = (rw append-nil (sym (newest_all q.capacity q.reports v.within)), v)
push_all-newest (r ∷ rs) q v =
    let (kept, cap, v') = push-newest r q v in
    let (rest, v'') = push_all-newest rs (push r q) v' in
    (
      rest
          ∙ rw (cap, kept)
              (newest-newest q.capacity (q.reports ++ (r ∷ [])) rs
                ∙ ap (newest q.capacity) (append_assoc q.reports (r ∷ []) rs)),
      v'',
    )
