-- ===== src/Protocol/Payload/Overrides/Flags.antt =====
-- crates/crosspuck-core/src/protocol/payload.rs: what the flags of the overrides say.
use crosspuck.Base.{ℕ, ◌≡◌, refl, Bool, true, false, not, ◌&&◌, ltb, ltb→lt, arith, IsU32}
use crosspuck.Protocol.Payload.Overrides.{
  GuestRuntimeOverrides, is_some, flag_bits, flags, has_flag, unknown_flags,
}

abbrev agree : Bool → Bool → Bool
agree true b = b
agree false b = not b

agree→eq : (a b : Bool) → agree a b ≡ true → a ≡ b
agree→eq true true h = refl
agree→eq true false h = cc
agree→eq false true h = cc
agree→eq false false h = refl

all_bools : (Bool → Bool) → Bool
all_bools p = p true && p false

all_bools_at : (p : Bool → Bool) → all_bools p ≡ true → (b : Bool) → p b ≡ true
unfolding all_bools
all_bools_at p h true = ground arith
all_bools_at p h false = ground arith

-- Each flag is set exactly if its field is there, and no other bit is set.
abbrev right : Bool → Bool → Bool → Bool → Bool → Bool → Bool → Bool → Bool
right b0 b1 b2 b3 b4 b5 b6 b7 =
    let f : ℕ = flag_bits b0 b1 b2 b3 b4 b5 b6 b7 in
    agree (has_flag f 1) b0
    && (agree (has_flag f 2) b1
        && (agree (has_flag f 4) b2
            && (agree (has_flag f 8) b3
                && (agree (has_flag f 16) b4
                    && (agree (has_flag f 32) b5
                        && (agree (has_flag f 64) b6
                            && (agree (has_flag f 128) b7
                                && (agree (has_flag f unknown_flags) false && ltb f 256))))))))

table :
    all_bools (λ b0. all_bools (λ b1. all_bools (λ b2. all_bools (λ b3. all_bools (λ b4.
      all_bools (λ b5. all_bools (λ b6. all_bools (λ b7. right b0 b1 b2 b3 b4 b5 b6 b7))))))))
    ≡ true
unfolding all_bools
table = refl

right_at : (b0 b1 b2 b3 b4 b5 b6 b7 : Bool) → right b0 b1 b2 b3 b4 b5 b6 b7 ≡ true
right_at b0 b1 b2 b3 b4 b5 b6 b7 =
    all_bools_at _
      (all_bools_at _
        (all_bools_at _
          (all_bools_at _
            (all_bools_at _ (all_bools_at _ (all_bools_at _ (all_bools_at _ table b0) b1) b2) b3)
            b4)
          b5)
        b6)
      b7

both : (a b : Bool) → (a && b) ≡ true → (a ≡ true) × (b ≡ true)
both true b h = (refl, h)
both false b h = absurd (cc h)

pub record FlagsSay (o : GuestRuntimeOverrides) : Type 0 where
  pub reports : has_flag (flags o) 1 ≡ is_some o.trace_reports
  pub limit : has_flag (flags o) 2 ≡ is_some o.trace_report_limit
  pub max_bytes : has_flag (flags o) 4 ≡ is_some o.trace_report_max_bytes
  pub timeout : has_flag (flags o) 8 ≡ is_some o.io_timeout_ms
  pub interval : has_flag (flags o) 16 ≡ is_some o.reconnect_interval_ms
  pub capacity : has_flag (flags o) 32 ≡ is_some o.input_queue_capacity
  pub replay : has_flag (flags o) 64 ≡ is_some o.replay_enabled
  pub hooks : has_flag (flags o) 128 ≡ is_some o.diagnostic_hook_groups
  pub no_other : has_flag (flags o) unknown_flags ≡ false
  pub fits : IsU32 (flags o)

pub flags-FlagsSay : (o : GuestRuntimeOverrides) → FlagsSay o
unfolding flags
flags-FlagsSay o =
    let (r0, s0) = both _ _ (
      right_at (is_some o.trace_reports) (is_some o.trace_report_limit)
        (is_some o.trace_report_max_bytes) (is_some o.io_timeout_ms)
        (is_some o.reconnect_interval_ms) (is_some o.input_queue_capacity)
        (is_some o.replay_enabled) (is_some o.diagnostic_hook_groups)) in
    let (r1, s1) = both _ _ s0 in
    let (r2, s2) = both _ _ s1 in
    let (r3, s3) = both _ _ s2 in
    let (r4, s4) = both _ _ s3 in
    let (r5, s5) = both _ _ s4 in
    let (r6, s6) = both _ _ s5 in
    let (r7, s7) = both _ _ s6 in
    let (r8, s8) = both _ _ s7 in
    record {
      reports = agree→eq _ _ r0;
      limit = agree→eq _ _ r1;
      max_bytes = agree→eq _ _ r2;
      timeout = agree→eq _ _ r3;
      interval = agree→eq _ _ r4;
      capacity = agree→eq _ _ r5;
      replay = agree→eq _ _ r6;
      hooks = agree→eq _ _ r7;
      no_other = agree→eq _ false r8;
      fits = omega (arith, ltb→lt _ 256 s8);
    }
