-- ===== src/Guest/Bridge/Copies.antt =====
-- crates/crosspuck-core/src/guest_driver/bridge.rs: a report copied into the buffer of a caller.
use crosspuck.Base.{
  ℕ, ◌≡◌, refl, min, Option, none, some, List, [], ◌∷◌, ◌++◌, length, take, drop, arith, Bytes,
  length-append, length-take, length-drop, take-append_self, drop-append_self, All, zero, suc,
  subst, sym,
}
use crosspuck.Base.Result.{Result, ok, err}
use crosspuck.Protocol.Queue.{QueuedInputReport}
use crosspuck.Guest.Bridge.Inputs.{InputError, InputSide, routes_of, pop_input_report}
use crosspuck.Guest.Bridge.Inputs.Delivered.{delivered, pop_input_report-delivered}

-- `output.fill(0)`
abbrev fill : Bytes → Bytes
fill [] = []
fill (b ∷ output) = 0 ∷ fill output

-- How many bytes are copied, and the buffer after that.
unfoldable pub copy_report : Bytes → Bytes → ℕ × Bytes
copy_report output payload =
    let count = min (length output) (length payload) in
    (count, take count payload ++ drop count (fill output))

-- What the caller gets, its buffer and the bridge.
pub record Copied : Type 0 where
  pub result : Result InputError (Option ℕ)
  pub output : Bytes
  pub side : InputSide

abbrev copy_popped : Bytes → Result InputError (Option QueuedInputReport) × InputSide → Copied
copy_popped output (err e, b) = record { result = err e; output = output; side = b }
copy_popped output (ok none, b) = record { result = ok none; output = output; side = b }
copy_popped output (ok (some report), b) =
    let (count, output') = copy_report output report.payload in
    record { result = ok (some count); output = output'; side = b }

unfoldable pub copy_next_input_report : ℕ → Bytes → InputSide → Copied
copy_next_input_report interface_number output b =
    copy_popped output (pop_input_report interface_number b)

abbrev pub AllZero : Bytes → Type 0
AllZero payload = All (λ b. b ≡ 0) payload

length-fill : (output : Bytes) → length (fill output) ≡ length output
length-fill [] = refl
length-fill (b ∷ output) = omega (arith, length-fill output)

drop-fill-AllZero : (n : ℕ) (output : Bytes) → AllZero (drop n (fill output))
drop-fill-AllZero zero [] = tt
drop-fill-AllZero (suc n) [] = tt
drop-fill-AllZero zero (b ∷ output) = (refl, drop-fill-AllZero zero output)
drop-fill-AllZero (suc n) (b ∷ output) = drop-fill-AllZero n output

-- What a buffer is to hold: the front of the report, as much as fits, and then zeros.
abbrev pub Holds : Bytes → Bytes → ℕ × Bytes → Type 0
Holds output payload (count, output') =
    (count ≡ min (length output) (length payload))
    × (length output' ≡ length output)
    × (take count output' ≡ take count payload)
    × AllZero (drop count output')

copy_report-Holds : (output payload : Bytes) → Holds output payload (copy_report output payload)
unfolding copy_report
copy_report-Holds output payload =
    let count = min (length output) (length payload) in
    let front = take count payload in
    let back = drop count (fill output) in
    let fits : length front ≡ count = omega (arith, length-take count payload) in
    (
      refl,
      omega (
        arith,
        length-append front back,
        fits,
        length-drop count (fill output),
        length-fill output,
      ),
      subst (λ n. take n (front ++ back) ≡ front) fits (take-append_self front back),
      subst (λ n. AllZero (drop n (front ++ back))) fits
          (subst AllZero (sym (drop-append_self front back)) (drop-fill-AllZero count output)),
    )

-- What the caller is to get, from the report that is to be delivered.
abbrev pub Copies : Bytes → Option QueuedInputReport → Copied → Type 0
Copies output none c = (c.result ≡ ok none) × (c.output ≡ output)
Copies output (some report) c =
    (count : ℕ) × (c.result ≡ ok (some count)) × Holds output report.payload (count, c.output)

copy_popped-Copies :
    (output : Bytes) (want : Option QueuedInputReport)
    (got : Result InputError (Option QueuedInputReport) × InputSide)
    → got.0 ≡ ok want
    → Copies output want (copy_popped output got)
copy_popped-Copies output none (got, b) e = rw e (refl, refl)
copy_popped-Copies output (some report) (got, b) e =
    rw e ((copy_report output report.payload).0, refl, copy_report-Holds output report.payload)

-- While the queue is not poisoned, a copy into a buffer of a caller gives the report that a pop is to
-- deliver: as much of it as fits stands at the front, the rest of the buffer is zero, the buffer is as
-- long as it was and the number that is returned is that of the bytes copied; with no report to
-- deliver it returns none, and the buffer is as it was.
pub copy_next_input_report-Copies :
    (i : ℕ) (output : Bytes) (queue : List QueuedInputReport) (b : InputSide)
    → b.input_queue ≡ some queue
    → Copies output (delivered i (routes_of b) queue).0 (copy_next_input_report i output b)
unfolding copy_next_input_report
copy_next_input_report-Copies i output queue b held =
    copy_popped-Copies output (delivered i (routes_of b) queue).0 (pop_input_report i b)
      (pop_input_report-delivered i b queue held).0
