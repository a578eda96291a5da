-- ===== src/Guest/Bridge/Sends.antt =====
-- crates/crosspuck-core/src/guest_driver/bridge.rs: the reports that a caller hands to the command
-- worker without waiting for the host's answer.
use crosspuck.Base.{ℕ, ◌≤◌, ◌≡◌, min, length, arith, Bytes, true, List, ap, ◌∙◌, refl, some}
use crosspuck.Base.Result.{Result, ok, map_ok}
use crosspuck.Guest.Bridge.Commands
use crosspuck.Guest.Bridge.Commands.{
  CommandRequest, CommandSide, CommandError, enqueue_feedback, is_feedback,
}
use crosspuck.Guest.Bridge.Commands.Feedback.{Bounded, enqueue_feedback-Added}

unfoldable saturating_u16 : ℕ → ℕ
saturating_u16 value = min value 0xffff

-- A caller is told the length of what it handed over.
abbrev send : CommandRequest → Bytes → CommandSide → Result CommandError ℕ × CommandSide
send command payload c =
    let (result, c') = enqueue_feedback command c in
    (map_ok (λ _. saturating_u16 (length payload)) result, c')

-- `transport_timeout_ms` is the bridge's `control_transport_timeout_ms`.
unfoldable set_output : ℕ → ℕ → Bytes → ℕ → CommandSide → Result CommandError ℕ × CommandSide
set_output transport_timeout_ms interface_number payload timeout_ms c =
    send (Commands.set_output interface_number payload timeout_ms transport_timeout_ms) payload c

unfoldable write_report : ℕ → ℕ → Bytes → ℕ → CommandSide → Result CommandError ℕ × CommandSide
write_report transport_timeout_ms interface_number payload timeout_ms c =
    send (Commands.write interface_number payload timeout_ms transport_timeout_ms) payload c

saturating_le : (value : ℕ) → value ≤ 0xffff → saturating_u16 value ≡ value
unfolding saturating_u16
saturating_le value fits = omega arith

-- While the worker runs and the queue is not poisoned, a caller of either is told the whole length of
-- a report of 16 bits' length, before the host has seen it.
write_report-length :
    (transport_timeout_ms i : ℕ) (payload : Bytes) (timeout_ms : ℕ) (c : CommandSide)
    (queue : List CommandRequest)
    → c.running ≡ true
    → c.command_queue ≡ some queue
    → Bounded queue
    → length payload ≤ 0xffff
    → ((write_report transport_timeout_ms i payload timeout_ms c).0 ≡ ok (length payload))
      × ((set_output transport_timeout_ms i payload timeout_ms c).0 ≡ ok (length payload))
unfolding write_report set_output is_feedback
write_report-length transport_timeout_ms i payload timeout_ms c queue runs held bounded fits =
    let told : (command : CommandRequest)
        → is_feedback command ≡ true
        → (send command payload c).0 ≡ ok (length payload) =
      λ command is_one.
        let accepted = (enqueue_feedback-Added command c queue is_one runs held bounded).0 in
        ap (map_ok (λ _. saturating_u16 (length payload))) accepted
        ∙ ap ok (saturating_le (length payload) fits) in
    (told _ refl, told _ refl)
