-- ===== src/Guest/Bridge/Commands/Channels.antt =====
-- crates/crosspuck-core/src/guest_driver/bridge.rs: the channels of the callers that wait for an answer
-- to their commands.
use crosspuck.Base.{
  ℕ, ◌≡◌, refl, sym, ap, ◌∙◌, true, List, [], ◌∷◌, ◌++◌, append_assoc, Bool-cases, Option-cases,
  inl, inr, leb, length,
}
use crosspuck.Base.Selection.{retain, position, position-some}
use crosspuck.Guest.Bridge.Commands.{
  CommandRequest, get_feature, set_feature, set_output, write, is_feedback, respond_stopped,
  respond_all, feedback_room,
}
use crosspuck.Guest.Bridge.Commands.Feedback.{is_request}

-- The channel on which somebody waits for the answer to a command.
abbrev pub channel_of : CommandRequest → List ℕ
channel_of (get_feature i r n t u response) = response ∷ []
channel_of (set_feature i payload t u response) = response ∷ []
channel_of (set_output i payload t u) = []
channel_of (write i payload t u) = []

abbrev pub channels_of : List CommandRequest → List ℕ
channels_of [] = []
channels_of (c ∷ cs) = channel_of c ++ channels_of cs

pub channels_of-append :
    (xs ys : List CommandRequest) → channels_of (xs ++ ys) ≡ channels_of xs ++ channels_of ys
channels_of-append [] ys = refl
channels_of-append (x ∷ xs) ys =
    rw (channels_of-append xs ys)
      (sym (append_assoc (channel_of x) (channels_of xs) (channels_of ys)))

silent : (c : CommandRequest) → is_feedback c ≡ true → channel_of c ≡ []
unfolding is_feedback
silent (get_feature i r n t u response) e = absurd (cc e)
silent (set_feature i payload t u response) e = absurd (cc e)
silent (set_output i payload t u) e = refl
silent (write i payload t u) e = refl

-- Only the requests have channels.
channels_of-retain :
    (cs : List CommandRequest) → channels_of (retain is_request cs) ≡ channels_of cs
channels_of-retain [] = refl
channels_of-retain (c ∷ cs) = elim (Bool-cases (is_feedback c)) [
  | inl is_one ↦ rw (is_one, silent c is_one) (channels_of-retain cs)
  | inr other ↦ rw other (ap (λ l. channel_of c ++ l) (channels_of-retain cs))
]

room_requests :
    (queue : List CommandRequest)
    → retain is_request (feedback_room queue).0 ≡ retain is_request queue
unfolding feedback_room
room_requests queue = elim (Bool-cases (leb 64 (length (retain is_feedback queue)))) [
  | inr room ↦ rw room refl
  | inl full ↦ elim (Option-cases (position is_feedback queue)) [
    | inl lacking ↦ rw (full, lacking) refl
    | inr (index, found) ↦ rw (full, found) (position-some is_feedback queue index found).1
  ]
]

pub room_channels :
    (queue : List CommandRequest) → channels_of (feedback_room queue).0 ≡ channels_of queue
room_channels queue =
    sym (channels_of-retain (feedback_room queue).0)
    ∙ ap channels_of (room_requests queue)
    ∙ channels_of-retain queue

pub respond_all-channels_of : (cs : List CommandRequest) → respond_all cs ≡ channels_of cs
unfolding respond_stopped
respond_all-channels_of [] = refl
respond_all-channels_of (get_feature i r n t u response ∷ cs) =
    ap (◌∷◌ response) (respond_all-channels_of cs)
respond_all-channels_of (set_feature i payload t u response ∷ cs) =
    ap (◌∷◌ response) (respond_all-channels_of cs)
respond_all-channels_of (set_output i payload t u ∷ cs) = respond_all-channels_of cs
respond_all-channels_of (write i payload t u ∷ cs) = respond_all-channels_of cs
