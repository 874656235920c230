-- ===== src/Coordinator/Relay.antt =====
-- `CoordinatorRelay` of yugo/coordinator.py: `inbox_subject`, `forward` and `run`. The calls of the
-- broker are answered by a `Round` for each delivery; a trace lists what came of them, newest first.
use yugo.Base.{
  Text, codes, text_eq, not, ◌&&◌, Option, none, some, List, [], ◌∷◌, ◌++◌, if◌then◌else◌, split_on,
}
use yugo.Coordinator.Mode.{is_blank}
use yugo.Coordinator.Guard.{
  Raised, value_error, Attempt, Guarded, stepped, propagates, is_closed, is_timeout, no_error,
  guarded_task_step,
}

pub record Message : Type 0 where
  pub subject : Text
  pub payload : Text

pub data Event : Type 0 where
  published : Text → Text → Event  -- PubAck of a publication: subject and payload
  acked : Message → Event
  naked : Message → Event

abbrev pub Trace : Type 0
Trace = List Event

-- How the broker answers the calls about one delivery.
pub record Round : Type 0 where
  pub publish : Attempt (Unit {0})
  pub nak : Attempt (Unit {0})
  pub ack : Attempt (Unit {0})

-- `none` is the ValueError.
unfoldable pub inbox_subject : Text → Option Text
inbox_subject request_subject = elim (split_on b'.' request_subject) [
  | [] ↦ none
  | a ∷ [] ↦ none
  | a ∷ b ∷ [] ↦ none
  | a ∷ b ∷ c ∷ [] ↦
      if text_eq a (codes "fleet") && (text_eq c (codes "request") && not (is_blank b))
      then some (codes "fleet." ++ (b ++ codes ".inbox"))
      else none
  | a ∷ b ∷ c ∷ d ∷ rest ↦ none
]

-- A guarded call whose success is an event: what it leaves, and whether it succeeded.
abbrev pub noting : Guarded (Unit {0}) → Event → Trace → Guarded (Unit {0}) × Trace
noting (stepped none) e tr = (stepped none, tr)
noting (stepped (some u)) e tr = (stepped (some u), e ∷ tr)
noting (propagates x) e tr = (propagates x, tr)

-- A call that follows another: `none` is a return, `some` what is raised.
abbrev pub conclude_call : Guarded (Unit {0}) × Trace → Option Raised × Trace
conclude_call (stepped o, tr) = (none, tr)
conclude_call (propagates x, tr) = (some x, tr)

abbrev pub after_publish : Message → Round → Guarded (Unit {0}) × Trace → Option Raised × Trace
after_publish m r (propagates x, tr) = (some x, tr)
after_publish m r (stepped none, tr) =
    conclude_call (noting (guarded_task_step no_error is_closed r.nak) (naked m) tr)
after_publish m r (stepped (some u), tr) =
    conclude_call (noting (guarded_task_step no_error is_closed r.ack) (acked m) tr)

unfoldable pub forward : Message → Round → Trace → Option Raised × Trace
forward m r tr = elim (inbox_subject m.subject) [
  | none ↦ (some value_error, tr)
  | some destination ↦
      after_publish m r (
        noting (guarded_task_step no_error is_closed r.publish) (published destination m.payload)
          tr)
]

-- What follows, unless an error propagates.
abbrev pub and_then :
    Option Raised × Trace → (Trace → Option Raised × Trace) → Option Raised × Trace
and_then (some x, tr) k = (some x, tr)
and_then (none, tr) k = k tr

-- `for message in messages`
unfoldable pub forward_all : List (Message × Round) → Trace → Option Raised × Trace
forward_all [] tr = (none, tr)
forward_all ((m, r) ∷ ms) tr = and_then (forward m r tr) (λ tr'. forward_all ms tr')

abbrev pub Fetch : Type 0
Fetch = Attempt (List (Message × Round))

-- The rounds of `while True`, one for each answer of `fetch`: it goes on for good unless an error
-- propagates.
unfoldable pub run : List Fetch → Trace → Option Raised × Trace
run [] tr = (none, tr)
run (f ∷ fs) tr = elim (guarded_task_step is_timeout is_closed f) [
  | propagates x ↦ (some x, tr)
  | stepped none ↦ run fs tr
  | stepped (some ms) ↦ and_then (forward_all ms tr) (λ tr'. run fs tr')
]
