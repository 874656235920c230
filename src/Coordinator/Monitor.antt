-- ===== src/Coordinator/Monitor.antt =====
-- `TapHeartbeatMonitor` of yugo/coordinator.py. Its clock is in milliseconds; `Op` is a call by
-- the event loop, so a list of them is any interleaving of heartbeats, checks and pending alerts.
use yugo.Base.{
  ℕ, suc, ◌-◌, ◌*◌, Text, codes, text_eq, Bool, true, false, ◌&&◌, Option, none, some, List, [],
  ◌∷◌, if◌then◌else◌, leb,
}
use yugo.Json.{Value, str, get}
use yugo.Bus.Platform.{Platform}
use yugo.Bus.Envelope.{accepted, rejected, validate_envelope}
use yugo.Coordinator.Guard.{
  Raised, Attempt, Guarded, stepped, propagates, no_error, guarded_task_step,
}

abbrev pub status_subject : Text
status_subject = codes "fleet.coordinator.status"

abbrev pub default_max_envelope_bytes : ℕ
default_max_envelope_bytes = 1044480

pub record Monitor : Type 0 where
  pub last_seen : ℕ
  pub alerted : Bool

-- `json.loads(message.data)`, `none` where it raises
pub record Status : Type 0 where
  pub subject : Text
  pub decoded : Option Value

abbrev has_text : Value → Text → Bool
has_text (str t) u = text_eq t u
has_text _ u = false

-- Is it the coordinator's own heartbeat?
unfoldable pub is_heartbeat : Platform → Status → Bool
is_heartbeat p m = text_eq m.subject status_subject && elim m.decoded [
  | none ↦ false
  | some v ↦ elim (validate_envelope p (codes "coordinator" ∷ []) v default_max_envelope_bytes) [
    | rejected r ↦ false
    | accepted e ↦ has_text (get "kind" e) (codes "status_heartbeat")
  ]
]

unfoldable pub observe : Platform → Status → ℕ → Monitor → Bool × Monitor
observe p m now s =
    if is_heartbeat p m then (true, record s { last_seen = now; alerted = false }) else (false, s)

-- `silent_ms > 3 * heartbeat_ms`
unfoldable pub is_silent : ℕ → ℕ → ℕ → Bool
is_silent heartbeat_ms now last_seen =
    if leb (now - last_seen) (3 * heartbeat_ms) then false else true

-- The part of `check` before its first wait.
unfoldable pub check : ℕ → ℕ → Monitor → Bool × Monitor
check heartbeat_ms now s =
    if is_silent heartbeat_ms now s.last_seen
    then (if s.alerted then (false, s) else (true, record s { alerted = true }))
    else (false, s)

-- The rest of it: the channels whose alert is called, and what propagates.
abbrev next_channel :
    Text → Guarded (Unit {0}) → Option Raised × List Text → Option Raised × List Text
next_channel c (propagates x) later = (some x, c ∷ [])
next_channel c (stepped o) later = (later.0, c ∷ later.1)

unfoldable pub deliver_all : (Text → Attempt (Unit {0})) → List Text → Option Raised × List Text
deliver_all alert [] = (none, [])
deliver_all alert (c ∷ cs) =
    next_channel c (guarded_task_step no_error no_error (alert c)) (deliver_all alert cs)

-- `_channels`
unfoldable pub channels : Text → Option Text → List Text
channels coordinator none = coordinator ∷ []
channels coordinator (some []) = coordinator ∷ []
channels coordinator (some (c ∷ t)) = coordinator ∷ (c ∷ t) ∷ []

pub data Op : Type 0 where
  seen : Status → ℕ → Op
  checked : ℕ → Op

-- One call: does it begin an alert?
unfoldable pub step : Platform → ℕ → Op → Monitor → Bool × Monitor
step p hb (seen m now) s = (false, (observe p m now s).1)
step p hb (checked now) s = check hb now s

-- How many alerts the calls begin.
unfoldable pub alerts : Platform → ℕ → List Op → Monitor → ℕ
alerts p hb [] s = 0
alerts p hb (o ∷ os) s =
    let rest = alerts p hb os (step p hb o s).1 in if (step p hb o s).0 then suc rest else rest
