-- ===== src/Coordinator/Outage.antt =====
-- How often the monitor of yugo/coordinator.py alerts.
use yugo.Base.{
  ℕ, suc, ◌*◌, ltb, ◌+◌, ◌≤◌, Text, ◌≡◌, ◌≢◌, refl, Bool, true, false, Option, none, List, [], ◌∷◌,
  if◌then◌else◌, arith, Bool-cases, inl, inr, ◌||◌,
}
use yugo.Bus.Platform.{Platform}
use yugo.Coordinator.Guard.{
  cancelled, connection_closed, timed_out, other_error, value_error, Attempt, returned, raises,
  stepped, no_error, guarded_task_step,
}
use yugo.Coordinator.Monitor.{
  Monitor, is_heartbeat, observe, is_silent, check, Op, seen, checked, step, alerts, deliver_all,
}

module _ (p : Platform) (hb : ℕ) where
  -- No call is a heartbeat of the coordinator.
  unfoldable pub IsOutage : List Op → Type 0
  IsOutage [] = Unit
  IsOutage (seen m now ∷ os) = (is_heartbeat p m ≡ false) × IsOutage os
  IsOutage (checked now ∷ os) = IsOutage os

  -- Some check comes more than three intervals after `last`.
  pub any_late : ℕ → List Op → Bool
  any_late last [] = false
  any_late last (seen m now ∷ os) = any_late last os
  any_late last (checked now ∷ os) = ltb (last + 3 * hb) now || any_late last os

  -- How many calls are heartbeats of the coordinator.
  pub heartbeats : List Op → ℕ
  heartbeats [] = 0
  heartbeats (seen m now ∷ os) =
      let rest = heartbeats os in if is_heartbeat p m then suc rest else rest
  heartbeats (checked now ∷ os) = heartbeats os

  is_silent_lem : (now last : ℕ) → is_silent hb now last ≡ ltb (last + 3 * hb) now
  unfolding is_silent
  is_silent_lem now last = ground arith

  alerted_stays :
      (os : List Op) (last : ℕ)
      → IsOutage os
      → alerts p hb os (record { last_seen = last; alerted = true }) ≡ 0
  unfolding alerts step observe check IsOutage
  alerted_stays [] last h = refl
  alerted_stays (seen m now ∷ os) last h = rw (h.0) (alerted_stays os last h.1)
  alerted_stays (checked now ∷ os) last h = elim (Bool-cases (is_silent hb now last)) [
    | inl y ↦ rw (y) (alerted_stays os last h)
    | inr n ↦ rw (n) (alerted_stays os last h)
  ]

  -- In an outage, which no heartbeat of the coordinator interrupts, and with no alert pending at its
  -- start, the checks begin exactly one alert if one of them comes more than three intervals after
  -- the last heartbeat, and none if none does; other messages change nothing.
  pub outage_alerts_once :
      (os : List Op) (last : ℕ)
      → IsOutage os
      → alerts p hb os (record { last_seen = last; alerted = false })
        ≡ (if any_late last os then 1 else 0)
  unfolding alerts step observe check IsOutage any_late
  outage_alerts_once [] last h = refl
  outage_alerts_once (seen m now ∷ os) last h = rw (h.0) (outage_alerts_once os last h.1)
  outage_alerts_once (checked now ∷ os) last h = elim (Bool-cases (ltb (last + 3 * hb) now)) [
    | inl y ↦ rw (is_silent_lem now last, y) (omega (arith, alerted_stays os last h))
    | inr n ↦ rw (is_silent_lem now last, n) (outage_alerts_once os last h)
  ]

  abbrev credit : Monitor → ℕ
  credit s = if s.alerted then 0 else 1

  -- Over any calls, heartbeats among them, there are at most as many alerts as heartbeats, and
  -- one more if none was pending at the start.
  alerts-le-heartbeats : (os : List Op) (s : Monitor) → alerts p hb os s ≤ heartbeats os + credit s
  unfolding alerts step observe check heartbeats
  alerts-le-heartbeats [] s = omega arith
  alerts-le-heartbeats (seen m now ∷ os) s =
      ground (arith, alerts-le-heartbeats os (observe p m now s).1)
  alerts-le-heartbeats (checked now ∷ os) s =
      ground (arith, alerts-le-heartbeats os (check hb now s).1)

guarded-uncancelled :
    (a : Attempt (Unit {0}))
    → a ≢ raises cancelled
    → (o : Option (Unit {0})) × (guarded_task_step no_error no_error a ≡ stepped o)
unfolding guarded_task_step
guarded-uncancelled (returned tt) h = (_, refl)
guarded-uncancelled (raises cancelled) h = absurd (h refl)
guarded-uncancelled (raises connection_closed) h = (_, refl)
guarded-uncancelled (raises timed_out) h = (_, refl)
guarded-uncancelled (raises other_error) h = (_, refl)
guarded-uncancelled (raises value_error) h = (_, refl)

-- Unless an alert is cancelled, every channel is alerted, in order, whatever the others raise.
pub deliver_all_lem :
    (alert : Text → Attempt (Unit {0})) (cs : List Text)
    → ((c : Text) → alert c ≢ raises cancelled)
    → deliver_all alert cs ≡ (none, cs)
unfolding deliver_all
deliver_all_lem alert [] h = refl
deliver_all_lem alert (c ∷ cs) h =
    rw ((guarded-uncancelled (alert c) (h c)).1, deliver_all_lem alert cs h, deliver_all) refl
