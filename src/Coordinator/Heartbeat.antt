-- ===== src/Coordinator/Heartbeat.antt =====
-- `CoordinatorHeartbeat` of yugo/coordinator.py. A `Beat` holds what one round takes from outside:
-- the id and the time of its envelope, and how the broker ends the two calls.
use yugo.Base.{ℕ, Text, codes, Option, none, some, List, [], ◌∷◌}
use yugo.Json.{Dict}
use yugo.Bus.Platform.{Platform}
use yugo.Bus.Baton.{Stamp, create_heartbeat_envelope}
use yugo.Coordinator.Guard.{
  Raised, value_error, Attempt, returned, raises, Guarded, stepped, propagates, is_closed, no_error,
  guarded_task_step,
}

pub record Beat : Type 0 where
  pub stamp : Stamp
  pub publish : Attempt (Unit {0})
  pub flush : Attempt (Unit {0})

-- The envelopes that `publish` took, newest first.
abbrev pub Beats : Type 0
Beats = List Dict

abbrev then_flush :
    Attempt (Unit {0}) → Attempt (Unit {0}) → Dict → Beats → Attempt (Unit {0}) × Beats
then_flush (returned u) flush e sent = (flush, e ∷ sent)
then_flush (raises x) flush e sent = (raises x, sent)

abbrev unless_propagates :
    Guarded (Unit {0}) → Beats → (Beats → Option Raised × Beats) → Option Raised × Beats
unless_propagates (stepped o) sent later = later sent
unless_propagates (propagates x) sent later = (some x, sent)

module _ (p : Platform) (version : Text) (pid : ℕ) where
  abbrev emit : Option Dict → Beat → Beats → Attempt (Unit {0}) × Beats
  emit none b sent = (raises value_error, sent)
  emit (some e) b sent = then_flush b.publish b.flush e sent

  unfoldable pub emit_once : Beat → Beats → Attempt (Unit {0}) × Beats
  emit_once b sent =
      emit (create_heartbeat_envelope p b.stamp (codes "coordinator") version pid none none) b sent

  -- The rounds of `while True`.
  unfoldable pub beats : List Beat → Beats → Option Raised × Beats
  beats [] sent = (none, sent)
  beats (b ∷ bs) sent =
      unless_propagates (guarded_task_step no_error is_closed (emit_once b sent).0)
        (emit_once b sent).1 (λ sent'. beats bs sent')
