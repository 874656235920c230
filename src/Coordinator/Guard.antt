-- ===== src/Coordinator/Guard.antt =====
-- `_guarded_task_step` of yugo/coordinator.py: one step of a long-lived task.
use yugo.Base.{Bool, true, false, Option, none, some, if◌then◌else◌}

-- What an awaited call of the broker can raise.
pub data Raised : Type 0 where
  cancelled connection_closed timed_out other_error value_error : Raised

-- How an awaited call ends.
pub data Attempt {ℓ} (A : Type ℓ) : Type ℓ where
  returned : A → Attempt A
  raises : Raised → Attempt A

-- `(True, value)` and `(False, None)` are `stepped`; `propagates` leaves the caller.
pub data Guarded {ℓ} (A : Type ℓ) : Type ℓ where
  stepped : Option A → Guarded A
  propagates : Raised → Guarded A

-- A test of the kind of error, as the tuples `quiet` and `terminal` are.
abbrev pub is_closed : Raised → Bool
is_closed connection_closed = true
is_closed _ = false

abbrev pub is_timeout : Raised → Bool
is_timeout timed_out = true
is_timeout _ = false

abbrev pub no_error : Raised → Bool
no_error e = false

-- The log lines and the delay after a fault are left out.
unfoldable pub guarded_task_step {ℓ} :
    {A : Type ℓ} → (Raised → Bool) → (Raised → Bool) → Attempt A → Guarded A
guarded_task_step quiet terminal (returned a) = stepped (some a)
guarded_task_step quiet terminal (raises cancelled) = propagates cancelled
guarded_task_step quiet terminal (raises e) = if terminal e then propagates e else stepped none
