-- ===== src/Tests/Coordinator.antt =====
-- The relay, the monitor and the mount table at concrete inputs.
use yugo.Base.{
  ℕ, ◌-◌, codes, ◌≡◌, refl, true, false, Option, none, some, List, [], ◌∷◌, ◌&&◌, leb,
  if◌then◌else◌, split_on, text_eq, keep_where, all_of, starts_with, inl, inr, ◌⊎◌, arith,
}
use yugo.Json.{null}
use yugo.Coordinator.Guard.{timed_out, other_error, Attempt, returned, raises, guarded_task_step}
use yugo.Coordinator.Relay.{
  Message, published, acked, naked, Round, inbox_subject, forward, forward_all, run,
}
use yugo.Coordinator.Delivery.{
  IsOrdered, WasPublished, IsTransient, run-IsOrdered, deliveries, deliveries-WasPublished,
}
use yugo.Coordinator.Monitor.{Status, Op, seen, checked, alerts, is_heartbeat}
use yugo.Coordinator.Outage.{outage_alerts_once, any_late, IsOutage}
use yugo.Coordinator.Mounts.{
  Mount, detect_filesystem, unescape_mount_field, fs_magic, looked_up, any_device, by_device,
  sole_type, longest, by_path, best_of, better, covers,
}
use yugo.Coordinator.Mounts.Escape.{unescape-escape, escape_field, escape_char, ReadsOctal}
use yugo.Coordinator.Mounts.Detect.{detect_filesystem-IsVisible, IsVisible, decides}
use yugo.Tests.Ascii.{ascii}

abbrev request : Message
request = record { subject = codes "fleet.vec.request"; payload = codes "{}" }

abbrev failing : Round
failing = record { publish = raises other_error; nak = returned tt; ack = returned tt }

abbrev open_round : Round
open_round = record { publish = returned tt; nak = returned tt; ack = returned tt }

abbrev fetches : List (Attempt (List (Message × Round)))
fetches =
    raises timed_out
    ∷ returned ((request, failing) ∷ [])
    ∷ returned ((request, open_round) ∷ [])
    ∷ []

run-IsOrdered_example : IsOrdered (run fetches []).1
run-IsOrdered_example = run-IsOrdered fetches [] tt

run_test :
    run fetches []
    ≡ (none, acked request ∷ published (codes "fleet.vec.inbox") (codes "{}") ∷ naked request ∷ [])
unfolding run forward_all forward inbox_subject guarded_task_step split_on text_eq
run_test = refl

vec_inbox : inbox_subject request.subject ≡ some (codes "fleet.vec.inbox")
unfolding inbox_subject split_on text_eq
vec_inbox = refl

returned-IsTransient : IsTransient (returned tt)
returned-IsTransient = (λ h. cc, λ h. cc)

other_error-IsTransient : IsTransient (raises other_error)
other_error-IsTransient = (λ h. cc, λ h. cc)

deliveries-WasPublished_example :
    ((deliveries request (failing ∷ open_round ∷ [])).0 ≡ none)
    × ((deliveries request (failing ∷ open_round ∷ [])).1 ≡ true)
    × WasPublished request (deliveries request (failing ∷ open_round ∷ [])).2
deliveries-WasPublished_example =
    deliveries-WasPublished request (failing ∷ open_round ∷ []) (codes "fleet.vec.inbox") vec_inbox
      (
        (other_error-IsTransient, returned-IsTransient, returned-IsTransient),
        ((returned-IsTransient, returned-IsTransient, returned-IsTransient), tt),
      )
      (inr (inl (refl, refl)))

abbrev chatter : Status
chatter = record { subject = codes "fleet.vec.status"; decoded = some null }

abbrev calls : List Op
calls = checked 9000 ∷ seen chatter 15000 ∷ checked 16000 ∷ checked 21000 ∷ []

chatter_lem : is_heartbeat ascii chatter ≡ false
unfolding is_heartbeat text_eq
chatter_lem = refl

outage_alerts_once_example :
    alerts ascii 5000 calls (record { last_seen = 0; alerted = false })
    ≡ (if any_late ascii 5000 0 calls then 1 else 0)
unfolding IsOutage
outage_alerts_once_example = outage_alerts_once ascii 5000 calls 0 (chatter_lem, tt)

abbrev digit : ℕ → Option ℕ
digit c = if leb 48 c && leb c 57 then some (c - 48) else none

digit-ReadsOctal : ReadsOctal digit
digit-ReadsOctal k h = ground arith

unescape-escape_example :
    unescape_mount_field digit (escape_field (codes "/mnt/a b")) ≡ codes "/mnt/a b"
unescape-escape_example = unescape-escape digit (codes "/mnt/a b") digit-ReadsOctal

escaped : escape_field (codes "a b") ≡ codes "a\\040b"
unfolding escape_field escape_char
escaped = refl

abbrev root : Mount
root = record { point = codes "/"; fs_type = codes "ext4"; device = some (codes "8:1") }

abbrev share : Mount
share = record { point = codes "/srv"; fs_type = codes "nfs4"; device = some (codes "0:52") }

shared :
    detect_filesystem (some 7) (some (codes "0:52")) (codes "/srv/state.db") (root ∷ share ∷ [])
    ≡ some (codes "nfs4")
unfolding detect_filesystem looked_up any_device by_device sole_type keep_where all_of longest
    fs_magic text_eq
shared = refl

stacked :
    detect_filesystem
      (some 7)
      none
      (codes "/srv/state.db")
      (share ∷ record share { fs_type = codes "ext4" } ∷ [])
    ≡ none
unfolding detect_filesystem looked_up by_path best_of better covers fs_magic text_eq starts_with
stacked = refl

detect_filesystem-IsVisible_example :
    ((n : ℕ) × (some 7 ≡ some n) × (fs_magic n ≡ some (codes "nfs4")))
    ⊎ IsVisible
        (decides (some (codes "0:52")) (codes "/srv/state.db") (root ∷ share ∷ []))
        (codes "nfs4")
        (root ∷ share ∷ [])
detect_filesystem-IsVisible_example =
    detect_filesystem-IsVisible (some 7) (some (codes "0:52")) (codes "/srv/state.db")
      (codes "nfs4") (root ∷ share ∷ []) shared
