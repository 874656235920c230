-- ===== src/Tests/State.antt =====
-- The coordinator's marker, its lock and its heartbeat at concrete inputs.
use yugo.Base.{
  ℕ, Text, codes, ◌≡◌, ◌≢◌, refl, true, false, Option, none, some, [], ◌∷◌, text_eq, contains_text,
  all_of, starts_with, ◌⊎◌,
}
use yugo.Base.{strip, lstrip, is_space, starts_with_any, find_offset}
use yugo.Base.Int.{pos, is_int, at_least}
use yugo.Coordinator.Guard.{other_error, Attempt, returned, raises, guarded_task_step}
use yugo.Coordinator.State.{
  Database, passed, Consumer, Stream, new_only, Lookup, answered, not_found, raised, live, stream,
  request_filter, marker, marker_table, instance_table, reconcile, accept_reset, preflight,
  create_table, refusal, write_intent, finalize, same_generation, created_row, after_open,
  assert_live_shape,
}
use yugo.Coordinator.State.Binding.{IsBound, reconcile-IsBound}
use yugo.Coordinator.State.Recovery.{
  reconcile-Agrees, IsUntouched, Agrees, reconcile_again, accept_reset-reconcile,
}
use yugo.Coordinator.Mode.{is_unreliable_filesystem}
use yugo.Coordinator.Lock.{
  done, operational, Instance, Connection, Start, failed, already_running, error_of,
  acquire_instance_lock,
}
use yugo.Coordinator.Lock.Acquired.{IsSafe, acquire_instance_lock-IsSafe}
use yugo.Bus.Baton.{create_heartbeat_envelope}
use yugo.Bus.Name.{normalize_bot_name, is_bot_name, is_name_char}
use yugo.Coordinator.Guard.{connection_closed}
use yugo.Coordinator.Heartbeat.{Beat, beats, emit_once}
use yugo.Tests.Ascii.{ascii}

abbrev consumer : Consumer
consumer = record { deliver_policy = new_only; filter_subject = request_filter; created_at = 5 }

abbrev requests : Stream
requests = record { name = stream; created_at = 3 }

abbrev absent : Lookup
absent = record { consumer_info = not_found; stream_info = answered requests }

abbrev present : Lookup
present = record { consumer_info = answered consumer; stream_info = answered requests }

abbrev migrated : Database
migrated = record { version = pos 1; tables = marker_table ∷ instance_table ∷ []; row = none }

-- A time as a text of one character.
abbrev iso : ℕ → Text
iso n = n ∷ []

abbrev from_iso : Text → Option ℕ
from_iso [] = none
from_iso (n ∷ t) = some n

created_first : (reconcile iso from_iso migrated absent (answered tt) present).error ≡ none
unfolding reconcile accept_reset marker live refusal write_intent finalize assert_live_shape
    same_generation contains_text text_eq
created_first = refl

reconcile-IsBound_example :
    IsBound from_iso (reconcile iso from_iso migrated absent (answered tt) present).database present
reconcile-IsBound_example =
    reconcile-IsBound iso from_iso (λ n. refl) migrated absent present (answered tt) created_first

is_marked : marker migrated ≡ passed none
unfolding reconcile accept_reset marker live refusal write_intent finalize assert_live_shape
    same_generation contains_text text_eq
is_marked = refl

is_absent : live absent ≡ passed (none, requests)
unfolding reconcile accept_reset marker live refusal write_intent finalize assert_live_shape
    same_generation contains_text text_eq
is_absent = refl

is_present : live present ≡ passed (some consumer, requests)
unfolding reconcile accept_reset marker live refusal write_intent finalize assert_live_shape
    same_generation contains_text text_eq
is_present = refl

fits : assert_live_shape consumer requests ≡ none
unfolding reconcile accept_reset marker live refusal write_intent finalize assert_live_shape
    same_generation contains_text text_eq
fits = refl

crashed : (reconcile iso from_iso migrated absent raised present).error ≢ none
unfolding reconcile accept_reset marker live refusal write_intent finalize assert_live_shape
    same_generation contains_text text_eq
crashed h = cc

reconcile_again_example :
    reconcile iso from_iso
      (reconcile iso from_iso migrated absent raised present).database
      present
      (answered tt)
      present
    ≡ after_open (record migrated { row = some (created_row iso 5 3) }) none
reconcile_again_example =
    reconcile_again iso from_iso migrated absent present present present raised (some consumer)
      consumer requests requests requests is_marked is_absent crashed is_present is_present fits

stamped :
    accept_reset iso from_iso false migrated present
    ≡ passed (false, record migrated { row = some (created_row iso 5 3) })
unfolding reconcile accept_reset marker live refusal write_intent finalize assert_live_shape
    same_generation contains_text text_eq
stamped = refl

accept_reset-reconcile_example :
    reconcile iso from_iso
      (record migrated { row = some (created_row iso 5 3) })
      present
      (answered tt)
      present
    ≡ after_open (record migrated { row = some (created_row iso 5 3) }) none
accept_reset-reconcile_example =
    accept_reset-reconcile iso from_iso (λ n. refl) false migrated
      (record migrated { row = some (created_row iso 5 3) }) present present consumer requests
      stamped is_present

reconcile-Agrees_example :
    IsUntouched migrated (reconcile iso from_iso migrated present (answered tt) present)
    ⊎ ((o : Option Consumer) × (s : Stream) × (live present ≡ passed (o, s)) × Agrees none o)
reconcile-Agrees_example = reconcile-Agrees iso from_iso migrated present present (answered tt)

abbrev unlocked : Connection
unlocked = record { database = migrated; holder = none; is_open = false }

abbrev me : Instance
me = record { pid = 7; acquired_at = codes "2026-01-01 00:00:00" }

abbrev local_disk : Start
local_disk = record {
  mkdir = true;
  filesystem = some (codes "ext4");
  connects = true;
  pragma_locking = done;
  reading = done;
  previous = done;
  creating = done;
  inserting = done;
  me = me;
}

abbrev same_case : Text → Text
same_case t = t

acquire_instance_lock-IsSafe_example :
    IsSafe same_case local_disk
      (codes "/srv/state.db")
      false
      unlocked
      (acquire_instance_lock same_case local_disk (codes "/srv/state.db") false unlocked)
acquire_instance_lock-IsSafe_example =
    acquire_instance_lock-IsSafe same_case local_disk (codes "/srv/state.db") false unlocked refl

locked :
    (acquire_instance_lock same_case local_disk (codes "/srv/state.db") false unlocked).1.holder
    ≡ some me
unfolding acquire_instance_lock is_unreliable_filesystem preflight create_table contains_text
    text_eq starts_with_any starts_with strip lstrip is_space is_int at_least
locked = refl

second :
    (acquire_instance_lock same_case
      (record local_disk { creating = operational (codes "database is locked") })
      (codes "/srv/state.db")
      false
      unlocked).0
    ≡ failed already_running
unfolding acquire_instance_lock error_of find_offset is_unreliable_filesystem preflight create_table
    contains_text text_eq starts_with_any starts_with strip lstrip is_space is_int at_least
second = refl

-- A file system that is not known is unreliable.
unknown : is_unreliable_filesystem same_case none ≡ true
unfolding is_unreliable_filesystem
unknown = refl

sshfs : is_unreliable_filesystem same_case (some (codes "fuse.sshfs")) ≡ true
unfolding is_unreliable_filesystem contains_text text_eq starts_with_any starts_with strip lstrip
    is_space
sshfs = refl

abbrev beat : Attempt (Unit {0}) → Beat
beat publish = record {
  stamp = record { id = codes "i"; ts = codes "t" };
  publish = publish;
  flush = returned tt;
}

-- A fault is survived, a closed connection is not.
beating :
    (beats ascii
      (codes "1")
      7
      (beat (raises other_error) ∷ beat (raises connection_closed) ∷ beat (returned tt) ∷ [])
      [])
    ≡ (some connection_closed, [])
unfolding beats emit_once guarded_task_step create_heartbeat_envelope normalize_bot_name is_bot_name
    is_name_char strip lstrip is_space all_of text_eq
beating = refl
