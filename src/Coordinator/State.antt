-- ===== src/Coordinator/State.antt =====
-- yugo/coordinator_state.py: the versioned sqlite state of the coordinator and the reconciliation
-- of its relay marker with the durable consumer in JetStream. `reconcile` is given what the broker
-- answers at each of its awaits: a first lookup, `open`, and a second lookup. A time is a number of
-- microseconds; `isoformat` and `fromisoformat` are the methods of `datetime`, and the second
-- raises on `none`.
pub mod Binding
pub mod Recovery
pub mod Schema
use yugo.Base.{
  ℕ, ◌+◌, ◌-◌, Text, codes, text_eq, Bool, true, false, not, ◌&&◌, ◌||◌, ◌==◌, ltb, Option, none,
  some, List, [], ◌∷◌, ◌++◌, if◌then◌else◌, contains_text,
}
use yugo.Base.Int.{ℤ, pos, at_least, is_int}

pub data StateError : Type 0 where
  version_newer state_foreign durable_foreign durable_deleted durable_regenerated policy_drift :
      StateError
  -- What sqlite, the broker and `fromisoformat` raise.
  sqlite_error broker_error value_error : StateError

pub data MarkerState : Type 0 where
  intent created : MarkerState

-- The row of `coordinator_relay_marker`.
pub record Marker : Type 0 where
  pub state : MarkerState
  pub stream_name : Text
  pub durable_name : Text
  pub consumer_created : Option Text
  pub stream_created : Option Text

pub record Database : Type 0 where
  pub version : ℤ
  pub tables : List Text
  pub row : Option Marker

abbrev pub stream : Text
stream = codes "FLEET_REQUEST"

abbrev pub durable : Text
durable = codes "yugo-coordinator-request"

abbrev pub instance_table : Text
instance_table = codes "coordinator_instance"

abbrev pub marker_table : Text
marker_table = codes "coordinator_relay_marker"

pub data Checked {ℓ} (A : Type ℓ) : Type ℓ where
  refused : StateError → Checked A
  passed : A → Checked A

pub record DatabasePreflight : Type 0 where
  pub version : ℤ
  pub legacy_6b1 : Bool

abbrev is_nonempty : List Text → Bool
is_nonempty [] = false
is_nonempty (t ∷ ts) = true

unfoldable pub preflight : Database → Checked DatabasePreflight
preflight db =
    if at_least db.version 2
    then refused version_newer
    else if is_int db.version 0
        && (is_nonempty db.tables && not (contains_text db.tables instance_table))
    then refused state_foreign
    else passed (record {
      version = db.version;
      legacy_6b1 = is_int db.version 0 && contains_text db.tables instance_table;
    })

-- CREATE TABLE IF NOT EXISTS
unfoldable pub create_table : Text → List Text → List Text
create_table t tables = if contains_text tables t then tables else t ∷ tables

abbrev pub intent_row : Text → Text → Marker
intent_row s d = record {
  state = intent;
  stream_name = s;
  durable_name = d;
  consumer_created = none;
  stream_created = none;
}

-- INSERT OR IGNORE
abbrev pub or_intent : Option Marker → Option Marker
or_intent (some m) = some m
or_intent none = some (intent_row stream durable)

-- The transaction. `raises` tells that one of its statements does, upon which all are rolled back.
unfoldable pub migrate : (raises : Bool) → Database → DatabasePreflight → Checked Database
migrate raises db p =
    if is_int p.version 1
    then passed db
    else if raises
    then refused sqlite_error
    else passed (record {
      version = pos 1;
      tables = create_table marker_table (create_table instance_table db.tables);
      row = if p.legacy_6b1 then or_intent db.row else db.row;
    })

unfoldable pub marker : Database → Checked (Option Marker)
marker db = if contains_text db.tables marker_table then passed db.row else refused sqlite_error

-- INSERT, which raises where the row exists.
unfoldable pub write_intent : Database → Checked Database
write_intent db = elim db.row [
  | some m ↦ refused sqlite_error
  | none ↦ passed (record db { row = some (intent_row stream durable) })
]

module _ (isoformat : ℕ → Text) where
  abbrev pub created_row : ℕ → ℕ → Marker
  created_row c s = record {
    state = created;
    stream_name = stream;
    durable_name = durable;
    consumer_created = some (isoformat c);
    stream_created = some (isoformat s);
  }

  abbrev pub update_row : ℕ → ℕ → Option Marker → Option Marker
  update_row c s none = none
  update_row c s (some m) = some (created_row c s)

  -- UPDATE ... WHERE id=1
  unfoldable pub finalize : Database → ℕ → ℕ → Database
  finalize db c s = record db { row = update_row c s db.row }

pub data DeliverPolicy : Type 0 where
  new_only other_policy : DeliverPolicy

pub record Consumer : Type 0 where
  pub deliver_policy : DeliverPolicy
  pub filter_subject : Text
  pub created_at : ℕ

pub record Stream : Type 0 where
  pub name : Text
  pub created_at : ℕ

abbrev pub is_new : DeliverPolicy → Bool
is_new new_only = true
is_new other_policy = false

abbrev pub request_filter : Text
request_filter = codes "fleet.*.request"

-- `none` is that nothing is raised.
unfoldable pub assert_live_shape : Consumer → Stream → Option StateError
assert_live_shape c s =
    if not (is_new c.deliver_policy) || not (text_eq c.filter_subject request_filter)
    then some policy_drift
    else if not (text_eq s.name stream)
    then some policy_drift
    else none

-- What the broker answers to a request.
pub data Answer {ℓ} (A : Type ℓ) : Type ℓ where
  answered : A → Answer A
  not_found raised : Answer A

pub record Lookup : Type 0 where
  pub consumer_info : Answer Consumer
  pub stream_info : Answer Stream

abbrev pub with_stream : Option Consumer → Answer Stream → Checked (Option Consumer × Stream)
with_stream c (answered s) = passed (c, s)
with_stream c not_found = refused broker_error
with_stream c raised = refused broker_error

abbrev pub live_parts : Answer Consumer → Answer Stream → Checked (Option Consumer × Stream)
live_parts (answered c) s = with_stream (some c) s
live_parts not_found s = with_stream none s
live_parts raised s = refused broker_error

unfoldable pub live : Lookup → Checked (Option Consumer × Stream)
live l = live_parts l.consumer_info l.stream_info

-- What a run leaves: the database, whether the relay's `open` was called, and what it raised.
pub record Reconciled : Type 0 where
  pub database : Database
  pub opened : Bool
  pub error : Option StateError

abbrev pub is_created : MarkerState → Bool
is_created intent = false
is_created created = true

-- The two refusals before the first write.
unfoldable pub refusal : Option Marker → Option Consumer → Option StateError
refusal none (some c) = some durable_foreign
refusal none none = none
refusal (some m) (some c) = none
refusal (some m) none = if is_created m.state then some durable_deleted else none

-- `abs((live - stored).total_seconds()) > 1`
abbrev pub is_apart : ℕ → ℕ → Bool
is_apart a b = ltb 1000000 ((a - b) + (b - a))

abbrev pub stored_time : (Text → Option ℕ) → Option Text → Option ℕ
stored_time fromisoformat none = none
stored_time fromisoformat (some t) = fromisoformat t

abbrev pub generation_of : Option ℕ → Option ℕ → ℕ → ℕ → Option StateError
generation_of (some c) (some s) live_c live_s =
    if is_apart live_c c || not (live_s == s) then some durable_regenerated else none
generation_of none s live_c live_s = some value_error
generation_of (some c) none live_c live_s = some value_error

-- The checks of a marker that is created.
unfoldable pub same_generation : (Text → Option ℕ) → Marker → Consumer → Stream → Option StateError
same_generation fromisoformat m c s =
    if not (text_eq m.stream_name stream) || not (text_eq m.durable_name durable)
    then some durable_regenerated
    else generation_of (stored_time fromisoformat m.consumer_created)
        (stored_time fromisoformat m.stream_created) c.created_at s.created_at

abbrev pub after_open : Database → Option StateError → Reconciled
after_open db e = record { database = db; opened = true; error = e }

abbrev pub before_open : Database → StateError → Reconciled
before_open db e = record { database = db; opened = false; error = some e }

-- The statement that writes raises where there is no table.
abbrev pub unless_missing : Bool → Checked (Bool × Database) → Checked (Bool × Database)
unless_missing true r = r
unless_missing false (refused e) = refused e
unless_missing false (passed r) = refused sqlite_error

module _ (isoformat : ℕ → Text) (fromisoformat : Text → Option ℕ) where
  abbrev pub by_state : MarkerState → Marker → Database → Consumer → Stream → Reconciled
  by_state created m db c s = after_open db (same_generation fromisoformat m c s)
  by_state intent m db c s = after_open (finalize isoformat db c.created_at s.created_at) none

  abbrev pub unless_drift : Option StateError → Marker → Database → Consumer → Stream → Reconciled
  unless_drift (some e) m db c s = after_open db (some e)
  unless_drift none m db c s = by_state m.state m db c s

  -- From the second lookup on.
  abbrev pub after_bind : Marker → Database → Checked (Option Consumer × Stream) → Reconciled
  after_bind m db (refused e) = after_open db (some e)
  after_bind m db (passed (none, s)) = after_open db (some durable_deleted)
  after_bind m db (passed (some c, s)) = unless_drift (assert_live_shape c s) m db c s

  abbrev pub bind : Answer (Unit {0}) → Marker → Database → Lookup → Reconciled
  bind (answered u) m db second = after_bind m db (live second)
  bind not_found m db second = after_open db (some broker_error)
  bind raised m db second = after_open db (some broker_error)

  abbrev pub with_row : Database → Answer (Unit {0}) → Lookup → Checked (Option Marker) → Reconciled
  with_row db open_answer second (refused e) = before_open db e
  with_row db open_answer second (passed none) = before_open db value_error
  with_row db open_answer second (passed (some m)) = bind open_answer m db second

  abbrev pub reread : Database → Answer (Unit {0}) → Lookup → Checked Database → Reconciled
  reread db open_answer second (refused e) = before_open db e
  reread db open_answer second (passed db') = with_row db' open_answer second (marker db')

  abbrev pub unless_refused :
      Option StateError → Option Marker → Database → Answer (Unit {0}) → Lookup → Reconciled
  unless_refused (some e) row db open_answer second = before_open db e
  unless_refused none none db open_answer second = reread db open_answer second (write_intent db)
  unless_refused none (some m) db open_answer second = bind open_answer m db second

  abbrev pub looked :
      Option Marker
      → Database
      → Answer (Unit {0})
      → Lookup
      → Checked (Option Consumer × Stream)
      → Reconciled
  looked row db open_answer second (refused e) = before_open db e
  looked row db open_answer second (passed (c, s)) =
      unless_refused (refusal row c) row db open_answer second

  abbrev pub marked :
      Checked (Option Marker) → Database → Lookup → Answer (Unit {0}) → Lookup → Reconciled
  marked (refused e) db first open_answer second = before_open db e
  marked (passed row) db first open_answer second = looked row db open_answer second (live first)

  unfoldable pub reconcile :
      Database
      → (first : Lookup) → (open_answer : Answer (Unit {0})) → (second : Lookup) → Reconciled
  reconcile db first open_answer second = marked (marker db) db first open_answer second

  abbrev pub restamp : Option StateError → Database → Consumer → Stream → Checked (Bool × Database)
  restamp (some e) db c s = refused e
  restamp none db c s =
      passed (false, record db { row = some (created_row isoformat c.created_at s.created_at) })

  -- `passed true` is that the marker was cleared, `passed false` that it was stamped anew.
  abbrev pub accept :
      Bool → Database → Checked (Option Consumer × Stream) → Checked (Bool × Database)
  accept acknowledge db (refused e) = refused e
  accept acknowledge db (passed (none, s)) =
      if acknowledge then passed (true, record db { row = none }) else refused durable_deleted
  accept acknowledge db (passed (some c, s)) = restamp (assert_live_shape c s) db c s

  unfoldable pub accept_reset :
      (acknowledge_traffic_gap : Bool) → Database → Lookup → Checked (Bool × Database)
  accept_reset acknowledge_traffic_gap db l =
      unless_missing (contains_text db.tables marker_table)
        (accept acknowledge_traffic_gap db (live l))
