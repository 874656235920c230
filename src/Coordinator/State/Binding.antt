-- ===== src/Coordinator/State/Binding.antt =====
-- What a `reconcile` that raises nothing has established.
use yugo.Base.{
  ℕ, ◌+◌, ◌-◌, ◌≤◌, Text, text_eq_iff, ◌≡◌, refl, true, ==_iff, Option, none, some, arith,
}
use yugo.Coordinator.State.{
  Database, Marker, MarkerState, intent, created, Checked, refused, passed, Consumer, Stream,
  DeliverPolicy, new_only, other_policy, Lookup, Answer, answered, not_found, raised, live,
  live_parts, with_stream, stream, durable, request_filter, assert_live_shape, is_new, stored_time,
  generation_of, same_generation, created_row, finalize, after_bind, by_state, unless_drift, bind,
  StateError, marker, write_intent, refusal, reconcile, unless_refused, looked, marked, reread,
  with_row,
}

-- The marker `m` is created, and it names this durable of this generation.
abbrev pub Stands : (Text → Option ℕ) → Marker → Consumer → Stream → Type 0
Stands fromisoformat m c s =
    (m.state ≡ created)
    × (m.stream_name ≡ stream)
    × (m.durable_name ≡ durable)
    × ((t : ℕ) × (stored_time fromisoformat m.consumer_created ≡ some t)
        × ((c.created_at - t) + (t - c.created_at) ≤ 1000000))
    × (stored_time fromisoformat m.stream_created ≡ some s.created_at)

-- The durable that a lookup finds is the coordinator's, and the marker of the database stands.
abbrev pub IsBound : (Text → Option ℕ) → Database → Lookup → Type 0
IsBound fromisoformat db l =
    (c : Consumer) × (s : Stream) × (l.consumer_info ≡ answered c)
    × (l.stream_info ≡ answered s)
    × (c.deliver_policy ≡ new_only)
    × (c.filter_subject ≡ request_filter)
    × (s.name ≡ stream)
    × ((m : Marker) × (db.row ≡ some m) × Stands fromisoformat m c s)

with_stream_lem :
    (o : Option Consumer) (a : Answer Stream) (c : Consumer) (s : Stream)
    → with_stream o a ≡ passed (some c, s)
    → (o ≡ some c) × (a ≡ answered s)
with_stream_lem o (answered x) c s e = (cc, cc)
with_stream_lem o not_found c s e = cc
with_stream_lem o raised c s e = cc

live_parts_lem :
    (a : Answer Consumer) (b : Answer Stream) (c : Consumer) (s : Stream)
    → live_parts a b ≡ passed (some c, s)
    → (a ≡ answered c) × (b ≡ answered s)
live_parts_lem (answered x) b c s e = let (p, q) = with_stream_lem (some x) b c s e in (cc, q)
live_parts_lem not_found b c s e = let (p, q) = with_stream_lem none b c s e in cc p
live_parts_lem raised b c s e = cc

live_lem :
    (l : Lookup) (c : Consumer) (s : Stream)
    → live l ≡ passed (some c, s)
    → (l.consumer_info ≡ answered c) × (l.stream_info ≡ answered s)
unfolding live
live_lem l c s e = live_parts_lem l.consumer_info l.stream_info c s e

is_new_lem : (p : DeliverPolicy) → is_new p ≡ true → p ≡ new_only
is_new_lem new_only e = refl
is_new_lem other_policy e = cc

pub shape_lem :
    (c : Consumer) (s : Stream)
    → assert_live_shape c s ≡ none
    → (c.deliver_policy ≡ new_only) × (c.filter_subject ≡ request_filter) × (s.name ≡ stream)
unfolding assert_live_shape
shape_lem c s e = (
  is_new_lem c.deliver_policy (ground arith),
  (text_eq_iff c.filter_subject request_filter).0 (ground arith),
  (text_eq_iff s.name stream).0 (ground arith),
)

generation_lem :
    (a b : Option ℕ) (c s : ℕ)
    → generation_of a b c s ≡ none
    → ((t : ℕ) × (a ≡ some t) × ((c - t) + (t - c) ≤ 1000000)) × (b ≡ some s)
generation_lem none b c s e = cc
generation_lem (some x) none c s e = cc
generation_lem (some x) (some y) c s e = ((x, refl, ground arith), ground (arith, ==_iff s y))

same_generation_lem :
    (fromisoformat : Text → Option ℕ) (m : Marker) (c : Consumer) (s : Stream)
    → m.state ≡ created
    → same_generation fromisoformat m c s ≡ none
    → Stands fromisoformat m c s
unfolding same_generation
same_generation_lem fromisoformat m c s h e =
    let (near, same) =
      generation_lem (stored_time fromisoformat m.consumer_created)
        (stored_time fromisoformat m.stream_created) c.created_at s.created_at (ground arith) in
    (
      h,
      (text_eq_iff m.stream_name stream).0 (ground arith),
      (text_eq_iff m.durable_name durable).0 (ground arith),
      near,
      same,
    )

marker_lem : (db : Database) (row : Option Marker) → marker db ≡ passed row → db.row ≡ row
unfolding marker
marker_lem db row e = ground arith

module _ (isoformat : ℕ → Text) (fromisoformat : Text → Option ℕ)
    (inverse : (n : ℕ) → fromisoformat (isoformat n) ≡ some n) where
  created_row-Stands :
      (c : Consumer) (s : Stream)
      → Stands fromisoformat (created_row isoformat c.created_at s.created_at) c s
  created_row-Stands c s =
      (refl, refl, refl, (c.created_at, inverse c.created_at, omega arith), inverse s.created_at)

  by_state_lem :
      (k : MarkerState) (m : Marker) (db : Database) (c : Consumer) (s : Stream)
      → m.state ≡ k
      → db.row ≡ some m
      → (by_state isoformat fromisoformat k m db c s).error ≡ none
      → (m' : Marker) × ((by_state isoformat fromisoformat k m db c s).database.row ≡ some m')
        × Stands fromisoformat m' c s
  unfolding finalize
  by_state_lem intent m db c s h row e =
      (created_row isoformat c.created_at s.created_at, rw row refl, created_row-Stands c s)
  by_state_lem created m db c s h row e = (m, row, same_generation_lem fromisoformat m c s h e)

  unless_drift_lem :
      (o : Option StateError) (m : Marker) (db : Database) (c : Consumer) (s : Stream)
      → db.row ≡ some m
      → (unless_drift isoformat fromisoformat o m db c s).error ≡ none
      → (o ≡ none)
        × ((m' : Marker) × ((unless_drift isoformat fromisoformat o m db c s).database.row
              ≡ some m')
            × Stands fromisoformat m' c s)
  unless_drift_lem (some x) m db c s row e = cc
  unless_drift_lem none m db c s row e = (refl, by_state_lem m.state m db c s refl row e)

  after_bind_lem :
      (m : Marker) (db : Database) (l : Lookup) (r : Checked (Option Consumer × Stream))
      → live l ≡ r
      → db.row ≡ some m
      → (after_bind isoformat fromisoformat m db r).error ≡ none
      → IsBound fromisoformat (after_bind isoformat fromisoformat m db r).database l
  after_bind_lem m db l (refused x) h row e = cc
  after_bind_lem m db l (passed (none, s)) h row e = cc
  after_bind_lem m db l (passed (some c, s)) h row e =
      let (shape, stands) = unless_drift_lem (assert_live_shape c s) m db c s row e in
      let (new, filter, named) = shape_lem c s shape in
      let (asked, told) = live_lem l c s h in (c, s, asked, told, new, filter, named, stands)

  bind_lem :
      (a : Answer (Unit {0})) (m : Marker) (db : Database) (l : Lookup)
      → db.row ≡ some m
      → (bind isoformat fromisoformat a m db l).error ≡ none
      → IsBound fromisoformat (bind isoformat fromisoformat a m db l).database l
  bind_lem (answered u) m db l row e = after_bind_lem m db l (live l) refl row e
  bind_lem not_found m db l row e = cc
  bind_lem raised m db l row e = cc

  with_row_lem :
      (db : Database) (a : Answer (Unit {0})) (l : Lookup) (r : Checked (Option Marker))
      → marker db ≡ r
      → (with_row isoformat fromisoformat db a l r).error ≡ none
      → IsBound fromisoformat (with_row isoformat fromisoformat db a l r).database l
  with_row_lem db a l (refused x) h e = cc
  with_row_lem db a l (passed none) h e = cc
  with_row_lem db a l (passed (some m)) h e = bind_lem a m db l (marker_lem db (some m) h) e

  reread_lem :
      (db : Database) (a : Answer (Unit {0})) (l : Lookup) (r : Checked Database)
      → (reread isoformat fromisoformat db a l r).error ≡ none
      → IsBound fromisoformat (reread isoformat fromisoformat db a l r).database l
  reread_lem db a l (refused x) e = cc
  reread_lem db a l (passed db') e = with_row_lem db' a l (marker db') refl e

  unless_refused_lem :
      (o : Option StateError) (row : Option Marker) (db : Database) (a : Answer (Unit {0}))
      (l : Lookup)
      → db.row ≡ row
      → (unless_refused isoformat fromisoformat o row db a l).error ≡ none
      → IsBound fromisoformat (unless_refused isoformat fromisoformat o row db a l).database l
  unless_refused_lem (some x) row db a l h e = cc
  unless_refused_lem none none db a l h e = reread_lem db a l (write_intent db) e
  unless_refused_lem none (some m) db a l h e = bind_lem a m db l h e

  looked_lem :
      (row : Option Marker) (db : Database) (a : Answer (Unit {0})) (l : Lookup)
      (r : Checked (Option Consumer × Stream))
      → db.row ≡ row
      → (looked isoformat fromisoformat row db a l r).error ≡ none
      → IsBound fromisoformat (looked isoformat fromisoformat row db a l r).database l
  looked_lem row db a l (refused x) h e = cc
  looked_lem row db a l (passed (c, s)) h e = unless_refused_lem (refusal row c) row db a l h e

  marked_lem :
      (r : Checked (Option Marker)) (db : Database) (first second : Lookup) (a : Answer (Unit {0}))
      → marker db ≡ r
      → (marked isoformat fromisoformat r db first a second).error ≡ none
      → IsBound fromisoformat (marked isoformat fromisoformat r db first a second).database second
  marked_lem (refused x) db first second a h e = cc
  marked_lem (passed row) db first second a h e =
      looked_lem row db a second (live first) (marker_lem db row h) e

  -- A reconciliation that raises nothing has seen, after `open`, the coordinator's own durable with
  -- policy NEW and the request filter on the request stream, and it leaves a marker that is created,
  -- names both, was stamped within a second of that consumer and at the very time of that stream.
  pub reconcile-IsBound :
      (db : Database) (first second : Lookup) (open_answer : Answer (Unit {0}))
      → (reconcile isoformat fromisoformat db first open_answer second).error ≡ none
      → IsBound fromisoformat
          (reconcile isoformat fromisoformat db first open_answer second).database
          second
  unfolding reconcile
  reconcile-IsBound db first second open_answer e =
      marked_lem (marker db) db first second open_answer refl e
