-- ===== src/Coordinator/State/Recovery.antt =====
-- What a `reconcile` leaves alone, and how a run after a failed one or after `accept_reset` goes on.
use yugo.Base.{
  ℕ, Text, text_eq_refl, ◌≡◌, ◌≢◌, ◌⊎◌, inl, inr, refl, subst, Bool, true, false, Option, none,
  some, arith, Bool-cases, Option-cases, contains_text,
}
use yugo.Coordinator.State.{
  Database, Marker, MarkerState, intent, created, Checked, refused, passed, Consumer, Stream,
  Lookup, Answer, answered, not_found, raised, live, stream, durable, assert_live_shape,
  same_generation, created_row, intent_row, finalize, after_bind, unless_drift, bind, StateError,
  sqlite_error, marker, marker_table, write_intent, refusal, reconcile, Reconciled, after_open,
  unless_refused, looked, reread, accept_reset, accept, restamp, unless_missing,
}

marker_row : (db : Database) (row : Option Marker) → marker db ≡ passed row → db.row ≡ row
unfolding marker
marker_row db row e = ground arith

marker_of :
    (db : Database) (row : Option Marker)
    → db.row ≡ row
    → (marker db ≡ passed row) ⊎ ((e : StateError) × (marker db ≡ refused e))
unfolding marker
marker_of db row h = elim (Bool-cases (contains_text db.tables marker_table)) [
  | inl y ↦ inl (rw (y, h) refl)
  | inr n ↦ inr (sqlite_error, rw n refl)
]

marker-with_row :
    (db : Database) (row other : Option Marker)
    → marker db ≡ passed row
    → marker (record db { row = other }) ≡ passed other
unfolding marker
marker-with_row db row other h = ground arith

MarkerState-cases : (k : MarkerState) → (k ≡ intent) ⊎ (k ≡ created)
MarkerState-cases intent = inl refl
MarkerState-cases created = inr refl

-- The marker and the durable that the first lookup finds belong together: neither is there, or
-- the marker is an intent, or both are there.
abbrev pub Agrees : Option Marker → Option Consumer → Type 0
Agrees none o = o ≡ none
Agrees (some m) o = (m.state ≡ intent) ⊎ ((c : Consumer) × (o ≡ some c))

-- The run stops with an error before `open` and leaves the database as it was.
abbrev pub IsUntouched : Database → Reconciled → Type 0
IsUntouched db r = (r.opened ≡ false) × (r.database ≡ db) × (r.error ≢ none)

module _ (isoformat : ℕ → Text) (fromisoformat : Text → Option ℕ) where
  unless_drift-kept :
      (o : Option StateError) (m : Marker) (db : Database) (c : Consumer) (s : Stream)
      → m.state ≡ created
      → (unless_drift isoformat fromisoformat o m db c s).database ≡ db
  unless_drift-kept (some x) m db c s h = refl
  unless_drift-kept none m db c s h = rw h refl

  after_bind-kept :
      (m : Marker) (db : Database) (r : Checked (Option Consumer × Stream))
      → m.state ≡ created
      → (after_bind isoformat fromisoformat m db r).database ≡ db
  after_bind-kept m db (refused x) h = refl
  after_bind-kept m db (passed (none, s)) h = refl
  after_bind-kept m db (passed (some c, s)) h = unless_drift-kept (assert_live_shape c s) m db c s h

  bind-kept :
      (a : Answer (Unit {0})) (m : Marker) (db : Database) (l : Lookup)
      → m.state ≡ created
      → (bind isoformat fromisoformat a m db l).database ≡ db
  bind-kept (answered u) m db l h = after_bind-kept m db (live l) h
  bind-kept not_found m db l h = refl
  bind-kept raised m db l h = refl

  unless_refused-kept :
      (o : Option StateError) (m : Marker) (db : Database) (a : Answer (Unit {0})) (l : Lookup)
      → m.state ≡ created
      → (unless_refused isoformat fromisoformat o (some m) db a l).database ≡ db
  unless_refused-kept (some x) m db a l h = refl
  unless_refused-kept none m db a l h = bind-kept a m db l h

  looked-kept :
      (m : Marker) (db : Database) (a : Answer (Unit {0})) (l : Lookup)
      (r : Checked (Option Consumer × Stream))
      → m.state ≡ created
      → (looked isoformat fromisoformat (some m) db a l r).database ≡ db
  looked-kept m db a l (refused x) h = refl
  looked-kept m db a l (passed (c, s)) h = unless_refused-kept (refusal (some m) c) m db a l h

  -- A marker that is created is left as it is, whatever the broker answers and whether the run
  -- raises or not.
  pub reconcile-kept :
      (db : Database) (m : Marker) (first second : Lookup) (open_answer : Answer (Unit {0}))
      → db.row ≡ some m
      → m.state ≡ created
      → (reconcile isoformat fromisoformat db first open_answer second).database ≡ db
  unfolding reconcile
  reconcile-kept db m first second open_answer row h = elim (marker_of db (some m) row) [
    | inl y ↦ rw y (looked-kept m db open_answer second (live first) h)
    | inr (e, n) ↦ rw n refl
  ]

  abbrev with_intent : Database → Database
  with_intent db = record db { row = some (intent_row stream durable) }

  -- The write of the intent and its reading back.
  reread_lem :
      (db : Database) (a : Answer (Unit {0})) (l : Lookup)
      → marker db ≡ passed none
      → reread isoformat fromisoformat db a l (write_intent db)
        ≡ bind isoformat fromisoformat a (intent_row stream durable) (with_intent db) l
  unfolding write_intent
  reread_lem db a l h =
      rw (marker_row db none h, marker-with_row db none (some (intent_row stream durable)) h) refl

  unless_refused-Agrees :
      (o : Option Consumer) (row : Option Marker) (db : Database) (a : Answer (Unit {0}))
      (l : Lookup)
      → IsUntouched db (unless_refused isoformat fromisoformat (refusal row o) row db a l)
        ⊎ Agrees row o
  unfolding refusal
  unless_refused-Agrees none none db a l = inr refl
  unless_refused-Agrees (some c) none db a l = inl (refl, refl, λ q. cc)
  unless_refused-Agrees (some c) (some m) db a l = inr (inr (c, refl))
  unless_refused-Agrees none (some m) db a l = elim (MarkerState-cases m.state) [
    | inl i ↦ inr (inl i)
    | inr c ↦ inl (rw c (refl, refl, λ q. cc))
  ]

  looked-Agrees :
      (row : Option Marker) (db : Database) (a : Answer (Unit {0})) (l : Lookup)
      (r : Checked (Option Consumer × Stream))
      → IsUntouched db (looked isoformat fromisoformat row db a l r)
        ⊎ ((o : Option Consumer) × (s : Stream) × (r ≡ passed (o, s)) × Agrees row o)
  looked-Agrees row db a l (refused x) = inl (refl, refl, λ q. cc)
  looked-Agrees row db a l (passed (o, s)) = elim (unless_refused-Agrees o row db a l) [
    | inl u ↦ inl u
    | inr g ↦ inr (o, s, refl, g)
  ]

  -- A run either stops with an error before it calls `open` and leaves the database as it was, or
  -- the marker of its database and the durable of its first lookup belong together: neither is
  -- there, or the marker is an intent, or both are there. The second lookup is not constrained.
  pub reconcile-Agrees :
      (db : Database) (first second : Lookup) (open_answer : Answer (Unit {0}))
      → IsUntouched db (reconcile isoformat fromisoformat db first open_answer second)
        ⊎ ((o : Option Consumer) × (s : Stream) × (live first ≡ passed (o, s)) × Agrees db.row o)
  unfolding reconcile
  reconcile-Agrees db first second open_answer = elim (marker_of db db.row refl) [
    | inl y ↦ rw y (looked-Agrees db.row db open_answer second (live first))
    | inr (e, n) ↦ inl (rw n (refl, refl, λ q. cc))
  ]

  -- A run over an intent stops at its first failure with the intent still there.
  after_bind-stops :
      (m : Marker) (db : Database) (r : Checked (Option Consumer × Stream))
      → m.state ≡ intent
      → (after_bind isoformat fromisoformat m db r).error ≢ none
      → (after_bind isoformat fromisoformat m db r).database ≡ db
  after_bind-stops m db (refused x) i e = refl
  after_bind-stops m db (passed (none, s)) i e = refl
  after_bind-stops m db (passed (some c, s)) i e = elim (Option-cases (assert_live_shape c s)) [
    | inl q ↦ absurd (rw (q, i) at e refl)
    | inr (x, q) ↦ rw q refl
  ]

  bind-stops :
      (a : Answer (Unit {0})) (m : Marker) (db : Database) (l : Lookup)
      → m.state ≡ intent
      → (bind isoformat fromisoformat a m db l).error ≢ none
      → (bind isoformat fromisoformat a m db l).database ≡ db
  bind-stops (answered u) m db l i e = after_bind-stops m db (live l) i e
  bind-stops not_found m db l i e = refl
  bind-stops raised m db l i e = refl

  -- A first run over an empty database that fails once it wrote leaves the intent alone.
  reconcile-first :
      (db : Database) (first second : Lookup) (open_answer : Answer (Unit {0})) (s : Stream)
      → marker db ≡ passed none
      → live first ≡ passed (none, s)
      → (reconcile isoformat fromisoformat db first open_answer second).error ≢ none
      → (reconcile isoformat fromisoformat db first open_answer second).database ≡ with_intent db
  unfolding reconcile refusal
  reconcile-first db first second open_answer s row gone e =
      rw (row, gone, reread_lem db open_answer second row)
        (bind-stops open_answer (intent_row stream durable) (with_intent db) second refl
          (rw (row, gone, reread_lem db open_answer second row) at e))

  reconcile-intent :
      (db : Database) (first second : Lookup) (o : Option Consumer) (c : Consumer) (s t : Stream)
      → marker db ≡ passed (some (intent_row stream durable))
      → live first ≡ passed (o, t)
      → live second ≡ passed (some c, s)
      → assert_live_shape c s ≡ none
      → reconcile isoformat fromisoformat db first (answered tt) second
        ≡ after_open (finalize isoformat db c.created_at s.created_at) none
  unfolding reconcile refusal
  reconcile-intent db first second none c s t row l l' shape = rw (row, l, l', shape) refl
  reconcile-intent db first second (some x) c s t row l l' shape = rw (row, l, l', shape) refl

  -- A first run that fails part-way, at whatever await, does not stand in the way of the next: with
  -- the durable created by the failed run or not, a run in which `open` answers and the second
  -- lookup finds a durable of the right shape raises nothing and leaves a created marker.
  pub reconcile_again :
      (db : Database) (first second first' second' : Lookup) (open_answer : Answer (Unit {0}))
      (o : Option Consumer) (c : Consumer) (s t u : Stream)
      → marker db ≡ passed none
      → live first ≡ passed (none, t)
      → (reconcile isoformat fromisoformat db first open_answer second).error ≢ none
      → live first' ≡ passed (o, u)
      → live second' ≡ passed (some c, s)
      → assert_live_shape c s ≡ none
      → reconcile isoformat fromisoformat
          (reconcile isoformat fromisoformat db first open_answer second).database
          first'
          (answered tt)
          second'
        ≡ after_open
            (record db { row = some (created_row isoformat c.created_at s.created_at) })
            none
  unfolding finalize
  reconcile_again db first second first' second' open_answer o c s t u row gone e l l' shape =
      let left = reconcile-first db first second open_answer t row gone e in
      rw left (
        reconcile-intent (with_intent db) first' second' o c s u
          (marker-with_row db none (some (intent_row stream durable)) row) l l' shape)

  restamp_lem :
      (o : Option StateError) (db db' : Database) (c : Consumer) (s : Stream)
      → restamp isoformat fromisoformat o db c s ≡ passed (false, db')
      → (o ≡ none)
        × (record db { row = some (created_row isoformat c.created_at s.created_at) } ≡ db')
  restamp_lem (some x) db db' c s e = cc
  restamp_lem none db db' c s e = (refl, cc)

  accept_lem :
      (k : Bool) (db db' : Database) (r : Checked (Option Consumer × Stream))
      → accept isoformat fromisoformat k db r ≡ passed (false, db')
      → (c : Consumer) × (s : Stream) × (r ≡ passed (some c, s))
        × (assert_live_shape c s ≡ none)
        × (record db { row = some (created_row isoformat c.created_at s.created_at) } ≡ db')
  accept_lem k db db' (refused x) e = cc
  accept_lem true db db' (passed (none, s)) e = cc
  accept_lem false db db' (passed (none, s)) e = cc
  accept_lem k db db' (passed (some c, s)) e =
      let (shape, row) = restamp_lem (assert_live_shape c s) db db' c s e in
      (c, s, refl, shape, row)

  same_generation-created_row :
      ((n : ℕ) → fromisoformat (isoformat n) ≡ some n)
      → (c : Consumer) (s : Stream)
      → same_generation fromisoformat (created_row isoformat c.created_at s.created_at) c s ≡ none
  unfolding same_generation
  same_generation-created_row inverse c s =
      rw (inverse c.created_at, inverse s.created_at, text_eq_refl stream, text_eq_refl durable)
        (ground arith)

  reconcile-created :
      ((n : ℕ) → fromisoformat (isoformat n) ≡ some n)
      → (db : Database) (first second : Lookup) (c c' : Consumer) (s s' : Stream)
      → marker db ≡ passed (some (created_row isoformat c.created_at s.created_at))
      → live first ≡ passed (some c', s')
      → live second ≡ passed (some c, s)
      → assert_live_shape c s ≡ none
      → reconcile isoformat fromisoformat db first (answered tt) second ≡ after_open db none
  unfolding reconcile refusal
  reconcile-created inverse db first second c c' s s' row l l' shape =
      rw (row, l, l', shape, same_generation-created_row inverse c s) refl

  unless_missing_lem :
      (b : Bool) (r : Checked (Bool × Database)) (p : Bool × Database)
      → unless_missing b r ≡ passed p
      → (b ≡ true) × (r ≡ passed p)
  unless_missing_lem true r p e = (refl, e)
  unless_missing_lem false (refused x) p e = cc
  unless_missing_lem false (passed q) p e = cc

  -- A durable that `accept_reset` stamped anew is bound by the next run, which leaves the marker.
  pub accept_reset-reconcile :
      ((n : ℕ) → fromisoformat (isoformat n) ≡ some n)
      → (acknowledge_traffic_gap : Bool) (db db' : Database) (first l : Lookup) (c : Consumer)
        (s : Stream)
      → accept_reset isoformat fromisoformat acknowledge_traffic_gap db l ≡ passed (false, db')
      → live first ≡ passed (some c, s)
      → reconcile isoformat fromisoformat db' first (answered tt) l ≡ after_open db' none
  unfolding accept_reset marker
  accept_reset-reconcile inverse k db db' first l c' s' e found =
      let (table, e') =
        unless_missing_lem (contains_text db.tables marker_table)
          (accept isoformat fromisoformat k db (live l)) (false, db') e in
      let (c, s, lives, shape, row) = accept_lem k db db' (live l) e' in
      subst (λ d. reconcile isoformat fromisoformat d first (answered tt) l ≡ after_open d none) row
        (reconcile-created inverse
          (record db { row = some (created_row isoformat c.created_at s.created_at) }) first l c c'
          s s' (rw table refl) found lives shape)
