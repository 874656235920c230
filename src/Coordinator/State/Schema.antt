-- ===== src/Coordinator/State/Schema.antt =====
-- The schema's `preflight` and `migrate`.
use yugo.Base.{
  Text, text_eq_refl, true, false, List, contains_text, Option, ◌≡◌, inl, inr, refl, sym, ◌∙◌, ap,
  ==_iff, arith, if◌then◌else◌, Bool-cases,
}
use yugo.Base.Int.{ℤ, pos, negsuc, is_int, at_least}
use yugo.Coordinator.State.{
  Database, Marker, passed, DatabasePreflight, preflight, migrate, create_table, or_intent, marker,
  marker_table, instance_table,
}

contains-create_table :
    (t u : Text) (tables : List Text)
    → contains_text tables u ≡ true
    → contains_text (create_table t tables) u ≡ true
unfolding create_table contains_text
contains-create_table t u tables h = elim (Bool-cases (contains_text tables t)) [
  | inl y ↦ rw y h
  | inr n ↦ rw (n, h) (ground arith)
]

created-contains : (t : Text) (tables : List Text) → contains_text (create_table t tables) t ≡ true
unfolding create_table contains_text
created-contains t tables = elim (Bool-cases (contains_text tables t)) [
  | inl y ↦ rw y y
  | inr n ↦ rw (n, text_eq_refl t) refl
]

is_int-one : (v : ℤ) → is_int v 1 ≡ true → v ≡ pos 1
unfolding is_int
is_int-one (pos n) h = ap pos ((==_iff n 1).0 h)
is_int-one (negsuc n) h = cc

preflight_lem :
    (db : Database) (p : DatabasePreflight) → preflight db ≡ passed p → p.version ≡ db.version
unfolding preflight
preflight_lem db p e = ground arith

-- A database of version 1 always passes.
preflight-one :
    (db : Database)
    → db.version ≡ pos 1
    → preflight db ≡ passed (record { version = pos 1; legacy_6b1 = false })
unfolding preflight is_int at_least
preflight-one db h = rw h refl

-- The row that a database of version 0 and one of version 1 have after the migration.
pub upgraded : DatabasePreflight → Option Marker → Option Marker
upgraded p row = if is_int p.version 1 then row else if p.legacy_6b1 then or_intent row else row

-- A database that passes the preflight and whose tables stand if it is of version 1 is, when no
-- statement raises, of version 1 with both tables and passes again; its marker is kept, and one of
-- 6b-1 that had none has an intent. A second migration changes nothing.
pub migrate-preflight :
    (db : Database) (p : DatabasePreflight)
    → preflight db ≡ passed p
    → (is_int db.version 1 ≡ true
        → (contains_text db.tables instance_table ≡ true)
          × (contains_text db.tables marker_table ≡ true))
    → (db' : Database) × (migrate false db p ≡ passed db')
      × (marker db' ≡ passed (upgraded p db.row))
      × (contains_text db'.tables instance_table ≡ true)
      × (preflight db' ≡ passed (record { version = pos 1; legacy_6b1 = false }))
unfolding migrate marker upgraded
migrate-preflight db p e tables = elim (Bool-cases (is_int p.version 1)) [
  | inl y ↦
      let v = is_int-one p.version y in
      let w = sym (preflight_lem db p e) ∙ v in
      let (there, marked) = tables (rw (sym (preflight_lem db p e)) y) in
      (db, rw y refl, rw (marked, y) refl, there, preflight-one db w)
  | inr n ↦
      let kept =
        contains-create_table marker_table instance_table (create_table instance_table db.tables)
          (created-contains instance_table db.tables) in
      (
        record {
          version = pos 1;
          tables = create_table marker_table (create_table instance_table db.tables);
          row = if p.legacy_6b1 then or_intent db.row else db.row;
        },
        rw n refl,
        rw (created-contains marker_table (create_table instance_table db.tables), n) refl,
        kept,
        preflight-one
            (record {
              version = pos 1;
              tables = create_table marker_table (create_table instance_table db.tables);
              row = if p.legacy_6b1 then or_intent db.row else db.row;
            })
            refl,
      )
]
