-- ===== src/Coordinator/Lock.antt =====
-- `acquire_instance_lock` of yugo/coordinator.py. The record `Start` holds what the file system and
-- sqlite answer; the connection is the state file as it is seen through it.
use yugo.Base.{
  ℕ, Text, codes, text_eq, strip, Bool, true, false, not, ◌&&◌, ◌||◌, Option, none, some, List, [],
  ◌∷◌, if◌then◌else◌, find_offset, ◌≡◌, ◌⊎◌,
}
use yugo.Base.Int.{is_int}
use yugo.Coordinator.Mode.{is_blank, is_unreliable_filesystem}
use yugo.Coordinator.State.{
  Database, DatabasePreflight, Checked, refused, passed, StateError, preflight, create_table,
  instance_table,
}
pub mod Acquired

pub data LockError : Type 0 where
  state_path_empty dir_unwritable fs_unreliable unopenable already_running unwritable : LockError
  -- What `preflight` raises.
  of_state : StateError → LockError

-- How a statement ends: `operational` is an OperationalError with its text, `database_error` any
-- other `sqlite3.Error`.
pub data Sql : Type 0 where
  done database_error : Sql
  operational : Text → Sql

pub record Instance : Type 0 where
  pub pid : ℕ
  pub acquired_at : Text

pub record Connection : Type 0 where
  pub database : Database
  pub holder : Option Instance
  pub is_open : Bool

pub record Start : Type 0 where
  pub mkdir : Bool
  pub filesystem : Option Text
  pub connects : Bool
  pub pragma_locking : Sql
  pub reading : Sql  -- the queries of `preflight`
  pub previous : Sql
  pub creating : Sql
  pub inserting : Sql
  pub me : Instance

pub record InstanceLock : Type 0 where
  pub filesystem : Option Text
  pub state_preflight : DatabasePreflight
  pub previous_instance : Option Instance

pub data Acquisition : Type 0 where
  held : InstanceLock → Acquisition
  failed : LockError → Acquisition

abbrev is_in : Text → Text → Bool
is_in word t = elim (find_offset word t) [ none ↦ false | some n ↦ true ]

-- The two `except` clauses for sqlite's errors.
unfoldable pub error_of : (Text → Text) → Sql → LockError
error_of lower (operational t) =
    if is_in (codes "locked") (lower t) || is_in (codes "busy") (lower t)
    then already_running
    else unwritable
error_of lower done = unwritable
error_of lower database_error = unwritable

abbrev pub close : Connection → Connection
close c = record c { is_open = false }

abbrev pub create_instance : Connection → Connection
create_instance c = record c {
  database = record c.database { tables = create_table instance_table c.database.tables };
}

abbrev pub insert_instance : Instance → Connection → Connection
insert_instance me c = record c { holder = some me }

module _ (lower : Text → Text) (s : Start) where
  abbrev pub after : Sql → Connection → Acquisition × Connection → Acquisition × Connection
  after done c r = r
  after (operational t) c r = (failed (error_of lower (operational t)), close c)
  after database_error c r = (failed (error_of lower database_error), close c)

  -- The statements that write.
  abbrev pub write : DatabasePreflight → Option Instance → Connection → Acquisition × Connection
  write p before c = after s.creating c (
      after s.inserting (create_instance c) (
        held
            (record { filesystem = s.filesystem; state_preflight = p; previous_instance = before }),
        insert_instance s.me (create_instance c),
      ))

  -- The row of the previous instance: its OperationalError counts as no row.
  abbrev pub read_previous : Sql → DatabasePreflight → Connection → Acquisition × Connection
  read_previous done p c = write p c.holder c
  read_previous (operational t) p c = write p none c
  read_previous database_error p c = (failed (error_of lower database_error), close c)

  abbrev pub on_previous : Bool → DatabasePreflight → Connection → Acquisition × Connection
  on_previous true p c = read_previous s.previous p c
  on_previous false p c = write p none c

  abbrev pub on_preflight : Checked DatabasePreflight → Connection → Acquisition × Connection
  on_preflight (refused e) c = (failed (of_state e), close c)
  on_preflight (passed p) c = on_previous (p.legacy_6b1 || is_int p.version 1) p c

  abbrev pub on_open : Connection → Acquisition × Connection
  on_open c = after s.pragma_locking c (after s.reading c (on_preflight (preflight c.database) c))

  abbrev pub stop_if :
      Bool → LockError → Connection → Acquisition × Connection → Acquisition × Connection
  stop_if true e c r = (failed e, c)
  stop_if false e c r = r

  -- `c` is the file before it is opened.
  unfoldable pub acquire_instance_lock :
      Text → (allow_unreliable_fs : Bool) → Connection → Acquisition × Connection
  acquire_instance_lock state_path allow_unreliable_fs c =
      stop_if (is_blank (strip state_path)) state_path_empty c (
        stop_if (not s.mkdir) dir_unwritable c (
          stop_if (not allow_unreliable_fs && is_unreliable_filesystem lower s.filesystem)
            fs_unreliable c
            (stop_if (not s.connects) unopenable c (on_open (record c { is_open = true })))))
