-- ===== src/Coordinator/Lock/Acquired.antt =====
-- What `acquire_instance_lock` of yugo/coordinator.py leaves, held or refused.
use yugo.Base.{
  Text, strip, ◌≡◌, ◌⊎◌, inl, inr, refl, Bool, true, false, not, ◌&&◌, ◌||◌, Option, none, some,
}
use yugo.Base.Int.{is_int}
use yugo.Coordinator.Mode.{is_blank, is_unreliable_filesystem}
use yugo.Coordinator.State.{
  Database, DatabasePreflight, Checked, refused, passed, preflight, create_table, instance_table,
}
use yugo.Coordinator.Lock.{
  LockError, Instance, Sql, done, database_error, operational, Connection, Start, Acquisition, held,
  failed, create_instance, after, write, read_previous, on_previous, on_preflight, on_open, stop_if,
  acquire_instance_lock,
}

-- The file is as it was, or the preflight passed and only the instance table was added.
abbrev pub IsKept : Database → Database → Type 0
IsKept db db' =
    (db' ≡ db)
    ⊎ ((p : DatabasePreflight) × (preflight db ≡ passed p)
        × (db' ≡ record db { tables = create_table instance_table db.tables }))

module _ (lower : Text → Text) (s : Start) where
  -- From the opening of the file on.
  abbrev pub Opened : Database → Option Instance → Acquisition × Connection → Type 0
  Opened db holder (held l, c') =
      (preflight db ≡ passed l.state_preflight)
      × (c'.is_open ≡ true)
      × (c'.holder ≡ some s.me)
      × (c'.database ≡ record db { tables = create_table instance_table db.tables })
  Opened db holder (failed e, c') =
      (c'.is_open ≡ false) × (c'.holder ≡ holder) × IsKept db c'.database

  after-Opened :
      (q : Sql) (c k : Connection) (r : Acquisition × Connection)
      → k.holder ≡ c.holder
      → IsKept c.database k.database
      → Opened c.database c.holder r
      → Opened c.database c.holder (after lower s q k r)
  after-Opened done c k r h d o = o
  after-Opened (operational t) c k r h d o = (refl, h, d)
  after-Opened database_error c k r h d o = (refl, h, d)

  write-Opened :
      (p : DatabasePreflight) (before : Option Instance) (c : Connection)
      → c.is_open ≡ true
      → preflight c.database ≡ passed p
      → Opened c.database c.holder (write lower s p before c)
  write-Opened p before c i e =
      after-Opened s.creating c c _ refl (inl refl) (
        after-Opened s.inserting c (create_instance c) _ refl (inr (p, e, refl)) (e, i, refl, refl))

  read_previous-Opened :
      (q : Sql) (p : DatabasePreflight) (c : Connection)
      → c.is_open ≡ true
      → preflight c.database ≡ passed p
      → Opened c.database c.holder (read_previous lower s q p c)
  read_previous-Opened done p c i e = write-Opened p c.holder c i e
  read_previous-Opened (operational t) p c i e = write-Opened p none c i e
  read_previous-Opened database_error p c i e = (refl, refl, inl refl)

  on_previous-Opened :
      (b : Bool) (p : DatabasePreflight) (c : Connection)
      → c.is_open ≡ true
      → preflight c.database ≡ passed p
      → Opened c.database c.holder (on_previous lower s b p c)
  on_previous-Opened true p c i e = read_previous-Opened s.previous p c i e
  on_previous-Opened false p c i e = write-Opened p none c i e

  on_preflight-Opened :
      (r : Checked DatabasePreflight) (c : Connection)
      → c.is_open ≡ true
      → preflight c.database ≡ r
      → Opened c.database c.holder (on_preflight lower s r c)
  on_preflight-Opened (refused x) c i e = (refl, refl, inl refl)
  on_preflight-Opened (passed p) c i e =
      on_previous-Opened (p.legacy_6b1 || is_int p.version 1) p c i e

  on_open-Opened :
      (c : Connection) → c.is_open ≡ true → Opened c.database c.holder (on_open lower s c)
  on_open-Opened c i = after-Opened s.pragma_locking c c _ refl (inl refl) (
      after-Opened s.reading c c _ refl (inl refl)
        (on_preflight-Opened (preflight c.database) c i refl))

  -- What holds of a start at a file that is not open yet.
  abbrev pub IsSafe : Text → Bool → Connection → Acquisition × Connection → Type 0
  IsSafe path allow c (held l, c') =
      (is_blank (strip path) ≡ false)
      × ((allow ≡ true) ⊎ (is_unreliable_filesystem lower s.filesystem ≡ false))
      × Opened c.database c.holder (held l, c')
  IsSafe path allow c (failed e, c') = Opened c.database c.holder (failed e, c')

  stop_if-IsSafe :
      (b : Bool) (x : LockError) (path : Text) (allow : Bool) (c : Connection)
      (r : Acquisition × Connection)
      → c.is_open ≡ false
      → (b ≡ false → IsSafe path allow c r)
      → IsSafe path allow c (stop_if lower s b x c r)
  stop_if-IsSafe true x path allow c r i h = (i, refl, inl refl)
  stop_if-IsSafe false x path allow c r i h = h refl

  allowed :
      (allow unreliable : Bool)
      → (not allow && unreliable) ≡ false
      → (allow ≡ true) ⊎ (unreliable ≡ false)
  allowed true unreliable h = inl refl
  allowed false unreliable h = inr h

  Opened-IsSafe :
      (path : Text) (allow : Bool) (c : Connection) (r : Acquisition × Connection)
      → is_blank (strip path) ≡ false
      → (allow ≡ true) ⊎ (is_unreliable_filesystem lower s.filesystem ≡ false)
      → Opened c.database c.holder r
      → IsSafe path allow c r
  Opened-IsSafe path allow c (held l, c') b a o = (b, a, o)
  Opened-IsSafe path allow c (failed e, c') b a o = o

  -- The lock is held only on a path that is not blank, on a file system that is reliable unless the
  -- operator allows another, over a state that the preflight passes, with this instance as the
  -- holder; the state gains the instance table and nothing else. A refused start leaves no open
  -- connection and the former holder, and writes nothing to a state that the preflight refuses.
  pub acquire_instance_lock-IsSafe :
      (path : Text) (allow : Bool) (c : Connection)
      → c.is_open ≡ false
      → IsSafe path allow c (acquire_instance_lock lower s path allow c)
  unfolding acquire_instance_lock
  acquire_instance_lock-IsSafe path allow c i =
      stop_if-IsSafe (is_blank (strip path)) _ path allow c _ i (λ named.
        stop_if-IsSafe (not s.mkdir) _ path allow c _ i (λ made.
          stop_if-IsSafe (not allow && is_unreliable_filesystem lower s.filesystem) _ path allow c _
            i
            (λ safe. stop_if-IsSafe (not s.connects) _ path allow c _ i (λ connected.
              Opened-IsSafe path allow c _ named
                (allowed allow (is_unreliable_filesystem lower s.filesystem) safe)
                (on_open-Opened (record c { is_open = true }) refl)))))
