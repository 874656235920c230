-- ===== src/Dedup/Store.antt =====
-- `DurableEnvelopeDedupStore` of yugo/dedup_store.py: `claim`, `renew`, `complete`, `release`,
-- `prune` and `prune_idle`. Each returns its result and the new store.
use yugo.Base.{
  ℕ, zero, suc, ◌+◌, ◌-◌, ◌*◌, ◌%◌, min, Text, text_eq, Bool, true, false, not, ◌&&◌, ◌||◌, ◌==◌,
  Option, none, some, [], ◌∷◌, ltb, leb, if◌then◌else◌, count_where, map_where,
}
use yugo.Dedup.Table.{
  pending, completed, ms, Row, Table, is_pending, find, held_by, is_stale, delete_where,
  insert_or_ignore, delete_oldest,
}
use yugo.Dedup.Clock.{
  sqlite, verification, Result, ok, err, LeaseClock, lease_clock, is_legacy, valid_metadata,
  mono_le, mono_eq,
}

pub record Store : Type 0 where
  pub rows : Table
  pub claims : ℕ
  pub ttl : ℕ  -- microseconds
  pub lease : ℕ  -- microseconds

-- What one call reads from outside: the wall clock, the boot id's file, the monotonic clock, the
-- fresh owner token, whether BEGIN IMMEDIATE succeeds, and whether all that follows it up to and
-- with COMMIT does.
pub record Env : Type 0 where
  pub now : ℕ
  pub boot_file : Option Text
  pub mono_ns : ℕ
  pub token : Text
  pub begin_ok : Bool
  pub commit_ok : Bool

-- The result of `claim`: `(duplicate, req_id, owner)`.
pub record Claim : Type 0 where
  pub duplicate : Bool
  pub req_id : Text
  pub owner : Option Text

abbrev pub prune_every : ℕ
prune_every = 256

abbrev pub prune_limit : ℕ
prune_limit = 100

abbrev pub prune_budget : ℕ
prune_budget = 4 * prune_every

-- The loop of `prune`, with fuel for its rounds.
unfoldable pub prune_loop : ℕ → ℕ → ℕ → ℕ → Table → ℕ → Table × ℕ
prune_loop zero now ttl budget t deleted = (t, deleted)
prune_loop (suc fuel) now ttl budget t deleted =
    let batch = min prune_limit (budget - deleted) in
    let r = delete_oldest batch now ttl t in
    let rest = prune_loop fuel now ttl budget r.0 (deleted + r.1) in
    if ltb deleted budget
    then if ltb r.1 batch then (r.0, deleted + r.1) else rest
    else (t, deleted)

unfoldable pub prune : ℕ → ℕ → ℕ → Table → Table × ℕ
prune now ttl budget t = prune_loop (suc budget) now ttl budget t 0

abbrev pub fresh_row : Env → LeaseClock → ℕ → Text → Text → Row
fresh_row env clock lease eid req = record {
  envelope_id = eid;
  first_seen = env.now;
  req_id = req;
  state = pending;
  lease_owner = env.token;
  lease_until = env.now + lease;
  lease_boot_id = clock.boot;
  lease_until_mono = ms clock.deadline;
}

-- May the claim of a pending row be taken over? By the wall clock for a legacy row, by boot
-- identity and the monotonic clock for any other.
unfoldable pub lease_over : Env → LeaseClock → Row → Bool
lease_over env clock r =
    if is_legacy r.lease_boot_id
    then leb r.lease_until env.now
    else (not (text_eq r.lease_boot_id clock.boot) || mono_le r.lease_until_mono clock.mono)

unfoldable pub eligible : Env → LeaseClock → Row → Result Bool
unfolding lease_over
eligible env clock r =
    if is_pending r.state
    then (if valid_metadata r.lease_boot_id r.lease_until_mono
        then ok (lease_over env clock r)
        else err verification)
    else ok false

-- The WHERE of the takeover: the row as it was read.
unfoldable pub as_read : Row → Row → Bool
as_read r s =
    text_eq s.envelope_id r.envelope_id
    && (is_pending s.state
        && (text_eq s.lease_owner r.lease_owner
            && (s.lease_until == r.lease_until
                && (text_eq s.lease_boot_id r.lease_boot_id
                    && mono_eq s.lease_until_mono r.lease_until_mono))))

abbrev pub retake : Env → LeaseClock → ℕ → Row → Row
retake env clock lease s = record s {
  lease_owner = env.token;
  lease_until = env.now + lease;
  lease_boot_id = clock.boot;
  lease_until_mono = ms clock.deadline;
}

abbrev pub granted : Text → Text → Claim
granted req owner = record { duplicate = false; req_id = req; owner = some owner }

abbrev pub refused : Text → Claim
refused req = record { duplicate = true; req_id = req; owner = none }

unfoldable pub take_over : Env → LeaseClock → ℕ → Row → Table → Claim × Table
unfolding as_read
take_over env clock lease r t = (
  if count_where (as_read r) t == 1 then granted r.req_id env.token else refused r.req_id,
  map_where (as_read r) (retake env clock lease) t,
)

-- The claim of an id that the table holds already.
unfoldable pub claim_existing : Env → LeaseClock → ℕ → Row → Table → Result (Claim × Table)
unfolding eligible take_over
claim_existing env clock lease r t = elim (eligible env clock r) [
  | err e ↦ err e
  | ok true ↦ ok (take_over env clock lease r t)
  | ok false ↦ ok (refused r.req_id, t)
]

-- INSERT OR IGNORE and what follows it in `claim`.
unfoldable pub claim_inserted : Env → LeaseClock → ℕ → Text → Text → Table → Result (Claim × Table)
unfolding claim_existing
claim_inserted env clock lease eid req t =
    let (t', rowcount) = insert_or_ignore (fresh_row env clock lease eid req) t in
    if rowcount == 1
    then ok (granted req env.token, t')
    else if not (rowcount == 0)
    then err verification
    else elim (find eid t') [
      | none ↦ err verification
      | some r ↦ claim_existing env clock lease r t'
    ]

-- The statements of `claim` after the sweep.
unfoldable pub claim_swept : Env → LeaseClock → ℕ → ℕ → Text → Text → Table → Result (Claim × Table)
unfolding claim_inserted
claim_swept env clock ttl lease eid req t =
    claim_inserted env clock lease eid req (delete_where (is_stale eid env.now ttl) t)

-- Every 256th claim prunes first; `claims` is the counter after its increment.
unfoldable pub swept : Env → Store → Table
swept env s =
    if (s.claims + 1) % prune_every == 0
    then (prune env.now s.ttl prune_budget s.rows).0
    else s.rows

-- COMMIT, or ROLLBACK of the table alone; `s` is the store that a rollback leaves.
unfoldable pub conclude {ℓ} : {A : Type ℓ} → Env → Store → Result (A × Table) → Result A × Store
conclude env s (err e) = (err e, s)
conclude env s (ok (a, t)) =
    if env.commit_ok then (ok a, record s { rows = t }) else (err sqlite, s)

unfoldable pub claim : Env → Text → Text → Store → Result Claim × Store
unfolding claim_swept swept conclude
claim env eid req s =
    if env.begin_ok
    then elim (lease_clock env.boot_file env.mono_ns s.lease) [
      | err e ↦ (err e, s)
      | ok clock ↦
          conclude env (record s { claims = s.claims + 1 })
            (claim_swept env clock s.ttl s.lease eid req (swept env s))
    ]
    else (err sqlite, s)

unfoldable pub find_held : Text → Text → Table → Option Row
find_held eid owner [] = none
find_held eid owner (r ∷ t) = if held_by eid owner r then some r else find_held eid owner t

abbrev pub extend : Env → LeaseClock → ℕ → Row → Row
extend env clock lease s = record s {
  lease_until = env.now + lease;
  lease_boot_id = clock.boot;
  lease_until_mono = ms clock.deadline;
}

unfoldable pub renew_rows : Env → LeaseClock → ℕ → Text → Text → Table → Result (Bool × Table)
unfolding find_held
renew_rows env clock lease eid owner t = elim (find_held eid owner t) [
  | none ↦ ok (false, t)
  | some r ↦
      if valid_metadata r.lease_boot_id r.lease_until_mono
      then (if is_legacy r.lease_boot_id || text_eq r.lease_boot_id clock.boot
          then ok (
            count_where (held_by eid owner) t == 1,
            map_where (held_by eid owner) (extend env clock lease) t,
          )
          else ok (false, t))
      else err verification
]

unfoldable pub renew : Env → Text → Text → Store → Result Bool × Store
unfolding renew_rows conclude
renew env eid owner s =
    if env.begin_ok
    then elim (lease_clock env.boot_file env.mono_ns s.lease) [
      | err e ↦ (err e, s)
      | ok clock ↦ conclude env s (renew_rows env clock s.lease eid owner s.rows)
    ]
    else (err sqlite, s)

abbrev pub finish : Row → Row
finish r = record r { state = completed }

-- One UPDATE, in no transaction of its own; `db_ok` says whether it succeeds.
unfoldable pub complete : Bool → Text → Text → Store → Result Bool × Store
complete db_ok eid owner s =
    if db_ok
    then (
      ok (count_where (held_by eid owner) s.rows == 1),
      record s { rows = map_where (held_by eid owner) finish s.rows },
    )
    else (err sqlite, s)

unfoldable pub release : Bool → Text → Text → Store → Result Bool × Store
release db_ok eid owner s =
    if db_ok
    then (
      ok (count_where (held_by eid owner) s.rows == 1),
      record s { rows = delete_where (held_by eid owner) s.rows },
    )
    else (err sqlite, s)

-- Does this DELETE raise? `fault` counts the statements that succeed before the one that does.
abbrev pub raises_now : Option ℕ → Bool
raises_now (some zero) = true
raises_now (some (suc n)) = false
raises_now none = false

abbrev pub later : Option ℕ → Option ℕ
later none = none
later (some n) = some (n - 1)

-- The loop of `prune` where no transaction is open, so that each DELETE is committed by itself.
unfoldable pub autocommit_loop : ℕ → ℕ → ℕ → ℕ → Option ℕ → Table → ℕ → Result ℕ × Table
autocommit_loop zero now ttl budget fault t deleted = (ok deleted, t)
autocommit_loop (suc fuel) now ttl budget fault t deleted =
    let batch = min prune_limit (budget - deleted) in
    let r = delete_oldest batch now ttl t in
    let rest = autocommit_loop fuel now ttl budget (later fault) r.0 (deleted + r.1) in
    if ltb deleted budget
    then (if raises_now fault
        then (err sqlite, t)
        else if ltb r.1 batch
        then (ok (deleted + r.1), r.0)
        else rest)
    else (ok deleted, t)

unfoldable pub prune_idle : Option ℕ → ℕ → Store → Result ℕ × Store
prune_idle fault now s =
    let r = autocommit_loop (suc prune_budget) now s.ttl prune_budget fault s.rows 0 in
    (r.0, record s { rows = r.1 })
