-- ===== src/Dedup/Lease.antt =====
-- Leases: who holds a claim, for how long, and what a caller that has lost it can still do.
use yugo.Base.{
  ℕ, ◌+◌, ◌/◌, ◌≤◌, ◌<◌, Text, text_eq, text_eq_iff, text_eq_refl, ◌≡◌, ◌≢◌, refl, true, false,
  ◌&&◌, Option, none, some, [], ◌∷◌, arith, ltb, if◌then◌else◌, Option-cases, inl, inr,
}
use yugo.Dedup.Table.{Row, pending, ms, find, held_by}
use yugo.Dedup.Clock.{
  ok, LeaseClock, lease_clock, lease_ms, max_mono_ms, read_boot_id, valid_boot_id, is_legacy,
  valid_metadata,
}
use yugo.Dedup.Find.{IsUnique, find_id}
use yugo.Dedup.Store.{
  Store, Env, Claim, granted, refused, claim, renew, complete, release, eligible, finish,
}
use yugo.Dedup.Spec.{claim_spec, renew_spec, complete_spec, release_spec}
use yugo.Dedup.Run.{claim-IsUnique}
use yugo.Dedup.Ops.{
  seen, Result-cases, claim-claim_spec, renew-renew_spec, complete-complete_spec,
  release-release_spec,
}

-- The call reads the lease clock `c`, and the database accepts its transaction.
pub record Runs (env : Env) (lease : ℕ) (c : LeaseClock) : Type 0 where
  pub begun : env.begin_ok ≡ true
  pub commits : env.commit_ok ≡ true
  pub reads : lease_clock env.boot_file env.mono_ns lease ≡ ok c

read-valid : (f : Option Text) (b : Text) → read_boot_id f ≡ ok b → valid_boot_id b ≡ true
unfolding read_boot_id
read-valid none b h = cc
read-valid (some file) b h = ground arith

-- What a lease clock that was read says.
pub record IsReading (lease : ℕ) (mono_ns : ℕ) (c : LeaseClock) : Type 0 where
  pub boot_valid : valid_boot_id c.boot ≡ true
  pub mono_lem : c.mono ≡ mono_ns / 1000000
  pub deadline_lem : c.deadline ≡ c.mono + lease_ms lease
  pub ahead : c.mono < c.deadline
  pub in_range : c.deadline ≤ max_mono_ms

pub lease_clock-IsReading :
    (f : Option Text) (mono_ns lease : ℕ) (c : LeaseClock)
    → lease_clock f mono_ns lease ≡ ok c
    → IsReading lease mono_ns c
unfolding lease_clock
lease_clock-IsReading f mono_ns lease c h = elim (Result-cases (read_boot_id f)) [
  | inl broken ↦ absurd (ground (arith, broken.1))
  | inr read ↦ ground (arith, read.1, read-valid f read.0 read.1)
]

valid-legacy : (b : Text) → valid_boot_id b ≡ true → is_legacy b ≡ false
unfolding valid_boot_id text_eq
valid-legacy [] h = cc
valid-legacy (x ∷ b) h = refl

-- The row is pending under lease metadata of this format: a boot id, and a deadline in it.
pub record IsLeased (r : Row) (boot : Text) (deadline : ℕ) : Type 0 where
  pub is_pending : r.state ≡ pending
  pub boot_lem : r.lease_boot_id ≡ boot
  pub until_lem : r.lease_until_mono ≡ ms deadline
  pub boot_valid : valid_boot_id boot ≡ true
  pub positive : 0 < deadline
  pub in_range : deadline ≤ max_mono_ms

module _ (env : Env) (clock : LeaseClock) (e req : Text) (s : Store) (u : IsUnique s.rows)
    (runs : Runs env s.lease clock) where
  -- The boot and the monotonic clock alone decide whether a pending row passes to the caller.
  claim_leased :
      (r : Row) (boot : Text) (deadline : ℕ)
      → find e s.rows ≡ some r
      → IsLeased r boot deadline
      → (claim env e req s).0 ≡ (
          if text_eq boot clock.boot && ltb clock.mono deadline
          then ok (refused r.req_id)
          else ok (granted r.req_id env.token))
  unfolding claim_spec eligible valid_metadata
  claim_leased r boot deadline h l =
      ground (arith, claim-claim_spec env e req s u, valid-legacy boot l.boot_valid)

  -- A claim that is granted leaves the caller's lease in the table.
  claim-granted :
      (c : Claim)
      → (claim env e req s).0 ≡ ok c
      → c.duplicate ≡ false
      → (r : Row) × (find e (claim env e req s).1.rows ≡ some r)
        × IsLeased r clock.boot clock.deadline
        × (r.lease_owner ≡ env.token)
        × (c ≡ granted r.req_id env.token)
  unfolding claim_spec eligible valid_metadata
  claim-granted c h g =
      let reading = lease_clock-IsReading env.boot_file env.mono_ns s.lease clock runs.reads in
      let spec = claim-claim_spec env e req s u in
      elim (Option-cases (find e (claim env e req s).1.rows)) [
        | inl gone ↦ absurd (ground (arith, spec, Option-cases (find e s.rows)))
        | inr left ↦ (
          left.0,
          left.1,
          ground (arith, spec, reading, left.1, Option-cases (find e s.rows)),
          ground (arith, spec, left.1),
          ground (arith, spec, left.1),
        )
      ]

-- On a table with its primary key intact, while neither call's transaction fails and both read
-- the same boot id: once a claim is granted, a rival's claim of the same id is refused until the
-- rival's monotonic clock has reached the deadline of the lease, and from then on it is granted,
-- under the request id of the first.
pub lease_exclusive :
    (env rival : Env) (clock clock' : LeaseClock) (e req req' : Text) (s : Store) (c : Claim)
    → IsUnique s.rows
    → Runs env s.lease clock
    → (claim env e req s).0 ≡ ok c
    → c.duplicate ≡ false
    → Runs rival (claim env e req s).1.lease clock'
    → clock'.boot ≡ clock.boot
    → (claim rival e req' (claim env e req s).1).0 ≡ (
        if ltb clock'.mono (clock.mono + lease_ms s.lease)
        then ok (refused c.req_id)
        else ok (granted c.req_id rival.token))
lease_exclusive env rival clock clock' e req req' s c u runs h g runs' same =
    let (r, found, leased, owner, c_eq) = claim-granted env clock e req s u runs c h g in
    let reading = lease_clock-IsReading env.boot_file env.mono_ns s.lease clock runs.reads in
    let second =
      claim_leased rival clock' e req' (claim env e req s).1 (claim-IsUnique env e req s u) runs' r
        clock.boot clock.deadline found leased in
    ground (arith, second, reading, text_eq_iff clock.boot clock'.boot)

-- On a table with its primary key intact, the result of a claim of a leased row that meets no
-- fault is the same whatever the wall clock says.
pub wall_clock_irrelevant :
    (env : Env) (clock : LeaseClock) (e req : Text) (s : Store) (r : Row) (boot : Text)
    (deadline now : ℕ)
    → IsUnique s.rows
    → Runs env s.lease clock
    → find e s.rows ≡ some r
    → IsLeased r boot deadline
    → (claim (record env { now = now }) e req s).0 ≡ (claim env e req s).0
wall_clock_irrelevant env clock e req s r boot deadline now u runs h l =
    let later : Env = record env { now = now } in
    let runs' : Runs later s.lease clock = record {
      begun = runs.begun;
      commits = runs.commits;
      reads = runs.reads;
    } in
    cc (
      claim_leased env clock e req s u runs r boot deadline h l,
      claim_leased later clock e req s u runs' r boot deadline h l,
    )

-- What the operations of `owner` on the id `e` return, and that they leave the row `r` there.
pub record IsFenced (env : Env) (e owner : Text) (r : Row) (s : Store) : Type 0 where
  pub completes : seen e (complete true e owner s) ≡ (ok false, some r)
  pub releases : seen e (release true e owner s) ≡ (ok false, some r)
  pub renews : seen e (renew env e owner s) ≡ (ok false, some r)

-- A row that `owner` does not hold is fenced from it.
pub IsFenced-of_held :
    (env : Env) (clock : LeaseClock) (e owner : Text) (s : Store) (r : Row)
    → IsUnique s.rows
    → Runs env s.lease clock
    → find e s.rows ≡ some r
    → held_by e owner r ≡ false
    → IsFenced env e owner r s
unfolding complete_spec release_spec renew_spec
IsFenced-of_held env clock e owner s r u runs h n = record {
  completes = ground (arith, complete-complete_spec true e owner s u);
  releases = ground (arith, release-release_spec true e owner s u);
  renews = ground (arith, renew-renew_spec env e owner s u);
}

-- On a table with its primary key intact, while no transaction fails: right after a claim is
-- granted, completing, releasing or renewing it under any other owner token returns False and
-- leaves the holder's row, and the holder can complete it.
pub stale_owner-IsFenced :
    (env later : Env) (clock clock' : LeaseClock) (e req other : Text) (s : Store) (c : Claim)
    → IsUnique s.rows
    → Runs env s.lease clock
    → (claim env e req s).0 ≡ ok c
    → c.duplicate ≡ false
    → Runs later (claim env e req s).1.lease clock'
    → env.token ≢ other
    → (r : Row) × (find e (claim env e req s).1.rows ≡ some r)
      × IsFenced later e other r (claim env e req s).1
      × (seen e (complete true e env.token (claim env e req s).1) ≡ (ok true, some (finish r)))
unfolding complete_spec
stale_owner-IsFenced env later clock clock' e req other s c u runs h g runs' n =
    let s' = (claim env e req s).1 in
    let u' = claim-IsUnique env e req s u in
    let (r, found, leased, owner, c_eq) = claim-granted env clock e req s u runs c h g in
    (
      r,
      found,
      IsFenced-of_held later clock' e other s' r u' runs' found
          (ground (arith, text_eq_iff r.lease_owner other, owner)),
      ground (
        arith,
        complete-complete_spec true e env.token s' u',
        text_eq_refl env.token,
        text_eq_iff r.envelope_id e,
        find_id e s'.rows r found,
      ),
    )
