-- ===== src/Dedup/Completed.antt =====
-- A completed envelope stays completed for its TTL, whatever is done to the store.

use yugo.Base.{
  ℕ, ◌+◌, ◌≤◌, ◌<◌, Text, text_eq_iff, ◌≡◌, ◌≢◌, refl, ◌∙◌, true, some, List, [], ◌∷◌, arith,
  Bool-cases, Text-cases, inl, inr,
}
use yugo.Dedup.Table.{Row, Table, completed, find, held_by}
use yugo.Dedup.Clock.{Result, ok, err, LeaseClock, lease_clock}
use yugo.Dedup.Find.{IsUnique, find-delete, find-map}
use yugo.Dedup.Store
use yugo.Dedup.Store.{
  Store, Env, Claim, granted, refused, eligible, swept, conclude, claim_swept, renew_rows,
  prune_budget, extend, finish,
}
use yugo.Dedup.Spec.{claim_spec, complete_spec}
use yugo.Dedup.Refine.{table_of, claim_swept_ne}
use yugo.Dedup.Prune.{prune-eq-delete_oldest}
use yugo.Dedup.Partial.{prune_idle-deletes}
use yugo.Dedup.Swept.{delete_oldest_keeps}
use yugo.Dedup.Run.{
  Op, claim, renew, complete, release, prune_idle, step, run, step-IsUnique, run-IsUnique,
}
use yugo.Dedup.Lease.{Runs, IsFenced, IsFenced-of_held}
use yugo.Dedup.Ops.{Result-cases, swept-IsUnique, claim-claim_spec, complete-complete_spec}

-- The operation reads no wall clock past `limit`.
abbrev pub Within : ℕ → Op → Type 0
Within limit (claim env e req) = env.now ≤ limit
Within limit (prune_idle fault now) = now ≤ limit
Within limit _ = Unit

abbrev pub AllWithin : ℕ → List Op → Type 0
AllWithin limit [] = Unit
AllWithin limit (o ∷ os) = Within limit o × AllWithin limit os

pub step-ttl : (o : Op) (s : Store) → (step o s).ttl ≡ s.ttl
unfolding step Store.claim Store.renew Store.complete Store.release Store.prune_idle conclude
step-ttl (claim env e req) s = ground arith
step-ttl (renew env e owner) s = ground arith
step-ttl (complete db_ok e owner) s = ground arith
step-ttl (release db_ok e owner) s = ground arith
step-ttl (prune_idle fault now) s = ground arith

-- COMMIT leaves the new table, ROLLBACK the old one.
conclude_keeps {ℓ} :
    {A : Type ℓ} (e : Text) (r : Row) (env : Env) (s : Store) (x : Result (A × Table)) (t : Table)
    → find e s.rows ≡ some r
    → find e (table_of t x) ≡ some r
    → find e (conclude env s x).1.rows ≡ some r
unfolding conclude
conclude_keeps e r env s (err q) t h k = h
conclude_keeps e r env s (ok (a, t')) t h k = elim (Bool-cases env.commit_ok) [
  | inl c ↦ rw c k
  | inr c ↦ rw c h
]

module _ (e : Text) (r : Row) (s : Store) (u : IsUnique s.rows) (h : find e s.rows ≡ some r)
    (done : r.state ≡ completed) where
  -- The sweep of a claim within the TTL keeps the row.
  swept_keeps : (env : Env) → env.now ≤ r.first_seen + s.ttl → find e (swept env s) ≡ some r
  unfolding swept
  swept_keeps env w = ground (
    arith,
    prune-eq-delete_oldest env.now s.ttl prune_budget s.rows,
    delete_oldest_keeps env.now s.ttl prune_budget s.rows e r u h,
  )

  claim_same :
      (env : Env) (j req : Text)
      → env.now ≤ r.first_seen + s.ttl
      → j ≡ e
      → find e (Store.claim env j req s).1.rows ≡ some r
  unfolding claim_spec eligible
  claim_same env j req w same = rw same (
      ground (
        arith,
        claim-claim_spec env e req s u,
        Result-cases (lease_clock env.boot_file env.mono_ns s.lease),
      ))

  claim_other :
      (env : Env) (j req : Text)
      → env.now ≤ r.first_seen + s.ttl
      → j ≢ e
      → (clock : LeaseClock)
      → find e (table_of (swept env s) (claim_swept env clock s.ttl s.lease j req (swept env s)))
        ≡ some r
  claim_other env j req w n clock =
      claim_swept_ne env clock s.lease s.ttl j req e (swept env s) (swept-IsUnique env s u) n
      ∙ swept_keeps env w

  claim_keeps :
      (env : Env) (j req : Text)
      → env.now ≤ r.first_seen + s.ttl
      → find e (Store.claim env j req s).1.rows ≡ some r
  unfolding Store.claim
  claim_keeps env j req w = elim (Text-cases j e) [
    | inl same ↦ claim_same env j req w same
    | inr differ ↦ elim (Bool-cases env.begin_ok) [
      | inl begun ↦ elim (Result-cases (lease_clock env.boot_file env.mono_ns s.lease)) [
        | inl broken ↦ rw (begun, broken.1) h
        | inr running ↦
            rw (begun, running.1)
              (conclude_keeps e r env (record s { claims = s.claims + 1 })
                (claim_swept env running.0 s.ttl s.lease j req (swept env s)) (swept env s) h
                (claim_other env j req w (ground (arith, differ, text_eq_iff j e)) running.0))
      ]
      | inr refused ↦ rw refused h
    ]
  ]

  renew_keeps : (env : Env) (j owner : Text) → find e (Store.renew env j owner s).1.rows ≡ some r
  unfolding Store.renew conclude renew_rows
  renew_keeps env j owner = elim (Result-cases (lease_clock env.boot_file env.mono_ns s.lease)) [
    | inl broken ↦ ground (arith, broken.1)
    | inr running ↦ ground (
      arith,
      running.1,
      find-map (held_by j owner) (extend env running.0 s.lease) e s.rows (λ r. refl),
    )
  ]

  step_keeps : (o : Op) → Within (r.first_seen + s.ttl) o → find e (step o s).rows ≡ some r
  unfolding step Store.complete Store.release
  step_keeps (claim env j req) w = claim_keeps env j req w
  step_keeps (renew env j owner) w = renew_keeps env j owner
  step_keeps (complete db_ok j owner) w =
      ground (arith, find-map (held_by j owner) finish e s.rows (λ r. refl))
  step_keeps (release db_ok j owner) w = ground (arith, find-delete (held_by j owner) e s.rows u)
  step_keeps (prune_idle fault now) w =
      let (m, within, e') = prune_idle-deletes fault now s in
      rw e' (delete_oldest_keeps now s.ttl m s.rows e r u h (ground arith))

run-ttl : (os : List Op) (s : Store) → (run os s).ttl ≡ s.ttl
unfolding run
run-ttl [] s = refl
run-ttl (o ∷ os) s = run-ttl os (step o s) ∙ step-ttl o s

-- While no clock that an operation reads is past the TTL, a completed row survives every sequence of
-- operations.
run_keeps :
    (e : Text) (r : Row) (os : List Op) (s : Store)
    → IsUnique s.rows
    → find e s.rows ≡ some r
    → r.state ≡ completed
    → AllWithin (r.first_seen + s.ttl) os
    → find e (run os s).rows ≡ some r
unfolding run
run_keeps e r [] s u h done w = h
run_keeps e r (o ∷ os) s u h done w =
    run_keeps e r os (step o s) (step-IsUnique o s u) (step_keeps e r s u h done o w.0) done
      (rw (step-ttl o s) w.1)

-- What the store is after `complete`.
complete_done :
    (e owner : Text) (s : Store) (r : Row)
    → IsUnique s.rows
    → find e s.rows ≡ some r
    → (Store.complete true e owner s).0 ≡ ok true
    → find e (Store.complete true e owner s).1.rows ≡ some (finish r)
unfolding complete_spec
complete_done e owner s r u h d = ground (arith, complete-complete_spec true e owner s u)

-- On a table with its primary key intact: once `complete` has returned True for an id, then
-- after any operations whose wall clocks are within the TTL of its first sight, a claim of it
-- that meets no fault and is within the TTL too is refused with the first request id, and no
-- owner completes, releases or renews it again.
pub completed_suppresses :
    (e owner other req : Text) (s : Store) (r : Row) (os : List Op) (env : Env) (clock : LeaseClock)
    → IsUnique s.rows
    → find e s.rows ≡ some r
    → (Store.complete true e owner s).0 ≡ ok true
    → AllWithin (r.first_seen + s.ttl) os
    → Runs env (run os (Store.complete true e owner s).1).lease clock
    → env.now ≤ r.first_seen + s.ttl
    → ((Store.claim env e req (run os (Store.complete true e owner s).1)).0 ≡ ok (refused r.req_id))
      × IsFenced env e other (finish r) (run os (Store.complete true e owner s).1)
unfolding claim_spec eligible step
completed_suppresses e owner other req s r os env clock u h d w runs t =
    let done = complete true e owner in
    let s1 = step done s in
    let u2 = run-IsUnique os s1 (step-IsUnique done s u) in
    let same = step-ttl done s in
    let kept =
      run_keeps e (finish r) os s1 (step-IsUnique done s u) (complete_done e owner s r u h d) refl
        (rw same w) in
    (
      ground (arith, claim-claim_spec env e req (run os s1) u2, kept, run-ttl os s1, same),
      IsFenced-of_held env clock e other (run os s1) (finish r) u2 runs kept (ground arith),
    )

-- On a table with its primary key intact, the claim of a completed row past its TTL that meets
-- no fault is granted, under its own request id.
pub completed_expires :
    (e req : Text) (s : Store) (r : Row) (env : Env) (clock : LeaseClock)
    → IsUnique s.rows
    → find e s.rows ≡ some r
    → r.state ≡ completed
    → r.first_seen + s.ttl < env.now
    → Runs env s.lease clock
    → (Store.claim env e req s).0 ≡ ok (granted req env.token)
unfolding claim_spec
completed_expires e req s r env clock u h d old runs =
    ground (arith, claim-claim_spec env e req s u)
