-- ===== src/Dedup/Atomic.antt =====
-- What an operation leaves that raises.
use yugo.Base.{ℕ, ◌*◌, ◌<◌, some, ◌+◌, ◌≡◌, refl, Bool, true, arith, inl, inr}
use yugo.Dedup.Table.{Table, delete_oldest}
use yugo.Dedup.Clock.{Result, ok, err, lease_clock}
use yugo.Dedup.Partial.{is_err, prune_idle_raises}
use yugo.Dedup.Store
use yugo.Dedup.Store.{
  Store, Env, Claim, granted, refused, eligible, swept, conclude, claim_swept, renew_rows,
  prune_budget, prune_limit, extend, finish,
}
use yugo.Dedup.Run.{Op, claim, renew, complete, release, prune_idle, step}
use yugo.Dedup.Ops.{Result-cases}

-- Does the operation raise?
unfoldable pub raises : Op → Store → Bool
raises (claim env e req) s = is_err (Store.claim env e req s).0
raises (renew env e owner) s = is_err (Store.renew env e owner s).0
raises (complete db_ok e owner) s = is_err (Store.complete db_ok e owner s).0
raises (release db_ok e owner) s = is_err (Store.release db_ok e owner s).0
raises (prune_idle fault now) s = is_err (Store.prune_idle fault now s).0

conclude_raises {ℓ} :
    {A : Type ℓ} (env : Env) (s : Store) (x : Result (A × Table))
    → is_err (conclude env s x).0 ≡ true
    → (conclude env s x).1.rows ≡ s.rows
unfolding conclude
conclude_raises env s (err e) h = refl
conclude_raises env s (ok (a, t)) h = ground arith

-- What an operation that raises leaves: the table as it was, except `prune_idle`, whose batches
-- before the one that raises are committed.
pub Leaves : Op → Store → Type 0
Leaves (claim env e req) s = (step (claim env e req) s).rows ≡ s.rows
Leaves (renew env e owner) s = (step (renew env e owner) s).rows ≡ s.rows
Leaves (complete db_ok e owner) s = (step (complete db_ok e owner) s).rows ≡ s.rows
Leaves (release db_ok e owner) s = (step (release db_ok e owner) s).rows ≡ s.rows
Leaves (prune_idle fault now) s =
    (k : ℕ) × (fault ≡ some k)
    × (prune_limit * k < prune_budget)
    × ((step (prune_idle fault now) s).rows ≡ (delete_oldest (prune_limit * k) now s.ttl s.rows).0)

-- A claim, a renewal, a completion or a release that raises leaves the table as it was, at whichever
-- point it failed. A `prune_idle` that raises at its statement number `k`, counted from 0, has
-- deleted the oldest expired rows, 100 for each of the `k` statements before, and nothing else.
pub raises-Leaves : (o : Op) (s : Store) → raises o s ≡ true → Leaves o s
unfolding raises step Store.claim Store.renew Store.complete Store.release Leaves
raises-Leaves (claim env e req) s h =
    elim (Result-cases (lease_clock env.boot_file env.mono_ns s.lease)) [
      | inl broken ↦ ground (arith, broken.1)
      | inr running ↦ ground (
        arith,
        running.1,
        conclude_raises env (record s { claims = s.claims + 1 })
            (claim_swept env running.0 s.ttl s.lease e req (swept env s)),
      )
    ]
raises-Leaves (renew env e owner) s h =
    elim (Result-cases (lease_clock env.boot_file env.mono_ns s.lease)) [
      | inl broken ↦ ground (arith, broken.1)
      | inr running ↦ ground (
        arith,
        running.1,
        conclude_raises env s (renew_rows env running.0 s.lease e owner s.rows),
      )
    ]
raises-Leaves (complete db_ok e owner) s h = ground arith
raises-Leaves (release db_ok e owner) s h = ground arith
raises-Leaves (prune_idle fault now) s h = prune_idle_raises fault now s h
