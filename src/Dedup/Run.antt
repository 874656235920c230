-- ===== src/Dedup/Run.antt =====
-- Any sequence of store operations, by any callers: the primary key holds throughout, and no
-- operation reaches the row of another id.
use yugo.Base.{ℕ, ◌+◌, Text, refl, Bool, Option, List, [], ◌∷◌, arith, Bool-cases, inl, inr}
use yugo.Dedup.Table.{Table, held_by}
use yugo.Dedup.Clock.{Result, ok, err, LeaseClock, lease_clock}
use yugo.Dedup.Find.{IsUnique, delete-IsUnique, map-IsUnique}
use yugo.Dedup.Store
use yugo.Dedup.Store.{
  Store, Env, claim_swept, swept, conclude, renew_rows, prune, prune_budget, finish, extend,
}
use yugo.Dedup.Refine.{table_of, claim_swept-IsUnique}
use yugo.Dedup.Partial.{prune_idle-deletes}
use yugo.Dedup.Swept.{delete_oldest-IsUnique}
use yugo.Dedup.Ops.{Result-cases, swept-IsUnique}

pub data Op : Type 0 where
  claim renew : Env → Text → Text → Op
  complete release : Bool → Text → Text → Op
  prune_idle : Option ℕ → ℕ → Op

unfoldable pub step : Op → Store → Store
step (claim env e req) s = (Store.claim env e req s).1
step (renew env e owner) s = (Store.renew env e owner s).1
step (complete db_ok e owner) s = (Store.complete db_ok e owner s).1
step (release db_ok e owner) s = (Store.release db_ok e owner s).1
step (prune_idle fault now) s = (Store.prune_idle fault now s).1

unfoldable pub run : List Op → Store → Store
run [] s = s
run (o ∷ os) s = run os (step o s)

conclude-IsUnique {ℓ} :
    {A : Type ℓ} (env : Env) (s : Store) (x : Result (A × Table))
    → IsUnique s.rows
    → IsUnique (table_of s.rows x)
    → IsUnique (conclude env s x).1.rows
unfolding conclude
conclude-IsUnique env s (err e) u v = u
conclude-IsUnique env s (ok (a, t)) u v = elim (Bool-cases env.commit_ok) [
  | inl h ↦ rw h v
  | inr h ↦ rw h u
]

renew_rows-IsUnique :
    (env : Env) (clock : LeaseClock) (lease : ℕ) (e owner : Text) (t : Table)
    → IsUnique t
    → IsUnique (table_of t (renew_rows env clock lease e owner t))
unfolding renew_rows
renew_rows-IsUnique env clock lease e owner t u =
    ground (arith, map-IsUnique (held_by e owner) (extend env clock lease) t (λ r. refl) u)

-- A fault inside the transaction leaves the table of before the transaction.
table_of_swept :
    {A : Type 0} (s : Table) (t : Table) (x : Result (A × Table))
    → IsUnique s
    → IsUnique (table_of t x)
    → IsUnique (table_of s x)
table_of_swept s t (err e) u v = u
table_of_swept s t (ok (a, t')) u v = v

pub claim-IsUnique :
    (env : Env) (e req : Text) (s : Store)
    → IsUnique s.rows
    → IsUnique (Store.claim env e req s).1.rows
unfolding Store.claim
claim-IsUnique env e req s u = elim (Bool-cases env.begin_ok) [
  | inl begun ↦ elim (Result-cases (lease_clock env.boot_file env.mono_ns s.lease)) [
    | inl broken ↦ rw (begun, broken.1) u
    | inr running ↦
        rw (begun, running.1)
          (conclude-IsUnique env (record s { claims = s.claims + 1 }) _ u
            (table_of_swept {A = Store.Claim} s.rows (swept env s)
              (claim_swept env running.0 s.ttl s.lease e req (swept env s)) u
              (claim_swept-IsUnique env running.0 s.lease s.ttl e req (swept env s)
                (swept-IsUnique env s u))))
  ]
  | inr refused ↦ rw refused u
]

pub renew-IsUnique :
    (env : Env) (e owner : Text) (s : Store)
    → IsUnique s.rows
    → IsUnique (Store.renew env e owner s).1.rows
unfolding Store.renew
renew-IsUnique env e owner s u = elim (Bool-cases env.begin_ok) [
  | inl begun ↦ elim (Result-cases (lease_clock env.boot_file env.mono_ns s.lease)) [
    | inl broken ↦ rw (begun, broken.1) u
    | inr running ↦
        rw (begun, running.1)
          (conclude-IsUnique env s _ u (renew_rows-IsUnique env running.0 s.lease e owner s.rows u))
  ]
  | inr refused ↦ rw refused u
]

-- Every operation keeps the primary key.
pub step-IsUnique : (o : Op) (s : Store) → IsUnique s.rows → IsUnique (step o s).rows
unfolding step Store.complete Store.release
step-IsUnique (claim env e req) s u = claim-IsUnique env e req s u
step-IsUnique (renew env e owner) s u = renew-IsUnique env e owner s u
step-IsUnique (complete db_ok e owner) s u =
    ground (arith, map-IsUnique (held_by e owner) finish s.rows (λ r. refl) u)
step-IsUnique (release db_ok e owner) s u =
    ground (arith, delete-IsUnique (held_by e owner) s.rows u)
step-IsUnique (prune_idle fault now) s u =
    let (m, within, e) = prune_idle-deletes fault now s in
    rw e (delete_oldest-IsUnique now s.ttl m s.rows u)

-- No sequence of store operations, by any callers and with any faults, gives an id a second row
-- on a table where none has one.
pub run-IsUnique : (os : List Op) (s : Store) → IsUnique s.rows → IsUnique (run os s).rows
unfolding run
run-IsUnique [] s u = u
run-IsUnique (o ∷ os) s u = run-IsUnique os (step o s) (step-IsUnique o s u)
