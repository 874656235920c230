-- ===== src/Dedup/Ops.antt =====
-- The methods of `DurableEnvelopeDedupStore` implement the specification.
use yugo.Base.{
  ℕ, Text, text_eq_iff, ◌≡◌, ◌⊎◌, refl, Bool, Option, none, some, [], ◌∷◌, arith, if◌then◌else◌,
  Bool-cases, inl, inr,
}
use yugo.Dedup.Table.{Row, Table, find, held_by, is_expired}
use yugo.Dedup.Clock.{Fault, Result, ok, err, LeaseClock, lease_clock}
use yugo.Dedup.Find.{IsUnique, IsAt, find-delete, find-map, count_at, drop_if}
use yugo.Dedup.Store.{
  Store, Env, swept, conclude, claim, find_held, renew_rows, renew, complete, release, prune_budget,
  finish, extend,
}
use yugo.Dedup.Spec.{claim_spec, renew_spec, renew_row, complete_spec, release_spec}
use yugo.Dedup.Refine.{at_id, claim_swept_row}
use yugo.Dedup.Prune.{prune-eq-delete_oldest}
use yugo.Dedup.Swept.{delete_oldest-IsUnique, delete_oldest_visible}

-- A result with the row that the store then has at `e`.
abbrev pub seen {ℓ} : {A : Type ℓ} → Text → Result A × Store → Result A × Option Row
seen e r = (r.0, find e r.1.rows)

pub Result-cases {ℓ} :
    {A : Type ℓ} (r : Result A) → ((x : Fault) × (r ≡ err x)) ⊎ ((a : A) × (r ≡ ok a))
Result-cases (err x) = inl (x, refl)
Result-cases (ok a) = inr (a, refl)

pub held-IsAt : (e owner : Text) → IsAt e (held_by e owner)
held-IsAt e owner r h = ground (arith, text_eq_iff r.envelope_id e)

-- `complete` does to the row of its id what the specification says.
pub complete-complete_spec :
    (db_ok : Bool) (e owner : Text) (s : Store)
    → IsUnique s.rows
    → seen e (complete db_ok e owner s) ≡ complete_spec db_ok e owner (find e s.rows)
unfolding complete complete_spec
complete-complete_spec db_ok e owner s u = ground (
  arith,
  count_at (held_by e owner) e s.rows (held-IsAt e owner) u,
  find-map (held_by e owner) finish e s.rows (λ r. refl),
)

pub release-release_spec :
    (db_ok : Bool) (e owner : Text) (s : Store)
    → IsUnique s.rows
    → seen e (release db_ok e owner s) ≡ release_spec db_ok e owner (find e s.rows)
unfolding release release_spec
release-release_spec db_ok e owner s u = ground (
  arith,
  count_at (held_by e owner) e s.rows (held-IsAt e owner) u,
  find-delete (held_by e owner) e s.rows u,
)

-- The sweep before a claim leaves what is visible of a row.
pub visible_swept :
    (env : Env) (s : Store) (e : Text)
    → IsUnique s.rows
    → drop_if (is_expired env.now s.ttl) (find e (swept env s))
      ≡ drop_if (is_expired env.now s.ttl) (find e s.rows)
unfolding swept
visible_swept env s e u = ground (
  arith,
  prune-eq-delete_oldest env.now s.ttl prune_budget s.rows,
  delete_oldest_visible env.now s.ttl prune_budget s.rows e u,
)

pub swept-IsUnique : (env : Env) (s : Store) → IsUnique s.rows → IsUnique (swept env s)
unfolding swept
swept-IsUnique env s u = ground (
  arith,
  prune-eq-delete_oldest env.now s.ttl prune_budget s.rows,
  delete_oldest-IsUnique env.now s.ttl prune_budget s.rows u,
)

-- On a table with its primary key intact, `claim` returns, and leaves as the row of its id, what
-- the specification on one optional row says, whichever of BEGIN, the lease clock, the row's
-- metadata and COMMIT fails.
pub claim-claim_spec :
    (env : Env) (e req : Text) (s : Store)
    → IsUnique s.rows
    → seen e (claim env e req s) ≡ claim_spec env s.ttl s.lease e req (find e s.rows)
unfolding claim claim_spec conclude
claim-claim_spec env e req s u = elim (Bool-cases env.begin_ok) [
  | inl begun ↦ elim (Result-cases (lease_clock env.boot_file env.mono_ns s.lease)) [
    | inl broken ↦ rw (begun, broken.1)
    | inr running ↦
        rw (begun, running.1)
          (ground (
            arith,
            claim_swept_row env running.0 s.lease s.ttl e req (swept env s)
                (swept-IsUnique env s u),
            visible_swept env s e u,
          ))
  ]
  | inr refused ↦ rw refused
]

-- The owner's row is the row of its id, if the owner holds that.
abbrev held_row : Text → Text → Option Row → Option Row
held_row e owner none = none
held_row e owner (some r) = if held_by e owner r then some r else none

find_held_absent : (e owner : Text) (t : Table) → find e t ≡ none → find_held e owner t ≡ none
unfolding find find_held
find_held_absent e owner [] h = refl
find_held_absent e owner (r ∷ t) h = ground (arith, find_held_absent e owner t)

find_held_lem :
    (e owner : Text) (t : Table) → IsUnique t → find_held e owner t ≡ held_row e owner (find e t)
unfolding find find_held
find_held_lem e owner [] u = refl
find_held_lem e owner (r ∷ t) u =
    ground
      (arith, find_held_lem e owner t u.1, find_held_absent e owner t, text_eq_iff r.envelope_id e)

renew_rows_lem :
    (env : Env) (clock : LeaseClock) (lease : ℕ) (e owner : Text) (t : Table)
    → IsUnique t
    → at_id e (renew_rows env clock lease e owner t) ≡ renew_row env clock lease e owner (find e t)
unfolding renew_rows
renew_rows_lem env clock lease e owner t u = ground (
  arith,
  find_held_lem e owner t u,
  count_at (held_by e owner) e t (held-IsAt e owner) u,
  find-map (held_by e owner) (extend env clock lease) e t (λ r. refl),
)

-- On a table with its primary key intact, `renew` returns, and leaves as the row of its id, what
-- the specification on one optional row says, whichever of BEGIN, the lease clock, the row's
-- metadata and COMMIT fails.
pub renew-renew_spec :
    (env : Env) (e owner : Text) (s : Store)
    → IsUnique s.rows
    → seen e (renew env e owner s) ≡ renew_spec env s.lease e owner (find e s.rows)
unfolding renew renew_spec conclude
renew-renew_spec env e owner s u = elim (Bool-cases env.begin_ok) [
  | inl begun ↦ elim (Result-cases (lease_clock env.boot_file env.mono_ns s.lease)) [
    | inl broken ↦ rw (begun, broken.1)
    | inr running ↦
        rw (begun, running.1)
          (ground (arith, renew_rows_lem env running.0 s.lease e owner s.rows u))
  ]
  | inr refused ↦ rw refused
]
