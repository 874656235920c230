-- ===== src/Dedup/Spec.antt =====
-- What the claim store promises about one envelope id, with no table: each operation as a function
-- on the row of its id, if there is one.
use yugo.Base.{ℕ, Text, text_eq, Bool, true, false, ◌||◌, Option, none, some, if◌then◌else◌}
use yugo.Dedup.Table.{Row, held_by, is_expired}
use yugo.Dedup.Clock.{
  sqlite, verification, Result, ok, err, LeaseClock, lease_clock, is_legacy, valid_metadata,
}
use yugo.Dedup.Find.{drop_if}
use yugo.Dedup.Store.{Env, Claim, fresh_row, eligible, retake, granted, refused, extend, finish}

-- A pending row whose lease is over passes to the caller; any other row refuses the claim.
abbrev pub contend : Env → LeaseClock → ℕ → Row → Result (Claim × Option Row)
contend env clock lease r = elim (eligible env clock r) [
  | err e ↦ err e
  | ok true ↦ ok (granted r.req_id env.token, some (retake env clock lease r))
  | ok false ↦ ok (refused r.req_id, some r)
]

abbrev pub claim_live :
    Env → LeaseClock → ℕ → Text → Text → Option Row → Result (Claim × Option Row)
claim_live env clock lease eid req none =
    ok (granted req env.token, some (fresh_row env clock lease eid req))
claim_live env clock lease eid req (some r) = contend env clock lease r

-- A row that is completed and past its TTL counts as absent.
abbrev pub claim_row :
    Env → LeaseClock → ℕ → ℕ → Text → Text → Option Row → Result (Claim × Option Row)
claim_row env clock ttl lease eid req o =
    claim_live env clock lease eid req (drop_if (is_expired env.now ttl) o)

-- COMMIT, or ROLLBACK to the row `o`.
abbrev pub settle {ℓ} :
    {A : Type ℓ} → Bool → Option Row → Result (A × Option Row) → Result A × Option Row
settle commit_ok o (err e) = (err e, o)
settle commit_ok o (ok (a, o')) = if commit_ok then (ok a, o') else (err sqlite, o)

-- BEGIN and the lease clock stand before everything else.
abbrev pub in_transaction {ℓ} :
    {A : Type ℓ}
    → Env
    → ℕ
    → Option Row
    → (LeaseClock → Result (A × Option Row))
    → Result A × Option Row
in_transaction env lease o body =
    if env.begin_ok
    then elim (lease_clock env.boot_file env.mono_ns lease) [
      | err e ↦ (err e, o)
      | ok clock ↦ settle env.commit_ok o (body clock)
    ]
    else (err sqlite, o)

unfoldable pub claim_spec : Env → ℕ → ℕ → Text → Text → Option Row → Result Claim × Option Row
claim_spec env ttl lease eid req o =
    in_transaction env lease o (λ clock. claim_row env clock ttl lease eid req o)

-- The owner's pending row is extended if it is legacy or of this boot.
abbrev pub renew_row : Env → LeaseClock → ℕ → Text → Text → Option Row → Result (Bool × Option Row)
renew_row env clock lease eid owner none = ok (false, none)
renew_row env clock lease eid owner (some r) =
    if held_by eid owner r
    then (if valid_metadata r.lease_boot_id r.lease_until_mono
        then (if is_legacy r.lease_boot_id || text_eq r.lease_boot_id clock.boot
            then ok (true, some (extend env clock lease r))
            else ok (false, some r))
        else err verification)
    else ok (false, some r)

unfoldable pub renew_spec : Env → ℕ → Text → Text → Option Row → Result Bool × Option Row
renew_spec env lease eid owner o =
    in_transaction env lease o (λ clock. renew_row env clock lease eid owner o)

unfoldable pub complete_spec : Bool → Text → Text → Option Row → Result Bool × Option Row
complete_spec db_ok eid owner none = if db_ok then (ok false, none) else (err sqlite, none)
complete_spec db_ok eid owner (some r) =
    if db_ok
    then (if held_by eid owner r then (ok true, some (finish r)) else (ok false, some r))
    else (err sqlite, some r)

unfoldable pub release_spec : Bool → Text → Text → Option Row → Result Bool × Option Row
release_spec db_ok eid owner none = if db_ok then (ok false, none) else (err sqlite, none)
release_spec db_ok eid owner (some r) =
    if db_ok
    then (if held_by eid owner r then (ok true, none) else (ok false, some r))
    else (err sqlite, some r)
