-- ===== src/Dedup/Partial.antt =====
-- `prune_idle` of yugo/dedup_store.py, whose DELETEs are committed one by one: what is deleted when
-- one of them raises.
use yugo.Base.{
  ℕ, zero, suc, ◌+◌, ◌-◌, ◌*◌, ◌≤◌, ◌<◌, min, ◌≡◌, refl, sym, ap, ◌∙◌, Bool, true, false, Option,
  none, some, arith, ltb, ltb→lt, Bool-cases, inl, inr,
}
use yugo.Dedup.Table.{Table, delete_oldest}
use yugo.Dedup.Clock.{Result, ok, err}
use yugo.Dedup.Store.{
  Store, prune_limit, prune_budget, prune_loop, prune, raises_now, later, autocommit_loop,
  prune_idle,
}
use yugo.Dedup.Prune.{delete_add, delete-le, delete_zero, not_short}

abbrev pub is_err {ℓ} : {A : Type ℓ} → Result A → Bool
is_err (ok a) = false
is_err (err x) = true

later_lem : (f : Option ℕ) (k : ℕ) → raises_now f ≡ false → later f ≡ some k → f ≡ some (suc k)
later_lem none k r e = cc
later_lem (some zero) k r e = cc
later_lem (some (suc n)) k r e = ground arith

raises_lem : (f : Option ℕ) → raises_now f ≡ true → f ≡ some 0
raises_lem none r = cc
raises_lem (some zero) r = refl
raises_lem (some (suc n)) r = cc

module _ (now ttl : ℕ) where
  -- The table after `n` deletions.
  abbrev pub less : ℕ → Table → Table
  less n t = (delete_oldest n now ttl t).0

  less_add : (n m : ℕ) (t : Table) → less (n + m) t ≡ less m (less n t)
  less_add n m t = ap (λ r. r.0) (delete_add now ttl n m t)

  -- Whether it raises or not, the loop has deleted the oldest expired rows, within its budget.
  pub loop_deletes :
      (fuel budget : ℕ) (f : Option ℕ) (t : Table) (deleted : ℕ)
      → (m : ℕ) × (m ≤ budget - deleted)
        × ((autocommit_loop fuel now ttl budget f t deleted).1 ≡ less m t)
  unfolding autocommit_loop
  loop_deletes zero budget f t deleted =
      (0, omega arith, ap (λ r. r.0) (sym (delete_zero now ttl t)))
  loop_deletes (suc fuel) budget f t deleted = elim (Bool-cases (ltb deleted budget)) [
    | inr spent ↦ rw spent (0, omega arith, ap (λ r. r.0) (sym (delete_zero now ttl t)))
    | inl goes_on ↦ elim (Bool-cases (raises_now f)) [
      | inl r ↦ rw (goes_on, r) (0, omega arith, ap (λ r. r.0) (sym (delete_zero now ttl t)))
      | inr n ↦ elim (Bool-cases (ltb (delete_oldest batch now ttl t).1 batch)) [
        | inl short ↦ rw (goes_on, n, short) (batch, omega arith, refl)
        | inr full ↦
            let all : (delete_oldest batch now ttl t).1 ≡ batch =
              omega (arith, delete-le now ttl batch t, not_short now ttl _ _ full) in
            let (m, le, e) =
              loop_deletes fuel budget (later f) (less batch t)
                (deleted + (delete_oldest batch now ttl t).1) in
            rw (goes_on, n, full) (batch + m, omega (arith, all, le), e ∙ sym (less_add batch m t))
      ]
    ]
  ]
    where
      batch : ℕ
      batch = min prune_limit (budget - deleted)

  -- It raises only at the statement that does, and each batch before it deleted its hundred.
  pub loop_raises :
      (fuel budget : ℕ) (f : Option ℕ) (t : Table) (deleted : ℕ)
      → is_err (autocommit_loop fuel now ttl budget f t deleted).0 ≡ true
      → (k : ℕ) × (f ≡ some k)
        × (deleted + prune_limit * k < budget)
        × ((autocommit_loop fuel now ttl budget f t deleted).1 ≡ less (prune_limit * k) t)
  unfolding autocommit_loop
  loop_raises zero budget f t deleted h = cc
  loop_raises (suc fuel) budget f t deleted h = elim (Bool-cases (ltb deleted budget)) [
    | inr spent ↦ cc (rw spent at h)
    | inl goes_on ↦ elim (Bool-cases (raises_now f)) [
      | inl r ↦
          rw (goes_on, r)
            (
              0,
              raises_lem f r,
              omega (arith, ltb→lt deleted budget goes_on),
              ap (λ q. q.0) (sym (delete_zero now ttl t)),
            )
      | inr n ↦ elim (Bool-cases (ltb (delete_oldest batch now ttl t).1 batch)) [
        | inl short ↦ cc (rw (goes_on, n, short) at h)
        | inr full ↦
            let all : (delete_oldest batch now ttl t).1 ≡ batch =
              omega (arith, delete-le now ttl batch t, not_short now ttl _ _ full) in
            let (k, later_k, lt, e) =
              loop_raises fuel budget (later f) (less batch t)
                (deleted + (delete_oldest batch now ttl t).1) (rw (goes_on, n, full) at h) in
            let hundred : batch ≡ prune_limit = omega (arith, all, lt) in
            rw (goes_on, n, full)
              (
                suc k,
                later_lem f k n later_k,
                omega (arith, all, lt, hundred),
                e
                    ∙ (sym (less_add batch (prune_limit * k) t)
                        ∙ ap (λ n. less n t) (omega (arith, hundred))),
              )
      ]
    ]
  ]
    where
      batch : ℕ
      batch = min prune_limit (budget - deleted)

  -- With no fault it is the loop of `prune`.
  loop_whole :
      (fuel budget : ℕ) (t : Table) (deleted : ℕ)
      → autocommit_loop fuel now ttl budget none t deleted ≡ (
        ok (prune_loop fuel now ttl budget t deleted).1,
        (prune_loop fuel now ttl budget t deleted).0,
      )
  unfolding autocommit_loop prune_loop
  loop_whole zero budget t deleted = refl
  loop_whole (suc fuel) budget t deleted = elim (Bool-cases (ltb deleted budget)) [
    | inr spent ↦ rw spent refl
    | inl goes_on ↦ elim (Bool-cases (ltb (delete_oldest batch now ttl t).1 batch)) [
      | inl short ↦ rw (goes_on, short) refl
      | inr full ↦
          rw (goes_on, full)
            (loop_whole fuel budget (less batch t) (deleted + (delete_oldest batch now ttl t).1))
    ]
  ]
    where
      batch : ℕ
      batch = min prune_limit (budget - deleted)

pub prune_idle-deletes :
    (fault : Option ℕ) (now : ℕ) (s : Store)
    → (m : ℕ) × (m ≤ prune_budget)
      × ((prune_idle fault now s).1.rows ≡ (delete_oldest m now s.ttl s.rows).0)
unfolding prune_idle
prune_idle-deletes fault now s =
    loop_deletes now s.ttl (suc prune_budget) prune_budget fault s.rows 0

pub prune_idle_raises :
    (fault : Option ℕ) (now : ℕ) (s : Store)
    → is_err (prune_idle fault now s).0 ≡ true
    → (k : ℕ) × (fault ≡ some k)
      × (prune_limit * k < prune_budget)
      × ((prune_idle fault now s).1.rows ≡ (delete_oldest (prune_limit * k) now s.ttl s.rows).0)
unfolding prune_idle
prune_idle_raises fault now s h =
    let (k, at, lt, e) = loop_raises now s.ttl (suc prune_budget) prune_budget fault s.rows 0 h in
    (k, at, omega (arith, lt), e)

-- Where no statement raises, it is `prune`.
prune_idle-prune :
    (now : ℕ) (s : Store)
    → prune_idle none now s ≡ (
      ok (prune now s.ttl prune_budget s.rows).1,
      record s { rows = (prune now s.ttl prune_budget s.rows).0 },
    )
unfolding prune_idle prune
prune_idle-prune now s = rw (loop_whole now s.ttl (suc prune_budget) prune_budget s.rows 0) refl
