-- ===== src/Dedup/Prune.antt =====
-- `prune` of yugo/dedup_store.py: the batches, and what one sweep deletes.
use native.Mathlib.Nat.{zero-add, suc-add}
use yugo.Base.{
  ℕ, zero, suc, ◌+◌, ◌-◌, ◌≤◌, ◌<◌, min, text_eq, ◌≡◌, refl, ap, ltb→lt, Bool, true, false, none,
  some, [], ◌∷◌, arith, ltb, count_where, Option-cases, Bool-cases, inl, inr,
}
use yugo.Dedup.Table.{Row, Table, is_expired, delete_where, oldest_expired, delete_oldest}
use yugo.Dedup.Store.{prune_limit, prune_loop, prune}

module _ (now ttl : ℕ) where
  abbrev pub expired : Row → Bool
  expired = is_expired now ttl

  pub oldest_is_expired :
      (t : Table) (r : Row) → oldest_expired now ttl t ≡ some r → expired r ≡ true
  unfolding oldest_expired
  oldest_is_expired [] r h = cc
  oldest_is_expired (s ∷ t) r h = elim (Option-cases (oldest_expired now ttl t)) [
    | inl e ↦ ground (arith, e)
    | inr e ↦ ground (arith, e.1, oldest_is_expired t e.0 e.1)
  ]

  pub oldest_none : (t : Table) → oldest_expired now ttl t ≡ none → count_where expired t ≡ 0
  unfolding oldest_expired count_where
  oldest_none [] h = refl
  oldest_none (s ∷ t) h = elim (Option-cases (oldest_expired now ttl t)) [
    | inl e ↦ ground (arith, e, oldest_none t e)
    | inr e ↦ ground (arith, e.1)
  ]

  abbrev pub others : Row → Table → Table
  others r t = delete_where (λ s. text_eq s.envelope_id r.envelope_id) t

  -- n deletions and then m more are n + m deletions.
  abbrev more : Table × ℕ → Table × ℕ → Table × ℕ
  more a b = (b.0, a.1 + b.1)

  pub delete_none :
      (n : ℕ) (t : Table) → oldest_expired now ttl t ≡ none → delete_oldest n now ttl t ≡ (t, 0)
  unfolding delete_oldest
  delete_none zero t h = refl
  delete_none (suc n) t h = ground arith

  pub delete_some :
      (n : ℕ) (t : Table) (r : Row)
      → oldest_expired now ttl t ≡ some r
      → delete_oldest (suc n) now ttl t
        ≡ ((delete_oldest n now ttl (others r t)).0, (delete_oldest n now ttl (others r t)).1 + 1)
  unfolding delete_oldest
  delete_some n t r h = ground arith

  pub delete_add :
      (n m : ℕ) (t : Table)
      → delete_oldest (n + m) now ttl t
        ≡ more (delete_oldest n now ttl t) (delete_oldest m now ttl (delete_oldest n now ttl t).0)
  delete_add zero m t = unfold delete_oldest in rw (zero-add, zero-add)
  delete_add (suc n) m t = elim (Option-cases (oldest_expired now ttl t)) [
    | inl e ↦ rw (delete_none (suc n) t e, delete_none (suc n + m) t e, delete_none m t e)
    | inr e ↦
        rw
          (
            suc-add,
            delete_some (n + m) t e.0 e.1,
            delete_some n t e.0 e.1,
            delete_add n m (others e.0 t),
          )
          (ground arith)
  ]

  pub delete-le : (n : ℕ) (t : Table) → (delete_oldest n now ttl t).1 ≤ n
  delete-le zero t = unfold delete_oldest in omega arith
  delete-le (suc n) t = elim (Option-cases (oldest_expired now ttl t)) [
    | inl e ↦ rw (delete_none (suc n) t e) (omega arith)
    | inr e ↦ rw (delete_some n t e.0 e.1) (omega (arith, delete-le n (others e.0 t)))
  ]

  -- Fewer deletions than asked for leave nothing expired.
  delete_short :
      (n : ℕ) (t : Table)
      → (delete_oldest n now ttl t).1 < n
      → oldest_expired now ttl (delete_oldest n now ttl t).0 ≡ none
  delete_short zero t h = elim h [ ]
  delete_short (suc n) t h = elim (Option-cases (oldest_expired now ttl t)) [
    | inl e ↦ rw (delete_none (suc n) t e) e
    | inr e ↦
        rw (delete_some n t e.0 e.1)
          (delete_short n (others e.0 t) (ground (arith, delete_some n t e.0 e.1)))
  ]

  pub delete_zero : (t : Table) → delete_oldest 0 now ttl t ≡ (t, 0)
  unfolding delete_oldest
  delete_zero t = refl

  pub not_short : (a b : ℕ) → ltb a b ≡ false → b ≤ a
  not_short a b h = ground arith

  split_batch :
      (b rem : ℕ) (t : Table)
      → b ≤ rem
      → delete_oldest rem now ttl t
        ≡ more
            (delete_oldest b now ttl t)
            (delete_oldest (rem - b) now ttl (delete_oldest b now ttl t).0)
  split_batch b rem t h =
      rw (← delete_add b (rem - b) t) (ap (λ k. delete_oldest k now ttl t) (omega arith))

  -- The rounds of the loop are one deletion of what is left of the budget.
  loop_lem :
      (fuel budget : ℕ) (t : Table) (deleted : ℕ)
      → deleted ≤ budget
      → budget - deleted < fuel
      → prune_loop fuel now ttl budget t deleted
        ≡ more (t, deleted) (delete_oldest (budget - deleted) now ttl t)
  unfolding prune_loop
  loop_lem zero budget t deleted le enough = elim enough [ ]
  loop_lem (suc fuel) budget t deleted le enough = elim (Bool-cases (ltb deleted budget)) [
    | inl open_budget ↦ elim (Bool-cases (ltb (delete_oldest batch now ttl t).1 batch)) [
      | inl short ↦ ground (
        arith,
        split,
        delete_none (rem - batch) (delete_oldest batch now ttl t).0
            (delete_short batch t (ltb→lt _ _ short)),
      )
      | inr full ↦
          let all : (delete_oldest batch now ttl t).1 ≡ batch =
            omega (arith, delete-le batch t, not_short _ _ full) in
          let next : budget - (deleted + (delete_oldest batch now ttl t).1) ≡ rem - batch =
            omega (arith, all) in
          let ih =
            loop_lem fuel budget (delete_oldest batch now ttl t).0
              (deleted + (delete_oldest batch now ttl t).1) (omega (arith, all))
              (omega (arith, all, ltb→lt _ _ open_budget)) in
          ground (
            arith,
            split,
            ih,
            next,
            ap (λ k. delete_oldest k now ttl (delete_oldest batch now ttl t).0) next,
          )
    ]
    | inr spent ↦
        let none_left : budget - deleted ≡ 0 = omega (arith, not_short _ _ spent) in
        ground (arith, ap (λ k. delete_oldest k now ttl t) none_left, delete_zero t)
  ]
    where
      rem : ℕ
      rem = budget - deleted

      batch : ℕ
      batch = min prune_limit rem

      split :
          delete_oldest rem now ttl t
          ≡ more
              (delete_oldest batch now ttl t)
              (delete_oldest (rem - batch) now ttl (delete_oldest batch now ttl t).0)
      split = split_batch batch rem t (omega arith)

-- `prune` deletes the oldest expired rows up to its budget: its batches of 100 and its early stop
-- are one deletion of `budget` rows.
pub prune-eq-delete_oldest :
    (now ttl budget : ℕ) (t : Table) → prune now ttl budget t ≡ delete_oldest budget now ttl t
unfolding prune
prune-eq-delete_oldest now ttl budget t =
    rw (loop_lem now ttl (suc budget) budget t 0 (omega arith) (omega arith)) (ground arith)
