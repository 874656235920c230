-- ===== src/Dedup/Swept.antt =====
-- What a sweep deletes from the claim table, and in which order.
use yugo.Base.{
  ◌↔◌, ℕ, zero, suc, ◌+◌, ◌≤◌, min, Text, text_eq, text_eq_iff, ◌≡◌, true, false, none, some, arith,
  count_where, Option-cases, Bool-cases, inl, inr,
}
use yugo.Dedup.Oldest.{oldest_found, oldest_first, count_others, others_found, others_kept}
use yugo.Dedup.Table.{is_expired, Row, Table, find, oldest_expired, delete_oldest}
use yugo.Dedup.Find.{drop_if, IsUnique, find_id, find-delete, find-delete_none, delete-IsUnique}
use yugo.Dedup.Store.{prune}
use yugo.Dedup.Prune.{
  prune-eq-delete_oldest, expired, others, oldest_is_expired, oldest_none, delete_none, delete_some,
}

module _ (now ttl : ℕ) where
  -- A sweep of `n` deletes exactly the smaller of `n` and the number of expired rows.
  pub delete_oldest_count :
      (n : ℕ) (t : Table)
      → IsUnique t
      → (delete_oldest n now ttl t).1 ≡ min n (count_where (expired now ttl) t)
  delete_oldest_count zero t u = unfold delete_oldest in omega arith
  delete_oldest_count (suc n) t u = elim (Option-cases (oldest_expired now ttl t)) [
    | inl e ↦ rw (delete_none now ttl (suc n) t e) (omega (arith, oldest_none now ttl t e))
    | inr e ↦ rw (delete_some now ttl n t e.0 e.1) (
        omega (
          arith,
          delete_oldest_count n (others now ttl e.0 t) (delete-IsUnique _ t u),
          count_others now ttl t e.0 u (oldest_found now ttl t e.0 u e.1)
              (oldest_is_expired now ttl t e.0 e.1),
        ))
  ]

  delete_oldest_rest :
      (n : ℕ) (t : Table)
      → IsUnique t
      → count_where (expired now ttl) (delete_oldest n now ttl t).0 + (delete_oldest n now ttl t).1
        ≡ count_where (expired now ttl) t
  delete_oldest_rest zero t u = unfold delete_oldest in omega arith
  delete_oldest_rest (suc n) t u = elim (Option-cases (oldest_expired now ttl t)) [
    | inl e ↦ rw (delete_none now ttl (suc n) t e) (omega arith)
    | inr e ↦ rw (delete_some now ttl n t e.0 e.1) (
        omega (
          arith,
          delete_oldest_rest n (others now ttl e.0 t) (delete-IsUnique _ t u),
          count_others now ttl t e.0 u (oldest_found now ttl t e.0 u e.1)
              (oldest_is_expired now ttl t e.0 e.1),
        ))
  ]

  pub delete_oldest-IsUnique :
      (n : ℕ) (t : Table) → IsUnique t → IsUnique (delete_oldest n now ttl t).0
  delete_oldest-IsUnique zero t u = unfold delete_oldest in u
  delete_oldest-IsUnique (suc n) t u = elim (Option-cases (oldest_expired now ttl t)) [
    | inl e ↦ rw (delete_none now ttl (suc n) t e) u
    | inr e ↦
        rw (delete_some now ttl n t e.0 e.1)
          (delete_oldest-IsUnique n (others now ttl e.0 t) (delete-IsUnique _ t u))
  ]

  -- A row that is not completed and past its TTL stays.
  pub delete_oldest_keeps :
      (n : ℕ) (t : Table) (j : Text) (s : Row)
      → IsUnique t
      → find j t ≡ some s
      → expired now ttl s ≡ false
      → find j (delete_oldest n now ttl t).0 ≡ some s
  delete_oldest_keeps zero t j s u h x = unfold delete_oldest in h
  delete_oldest_keeps (suc n) t j s u h x = elim (Option-cases (oldest_expired now ttl t)) [
    | inl e ↦ rw (delete_none now ttl (suc n) t e) h
    | inr e ↦ rw (delete_some now ttl n t e.0 e.1) (
        delete_oldest_keeps n (others now ttl e.0 t) j s (delete-IsUnique _ t u)
          (others_kept now ttl t e.0 s j u h x (oldest_found now ttl t e.0 u e.1)
            (oldest_is_expired now ttl t e.0 e.1))
          x)
  ]

  -- No row appears.
  pub delete_oldest_absent :
      (n : ℕ) (t : Table) (j : Text) → find j t ≡ none → find j (delete_oldest n now ttl t).0 ≡ none
  delete_oldest_absent zero t j h = unfold delete_oldest in h
  delete_oldest_absent (suc n) t j h = elim (Option-cases (oldest_expired now ttl t)) [
    | inl e ↦ rw (delete_none now ttl (suc n) t e) h
    | inr e ↦
        rw (delete_some now ttl n t e.0 e.1)
          (delete_oldest_absent n (others now ttl e.0 t) j (find-delete_none _ j t h))
  ]

  -- Every row that is left was there.
  pub delete_oldest_from :
      (n : ℕ) (t : Table) (j : Text) (s : Row)
      → IsUnique t
      → find j (delete_oldest n now ttl t).0 ≡ some s
      → find j t ≡ some s
  delete_oldest_from zero t j s u h = unfold delete_oldest in h
  delete_oldest_from (suc n) t j s u h = elim (Option-cases (oldest_expired now ttl t)) [
    | inl e ↦ rw (delete_none now ttl (suc n) t e) at h
    | inr e ↦
        let ih = delete_oldest_from n (others now ttl e.0 t) j s (delete-IsUnique _ t u) in
        ground (
          arith,
          delete_some now ttl n t e.0 e.1,
          ih,
          find-delete (λ q. text_eq q.envelope_id e.0.envelope_id) j t u,
          Option-cases (find j t),
        )
  ]

  -- Whatever is deleted is at least as old as every expired row that stays.
  pub delete_oldest_order :
      (n : ℕ) (t : Table) (i j : Text) (gone kept : Row)
      → IsUnique t
      → find i t ≡ some gone
      → find i (delete_oldest n now ttl t).0 ≡ none
      → find j (delete_oldest n now ttl t).0 ≡ some kept
      → expired now ttl kept ≡ true
      → gone.first_seen ≤ kept.first_seen
  delete_oldest_order zero t i j gone kept u h g k x = unfold delete_oldest in cc
  delete_oldest_order (suc n) t i j gone kept u h g k x =
      elim (Option-cases (oldest_expired now ttl t)) [
        | inl e ↦ cc (delete_none now ttl (suc n) t e)
        | inr e ↦
            let was : find j t ≡ some kept = delete_oldest_from (suc n) t j kept u k in
            let step = delete_some now ttl n t e.0 e.1 in
            let others_i = others_found now ttl t e.0 gone i u h in
            elim (Bool-cases (text_eq gone.envelope_id e.0.envelope_id)) [
              | inl same ↦ ground (
                arith,
                oldest_first now ttl t e.0 kept j e.1 was,
                find_id i t gone h,
                text_eq_iff gone.envelope_id e.0.envelope_id,
                oldest_found now ttl t e.0 u e.1,
              )
              | inr differ ↦
                  delete_oldest_order n (others now ttl e.0 t) i j gone kept (delete-IsUnique _ t u)
                    (ground (arith, others_i)) (ground (arith, step)) (ground (arith, step)) x
            ]
      ]

  -- What is visible of a row, when one past its TTL counts as absent, is not changed by a sweep.
  pub delete_oldest_visible :
      (n : ℕ) (t : Table) (j : Text)
      → IsUnique t
      → drop_if (expired now ttl) (find j (delete_oldest n now ttl t).0)
        ≡ drop_if (expired now ttl) (find j t)
  delete_oldest_visible n t j u = elim (Option-cases (find j t)) [
    | inl e ↦ rw (e, delete_oldest_absent n t j e)
    | inr e ↦ elim (Bool-cases (expired now ttl e.0)) [
      | inl old ↦ elim (Option-cases (find j (delete_oldest n now ttl t).0)) [
        | inl gone ↦ rw (e.1, gone) (ground (arith, old))
        | inr left ↦
            rw (e.1, left.1) (ground (arith, old, e.1, delete_oldest_from n t j left.0 u left.1))
      ]
      | inr young ↦ rw (e.1, delete_oldest_keeps n t j e.0 u e.1 young)
    ]
  ]

-- On a table with its primary key intact, `prune` reports the smaller of its budget and the
-- number of rows that are completed and past the TTL, and that many fewer such rows are left.
pub prune_count :
    (now ttl budget : ℕ) (t : Table)
    → IsUnique t
    → ((prune now ttl budget t).1 ≡ min budget (count_where (is_expired now ttl) t))
      × (count_where (is_expired now ttl) (prune now ttl budget t).0 + (prune now ttl budget t).1
          ≡ count_where (is_expired now ttl) t)
prune_count now ttl budget t u =
    rw (prune-eq-delete_oldest now ttl budget t)
      (delete_oldest_count now ttl budget t u, delete_oldest_rest now ttl budget t u)

-- On a table with its primary key intact, a row that is pending or within its TTL is found under
-- its id after `prune` exactly if it was found before.
pub prune_keeps :
    (now ttl budget : ℕ) (t : Table) (j : Text) (s : Row)
    → IsUnique t
    → is_expired now ttl s ≡ false
    → (find j (prune now ttl budget t).0 ≡ some s) ↔ (find j t ≡ some s)
prune_keeps now ttl budget t j s u x =
    rw (prune-eq-delete_oldest now ttl budget t) (
      delete_oldest_from now ttl budget t j s u,
      λ h. delete_oldest_keeps now ttl budget t j s u h x,
    )

-- On a table with its primary key intact, an expired row that `prune` deletes was first seen no
-- later than any expired row that it leaves.
pub prune_oldest_first :
    (now ttl budget : ℕ) (t : Table) (i j : Text) (gone kept : Row)
    → IsUnique t
    → find i t ≡ some gone
    → find i (prune now ttl budget t).0 ≡ none
    → find j (prune now ttl budget t).0 ≡ some kept
    → is_expired now ttl kept ≡ true
    → gone.first_seen ≤ kept.first_seen
prune_oldest_first now ttl budget t i j gone kept u h g k x =
    let e = prune-eq-delete_oldest now ttl budget t in
    delete_oldest_order now ttl budget t i j gone kept u h (rw e at g) (rw e at k) x
