-- ===== src/Dedup/Oldest.antt =====
-- The oldest expired row of the claim table, and what its deletion leaves.
use yugo.Base.{
  ℕ, ◌+◌, ◌≤◌, Text, text_eq, text_eq_iff, text_eq_refl, ◌≡◌, refl, true, false, none, some, [],
  ◌∷◌, arith, if◌then◌else◌, count_where, keep_where, Option-cases, inl, inr,
}
use yugo.Dedup.Table.{Row, Table, find, delete_where, oldest_expired}
use yugo.Dedup.Find.{IsUnique, find_id, find-delete}
use yugo.Dedup.Prune.{expired, others}

module _ (now ttl : ℕ) where
  -- The oldest expired row is a row of the table, and no expired row is older.
  pub oldest_found :
      (t : Table) (r : Row)
      → IsUnique t
      → oldest_expired now ttl t ≡ some r
      → find r.envelope_id t ≡ some r
  unfolding oldest_expired find
  oldest_found [] r u h = cc
  oldest_found (s ∷ t) r u h = elim (Option-cases (oldest_expired now ttl t)) [
    | inl e ↦ ground (arith, e, text_eq_refl r.envelope_id)
    | inr e ↦ ground (
      arith,
      e.1,
      oldest_found t e.0 u.1 e.1,
      text_eq_refl r.envelope_id,
      text_eq_iff s.envelope_id r.envelope_id,
    )
  ]

  pub none-expired :
      (t : Table) (s : Row) (j : Text)
      → oldest_expired now ttl t ≡ none
      → find j t ≡ some s
      → expired now ttl s ≡ false
  unfolding oldest_expired find
  none-expired [] s j h f = cc
  none-expired (q ∷ t) s j h f = elim (Option-cases (oldest_expired now ttl t)) [
    | inl e ↦ ground (arith, e, none-expired t s j e)
    | inr e ↦ ground (arith, e.1)
  ]

  pub oldest_first :
      (t : Table) (r s : Row) (j : Text)
      → oldest_expired now ttl t ≡ some r
      → find j t ≡ some s
      → expired now ttl s ≡ true
      → r.first_seen ≤ s.first_seen
  unfolding oldest_expired find
  oldest_first [] r s j h f x = cc
  oldest_first (q ∷ t) r s j h f x = elim (Option-cases (oldest_expired now ttl t)) [
    | inl e ↦ ground (arith, e, none-expired t s j e)
    | inr e ↦ ground (arith, e.1, oldest_first t e.0 s j e.1)
  ]

  -- Deleting one expired row lowers their number by one.
  pub count_absent :
      (t : Table) (e : Text)
      → find e t ≡ none
      → count_where (expired now ttl) (delete_where (λ s. text_eq s.envelope_id e) t)
        ≡ count_where (expired now ttl) t
  unfolding count_where delete_where keep_where find
  count_absent [] e h = refl
  count_absent (s ∷ t) e h = ground (arith, count_absent t e)

  pub count_others :
      (t : Table) (r : Row)
      → IsUnique t
      → find r.envelope_id t ≡ some r
      → expired now ttl r ≡ true
      → count_where (expired now ttl) (others now ttl r t) + 1 ≡ count_where (expired now ttl) t
  unfolding count_where delete_where keep_where find
  count_others [] r u h x = cc
  count_others (s ∷ t) r u h x = ground (
    arith,
    count_others t r u.1,
    count_absent t s.envelope_id u.0,
    text_eq_iff s.envelope_id r.envelope_id,
  )

  -- What one deletion of the oldest leaves.
  pub others_found :
      (t : Table) (r s : Row) (j : Text)
      → IsUnique t
      → find j t ≡ some s
      → find j (others now ttl r t) ≡ (if text_eq s.envelope_id r.envelope_id then none else some s)
  others_found t r s j u h =
      rw (find-delete (λ s. text_eq s.envelope_id r.envelope_id) j t u, h) refl

  pub others_kept :
      (t : Table) (r s : Row) (j : Text)
      → IsUnique t
      → find j t ≡ some s
      → expired now ttl s ≡ false
      → find r.envelope_id t ≡ some r
      → expired now ttl r ≡ true
      → find j (others now ttl r t) ≡ some s
  others_kept t r s j u h x f y =
      rw (others_found t r s j u h)
        (ground (arith, text_eq_iff s.envelope_id r.envelope_id, find_id j t s h))
