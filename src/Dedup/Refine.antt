-- ===== src/Dedup/Refine.antt =====
-- The statements of yugo/dedup_store.py implement the specification row by row, and touch no other
-- id.
use yugo.Base.{
  ℕ, Text, text_eq_iff, text_eq_refl, ◌≡◌, ◌≢◌, refl, sym, ◌∙◌, true, Option, none, some, [], ◌∷◌,
  ◌++◌, arith, Option-cases, inl, inr,
}
use yugo.Dedup.Table.{
  MonoMs, ms, malformed, Row, Table, find, is_expired, is_stale, is_pending, delete_where,
  insert_or_ignore,
}
use yugo.Dedup.Clock.{Result, ok, err, LeaseClock, mono_eq}
use yugo.Dedup.Find.{
  IsUnique, KeepsId, IsAt, find_id, find-delete, delete-IsUnique, find-append, append-IsUnique,
  find-map, map-IsUnique, count_at, find-delete_ne, find-map_ne, drop_if,
}
use yugo.Dedup.Store.{
  Env, fresh_row, eligible, retake, granted, as_read, take_over, claim_existing, claim_inserted,
  claim_swept,
}
use yugo.Dedup.Spec.{contend, claim_live, claim_row}

-- The result of an operation with the row of one id instead of the table.
abbrev pub at_id {ℓ} : {A : Type ℓ} → Text → Result (A × Table) → Result (A × Option Row)
at_id e (err x) = err x
at_id e (ok (a, t)) = ok (a, find e t)

abbrev pub table_of {ℓ} : {A : Type ℓ} → Table → Result (A × Table) → Table
table_of t (err x) = t
table_of t (ok (a, t')) = t'

mono_eq_refl : (m : MonoMs) → mono_eq m m ≡ true
mono_eq_refl (ms d) = ground arith
mono_eq_refl malformed = refl

as_read-IsAt : (r : Row) (e : Text) → r.envelope_id ≡ e → IsAt e (as_read r)
unfolding as_read
as_read-IsAt r e h s q = ground (arith, text_eq_iff s.envelope_id r.envelope_id)

as_read_self : (r : Row) → is_pending r.state ≡ true → as_read r r ≡ true
unfolding as_read
as_read_self r h = ground (
  arith,
  text_eq_refl r.envelope_id,
  text_eq_refl r.lease_owner,
  text_eq_refl r.lease_boot_id,
  mono_eq_refl r.lease_until_mono,
)

module _ (env : Env) (clock : LeaseClock) (lease : ℕ) where
  retake-KeepsId : KeepsId (retake env clock lease)
  retake-KeepsId r = refl

  -- A takeover is one row of the table.
  take_over_lem :
      (r : Row) (e : Text) (t : Table)
      → IsUnique t
      → find e t ≡ some r
      → is_pending r.state ≡ true
      → (take_over env clock lease r t).0 ≡ granted r.req_id env.token
  unfolding take_over
  take_over_lem r e t u h p =
      ground
        (arith, count_at (as_read r) e t (as_read-IsAt r e (find_id e t r h)) u, as_read_self r p)

  take_over_row :
      (r : Row) (e : Text) (t : Table)
      → IsUnique t
      → find e t ≡ some r
      → is_pending r.state ≡ true
      → find e (take_over env clock lease r t).1 ≡ some (retake env clock lease r)
  unfolding take_over
  take_over_row r e t u h p =
      ground
        (arith, find-map (as_read r) (retake env clock lease) e t retake-KeepsId, as_read_self r p)

  existing_row :
      (r : Row) (e : Text) (t : Table)
      → IsUnique t
      → find e t ≡ some r
      → at_id e (claim_existing env clock lease r t) ≡ contend env clock lease r
  unfolding claim_existing eligible
  existing_row r e t u h = ground (arith, take_over_lem r e t u h, take_over_row r e t u h)

  stale-IsAt : (ttl : ℕ) (e : Text) → IsAt e (is_stale e env.now ttl)
  stale-IsAt ttl e r h = ground (arith, text_eq_iff r.envelope_id e)

  stale_row :
      (ttl : ℕ) (e : Text) (t : Table)
      → IsUnique t
      → find e (delete_where (is_stale e env.now ttl) t)
        ≡ drop_if (is_expired env.now ttl) (find e t)
  stale_row ttl e t u = elim (Option-cases (find e t)) [
    | inl h ↦ rw (find-delete (is_stale e env.now ttl) e t u, h)
    | inr h ↦
        rw (find-delete (is_stale e env.now ttl) e t u, h.1)
          (ground (arith, find_id e t h.0 h.1, text_eq_refl e))
  ]

  inserted_row :
      (e req : Text) (t : Table)
      → IsUnique t
      → at_id e (claim_inserted env clock lease e req t)
        ≡ claim_live env clock lease e req (find e t)
  unfolding claim_inserted insert_or_ignore
  inserted_row e req t u = elim (Option-cases (find e t)) [
    | inl h ↦ ground (arith, find-append e t (fresh_row env clock lease e req), text_eq_refl e)
    | inr h ↦ ground (arith, existing_row h.0 e t u h.1)
  ]

  -- The statements after the sweep give the claim, and leave the row, that the specification says.
  pub claim_swept_row :
      (ttl : ℕ) (e req : Text) (t : Table)
      → IsUnique t
      → at_id e (claim_swept env clock ttl lease e req t)
        ≡ claim_row env clock ttl lease e req (find e t)
  unfolding claim_swept
  claim_swept_row ttl e req t u =
      rw (← stale_row ttl e t u) (inserted_row e req _ (delete-IsUnique _ t u))

  take_over-IsUnique :
      (r : Row) (t : Table) → IsUnique t → IsUnique (take_over env clock lease r t).1
  unfolding take_over
  take_over-IsUnique r t u = map-IsUnique (as_read r) (retake env clock lease) t retake-KeepsId u

  existing-IsUnique :
      (r : Row) (t : Table)
      → IsUnique t
      → IsUnique (table_of t (claim_existing env clock lease r t))
  unfolding claim_existing
  existing-IsUnique r t u = ground (arith, take_over-IsUnique r t u)

  -- INSERT OR IGNORE decides by the row of the id.
  inserted_new :
      (e req : Text) (t : Table)
      → find e t ≡ none
      → claim_inserted env clock lease e req t
        ≡ ok (granted req env.token, t ++ fresh_row env clock lease e req ∷ [])
  unfolding claim_inserted insert_or_ignore
  inserted_new e req t h = ground arith

  inserted_old :
      (e req : Text) (t : Table) (r : Row)
      → find e t ≡ some r
      → claim_inserted env clock lease e req t ≡ claim_existing env clock lease r t
  unfolding claim_inserted insert_or_ignore
  inserted_old e req t r h = ground arith

  inserted-IsUnique :
      (e req : Text) (t : Table)
      → IsUnique t
      → IsUnique (table_of t (claim_inserted env clock lease e req t))
  inserted-IsUnique e req t u = elim (Option-cases (find e t)) [
    | inl h ↦ rw (inserted_new e req t h) (append-IsUnique t (fresh_row env clock lease e req) u h)
    | inr h ↦ rw (inserted_old e req t h.0 h.1) (existing-IsUnique h.0 t u)
  ]

  take_over_ne :
      (r : Row) (j : Text) (t : Table)
      → r.envelope_id ≢ j
      → find j (take_over env clock lease r t).1 ≡ find j t
  unfolding take_over
  take_over_ne r j t n =
      find-map_ne (as_read r) r.envelope_id j t (as_read-IsAt r r.envelope_id refl) n
        (retake env clock lease) retake-KeepsId

  existing_ne :
      (r : Row) (j : Text) (t : Table)
      → r.envelope_id ≢ j
      → find j (table_of t (claim_existing env clock lease r t)) ≡ find j t
  unfolding claim_existing
  existing_ne r j t n = ground (arith, take_over_ne r j t n)

  inserted_ne :
      (e req j : Text) (t : Table)
      → e ≢ j
      → find j (table_of t (claim_inserted env clock lease e req t)) ≡ find j t
  inserted_ne e req j t n = elim (Option-cases (find e t)) [
    | inl h ↦ rw (inserted_new e req t h) (
        ground (
          arith,
          find-append j t (fresh_row env clock lease e req),
          text_eq_iff e j,
          Option-cases (find j t),
        ))
    | inr h ↦
        rw (inserted_old e req t h.0 h.1)
          (existing_ne h.0 j t (λ q. n (sym (find_id e t h.0 h.1) ∙ q)))
  ]

  -- The statements of a claim touch no other id.
  pub claim_swept_ne :
      (ttl : ℕ) (e req j : Text) (t : Table)
      → IsUnique t
      → e ≢ j
      → find j (table_of t (claim_swept env clock ttl lease e req t)) ≡ find j t
  unfolding claim_swept
  claim_swept_ne ttl e req j t u n =
      let t1 = delete_where (is_stale e env.now ttl) t in
      ground (
        arith,
        inserted_ne e req j t1 n,
        find-delete_ne (is_stale e env.now ttl) e j t (stale-IsAt ttl e) n u,
      )

  pub claim_swept-IsUnique :
      (ttl : ℕ) (e req : Text) (t : Table)
      → IsUnique t
      → IsUnique (table_of t (claim_swept env clock ttl lease e req t))
  unfolding claim_swept
  claim_swept-IsUnique ttl e req t u =
      ground (arith, inserted-IsUnique e req _ (delete-IsUnique (is_stale e env.now ttl) t u))
