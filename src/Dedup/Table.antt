-- ===== src/Dedup/Table.antt =====
-- The table `envelope_dedup_v2` of yugo/dedup_verification.py, in the order of its rowids, and the
-- statements that yugo/dedup_store.py runs on it.
use yugo.Base.{
  ℕ, zero, suc, ◌+◌, Text, text_eq, Bool, true, false, not, ◌&&◌, Option, none, some, List, [], ◌∷◌,
  ◌++◌, ltb, if◌then◌else◌, keep_where,
}

-- CHECK(state IN ('pending','completed'))
pub data State : Type 0 where
  pending completed : State

-- What the INTEGER column `lease_until_mono_ms` holds: `malformed` is a negative number or no
-- integer at all, which the code refuses.
pub data MonoMs : Type 0 where
  ms : ℕ → MonoMs
  malformed : MonoMs

pub record Row : Type 0 where
  pub envelope_id : Text
  pub first_seen : ℕ
  pub req_id : Text
  pub state : State
  pub lease_owner : Text
  pub lease_until : ℕ
  pub lease_boot_id : Text
  pub lease_until_mono : MonoMs

abbrev pub Table : Type 0
Table = List Row

abbrev pub is_pending : State → Bool
is_pending pending = true
is_pending completed = false

abbrev pub is_completed : State → Bool
is_completed pending = false
is_completed completed = true

-- SELECT ... WHERE envelope_id=?
unfoldable pub find : Text → Table → Option Row
find eid [] = none
find eid (r ∷ t) = if text_eq r.envelope_id eid then some r else find eid t

-- WHERE envelope_id=? AND lease_owner=? AND state='pending'
abbrev pub held_by : Text → Text → Row → Bool
held_by eid owner r =
    text_eq r.envelope_id eid && (text_eq r.lease_owner owner && is_pending r.state)

-- A completed row that is older than the TTL: `first_seen_s < now - ttl_s`.
abbrev pub is_expired : ℕ → ℕ → Row → Bool
is_expired now ttl r = is_completed r.state && ltb (r.first_seen + ttl) now

-- DELETE ... WHERE envelope_id=? AND state='completed' AND first_seen_s < ?
abbrev pub is_stale : Text → ℕ → ℕ → Row → Bool
is_stale eid now ttl r = text_eq r.envelope_id eid && is_expired now ttl r

unfoldable pub delete_where : (Row → Bool) → Table → Table
delete_where p t = keep_where (λ r. not (p r)) t

-- INSERT OR IGNORE, with its rowcount: a new rowid is the largest, and a row whose primary key is
-- taken is ignored.
unfoldable pub insert_or_ignore : Row → Table → Table × ℕ
insert_or_ignore r t = elim (find r.envelope_id t) [ none ↦ (t ++ r ∷ [], 1) | some _ ↦ (t, 0) ]

-- The oldest expired row, the first one by rowid among equals.
unfoldable pub oldest_expired : ℕ → ℕ → Table → Option Row
oldest_expired now ttl [] = none
oldest_expired now ttl (r ∷ t) =
    let rest = oldest_expired now ttl t in
    if is_expired now ttl r
    then elim rest [
      | none ↦ some r
      | some s ↦ if ltb s.first_seen r.first_seen then some s else some r
    ]
    else rest

-- DELETE ... WHERE rowid IN (SELECT rowid ... WHERE state='completed' AND first_seen_s < ?
-- ORDER BY first_seen_s LIMIT n), with its rowcount: n times the oldest expired row, while there
-- is one. The row is named by its primary key.
unfoldable pub delete_oldest : ℕ → ℕ → ℕ → Table → Table × ℕ
unfolding oldest_expired delete_where
delete_oldest zero now ttl t = (t, 0)
delete_oldest (suc n) now ttl t = elim (oldest_expired now ttl t) [
  | none ↦ (t, 0)
  | some r ↦
      let (t', k) =
        delete_oldest n now ttl (delete_where (λ s. text_eq s.envelope_id r.envelope_id) t) in
      (t', k + 1)
]
