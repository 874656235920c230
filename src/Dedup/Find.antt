-- ===== src/Dedup/Find.antt =====
-- What each statement on the claim table does to the row of an id.
use yugo.Base.{
  ℕ, Text, text_eq, text_eq_iff, ◌≡◌, ◌≢◌, refl, Bool, true, false, Option, none, some, [], ◌∷◌,
  ◌++◌, arith, if◌then◌else◌, keep_where, count_where, map_where, Option-cases, inl, inr,
}
use yugo.Dedup.Table.{Row, Table, find, delete_where}

-- PRIMARY KEY: no id has two rows.
abbrev pub IsUnique : Table → Type 0
IsUnique [] = Unit
IsUnique (r ∷ t) = (find r.envelope_id t ≡ none) × IsUnique t

pub find_id : (e : Text) (t : Table) (r : Row) → find e t ≡ some r → r.envelope_id ≡ e
unfolding find
find_id e [] r h = cc
find_id e (s ∷ t) r h = ground (arith, find_id e t r, text_eq_iff s.envelope_id e)

abbrev pub drop_if : (Row → Bool) → Option Row → Option Row
drop_if p none = none
drop_if p (some r) = if p r then none else some r

pub find-delete_none :
    (p : Row → Bool) (e : Text) (t : Table) → find e t ≡ none → find e (delete_where p t) ≡ none
unfolding find delete_where keep_where
find-delete_none p e [] h = refl
find-delete_none p e (r ∷ t) h = ground (arith, find-delete_none p e t)

pub find-delete :
    (p : Row → Bool) (e : Text) (t : Table)
    → IsUnique t
    → find e (delete_where p t) ≡ drop_if p (find e t)
unfolding find delete_where keep_where
find-delete p e [] h = refl
find-delete p e (r ∷ t) h =
    ground (arith, find-delete p e t h.1, find-delete_none p e t, text_eq_iff r.envelope_id e)

pub delete-IsUnique : (p : Row → Bool) (t : Table) → IsUnique t → IsUnique (delete_where p t)
unfolding delete_where keep_where
delete-IsUnique p [] h = tt
delete-IsUnique p (r ∷ t) h =
    ground (arith, delete-IsUnique p t h.1, find-delete_none p r.envelope_id t h.0)

abbrev pub or_else : Option Row → Option Row → Option Row
or_else none b = b
or_else (some r) b = some r

abbrev pub only : Row → Text → Option Row
only r e = if text_eq r.envelope_id e then some r else none

pub find-append :
    (e : Text) (t : Table) (r : Row) → find e (t ++ r ∷ []) ≡ or_else (find e t) (only r e)
unfolding find
find-append e [] r = refl
find-append e (s ∷ t) r = ground (arith, find-append e t r)

pub append-IsUnique :
    (t : Table) (r : Row) → IsUnique t → find r.envelope_id t ≡ none → IsUnique (t ++ r ∷ [])
unfolding find
append-IsUnique [] r u h = (refl, tt)
append-IsUnique (s ∷ t) r u h = ground (
  arith,
  append-IsUnique t r u.1,
  find-append s.envelope_id t r,
  text_eq_iff s.envelope_id r.envelope_id,
  text_eq_iff r.envelope_id s.envelope_id,
)

-- `f` writes no id.
abbrev pub KeepsId : (Row → Row) → Type 0
KeepsId f = (r : Row) → (f r).envelope_id ≡ r.envelope_id

abbrev pub change_if : (Row → Bool) → (Row → Row) → Option Row → Option Row
change_if p f none = none
change_if p f (some r) = some (if p r then f r else r)

pub find-map :
    (p : Row → Bool) (f : Row → Row) (e : Text) (t : Table)
    → KeepsId f
    → find e (map_where p f t) ≡ change_if p f (find e t)
unfolding find map_where
find-map p f e [] k = refl
find-map p f e (r ∷ t) k = ground (arith, find-map p f e t k, k r)

pub map-IsUnique :
    (p : Row → Bool) (f : Row → Row) (t : Table)
    → KeepsId f
    → IsUnique t
    → IsUnique (map_where p f t)
unfolding map_where
map-IsUnique p f [] k u = tt
map-IsUnique p f (r ∷ t) k u =
    ground (arith, map-IsUnique p f t k u.1, find-map p f r.envelope_id t k, k r)

abbrev pub count_if : (Row → Bool) → Option Row → ℕ
count_if p none = 0
count_if p (some r) = if p r then 1 else 0

-- `p` names the id `e` in its condition.
abbrev pub IsAt : Text → (Row → Bool) → Type 0
IsAt e p = (r : Row) → p r ≡ true → r.envelope_id ≡ e

count_absent :
    (p : Row → Bool) (e : Text) (t : Table) → IsAt e p → find e t ≡ none → count_where p t ≡ 0
unfolding find count_where
count_absent p e [] a h = refl
count_absent p e (r ∷ t) a h =
    ground (arith, count_absent p e t a, a r, text_eq_iff r.envelope_id e)

pub count_at :
    (p : Row → Bool) (e : Text) (t : Table)
    → IsAt e p
    → IsUnique t
    → count_where p t ≡ count_if p (find e t)
unfolding find count_where
count_at p e [] a u = refl
count_at p e (r ∷ t) a u =
    ground (arith, count_at p e t a u.1, count_absent p e t a, a r, text_eq_iff r.envelope_id e)

-- A statement whose condition names one id leaves every other id alone.
module _ (p : Row → Bool) (e j : Text) (t : Table) (a : IsAt e p) (other : e ≢ j) where
  test_other : (r : Row) → find j t ≡ some r → p r ≡ false
  test_other r h = ground (arith, a r, find_id j t r h)

  pub find-delete_ne : IsUnique t → find j (delete_where p t) ≡ find j t
  find-delete_ne u = elim (Option-cases (find j t)) [
    | inl h ↦ rw (find-delete p j t u, h)
    | inr h ↦ rw (find-delete p j t u, h.1) (ground (arith, test_other h.0 h.1))
  ]

  pub find-map_ne : (f : Row → Row) → KeepsId f → find j (map_where p f t) ≡ find j t
  find-map_ne f k = elim (Option-cases (find j t)) [
    | inl h ↦ rw (find-map p f j t k, h)
    | inr h ↦ rw (find-map p f j t k, h.1) (ground (arith, test_other h.0 h.1))
  ]
