-- ===== src/Bus/Pass.antt =====
-- What one pass of a baton through this bot does to its fields.
use text.Mathlib.Text.{◌==◌ as str_eq}
use Prim.Native.String.{String}
use yugo.Base.{
  Bool, true, false, ◌||◌, Option, none, some, if◌then◌else◌, arith, ◌≡◌, refl, Option-cases, inl,
  inr,
}
use yugo.Base.Int.{pos}
use yugo.Json.{String-cases, Value, Dict, int, has, lookup, has-lookup, get-lookup}
use yugo.Bus.Baton.{next_baton_fields, next_hops, copy_field, is_passthrough_field, add_one}

-- The count that goes out for a received envelope.
abbrev pub hops_out : Option Value → Bool → Option Value
hops_out (some v) chain = some (add_one v)
hops_out none true = some (int (pos 1))
hops_out none false = none

abbrev pub in_chain : Dict → Bool
in_chain d = has "root_id" d || (has "origin" d || has "owner" d)

abbrev first_of_two : Option Value → Option Value → Option Value
first_of_two none b = b
first_of_two (some v) b = some v

first_of_none : (o : Option Value) → first_of_two o none ≡ o
first_of_none none = refl
first_of_none (some v) = refl

lookup-copy :
    (k j : String) (d rest : Dict)
    → lookup j (copy_field k d rest)
      ≡ (if str_eq k j then first_of_two (lookup k d) (lookup j rest) else lookup j rest)
unfolding copy_field lookup
lookup-copy k j d rest = elim (Option-cases (lookup k d)) [
  | inl gone ↦ ground (arith, gone)
  | inr found ↦ ground (arith, found.1)
]

lookup-next_hops :
    (j : String) (d : Dict)
    → lookup j (next_hops d)
      ≡ (if str_eq "hops" j then hops_out (lookup "hops" d) (in_chain d) else none)
unfolding next_hops lookup
lookup-next_hops j d = elim (Option-cases (lookup "hops" d)) [
  | inl gone ↦ ground (arith, gone, has-lookup "hops" d)
  | inr found ↦ ground (arith, found.1, has-lookup "hops" d, get-lookup "hops" d)
]

next_lookup :
    (k : String) (d : Dict)
    → lookup k (next_baton_fields d) ≡ (
        if str_eq "root_id" k
        then first_of_two
            (lookup "root_id" d)
            (lookup k (copy_field "origin" d (copy_field "owner" d (next_hops d))))
        else lookup k (copy_field "origin" d (copy_field "owner" d (next_hops d))))
unfolding next_baton_fields
next_lookup k d =
    lookup-copy "root_id" k d (copy_field "origin" d (copy_field "owner" d (next_hops d)))

-- What is sent onward carries `root_id`, `origin` and `owner` as they came, one hop more than came
-- (one, where a chain came with no count), and nothing else.
pub next_baton_lookup :
    (k : String) (d : Dict)
    → lookup k (next_baton_fields d) ≡ (
        if is_passthrough_field k
        then lookup k d
        else if str_eq "hops" k
        then hops_out (lookup "hops" d) (in_chain d)
        else none)
next_baton_lookup k d = elim (String-cases "root_id" k) [
  | inl e ↦
      rw (← e)
        (simp (next_lookup, lookup-copy, lookup-next_hops) (first_of_none (lookup "root_id" d)))
  | inr n ↦ elim (String-cases "origin" k) [
    | inl e ↦
        rw (← e)
          (simp (next_lookup, lookup-copy, lookup-next_hops) (first_of_none (lookup "origin" d)))
    | inr m ↦ elim (String-cases "owner" k) [
      | inl e ↦
          rw (← e)
            (simp (next_lookup, lookup-copy, lookup-next_hops) (first_of_none (lookup "owner" d)))
      | inr l ↦ simp (next_lookup, lookup-copy, lookup-next_hops, n, m, l)
    ]
  ]
]
