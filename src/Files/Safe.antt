-- ===== src/Files/Safe.antt =====
-- What the parts that `_validated_parts` of yugo/filesystem_tools.py returns are like.
use yugo.Base.{
  ℕ, Text, codes, text_eq_iff, ◌≡◌, ◌≢◌, ◌⊎◌, inl, inr, refl, Bool, true, false, not, ◌&&◌, ◌==◌,
  List, [], ◌∷◌, all_of, keep_where, push_front, split_on, arith, Bool-cases,
}
use yugo.Json.{Value, null, bool, int, float, str, arr, obj}
use yugo.Files.Path.{
  Tool, path_error, done, is_empty_part, is_real_part, posix_parts, is_printable, is_encodable,
  is_not_up, is_clean, at_least_one, of_components, is_relative, validated_parts,
}

and_lem : (a b : Bool) → (a && b) ≡ true → (a ≡ true) × (b ≡ true)
and_lem a b h = (ground arith, ground arith)

-- The test passes at every character.
abbrev pub AllChars : (ℕ → Bool) → Text → Type 0
AllChars p t = all_of p t ≡ true

abbrev pub is_not_slash : ℕ → Bool
is_not_slash c = not (c == b'/')

-- One name in a directory: neither empty nor a dot or two, with no slash, no control character and
-- no lone surrogate.
abbrev pub IsName : Text → Type 0
IsName t =
    (t ≢ [])
    × (t ≢ codes ".")
    × (t ≢ codes "..")
    × AllChars is_not_slash t
    × AllChars is_printable t
    × AllChars is_encodable t

abbrev pub AllNames : List Text → Type 0
AllNames [] = Unit
AllNames (t ∷ ts) = IsName t × AllNames ts

abbrev AllWhole : List Text → Type 0
AllWhole [] = Unit
AllWhole (t ∷ ts) = AllChars is_not_slash t × AllWhole ts

push_front-AllWhole :
    (c : ℕ) (ts : List Text) → is_not_slash c ≡ true → AllWhole ts → AllWhole (push_front c ts)
unfolding all_of
push_front-AllWhole c [] n h = (ground arith, tt)
push_front-AllWhole c (t ∷ ts) n h = (rw n h.0, h.1)

split_on-AllWhole : (t : Text) → AllWhole (split_on b'/' t)
unfolding split_on all_of
split_on-AllWhole [] = (refl, tt)
split_on-AllWhole (c ∷ t) = elim (Bool-cases (c == b'/')) [
  | inl y ↦ rw y (refl, split_on-AllWhole t)
  | inr n ↦ rw n (push_front-AllWhole c (split_on b'/' t) (rw n refl) (split_on-AllWhole t))
]

-- Those parts that are kept are neither empty nor a dot.
abbrev AllReal : List Text → Type 0
AllReal [] = Unit
AllReal (t ∷ ts) = ((is_empty_part t ≡ false) × AllChars is_not_slash t) × AllReal ts

keep_where-AllReal : (ts : List Text) → AllWhole ts → AllReal (keep_where is_real_part ts)
unfolding keep_where
keep_where-AllReal [] h = tt
keep_where-AllReal (t ∷ ts) h = elim (Bool-cases (is_empty_part t)) [
  | inl y ↦ rw y (keep_where-AllReal ts h.1)
  | inr n ↦ rw n ((n, h.0), keep_where-AllReal ts h.1)
]

not-empty : (t : Text) → is_empty_part t ≡ false → (t ≢ []) × (t ≢ codes ".")
unfolding is_empty_part
not-empty [] h = cc
not-empty (c ∷ t) h = (λ e. cc, λ e. ground (arith, text_eq_iff (c ∷ t) (codes ".")))

not-up : (t : Text) → is_not_up t ≡ true → t ≢ codes ".."
not-up t h e = ground (arith, text_eq_iff t (codes ".."))

AllReal-AllNames :
    (ts : List Text)
    → AllReal ts
    → all_of is_not_up ts ≡ true
    → all_of is_clean ts ≡ true
    → AllNames ts
unfolding all_of
AllReal-AllNames [] h u c = tt
AllReal-AllNames (t ∷ ts) h u c =
    let (empty, dot) = not-empty t h.0.0 in
    let (up, ups) = and_lem (is_not_up t) (all_of is_not_up ts) u in
    let (clean, cleans) = and_lem (is_clean t) (all_of is_clean ts) c in
    let (encodable, printable) = and_lem (all_of is_encodable t) (all_of is_printable t) clean in
    ((empty, dot, not-up t up, h.0.1, printable, encodable), AllReal-AllNames ts h.1 ups cleans)

-- What a result that is no error satisfies.
abbrev pub OfTool : (allow_root : Bool) → Tool (List Text) → Type 0
OfTool allow_root path_error = Unit
OfTool allow_root (done ps) = AllNames ps × ((ps ≢ []) ⊎ (allow_root ≡ true))

at_least_one-OfTool :
    (allow_root : Bool) (ps : List Text)
    → AllNames ps
    → OfTool allow_root (at_least_one allow_root ps)
at_least_one-OfTool true [] h = (h, inr refl)
at_least_one-OfTool false [] h = tt
at_least_one-OfTool allow_root (p ∷ ps) h = (h, inl (λ e. cc))

of_components-OfTool :
    (allow_root : Bool) (ps : List Text)
    → AllReal ps
    → OfTool allow_root (of_components allow_root ps)
of_components-OfTool allow_root ps h =
    elim (Bool-cases (all_of is_not_up ps && all_of is_clean ps)) [
      | inl y ↦
          let (ups, cleans) = and_lem (all_of is_not_up ps) (all_of is_clean ps) y in
          rw y (at_least_one-OfTool allow_root ps (AllReal-AllNames ps h ups cleans))
      | inr n ↦ rw n tt
    ]

-- Whatever path the model writes, the parts that come back are names of one directory entry each:
-- none empty, a dot or two dots, none with a slash, a control character or a lone surrogate; and
-- there is at least one unless the caller allows the root.
pub validated_parts-AllNames :
    (allow_root : Bool) (path : Value) → OfTool allow_root (validated_parts allow_root path)
unfolding validated_parts posix_parts
validated_parts-AllNames allow_root (str t) = elim (Bool-cases (is_relative t)) [
  | inl y ↦ rw y (
      of_components-OfTool allow_root (posix_parts t)
        (keep_where-AllReal (split_on b'/' t) (split_on-AllWhole t)))
  | inr n ↦ rw n tt
]
validated_parts-AllNames allow_root null = tt
validated_parts-AllNames allow_root (bool b) = tt
validated_parts-AllNames allow_root (int n) = tt
validated_parts-AllNames allow_root (float t) = tt
validated_parts-AllNames allow_root (arr vs) = tt
validated_parts-AllNames allow_root (obj d) = tt
