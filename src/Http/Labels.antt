-- ===== src/Http/Labels.antt =====
-- `_blocked_name` of yugo/http_tools.py by the labels of a host, which a dot separates.
use mathlib.Core.List.{append_assoc, reverse-append, reverse-reverse}
use yugo.Base.{
  ℕ, Text, text_eq, text_eq_iff, ◌≡◌, ◌↔◌, inl, inr, refl, ap, sym, ◌∙◌, Bool, true, false, ◌||◌,
  ◌==◌, ==_iff, Option, none, some, List, [], ◌∷◌, ◌++◌, if◌then◌else◌, arith, Bool-cases,
  starts_with, ends_with, split_on, reverse,
}
use yugo.Http.Origin.{blocked_name, blocked_names, first_under, is_under, without_dot}

or_true : (a b : Bool) → b ≡ true → (a || b) ≡ true
or_true a b h = ground arith

starts_with-split : (p t : Text) → starts_with p t ≡ true → (r : Text) × (t ≡ p ++ r)
unfolding starts_with
starts_with-split [] t h = (t, refl)
starts_with-split (c ∷ p) [] h = cc
starts_with-split (c ∷ p) (d ∷ t) h =
    let (r, e) = starts_with-split p t (ground arith) in
    let same = (==_iff c d).0 (ground arith) in (r, cc)

starts_with-append : (p r : Text) → starts_with p (p ++ r) ≡ true
unfolding starts_with
starts_with-append [] r = refl
starts_with-append (c ∷ p) r = ground (arith, starts_with-append p r)

ends_with-split : (p t : Text) → ends_with p t ≡ true → (r : Text) × (t ≡ r ++ p)
unfolding ends_with
ends_with-split p t h =
    let (r, e) = starts_with-split (reverse p) (reverse t) h in
    (
      reverse r,
      sym (reverse-reverse t)
          ∙ (ap (λ l. reverse l) e
              ∙ (reverse-append (reverse p) r ∙ ap (λ l. reverse r ++ l) (reverse-reverse p))),
    )

ends_with-append : (p r : Text) → ends_with p (r ++ p) ≡ true
unfolding ends_with
ends_with-append p r = rw (reverse-append r p) (starts_with-append (reverse p) (reverse r))

abbrev pub dot : ℕ
dot = b'.'

-- The labels of a host.
abbrev pub labels : Text → List Text
labels t = split_on dot t

split_on-nonempty : (t : Text) → (x : Text) × (xs : List Text) × (labels t ≡ x ∷ xs)
unfolding split_on
split_on-nonempty [] = ([], [], refl)
split_on-nonempty (c ∷ t) = elim (Bool-cases (c == dot)) [
  | inl y ↦ ([], labels t, rw y refl)
  | inr n ↦ let (x, xs, e) = split_on-nonempty t in (c ∷ x, xs, rw (n, e) refl)
]

labels-append : (a b : Text) → labels (a ++ (dot ∷ b)) ≡ labels a ++ labels b
unfolding split_on
labels-append [] b = refl
labels-append (c ∷ a) b = elim (Bool-cases (c == dot)) [
  | inl y ↦ rw y (ap (λ l. [] ∷ l) (labels-append a b))
  | inr n ↦ let (x, xs, e) = split_on-nonempty a in rw (n, labels-append a b, e) refl
]

-- The host of the labels.
join_rest : List Text → Text
join_rest [] = []
join_rest (x ∷ xs) = dot ∷ (x ++ join_rest xs)

join : List Text → Text
join [] = []
join (x ∷ xs) = x ++ join_rest xs

join-labels : (t : Text) → join (labels t) ≡ t
unfolding join join_rest split_on
join-labels [] = refl
join-labels (c ∷ t) =
    let (x, xs, e) = split_on-nonempty t in
    let ih : x ++ join_rest xs ≡ t = rw e at (join-labels t) in
    elim (Bool-cases (c == dot)) [
      | inl y ↦ let same = (==_iff c dot).0 y in rw (y, e, ih) (ap (λ d. d ∷ t) (sym same))
      | inr n ↦ rw (n, e) (ap (λ l. c ∷ l) ih)
    ]

join_rest-append : (ls ms : List Text) → join_rest (ls ++ ms) ≡ join_rest ls ++ join_rest ms
unfolding join_rest
join_rest-append [] ms = refl
join_rest-append (l ∷ ls) ms =
    ap (λ r. dot ∷ r)
      (ap (λ r. l ++ r) (join_rest-append ls ms)
        ∙ sym (append_assoc l (join_rest ls) (join_rest ms)))

join-append :
    (l : Text) (ls : List Text) (name : Text)
    → join ((l ∷ ls) ++ labels name) ≡ join (l ∷ ls) ++ (dot ∷ name)
unfolding join join_rest
join-append l ls name =
    let (m, ms, e) = split_on-nonempty name in
    let named : m ++ join_rest ms ≡ name = rw e at (join-labels name) in
    ap (λ r. l ++ r) (join_rest-append ls (labels name))
    ∙ (sym (append_assoc l (join_rest ls) (join_rest (labels name))) ∙ rw (e, named) refl)

-- The labels of the host end with those of the name.
abbrev pub EndsWith : Text → Text → Type 0
EndsWith host name = (ps : List Text) × (labels host ≡ ps ++ labels name)

is_under-EndsWith : (name host : Text) → is_under name host ≡ true → EndsWith host name
is_under-EndsWith name host h = elim (Bool-cases (text_eq host name)) [
  | inl y ↦ ([], ap (λ t. labels t) ((text_eq_iff host name).0 y))
  | inr n ↦
      let (r, e) = ends_with-split (dot ∷ name) host (rw n at h) in
      (labels r, ap (λ t. labels t) e ∙ labels-append r name)
]

EndsWith-is_under : (name host : Text) → EndsWith host name → is_under name host ≡ true
EndsWith-is_under name host ([], e) =
    let same : host ≡ name = sym (join-labels host) ∙ (ap join e ∙ join-labels name) in
    rw ((text_eq_iff host name).1 same) refl
EndsWith-is_under name host (p ∷ ps, e) =
    let same : host ≡ join (p ∷ ps) ++ (dot ∷ name) =
      sym (join-labels host) ∙ (ap join e ∙ join-append p ps name) in
    or_true (text_eq host name) (ends_with (dot ∷ name) host)
      (rw same (ends_with-append (dot ∷ name) (join (p ∷ ps))))

-- The host's labels end with those of none of the names.
abbrev pub AllOutside : List Text → Text → Type 0
AllOutside [] host = Unit
AllOutside (n ∷ ns) host = (¬ EndsWith host n) × AllOutside ns host

outside_if :
    (b : Bool) (n host : Text) (later : Option Text) (P : Type 0)
    → is_under n host ≡ b
    → (later ≡ none) ↔ P
    → ((if b then some n else later) ≡ none) ↔ ((¬ EndsWith host n) × P)
outside_if true n host later P e h = (λ x. cc, λ q. absurd (q.0 (is_under-EndsWith n host e)))
outside_if false n host later P e h =
    (λ x. (λ w. let f = EndsWith-is_under n host w in cc, h.0 x), λ q. h.1 q.1)

first_under-AllOutside :
    (ns : List Text) (host : Text) → (first_under ns host ≡ none) ↔ AllOutside ns host
unfolding first_under
first_under-AllOutside [] host = (λ h. tt, λ h. refl)
first_under-AllOutside (n ∷ ns) host =
    outside_if (is_under n host) n host (first_under ns host) (AllOutside ns host) refl
      (first_under-AllOutside ns host)

-- A host is let through exactly if the labels of its lower-case form, less one empty root label, end
-- with all the labels of no blocked name: whole labels are compared, and the host that is a blocked
-- name itself is refused too.
pub blocked_name-AllOutside :
    (lower : Text → Text) (host : Text)
    → (blocked_name lower host ≡ none) ↔ AllOutside blocked_names (without_dot (lower host))
unfolding blocked_name
blocked_name-AllOutside lower host = first_under-AllOutside blocked_names (without_dot (lower host))
