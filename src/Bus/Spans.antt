-- ===== src/Bus/Spans.antt =====
-- Where the tags stand that `find_bus_tags` of yugo/fleet_bus.py finds.
use yugo.Base.{
  find_offset, starts_with, length-drop, ℕ, zero, suc, ◌+◌, ◌≤◌, ◌<◌, Text, ◌≡◌, refl, sym, subst,
  true, ◌==◌, Option, none, some, List, [], ◌∷◌, arith, length, drop, Option-cases, Bool-cases, inl,
  inr,
}
use yugo.Bus.Platform.{Platform}
use yugo.Bus.Tags.{
  BusTag, Step, last, tag, tag_open, tag_close, scan_open_tag, read_tag, scan_tags, find_bus_tags,
  is_other_word, whole_tag,
}

starts_with_fits : (p t : Text) → starts_with p t ≡ true → length p ≤ length t
unfolding starts_with
starts_with_fits [] t h = omega arith
starts_with_fits (c ∷ p) [] h = cc
starts_with_fits (c ∷ p) (d ∷ t) h = ground (arith, starts_with_fits p t)

pub find_offset_fits : (p t : Text) (n : ℕ) → find_offset p t ≡ some n → n + length p ≤ length t
unfolding find_offset
find_offset_fits p [] n h = cc
find_offset_fits p (c ∷ t) n h = elim (Option-cases (find_offset p t)) [
  | inl gone ↦ ground (arith, gone, starts_with_fits p (c ∷ t))
  | inr found ↦
      ground (arith, found.1, starts_with_fits p (c ∷ t), find_offset_fits p t found.0 found.1)
]

scan_fits : (q : Option ℕ) (t : Text) (n : ℕ) → scan_open_tag q t ≡ some n → n < length t
unfolding scan_open_tag
scan_fits q [] n h = cc
scan_fits none (c ∷ t) n h = elim (Option-cases (scan_open_tag none t)) [
  | inl gone ↦ elim (Option-cases (scan_open_tag (some c) t)) [
    | inl none_quoted ↦ ground (arith, gone, none_quoted)
    | inr quoted ↦ ground (arith, gone, quoted.1, scan_fits (some c) t quoted.0 quoted.1)
  ]
  | inr found ↦ elim (Option-cases (scan_open_tag (some c) t)) [
    | inl none_quoted ↦ ground (arith, found.1, none_quoted, scan_fits none t found.0 found.1)
    | inr quoted ↦ ground (
      arith,
      found.1,
      quoted.1,
      scan_fits none t found.0 found.1,
      scan_fits (some c) t quoted.0 quoted.1,
    )
  ]
]
scan_fits (some q) (c ∷ t) n h = elim (Bool-cases (c == q)) [
  | inl closes ↦ elim (Option-cases (scan_open_tag none t)) [
    | inl gone ↦ ground (arith, closes, gone)
    | inr found ↦ ground (arith, closes, found.1, scan_fits none t found.0 found.1)
  ]
  | inr goes_on ↦ elim (Option-cases (scan_open_tag (some q) t)) [
    | inl gone ↦ ground (arith, goes_on, gone)
    | inr found ↦ ground (arith, goes_on, found.1, scan_fits (some q) t found.0 found.1)
  ]
]

-- The tags stand in order between two positions, apart from one another, and none is empty.
abbrev pub Spans : ℕ → ℕ → List BusTag → Type 0
Spans lo hi [] = lo ≤ hi
Spans lo hi (b ∷ tags) = (lo ≤ b.start) × (b.start < b.end) × Spans b.end hi tags

-- A step over a text of `size` characters, from a tag that begins at `start`.
abbrev pub StepFits : ℕ → ℕ → Step → Type 0
StepFits size start (last b) = (b.start ≡ start) × (b.end ≡ size)
StepFits size start (tag b end rest) =
    (b.start ≡ start) × (b.end ≡ end) × (start < end) × (end + length rest ≡ size)

module _ (p : Platform) where
  whole_tag_span :
      (start end : ℕ) (body : Text) (attrs : Option (List (Text × Text)))
      → ((whole_tag start end body attrs).start ≡ start)
        × ((whole_tag start end body attrs).end ≡ end)
  whole_tag_span start end body none = (refl, refl)
  whole_tag_span start end body (some attrs) = (refl, refl)

  pub read_tag_fits :
      (size start after : ℕ) (tail : Text)
      → start < after
      → after + length tail ≡ size
      → StepFits size start (read_tag p size start after tail)
  unfolding read_tag
  read_tag_fits size start after tail lt eq = elim (Option-cases (scan_open_tag none tail)) [
    | inl gone ↦ rw (gone, StepFits) (refl, refl)
    | inr found ↦ elim (Option-cases (find_offset tag_close (drop (suc found.0) tail))) [
      | inl unclosed_body ↦ rw (found.1, StepFits) (rw (unclosed_body, StepFits) (refl, refl))
      | inr closed ↦
          rw (found.1, StepFits)
            (rw (closed.1, StepFits)
              (
                (whole_tag_span start _ _ _).0,
                (whole_tag_span start _ _ _).1,
                omega arith,
                omega (
                  arith,
                  length-drop (closed.0 + 6) (drop (suc found.0) tail),
                  length-drop (suc found.0) tail,
                  scan_fits none tail found.0 found.1,
                  find_offset_fits tag_close (drop (suc found.0) tail) closed.0 closed.1,
                ),
              ))
    ]
  ]

  lower : (lo lo' hi : ℕ) (tags : List BusTag) → lo' ≤ lo → Spans lo hi tags → Spans lo' hi tags
  lower lo lo' hi [] h s = omega arith
  lower lo lo' hi (b ∷ tags) h s = (omega arith, s.1, s.2)

  -- The list that a step begins, if what follows it is in place.
  step_spans :
      (lo size start : ℕ) (s : Step) (next : ℕ → Text → List BusTag)
      → StepFits size start s
      → lo ≤ start
      → start < size
      → ((end : ℕ) (rest : Text) → end + length rest ≡ size → Spans end size (next end rest))
      → Spans lo size (elim s [ last b ↦ b ∷ [] | tag b end rest ↦ b ∷ next end rest ])
  step_spans lo size start (last b) next f le lt h = (omega arith, omega arith, omega arith)
  step_spans lo size start (tag b end rest) next f le lt h = (
    omega arith,
    omega arith,
    subst (λ e. Spans e size (next end rest)) (sym f.1) (h end rest f.3),
  )

  scan_tags_spans :
      (fuel size index : ℕ) (t : Text)
      → index + length t ≡ size
      → Spans index size (scan_tags p fuel size index t)
  unfolding scan_tags
  scan_tags_spans zero size index t h = omega arith
  scan_tags_spans (suc fuel) size index t h = elim (Option-cases (find_offset tag_open t)) [
    | inl gone ↦ rw (gone, Spans) (omega arith)
    | inr found ↦
        let fits = find_offset_fits tag_open t found.0 found.1 in
        let size_eq : index + found.0 + 4 + length (drop (found.0 + 4) t) ≡ size =
          omega (arith, fits, length-drop (found.0 + 4) t) in
        elim (Bool-cases (is_other_word (drop (found.0 + 4) t))) [
          | inl other ↦
              rw (found.1, Spans)
                (rw (other, Spans)
                  (lower (index + found.0 + 4) index size _ (omega arith) (
                    scan_tags_spans fuel size (index + found.0 + 4) (drop (found.0 + 4) t)
                      size_eq)))
          | inr a_tag ↦
              rw (found.1, Spans)
                (rw (a_tag, Spans)
                  (step_spans index size (index + found.0)
                    (read_tag p size (index + found.0) (index + found.0 + 4) (drop (found.0 + 4) t))
                    (scan_tags p fuel size)
                    (read_tag_fits size (index + found.0) (index + found.0 + 4)
                      (drop (found.0 + 4) t) (omega arith) size_eq)
                    (omega arith) (omega (arith, fits)) (scan_tags_spans fuel size)))
        ]
  ]

-- The tags that `find_bus_tags` reports stand in order inside the text, none is empty, and no two
-- overlap, whether they parsed or not.
pub find_bus_tags_spans :
    (p : Platform) (text : Text) → Spans 0 (length text) (find_bus_tags p text)
unfolding find_bus_tags
find_bus_tags_spans p text =
    scan_tags_spans p (suc (length text)) (length text) 0 text (omega arith)
