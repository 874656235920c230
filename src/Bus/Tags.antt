-- ===== src/Bus/Tags.antt =====
-- The outbound `<BUS>` tags of yugo/fleet_bus.py: `find_bus_tags`, `_scan_open_tag`,
-- `_parse_tag_attrs` and `strip_bus_tags`. A position is an index into the text, and a loop carries
-- the text from its position on.
use yugo.Base.{
  find_offset, ℕ, zero, suc, ◌+◌, ◌-◌, Text, codes, text_eq, is_space, Bool, false, not, ◌&&◌, ◌||◌,
  ◌==◌, Option, none, some, List, [], ◌∷◌, ◌++◌, if◌then◌else◌, length, take, drop,
}
use yugo.Bus.Platform.{Platform}

pub data Cause : Type 0 where
  unclosed malformed : Cause

abbrev pub Attrs : Type 0
Attrs = List (Text × Text)

pub record BusTag : Type 0 where
  pub start : ℕ
  pub end : ℕ
  pub attrs : Option Attrs
  pub body : Option Text
  pub cause : Option Cause

abbrev pub tag_open : Text
tag_open = codes "<BUS"

abbrev pub tag_close : Text
tag_close = codes "</BUS>"

-- `_scan_open_tag`: the quote that is open, if one is, and the text from `pos` on.
unfoldable pub scan_open_tag : Option ℕ → Text → Option ℕ
scan_open_tag quote [] = none
scan_open_tag none (c ∷ t) =
    let quoted = scan_open_tag (some c) t in
    let plain = scan_open_tag none t in
    if c == b'"' || c == 39
    then elim quoted [ none ↦ none | some n ↦ some (suc n) ]
    else if c == b'>'
    then some 0
    else elim plain [ none ↦ none | some n ↦ some (suc n) ]
scan_open_tag (some q) (c ∷ t) =
    let next = scan_open_tag (if c == q then none else some q) t in
    elim next [ none ↦ none | some n ↦ some (suc n) ]

-- `attrs[name] = value`
put_attr : Text → Text → Attrs → Attrs
put_attr k v [] = (k, v) ∷ []
put_attr k v ((j, w) ∷ l) = if text_eq j k then (j, v) ∷ l else (j, w) ∷ put_attr k v l

-- `attrs.get(name)`
unfoldable pub get_attr : Text → Attrs → Option Text
get_attr k [] = none
get_attr k ((j, v) ∷ l) = if text_eq j k then some v else get_attr k l

-- The text up to the next `quote`, and what follows it.
until_quote : ℕ → Text → Option (Text × Text)
until_quote quote [] = none
until_quote quote (c ∷ t) =
    let rest = until_quote quote t in
    if c == quote then some ([], t) else elim rest [ none ↦ none | some (v, u) ↦ some (c ∷ v, u) ]

-- One candidate: either the scan ends with this tag, or it goes on from a position.
pub data Step : Type 0 where
  last : BusTag → Step
  tag : BusTag → ℕ → Text → Step

abbrev pub broken_tag : ℕ → ℕ → Cause → BusTag
broken_tag start end cause = record {
  start = start;
  end = end;
  attrs = none;
  body = none;
  cause = some cause;
}

abbrev pub whole_tag : ℕ → ℕ → Text → Option Attrs → BusTag
whole_tag start end body none = broken_tag start end malformed
whole_tag start end body (some attrs) = record {
  start = start;
  end = end;
  attrs = some attrs;
  body = some body;
  cause = none;
}

-- Does a character after `<BUS` make it another word?
abbrev pub is_other_word : Text → Bool
is_other_word [] = false
is_other_word (c ∷ t) = not (is_space c) && not (c == b'>')

module _ (p : Platform) where
  -- `inner[pos].isalnum() or inner[pos] in "_-"`
  abbrev is_attr_char : ℕ → Bool
  is_attr_char c = p.is_alnum c || (c == b'_' || c == b'-')

  -- The longest name at the front, and what follows it.
  span_name : Text → Text × Text
  span_name [] = ([], [])
  span_name (c ∷ t) =
      let (name, rest) = span_name t in if is_attr_char c then (c ∷ name, rest) else ([], c ∷ t)

  -- `="value"` after a name: the value, and what follows it.
  attr_value : Text → Option (Text × Text)
  unfolding until_quote
  attr_value (eq ∷ quote ∷ t) =
      if eq == b'=' && (quote == b'"' || quote == 39) then until_quote quote t else none
  attr_value _ = none

  -- A pair after a nonempty name.
  attr_pair : Text → Option (Text × Text × Text)
  unfolding span_name attr_value
  attr_pair t =
      let (name, rest) = span_name t in
      elim name [
        | [] ↦ none
        | c ∷ cs ↦ elim (attr_value rest) [ none ↦ none | some (v, u) ↦ some (c ∷ cs, v, u) ]
      ]

  -- Each round takes a space or a pair away, so the length of the text is enough fuel. `none` is
  -- the ValueError.
  parse_attrs : ℕ → Attrs → Text → Option Attrs
  unfolding attr_pair put_attr
  parse_attrs zero attrs t = some attrs
  parse_attrs (suc fuel) attrs [] = some attrs
  parse_attrs (suc fuel) attrs (c ∷ t) =
      let skip = parse_attrs fuel attrs t in
      if is_space c then skip else elim (attr_pair (c ∷ t)) [
        | none ↦ none
        | some (name, v, u) ↦ parse_attrs fuel (put_attr name v attrs) u
      ]

  unfoldable pub parse_tag_attrs : Text → Option Attrs
  unfolding parse_attrs
  parse_tag_attrs inner = parse_attrs (suc (length inner)) [] inner

  -- `start` and `after` are the positions of a `<BUS` and of the text `tail` behind it.
  unfoldable pub read_tag : ℕ → ℕ → ℕ → Text → Step
  read_tag size start after tail = elim (scan_open_tag none tail) [
    | none ↦ last (broken_tag start size unclosed)
    | some q ↦
        let rest = drop (suc q) tail in
        elim (find_offset tag_close rest) [
          | none ↦ last (broken_tag start size unclosed)
          | some b ↦
              let end = after + suc q + b + 6 in
              tag (whole_tag start end (take b rest) (parse_tag_attrs (take q tail))) end
                (drop (b + 6) rest)
        ]
  ]

  -- The loop of `find_bus_tags`: each round moves on by four characters at least.
  unfoldable pub scan_tags : ℕ → ℕ → ℕ → Text → List BusTag
  scan_tags zero size index t = []
  scan_tags (suc fuel) size index t = elim (find_offset tag_open t) [
    | none ↦ []
    | some o ↦
        let start = index + o in
        let after = start + 4 in
        let tail = drop (o + 4) t in
        let skipped = scan_tags fuel size after tail in
        let found : List BusTag = elim (read_tag size start after tail) [
          | last b ↦ b ∷ []
          | tag b end rest ↦ b ∷ scan_tags fuel size end rest
        ] in
        if is_other_word tail then skipped else found
  ]

  unfoldable pub find_bus_tags : Text → List BusTag
  find_bus_tags text = scan_tags (suc (length text)) (length text) 0 text

-- `text[a:b]`
abbrev pub slice : ℕ → ℕ → Text → Text
slice a b text = take (b - a) (drop a text)

unfoldable pub strip_from : ℕ → Text → List BusTag → Text
strip_from cursor text [] = drop cursor text
strip_from cursor text (b ∷ tags) = slice cursor b.start text ++ strip_from b.end text tags

unfoldable pub strip_bus_tags : Text → List BusTag → Text
unfolding strip_from
strip_bus_tags text tags = strip_from 0 text tags
