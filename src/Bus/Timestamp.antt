-- ===== src/Bus/Timestamp.antt =====
-- `_is_parseable_ts` of yugo/fleet_bus.py, with the pattern _ISO_EXTENDED_TS_PATTERN.
use yugo.Base.{
  ℕ, Text, codes, Bool, true, false, ◌&&◌, ◌||◌, ◌==◌, Option, none, some, List, [], ◌∷◌, ◌++◌, leb,
  if◌then◌else◌,
}
use yugo.Json.{Value, str}
use yugo.Bus.Platform.{Platform}

-- A test for one character.
abbrev Test : Type 0
Test = ℕ → Bool

-- One character for each test, and what follows them.
run_tests : List Test → Text → Option Text
run_tests [] t = some t
run_tests (f ∷ fs) [] = none
run_tests (f ∷ fs) (c ∷ t) = let rest = run_tests fs t in if f c then rest else none

module _ (p : Platform) where
  abbrev digit : Test
  digit = p.is_decimal

  abbrev char : ℕ → Test
  char x c = c == x

  abbrev range : ℕ → ℕ → Test
  range a b c = leb a c && leb c b

  -- `\d*`
  skip_digits : Text → Text
  skip_digits [] = []
  skip_digits (c ∷ t) = let rest = skip_digits t in if digit c then rest else c ∷ t

  -- `\d{4}-\d{2}-\d{2}[T ]\d{2}:\d{2}`
  abbrev date_and_minutes : List Test
  date_and_minutes =
      digit
      ∷ digit
      ∷ digit
      ∷ digit
      ∷ char b'-'
      ∷ digit
      ∷ digit
      ∷ char b'-'
      ∷ digit
      ∷ digit
      ∷ (λ c. c == b'T' || c == b' ')
      ∷ digit
      ∷ digit
      ∷ char b':'
      ∷ digit
      ∷ digit
      ∷ []

  -- `(?:\.\d+)?`
  skip_fraction : Text → Option Text
  unfolding run_tests skip_digits
  skip_fraction [] = some []
  skip_fraction (c ∷ t) =
      if c == b'.'
      then elim (run_tests (digit ∷ []) t) [ none ↦ none | some rest ↦ some (skip_digits rest) ]
      else some (c ∷ t)

  -- `(?::\d{2}(?:\.\d+)?)?`. What may follow the group begins with neither of its first characters,
  -- so a group that begins is the group that matches.
  skip_seconds : Text → Option Text
  unfolding run_tests skip_fraction
  skip_seconds [] = some []
  skip_seconds (c ∷ t) =
      if c == b':'
      then elim (run_tests (digit ∷ digit ∷ []) t) [ none ↦ none | some rest ↦ skip_fraction rest ]
      else some (c ∷ t)

  -- `[0-5]\d` at the end
  is_offset_minutes : Text → Bool
  unfolding run_tests
  is_offset_minutes t = elim (run_tests (range b'0' b'5' ∷ digit ∷ []) t) [
    | some [] ↦ true
    | _ ↦ false
  ]

  -- `:?[0-5]\d` at the end
  is_offset_end : Text → Bool
  unfolding is_offset_minutes
  is_offset_end [] = false
  is_offset_end (c ∷ t) = if c == b':' then is_offset_minutes t else is_offset_minutes (c ∷ t)

  -- `(?:[01]\d|2[0-3]):?[0-5]\d` at the end
  is_offset : Text → Bool
  unfolding run_tests is_offset_end
  is_offset [] = false
  is_offset (c ∷ t) =
      let second = (if c == b'2' then range b'0' b'3' else digit) in
      range b'0' b'2' c
      && elim (run_tests (second ∷ []) t) [ none ↦ false | some rest ↦ is_offset_end rest ]

  -- `(?:Z|[+-]...)` at the end
  is_zone : Text → Bool
  unfolding is_offset
  is_zone [] = false
  is_zone (c ∷ []) = c == b'Z'
  is_zone (c ∷ t) = (c == b'+' || c == b'-') && is_offset t

  matches_iso : Text → Bool
  unfolding run_tests skip_seconds is_zone
  matches_iso t = elim (run_tests date_and_minutes t) [
    | none ↦ false
    | some rest ↦ elim (skip_seconds rest) [ none ↦ false | some zone ↦ is_zone zone ]
  ]

  -- `value.replace("Z", "+00:00")`
  replace_z : Text → Text
  replace_z [] = []
  replace_z (c ∷ t) = (if c == b'Z' then codes "+00:00" else c ∷ []) ++ replace_z t

  -- The empty string fails the pattern too.
  unfoldable pub is_parseable_ts : Value → Bool
  unfolding matches_iso replace_z
  is_parseable_ts (str t) = matches_iso t && p.fromisoformat (replace_z t)
  is_parseable_ts _ = false
