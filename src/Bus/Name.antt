-- ===== src/Bus/Name.antt =====
-- Bot names: `normalize_bot_name`, `normalize_allowlist` and `load_fleet_manifest_allowlist` of
-- yugo/fleet_bus.py.
use yugo.Base.{
  ℕ, Text, codes, text_eq, Bool, true, false, not, ◌&&◌, ◌||◌, ◌==◌, Option, none, some, List, [],
  ◌∷◌, leb, if◌then◌else◌, all_of, contains_text,
}
use yugo.Json.{Value, Items, str, arr, obj, nil, cons, get}
use yugo.Bus.Platform.{Platform}

-- `[a-z0-9_-]`
unfoldable pub is_name_char : ℕ → Bool
is_name_char c = (leb b'a' c && leb c b'z') || (leb b'0' c && leb c b'9') || c == b'_' || c == b'-'

abbrev is_empty : Text → Bool
is_empty [] = true
is_empty (c ∷ t) = false

-- _BOT_NAME_PATTERN.fullmatch, and not one of RESERVED_BOT_NAMES
unfoldable pub is_bot_name : Text → Bool
unfolding is_name_char
is_bot_name t = not (is_empty t) && (all_of is_name_char t && not (text_eq t (codes "broadcast")))

module _ (p : Platform) where
  unfoldable pub normalize_bot_name : Value → Option Text
  unfolding is_bot_name
  normalize_bot_name (str t) = let n = p.nfkc_lower t in if is_bot_name n then some n else none
  normalize_bot_name _ = none

  -- A set as a list without repetition; `none` is the ValueError.
  add_name : Text → List Text → List Text
  add_name n names = if contains_text names n then names else n ∷ names

  add_names : Items → List Text → Option (List Text)
  unfolding add_name
  add_names nil names = some names
  add_names (cons v vs) names = elim (normalize_bot_name v) [
    | none ↦ none
    | some n ↦ add_names vs (add_name n names)
  ]

  unfoldable pub normalize_allowlist : Items → Option (List Text)
  unfolding add_names
  normalize_allowlist values = add_names values []

  -- `bot_names` of the parsed manifest
  allowlist_of : Value → Option (List Text)
  allowlist_of (arr nil) = none
  allowlist_of (arr (cons v vs)) = normalize_allowlist (cons v vs)
  allowlist_of _ = none

  -- The argument is what `yaml.safe_load` returns; `none` is the ValueError.
  unfoldable pub load_fleet_manifest_allowlist : Value → Option (List Text)
  unfolding allowlist_of
  load_fleet_manifest_allowlist (obj manifest) = allowlist_of (get "bot_names" manifest)
  load_fleet_manifest_allowlist _ = none
