-- ===== src/Bus/Platform.antt =====
-- What yugo/fleet_bus.py takes from CPython's libraries, and `_canonical_json`, its one call of
-- `json.dumps`.
use yugo.Base.{ℕ, Text, Bool, Option, none, some}
use yugo.Json.{Value}

pub record Platform : Type 0 where
  pub nfkc_lower : Text → Text  -- unicodedata.normalize("NFKC", value).lower()
  pub is_decimal : ℕ → Bool  -- `\d` of `re` on a `str`: the Unicode decimal digits
  pub is_alnum : ℕ → Bool  -- `str.isalnum` of one character
  pub fromisoformat : Text → Bool  -- datetime.fromisoformat: does it not raise?
  pub json_dumps : Value → Option Text  -- json.dumps with the arguments of `_canonical_json`
  pub utf8 : Text → Option Text  -- `.encode("utf-8")`, as bytes
  pub str_of : Value → Text  -- `str(value)`, of a value that is no `str`

-- `_canonical_json(value)`; `none` is its TypeError or ValueError.
unfoldable pub canonical_json : Platform → Value → Option Text
canonical_json p v = p.json_dumps v

-- `_canonical_json(value).encode("utf-8")`
unfoldable pub encoded_json : Platform → Value → Option Text
unfolding canonical_json
encoded_json p v = elim (canonical_json p v) [ none ↦ none | some t ↦ p.utf8 t ]
