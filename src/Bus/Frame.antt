-- ===== src/Bus/Frame.antt =====
-- The injection frame of yugo/fleet_bus.py: `_frame_attr`, `_frame_payload_json` and
-- `format_envelope_for_session`.
use Prim.Native.String.{String}
use yugo.Base.{
  ℕ, ◌+◌, Text, codes, ◌≡◌, refl, Bool, true, ◌==◌, Option, none, some, [], ◌∷◌, ◌++◌,
  if◌then◌else◌, ◌||◌, arith, count_where, Option-cases, inl, inr, ◌⊎◌, subst, sym,
}
use yugo.Json.{Value, Dict, str, get, has}
use yugo.Bus.Platform.{Platform, canonical_json}
pub mod Markup

-- _FRAME_ATTR_ESCAPES.get(char, char)
unfoldable pub escape_attr_char : ℕ → Text
escape_attr_char c =
    if c == b'&'
    then codes "&amp;"
    else if c == b'<'
    then codes "&lt;"
    else if c == b'>'
    then codes "&gt;"
    else if c == b'"'
    then codes "&quot;"
    else if c == 39
    then codes "&#39;"
    else if c == 10
    then codes "&#10;"
    else if c == 13
    then codes "&#13;"
    else if c == 9
    then codes "&#9;"
    else c ∷ []

abbrev pub concat_map : (ℕ → Text) → Text → Text
concat_map f [] = []
concat_map f (c ∷ t) = f c ++ concat_map f t

unfoldable pub frame_attr : Text → Text
frame_attr t = concat_map escape_attr_char t

-- The three replacements, one after another: none of them produces a character of another.
unfoldable pub escape_json_char : ℕ → Text
escape_json_char c =
    if c == b'&'
    then codes "\\u0026"
    else if c == b'<'
    then codes "\\u003c"
    else if c == b'>'
    then codes "\\u003e"
    else c ∷ []

module _ (p : Platform) where
  -- `none` is the error of `_canonical_json`.
  unfoldable pub frame_payload_json : Value → Option Text
  frame_payload_json v = elim (canonical_json p v) [
    | none ↦ none
    | some t ↦ some (concat_map escape_json_char t)
  ]

  -- `str(value)`
  unfoldable pub to_str : Value → Text
  to_str (str t) = t
  to_str v = p.str_of v

  -- `name="..."`
  attribute : Text → Text → Text
  attribute name value = name ++ (codes "=\"" ++ (frame_attr value ++ codes "\""))

  -- An attribute of the list, on a line of its own.
  next_attribute : String → Dict → Text
  unfolding attribute to_str
  next_attribute k d = codes "\n         " ++ attribute (codes k) (to_str (get k d))

  baton_attribute : String → Dict → Text
  unfolding next_attribute
  baton_attribute k d = if has k d then next_attribute k d else []

  attributes : Dict → Text → Text
  unfolding attribute next_attribute baton_attribute to_str
  attributes d req_id =
      codes "source=\"fleet-bus\"\n         authenticated=\"false\"\n         "
      ++ (attribute (codes "from_claim") (to_str (get "from" d))
          ++ (next_attribute "kind" d
              ++ (codes "\n         "
                  ++ (attribute (codes "env_id") (to_str (get "id" d))
                      ++ (codes "\n         "
                          ++ (attribute (codes "req_id") req_id
                              ++ (next_attribute "ts" d
                                  ++ (baton_attribute "root_id" d
                                      ++ (baton_attribute "origin" d
                                          ++ (baton_attribute "owner" d
                                              ++ baton_attribute "hops" d))))))))))

  unfoldable pub format_envelope_for_session : Dict → Text → Option Text
  unfolding attributes
  format_envelope_for_session d req_id = elim (frame_payload_json (get "payload" d)) [
    | none ↦ none
    | some payload ↦ some (
        codes "<channel "
        ++ (attributes d req_id
            ++ (codes ">\n  <payload>" ++ (payload ++ codes "</payload>\n</channel>"))))
  ]
