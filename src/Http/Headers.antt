-- ===== src/Http/Headers.antt =====
-- The header fields of a response in yugo/http_tools.py: `_reject_repeated_fields`, `_header`,
-- `_content_type` and `_encoding`. The names are in lower case already.
use yugo.Base.{
  ℕ, Text, codes, text_eq, strip, Bool, ◌&&◌, ◌||◌, ◌==◌, ltb, Option, none, some, List, [], ◌∷◌,
  ◌++◌, if◌then◌else◌, count_where, starts_with, ends_with, split_on, reverse,
}
use yugo.Http.Origin.{
  HttpGetError, bad_redirect, unsupported_content, unsupported_encoding, invalid_encoding, has_char,
}

abbrev pub Headers : Type 0
Headers = List (Text × Text)

abbrev pub has_name : Text → Text × Text → Bool
has_name name (k, v) = text_eq k name

abbrev pub at_most_once : List (Text × HttpGetError)
at_most_once =
    (codes "content-type", unsupported_content)
    ∷ (codes "content-encoding", unsupported_encoding)
    ∷ (codes "location", bad_redirect)
    ∷ (codes "content-length", unsupported_content)
    ∷ []

unfoldable pub first_repeated : List (Text × HttpGetError) → Headers → Option HttpGetError
first_repeated [] hs = none
first_repeated ((name, e) ∷ rest) hs =
    if ltb 1 (count_where (has_name name) hs) then some e else first_repeated rest hs

unfoldable pub reject_repeated_fields : Headers → Option HttpGetError
reject_repeated_fields hs = first_repeated at_most_once hs

abbrev join_value : Text → Option Text → Option Text
join_value v none = some v
join_value v (some w) = some (v ++ (codes "," ++ w))

-- The values of a field, joined by commas.
unfoldable pub header_value : Text → Headers → Option Text
header_value name [] = none
header_value name ((k, v) ∷ hs) =
    let rest = header_value name hs in if text_eq k name then join_value v rest else rest

module _ (lower : Text → Text) where
  abbrev is_allowed : Text → Bool
  is_allowed media =
      starts_with (codes "text/") media
      || (text_eq media (codes "application/json")
          || (starts_with (codes "application/") media && ends_with (codes "+json") media))

  -- `t.split("=", 1)`, `none` without one
  abbrev first_of : ℕ → Option (Text × Text) → Option (Text × Text)
  first_of c none = none
  first_of c (some (a, b)) = some (c ∷ a, b)

  unfoldable pub split_eq : Text → Option (Text × Text)
  split_eq [] = none
  split_eq (c ∷ t) = let rest = split_eq t in if c == b'=' then some ([], t) else first_of c rest

  abbrev drop_quotes : Text → Text
  drop_quotes [] = []
  drop_quotes (c ∷ t) = let rest = drop_quotes t in if c == b'"' then rest else c ∷ t

  -- `t.strip('"')`
  abbrev strip_quotes : Text → Text
  strip_quotes t = reverse (drop_quotes (reverse (drop_quotes t)))

  abbrev add_charset : Option (Text × Text) → List Text → List Text
  add_charset none later = later
  add_charset (some (k, v)) later =
      if text_eq (lower (strip k)) (codes "charset")
      then lower (strip_quotes (strip v)) ∷ later
      else later

  unfoldable pub charsets : List Text → List Text
  charsets [] = []
  charsets (part ∷ parts) = add_charset (split_eq (strip part)) (charsets parts)

  abbrev charset_fault : List Text → Option HttpGetError
  charset_fault [] = none
  charset_fault (c ∷ []) =
      if text_eq c (codes "utf-8") || text_eq c (codes "utf8") then none else some invalid_encoding
  charset_fault (c ∷ d ∷ cs) = some invalid_encoding

  abbrev media_fault : List Text → Option HttpGetError
  media_fault [] = some unsupported_content
  media_fault (media ∷ parts) =
      if is_allowed (lower (strip media))
      then charset_fault (charsets parts)
      else some unsupported_content

  -- `none` is that nothing is raised.
  unfoldable pub content_type : Headers → Option HttpGetError
  content_type hs = elim (header_value (codes "content-type") hs) [
    | none ↦ some unsupported_content
    | some raw ↦ media_fault (split_on b';' raw)
  ]

  pub data Encoding : Type 0 where
    identity gzip : Encoding
    faulty : HttpGetError → Encoding

  abbrev encoding_of : Text → Encoding
  encoding_of raw =
      if has_char b',' raw
      then faulty unsupported_encoding
      else if text_eq raw (codes "identity")
      then identity
      else if text_eq raw (codes "gzip")
      then gzip
      else faulty unsupported_encoding

  -- `_header(...) or "identity"`
  abbrev or_identity : Option Text → Text
  or_identity none = codes "identity"
  or_identity (some []) = codes "identity"
  or_identity (some (c ∷ t)) = c ∷ t

  unfoldable pub encoding : Headers → Encoding
  encoding hs =
      encoding_of (lower (strip (or_identity (header_value (codes "content-encoding") hs))))
