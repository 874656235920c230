-- ===== src/Tests/Ascii.antt =====
-- A platform for the runs: CPython's functions on ASCII text and one-digit numbers, and a roster.
use yugo.Base.{
  ℕ, ◌+◌, ◌%◌, Text, codes, Bool, true, false, ◌&&◌, ◌||◌, some, List, [], ◌∷◌, ◌++◌, map, leb,
  if◌then◌else◌,
}
use yugo.Base.Int.{pos, negsuc}
use yugo.Json.{Value, Items, Dict, null, bool, int, float, str, arr, obj, nil, cons, empty, entry}
use yugo.Bus.Platform.{Platform}

abbrev lower : ℕ → ℕ
lower c = if leb b'A' c && leb c b'Z' then c + 32 else c

abbrev digit : ℕ → Bool
digit c = leb b'0' c && leb c b'9'

abbrev alnum : ℕ → Bool
alnum c = digit c || (leb b'a' (lower c) && leb (lower c) b'z')

abbrev quoted : Text → Text
quoted t = codes "\"" ++ (t ++ codes "\"")

unfoldable mutual
  pub dump : Value → Text
  dump null = codes "null"
  dump (bool true) = codes "true"
  dump (bool false) = codes "false"
  dump (int (pos n)) = (48 + n % 10) ∷ []
  dump (int (negsuc n)) = codes "-" ++ ((49 + n % 10) ∷ [])
  dump (float t) = t
  dump (str t) = quoted t
  dump (arr vs) = codes "[" ++ (dump_items vs ++ codes "]")
  dump (obj d) = codes "{" ++ (dump_dict d ++ codes "}")

  pub dump_items : Items → Text
  dump_items nil = []
  dump_items (cons v nil) = dump v
  dump_items (cons v vs) = dump v ++ (codes "," ++ dump_items vs)

  pub dump_dict : Dict → Text
  dump_dict empty = []
  dump_dict (entry k v empty) = quoted (codes k) ++ (codes ":" ++ dump v)
  dump_dict (entry k v d) =
      quoted (codes k) ++ (codes ":" ++ (dump v ++ (codes "," ++ dump_dict d)))

abbrev pub ascii : Platform
ascii = record {
  nfkc_lower = λ t. map lower t;
  is_decimal = digit;
  is_alnum = alnum;
  fromisoformat = λ t. true;
  json_dumps = λ v. some (dump v);
  utf8 = λ t. some t;
  str_of = λ v. dump v;
}

abbrev pub roster : List Text
roster = codes "vec" ∷ codes "ohm" ∷ codes "yugo" ∷ []

-- A request from `ohm`, three hops into its chain.
abbrev pub asked : Dict
asked = entry "envelope_version" (int (pos 1)) (
    entry "id" (str (codes "e1")) (
      entry "from" (str (codes "ohm")) (
        entry "to" (str (codes "yugo")) (
          entry "kind" (str (codes "text_message")) (
            entry "ts" (str (codes "2026-07-01T10:00:00Z")) (
              entry "payload" (obj (entry "text" (str (codes "</channel> & go")) empty)) (
                entry "root_id" (str (codes "r1"))
                  (entry "origin" (str (codes "vec")) (entry "hops" (int (pos 3)) empty)))))))))
