-- ===== src/Files/Listing.antt =====
-- `list_dir` of `Workspace` in yugo/filesystem_tools.py. An entry comes with its type as the kernel
-- tells it; `decimal` is `str` of a number.
use yugo.Base.{
  ℕ, ◌+◌, Text, codes, Bool, true, false, ◌&&◌, ◌||◌, ◌==◌, Option, none, some, List, [], ◌∷◌, ◌++◌,
  if◌then◌else◌, ltb, length, take, all_of,
}
use yugo.Json.{Value}
use yugo.Files.Path.{Tool, path_error, done, validated_parts, is_printable}
use yugo.Files.Workspace.{Bytes}

pub data Kind : Type 0 where
  directory file other unclassified : Kind

-- `encoded` is the UTF-8 form of the name, if it has one.
pub record DirEntry : Type 0 where
  pub name : Text
  pub encoded : Option Bytes
  pub kind : Kind

abbrev pub suffix : Kind → Option Text
suffix directory = some (codes "/")
suffix file = some []
suffix other = some (codes "@")
suffix unclassified = none

abbrev pub scan_ceiling : ℕ
scan_ceiling = 100000

pub record Listing : Type 0 where
  pub entries : List (Bytes × Text)
  pub omitted : ℕ
  pub total : ℕ

abbrev pub add_entry :
    Bytes → Text → Option Text → Listing → (Listing → Tool Listing) → Tool Listing
add_entry key name none l rest = path_error
add_entry key name (some s) l rest =
    rest (record l { entries = l.entries ++ ((key, name ++ s) ∷ []) })

abbrev pub omit : Listing → Listing
omit l = record l { omitted = l.omitted + 1 }

abbrev pub on_encoded : Option Bytes → DirEntry → Listing → (Listing → Tool Listing) → Tool Listing
on_encoded none e l rest = rest (omit l)
on_encoded (some key) e l rest =
    if all_of is_printable e.name
    then add_entry key e.name (suffix e.kind) l rest
    else rest (omit l)

abbrev pub count : Listing → Listing
count l = record l { total = l.total + 1 }

-- The loop over the directory.
unfoldable pub scan : List DirEntry → Listing → Tool Listing
scan [] l = done l
scan (e ∷ es) l =
    if ltb scan_ceiling (l.total + 1)
    then path_error
    else on_encoded e.encoded e (count l) (λ l'. scan es l')

unfoldable pub bytes_le : Bytes → Bytes → Bool
bytes_le [] b = true
bytes_le (x ∷ a) [] = false
bytes_le (x ∷ a) (y ∷ b) = ltb x y || (x == y && bytes_le a b)

-- A stable sort by the key.
unfoldable pub insert_entry : Bytes × Text → List (Bytes × Text) → List (Bytes × Text)
insert_entry (k, v) [] = (k, v) ∷ []
insert_entry (k, v) ((j, w) ∷ es) =
    let rest = insert_entry (k, v) es in
    if bytes_le k j then (k, v) ∷ (j, w) ∷ es else (j, w) ∷ rest

unfoldable pub sort_entries : List (Bytes × Text) → List (Bytes × Text)
sort_entries [] = []
sort_entries (e ∷ es) = insert_entry e (sort_entries es)

-- `"\n".join([summary, *values])`
unfoldable pub join_lines : Text → List (Bytes × Text) → Text
join_lines summary [] = summary
join_lines summary ((k, v) ∷ es) = join_lines (summary ++ (codes "\n" ++ v)) es

module _ (decimal : ℕ → Text) where
  abbrev summary : ℕ → ℕ → Listing → Text
  summary max_entries listed l =
      codes "# "
      ++ (decimal listed
          ++ (codes " listed, "
              ++ (decimal l.omitted
                  ++ (codes " omitted, "
                      ++ (decimal l.total
                          ++ (codes " total"
                              ++ (if ltb max_entries (length l.entries)
                                  then codes " (truncated at max_entries="
                                    ++ (decimal max_entries ++ codes ")")
                                  else [])))))))

  abbrev pub render : ℕ → Listing → Text
  render max_entries l =
      join_lines (summary max_entries (length (take max_entries (sort_entries l.entries))) l)
        (take max_entries (sort_entries l.entries))

  abbrev pub rendered_listing : ℕ → Tool Listing → Tool Text
  rendered_listing max_entries path_error = path_error
  rendered_listing max_entries (done l) = done (render max_entries l)

  abbrev pub list_parts : (List Text → Option (List DirEntry)) → ℕ → Tool (List Text) → Tool Text
  list_parts open_dir max_entries path_error = path_error
  list_parts open_dir max_entries (done parts) = elim (open_dir parts) [
    | none ↦ path_error
    | some es ↦
        rendered_listing max_entries (scan es (record { entries = []; omitted = 0; total = 0 }))
  ]

  -- `open_dir` is `_open` with the entries as `scandir` gives them, `none` where it is refused.
  unfoldable pub list_dir : (List Text → Option (List DirEntry)) → Value → ℕ → Tool Text
  list_dir open_dir path max_entries = list_parts open_dir max_entries (validated_parts true path)
