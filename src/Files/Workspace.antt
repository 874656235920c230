-- ===== src/Files/Workspace.antt =====
-- `read_file`, `write_file` and `list_dir` of `Workspace` in yugo/filesystem_tools.py. What the
-- kernel answers to their calls is given: opens, `fstat`, and the results of successive reads and
-- writes. `decode` and `encode` are UTF-8, `none` where they raise.
use yugo.Base.{
  ℕ, Text, Bool, true, false, not, ◌&&◌, Option, none, some, List, [], ◌∷◌, ◌++◌, if◌then◌else◌,
  ltb, leb, length, take, drop, all_of,
}
use yugo.Json.{Value, str}
use yugo.Files.Path.{Tool, path_error, done, validated_parts}

abbrev pub Bytes : Type 0
Bytes = List ℕ

-- An open file: what `fstat` says, and the reads, the last of them empty or past the list.
pub record OpenFile : Type 0 where
  pub is_regular : Bool
  pub size : ℕ
  pub reads : List Bytes

-- The loop of `read_file`. A read returns no more than it is asked for.
abbrev pub next_read : Bool → Bytes → Bytes → Bytes → Bytes
next_read false taken chunk later = taken
next_read true taken [] later = taken
next_read true taken (b ∷ bs) later = later

unfoldable pub read_loop : ℕ → List Bytes → Bytes → Bytes
read_loop max_bytes [] taken = taken
read_loop max_bytes (chunk ∷ reads) taken =
    next_read (leb (length taken) max_bytes) taken chunk
      (read_loop max_bytes reads (taken ++ chunk))

module _ (decode : Bytes → Option Text) where
  abbrev pub decoded_text : Option Text → Tool Text
  decoded_text none = path_error
  decoded_text (some t) = done t

  abbrev pub within : ℕ → Bytes → Tool Text
  within max_bytes bytes =
      if ltb max_bytes (length bytes) then path_error else decoded_text (decode bytes)

  abbrev pub read_opened : ℕ → Option OpenFile → Tool Text
  read_opened max_bytes none = path_error
  read_opened max_bytes (some f) =
      if not f.is_regular
      then path_error
      else if ltb max_bytes f.size
      then path_error
      else within max_bytes (read_loop max_bytes f.reads [])

  abbrev pub read_parts : (List Text → Option OpenFile) → ℕ → Tool (List Text) → Tool Text
  read_parts open_file max_bytes path_error = path_error
  read_parts open_file max_bytes (done parts) = read_opened max_bytes (open_file parts)

  -- `open_file` is `_open`, `none` where it is refused.
  unfoldable pub read_file : (List Text → Option OpenFile) → Value → ℕ → Tool Text
  read_file open_file path max_bytes = read_parts open_file max_bytes (validated_parts false path)

-- How an open of one component ends.
pub data Open : Type 0 where
  opened absent denied : Open

-- A component of the parent path: the first open, `mkdir` (which may find the directory there), and
-- the second open.
pub record Component : Type 0 where
  pub first : Open
  pub mkdir : Bool
  pub second : Open

abbrev is_opened : Open → Bool
is_opened opened = true
is_opened absent = false
is_opened denied = false

abbrev enters : Open → Component → Bool
enters opened c = true
enters denied c = false
enters absent c = c.mkdir && is_opened c.second

-- `_parent_dirfd`, for the components before the last.
unfoldable pub parent_dirfd : List Component → Bool
parent_dirfd cs = all_of (λ (c : Component). enters c.first c) cs

-- The target: the open of what is there, the exclusive creation, `fstat`, and how much each `write`
-- takes.
pub record WriteTarget : Type 0 where
  pub first : Open
  pub creates : Bool
  pub is_regular : Bool
  pub writes : List ℕ

-- The loop of `write_file`: what is on file, and what is left.
unfoldable pub write_loop : List ℕ → Bytes → Bytes → Bytes × Bytes
write_loop ws file [] = (file, [])
write_loop [] file (b ∷ view) = (file, b ∷ view)
write_loop (w ∷ ws) file (b ∷ view) = write_loop ws (file ++ take w (b ∷ view)) (drop w (b ∷ view))

abbrev is_there : Open → Bool → Bool
is_there opened creates = true
is_there absent creates = creates
is_there denied creates = false

module _ (encode : Text → Option Bytes) where
  abbrev pub write_target : Bytes → List Component → WriteTarget → Tool (Bytes × Bytes)
  write_target bytes cs t =
      if parent_dirfd cs && (is_there t.first t.creates && t.is_regular)
      then done (write_loop t.writes [] bytes)
      else path_error

  abbrev pub write_bytes : ℕ → Option Bytes → List Component → WriteTarget → Tool (Bytes × Bytes)
  write_bytes max_bytes none cs t = path_error
  write_bytes max_bytes (some bytes) cs t =
      if ltb max_bytes (length bytes) then path_error else write_target bytes cs t

  abbrev pub write_content : ℕ → Value → List Component → WriteTarget → Tool (Bytes × Bytes)
  write_content max_bytes (str t) cs target = write_bytes max_bytes (encode t) cs target
  write_content max_bytes v cs target = path_error

  abbrev pub write_parts :
      ℕ
      → Value
      → Tool (List Text)
      → (List Text → List Component × WriteTarget)
      → Tool (Bytes × Bytes)
  write_parts max_bytes content path_error world = path_error
  write_parts max_bytes content (done parts) world =
      write_content max_bytes content (world parts).0 (world parts).1

  -- What is on file in the end, and what was not written when the answers of `write` ran out.
  unfoldable pub write_file :
      (List Text → List Component × WriteTarget) → Value → Value → ℕ → Tool (Bytes × Bytes)
  write_file world path content max_bytes =
      write_parts max_bytes content (validated_parts false path) world
