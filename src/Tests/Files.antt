-- ===== src/Tests/Files.antt =====
-- The file tools at concrete inputs.
use yugo.Base.{
  ℕ, ◌+◌, Text, codes, ◌≡◌, refl, true, false, Option, some, List, [], ◌∷◌, split_on, keep_where,
  all_of, text_eq,
}
use yugo.Json.{Value, str}
use yugo.Files.Path.{path_error, done, posix_parts, is_empty_part, validated_parts}
use yugo.Files.Safe.{OfTool, validated_parts-AllNames}
use yugo.Files.Workspace.{
  Bytes, OpenFile, absent, WriteTarget, write_file, write_loop, parent_dirfd, read_file, read_loop,
}
use yugo.Files.Listing.{
  DirEntry, directory, file, list_dir, scan, sort_entries, insert_entry, bytes_le, join_lines,
}

abbrev notes : Value
notes = str (codes "a/./b//notes.txt")

validated_parts-AllNames_example : OfTool false (validated_parts false notes)
validated_parts-AllNames_example = validated_parts-AllNames false notes

parts : validated_parts false notes ≡ done (codes "a" ∷ codes "b" ∷ codes "notes.txt" ∷ [])
unfolding validated_parts posix_parts is_empty_part split_on keep_where all_of text_eq
parts = refl

escape : validated_parts true (str (codes "a/../../etc")) ≡ path_error
unfolding validated_parts posix_parts is_empty_part split_on keep_where all_of text_eq
escape = refl

abbrev ascii_text : Bytes → Option Text
ascii_text bytes = some bytes

-- It is read in two parts.
abbrev on_disk : OpenFile
on_disk = record {
  is_regular = true;
  size = 3;
  reads = codes "he" ∷ codes "llo" ∷ [] ∷ codes "!" ∷ [];
}

abbrev open_file : List Text → Option OpenFile
open_file ps = some on_disk

whole : read_file ascii_text open_file notes 5 ≡ done (codes "hello")
unfolding read_file read_loop validated_parts posix_parts is_empty_part split_on keep_where all_of
    text_eq
whole = refl

abbrev target : WriteTarget
target = record { first = absent; creates = true; is_regular = true; writes = 2 ∷ 9 ∷ [] }

written :
    write_file (λ t. some t) (λ ps. ([], target)) notes (str (codes "hello")) 5
    ≡ done (codes "hello", [])
unfolding write_file write_loop parent_dirfd validated_parts posix_parts is_empty_part split_on
    keep_where all_of text_eq
written = refl

abbrev entries : List DirEntry
entries =
    record { name = codes "b"; encoded = some (codes "b"); kind = file }
    ∷ record { name = codes "a"; encoded = some (codes "a"); kind = directory }
    ∷ record { name = 10 ∷ []; encoded = some (10 ∷ []); kind = file }
    ∷ []

abbrev digit : ℕ → Text
digit n = (48 + n) ∷ []

listed :
    list_dir digit (λ ps. some entries) (str (codes ".")) 1
    ≡ done (codes "# 1 listed, 1 omitted, 3 total (truncated at max_entries=1)\na/")
unfolding list_dir scan sort_entries insert_entry bytes_le join_lines validated_parts posix_parts
    is_empty_part split_on keep_where all_of text_eq
listed = refl
