-- ===== src/Files/Whole.antt =====
-- `read_file` of yugo/filesystem_tools.py against the whole content of the file.
use mathlib.Core.List.{append_assoc, append-nil}
use yugo.Base.{
  ℕ, ◌<◌, ◌≤◌, Text, ◌≡◌, inl, inr, refl, sym, ap, ◌∙◌, true, false, Option, some, List, [], ◌∷◌,
  ◌++◌, if◌then◌else◌, ltb, leb, length, length-append, arith, Bool-cases,
}
use yugo.Json.{Value}
use yugo.Files.Path.{path_error, done, validated_parts}
use yugo.Files.Workspace.{Bytes, OpenFile, read_loop, decoded_text, within, read_opened, read_file}

-- The content as the reads give it, up to the first empty one.
abbrev pub until_end : List Bytes → Bytes
until_end [] = []
until_end ([] ∷ reads) = []
until_end ((b ∷ bs) ∷ reads) = (b ∷ bs) ++ until_end reads

fits : (max_bytes size : ℕ) → size ≤ max_bytes → ltb max_bytes size ≡ false
fits max_bytes size h = ground arith

over :
    (max_bytes : ℕ) (reads : List Bytes) (taken : Bytes)
    → max_bytes < length taken
    → read_loop max_bytes reads taken ≡ taken
unfolding read_loop
over max_bytes [] taken h = refl
over max_bytes (chunk ∷ reads) taken h = elim (Bool-cases (leb (length taken) max_bytes)) [
  | inl y ↦ absurd (ground arith)
  | inr n ↦ rw n refl
]

under :
    (max_bytes : ℕ) (taken : Bytes) → length taken ≤ max_bytes → leb (length taken) max_bytes ≡ true
under max_bytes taken h = ground arith

longer :
    (max_bytes : ℕ) (a b c : Bytes)
    → leb (length (a ++ b)) max_bytes ≡ false
    → max_bytes < length (a ++ (b ++ c))
longer max_bytes a b c h =
    ground (arith, length-append a b, length-append a (b ++ c), length-append b c)

module _ (decode : Bytes → Option Text) where
  within-over :
      (max_bytes : ℕ) (bytes : Bytes)
      → max_bytes < length bytes
      → within decode max_bytes bytes ≡ path_error
  within-over max_bytes bytes h = ground arith

  read_loop-within :
      (max_bytes : ℕ) (reads : List Bytes) (taken : Bytes)
      → length taken ≤ max_bytes
      → within decode max_bytes (read_loop max_bytes reads taken)
        ≡ within decode max_bytes (taken ++ until_end reads)
  unfolding read_loop
  read_loop-within max_bytes [] taken h = ap (within decode max_bytes) (sym (append-nil taken))
  read_loop-within max_bytes ([] ∷ reads) taken h =
      rw (under max_bytes taken h) (ap (within decode max_bytes) (sym (append-nil taken)))
  read_loop-within max_bytes ((b ∷ bs) ∷ reads) taken h =
      elim (Bool-cases (leb (length (taken ++ (b ∷ bs))) max_bytes)) [
        | inl y ↦ rw (under max_bytes taken h) (
            read_loop-within max_bytes reads (taken ++ (b ∷ bs)) (ground arith)
            ∙ ap (within decode max_bytes) (append_assoc taken (b ∷ bs) (until_end reads)))
        | inr n ↦
            rw (under max_bytes taken h, over max_bytes reads (taken ++ (b ∷ bs)) (ground arith))
              (within-over max_bytes (taken ++ (b ∷ bs)) (ground arith)
                ∙ sym (
                    within-over max_bytes (taken ++ ((b ∷ bs) ++ until_end reads))
                      (longer max_bytes taken (b ∷ bs) (until_end reads) n)))
      ]

  read_opened-within :
      (max_bytes : ℕ) (f : OpenFile)
      → f.is_regular ≡ true
      → f.size ≤ max_bytes
      → read_opened decode max_bytes (some f) ≡ within decode max_bytes (until_end f.reads)
  read_opened-within max_bytes f r h =
      rw (r, fits max_bytes f.size h) (read_loop-within max_bytes f.reads [] (omega arith))

  -- Reading a regular file whose size was within the limit when it was opened: the result is the
  -- decoding of the whole content up to the end of the file if that is within the limit too, and an
  -- error if it is not, as for a file that grew in the meantime, or does not decode; a part of the
  -- content is never returned.
  read_file-within :
      (open_file : List Text → Option OpenFile) (path : Value) (max_bytes : ℕ) (parts : List Text)
      (f : OpenFile)
      → validated_parts false path ≡ done parts
      → open_file parts ≡ some f
      → f.is_regular ≡ true
      → f.size ≤ max_bytes
      → read_file decode open_file path max_bytes ≡ (
          if ltb max_bytes (length (until_end f.reads))
          then path_error
          else decoded_text decode (decode (until_end f.reads)))
  unfolding read_file
  read_file-within open_file path max_bytes parts f v o r h =
      rw (v, o) (read_opened-within max_bytes f r h)
