-- ===== src/Coordinator/Mounts.antt =====
-- The file system of the state file, in yugo/coordinator.py: `_unescape_mount_field`,
-- `_mount_table` and `detect_filesystem`.
use yugo.Base.{
  ℕ, zero, suc, ◌+◌, ◌-◌, ◌*◌, Text, codes, text_eq, Bool, true, false, not, ◌&&◌, ◌||◌, ◌==◌,
  Option, none, some, List, [], ◌∷◌, ◌++◌, if◌then◌else◌, leb, ltb, length, starts_with, max,
  find_offset, words, take, drop, keep_where, all_of, reverse,
}
pub mod Escape
pub mod Detect

-- The value of three octal digits. `digit` is the value of a decimal digit of Unicode, as `int` and
-- `str.isdigit` read it; `none` is the ValueError of a digit that is not octal.
abbrev pub octal_digit : Option ℕ → Option ℕ
octal_digit none = none
octal_digit (some n) = if ltb n 8 then some n else none

abbrev pub octal : Option ℕ → Option ℕ → Option ℕ → Option ℕ
octal (some a) (some b) (some c) = some (a * 64 + b * 8 + c)
octal _ _ _ = none

unfoldable pub escape_at : (ℕ → Option ℕ) → ℕ → ℕ → ℕ → ℕ → Option ℕ
escape_at digit x a b c =
    if x == 92
    then octal (octal_digit (digit a)) (octal_digit (digit b)) (octal_digit (digit c))
    else none

-- The loop over the position: `field[i]` with its three successors, or alone.
unfoldable pub unescape_mount_field : (ℕ → Option ℕ) → Text → Text
unescape_mount_field digit [] = []
unescape_mount_field digit (x ∷ []) = x ∷ []
unescape_mount_field digit (x ∷ a ∷ []) = x ∷ a ∷ []
unescape_mount_field digit (x ∷ a ∷ b ∷ []) = x ∷ a ∷ b ∷ []
unescape_mount_field digit (x ∷ a ∷ b ∷ c ∷ t) = elim (escape_at digit x a b c) [
  | some n ↦ n ∷ unescape_mount_field digit t
  | none ↦ x ∷ unescape_mount_field digit (a ∷ b ∷ c ∷ t)
]

pub record Mount : Type 0 where
  pub point : Text
  pub fs_type : Text
  pub device : Option Text

-- `line.partition(" - ")`
abbrev parts : Text → Option ℕ → Text × Text
parts line none = (line, [])
parts line (some n) = (take n line, drop (n + 3) line)

abbrev mountinfo_entry : (ℕ → Option ℕ) → List Text → List Text → Option Mount
mountinfo_entry digit (a ∷ b ∷ device ∷ d ∷ point ∷ rest) (fs ∷ more) =
    some (record { point = unescape_mount_field digit point; fs_type = fs; device = some device })
mountinfo_entry digit _ _ = none

-- A line of /proc/self/mountinfo; `none` is passed over.
unfoldable pub read_mountinfo : (ℕ → Option ℕ) → Text → Option Mount
read_mountinfo digit line =
    let (head, tail) = parts line (find_offset (codes " - ") line) in
    mountinfo_entry digit (words head) (words tail)

abbrev mounts_entry : (ℕ → Option ℕ) → List Text → Option Mount
mounts_entry digit (source ∷ point ∷ fs ∷ rest) =
    some (record { point = unescape_mount_field digit point; fs_type = fs; device = none })
mounts_entry digit _ = none

-- A line of /proc/mounts.
unfoldable pub read_mounts : (ℕ → Option ℕ) → Text → Option Mount
read_mounts digit line = mounts_entry digit (words line)

unfoldable pub read_all : (Text → Option Mount) → List Text → List Mount
read_all read [] = []
read_all read (line ∷ lines) =
    let rest = read_all read lines in elim (read line) [ none ↦ rest | some m ↦ m ∷ rest ]

-- The arguments are the lines of the two files, `none` where the file cannot be read.
unfoldable pub mount_table : (ℕ → Option ℕ) → Option (List Text) → Option (List Text) → List Mount
mount_table digit mountinfo mounts =
    let fallback : List Mount = elim mounts [
      | none ↦ []
      | some lines ↦ read_all (read_mounts digit) lines
    ] in
    elim mountinfo [
      | none ↦ fallback
      | some lines ↦ elim (read_all (read_mountinfo digit) lines) [
        | [] ↦ fallback
        | m ∷ ms ↦ m ∷ ms
      ]
    ]

unfoldable pub fs_magic : ℕ → Option Text
fs_magic n =
    if n == 0x6969
    then some (codes "nfs")
    else if n == 0x517B
    then some (codes "smb")
    else if n == 0xFF534D42
    then some (codes "cifs")
    else if n == 0x794C7630
    then some (codes "overlayfs")
    else if n == 0x65735546
    then some (codes "fuse")
    else none

abbrev pub on_device : Text → Mount → Bool
on_device device m = elim m.device [ none ↦ false | some d ↦ text_eq d device ]

abbrev has_device : Mount → Bool
has_device m = elim m.device [ none ↦ false | some d ↦ true ]

unfoldable pub any_device : List Mount → Bool
any_device [] = false
any_device (m ∷ ms) = has_device m || any_device ms

-- `max(len(mount_point) ...)`
unfoldable pub longest : List Mount → ℕ
longest [] = 0
longest (m ∷ ms) = max (length m.point) (longest ms)

abbrev pub is_longest : ℕ → Mount → Bool
is_longest n m = length m.point == n

-- The element of the set of the file systems, if it has one element.
unfoldable pub sole_type : List Mount → Option Text
sole_type [] = none
sole_type (m ∷ ms) = if all_of (λ k. text_eq k.fs_type m.fs_type) ms then some m.fs_type else none

unfoldable pub by_device : Text → List Mount → Option Text
by_device device table =
    let candidates = keep_where (on_device device) table in
    sole_type (keep_where (is_longest (longest candidates)) candidates)

-- `best_len + 1`, `best_fs` and `ambiguous`
pub record Best : Type 0 where
  pub size : ℕ
  pub fs : Option Text
  pub ambiguous : Bool

-- `t.rstrip("/")`
abbrev drop_slashes : Text → Text
drop_slashes [] = []
drop_slashes (c ∷ t) = let rest = drop_slashes t in if c == b'/' then rest else c ∷ t

abbrev rstrip_slashes : Text → Text
rstrip_slashes t = reverse (drop_slashes (reverse t))

unfoldable pub covers : Text → Mount → Bool
covers path m = text_eq path m.point || starts_with (rstrip_slashes m.point ++ codes "/") path

abbrev pub same_fs : Option Text → Text → Bool
same_fs none t = false
same_fs (some s) t = text_eq t s

unfoldable pub better : Text → Mount → Best → Best
better path m b =
    if covers path m
    then (if ltb b.size (suc (length m.point))
        then record { size = suc (length m.point); fs = some m.fs_type; ambiguous = false }
        else if (suc (length m.point) == b.size) && not (same_fs b.fs m.fs_type)
        then record b { ambiguous = true }
        else b)
    else b

unfoldable pub best_of : Text → List Mount → Best → Best
best_of path [] b = b
best_of path (m ∷ ms) b = best_of path ms (better path m b)

unfoldable pub by_path : Text → List Mount → Option Text
by_path path table =
    let b = best_of path table (record { size = 0; fs = none; ambiguous = false }) in
    if b.ambiguous then none else b.fs

-- What the mount table says, by the target's device or else by its path.
unfoldable pub looked_up : Option Text → Text → List Mount → Option Text
looked_up none path table = by_path path table
looked_up (some d) path table = if any_device table then by_device d table else by_path path table

abbrev pub or_else : Option Text → Option Text → Option Text
or_else (some name) other = some name
or_else none other = other

-- `f_type` is that of `statvfs`, `device` the target's own from `stat`, each `none` where it is
-- not to be had; `path` is the resolved target.
unfoldable pub detect_filesystem : Option ℕ → Option Text → Text → List Mount → Option Text
detect_filesystem none device path table = looked_up device path table
detect_filesystem (some n) device path table = or_else (fs_magic n) (looked_up device path table)
