-- ===== src/Dedup/Clock.antt =====
-- The lease clock: `read_boot_id` and `valid_boot_id` of yugo/dedup_verification.py, `_lease_clock`
-- and `_validate_metadata` of yugo/dedup_store.py.
use yugo.Base.{
  ℕ, zero, suc, ◌+◌, ◌-◌, ◌/◌, ◌^◌, Text, text_eq, strip, Bool, true, false, ◌&&◌, ◌||◌, ◌==◌,
  Option, none, some, List, [], ◌∷◌, ltb, leb, if◌then◌else◌,
}
use yugo.Dedup.Table.{MonoMs, ms, malformed}

-- What an operation raises: `unreadable` is the OSError of the boot id's file, `sqlite` an error
-- of the database, `verification` a `VerificationError`.
pub data Fault : Type 0 where
  unreadable sqlite verification : Fault

pub data Result {ℓ} (A : Type ℓ) : Type ℓ where
  ok : A → Result A
  err : Fault → Result A

abbrev is_hex : ℕ → Bool
is_hex c = (leb b'0' c && leb c b'9') || (leb b'a' c && leb c b'f')

-- `n` lower-case hexadecimal digits, and what follows them.
skip_hex : ℕ → Text → Option Text
skip_hex zero t = some t
skip_hex (suc n) [] = none
skip_hex (suc n) (c ∷ t) = let rest = skip_hex n t in if is_hex c then rest else none

-- Groups of digits with a dash between two of them.
match_groups : List ℕ → Text → Bool
unfolding skip_hex
match_groups [] t = false
match_groups (n ∷ []) t = elim (skip_hex n t) [ some [] ↦ true | _ ↦ false ]
match_groups (n ∷ ns) t = elim (skip_hex n t) [
  | some (c ∷ rest) ↦ c == b'-' && match_groups ns rest
  | _ ↦ false
]

-- BOOT_RE
unfoldable pub valid_boot_id : Text → Bool
unfolding match_groups
valid_boot_id t = match_groups (8 ∷ 4 ∷ 4 ∷ 4 ∷ 12 ∷ []) t

-- The argument is the text of BOOT_PATH, `none` if it cannot be read.
unfoldable pub read_boot_id : Option Text → Result Text
read_boot_id none = err unreadable
read_boot_id (some file) =
    let value = strip file in if valid_boot_id value then ok value else err verification

-- The largest lease deadline, `2**53 - 1`.
abbrev pub max_mono_ms : ℕ
max_mono_ms = 2 ^ 53 - 1

pub record LeaseClock : Type 0 where
  pub boot : Text
  pub mono : ℕ
  pub deadline : ℕ

-- `math.ceil(lease_s * 1000)`
abbrev pub lease_ms : ℕ → ℕ
lease_ms lease = (lease + 999) / 1000

-- `0 <= mono < deadline <= 2**53 - 1`
in_range : LeaseClock → Result LeaseClock
in_range c = if ltb c.mono c.deadline && leb c.deadline max_mono_ms then ok c else err verification

unfoldable pub lease_clock : Option Text → ℕ → ℕ → Result LeaseClock
unfolding in_range
lease_clock boot_file mono_ns lease = elim (read_boot_id boot_file) [
  | err e ↦ err e
  | ok boot ↦
      let mono = mono_ns / 1000000 in
      in_range (record { boot = boot; mono = mono; deadline = mono + lease_ms lease })
]

abbrev pub is_legacy : Text → Bool
is_legacy boot = text_eq boot []

abbrev mono_in_range : MonoMs → Bool
mono_in_range (ms d) = ltb 0 d && leb d max_mono_ms
mono_in_range malformed = false

-- `_validate_metadata`: true where it returns, false where it raises.
unfoldable pub valid_metadata : Text → MonoMs → Bool
valid_metadata boot deadline = is_legacy boot || (valid_boot_id boot && mono_in_range deadline)

-- `lease_until_mono_ms <= mono`, on metadata that passed the check above.
abbrev pub mono_le : MonoMs → ℕ → Bool
mono_le (ms d) mono = leb d mono
mono_le malformed mono = false

-- `lease_until_mono_ms=?` with the value that was read.
abbrev pub mono_eq : MonoMs → MonoMs → Bool
mono_eq (ms a) (ms b) = a == b
mono_eq malformed malformed = true
mono_eq _ _ = false
