-- ===== src/Files/Path.antt =====
-- `_validated_parts` of yugo/filesystem_tools.py, and what it uses of `PurePosixPath`: the parts
-- are those between slashes, less the empty ones and the dots.
use yugo.Base.{
  ℕ, Text, codes, text_eq, Bool, true, false, not, ◌&&◌, ◌||◌, ◌==◌, ltb, List, [], ◌∷◌,
  if◌then◌else◌, all_of, keep_where, split_on,
}
use yugo.Json.{Value, str}

pub data Tool {ℓ} (A : Type ℓ) : Type ℓ where
  path_error : Tool A
  done : A → Tool A

unfoldable pub is_empty_part : Text → Bool
is_empty_part [] = true
is_empty_part (c ∷ t) = text_eq (c ∷ t) (codes ".")

abbrev pub is_real_part : Text → Bool
is_real_part t = not (is_empty_part t)

unfoldable pub posix_parts : Text → List Text
posix_parts path = keep_where is_real_part (split_on b'/' path)

-- No control character.
abbrev pub is_printable : ℕ → Bool
is_printable c = not (ltb c 32) && not (c == 127)

-- No lone surrogate, so that the part has a UTF-8 form.
abbrev pub is_encodable : ℕ → Bool
is_encodable c = ltb c 0xD800 || ltb 0xDFFF c

abbrev pub is_not_up : Text → Bool
is_not_up t = not (text_eq t (codes ".."))

abbrev pub is_clean : Text → Bool
is_clean t = all_of is_encodable t && all_of is_printable t

abbrev pub is_nul : Text → Bool
is_nul t = not (all_of (λ (c : ℕ). not (c == 0)) t)

abbrev pub at_least_one : Bool → List Text → Tool (List Text)
at_least_one allow_root [] = if allow_root then done [] else path_error
at_least_one allow_root (p ∷ ps) = done (p ∷ ps)

abbrev pub of_components : Bool → List Text → Tool (List Text)
of_components allow_root ps =
    if all_of is_not_up ps && all_of is_clean ps then at_least_one allow_root ps else path_error

abbrev pub is_relative : Text → Bool
is_relative [] = false
is_relative (c ∷ t) = not (is_nul (c ∷ t)) && not (c == b'/')

unfoldable pub validated_parts : (allow_root : Bool) → Value → Tool (List Text)
validated_parts allow_root (str path) =
    if is_relative path then of_components allow_root (posix_parts path) else path_error
validated_parts allow_root v = path_error
