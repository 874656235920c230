-- ===== src/Coordinator/Mounts/Escape.antt =====
-- The escapes of the mount table, as the docstring of `_unescape_mount_field` states them: space,
-- tab, newline and backslash are written as a backslash and three octal digits.
use yugo.Base.{
  ℕ, ◌+◌, ◌/◌, ◌%◌, ◌*◌, ◌<◌, Text, ◌≡◌, refl, ap, ◌∙◌, Bool, true, false, ◌||◌, ◌==◌, Option, none,
  some, [], ◌∷◌, ◌++◌, if◌then◌else◌, arith, Bool-cases, inl, inr,
}
use yugo.Coordinator.Mounts.{octal_digit, escape_at, unescape_mount_field}

abbrev pub is_escaped : ℕ → Bool
is_escaped c = c == 32 || (c == 9 || (c == 10 || c == 92))

unfoldable pub escape_char : ℕ → Text
escape_char c =
    if is_escaped c then 92 ∷ (48 + c / 64) ∷ (48 + c / 8 % 8) ∷ (48 + c % 8) ∷ [] else c ∷ []

unfoldable pub escape_field : Text → Text
escape_field [] = []
escape_field (c ∷ t) = escape_char c ++ escape_field t

-- The decimal digits of ASCII below 8 have their values.
abbrev pub ReadsOctal : (ℕ → Option ℕ) → Type 0
ReadsOctal digit = (k : ℕ) → k < 8 → digit (48 + k) ≡ some k

module _ (digit : ℕ → Option ℕ) where
  escape_at-plain : (x a b c : ℕ) → (x == 92) ≡ false → escape_at digit x a b c ≡ none
  unfolding escape_at
  escape_at-plain x a b c h = rw (h) refl

  unescape-plain :
      (x : ℕ) (t : Text)
      → (x == 92) ≡ false
      → unescape_mount_field digit (x ∷ t) ≡ x ∷ unescape_mount_field digit t
  unfolding unescape_mount_field
  unescape-plain x [] h = refl
  unescape-plain x (a ∷ []) h = refl
  unescape-plain x (a ∷ b ∷ []) h = refl
  unescape-plain x (a ∷ b ∷ c ∷ t) h = rw (escape_at-plain x a b c h, unescape_mount_field) refl

  octal_digit_lem : (k : ℕ) → ReadsOctal digit → k < 8 → octal_digit (digit (48 + k)) ≡ some k
  octal_digit_lem k r h = rw (r k h) (ground arith)

  escape_at_lem :
      (c : ℕ)
      → ReadsOctal digit
      → c < 128
      → escape_at digit 92 (48 + c / 64) (48 + c / 8 % 8) (48 + c % 8)
        ≡ some (c / 64 * 64 + c / 8 % 8 * 8 + c % 8)
  unfolding escape_at
  escape_at_lem c r h =
      rw
        (
          octal_digit_lem (c / 64) r (omega arith),
          octal_digit_lem (c / 8 % 8) r (omega arith),
          octal_digit_lem (c % 8) r (omega arith),
        )
        refl

  digits_sum : (c : ℕ) → c < 128 → c / 64 * 64 + c / 8 % 8 * 8 + c % 8 ≡ c
  digits_sum c h = omega arith

  escaped_small : (c : ℕ) → is_escaped c ≡ true → c < 128
  escaped_small c h = ground arith

  plain_char : (c : ℕ) → is_escaped c ≡ false → (c == 92) ≡ false
  plain_char c h = ground arith

  -- Decoding a field that was escaped gives the field back, whatever characters it has, when the
  -- digits are read as the digits of ASCII.
  pub unescape-escape :
      (t : Text) → ReadsOctal digit → unescape_mount_field digit (escape_field t) ≡ t
  unfolding escape_field escape_char unescape_mount_field
  unescape-escape [] r = refl
  unescape-escape (c ∷ t) r = elim (Bool-cases (is_escaped c)) [
    | inl y ↦
        rw
          (
            y,
            escape_at_lem c r (escaped_small c y),
            digits_sum c (escaped_small c y),
            unescape-escape t r,
            unescape_mount_field,
          )
          refl
    | inr n ↦
        rw (n) (
          unescape-plain c (escape_field t) (plain_char c n)
          ∙ ap (λ l. c ∷ l) (unescape-escape t r))
  ]
