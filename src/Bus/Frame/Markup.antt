-- ===== src/Bus/Frame/Markup.antt =====
-- No value of the sender opens or closes an element of the injection frame.
use Prim.Native.String.{String}
use yugo.Base.{
  ℕ, ◌+◌, Text, codes, ◌≡◌, refl, Bool, true, ◌==◌, some, [], ◌∷◌, ◌++◌, ◌||◌, arith, count_where,
  Option-cases, inl, inr, ◌⊎◌, subst, sym,
}
use yugo.Json.{Value, Dict, get}
use yugo.Bus.Platform.{Platform, canonical_json}
use yugo.Bus.Frame.{
  escape_attr_char, concat_map, frame_attr, escape_json_char, frame_payload_json, to_str, attribute,
  next_attribute, baton_attribute, attributes, format_envelope_for_session,
}

-- How often the character `x` stands in a text.
abbrev pub occurrences : ℕ → Text → ℕ
occurrences x t = count_where (λ c. x == c) t

occurrences-append :
    (x : ℕ) (s t : Text) → occurrences x (s ++ t) ≡ occurrences x s + occurrences x t
unfolding count_where
occurrences-append x [] t = omega arith
occurrences-append x (c ∷ s) t = ground (arith, occurrences-append x s t)

occurrences-concat_map :
    (x : ℕ) (f : ℕ → Text) (t : Text)
    → ((c : ℕ) → occurrences x (f c) ≡ 0)
    → occurrences x (concat_map f t) ≡ 0
unfolding count_where
occurrences-concat_map x f [] clean = refl
occurrences-concat_map x f (c ∷ t) clean = omega (
  arith,
  occurrences-append x (f c) (concat_map f t),
  clean c,
  occurrences-concat_map x f t clean,
)

-- `<` and `>`
abbrev pub is_bracket : ℕ → Bool
is_bracket x = x == b'<' || x == b'>'

escape_attr_char-clean :
    (x : ℕ) → is_bracket x ≡ true → (c : ℕ) → occurrences x (escape_attr_char c) ≡ 0
unfolding escape_attr_char count_where
escape_attr_char-clean x h c = ground arith

escape_json_char-clean :
    (x : ℕ) → is_bracket x ≡ true → (c : ℕ) → occurrences x (escape_json_char c) ≡ 0
unfolding escape_json_char count_where
escape_json_char-clean x h c = ground arith

frame_attr-clean : (x : ℕ) → is_bracket x ≡ true → (t : Text) → occurrences x (frame_attr t) ≡ 0
unfolding frame_attr
frame_attr-clean x h t = occurrences-concat_map x escape_attr_char t (escape_attr_char-clean x h)

module _ (p : Platform) (x : ℕ) (h : is_bracket x ≡ true) where
  IsClean : Text → Type 0
  IsClean t = occurrences x t ≡ 0

  attribute-IsClean : (name value : Text) → IsClean name → IsClean (attribute p name value)
  unfolding attribute count_where IsClean
  attribute-IsClean name value clean = ground (
    arith,
    frame_attr-clean x h value,
    occurrences-append x name (codes "=\"" ++ (frame_attr value ++ codes "\"")),
    occurrences-append x (codes "=\"") (frame_attr value ++ codes "\""),
    occurrences-append x (frame_attr value) (codes "\""),
  )

  next_attribute-IsClean :
      (k : String) (d : Dict) → IsClean (codes k) → IsClean (next_attribute p k d)
  unfolding next_attribute count_where IsClean
  next_attribute-IsClean k d clean = ground (
    arith,
    attribute-IsClean (codes k) (to_str p (get k d)) clean,
    occurrences-append x (codes "\n         ") (attribute p (codes k) (to_str p (get k d))),
  )

  baton_attribute-IsClean :
      (k : String) (d : Dict) → IsClean (codes k) → IsClean (baton_attribute p k d)
  unfolding baton_attribute count_where IsClean
  baton_attribute-IsClean k d clean = ground (arith, next_attribute-IsClean k d clean)

  payload-IsClean : (v : Value) (t : Text) → frame_payload_json p v ≡ some t → IsClean t
  unfolding frame_payload_json IsClean
  payload-IsClean v t e = elim (Option-cases (canonical_json p v)) [
    | inl n ↦ ground arith
    | inr (s, j) ↦
        ground (arith, occurrences-concat_map x escape_json_char s (escape_json_char-clean x h))
  ]

  append-IsClean : (s t : Text) → IsClean s → IsClean t → IsClean (s ++ t)
  unfolding IsClean
  append-IsClean s t cs ct = omega (arith, occurrences-append x s t)

  plain : (t : Text) → count_where is_bracket t ≡ 0 → IsClean t
  unfolding count_where IsClean
  plain [] n = refl
  plain (c ∷ t) n = ground (arith, plain t)

  attributes-IsClean : (d : Dict) (req_id : Text) → IsClean (attributes p d req_id)
  unfolding attributes count_where
  attributes-IsClean d req_id =
      append-IsClean _ _
        (plain (codes "source=\"fleet-bus\"\n         authenticated=\"false\"\n         ") refl)
        (append-IsClean _ _
          (attribute-IsClean (codes "from_claim") (to_str p (get "from" d))
            (plain (codes "from_claim") refl))
          (append-IsClean _ _ (next_attribute-IsClean "kind" d (plain (codes "kind") refl)) (
            append-IsClean _ _ (plain (codes "\n         ") refl) (
              append-IsClean _ _
                (attribute-IsClean (codes "env_id") (to_str p (get "id" d))
                  (plain (codes "env_id") refl))
                (append-IsClean _ _ (plain (codes "\n         ") refl) (
                  append-IsClean _ _
                    (attribute-IsClean (codes "req_id") req_id (plain (codes "req_id") refl))
                    (append-IsClean _ _ (next_attribute-IsClean "ts" d (plain (codes "ts") refl)) (
                      append-IsClean _ _
                        (baton_attribute-IsClean "root_id" d (plain (codes "root_id") refl))
                        (append-IsClean _ _
                          (baton_attribute-IsClean "origin" d (plain (codes "origin") refl))
                          (append-IsClean _ _
                            (baton_attribute-IsClean "owner" d (plain (codes "owner") refl))
                            (baton_attribute-IsClean "hops" d (plain (codes "hops") refl))))))))))))

-- The block around its attributes and its payload.
abbrev block_of : Text → Text → Text
block_of a payload =
    codes "<channel "
    ++ (a ++ (codes ">\n  <payload>" ++ (payload ++ codes "</payload>\n</channel>")))

block_of-count :
    (x i j k : ℕ) (a payload : Text)
    → occurrences x (codes "<channel ") ≡ i
    → occurrences x (codes ">\n  <payload>") ≡ j
    → occurrences x (codes "</payload>\n</channel>") ≡ k
    → occurrences x a ≡ 0
    → occurrences x payload ≡ 0
    → occurrences x (block_of a payload) ≡ i + j + k
block_of-count x i j k a payload ei ej ek ca cp = omega (
  arith,
  occurrences-append x (codes "<channel ")
      (a ++ (codes ">\n  <payload>" ++ (payload ++ codes "</payload>\n</channel>"))),
  occurrences-append x a (codes ">\n  <payload>" ++ (payload ++ codes "</payload>\n</channel>")),
  occurrences-append x (codes ">\n  <payload>") (payload ++ codes "</payload>\n</channel>"),
  occurrences-append x payload (codes "</payload>\n</channel>"),
)

bracket-cases : (x : ℕ) → is_bracket x ≡ true → (x ≡ b'<') ⊎ (x ≡ b'>')
bracket-cases x h = ground arith

block_of-markup :
    (x : ℕ) (a payload : Text)
    → is_bracket x ≡ true
    → occurrences x a ≡ 0
    → occurrences x payload ≡ 0
    → occurrences x (block_of a payload) ≡ 4
unfolding count_where
block_of-markup x a payload h = elim (bracket-cases x h) [
  | inl e ↦
      subst
        (λ y.
          occurrences y a ≡ 0 → occurrences y payload ≡ 0 → occurrences y (block_of a payload) ≡ 4)
        (sym e) (block_of-count b'<' 1 1 2 a payload refl refl refl)
  | inr e ↦
      subst
        (λ y.
          occurrences y a ≡ 0 → occurrences y payload ≡ 0 → occurrences y (block_of a payload) ≡ 4)
        (sym e) (block_of-count b'>' 0 2 2 a payload refl refl refl)
]

-- Whenever the block is produced, it has exactly four `<` and exactly four `>` (`x` is either
-- one), as many as its own two elements have, whatever the sender put into the envelope and the
-- request id.
pub format_envelope_markup :
    (p : Platform) (x : ℕ) (d : Dict) (req_id block : Text)
    → is_bracket x ≡ true
    → format_envelope_for_session p d req_id ≡ some block
    → occurrences x block ≡ 4
unfolding format_envelope_for_session IsClean
format_envelope_markup p x d req_id block h e =
    elim (Option-cases (frame_payload_json p (get "payload" d))) [
      | inl n ↦ ground arith
      | inr (payload, j) ↦ ground (
        arith,
        block_of-markup x (attributes p d req_id) payload h (attributes-IsClean p x h d req_id)
            (payload-IsClean p x h (get "payload" d) payload j),
      )
    ]
