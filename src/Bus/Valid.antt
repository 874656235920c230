-- ===== src/Bus/Valid.antt =====
-- The envelopes that `validate_envelope` accepts, described on their own.
use Prim.Native.String.{String}
use yugo.Base.{
  ℕ, ◌≤◌, Text, text_eq_iff, ◌≡◌, ◌≢◌, ◌⊎◌, ◌↔◌, refl, Bool, true, not, ◌&&◌, ◌||◌, Option, none,
  some, List, [], ◌∷◌, contains_text, length, arith, inl, inr, Option-cases,
}
use yugo.Base.Int.{pos, negsuc, is_negative, is_int}
use yugo.Json.{Value, Dict, null, int, str, obj, lookup, get, has, or_null, get-lookup, has-lookup}
use yugo.Bus.Platform.{Platform, encoded_json}
use yugo.Bus.Name.{normalize_bot_name}
use yugo.Bus.Timestamp.{is_parseable_ts}
use yugo.Bus.Envelope.{
  validate_baton_fields, is_version, has_good_to, has_good_in_reply_to, has_good_root_id,
  has_good_claim, has_good_hops, is_nonempty_str, is_str, is_null, is_count, is_canonical_claim,
}

-- The field is absent, or has the property.
abbrev pub AbsentOr : (Value → Type 0) → Option Value → Type 0
AbsentOr P none = Unit
AbsentOr P (some v) = P v

abbrev pub PresentAnd : (Value → Type 0) → Option Value → Type 0
PresentAnd P none = ⊥
PresentAnd P (some v) = P v

abbrev pub IsText : Value → Type 0
IsText v = (t : Text) × (v ≡ str t)

abbrev pub IsNonemptyText : Value → Type 0
IsNonemptyText v = (c : ℕ) × (t : Text) × (v ≡ str (c ∷ t))

abbrev pub IsHopCount : Value → Type 0
IsHopCount v = (n : ℕ) × (v ≡ int (pos n))

abbrev pub IsRecipient : Value → Type 0
IsRecipient v = (v ≡ null) ⊎ IsText v

-- A bot name in canonical form, on the allowlist.
abbrev pub IsMember : Platform → List Text → Value → Type 0
IsMember p allowed v =
    (t : Text) × (v ≡ str t) × (normalize_bot_name p v ≡ some t) × (contains_text allowed t ≡ true)

-- The fields that the envelope contract asks for.
pub record IsEnvelope (p : Platform) (allowed : List Text) (max_bytes : ℕ) (d : Dict) : Type 0 where
  pub version : lookup "envelope_version" d ≡ some (int (pos 1))
  pub id : PresentAnd IsNonemptyText (lookup "id" d)
  pub kind : PresentAnd IsNonemptyText (lookup "kind" d)
  pub ts : is_parseable_ts p (get "ts" d) ≡ true
  pub payload : lookup "payload" d ≢ none
  pub to : AbsentOr IsRecipient (lookup "to" d)
  pub in_reply_to : AbsentOr IsText (lookup "in_reply_to" d)
  pub encoded : (b : Text) × (encoded_json p (obj d) ≡ some b) × (length b ≤ max_bytes)
  pub root_id : AbsentOr IsNonemptyText (lookup "root_id" d)
  pub origin : AbsentOr (IsMember p allowed) (lookup "origin" d)
  pub owner : AbsentOr (IsMember p allowed) (lookup "owner" d)
  pub hops : AbsentOr IsHopCount (lookup "hops" d)

-- Each Boolean test of the code decides its property of the field.
AbsentOr-iff :
    (P : Value → Type 0) (b : Value → Bool) (k : String) (d : Dict)
    → ((v : Value) → (b v ≡ true) ↔ P v)
    → (not (has k d && not (b (get k d))) ≡ true) ↔ AbsentOr P (lookup k d)
AbsentOr-iff P b k d h = elim (Option-cases (lookup k d)) [
  | inl none_there ↦ rw (has-lookup, get-lookup, none_there) (λ _. tt, λ _. refl)
  | inr found ↦
      rw (has-lookup, get-lookup, found.1)
        (λ q. (h found.0).0 (ground arith), λ q. ground (arith, (h found.0).1 q))
]

is_nonempty_str_iff : (v : Value) → (is_nonempty_str v ≡ true) ↔ IsNonemptyText v
unfolding is_nonempty_str
is_nonempty_str_iff (str []) = (λ h. cc, λ h. cc (h.2))
is_nonempty_str_iff (str (c ∷ t)) = (λ h. (c, t, refl), λ h. refl)
is_nonempty_str_iff v = (λ h. cc, λ h. cc (h.2))

is_str_iff : (v : Value) → (is_str v ≡ true) ↔ IsText v
is_str_iff (str t) = (λ h. (t, refl), λ h. refl)
is_str_iff v = (λ h. cc, λ h. cc (h.1))

is_count_iff : (v : Value) → (is_count v ≡ true) ↔ IsHopCount v
unfolding is_count is_negative
is_count_iff (int (pos n)) = (λ h. (n, refl), λ h. refl)
is_count_iff (int (negsuc n)) = (λ h. cc, λ h. cc (h.1))
is_count_iff v = (λ h. cc, λ h. cc (h.1))

IsRecipient-iff : (v : Value) → (is_null v || is_str v ≡ true) ↔ IsRecipient v
IsRecipient-iff null = (λ h. inl refl, λ h. refl)
IsRecipient-iff (str t) = (λ h. inr (t, refl), λ h. refl)
IsRecipient-iff v = (λ h. cc, λ h. elim h [ inl e ↦ cc e | inr e ↦ cc (e.1) ])

version_value : (o : Option Value) → (is_version (or_null o) ≡ true) ↔ (o ≡ some (int (pos 1)))
unfolding is_version is_int
version_value none = (λ h. cc, λ h. cc)
version_value (some (int (pos n))) = (λ h. ground arith, λ h. ground arith)
version_value (some (int (negsuc n))) = (λ h. cc, λ h. cc)
version_value (some v) = (λ h. cc, λ h. cc)

module _ (p : Platform) (allowed : List Text) where
  is_canonical_claim_iff :
      (v : Value) → (is_canonical_claim p allowed v ≡ true) ↔ IsMember p allowed v
  unfolding is_canonical_claim
  is_canonical_claim_iff (str t) = elim (Option-cases (normalize_bot_name p (str t))) [
    | inl bad ↦ (λ h. absurd (ground (arith, bad)), λ h. absurd (ground (arith, bad, h.2)))
    | inr good ↦ (
      λ h. (t, refl, ground (arith, good.1, text_eq_iff good.0 t), ground (arith, good.1)),
      λ h. ground (arith, good.1, h.1, h.2, h.3, text_eq_iff good.0 t),
    )
  ]
  is_canonical_claim_iff v = (λ h. cc, λ h. cc (h.1))

  -- The version test reads the field's value and its type.
  version_iff :
      (d : Dict)
      → (is_version (get "envelope_version" d) ≡ true)
        ↔ (lookup "envelope_version" d ≡ some (int (pos 1)))
  version_iff d = rw get-lookup (version_value (lookup "envelope_version" d))

  text_present_iff :
      (k : String) (d : Dict)
      → (is_nonempty_str (get k d) ≡ true) ↔ PresentAnd IsNonemptyText (lookup k d)
  unfolding is_nonempty_str
  text_present_iff k d = elim (Option-cases (lookup k d)) [
    | inl gone ↦ rw (get-lookup, gone) (λ h. cc, λ h. absurd h)
    | inr found ↦ rw (get-lookup, found.1) (is_nonempty_str_iff found.0)
  ]

  payload_iff : (d : Dict) → (has "payload" d ≡ true) ↔ (lookup "payload" d ≢ none)
  payload_iff d = elim (Option-cases (lookup "payload" d)) [
    | inl gone ↦ rw (has-lookup, gone) (λ h. cc, λ h. absurd (h refl))
    | inr found ↦ rw (has-lookup, found.1) (λ h e. cc, λ h. refl)
  ]

  -- All checks of `validate_envelope` before the size, as one.
  abbrev pub checks : Dict → Bool
  checks d =
      is_version (get "envelope_version" d)
      && (is_nonempty_str (get "id" d)
          && (is_nonempty_str (get "kind" d)
              && (is_parseable_ts p (get "ts" d)
                  && (has "payload" d && (has_good_to d && has_good_in_reply_to d)))))

  to_iff : (d : Dict) → (has_good_to d ≡ true) ↔ AbsentOr IsRecipient (lookup "to" d)
  unfolding has_good_to
  to_iff d = elim (Option-cases (lookup "to" d)) [
    | inl gone ↦ rw (has-lookup, get-lookup, gone) (λ h. tt, λ h. refl)
    | inr found ↦
        rw (has-lookup, get-lookup, found.1)
          (
            λ h. (IsRecipient-iff found.0).0 (ground arith),
            λ h. ground (arith, (IsRecipient-iff found.0).1 h),
          )
  ]

  in_reply_to_iff :
      (d : Dict) → (has_good_in_reply_to d ≡ true) ↔ AbsentOr IsText (lookup "in_reply_to" d)
  unfolding has_good_in_reply_to
  in_reply_to_iff d = AbsentOr-iff IsText is_str "in_reply_to" d is_str_iff

  root_id_iff :
      (d : Dict) → (has_good_root_id d ≡ true) ↔ AbsentOr IsNonemptyText (lookup "root_id" d)
  unfolding has_good_root_id
  root_id_iff d = AbsentOr-iff IsNonemptyText is_nonempty_str "root_id" d is_nonempty_str_iff

  claim_iff :
      (k : String) (d : Dict)
      → (has_good_claim p allowed k d ≡ true) ↔ AbsentOr (IsMember p allowed) (lookup k d)
  unfolding has_good_claim
  claim_iff k d =
      AbsentOr-iff (IsMember p allowed) (is_canonical_claim p allowed) k d is_canonical_claim_iff

  hops_iff : (d : Dict) → (has_good_hops d ≡ true) ↔ AbsentOr IsHopCount (lookup "hops" d)
  unfolding has_good_hops
  hops_iff d = AbsentOr-iff IsHopCount is_count "hops" d is_count_iff

  abbrev pub baton_checks : Dict → Bool
  baton_checks d =
      has_good_root_id d
      && (has_good_claim p allowed "origin" d
          && (has_good_claim p allowed "owner" d && has_good_hops d))

  pub baton_ok_iff :
      (d : Dict) → (validate_baton_fields p allowed d ≡ none) ↔ (baton_checks d ≡ true)
  unfolding validate_baton_fields
  baton_ok_iff d = (λ h. ground arith, λ h. ground arith)

  pub IsEnvelope-of_checks :
      (max_bytes : ℕ) (d : Dict) (b : Text)
      → checks d ≡ true
      → encoded_json p (obj d) ≡ some b
      → length b ≤ max_bytes
      → baton_checks d ≡ true
      → IsEnvelope p allowed max_bytes d
  IsEnvelope-of_checks max_bytes d b h j l w = record {
    version = (version_iff d).0 (ground arith);
    id = (text_present_iff "id" d).0 (ground arith);
    kind = (text_present_iff "kind" d).0 (ground arith);
    ts = ground arith;
    payload = (payload_iff d).0 (ground arith);
    to = (to_iff d).0 (ground arith);
    in_reply_to = (in_reply_to_iff d).0 (ground arith);
    encoded = (b, j, l);
    root_id = (root_id_iff d).0 (ground arith);
    origin = (claim_iff "origin" d).0 (ground arith);
    owner = (claim_iff "owner" d).0 (ground arith);
    hops = (hops_iff d).0 (ground arith);
  }

  pub checks_of_IsEnvelope :
      (max_bytes : ℕ) (d : Dict)
      → IsEnvelope p allowed max_bytes d
      → (checks d ≡ true) × (baton_checks d ≡ true)
  checks_of_IsEnvelope max_bytes d v = (
    ground (
      arith,
      (version_iff d).1 v.version,
      (text_present_iff "id" d).1 v.id,
      (text_present_iff "kind" d).1 v.kind,
      v.ts,
      (payload_iff d).1 v.payload,
      (to_iff d).1 v.to,
      (in_reply_to_iff d).1 v.in_reply_to,
    ),
    ground (
      arith,
      (root_id_iff d).1 v.root_id,
      (claim_iff "origin" d).1 v.origin,
      (claim_iff "owner" d).1 v.owner,
      (hops_iff d).1 v.hops,
    ),
  )
