-- ===== src/Bus/Envelope.antt =====
-- `validate_envelope` and `_validate_baton_fields` of yugo/fleet_bus.py.
use Prim.Native.String.{String}
use yugo.Base.{
  ℕ, Text, text_eq, Bool, true, false, not, ◌&&◌, Option, none, some, List, [], ◌∷◌, leb,
  if◌then◌else◌, contains_text, length,
}
use yugo.Base.Int.{is_negative, is_int}
use yugo.Json.{Value, Dict, null, int, str, obj, get, has, put}
use yugo.DropReason.{
  DropReason, envelope_not_object, unsupported_envelope_version, invalid_id, invalid_kind,
  invalid_ts, missing_payload, invalid_to, invalid_in_reply_to, from_claim_rejected,
  payload_not_serializable, envelope_too_large, yugo_invalid_root_id, yugo_invalid_origin,
  yugo_invalid_owner, yugo_invalid_hops,
}
use yugo.Bus.Platform.{Platform, encoded_json}
use yugo.Bus.Name.{normalize_bot_name}
use yugo.Bus.Timestamp.{is_parseable_ts}

-- EnvelopeValidationResult: the validated envelope, or the reject code.
pub data Validation : Type 0 where
  accepted : Dict → Validation
  rejected : DropReason → Validation

-- An early return.
abbrev pub require : Bool → DropReason → Validation → Validation
require true r k = k
require false r k = rejected r

abbrev pub envelope_version : ℕ
envelope_version = 1

-- `type(v) is int and v == ENVELOPE_VERSION`: `true` is a `bool` and not an `int`.
unfoldable pub is_version : Value → Bool
is_version (int n) = is_int n envelope_version
is_version _ = false

abbrev pub is_str : Value → Bool
is_str (str t) = true
is_str _ = false

abbrev pub is_null : Value → Bool
is_null null = true
is_null _ = false

unfoldable pub is_nonempty_str : Value → Bool
is_nonempty_str (str []) = false
is_nonempty_str (str (c ∷ t)) = true
is_nonempty_str _ = false

-- `type(hops) is int and hops >= 0`
unfoldable pub is_count : Value → Bool
is_count (int n) = not (is_negative n)
is_count _ = false

-- `d.get("to")` is absent, None or a string.
unfoldable pub has_good_to : Dict → Bool
has_good_to d = not (has "to" d && (not (is_null (get "to" d)) && not (is_str (get "to" d))))

unfoldable pub has_good_in_reply_to : Dict → Bool
has_good_in_reply_to d = not (has "in_reply_to" d && not (is_str (get "in_reply_to" d)))

unfoldable pub has_good_root_id : Dict → Bool
has_good_root_id d = not (has "root_id" d && not (is_nonempty_str (get "root_id" d)))

unfoldable pub has_good_hops : Dict → Bool
has_good_hops d = not (has "hops" d && not (is_count (get "hops" d)))

module _ (p : Platform) (allowed : List Text) where
  -- A claim that is canonical already, and on the allowlist.
  unfoldable pub is_canonical_claim : Value → Bool
  is_canonical_claim (str t) =
      elim (normalize_bot_name p (str t)) [ none ↦ false | some n ↦ text_eq n t ]
      && contains_text allowed t
  is_canonical_claim _ = false

  unfoldable pub has_good_claim : String → Dict → Bool
  unfolding is_canonical_claim
  has_good_claim name d = not (has name d && not (is_canonical_claim (get name d)))

  -- `none` is None: no baton field is malformed.
  unfoldable pub validate_baton_fields : Dict → Option DropReason
  unfolding has_good_root_id has_good_claim has_good_hops
  validate_baton_fields d =
      if has_good_root_id d
      then (if has_good_claim "origin" d
          then (if has_good_claim "owner" d
              then (if has_good_hops d then none else some yugo_invalid_hops)
              else some yugo_invalid_owner)
          else some yugo_invalid_origin)
      else some yugo_invalid_root_id

  -- `normalize_bot_name(value.get("from"))`, if it is on the allowlist
  unfoldable pub allowed_from : Dict → Option Text
  allowed_from d = elim (normalize_bot_name p (get "from" d)) [
    | none ↦ none
    | some n ↦ if contains_text allowed n then some n else none
  ]

  -- The size check and all after it.
  unfoldable pub validate_size : ℕ → Text → Dict → Validation
  validate_size max_bytes from_claim d = elim (encoded_json p (obj d)) [
    | none ↦ rejected payload_not_serializable
    | some encoded ↦
        require (leb (length encoded) max_bytes) envelope_too_large
          (elim (validate_baton_fields d) [
            | some r ↦ rejected r
            | none ↦ accepted (put "from" (str from_claim) d)
          ])
  ]

  unfoldable pub validate_from : ℕ → Dict → Validation
  validate_from max_bytes d = elim (allowed_from d) [
    | none ↦ rejected from_claim_rejected
    | some n ↦ validate_size max_bytes n d
  ]

  unfoldable pub validate_envelope : Value → ℕ → Validation
  validate_envelope (obj d) max_bytes =
      require (is_version (get "envelope_version" d)) unsupported_envelope_version (
        require (is_nonempty_str (get "id" d)) invalid_id (
          require (is_nonempty_str (get "kind" d)) invalid_kind (
            require (is_parseable_ts p (get "ts" d)) invalid_ts (
              require (has "payload" d) missing_payload (
                require (has_good_to d) invalid_to (
                  require (has_good_in_reply_to d) invalid_in_reply_to
                    (validate_from max_bytes d)))))))
  validate_envelope _ max_bytes = rejected envelope_not_object
