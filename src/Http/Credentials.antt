-- ===== src/Http/Credentials.antt =====
-- `load_credentials` of yugo/http_tools.py, from the document that `_parse_yaml` returns on. The
-- keys of the document are texts.
use yugo.Base.{
  ℕ, ◌%◌, Text, codes, text_eq, Bool, true, false, not, ◌&&◌, ◌||◌, ◌==◌, Option, none, some, List,
  [], ◌∷◌, ◌++◌, if◌then◌else◌, find_offset,
}
use Prim.Native.String.{String}
use yugo.Base.Int.{is_int}
use yugo.Json.{Value, int, str, arr, obj, Items, nil, cons, Dict, empty, entry, get, has, lookup}
use yugo.Http.Origin.{Origin, origin_eq, Credential}
use yugo.Http.Authority.{is_header_token, is_field_value}

pub data CredentialConfigError : Type 0 where
  bad_perms unreadable malformed_yaml not_mapping unknown_top_key version_invalid not_list :
      CredentialConfigError
  entry_not_mapping entry_wrong_keys entry_id_not_string entry_host_not_string
        entry_header_not_string :
      CredentialConfigError
  entry_value_not_string id_bad_repertoire id_contains_value id_duplicate header_not_token :
      CredentialConfigError
  value_bad_repertoire host_invalid origin_duplicate : CredentialConfigError
  -- Another code of `_parse_yaml`.
  yaml_refused : CredentialConfigError

pub data Loaded {ℓ} (A : Type ℓ) : Type ℓ where
  rejected : CredentialConfigError → Loaded A
  loaded : A → Loaded A

-- `set(item) == {"id", "host", "header", "value"}`
abbrev is_expected : String → Bool
is_expected key =
    text_eq (codes key) (codes "id")
    || (text_eq (codes key) (codes "host")
        || (text_eq (codes key) (codes "header") || text_eq (codes key) (codes "value")))

unfoldable pub all_keys : (String → Bool) → Dict → Bool
all_keys p empty = true
all_keys p (entry key v d) = p key && all_keys p d

abbrev pub has_expected : Dict → Bool
has_expected d =
    has "id" d && (has "host" d && (has "header" d && (has "value" d && all_keys is_expected d)))

-- A nonempty `str`.
abbrev pub nonempty_text : Value → Option Text
nonempty_text (str []) = none
nonempty_text (str (c ∷ t)) = some (c ∷ t)
nonempty_text v = none

-- `secret in cid`, for a nonempty `secret`
abbrev pub is_within : Text → Text → Bool
is_within secret cid = elim (find_offset secret cid) [ none ↦ false | some n ↦ true ]

unfoldable pub has_id : Text → List Credential → Bool
has_id cid [] = false
has_id cid (c ∷ cs) = text_eq cid c.id || has_id cid cs

unfoldable pub has_origin : Origin → List Credential → Bool
has_origin o [] = false
has_origin o (c ∷ cs) = origin_eq c.origin o || has_origin o cs

abbrev pub refuse_if {ℓ} : {A : Type ℓ} → Bool → CredentialConfigError → Loaded A → Loaded A
refuse_if true e r = rejected e
refuse_if false e r = r

-- The file: not there, or its mode and what `read_text` and `_parse_yaml` make of it.
pub data File : Type 0 where
  missing : File
  present : ℕ → Loaded Value → File

module _ (parse : Text → Option Origin) where
  abbrev pub of_origin : Text → Text → Text → List Credential → Option Origin → Loaded Credential
  of_origin cid header secret acc none = rejected host_invalid
  of_origin cid header secret acc (some o) =
      if has_origin o acc
      then rejected origin_duplicate
      else loaded (record { id = cid; origin = o; header = header; secret = secret })

  abbrev pub of_texts :
      Option Text → Option Text → Option Text → Option Text → List Credential → Loaded Credential
  of_texts none host header secret acc = rejected entry_id_not_string
  of_texts (some cid) none header secret acc = rejected entry_host_not_string
  of_texts (some cid) (some host) none secret acc = rejected entry_header_not_string
  of_texts (some cid) (some host) (some header) none acc = rejected entry_value_not_string
  of_texts (some cid) (some host) (some header) (some secret) acc =
      refuse_if (not (is_field_value cid)) id_bad_repertoire (
        refuse_if (text_eq cid secret || is_within secret cid) id_contains_value (
          refuse_if (has_id cid acc) id_duplicate (
            refuse_if (not (is_header_token header)) header_not_token (
              refuse_if (not (is_field_value secret)) value_bad_repertoire
                (of_origin cid header secret acc (parse host))))))

  abbrev pub of_item : Value → List Credential → Loaded Credential
  of_item (obj d) acc =
      if has_expected d
      then of_texts (nonempty_text (get "id" d)) (nonempty_text (get "host" d))
          (nonempty_text (get "header" d)) (nonempty_text (get "value" d)) acc
      else rejected entry_wrong_keys
  of_item v acc = rejected entry_not_mapping

  abbrev pub and_next :
      Loaded Credential
      → List Credential
      → (List Credential → Loaded (List Credential))
      → Loaded (List Credential)
  and_next (rejected e) acc rest = rejected e
  and_next (loaded c) acc rest = rest (acc ++ (c ∷ []))

  -- The loop over the entries; `acc` holds `result` and `ids`.
  unfoldable pub load_entries : Items → List Credential → Loaded (List Credential)
  load_entries nil acc = loaded acc
  load_entries (cons v vs) acc = and_next (of_item v acc) acc (λ acc'. load_entries vs acc')

  abbrev pub of_list : Option Value → Loaded (List Credential)
  of_list none = loaded []
  of_list (some (arr vs)) = load_entries vs []
  of_list (some v) = rejected not_list

  abbrev pub is_one : Value → Bool
  is_one (int n) = is_int n 1
  is_one v = false

  abbrev pub is_top_key : String → Bool
  is_top_key key =
      text_eq (codes key) (codes "version") || text_eq (codes key) (codes "credentials")

  abbrev pub of_document : Value → Loaded (List Credential)
  of_document (obj d) = refuse_if (not (all_keys is_top_key d)) unknown_top_key (
      if is_one (get "version" d)
      then of_list (lookup "credentials" d)
      else rejected version_invalid)
  of_document v = rejected not_mapping

  abbrev pub of_parsed : Loaded Value → Loaded (List Credential)
  of_parsed (rejected e) = rejected e
  of_parsed (loaded v) = of_document v

  -- `mode & 0o077`
  unfoldable pub load_credentials : File → Loaded (List Credential)
  load_credentials missing = loaded []
  load_credentials (present mode parsed) =
      refuse_if (not (mode % 64 == 0)) bad_perms (of_parsed parsed)
