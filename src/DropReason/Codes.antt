-- ===== src/DropReason/Codes.antt =====
-- `DropReason(value)` of yugo/drop_disposition.py: a reason by its wire value.
use yugo.Base.{Text, text_eq, ◌≡◌, refl, Option, none, some, List, [], ◌∷◌, if◌then◌else◌}
use yugo.DropReason.{
  DropReason, value, claude_discord_adapter_subscribe_refused, yugo_subscribe_refused,
  malformed_json, claude_discord_adapter_malformed_json, recipient_mismatch, invalid_to,
  claude_discord_adapter_misrouted_reply, claude_discord_adapter_reply_from_mismatch,
  claude_discord_adapter_reply_token_mismatch, envelope_not_object, envelope_too_large, invalid_id,
  invalid_in_reply_to, invalid_kind, invalid_ts, missing_payload, payload_not_serializable,
  claude_discord_adapter_payload_not_json_serializable, unsupported_envelope_version,
  claude_discord_adapter_invalid_hops, claude_discord_adapter_invalid_hops_ceiling,
  claude_discord_adapter_invalid_recipient, claude_discord_adapter_invalid_root_id,
  from_claim_rejected, claude_discord_adapter_payload_body_truncated,
  claude_discord_adapter_multi_instance_publish_only, claude_discord_adapter_req_id_unknown,
  claude_discord_adapter_invalid_origin, claude_discord_adapter_invalid_owner,
  claude_discord_adapter_baton_bot_name_invalid,
  claude_discord_adapter_baton_handoff_recipient_invalid,
  claude_discord_adapter_baton_hops_exhausted, yugo_invalid_root_id, yugo_invalid_origin,
  yugo_invalid_owner, yugo_invalid_hops, yugo_bus_tag_rejected,
  claude_discord_adapter_injection_failed, injection_failed, claude_discord_adapter_publish_failed,
  claude_discord_adapter_request_timeout, claude_discord_adapter_fleet_bus_not_connected,
  claude_discord_adapter_ledger_overflow, claude_discord_adapter_reply_undelivered,
  claude_discord_adapter_baton_derivation_failed, claude_discord_adapter_claim_deadline_released,
  yugo_publish_failed, claude_discord_adapter_dedup_store_failed,
  claude_discord_adapter_dedup_complete_failed, claude_discord_adapter_dedup_release_failed,
  claude_discord_adapter_dedup_renew_failed, claude_discord_adapter_dedup_owner_lost,
  claude_discord_adapter_dedup_lease_lost, yugo_dedup_store_failed, yugo_dedup_complete_failed,
  yugo_dedup_release_failed, yugo_dedup_renew_failed, yugo_dedup_owner_lost, yugo_dedup_lease_lost,
  claude_discord_adapter_rate_limited_per_from, claude_discord_adapter_rate_limited_per_subject,
  claude_discord_adapter_rate_limited_per_session_inject, claude_discord_adapter_duplicate_envelope,
  claude_discord_adapter_duplicate_request_envelope,
  claude_discord_adapter_duplicate_result_envelope, yugo_duplicate_envelope,
}

-- The members of the enumeration, in order.
abbrev members : List DropReason
members =
    claude_discord_adapter_subscribe_refused ∷ yugo_subscribe_refused ∷ malformed_json
    ∷ claude_discord_adapter_malformed_json ∷ recipient_mismatch ∷ invalid_to
    ∷ claude_discord_adapter_misrouted_reply ∷ claude_discord_adapter_reply_from_mismatch
    ∷ claude_discord_adapter_reply_token_mismatch ∷ envelope_not_object ∷ envelope_too_large
    ∷ invalid_id ∷ invalid_in_reply_to ∷ invalid_kind ∷ invalid_ts ∷ missing_payload
    ∷ payload_not_serializable ∷ claude_discord_adapter_payload_not_json_serializable
    ∷ unsupported_envelope_version ∷ claude_discord_adapter_invalid_hops
    ∷ claude_discord_adapter_invalid_hops_ceiling ∷ claude_discord_adapter_invalid_recipient
    ∷ claude_discord_adapter_invalid_root_id ∷ from_claim_rejected
    ∷ claude_discord_adapter_payload_body_truncated
    ∷ claude_discord_adapter_multi_instance_publish_only ∷ claude_discord_adapter_req_id_unknown
    ∷ claude_discord_adapter_invalid_origin ∷ claude_discord_adapter_invalid_owner
    ∷ claude_discord_adapter_baton_bot_name_invalid
    ∷ claude_discord_adapter_baton_handoff_recipient_invalid
    ∷ claude_discord_adapter_baton_hops_exhausted ∷ yugo_invalid_root_id ∷ yugo_invalid_origin
    ∷ yugo_invalid_owner ∷ yugo_invalid_hops ∷ yugo_bus_tag_rejected
    ∷ claude_discord_adapter_injection_failed ∷ injection_failed
    ∷ claude_discord_adapter_publish_failed ∷ claude_discord_adapter_request_timeout
    ∷ claude_discord_adapter_fleet_bus_not_connected ∷ claude_discord_adapter_ledger_overflow
    ∷ claude_discord_adapter_reply_undelivered ∷ claude_discord_adapter_baton_derivation_failed
    ∷ claude_discord_adapter_claim_deadline_released ∷ yugo_publish_failed
    ∷ claude_discord_adapter_dedup_store_failed ∷ claude_discord_adapter_dedup_complete_failed
    ∷ claude_discord_adapter_dedup_release_failed ∷ claude_discord_adapter_dedup_renew_failed
    ∷ claude_discord_adapter_dedup_owner_lost ∷ claude_discord_adapter_dedup_lease_lost
    ∷ yugo_dedup_store_failed ∷ yugo_dedup_complete_failed ∷ yugo_dedup_release_failed
    ∷ yugo_dedup_renew_failed ∷ yugo_dedup_owner_lost ∷ yugo_dedup_lease_lost
    ∷ claude_discord_adapter_rate_limited_per_from ∷ claude_discord_adapter_rate_limited_per_subject
    ∷ claude_discord_adapter_rate_limited_per_session_inject
    ∷ claude_discord_adapter_duplicate_envelope ∷ claude_discord_adapter_duplicate_request_envelope
    ∷ claude_discord_adapter_duplicate_result_envelope ∷ yugo_duplicate_envelope ∷ []

with_value : Text → List DropReason → Option DropReason
unfolding value
with_value v [] = none
with_value v (r ∷ rs) = let rest = with_value v rs in if text_eq (value r) v then some r else rest

-- `DropReason(v)`: the member whose value is `v`; `none` is its ValueError.
unfoldable pub of_value : Text → Option DropReason
unfolding with_value
of_value v = with_value v members

-- Looking a reason up by its wire code gives the reason back: every reason is a member of the
-- enumeration, and no two reasons share a code.
of_value-value : (r : DropReason) → of_value (value r) ≡ some r
unfolding of_value text_eq
of_value-value claude_discord_adapter_subscribe_refused = refl
of_value-value yugo_subscribe_refused = refl
of_value-value malformed_json = refl
of_value-value claude_discord_adapter_malformed_json = refl
of_value-value recipient_mismatch = refl
of_value-value invalid_to = refl
of_value-value claude_discord_adapter_misrouted_reply = refl
of_value-value claude_discord_adapter_reply_from_mismatch = refl
of_value-value claude_discord_adapter_reply_token_mismatch = refl
of_value-value envelope_not_object = refl
of_value-value envelope_too_large = refl
of_value-value invalid_id = refl
of_value-value invalid_in_reply_to = refl
of_value-value invalid_kind = refl
of_value-value invalid_ts = refl
of_value-value missing_payload = refl
of_value-value payload_not_serializable = refl
of_value-value claude_discord_adapter_payload_not_json_serializable = refl
of_value-value unsupported_envelope_version = refl
of_value-value claude_discord_adapter_invalid_hops = refl
of_value-value claude_discord_adapter_invalid_hops_ceiling = refl
of_value-value claude_discord_adapter_invalid_recipient = refl
of_value-value claude_discord_adapter_invalid_root_id = refl
of_value-value from_claim_rejected = refl
of_value-value claude_discord_adapter_payload_body_truncated = refl
of_value-value claude_discord_adapter_multi_instance_publish_only = refl
of_value-value claude_discord_adapter_req_id_unknown = refl
of_value-value claude_discord_adapter_invalid_origin = refl
of_value-value claude_discord_adapter_invalid_owner = refl
of_value-value claude_discord_adapter_baton_bot_name_invalid = refl
of_value-value claude_discord_adapter_baton_handoff_recipient_invalid = refl
of_value-value claude_discord_adapter_baton_hops_exhausted = refl
of_value-value yugo_invalid_root_id = refl
of_value-value yugo_invalid_origin = refl
of_value-value yugo_invalid_owner = refl
of_value-value yugo_invalid_hops = refl
of_value-value yugo_bus_tag_rejected = refl
of_value-value claude_discord_adapter_injection_failed = refl
of_value-value injection_failed = refl
of_value-value claude_discord_adapter_publish_failed = refl
of_value-value claude_discord_adapter_request_timeout = refl
of_value-value claude_discord_adapter_fleet_bus_not_connected = refl
of_value-value claude_discord_adapter_ledger_overflow = refl
of_value-value claude_discord_adapter_reply_undelivered = refl
of_value-value claude_discord_adapter_baton_derivation_failed = refl
of_value-value claude_discord_adapter_claim_deadline_released = refl
of_value-value yugo_publish_failed = refl
of_value-value claude_discord_adapter_dedup_store_failed = refl
of_value-value claude_discord_adapter_dedup_complete_failed = refl
of_value-value claude_discord_adapter_dedup_release_failed = refl
of_value-value claude_discord_adapter_dedup_renew_failed = refl
of_value-value claude_discord_adapter_dedup_owner_lost = refl
of_value-value claude_discord_adapter_dedup_lease_lost = refl
of_value-value yugo_dedup_store_failed = refl
of_value-value yugo_dedup_complete_failed = refl
of_value-value yugo_dedup_release_failed = refl
of_value-value yugo_dedup_renew_failed = refl
of_value-value yugo_dedup_owner_lost = refl
of_value-value yugo_dedup_lease_lost = refl
of_value-value claude_discord_adapter_rate_limited_per_from = refl
of_value-value claude_discord_adapter_rate_limited_per_subject = refl
of_value-value claude_discord_adapter_rate_limited_per_session_inject = refl
of_value-value claude_discord_adapter_duplicate_envelope = refl
of_value-value claude_discord_adapter_duplicate_request_envelope = refl
of_value-value claude_discord_adapter_duplicate_result_envelope = refl
of_value-value yugo_duplicate_envelope = refl
