-- ===== src/DropReason.antt =====
-- yugo/drop_disposition.py: the vocabulary of drop reasons, in the source's order and with its
-- values, and the disposition of each.
use yugo.Base.{Text, codes, text_eq, ◌≡◌, refl, Option, none, some, List, [], ◌∷◌, if◌then◌else◌}
pub mod Codes

pub data Disposition : Type 0 where
  terminal transient throttled duplicate : Disposition

pub data DropReason : Type 0 where
  claude_discord_adapter_subscribe_refused yugo_subscribe_refused malformed_json
        claude_discord_adapter_malformed_json recipient_mismatch invalid_to
        claude_discord_adapter_misrouted_reply claude_discord_adapter_reply_from_mismatch
        claude_discord_adapter_reply_token_mismatch envelope_not_object envelope_too_large
        invalid_id invalid_in_reply_to invalid_kind invalid_ts missing_payload
        payload_not_serializable claude_discord_adapter_payload_not_json_serializable
        unsupported_envelope_version claude_discord_adapter_invalid_hops
        claude_discord_adapter_invalid_hops_ceiling claude_discord_adapter_invalid_recipient
        claude_discord_adapter_invalid_root_id from_claim_rejected
        claude_discord_adapter_payload_body_truncated
        claude_discord_adapter_multi_instance_publish_only claude_discord_adapter_req_id_unknown
        claude_discord_adapter_invalid_origin claude_discord_adapter_invalid_owner
        claude_discord_adapter_baton_bot_name_invalid
        claude_discord_adapter_baton_handoff_recipient_invalid
        claude_discord_adapter_baton_hops_exhausted yugo_invalid_root_id yugo_invalid_origin
        yugo_invalid_owner yugo_invalid_hops yugo_bus_tag_rejected
        claude_discord_adapter_injection_failed injection_failed
        claude_discord_adapter_publish_failed claude_discord_adapter_request_timeout
        claude_discord_adapter_fleet_bus_not_connected claude_discord_adapter_ledger_overflow
        claude_discord_adapter_reply_undelivered claude_discord_adapter_baton_derivation_failed
        claude_discord_adapter_claim_deadline_released yugo_publish_failed
        claude_discord_adapter_dedup_store_failed claude_discord_adapter_dedup_complete_failed
        claude_discord_adapter_dedup_release_failed claude_discord_adapter_dedup_renew_failed
        claude_discord_adapter_dedup_owner_lost claude_discord_adapter_dedup_lease_lost
        yugo_dedup_store_failed yugo_dedup_complete_failed yugo_dedup_release_failed
        yugo_dedup_renew_failed yugo_dedup_owner_lost yugo_dedup_lease_lost
        claude_discord_adapter_rate_limited_per_from claude_discord_adapter_rate_limited_per_subject
        claude_discord_adapter_rate_limited_per_session_inject
        claude_discord_adapter_duplicate_envelope claude_discord_adapter_duplicate_request_envelope
        claude_discord_adapter_duplicate_result_envelope yugo_duplicate_envelope :
      DropReason

-- `.value`: the code on the wire and in the audit log.
unfoldable pub value : DropReason → Text
value claude_discord_adapter_subscribe_refused = codes "claude_discord_adapter_subscribe_refused"
value yugo_subscribe_refused = codes "yugo_subscribe_refused"
value malformed_json = codes "malformed_json"
value claude_discord_adapter_malformed_json = codes "claude_discord_adapter_malformed_json"
value recipient_mismatch = codes "recipient_mismatch"
value invalid_to = codes "invalid_to"
value claude_discord_adapter_misrouted_reply = codes "claude_discord_adapter_misrouted_reply"
value claude_discord_adapter_reply_from_mismatch =
    codes "claude_discord_adapter_reply_from_mismatch"
value claude_discord_adapter_reply_token_mismatch =
    codes "claude_discord_adapter_reply_token_mismatch"
value envelope_not_object = codes "envelope_not_object"
value envelope_too_large = codes "envelope_too_large"
value invalid_id = codes "invalid_id"
value invalid_in_reply_to = codes "invalid_in_reply_to"
value invalid_kind = codes "invalid_kind"
value invalid_ts = codes "invalid_ts"
value missing_payload = codes "missing_payload"
value payload_not_serializable = codes "payload_not_serializable"
value claude_discord_adapter_payload_not_json_serializable =
    codes "claude_discord_adapter_payload_not_json_serializable"
value unsupported_envelope_version = codes "unsupported_envelope_version"
value claude_discord_adapter_invalid_hops = codes "claude_discord_adapter_invalid_hops"
value claude_discord_adapter_invalid_hops_ceiling =
    codes "claude_discord_adapter_invalid_hops_ceiling"
value claude_discord_adapter_invalid_recipient = codes "claude_discord_adapter_invalid_recipient"
value claude_discord_adapter_invalid_root_id = codes "claude_discord_adapter_invalid_root_id"
value from_claim_rejected = codes "from_claim_rejected"
value claude_discord_adapter_payload_body_truncated =
    codes "claude_discord_adapter_payload_body_truncated"
value claude_discord_adapter_multi_instance_publish_only =
    codes "claude_discord_adapter_multi_instance_publish_only"
value claude_discord_adapter_req_id_unknown = codes "claude_discord_adapter_req_id_unknown"
value claude_discord_adapter_invalid_origin = codes "claude_discord_adapter_invalid_origin"
value claude_discord_adapter_invalid_owner = codes "claude_discord_adapter_invalid_owner"
value claude_discord_adapter_baton_bot_name_invalid =
    codes "claude_discord_adapter_baton_bot_name_invalid"
value claude_discord_adapter_baton_handoff_recipient_invalid =
    codes "claude_discord_adapter_baton_handoff_recipient_invalid"
value claude_discord_adapter_baton_hops_exhausted =
    codes "claude_discord_adapter_baton_hops_exhausted"
value yugo_invalid_root_id = codes "yugo_invalid_root_id"
value yugo_invalid_origin = codes "yugo_invalid_origin"
value yugo_invalid_owner = codes "yugo_invalid_owner"
value yugo_invalid_hops = codes "yugo_invalid_hops"
value yugo_bus_tag_rejected = codes "yugo_bus_tag_rejected"
value claude_discord_adapter_injection_failed = codes "claude_discord_adapter_injection_failed"
value injection_failed = codes "injection_failed"
value claude_discord_adapter_publish_failed = codes "claude_discord_adapter_publish_failed"
value claude_discord_adapter_request_timeout = codes "claude_discord_adapter_request_timeout"
value claude_discord_adapter_fleet_bus_not_connected =
    codes "claude_discord_adapter_fleet_bus_not_connected"
value claude_discord_adapter_ledger_overflow = codes "claude_discord_adapter_ledger_overflow"
value claude_discord_adapter_reply_undelivered = codes "claude_discord_adapter_reply_undelivered"
value claude_discord_adapter_baton_derivation_failed =
    codes "claude_discord_adapter_baton_derivation_failed"
value claude_discord_adapter_claim_deadline_released =
    codes "claude_discord_adapter_claim_deadline_released"
value yugo_publish_failed = codes "yugo_publish_failed"
value claude_discord_adapter_dedup_store_failed = codes "claude_discord_adapter_dedup_store_failed"
value claude_discord_adapter_dedup_complete_failed =
    codes "claude_discord_adapter_dedup_complete_failed"
value claude_discord_adapter_dedup_release_failed =
    codes "claude_discord_adapter_dedup_release_failed"
value claude_discord_adapter_dedup_renew_failed = codes "claude_discord_adapter_dedup_renew_failed"
value claude_discord_adapter_dedup_owner_lost = codes "claude_discord_adapter_dedup_owner_lost"
value claude_discord_adapter_dedup_lease_lost = codes "claude_discord_adapter_dedup_lease_lost"
value yugo_dedup_store_failed = codes "yugo_dedup_store_failed"
value yugo_dedup_complete_failed = codes "yugo_dedup_complete_failed"
value yugo_dedup_release_failed = codes "yugo_dedup_release_failed"
value yugo_dedup_renew_failed = codes "yugo_dedup_renew_failed"
value yugo_dedup_owner_lost = codes "yugo_dedup_owner_lost"
value yugo_dedup_lease_lost = codes "yugo_dedup_lease_lost"
value claude_discord_adapter_rate_limited_per_from =
    codes "claude_discord_adapter_rate_limited_per_from"
value claude_discord_adapter_rate_limited_per_subject =
    codes "claude_discord_adapter_rate_limited_per_subject"
value claude_discord_adapter_rate_limited_per_session_inject =
    codes "claude_discord_adapter_rate_limited_per_session_inject"
value claude_discord_adapter_duplicate_envelope = codes "claude_discord_adapter_duplicate_envelope"
value claude_discord_adapter_duplicate_request_envelope =
    codes "claude_discord_adapter_duplicate_request_envelope"
value claude_discord_adapter_duplicate_result_envelope =
    codes "claude_discord_adapter_duplicate_result_envelope"
value yugo_duplicate_envelope = codes "yugo_duplicate_envelope"

-- DROP_DISPOSITION
unfoldable pub disposition : DropReason → Disposition
disposition claude_discord_adapter_subscribe_refused = terminal
disposition yugo_subscribe_refused = terminal
disposition malformed_json = terminal
disposition claude_discord_adapter_malformed_json = terminal
disposition recipient_mismatch = terminal
disposition invalid_to = terminal
disposition claude_discord_adapter_misrouted_reply = terminal
disposition claude_discord_adapter_reply_from_mismatch = terminal
disposition claude_discord_adapter_reply_token_mismatch = terminal
disposition envelope_not_object = terminal
disposition envelope_too_large = terminal
disposition invalid_id = terminal
disposition invalid_in_reply_to = terminal
disposition invalid_kind = terminal
disposition invalid_ts = terminal
disposition missing_payload = terminal
disposition payload_not_serializable = terminal
disposition claude_discord_adapter_payload_not_json_serializable = terminal
disposition unsupported_envelope_version = terminal
disposition claude_discord_adapter_invalid_hops = terminal
disposition claude_discord_adapter_invalid_hops_ceiling = terminal
disposition claude_discord_adapter_invalid_recipient = terminal
disposition claude_discord_adapter_invalid_root_id = terminal
disposition from_claim_rejected = terminal
disposition claude_discord_adapter_payload_body_truncated = terminal
disposition claude_discord_adapter_multi_instance_publish_only = terminal
disposition claude_discord_adapter_req_id_unknown = terminal
disposition claude_discord_adapter_invalid_origin = terminal
disposition claude_discord_adapter_invalid_owner = terminal
disposition claude_discord_adapter_baton_bot_name_invalid = terminal
disposition claude_discord_adapter_baton_handoff_recipient_invalid = terminal
disposition claude_discord_adapter_baton_hops_exhausted = terminal
disposition yugo_invalid_root_id = terminal
disposition yugo_invalid_origin = terminal
disposition yugo_invalid_owner = terminal
disposition yugo_invalid_hops = terminal
disposition yugo_bus_tag_rejected = terminal
disposition claude_discord_adapter_injection_failed = transient
disposition injection_failed = transient
disposition claude_discord_adapter_publish_failed = transient
disposition claude_discord_adapter_request_timeout = transient
disposition claude_discord_adapter_fleet_bus_not_connected = transient
disposition claude_discord_adapter_ledger_overflow = transient
disposition claude_discord_adapter_reply_undelivered = transient
disposition claude_discord_adapter_baton_derivation_failed = transient
disposition claude_discord_adapter_claim_deadline_released = transient
disposition yugo_publish_failed = transient
disposition claude_discord_adapter_dedup_store_failed = transient
disposition claude_discord_adapter_dedup_complete_failed = transient
disposition claude_discord_adapter_dedup_release_failed = transient
disposition claude_discord_adapter_dedup_renew_failed = transient
disposition claude_discord_adapter_dedup_owner_lost = transient
disposition claude_discord_adapter_dedup_lease_lost = transient
disposition yugo_dedup_store_failed = transient
disposition yugo_dedup_complete_failed = transient
disposition yugo_dedup_release_failed = transient
disposition yugo_dedup_renew_failed = transient
disposition yugo_dedup_owner_lost = transient
disposition yugo_dedup_lease_lost = transient
disposition claude_discord_adapter_rate_limited_per_from = throttled
disposition claude_discord_adapter_rate_limited_per_subject = throttled
disposition claude_discord_adapter_rate_limited_per_session_inject = throttled
disposition claude_discord_adapter_duplicate_envelope = duplicate
disposition claude_discord_adapter_duplicate_request_envelope = duplicate
disposition claude_discord_adapter_duplicate_result_envelope = duplicate
disposition yugo_duplicate_envelope = duplicate
