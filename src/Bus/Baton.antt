-- ===== src/Bus/Baton.antt =====
-- The baton fields and the envelopes that yugo/fleet_bus.py builds: `next_baton_fields`,
-- `create_request_envelope` and `create_heartbeat_envelope`.
use text.Mathlib.Text.{◌==◌ as str_eq}
use Prim.Native.String.{String}
use yugo.Base.{ℕ, Text, codes, Bool, true, false, ◌&&◌, ◌||◌, Option, none, some, if◌then◌else◌}
use yugo.Base.Int.{pos, succ}
use yugo.Json.{Value, Dict, empty, entry, null, bool, int, str, obj, get, has, lookup, put, update}
use yugo.Bus.Platform.{Platform}
use yugo.Bus.Name.{normalize_bot_name}
use yugo.Bus.Envelope.{envelope_version}

abbrev pub hops_warn_at : ℕ
hops_warn_at = 8

abbrev pub hops_reject_at : ℕ
hops_reject_at = 16

abbrev pub outbound_kind : Text
outbound_kind = codes "text_message"

-- BATON_PASSTHROUGH_FIELDS and BATON_FIELDS
abbrev pub is_passthrough_field : String → Bool
is_passthrough_field k = str_eq "root_id" k || (str_eq "origin" k || str_eq "owner" k)

abbrev pub is_baton_field : String → Bool
is_baton_field k = is_passthrough_field k || str_eq "hops" k

-- `{k: d[k]} if k in d`, in front of the fields that follow.
unfoldable pub copy_field : String → Dict → Dict → Dict
copy_field k d rest = elim (lookup k d) [ none ↦ rest | some v ↦ entry k v rest ]

-- `hops + 1`, where `True` is 1. Python adds one to a `float` too, and raises on anything else; the
-- caller's envelope is validated, so that `hops` is an `int`.
abbrev pub add_one : Value → Value
add_one (int n) = int (succ n)
add_one (bool true) = int (pos 2)
add_one (bool false) = int (pos 1)
add_one v = v

-- `fields["hops"]`
unfoldable pub next_hops : Dict → Dict
next_hops d =
    if has "hops" d
    then entry "hops" (add_one (get "hops" d)) empty
    else if has "root_id" d || (has "origin" d || has "owner" d)
    then entry "hops" (int (pos 1)) empty
    else empty

unfoldable pub next_baton_fields : Dict → Dict
next_baton_fields d =
    copy_field "root_id" d (copy_field "origin" d (copy_field "owner" d (next_hops d)))

-- `set(baton) <= set(BATON_FIELDS)`
unfoldable pub only_baton_fields : Dict → Bool
only_baton_fields empty = true
only_baton_fields (entry k v d) = is_baton_field k && only_baton_fields d

-- `if in_reply_to is not None: envelope["in_reply_to"] = in_reply_to`
abbrev pub with_reply : Option Text → Dict → Dict
with_reply none d = d
with_reply (some i) d = put "in_reply_to" (str i) d

-- What an outbound envelope takes from outside: its fresh UUID and its timestamp.
pub record Stamp : Type 0 where
  pub id : Text
  pub ts : Text

module _ (p : Platform) where
  abbrev pub request_fields : Stamp → Text → Text → Text → Value → Dict
  request_fields stamp from to kind payload =
      entry "envelope_version" (int (pos envelope_version)) (
        entry "id" (str stamp.id) (
          entry "from" (str from) (
            entry "to" (str to) (
              entry "kind" (str kind)
                (entry "ts" (str stamp.ts) (entry "payload" payload empty))))))

  -- `none` is the ValueError.
  unfoldable pub create_request_envelope :
      Stamp → Text → Text → Value → Text → Option Text → Dict → Option Dict
  unfolding only_baton_fields
  create_request_envelope stamp bot_name to payload kind in_reply_to baton =
      elim (normalize_bot_name p (str bot_name)) [
        | none ↦ none
        | some from ↦ elim (normalize_bot_name p (str to)) [
          | none ↦ none
          | some recipient ↦
              if only_baton_fields baton
              then some (
                  update (with_reply in_reply_to (request_fields stamp from recipient kind payload))
                    baton)
              else none
        ]
      ]

  abbrev str_or_null : Option Text → Value
  str_or_null none = null
  str_or_null (some t) = str t

  unfoldable pub create_heartbeat_envelope :
      Stamp → Text → Text → ℕ → Option Text → Option Text → Option Dict
  create_heartbeat_envelope stamp bot_name plugin_version pid last_response delivered =
      elim (normalize_bot_name p (str bot_name)) [
        | none ↦ none
        | some from ↦ some (
            entry "envelope_version" (int (pos envelope_version)) (
              entry "id" (str stamp.id) (
                entry "from" (str from) (
                  entry "to" null (
                    entry "kind" (str (codes "status_heartbeat")) (
                      entry "ts" (str stamp.ts) (
                        entry "payload"
                          (obj (
                            entry "online" (bool true) (
                              entry "process_alive_ts" (str stamp.ts) (
                                entry "session_last_response_ts" (str_or_null last_response) (
                                  entry "injection_delivered_ts" (str_or_null delivered) (
                                    entry "pid" (int (pos pid))
                                      (entry "plugin_version" (str plugin_version) empty)))))))
                          empty)))))))
      ]
