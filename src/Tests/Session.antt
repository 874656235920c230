-- ===== src/Tests/Session.antt =====
-- One request from `ohm` to `yugo`, answered with a tag and a text, and once by a hook that raises.
use yugo.Base.{
  find_offset, starts_with, ◌≡◌, refl, Text, codes, text_eq, strip, all_of, contains_text, is_space,
  count_where, map_where, keep_where, true, false, some, List, [], ◌∷◌, arith,
}
use yugo.Base.Int.{is_int, is_negative, at_least, succ}
use yugo.Json.{Dict, null, str, obj, lookup, get, put, has, update}
use yugo.DropReason.{disposition}
use yugo.Dedup.Table.{find, delete_where, insert_or_ignore}
use yugo.Dedup.Clock.{ok, lease_clock, read_boot_id, valid_boot_id, valid_metadata}
use yugo.Dedup.Store.{claim, granted, complete, release}
use yugo.Dedup.Lease.{Runs}
use yugo.Dedup.Find.{IsUnique}
use yugo.Bus.Platform.{canonical_json, encoded_json}
use yugo.Bus.Name.{normalize_bot_name, is_bot_name, is_name_char}
use yugo.Bus.Timestamp.{is_parseable_ts}
use yugo.Bus.Envelope
use yugo.Bus.Envelope.{validate_envelope}
use yugo.Bus.Baton.{
  Stamp, outbound_kind, next_baton_fields, copy_field, next_hops, create_request_envelope,
  only_baton_fields,
}
use yugo.Bus.Tags
use yugo.Bus.Tags.{find_bus_tags, strip_bus_tags}
use yugo.Session.{
  Config, Net, State, Event, sent, record_drop, bump, notice_to, drop_notice, transmit,
  publish_request, roster_recipient, record_suppression,
}
use yugo.Session.Turn
use yugo.Session.Turn.{text_of, text_payload, names_self, publish_turn_output}
use yugo.Session.Request.{
  Delivery, Outcome, replied, raised, hops_at_least, on_message, on_claimed, run_turn, warned,
  settle, complete_claim, release_claim,
}
use yugo.Session.Sent.{AllSent}
use yugo.Session.Wire.{on_message-AllSent}
use yugo.Session.Settle.{redelivery}
use yugo.Session.Answered.{settled_answered}
use yugo.Tests.Ascii.{ascii, roster, asked, dump, dump_dict}
use yugo.Tests.Store.{vec, ohm, leased, vec_row, ohm_clock, env_1}

abbrev cfg : Config
cfg = record { bot_name = codes "yugo"; roster = roster; max_bytes = 1000 }

abbrev net : Net
net = record {
  has_nc = λ t. true;
  is_open = λ t. true;
  sends = λ t. true;
  stamp = λ t. record { id = t ∷ []; ts = codes "2026-07-01T10:00:01Z" };
  notice_done = λ t. false;
}

abbrev reply : Text
reply = codes "on it <BUS to='vec'>deploy</BUS>"

-- The id of the request is that of the row that `leased` holds.
abbrev request : Dict
request = put "id" (str env_1) asked

abbrev delivery : Outcome → Delivery
delivery o = record {
  env = vec;
  req_id = codes "n1";
  settle_ok = true;
  meanwhile = λ s. s;
  hook = some (λ e n. o);
}

abbrev start : State
start = record {
  tick = 65;
  events = [];
  counts = record { n_terminal = 0; n_transient = 0; n_throttled = 0; n_duplicate = 0 };
  notifying = false;
  store = leased;
}

nothing_sent : AllSent ascii cfg []
unfolding AllSent
nothing_sent = tt

on_message-AllSent_example :
    AllSent ascii cfg
      (on_message ascii cfg net
        (delivery (replied (some reply)))
        null
        true
        (some (obj asked))
        start).events
on_message-AllSent_example =
    on_message-AllSent ascii cfg net (delivery (replied (some reply))) null true (some (obj asked))
      start nothing_sent

program : Unit {0}
unfolding lookup get put has update canonical_json encoded_json normalize_bot_name is_bot_name
    is_name_char is_parseable_ts validate_envelope Envelope.allowed_from Envelope.validate_from
    Envelope.validate_size Envelope.validate_baton_fields Envelope.has_good_to
    Envelope.has_good_in_reply_to Envelope.has_good_root_id Envelope.has_good_hops
    Envelope.has_good_claim Envelope.is_canonical_claim Envelope.is_count Envelope.is_nonempty_str
    Envelope.is_version next_baton_fields copy_field next_hops find_bus_tags strip_bus_tags
    Tags.scan_tags Tags.read_tag find_offset starts_with Tags.scan_open_tag Tags.parse_tag_attrs
    Tags.strip_from Tags.get_attr dump dump_dict is_int is_negative at_least succ all_of text_eq
    contains_text is_space strip count_where map_where keep_where find delete_where insert_or_ignore
    lease_clock read_boot_id valid_boot_id valid_metadata claim complete release
    create_request_envelope only_baton_fields transmit publish_request roster_recipient names_self
    publish_turn_output Turn.publish_tags Turn.publish_tag Turn.publish_parsed Turn.publish_answer
    Turn.warn_origin run_turn warned hops_at_least on_claimed settle complete_claim release_claim
    record_drop bump notice_to drop_notice record_suppression disposition
program = tt

leased-IsUnique : IsUnique leased.rows
unfolding program
leased-IsUnique = (refl, tt)

ohm_reads : Runs ohm 60000000 ohm_clock
unfolding program
ohm_reads = record { begun = refl; commits = refl; reads = refl }

-- The hook raised: the redelivery is granted.
redelivery_example :
    (claim ohm env_1
      (codes "n2")
      (on_claimed ascii cfg net
        (delivery raised)
        null
        request
        (codes "r1")
        (codes "a1")
        start).store).0
    ≡ ok (granted (codes "n2") (codes "b2"))
unfolding program
redelivery_example =
    redelivery ascii cfg net (delivery raised) null request (codes "r1") (codes "a1") (codes "n2")
      start vec_row ohm ohm_clock leased-IsUnique refl refl refl ohm_reads (omega arith)

asked_fresh : Envelope.is_null (get "in_reply_to" asked) ≡ true
unfolding program
asked_fresh = refl

text_left : Turn.is_empty (strip (strip_bus_tags reply (find_bus_tags ascii reply))) ≡ false
unfolding program
text_left = refl

all_delivered : (publish_turn_output ascii cfg net null asked (some reply) start).0 ≡ true
unfolding program
all_delivered = refl

settled_answered_example :
    (n : Text) × (e' : Dict) × (stamp : Stamp) × (before : List Event) × (roster_recipient ascii cfg
        net
        (get "from" asked)
      ≡ some n)
    × (create_request_envelope ascii stamp
          (codes "yugo")
          n
          (text_payload (strip (strip_bus_tags reply (find_bus_tags ascii reply))))
          outbound_kind
          (some (text_of (get "id" asked)))
          (next_baton_fields asked)
        ≡ some e')
    × ((publish_turn_output ascii cfg net null asked (some reply) start).1.events
        ≡ sent n e' ∷ before)
settled_answered_example =
    settled_answered ascii cfg net null asked reply start asked_fresh text_left all_delivered
