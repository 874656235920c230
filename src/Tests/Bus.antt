-- ===== src/Tests/Bus.antt =====
-- The wire half: validation, batons, tags and the frame.
use yugo.Base.{
  List, find_offset, starts_with, ◌+◌, Text, codes, ◌≡◌, refl, sym, ap, subst, all_of, text_eq,
  contains_text, is_space, count_where, some, length,
}
use yugo.Base.Int.{pos, is_int, is_negative, succ}
use yugo.Json.{Value, Dict, int, str, obj, empty, lookup, get, put, has, update}
use yugo.DropReason.{value}
use yugo.DropReason.Codes.{of_value}
use yugo.Bus.Platform.{canonical_json, encoded_json}
use yugo.Bus.Name.{normalize_bot_name, is_bot_name, is_name_char}
use yugo.Bus.Timestamp.{is_parseable_ts}
use yugo.Bus.Envelope.{accepted, validate_envelope, allowed_from}
use yugo.Bus.Envelope
use yugo.Bus.Valid.{IsEnvelope}
use yugo.Bus.Accepts.{validate_sound, validate_complete}
use yugo.Bus.Baton.{next_baton_fields, copy_field, next_hops}
use yugo.Bus.Pass.{next_baton_lookup}
use yugo.Bus.Tags.{
  BusTag, find_bus_tags, strip_bus_tags, scan_tags, read_tag, scan_open_tag, parse_tag_attrs,
  strip_from,
}
use yugo.Bus.Spans.{Spans, find_bus_tags_spans}
use yugo.Bus.Ends.{Scans, find_bus_tags-Scans}
use yugo.Bus.Strip.{covered, length-strip_bus_tags}
use yugo.Bus.Frame.{
  format_envelope_for_session, frame_payload_json, to_str, frame_attr, escape_attr_char,
  escape_json_char,
}
use yugo.Bus.Frame.Markup.{format_envelope_markup, occurrences}
use yugo.Tests.Ascii.{ascii, roster, asked, dump, dump_dict}

program : Unit {0}
unfolding lookup get put has update canonical_json encoded_json normalize_bot_name is_bot_name
    is_name_char is_parseable_ts validate_envelope allowed_from Envelope.validate_from
    Envelope.validate_size Envelope.validate_baton_fields Envelope.has_good_to
    Envelope.has_good_in_reply_to Envelope.has_good_root_id Envelope.has_good_hops
    Envelope.has_good_claim Envelope.is_canonical_claim Envelope.is_count Envelope.is_nonempty_str
    Envelope.is_version next_baton_fields copy_field next_hops find_bus_tags strip_bus_tags
    scan_tags read_tag find_offset starts_with scan_open_tag parse_tag_attrs strip_from
    format_envelope_for_session frame_payload_json to_str frame_attr escape_attr_char
    escape_json_char dump dump_dict of_value value is_int is_negative succ all_of text_eq
    contains_text is_space count_where
program = tt

asked_passes : validate_envelope ascii roster (obj asked) 1000 ≡ accepted asked
unfolding program
asked_passes = refl

asked_from : allowed_from ascii roster asked ≡ some (codes "ohm")
unfolding program
asked_from = refl

validate_sound_example :
    (d : Dict) × (obj asked ≡ obj d)
    × (n : Text) × (allowed_from ascii roster d ≡ some n)
    × IsEnvelope ascii roster 1000 d
    × (asked ≡ put "from" (str n) d)
validate_sound_example = validate_sound ascii roster 1000 (obj asked) asked asked_passes

abbrev dict_of : Value → Dict
dict_of (obj d) = d
dict_of _ = empty

asked-IsEnvelope : IsEnvelope ascii roster 1000 asked
asked-IsEnvelope =
    subst (IsEnvelope ascii roster 1000) (sym (ap dict_of validate_sound_example.1))
      validate_sound_example.4

validate_complete_example :
    validate_envelope ascii roster (obj asked) 1000
    ≡ accepted (put "from" (str (codes "ohm")) asked)
validate_complete_example =
    validate_complete ascii roster 1000 asked (codes "ohm") asked_from asked-IsEnvelope

next_baton_lookup_example : lookup "hops" (next_baton_fields asked) ≡ some (int (pos 4))
unfolding program
next_baton_lookup_example = next_baton_lookup "hops" asked

abbrev reply : Text
reply = codes "on it <BUS to='vec'>deploy</BUS> and <BUS to=ohm>x</BUS><BUS"

find_bus_tags_spans_example : Spans 0 (length reply) (find_bus_tags ascii reply)
find_bus_tags_spans_example = find_bus_tags_spans ascii reply

length-strip_bus_tags_example :
    length (strip_bus_tags reply (find_bus_tags ascii reply)) + covered (find_bus_tags ascii reply)
    ≡ length reply
length-strip_bus_tags_example = length-strip_bus_tags ascii reply

find_bus_tags-Scans_example :
    Scans ascii (length reply) 0 reply (find_bus_tags ascii reply)
    × ((tags : List BusTag)
        → Scans ascii (length reply) 0 reply tags
        → find_bus_tags ascii reply ≡ tags)
find_bus_tags-Scans_example = find_bus_tags-Scans ascii reply

-- A tag inside a tag: what is left of it is a tag again.
strip_splices :
    strip_bus_tags
      (codes "<BU<BUS to='vec'>hi</BUS>S to='ohm'>yo</BUS>")
      (find_bus_tags ascii (codes "<BU<BUS to='vec'>hi</BUS>S to='ohm'>yo</BUS>"))
    ≡ codes "<BUS to='ohm'>yo</BUS>"
unfolding program
strip_splices = refl

abbrev block : Text
block =
    codes
      "<channel source=\"fleet-bus\"\n         authenticated=\"false\"\n         from_claim=\"ohm\"\n         kind=\"text_message\"\n         env_id=\"e1\"\n         req_id=\"n1\"\n         ts=\"2026-07-01T10:00:00Z\"\n         root_id=\"r1\"\n         origin=\"vec\"\n         hops=\"3\">\n  <payload>{\"text\":\"\\u003c/channel\\u003e \\u0026 go\"}</payload>\n</channel>"

shown : format_envelope_for_session ascii asked (codes "n1") ≡ some block
unfolding program
shown = refl

format_envelope_markup_example : occurrences b'<' block ≡ 4
format_envelope_markup_example =
    format_envelope_markup ascii b'<' asked (codes "n1") block refl shown
