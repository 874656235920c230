-- ===== src/Session/Turn.antt =====
-- What a completed turn publishes: `_publish_turn_output` and `_warn_origin` of yugo/fleet_bus.py.
use yugo.Base.{
  Text, codes, text_eq, strip, Bool, true, false, not, ◌&&◌, Option, none, some, List, [], ◌∷◌,
  ◌++◌, if◌then◌else◌,
}
use yugo.Json.{Value, Dict, null, str, obj, empty, entry, get}
use yugo.DropReason.{yugo_bus_tag_rejected}
use yugo.Bus.Platform.{Platform}
use yugo.Bus.Name.{normalize_bot_name}
use yugo.Bus.Envelope.{is_null}
use yugo.Bus.Baton.{outbound_kind, next_baton_fields}
use yugo.Bus.Tags.{BusTag, Attrs, get_attr, find_bus_tags, strip_bus_tags}
use yugo.Bus.Frame.{to_str}
use yugo.Session.{
  Config, Net, State, autoreply, warning, record_suppression, record_drop, publish_request,
}

abbrev pub text_of : Value → Text
text_of (str t) = t
text_of _ = []

abbrev pub or_none : Option Text → Value
or_none none = null
or_none (some t) = str t

abbrev pub is_empty : Text → Bool
is_empty [] = true
is_empty (c ∷ t) = false

-- `tag.body or ""`
abbrev pub or_blank : Option Text → Text
or_blank none = []
or_blank (some t) = t

abbrev pub text_payload : Text → Value
text_payload t = obj (entry "text" (str t) empty)

-- `not origin`, of a field that is absent or a string
abbrev pub is_falsy : Value → Bool
is_falsy null = true
is_falsy (str []) = true
is_falsy _ = false

module _ (p : Platform) (cfg : Config) (net : Net) where
  -- `normalize_bot_name(value) == self._config.bot_name`
  unfoldable pub names_self : Value → Bool
  names_self v = elim (normalize_bot_name p v) [ none ↦ false | some n ↦ text_eq n cfg.bot_name ]

  unfoldable pub warning_text : Dict → Dict → Text
  warning_text envelope baton =
      codes "baton hop warning: root_id="
      ++ (to_str p (get "root_id" envelope)
          ++ (codes " reached hop "
              ++ (to_str p (get "hops" baton)
                  ++ (codes " at "
                      ++ (cfg.bot_name
                          ++ (codes " (warn at 8, refused at 16). Current owner: "
                              ++ (to_str p (get "owner" envelope)
                                  ++ codes
                                      ". You started this chain; kill it if it is not going anywhere.")))))))

  unfoldable pub warn_origin : Value → Dict → State → State
  warn_origin subject envelope s =
      if is_falsy (get "origin" envelope)
      then record_suppression warning s
      else if names_self (get "origin" envelope)
      then record_suppression warning s
      else (publish_request p cfg net subject (get "origin" envelope)
          (text_payload (warning_text envelope (next_baton_fields envelope))) outbound_kind
          (some (text_of (get "id" envelope))) (next_baton_fields envelope) envelope s).1

  -- One tag: has it failed to reach its peer? A tag that is refused owes nothing.
  unfoldable pub publish_parsed : Value → Attrs → Option Text → Dict → Dict → State → Bool × State
  publish_parsed subject attrs body baton envelope s =
      if is_empty (strip (or_blank body))
      then (true, record_drop p cfg net subject yugo_bus_tag_rejected (some envelope) s)
      else if names_self (or_none (get_attr (codes "to") attrs))
      then (true, record_drop p cfg net subject yugo_bus_tag_rejected (some envelope) s)
      else publish_request p cfg net subject (or_none (get_attr (codes "to") attrs))
          (text_payload (strip (or_blank body))) outbound_kind none baton envelope s

  unfoldable pub publish_tag : Value → BusTag → Dict → Dict → State → Bool × State
  publish_tag subject b baton envelope s = elim b.attrs [
    | none ↦ (true, record_drop p cfg net subject yugo_bus_tag_rejected (some envelope) s)
    | some attrs ↦ publish_parsed subject attrs b.body baton envelope s
  ]

  -- The loop over the tags, with `delivered`.
  unfoldable pub publish_tags : Value → List BusTag → Dict → Dict → Bool → State → Bool × State
  publish_tags subject [] baton envelope delivered s = (delivered, s)
  publish_tags subject (b ∷ tags) baton envelope delivered s =
      let r = publish_tag subject b baton envelope s in
      publish_tags subject tags baton envelope (delivered && r.0) r.1

  -- The auto-reply to the sender, after the tags.
  unfoldable pub publish_answer :
      Value → Text → List BusTag → Dict → Dict → Bool → State → Bool × State
  publish_answer subject reply tags baton envelope delivered s =
      if not (is_null (get "in_reply_to" envelope))
      then (delivered, record_suppression autoreply s)
      else if is_empty (strip (strip_bus_tags reply tags))
      then (delivered, record_suppression autoreply s)
      else (let r =
            publish_request p cfg net subject (get "from" envelope)
              (text_payload (strip (strip_bus_tags reply tags))) outbound_kind
              (some (text_of (get "id" envelope))) baton envelope s in
          (delivered && r.0, r.1))

  -- `none` is a reply that is no `str`. The result says whether all that the turn owed was sent.
  unfoldable pub publish_turn_output : Value → Dict → Option Text → State → Bool × State
  publish_turn_output subject envelope none s = (true, s)
  publish_turn_output subject envelope (some reply) s =
      let tags = find_bus_tags p reply in
      let r = publish_tags subject tags (next_baton_fields envelope) envelope true s in
      publish_answer subject reply tags (next_baton_fields envelope) envelope r.0 r.1
