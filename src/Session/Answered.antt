-- ===== src/Session/Answered.antt =====
-- A turn that is reported as delivered has answered its sender.
use yugo.Base.{
  Text, ◌≡◌, refl, Bool, true, false, ◌&&◌, Option, some, List, ◌∷◌, arith, Option-cases,
  Bool-cases, inl, inr, strip,
}
use yugo.Json.{Value, Dict, obj, get}
use yugo.Bus.Platform.{Platform, encoded_json}
use yugo.Bus.Envelope.{is_null, validate_envelope}
use yugo.Bus.Baton.{Stamp, outbound_kind, next_baton_fields, create_request_envelope}
use yugo.Bus.Tags.{BusTag, find_bus_tags, strip_bus_tags}
use yugo.Session.{Config, Net, State, Event, sent, log, publish_request, transmit, roster_recipient}
use yugo.Session.Sent.{Validation-cases}
use yugo.Session.Turn.{
  text_of, text_payload, is_empty, publish_tags, publish_answer, publish_turn_output,
}

module _ (p : Platform) (cfg : Config) (net : Net) where
  transmit_sends :
      (subject : Value) (to : Text) (e source : Dict) (s : State)
      → (transmit p cfg net subject to e source s).0 ≡ true
      → (transmit p cfg net subject to e source s).1.events ≡ sent to e ∷ s.events
  unfolding transmit
  transmit_sends subject to e source s =
      elim (Bool-cases (net.has_nc s.tick && net.is_open s.tick)) [
        | inr n ↦ rw (n, transmit) (λ h. ground arith)
        | inl y ↦ elim (Option-cases (encoded_json p (obj e))) [
          | inl n ↦ rw (y, n, transmit) (λ h. ground arith)
          | inr (b, j) ↦ elim (Bool-cases (net.sends s.tick)) [
            | inl t ↦ rw (y, j, t, transmit) (λ h. refl)
            | inr f ↦ rw (y, j, f, transmit) (λ h. ground arith)
          ]
        ]
      ]

  -- A publication that is reported as made is on the log, to the peer that was named.
  publish_request_sends :
      (subject to payload : Value) (kind : Text) (reply : Option Text) (baton source : Dict)
      (s : State)
      → (publish_request p cfg net subject to payload kind reply baton source s).0 ≡ true
      → (n : Text) × (e : Dict) × (roster_recipient p cfg net to ≡ some n)
        × (create_request_envelope p (net.stamp s.tick) cfg.bot_name n payload kind reply baton
            ≡ some e)
        × ((publish_request p cfg net subject to payload kind reply baton source s).1.events
            ≡ sent n e ∷ s.events)
  unfolding publish_request
  publish_request_sends subject to payload kind reply baton source s =
      elim (Option-cases (roster_recipient p cfg net to)) [
        | inl n ↦ rw (n, publish_request) (λ h. ground arith)
        | inr (n, r) ↦
            elim (Option-cases (
              create_request_envelope p (net.stamp s.tick) cfg.bot_name n payload kind reply
                baton)) [
                  | inl m ↦ rw (r, m, publish_request) (λ h. ground arith)
                  | inr (e, made) ↦
                      elim (Validation-cases p cfg net
                        (validate_envelope p cfg.roster (obj e) cfg.max_bytes)) [
                          | inl (x, bad) ↦ rw (r, made, bad, publish_request) (λ h. ground arith)
                          | inr (e', good) ↦
                              rw (r, made, good, publish_request)
                                (λ h. (n, e, refl, made, transmit_sends _ n e source s h))
                        ]
                ]
      ]

both : (a b : Bool) → (a && b) ≡ true → b ≡ true
both a b h = ground arith

answered :
    (p : Platform) (cfg : Config) (net : Net) (subject : Value) (reply : Text) (tags : List BusTag)
    (baton e : Dict) (delivered : Bool) (s : State)
    → is_null (get "in_reply_to" e) ≡ true
    → is_empty (strip (strip_bus_tags reply tags)) ≡ false
    → (publish_answer p cfg net subject reply tags baton e delivered s).0 ≡ true
    → (n : Text) × (e' : Dict) × (stamp : Stamp) × (before : List Event) × (roster_recipient p cfg
          net
          (get "from" e)
        ≡ some n)
      × (create_request_envelope p stamp cfg.bot_name n
            (text_payload (strip (strip_bus_tags reply tags)))
            outbound_kind
            (some (text_of (get "id" e)))
            baton
          ≡ some e')
      × ((publish_answer p cfg net subject reply tags baton e delivered s).1.events
          ≡ sent n e' ∷ before)
unfolding publish_answer
answered p cfg net subject reply tags baton e delivered s fresh text =
    rw (fresh, text, publish_answer)
      (λ h.
        let (n, e', to, made, log) =
          publish_request_sends p cfg net subject (get "from" e)
            (text_payload (strip (strip_bus_tags reply tags))) outbound_kind
            (some (text_of (get "id" e))) baton e s (both delivered _ h) in
        (n, e', net.stamp s.tick, s.events, to, made, log))

-- If `publish_turn_output` reports all delivered for an envelope that has no `in_reply_to`, and
-- text is left of the reply once the tags are stripped, then the last event is an envelope sent
-- to the sender's name, made from that text and the next baton fields in reply to the envelope's
-- id.
pub settled_answered :
    (p : Platform) (cfg : Config) (net : Net) (subject : Value) (e : Dict) (reply : Text)
    (s : State)
    → is_null (get "in_reply_to" e) ≡ true
    → is_empty (strip (strip_bus_tags reply (find_bus_tags p reply))) ≡ false
    → (publish_turn_output p cfg net subject e (some reply) s).0 ≡ true
    → (n : Text) × (e' : Dict) × (stamp : Stamp) × (before : List Event) × (roster_recipient p cfg
          net
          (get "from" e)
        ≡ some n)
      × (create_request_envelope p stamp cfg.bot_name n
            (text_payload (strip (strip_bus_tags reply (find_bus_tags p reply))))
            outbound_kind
            (some (text_of (get "id" e)))
            (next_baton_fields e)
          ≡ some e')
      × ((publish_turn_output p cfg net subject e (some reply) s).1.events ≡ sent n e' ∷ before)
unfolding publish_turn_output
settled_answered p cfg net subject e reply s fresh text h =
    let r = publish_tags p cfg net subject (find_bus_tags p reply) (next_baton_fields e) e true s in
    answered p cfg net subject reply (find_bus_tags p reply) (next_baton_fields e) e r.0 r.1 fresh
      text h
