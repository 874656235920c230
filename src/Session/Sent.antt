-- ===== src/Session/Sent.antt =====
-- What `publish_request` of yugo/fleet_bus.py lets onto the wire.
use Prim.Native.String.{String}
use yugo.Base.{
  codes, text_eq, Text, ◌≡◌, refl, sym, ◌∙◌, subst, ◌⊎◌, Bool, true, false, ◌&&◌, Option, none,
  some, List, [], ◌∷◌, contains_text, arith, Option-cases, Bool-cases, inl, inr,
}
use yugo.Json.{Value, Dict, str, obj, empty, entry, lookup, put, update, lookup-put, String-cases}
use yugo.DropReason.{DropReason}
use yugo.Bus.Platform.{Platform, encoded_json}
use yugo.Bus.Name.{normalize_bot_name}
use yugo.Bus.Envelope.{Validation, accepted, rejected, validate_envelope}
use yugo.Bus.Baton.{
  Stamp, create_request_envelope, only_baton_fields, is_baton_field, with_reply, request_fields,
}
use yugo.Session.{
  Config, Net, State, Event, sent, noticed, record_drop, publish_request, transmit,
  roster_recipient, notice_to, drop_notice,
}

clash : {b : Bool} → b ≡ true → b ≡ false → ⊥
clash t f = ground arith

-- A dict of baton fields leaves every other key alone.
lookup-update :
    (k : String) (baton d : Dict)
    → only_baton_fields baton ≡ true
    → is_baton_field k ≡ false
    → lookup k (update d baton) ≡ lookup k d
unfolding update only_baton_fields
lookup-update k empty d h n = refl
lookup-update k (entry j v baton) d h n =
    lookup-update k baton (put j v d) (ground arith) n ∙ elim (String-cases j k) [
      | inl e ↦ elim (clash (ground arith) (subst (λ i. is_baton_field i ≡ false) (sym e) n)) [ ]
      | inr ne ↦ lookup-put j k v d ∙ rw (ne) refl
    ]

module _ (p : Platform) (cfg : Config) where
  -- The envelope is from this bot to the peer of its subject, who is on the roster, and passes
  -- the checks that a receiver with the same roster applies.
  pub record IsSent (to : Text) (e : Dict) : Type 0 where
    pub on_roster : contains_text cfg.roster to ≡ true
    pub from_self :
        (n : Text) × (normalize_bot_name p (str cfg.bot_name) ≡ some n)
        × (lookup "from" e ≡ some (str n))
    pub to_peer :
        (n : Text) × (normalize_bot_name p (str to) ≡ some n) × (lookup "to" e ≡ some (str n))
    pub valid : (e' : Dict) × (validate_envelope p cfg.roster (obj e) cfg.max_bytes ≡ accepted e')

  -- The drop notice is from this bot, to another bot of the roster.
  pub record IsNotice (to : Text) (e : Dict) : Type 0 where
    pub notice_on_roster : contains_text cfg.roster to ≡ true
    pub not_self : text_eq to cfg.bot_name ≡ false
    pub notice_from : lookup "from" e ≡ some (str cfg.bot_name)
    pub notice_to_peer : lookup "to" e ≡ some (str to)
    pub notice_kind : lookup "kind" e ≡ some (str (codes "drop_notice"))

  -- Every publication of the log is such an envelope.
  unfoldable pub AllSent : List Event → Type 0
  AllSent [] = Unit
  AllSent (sent to e ∷ es) = IsSent to e × AllSent es
  AllSent (noticed to e ∷ es) = IsNotice to e × AllSent es
  AllSent (_ ∷ es) = AllSent es

  with_reply-lookup :
      (stamp : Stamp) (from n kind : Text) (payload : Value) (reply : Option Text)
      → (lookup "from" (with_reply reply (request_fields p stamp from n kind payload))
          ≡ some (str from))
        × (lookup "to" (with_reply reply (request_fields p stamp from n kind payload))
            ≡ some (str n))
  unfolding lookup put
  with_reply-lookup stamp from n kind payload none = (refl, refl)
  with_reply-lookup stamp from n kind payload (some i) = (refl, refl)

  created :
      (stamp : Stamp) (to : Text) (payload : Value) (kind : Text) (reply : Option Text)
      (baton e : Dict)
      → create_request_envelope p stamp cfg.bot_name to payload kind reply baton ≡ some e
      → ((n : Text) × (normalize_bot_name p (str cfg.bot_name) ≡ some n)
          × (lookup "from" e ≡ some (str n)))
        × ((n : Text) × (normalize_bot_name p (str to) ≡ some n) × (lookup "to" e ≡ some (str n)))
  unfolding create_request_envelope
  created stamp to payload kind reply baton e h =
      elim (Option-cases (normalize_bot_name p (str cfg.bot_name))) [
        | inl none_from ↦ ground arith
        | inr (from, f) ↦ elim (Option-cases (normalize_bot_name p (str to))) [
          | inl none_to ↦ ground arith
          | inr (n, t) ↦ elim (Bool-cases (only_baton_fields baton)) [
            | inl only ↦ (
              (
                from,
                f,
                ground (
                  arith,
                  lookup-update "from" baton
                      (with_reply reply (request_fields p stamp from n kind payload)) only refl,
                  with_reply-lookup stamp from n kind payload reply,
                ),
              ),
              (
                n,
                t,
                ground (
                  arith,
                  lookup-update "to" baton
                      (with_reply reply (request_fields p stamp from n kind payload)) only refl,
                  with_reply-lookup stamp from n kind payload reply,
                ),
              ),
            )
            | inr other ↦ ground arith
          ]
        ]
      ]

  module _ (net : Net) where
    -- A drop adds a drop line, and at most the task of a notice.
    notice_to_lem :
        (r : DropReason) (c : Dict) (s : State) (to : Text)
        → notice_to p cfg net r c s ≡ some to
        → (contains_text cfg.roster to ≡ true) × (text_eq to cfg.bot_name ≡ false)
    unfolding notice_to
    notice_to_lem r c s to h = (ground arith, ground arith)

    drop_notice-IsNotice :
        (stamp : Stamp) (to : Text) (r : DropReason) (subject : Value) (c : Dict)
        → contains_text cfg.roster to ≡ true
        → text_eq to cfg.bot_name ≡ false
        → IsNotice to (drop_notice p cfg net stamp to r subject c)
    unfolding drop_notice lookup
    drop_notice-IsNotice stamp to r subject c on other = record {
      notice_on_roster = on;
      not_self = other;
      notice_from = refl;
      notice_to_peer = refl;
      notice_kind = refl;
    }

    -- A drop adds a drop line, and at most the task of a notice.
    pub record_drop-AllSent :
        (subject : Value) (r : DropReason) (c : Option Dict) (s : State)
        → AllSent s.events
        → AllSent (record_drop p cfg net subject r c s).events
    unfolding record_drop
    record_drop-AllSent subject r none s h = unfold AllSent in h
    record_drop-AllSent subject r (some c) s h = elim (Option-cases (notice_to p cfg net r c s)) [
      | inl e ↦ rw (e, record_drop) (unfold AllSent in h)
      | inr (n, e) ↦
          rw (e, record_drop)
            (unfold AllSent in
              (
                drop_notice-IsNotice (net.stamp s.tick) n r subject c (notice_to_lem r c s n e).0
                    (notice_to_lem r c s n e).1,
                h,
              ))
    ]

    transmit-AllSent :
        (subject : Value) (to : Text) (e source : Dict) (s : State)
        → IsSent to e
        → AllSent s.events
        → AllSent (transmit p cfg net subject to e source s).1.events
    unfolding transmit
    transmit-AllSent subject to e source s ok h =
        elim (Bool-cases (net.has_nc s.tick && net.is_open s.tick)) [
          | inr n ↦ rw (n, transmit) (record_drop-AllSent subject _ _ s h)
          | inl y ↦ elim (Option-cases (encoded_json p (obj e))) [
            | inl n ↦ rw (y, n, transmit) (record_drop-AllSent subject _ _ s h)
            | inr (b, j) ↦ elim (Bool-cases (net.sends s.tick)) [
              | inl t ↦ rw (y, j, t, transmit) (unfold AllSent in (ok, h))
              | inr f ↦ rw (y, j, f, transmit) (record_drop-AllSent subject _ _ s h)
            ]
          ]
        ]

    roster_recipient_lem :
        (v : Value) (to : Text)
        → roster_recipient p cfg net v ≡ some to
        → contains_text cfg.roster to ≡ true
    unfolding roster_recipient
    roster_recipient_lem v to h = ground arith

    pub Validation-cases :
        (v : Validation) → ((r : DropReason) × (v ≡ rejected r)) ⊎ ((e : Dict) × (v ≡ accepted e))
    Validation-cases (rejected r) = inl (r, refl)
    Validation-cases (accepted e) = inr (e, refl)

    pub publish_request-AllSent :
        (subject to payload : Value) (kind : Text) (reply : Option Text) (baton source : Dict)
        (s : State)
        → AllSent s.events
        → AllSent (publish_request p cfg net subject to payload kind reply baton source s).1.events
    unfolding publish_request
    publish_request-AllSent subject to payload kind reply baton source s h =
        elim (Option-cases (roster_recipient p cfg net to)) [
          | inl n ↦ rw (n, publish_request) (record_drop-AllSent _ _ _ s h)
          | inr (n, r) ↦
              elim (Option-cases (
                create_request_envelope p (net.stamp s.tick) cfg.bot_name n payload kind reply
                  baton)) [
                    | inl none_made ↦
                        rw (r, none_made, publish_request) (record_drop-AllSent _ _ _ s h)
                    | inr (e, made) ↦
                        elim (Validation-cases
                          (validate_envelope p cfg.roster (obj e) cfg.max_bytes)) [
                            | inl (x, bad) ↦
                                rw (r, made, bad, publish_request) (record_drop-AllSent _ _ _ s h)
                            | inr (e', good) ↦
                                rw (r, made, good, publish_request)
                                  (transmit-AllSent _ n e source s
                                    (record {
                                      on_roster = roster_recipient_lem to n r;
                                      from_self =
                                          (created (net.stamp s.tick) n payload kind reply baton e
                                            made).0;
                                      to_peer =
                                          (created (net.stamp s.tick) n payload kind reply baton e
                                            made).1;
                                      valid = (e', good);
                                    })
                                    h)
                          ]
                  ]
        ]
