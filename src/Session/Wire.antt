-- ===== src/Session/Wire.antt =====
-- Whatever arrives, what the bot publishes in answer is sound: through every operation of the
-- session half of yugo/fleet_bus.py.
use yugo.Base.{
  Text, codes, ◌≡◌, refl, Bool, true, false, not, Option, none, some, List, [], ◌∷◌, Option-cases,
  Bool-cases, inl, inr, strip, ◌⊎◌,
}
use yugo.Json.{Value, Dict, get}
use yugo.DropReason.{DropReason}
use yugo.Dedup.Clock.{Result, Fault, ok, err}
use yugo.Dedup.Store.{Claim, claim, complete, release}
use yugo.Bus.Platform.{Platform}
use yugo.Bus.Envelope.{validate_envelope, is_null}
use yugo.Bus.Tags.{BusTag, Attrs, get_attr, strip_bus_tags, find_bus_tags}
use yugo.Bus.Baton.{next_baton_fields, hops_warn_at, hops_reject_at}
use yugo.Session.{
  Config, Net, State, log, heard, SuppressionReason, record_suppression, record_drop,
}
use yugo.Session.Turn.{
  text_of, or_none, is_empty, or_blank, is_falsy, names_self, warn_origin, publish_parsed,
  publish_tag, publish_tags, publish_answer, publish_turn_output,
}
use yugo.Session.Sent.{AllSent, record_drop-AllSent, publish_request-AllSent, Validation-cases}
use yugo.Session.Request.{
  Delivery, Outcome, replied, cancelled, raised, hops_at_least, complete_claim, release_claim,
  settle, run_turn, warned, on_claimed, on_claim, on_request, on_message,
}

module _ (p : Platform) (cfg : Config) (net : Net) where
  abbrev Sound : State → Type 0
  Sound s = AllSent p cfg s.events

  drop-Sound :
      (subject : Value) (r : DropReason) (c : Option Dict) (s : State)
      → Sound s
      → Sound (record_drop p cfg net subject r c s)
  drop-Sound = record_drop-AllSent p cfg net

  heard-Sound : (s : State) → Sound s → Sound (log heard s)
  unfolding AllSent
  heard-Sound s h = h

  suppression-Sound : (r : SuppressionReason) (s : State) → Sound s → Sound (record_suppression r s)
  unfolding record_suppression AllSent
  suppression-Sound r s h = h

  warn_origin-Sound :
      (subject : Value) (e : Dict) (s : State) → Sound s → Sound (warn_origin p cfg net subject e s)
  unfolding warn_origin
  warn_origin-Sound subject e s h = elim (Bool-cases (is_falsy (get "origin" e))) [
    | inl y ↦ rw (y, warn_origin) (suppression-Sound _ s h)
    | inr n ↦ elim (Bool-cases (names_self p cfg net (get "origin" e))) [
      | inl y ↦ rw (n, y, warn_origin) (suppression-Sound _ s h)
      | inr m ↦ rw (n, m, warn_origin) (publish_request-AllSent p cfg net _ _ _ _ _ _ _ s h)
    ]
  ]

  publish_parsed-Sound :
      (subject : Value) (attrs : Attrs) (body : Option Text) (baton e : Dict) (s : State)
      → Sound s
      → Sound (publish_parsed p cfg net subject attrs body baton e s).1
  unfolding publish_parsed
  publish_parsed-Sound subject attrs body baton e s h =
      elim (Bool-cases (is_empty (strip (or_blank body)))) [
        | inl y ↦ rw (y, publish_parsed) (drop-Sound _ _ _ s h)
        | inr n ↦ elim (Bool-cases (names_self p cfg net (or_none (get_attr (codes "to") attrs)))) [
          | inl y ↦ rw (n, y, publish_parsed) (drop-Sound _ _ _ s h)
          | inr m ↦ rw (n, m, publish_parsed) (publish_request-AllSent p cfg net _ _ _ _ _ _ _ s h)
        ]
      ]

  publish_tag-Sound :
      (subject : Value) (b : BusTag) (baton e : Dict) (s : State)
      → Sound s
      → Sound (publish_tag p cfg net subject b baton e s).1
  unfolding publish_tag
  publish_tag-Sound subject b baton e s h = elim (Option-cases b.attrs) [
    | inl n ↦ rw (n, publish_tag) (drop-Sound _ _ _ s h)
    | inr (attrs, y) ↦ rw (y, publish_tag) (publish_parsed-Sound subject attrs b.body baton e s h)
  ]

  publish_tags-Sound :
      (subject : Value) (tags : List BusTag) (baton e : Dict) (delivered : Bool) (s : State)
      → Sound s
      → Sound (publish_tags p cfg net subject tags baton e delivered s).1
  unfolding publish_tags
  publish_tags-Sound subject [] baton e delivered s h = h
  publish_tags-Sound subject (b ∷ tags) baton e delivered s h =
      publish_tags-Sound subject tags baton e _ _ (publish_tag-Sound subject b baton e s h)

  publish_answer-Sound :
      (subject : Value) (reply : Text) (tags : List BusTag) (baton e : Dict) (delivered : Bool)
      (s : State)
      → Sound s
      → Sound (publish_answer p cfg net subject reply tags baton e delivered s).1
  unfolding publish_answer
  publish_answer-Sound subject reply tags baton e delivered s h =
      elim (Bool-cases (not (is_null (get "in_reply_to" e)))) [
        | inl y ↦ rw (y, publish_answer) (suppression-Sound _ s h)
        | inr n ↦ elim (Bool-cases (is_empty (strip (strip_bus_tags reply tags)))) [
          | inl y ↦ rw (n, y, publish_answer) (suppression-Sound _ s h)
          | inr m ↦ rw (n, m, publish_answer) (publish_request-AllSent p cfg net _ _ _ _ _ _ _ s h)
        ]
      ]

  publish_turn_output-Sound :
      (subject : Value) (e : Dict) (reply : Option Text) (s : State)
      → Sound s
      → Sound (publish_turn_output p cfg net subject e reply s).1
  unfolding publish_turn_output
  publish_turn_output-Sound subject e none s h = h
  publish_turn_output-Sound subject e (some reply) s h =
      publish_answer-Sound subject reply _ _ e _ _
        (publish_tags-Sound subject (find_bus_tags p reply) (next_baton_fields e) e true s h)

  Outcome-cases :
      (o : Outcome) → (o ≡ cancelled) ⊎ ((o ≡ raised) ⊎ ((r : Option Text) × (o ≡ replied r)))
  Outcome-cases cancelled = inl refl
  Outcome-cases raised = inr (inl refl)
  Outcome-cases (replied r) = inr (inr (r, refl))

  run_turn-Sound :
      (d : Delivery) (subject : Value) (e : Dict) (req_id : Text) (s : State)
      → Sound s
      → Sound (run_turn p cfg net d subject e req_id s).1
  unfolding run_turn
  run_turn-Sound d subject e req_id s h = elim (Option-cases d.hook) [
    | inl n ↦ rw (n, run_turn) (heard-Sound s h)
    | inr (f, y) ↦ elim (Outcome-cases (f e req_id)) [
      | inl c ↦ rw (y, c, run_turn) h
      | inr (inl r) ↦ rw (y, r, run_turn) (drop-Sound _ _ _ s h)
      | inr (inr (reply, a)) ↦
          rw (y, a, run_turn) (publish_turn_output-Sound subject e reply _ (heard-Sound s h))
    ]
  ]

  Result-cases : {A : Type 0} (r : Result A) → ((a : A) × (r ≡ ok a)) ⊎ ((x : Fault) × (r ≡ err x))
  Result-cases (ok a) = inl (a, refl)
  Result-cases (err x) = inr (x, refl)

  complete-Sound :
      (d : Delivery) (subject : Value) (e : Dict) (owner : Text) (s : State)
      → Sound s
      → Sound (complete_claim p cfg net d subject e owner s)
  unfolding complete_claim
  complete-Sound d subject e owner s h =
      elim (Result-cases (complete d.settle_ok (text_of (get "id" e)) owner s.store).0) [
        | inr (x, y) ↦ rw (y, complete_claim) (drop-Sound _ _ _ _ h)
        | inl (true, y) ↦ rw (y, complete_claim) h
        | inl (false, y) ↦ rw (y, complete_claim) (drop-Sound _ _ _ _ h)
      ]

  release-Sound :
      (d : Delivery) (subject : Value) (e : Dict) (owner : Text) (s : State)
      → Sound s
      → Sound (release_claim p cfg net d subject e owner s)
  unfolding release_claim
  release-Sound d subject e owner s h =
      elim (Result-cases (release d.settle_ok (text_of (get "id" e)) owner s.store).0) [
        | inr (x, y) ↦ rw (y, release_claim) (drop-Sound _ _ _ _ h)
        | inl (b, y) ↦ rw (y, release_claim) h
      ]

  settle-Sound :
      (d : Delivery) (subject : Value) (e : Dict) (owner : Text) (settled : Bool) (s : State)
      → Sound s
      → Sound (settle p cfg net d subject e owner settled s)
  unfolding settle
  settle-Sound d subject e owner true s h = complete-Sound d subject e owner s h
  settle-Sound d subject e owner false s h = release-Sound d subject e owner s h

  warned-Sound :
      (subject : Value) (e : Dict) (s : State) → Sound s → Sound (warned p cfg net subject e s)
  unfolding warned
  warned-Sound subject e s h = elim (Bool-cases (hops_at_least hops_warn_at e)) [
    | inl y ↦ rw (y, warned) (warn_origin-Sound subject e s h)
    | inr n ↦ rw (n, warned) h
  ]

  on_claimed-Sound :
      (d : Delivery) (subject : Value) (e : Dict) (req_id owner : Text) (s : State)
      → Sound s
      → Sound (on_claimed p cfg net d subject e req_id owner s)
  unfolding on_claimed
  on_claimed-Sound d subject e req_id owner s h =
      settle-Sound d subject e owner _ _
        (run_turn-Sound d subject e req_id _ (warned-Sound subject e s h))

  on_claim-Sound :
      (d : Delivery) (subject : Value) (e : Dict) (c : Claim) (s : State)
      → Sound s
      → Sound (on_claim p cfg net d subject e c s)
  unfolding on_claim
  on_claim-Sound d subject e c s h = elim (Option-cases c.owner) [
    | inl n ↦ rw (n, on_claim) (drop-Sound _ _ _ s h)
    | inr (owner, y) ↦ elim (Bool-cases c.duplicate) [
      | inl t ↦ rw (y, t, on_claim) (drop-Sound _ _ _ s h)
      | inr f ↦ rw (y, f, on_claim) (on_claimed-Sound d subject e c.req_id owner s h)
    ]
  ]

  on_request-Sound :
      (d : Delivery) (subject : Value) (e : Dict) (s : State)
      → Sound s
      → Sound (on_request p cfg net d subject e s)
  unfolding on_request
  on_request-Sound d subject e s h = elim (Bool-cases (names_self p cfg net (get "to" e))) [
    | inr n ↦ rw (n, on_request) (drop-Sound _ _ _ s h)
    | inl y ↦ elim (Bool-cases (hops_at_least hops_reject_at e)) [
      | inl t ↦ rw (y, t, on_request) (suppression-Sound _ s h)
      | inr f ↦ elim (Result-cases (claim d.env (text_of (get "id" e)) d.req_id s.store).0) [
        | inr (x, bad) ↦ rw (y, f, bad, on_request) (drop-Sound _ _ _ _ h)
        | inl (c, good) ↦ rw (y, f, good, on_request) (on_claim-Sound d subject e c _ h)
      ]
    ]
  ]

  -- Whatever message arrives, and however the session answers it, if it held of the log before:
  -- every envelope on the log that `publish_request` has put on the wire bears the bot's own
  -- normalized name, goes to a peer of the roster under that peer's normalized name, and passes
  -- `validate_envelope` with this roster and size limit; and every drop notice bears the bot's
  -- name and goes to another bot of the roster.
  pub on_message-AllSent :
      (d : Delivery) (subject : Value) (directed : Bool) (decoded : Option Value) (s : State)
      → AllSent p cfg s.events
      → AllSent p cfg (on_message p cfg net d subject directed decoded s).events
  unfolding on_message
  on_message-AllSent d subject directed none s h = drop-Sound _ _ _ s h
  on_message-AllSent d subject directed (some v) s h =
      elim (Validation-cases p cfg net (validate_envelope p cfg.roster v cfg.max_bytes)) [
        | inl (r, bad) ↦ rw (bad, on_message) (drop-Sound _ _ _ s h)
        | inr (e, good) ↦ elim (Bool-cases directed) [
          | inl y ↦ rw (good, y, on_message) (on_request-Sound d subject e s h)
          | inr n ↦ rw (good, n, on_message) (heard-Sound s h)
        ]
      ]
