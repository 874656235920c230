-- ===== src/Session/Request.antt =====
-- The directed lane: `_on_message`, `_on_request`, `_complete_claim` and `_release_claim` of
-- yugo/fleet_bus.py. One `Delivery` is one received message.
use yugo.Base.{ℕ, Text, Bool, true, false, Option, none, some, if◌then◌else◌}
use yugo.Base.Int.{at_least}
use yugo.Json.{Value, Dict, int, obj, get}
use yugo.DropReason.{
  recipient_mismatch, injection_failed, malformed_json, yugo_dedup_store_failed,
  yugo_duplicate_envelope, yugo_dedup_complete_failed, yugo_dedup_release_failed,
  yugo_dedup_owner_lost,
}
use yugo.Dedup.Clock.{ok, err}
use yugo.Dedup.Store.{Store, Env, Claim, claim, complete, release}
use yugo.Bus.Platform.{Platform}
use yugo.Bus.Envelope.{accepted, rejected, validate_envelope}
use yugo.Bus.Baton.{hops_warn_at, hops_reject_at}
use yugo.Session.{Config, Net, State, log, heard, hops_exhausted, record_suppression, record_drop}
use yugo.Session.Turn.{text_of, names_self, warn_origin, publish_turn_output}

-- How the session hook ends: with a reply (`none` is None), cancelled, or raising anything else.
pub data Outcome : Type 0 where
  replied : Option Text → Outcome
  cancelled raised : Outcome

-- What one delivery meets: the claim's surroundings, its fresh request id, whether the final write
-- of the claim succeeds, what happens to the claim store during the turn (renewals and the other
-- processes), and the session hook, if there is one.
pub record Delivery : Type 0 where
  pub env : Env
  pub req_id : Text
  pub settle_ok : Bool
  pub meanwhile : Store → Store
  pub hook : Option (Dict → Text → Outcome)

-- `isinstance(hops, int) and hops >= n`: a Boolean is below every limit in use.
unfoldable pub hops_at_least : ℕ → Dict → Bool
hops_at_least n d = elim (get "hops" d) [ int h ↦ at_least h n | _ ↦ false ]

abbrev pub with_store : Store → State → State
with_store st s = record s { store = st }

module _ (p : Platform) (cfg : Config) (net : Net) where
  unfoldable pub complete_claim : Delivery → Value → Dict → Text → State → State
  complete_claim d subject e owner s =
      let r = complete d.settle_ok (text_of (get "id" e)) owner s.store in
      elim r.0 [
        | err _ ↦
            record_drop p cfg net subject yugo_dedup_complete_failed (some e) (with_store r.1 s)
        | ok true ↦ with_store r.1 s
        | ok false ↦ record_drop p cfg net subject yugo_dedup_owner_lost (some e) (with_store r.1 s)
      ]

  unfoldable pub release_claim : Delivery → Value → Dict → Text → State → State
  release_claim d subject e owner s =
      let r = release d.settle_ok (text_of (get "id" e)) owner s.store in
      elim r.0 [
        | err _ ↦
            record_drop p cfg net subject yugo_dedup_release_failed (some e) (with_store r.1 s)
        | ok _ ↦ with_store r.1 s
      ]

  -- The `finally`.
  unfoldable pub settle : Delivery → Value → Dict → Text → Bool → State → State
  settle d subject e owner settled s =
      if settled then complete_claim d subject e owner s else release_claim d subject e owner s

  -- The turn of a claimed envelope, with `settled`.
  unfoldable pub run_turn : Delivery → Value → Dict → Text → State → Bool × State
  run_turn d subject e req_id s = elim d.hook [
    | none ↦ (true, log heard s)
    | some f ↦ elim (f e req_id) [
      | cancelled ↦ (false, s)
      | raised ↦ (false, record_drop p cfg net subject injection_failed (some e) s)
      | replied reply ↦ publish_turn_output p cfg net subject e reply (log heard s)
    ]
  ]

  unfoldable pub warned : Value → Dict → State → State
  warned subject e s = if hops_at_least hops_warn_at e then warn_origin p cfg net subject e s else s

  -- The whole claimed lifetime.
  unfoldable pub on_claimed : Delivery → Value → Dict → Text → Text → State → State
  on_claimed d subject e req_id owner s =
      let r = run_turn d subject e req_id (warned subject e s) in
      settle d subject e owner r.0 (with_store (d.meanwhile r.1.store) r.1)

  unfoldable pub on_claim : Delivery → Value → Dict → Claim → State → State
  on_claim d subject e c s = elim c.owner [
    | none ↦ record_drop p cfg net subject yugo_duplicate_envelope (some e) s
    | some owner ↦
        if c.duplicate
        then record_drop p cfg net subject yugo_duplicate_envelope (some e) s
        else on_claimed d subject e c.req_id owner s
  ]

  unfoldable pub on_request : Delivery → Value → Dict → State → State
  on_request d subject e s =
      if names_self p cfg net (get "to" e)
      then (if hops_at_least hops_reject_at e
          then record_suppression hops_exhausted s
          else (let r = claim d.env (text_of (get "id" e)) d.req_id s.store in
              elim r.0 [
                | err _ ↦
                    record_drop p cfg net subject yugo_dedup_store_failed (some e)
                      (with_store r.1 s)
                | ok c ↦ on_claim d subject e c (with_store r.1 s)
              ]))
      else record_drop p cfg net subject recipient_mismatch (some e) s

  abbrev context_of : Value → Option Dict
  context_of (obj e) = some e
  context_of _ = none

  -- `_json_loads` is the argument `decoded`, `none` its ValueError; `directed` says whether the
  -- subject is the bot's own request lane.
  unfoldable pub on_message : Delivery → Value → Bool → Option Value → State → State
  on_message d subject directed none s = record_drop p cfg net subject malformed_json none s
  on_message d subject directed (some v) s = elim (validate_envelope p cfg.roster v cfg.max_bytes) [
    | rejected r ↦ record_drop p cfg net subject r (context_of v) s
    | accepted e ↦ if directed then on_request d subject e s else log heard s
  ]
