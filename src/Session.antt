-- ===== src/Session.antt =====
-- The session half of yugo/fleet_bus.py, `FleetBus`: what one received envelope makes the bot
-- record, publish and store. The events of a state are its audit lines and publications, newest
-- first.
use Prim.Native.String.{String}
use yugo.Base.{
  ℕ, zero, suc, ◌+◌, Text, codes, text_eq, strip, Bool, true, false, not, ◌&&◌, ◌||◌, Option, none,
  some, List, [], ◌∷◌, ◌++◌, if◌then◌else◌, contains_text,
}
use yugo.Base.Int.{ℤ}
use yugo.Json.{Value, Dict, null, bool, int, float, str, arr, obj, empty, entry, get, has, lookup}
use yugo.DropReason.{
  DropReason, Disposition, terminal, transient, throttled, duplicate, disposition, value,
  invalid_to, yugo_publish_failed,
}
use yugo.Dedup.Store.{Store}
use yugo.Bus.Platform.{Platform, encoded_json}
use yugo.Bus.Name.{normalize_bot_name}
use yugo.Bus.Envelope.{accepted, rejected, validate_envelope, is_null}
use yugo.Bus.Baton.{Stamp, create_request_envelope}
pub mod Turn
pub mod Sent
pub mod Request
pub mod Wire
pub mod Settle
pub mod Answered

pub record Config : Type 0 where
  pub bot_name : Text
  pub roster : List Text  -- `allowed_from`
  pub max_bytes : ℕ

-- The connection and the identifiers at each tick of the state's clock: is `_nc` set, is it open,
-- does its `publish` return, which uuid and time stamp a new envelope, and has the task that
-- publishes the drop notice of this envelope come to its end?
pub record Net : Type 0 where
  pub has_nc : ℕ → Bool
  pub is_open : ℕ → Bool
  pub sends : ℕ → Bool
  pub stamp : ℕ → Stamp
  pub notice_done : ℕ → Bool

pub data SuppressionReason : Type 0 where
  autoreply hops_exhausted warning : SuppressionReason

pub data Event : Type 0 where
  sent : Text → Dict → Event  -- published to `fleet.<to>.request`, and its `out` line
  noticed : Text → Dict → Event  -- the task of a drop notice to this peer
  dropped : DropReason → Event
  suppressed : SuppressionReason → Event
  heard : Event  -- the `in` line

pub record Counts : Type 0 where
  pub n_terminal : ℕ
  pub n_transient : ℕ
  pub n_throttled : ℕ
  pub n_duplicate : ℕ

pub record State : Type 0 where
  pub tick : ℕ
  pub events : List Event
  pub counts : Counts
  pub notifying : Bool  -- is this envelope in `_notifying_contexts`?
  pub store : Store

-- `self._drop_counts[disposition] += 1`
unfoldable pub bump : Disposition → Counts → Counts
bump terminal c = record c { n_terminal = c.n_terminal + 1 }
bump transient c = record c { n_transient = c.n_transient + 1 }
bump throttled c = record c { n_throttled = c.n_throttled + 1 }
bump duplicate c = record c { n_duplicate = c.n_duplicate + 1 }

abbrev pub log : Event → State → State
log e s = record s { events = e ∷ s.events; tick = s.tick + 1 }

unfoldable pub record_suppression : SuppressionReason → State → State
record_suppression r s = log (suppressed r) s

abbrev pub is_duplicate : Disposition → Bool
is_duplicate duplicate = true
is_duplicate _ = false

abbrev pub is_text : Value → Text → Bool
is_text (str t) u = text_eq t u
is_text _ u = false

unfoldable pub disposition_value : Disposition → Text
disposition_value terminal = codes "terminal"
disposition_value transient = codes "transient"
disposition_value throttled = codes "throttled"
disposition_value duplicate = codes "duplicate"

module _ (p : Platform) (cfg : Config) (net : Net) where
  -- The peer that a drop of the envelope `c` is reported to, if one is.
  unfoldable pub notice_to : DropReason → Dict → State → Option Text
  notice_to reason c s =
      if is_duplicate (disposition reason)
        || (is_text (get "kind" c) (codes "drop_notice")
            || (s.notifying && not (net.notice_done s.tick)))
      then none
      else elim (normalize_bot_name p (get "from" c)) [
        | none ↦ none
        | some sender ↦
            if text_eq sender cfg.bot_name
              || (not (contains_text cfg.roster sender) || not (net.has_nc s.tick))
            then none
            else some sender
      ]

  abbrev reply_field : Value → Dict
  reply_field (str t) = entry "in_reply_to" (str t) empty
  reply_field _ = empty

  unfoldable pub drop_notice : Stamp → Text → DropReason → Value → Dict → Dict
  drop_notice stamp sender reason subject c = entry "envelope_version" (int (ℤ.pos 1)) (
      entry "id" (str stamp.id) (
        entry "from" (str cfg.bot_name) (
          entry "to" (str sender) (
            entry "kind" (str (codes "drop_notice")) (
              entry "ts" (str stamp.ts) (
                entry "payload"
                  (obj (
                    entry "envelope_id" (get "id" c) (
                      entry "reason" (str (value reason)) (
                        entry "disposition" (str (disposition_value (disposition reason)))
                          (entry "subject" subject empty)))))
                  (reply_field (get "id" c))))))))

  -- `context` is `none` where it is no dict.
  unfoldable pub record_drop : Value → DropReason → Option Dict → State → State
  record_drop subject reason none s =
      log (dropped reason) (record s { counts = bump (disposition reason) s.counts })
  record_drop subject reason (some c) s =
      let s' = log (dropped reason) (record s { counts = bump (disposition reason) s.counts }) in
      elim (notice_to reason c s) [
        | none ↦ s'
        | some sender ↦
            log (noticed sender (drop_notice (net.stamp s.tick) sender reason subject c))
              (record s' { notifying = true })
      ]

  -- The peer that `to` names, if it is on the roster.
  unfoldable pub roster_recipient : Value → Option Text
  roster_recipient to = elim (normalize_bot_name p to) [
    | none ↦ none
    | some n ↦ if contains_text cfg.roster n then some n else none
  ]

  -- The last gates: a live connection, and a publication that goes through.
  unfoldable pub transmit : Value → Text → Dict → Dict → State → Bool × State
  transmit subject recipient envelope source s =
      if net.has_nc s.tick && net.is_open s.tick
      then (elim (encoded_json p (obj envelope)) [
        | none ↦ (false, record_drop subject yugo_publish_failed (some source) s)
        | some bytes ↦
            if net.sends s.tick
            then (true, log (sent recipient envelope) s)
            else (false, record_drop subject yugo_publish_failed (some source) s)
      ])
      else (false, record_drop subject yugo_publish_failed (some source) s)

  -- Did it reach the wire? `source` is the envelope of the turn that publishes.
  unfoldable pub publish_request :
      Value → Value → Value → Text → Option Text → Dict → Dict → State → Bool × State
  publish_request subject to payload kind in_reply_to baton source s = elim (roster_recipient to) [
    | none ↦ (false, record_drop subject invalid_to (some source) s)
    | some recipient ↦
        let lane = str (codes "fleet." ++ (recipient ++ codes ".request")) in
        elim (create_request_envelope p (net.stamp s.tick) cfg.bot_name recipient payload kind
          in_reply_to baton) [
            | none ↦ (false, record_drop lane yugo_publish_failed (some source) s)
            | some envelope ↦ elim (validate_envelope p cfg.roster (obj envelope) cfg.max_bytes) [
              | rejected r ↦ (false, record_drop lane r (some source) s)
              | accepted _ ↦ transmit lane recipient envelope source s
            ]
          ]
  ]
