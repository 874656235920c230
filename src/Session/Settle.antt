-- ===== src/Session/Settle.antt =====
-- When a delivery of yugo/fleet_bus.py settles its claim, and what a redelivery then meets.
use yugo.Base.{
  ◌+◌, ◌≤◌, Text, ◌≡◌, refl, Bool, true, false, Option, none, some, if◌then◌else◌, arith,
  Option-cases, inl, inr,
}
use yugo.Json.{Value, Dict, get}
use yugo.Dedup.Table.{Row, find, held_by}
use yugo.Dedup.Clock.{ok, LeaseClock}
use yugo.Dedup.Store.{Store, Env, claim, complete, release, finish, granted, refused, eligible}
use yugo.Dedup.Find.{IsUnique}
use yugo.Dedup.Spec.{claim_spec, complete_spec, release_spec}
use yugo.Dedup.Ops.{Result-cases, claim-claim_spec, complete-complete_spec, release-release_spec}
use yugo.Dedup.Lease.{Runs}
use yugo.DropReason.{DropReason}
use yugo.Dedup.Run.{Op, step, step-IsUnique}
use yugo.Dedup.Completed.{step-ttl}
use yugo.Bus.Platform.{Platform}
use yugo.Session.{Config, Net, State, record_drop, notice_to}
use yugo.Session.Turn.{text_of}
use yugo.Session.Request.{
  Delivery, complete_claim, release_claim, settle, run_turn, warned, on_claimed, with_store,
}

complete_held :
    (db_ok : Bool) (e owner : Text) (s : Store) (r : Row)
    → IsUnique s.rows
    → db_ok ≡ true
    → find e s.rows ≡ some r
    → held_by e owner r ≡ true
    → ((complete db_ok e owner s).0 ≡ ok true)
      × (find e (complete db_ok e owner s).1.rows ≡ some (finish r))
unfolding complete_spec
complete_held db_ok e owner s r u can found held =
    ground (arith, complete-complete_spec db_ok e owner s u)

release_held :
    (db_ok : Bool) (e owner : Text) (s : Store) (r : Row)
    → IsUnique s.rows
    → db_ok ≡ true
    → find e s.rows ≡ some r
    → held_by e owner r ≡ true
    → ((release db_ok e owner s).0 ≡ ok true) × (find e (release db_ok e owner s).1.rows ≡ none)
unfolding release_spec
release_held db_ok e owner s r u can found held =
    ground (arith, release-release_spec db_ok e owner s u)

module _ (p : Platform) (cfg : Config) (net : Net) where
  -- The `finally` on the row of the claim, while its owner holds it: completed if the turn
  -- settled, gone if not.
  settle_row :
      (d : Delivery) (subject : Value) (e : Dict) (owner : Text) (settled : Bool) (s : State)
      (r : Row)
      → IsUnique s.store.rows
      → d.settle_ok ≡ true
      → find (text_of (get "id" e)) s.store.rows ≡ some r
      → held_by (text_of (get "id" e)) owner r ≡ true
      → find (text_of (get "id" e)) (settle p cfg net d subject e owner settled s).store.rows
        ≡ (if settled then some (finish r) else none)
  unfolding settle complete_claim release_claim
  settle_row d subject e owner true s r u can found held =
      let (won, row) =
        complete_held d.settle_ok (text_of (get "id" e)) owner s.store r u can found held in
      rw (won, complete_claim) row
  settle_row d subject e owner false s r u can found held =
      let (won, row) =
        release_held d.settle_ok (text_of (get "id" e)) owner s.store r u can found held in
      rw (won, release_claim) row

  record_drop_store :
      (subject : Value) (r : DropReason) (c : Option Dict) (s : State)
      → (record_drop p cfg net subject r c s).store ≡ s.store
  unfolding record_drop
  record_drop_store subject r none s = refl
  record_drop_store subject r (some c) s = elim (Option-cases (notice_to p cfg net r c s)) [
    | inl e ↦ rw (e, record_drop) refl
    | inr (n, e) ↦ rw (e, record_drop) refl
  ]

  settle_store :
      (d : Delivery) (subject : Value) (e : Dict) (owner : Text) (settled : Bool) (s : State)
      → (settle p cfg net d subject e owner settled s).store ≡ (
          if settled
          then (complete d.settle_ok (text_of (get "id" e)) owner s.store).1
          else (release d.settle_ok (text_of (get "id" e)) owner s.store).1)
  unfolding settle complete_claim release_claim
  settle_store d subject e owner true s =
      elim (Result-cases (complete d.settle_ok (text_of (get "id" e)) owner s.store).0) [
        | inl (x, y) ↦ rw (y, complete_claim) (record_drop_store _ _ _ _)
        | inr (true, y) ↦ rw (y, complete_claim) refl
        | inr (false, y) ↦ rw (y, complete_claim) (record_drop_store _ _ _ _)
      ]
  settle_store d subject e owner false s =
      elim (Result-cases (release d.settle_ok (text_of (get "id" e)) owner s.store).0) [
        | inl (x, y) ↦ rw (y, release_claim) (record_drop_store _ _ _ _)
        | inr (b, y) ↦ rw (y, release_claim) refl
      ]

  settle-IsUnique :
      (d : Delivery) (subject : Value) (e : Dict) (owner : Text) (settled : Bool) (s : State)
      → IsUnique s.store.rows
      → IsUnique (settle p cfg net d subject e owner settled s).store.rows
  settle-IsUnique d subject e owner true s u = rw (settle_store d subject e owner true s) (
      unfold step in step-IsUnique (Op.complete d.settle_ok (text_of (get "id" e)) owner) s.store u)
  settle-IsUnique d subject e owner false s u =
      rw (settle_store d subject e owner false s) (
        unfold step in
        step-IsUnique (Op.release d.settle_ok (text_of (get "id" e)) owner) s.store u)

  settle_ttl :
      (d : Delivery) (subject : Value) (e : Dict) (owner : Text) (settled : Bool) (s : State)
      → (settle p cfg net d subject e owner settled s).store.ttl ≡ s.store.ttl
  settle_ttl d subject e owner true s =
      rw (settle_store d subject e owner true s)
        (unfold step in step-ttl (Op.complete d.settle_ok (text_of (get "id" e)) owner) s.store)
  settle_ttl d subject e owner false s =
      rw (settle_store d subject e owner false s)
        (unfold step in step-ttl (Op.release d.settle_ok (text_of (get "id" e)) owner) s.store)

claim_absent :
    (env : Env) (clock : LeaseClock) (e req : Text) (s : Store)
    → IsUnique s.rows
    → Runs env s.lease clock
    → find e s.rows ≡ none
    → (claim env e req s).0 ≡ ok (granted req env.token)
unfolding claim_spec
claim_absent env clock e req s u runs h = ground (arith, claim-claim_spec env e req s u)

claim_finished :
    (env : Env) (clock : LeaseClock) (e req : Text) (s : Store) (r : Row)
    → IsUnique s.rows
    → Runs env s.lease clock
    → find e s.rows ≡ some (finish r)
    → env.now ≤ r.first_seen + s.ttl
    → (claim env e req s).0 ≡ ok (refused r.req_id)
unfolding claim_spec eligible
claim_finished env clock e req s r u runs h t = ground (arith, claim-claim_spec env e req s u)

claim_settled :
    (p : Platform) (cfg : Config) (net : Net) (d : Delivery) (subject : Value) (e : Dict)
    (owner req' : Text) (settled : Bool) (s : State) (r : Row) (env : Env) (clock : LeaseClock)
    → IsUnique s.store.rows
    → find (text_of (get "id" e)) s.store.rows ≡ some r
    → held_by (text_of (get "id" e)) owner r ≡ true
    → d.settle_ok ≡ true
    → Runs env (settle p cfg net d subject e owner settled s).store.lease clock
    → env.now ≤ r.first_seen + s.store.ttl
    → (claim env (text_of (get "id" e)) req' (settle p cfg net d subject e owner settled s).store).0
      ≡ (if settled then ok (refused r.req_id) else ok (granted req' env.token))
claim_settled p cfg net d subject e owner req' true s r env clock u found held can runs t =
    claim_finished env clock _ req' _ r (settle-IsUnique p cfg net d subject e owner true s u) runs
      (settle_row p cfg net d subject e owner true s r u can found held)
      (rw (settle_ttl p cfg net d subject e owner true s) t)
claim_settled p cfg net d subject e owner req' false s r env clock u found held can runs t =
    claim_absent env clock _ req' _ (settle-IsUnique p cfg net d subject e owner false s u) runs
      (settle_row p cfg net d subject e owner false s r u can found held)

-- If at the end of a claimed delivery its owner still holds the claim's row, the primary key is
-- intact and the final write succeeds, then, whatever the hook did and whatever was sent: a
-- redelivery's claim that meets no fault, within the TTL of the row, is refused as a duplicate
-- of the first request id if the turn settled, and granted at once under its own request id if
-- it did not.
pub redelivery :
    (p : Platform) (cfg : Config) (net : Net) (d : Delivery) (subject : Value) (e : Dict)
    (req_id owner req' : Text) (s : State) (r : Row) (env : Env) (clock : LeaseClock)
    → IsUnique
        (d.meanwhile
          (run_turn p cfg net d subject e req_id (warned p cfg net subject e s)).1.store).rows
    → find
        (text_of (get "id" e))
        (d.meanwhile
          (run_turn p cfg net d subject e req_id (warned p cfg net subject e s)).1.store).rows
      ≡ some r
    → held_by (text_of (get "id" e)) owner r ≡ true
    → d.settle_ok ≡ true
    → Runs env (on_claimed p cfg net d subject e req_id owner s).store.lease clock
    → env.now
      ≤ r.first_seen
        + (d.meanwhile
            (run_turn p cfg net d subject e req_id (warned p cfg net subject e s)).1.store).ttl
    → (claim env
        (text_of (get "id" e))
        req'
        (on_claimed p cfg net d subject e req_id owner s).store).0
      ≡ (if (run_turn p cfg net d subject e req_id (warned p cfg net subject e s)).0
          then ok (refused r.req_id)
          else ok (granted req' env.token))
unfolding on_claimed
redelivery p cfg net d subject e req_id owner req' s r env clock u found held can runs t =
    claim_settled p cfg net d subject e owner req'
      (run_turn p cfg net d subject e req_id (warned p cfg net subject e s)).0
      (with_store
        (d.meanwhile (run_turn p cfg net d subject e req_id (warned p cfg net subject e s)).1.store)
        (run_turn p cfg net d subject e req_id (warned p cfg net subject e s)).1)
      r env clock u found held can runs t
