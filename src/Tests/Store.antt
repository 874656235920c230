-- ===== src/Tests/Store.antt =====
-- The claim store: two bots contend for one envelope.
use yugo.Base.{
  ◌↔◌, ℕ, zero, suc, length, ◌+◌, ◌≤◌, Text, codes, text_eq, strip, ◌≡◌, refl, true, some, List, [],
  ◌∷◌, arith, keep_where, count_where, map_where, min,
}
use yugo.Dedup.Table.{
  is_expired, Row, Table, completed, find, delete_where, insert_or_ignore, delete_oldest,
}
use yugo.Dedup.Clock.{ok, LeaseClock, lease_clock, read_boot_id, valid_boot_id, valid_metadata}
use yugo.Dedup.Store
use yugo.Dedup.Store.{autocommit_loop, Store, Env, Claim, granted, refused, finish, prune}
use yugo.Dedup.Run.{Op, step, run, run-IsUnique}
use yugo.Dedup.Find.{IsUnique}
use yugo.Dedup.Spec.{claim_spec, renew_spec}
use yugo.Dedup.Ops.{seen, claim-claim_spec, renew-renew_spec}
use yugo.Dedup.Prune.{prune-eq-delete_oldest}
use yugo.Dedup.Swept.{prune_count, prune_keeps, prune_oldest_first}
use yugo.Dedup.Atomic.{Leaves, raises, raises-Leaves}
use yugo.Dedup.Lease.{
  IsLeased, Runs, IsFenced, lease_exclusive, wall_clock_irrelevant, stale_owner-IsFenced,
}
use yugo.Dedup.Completed.{completed_suppresses, completed_expires}

abbrev pub boot : Text
boot = codes "6f1d2c3b-0a1b-4c5d-8e9f-001122334455"

-- A minute's lease, eight days of TTL.
abbrev pub empty : Store
empty = record { rows = []; claims = 0; ttl = 691200000000; lease = 60000000 }

abbrev pub vec : Env
vec = record {
  now = 1000000;
  boot_file = some boot;
  mono_ns = 5000000000;
  token = codes "a1";
  begin_ok = true;
  commit_ok = true;
}

abbrev pub ohm : Env
ohm = record vec { mono_ns = 65000000000; token = codes "b2" }

abbrev pub env_1 : Text
env_1 = codes "env-1"

abbrev pub vec_clock : LeaseClock
vec_clock = record { boot = boot; mono = 5000; deadline = 65000 }

abbrev pub ohm_clock : LeaseClock
ohm_clock = record { boot = boot; mono = 65000; deadline = 125000 }

program : Unit {0}
unfolding lease_clock read_boot_id valid_boot_id strip text_eq find delete_where insert_or_ignore
    delete_oldest keep_where count_where map_where Store.claim Store.complete Store.renew
    Store.release run step valid_metadata prune Store.prune_loop
program = tt

vec_gets : (Store.claim vec env_1 (codes "r1") empty).0 ≡ ok (granted (codes "r1") (codes "a1"))
unfolding program
vec_gets = refl

vec-Runs : Runs vec 60000000 vec_clock
unfolding program
vec-Runs = record { begun = refl; commits = refl; reads = refl }

ohm-Runs : Runs ohm (Store.claim vec env_1 (codes "r1") empty).1.lease ohm_clock
unfolding program
ohm-Runs = record { begun = refl; commits = refl; reads = refl }

start : IsUnique empty.rows
start = tt

-- At 65 seconds of the monotonic clock the lease of `vec` is over.
lease_exclusive_example :
    (Store.claim ohm env_1 (codes "r2") (Store.claim vec env_1 (codes "r1") empty).1).0
    ≡ ok (granted (codes "r1") (codes "b2"))
unfolding program
lease_exclusive_example =
    lease_exclusive vec ohm vec_clock ohm_clock env_1 (codes "r1") (codes "r2") empty
      (granted (codes "r1") (codes "a1")) start vec-Runs refl refl ohm-Runs refl

abbrev pub vec_row : Row
vec_row = Store.fresh_row vec vec_clock 60000000 env_1 (codes "r1")

abbrev pub leased : Store
leased = record empty { rows = vec_row ∷ [] }

leased-IsUnique : IsUnique leased.rows
unfolding program
leased-IsUnique = (refl, tt)

vec-IsLeased : IsLeased vec_row boot 65000
unfolding program
vec-IsLeased = record {
  is_pending = refl;
  boot_lem = refl;
  until_lem = refl;
  boot_valid = refl;
  positive = omega arith;
  in_range = omega arith;
}

ohm_reads : Runs ohm 60000000 ohm_clock
unfolding program
ohm_reads = record { begun = refl; commits = refl; reads = refl }

wall_clock_irrelevant_example :
    (Store.claim (record ohm { now = 99999999999999 }) env_1 (codes "r2") leased).0
    ≡ (Store.claim ohm env_1 (codes "r2") leased).0
unfolding program
wall_clock_irrelevant_example =
    wall_clock_irrelevant ohm ohm_clock env_1 (codes "r2") leased vec_row boot 65000 99999999999999
      leased-IsUnique ohm_reads refl vec-IsLeased

stale_owner-IsFenced_example :
    (r : Row) × (find env_1 (Store.claim ohm env_1 (codes "r2") leased).1.rows ≡ some r)
    × IsFenced ohm env_1 (codes "a1") r (Store.claim ohm env_1 (codes "r2") leased).1
    × (seen env_1
          (Store.complete true env_1 (codes "b2") (Store.claim ohm env_1 (codes "r2") leased).1)
        ≡ (ok true, some (finish r)))
unfolding program
stale_owner-IsFenced_example =
    stale_owner-IsFenced ohm ohm ohm_clock ohm_clock env_1 (codes "r2") (codes "a1") leased
      (granted (codes "r1") (codes "b2")) leased-IsUnique ohm_reads refl refl ohm_reads
      (λ e. text_differ e)
  where
    text_differ : codes "b2" ≡ codes "a1" → ⊥
    text_differ e = ground arith

abbrev later : Env
later = record ohm { now = 691201000000 }

later_reads : Runs later 60000000 ohm_clock
unfolding program
later_reads = record { begun = refl; commits = refl; reads = refl }

abbrev traffic : List Op
traffic =
    Op.claim ohm env_1 (codes "r2")
    ∷ Op.release true env_1 (codes "a1")
    ∷ Op.prune_idle (some 0) 5
    ∷ []

completed_suppresses_example :
    ((Store.claim later env_1
        (codes "r3")
        (run traffic (Store.complete true env_1 (codes "a1") leased).1)).0
      ≡ ok (refused (codes "r1")))
    × IsFenced later env_1
        (codes "a1")
        (finish vec_row)
        (run traffic (Store.complete true env_1 (codes "a1") leased).1)
unfolding program Store.prune_idle
completed_suppresses_example =
    completed_suppresses env_1 (codes "a1") (codes "a1") (codes "r3") leased vec_row traffic later
      ohm_clock leased-IsUnique refl refl (omega arith) later_reads (omega arith)

abbrev done : Store
done = record empty { rows = finish vec_row ∷ [] }

abbrev expired_env : Env
expired_env = record ohm { now = 691201000001 }

completed_expires_example :
    (Store.claim expired_env env_1 (codes "r3") done).0 ≡ ok (granted (codes "r3") (codes "b2"))
unfolding program
completed_expires_example =
    completed_expires env_1 (codes "r3") done (finish vec_row) expired_env ohm_clock (refl, tt) refl
      refl (omega arith) (record { begun = refl; commits = refl; reads = refl })

claim-claim_spec_example :
    seen env_1 (Store.claim ohm env_1 (codes "r2") leased)
    ≡ claim_spec ohm 691200000000 60000000 env_1 (codes "r2") (find env_1 leased.rows)
claim-claim_spec_example = claim-claim_spec ohm env_1 (codes "r2") leased leased-IsUnique

renew-renew_spec_example :
    seen env_1 (Store.renew ohm env_1 (codes "a1") leased)
    ≡ renew_spec ohm 60000000 env_1 (codes "a1") (find env_1 leased.rows)
renew-renew_spec_example = renew-renew_spec ohm env_1 (codes "a1") leased leased-IsUnique

run-IsUnique_example : IsUnique (run traffic leased).rows
run-IsUnique_example = run-IsUnique traffic leased leased-IsUnique

abbrev old_row : ℕ → Text → Row
old_row t e = record vec_row { envelope_id = e; first_seen = t; state = completed }

abbrev backlog : Table
backlog = old_row 7 (codes "x") ∷ old_row 3 (codes "y") ∷ vec_row ∷ []

backlog-IsUnique : IsUnique backlog
unfolding program
backlog-IsUnique = (refl, (refl, (refl, tt)))

abbrev many_rows : ℕ → Table
many_rows zero = []
many_rows (suc n) = old_row n (n ∷ []) ∷ many_rows n

prune-eq-delete_oldest_example : prune 99 10 1 backlog ≡ delete_oldest 1 99 10 backlog
prune-eq-delete_oldest_example = prune-eq-delete_oldest 99 10 1 backlog

prune_count_example :
    ((prune 99 10 1 backlog).1 ≡ min 1 (count_where (is_expired 99 10) backlog))
    × (count_where (is_expired 99 10) (prune 99 10 1 backlog).0 + (prune 99 10 1 backlog).1
        ≡ count_where (is_expired 99 10) backlog)
prune_count_example = prune_count 99 10 1 backlog backlog-IsUnique

prune_keeps_example :
    (find env_1 (prune 99 10 1 backlog).0 ≡ some vec_row) ↔ (find env_1 backlog ≡ some vec_row)
prune_keeps_example = prune_keeps 99 10 1 backlog env_1 vec_row backlog-IsUnique refl

prune_oldest_first_example : (old_row 3 (codes "y")).first_seen ≤ (old_row 7 (codes "x")).first_seen
unfolding program
prune_oldest_first_example =
    prune_oldest_first 99 10 1 backlog (codes "y") (codes "x") (old_row 3 (codes "y"))
      (old_row 7 (codes "x")) backlog-IsUnique refl refl refl refl

-- The second DELETE of a pruning raises: the hundred rows before it are gone.
raises-Leaves_example :
    Leaves (Op.prune_idle (some 1) 999) (record leased { ttl = 10; rows = many_rows 101 })
unfolding program raises Store.prune_idle autocommit_loop
raises-Leaves_example =
    raises-Leaves (Op.prune_idle (some 1) 999) (record leased { ttl = 10; rows = many_rows 101 })
      refl

prune_idle_left :
    (length
      (Store.prune_idle (some 1) 999 (record leased { ttl = 10; rows = many_rows 101 })).1.rows)
    ≡ 1
unfolding Store.prune_idle autocommit_loop program
prune_idle_left = refl
