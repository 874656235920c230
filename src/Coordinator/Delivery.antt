-- ===== src/Coordinator/Delivery.antt =====
-- What the relay of yugo/coordinator.py promises about each request: no acknowledgement before
-- the inbox has it, and delivery as soon as the broker lets it through.
use yugo.Base.{
  Text, ◌≡◌, ◌≢◌, ◌⊎◌, inl, inr, refl, Bool, true, false, Option, none, some, List, [], ◌∷◌, ◌++◌,
  if◌then◌else◌, Option-cases,
}
use yugo.Coordinator.Guard.{
  Raised, cancelled, connection_closed, timed_out, other_error, value_error, Attempt, returned,
  raises, Guarded, stepped, propagates, is_closed, is_timeout, no_error, guarded_task_step,
}
use yugo.Coordinator.Relay.{
  Message, published, acked, naked, Trace, Round, inbox_subject, noting, after_publish, forward,
  and_then, forward_all, Fetch, run,
}

-- The request is in its inbox: its payload, unchanged, under the subject derived from its own.
abbrev pub WasPublished : Message → Trace → Type 0
WasPublished m [] = ⊥
WasPublished m (published d x ∷ tr) =
    ((inbox_subject m.subject ≡ some d) × (x ≡ m.payload)) ⊎ WasPublished m tr
WasPublished m (acked n ∷ tr) = WasPublished m tr
WasPublished m (naked n ∷ tr) = WasPublished m tr

-- Each acknowledgement comes after the inbox's.
abbrev pub IsOrdered : Trace → Type 0
IsOrdered [] = Unit
IsOrdered (published d x ∷ tr) = IsOrdered tr
IsOrdered (naked m ∷ tr) = IsOrdered tr
IsOrdered (acked m ∷ tr) = WasPublished m tr × IsOrdered tr

abbrev Kept : Option Raised × Trace → Type 0
Kept r = IsOrdered r.1

Attempt-cases : (a : Attempt (Unit {0})) → (a ≡ returned tt) ⊎ ((x : Raised) × (a ≡ raises x))
Attempt-cases (returned tt) = inl refl
Attempt-cases (raises x) = inr (x, refl)

Guarded-cases {ℓ} :
    {A : Type ℓ} (g : Guarded A)
    → ((x : Raised) × (g ≡ propagates x))
      ⊎ ((g ≡ stepped none) ⊎ ((a : A) × (g ≡ stepped (some a))))
Guarded-cases (propagates x) = inl (x, refl)
Guarded-cases (stepped none) = inr (inl refl)
Guarded-cases (stepped (some a)) = inr (inr (a, refl))

after_publish-IsOrdered :
    (m : Message) (r : Round) (d : Text) (tr : Trace) (g : Guarded (Unit {0}))
    → inbox_subject m.subject ≡ some d
    → IsOrdered tr
    → Kept (after_publish m r (noting g (published d m.payload) tr))
after_publish-IsOrdered m r d tr (propagates x) e h = h
after_publish-IsOrdered m r d tr (stepped none) e h =
    elim (Guarded-cases (guarded_task_step no_error is_closed r.nak)) [
      | inl (x, y) ↦ rw y h
      | inr (inl y) ↦ rw y h
      | inr (inr (u, y)) ↦ rw y h
    ]
after_publish-IsOrdered m r d tr (stepped (some u)) e h =
    elim (Guarded-cases (guarded_task_step no_error is_closed r.ack)) [
      | inl (x, y) ↦ rw y h
      | inr (inl y) ↦ rw y h
      | inr (inr (v, y)) ↦ rw y (inl (e, refl), h)
    ]

forward-IsOrdered : (m : Message) (r : Round) (tr : Trace) → IsOrdered tr → Kept (forward m r tr)
unfolding forward
forward-IsOrdered m r tr h = elim (Option-cases (inbox_subject m.subject)) [
  | inl n ↦ rw (n, forward) h
  | inr (d, e) ↦ rw (e, forward) (after_publish-IsOrdered m r d tr _ e h)
]

and_then-IsOrdered :
    (x : Option Raised × Trace) (k : Trace → Option Raised × Trace)
    → Kept x
    → ((tr : Trace) → IsOrdered tr → Kept (k tr))
    → Kept (and_then x k)
and_then-IsOrdered (some x, tr) k h f = h
and_then-IsOrdered (none, tr) k h f = f tr h

forward_all-IsOrdered :
    (ms : List (Message × Round)) (tr : Trace) → IsOrdered tr → Kept (forward_all ms tr)
unfolding forward_all
forward_all-IsOrdered [] tr h = h
forward_all-IsOrdered ((m, r) ∷ ms) tr h =
    and_then-IsOrdered (forward m r tr) _ (forward-IsOrdered m r tr h) (forward_all-IsOrdered ms)

-- However the broker answers, and however long the relay runs: each request that is acknowledged
-- on the trace had before that been stored in its inbox, under the subject of its own recipient
-- and with its payload unchanged, if that held of the trace before.
pub run-IsOrdered : (fs : List Fetch) (tr : Trace) → IsOrdered tr → IsOrdered (run fs tr).1
unfolding run
run-IsOrdered [] tr h = h
run-IsOrdered (f ∷ fs) tr h = elim (Guarded-cases (guarded_task_step is_timeout is_closed f)) [
  | inl (x, y) ↦ rw (y, run) h
  | inr (inl y) ↦ rw (y, run) (run-IsOrdered fs tr h)
  | inr (inr (ms, y)) ↦
      rw (y, run)
        (and_then-IsOrdered (forward_all ms tr) _ (forward_all-IsOrdered ms tr h)
          (run-IsOrdered fs))
]

-- The consumer of JetStream with an explicit acknowledgement, at one request: it redelivers until
-- an acknowledgement has come through; `some` is the error that ends the relay.
abbrev pub ends_acked : Trace → Bool
ends_acked (acked m ∷ tr) = true
ends_acked _ = false

abbrev pub next_delivery :
    Option Raised × Trace → Option Raised × Bool × Trace → Option Raised × Bool × Trace
next_delivery (some x, tr) later = (some x, false, tr)
next_delivery (none, tr) later =
    if ends_acked tr then (none, true, tr) else (later.0, later.1, later.2 ++ tr)

unfoldable pub deliveries : Message → List Round → Option Raised × Bool × Trace
deliveries m [] = (none, false, [])
deliveries m (r ∷ rs) = next_delivery (forward m r []) (deliveries m rs)

-- No call of the round ends the relay.
abbrev pub IsTransient : Attempt (Unit {0}) → Type 0
IsTransient a = (a ≢ raises cancelled) × (a ≢ raises connection_closed)

abbrev pub AllTransient : List Round → Type 0
AllTransient [] = Unit
AllTransient (r ∷ rs) =
    (IsTransient r.publish × IsTransient r.nak × IsTransient r.ack) × AllTransient rs

-- Some round lets both the publication and the acknowledgement through.
abbrev pub SomeOpen : List Round → Type 0
SomeOpen [] = ⊥
SomeOpen (r ∷ rs) = ((r.publish ≡ returned tt) × (r.ack ≡ returned tt)) ⊎ SomeOpen rs

guarded-transient :
    (a : Attempt (Unit {0}))
    → IsTransient a
    → (guarded_task_step no_error is_closed a ≡ stepped none)
      ⊎ (guarded_task_step no_error is_closed a ≡ stepped (some tt))
unfolding guarded_task_step
guarded-transient (returned tt) h = inr refl
guarded-transient (raises cancelled) h = absurd (h.0 refl)
guarded-transient (raises connection_closed) h = absurd (h.1 refl)
guarded-transient (raises timed_out) h = inl refl
guarded-transient (raises other_error) h = inl refl
guarded-transient (raises value_error) h = inl refl

guarded-open :
    (a : Attempt (Unit {0}))
    → a ≡ returned tt
    → guarded_task_step no_error is_closed a ≡ stepped (some tt)
unfolding guarded_task_step
guarded-open a h = rw h refl

-- A round in which nothing ends the relay either leaves the request pending or settles it.
forward-transient :
    (m : Message) (r : Round) (d : Text)
    → inbox_subject m.subject ≡ some d
    → IsTransient r.publish × IsTransient r.nak × IsTransient r.ack
    → (tr : Trace) × (forward m r [] ≡ (none, tr))
      × ((ends_acked tr ≡ false) ⊎ ((ends_acked tr ≡ true) × WasPublished m tr))
unfolding forward
forward-transient m r d e t = elim (guarded-transient r.publish t.0) [
  | inl p ↦ elim (guarded-transient r.nak t.1) [
    | inl n ↦ rw (e, p, n, forward) (_, refl, inl refl)
    | inr n ↦ rw (e, p, n, forward) (_, refl, inl refl)
  ]
  | inr p ↦ elim (guarded-transient r.ack t.2) [
    | inl a ↦ rw (e, p, a, forward) (_, refl, inl refl)
    | inr a ↦ rw (e, p, a, forward) (_, refl, inr (refl, inl (e, refl)))
  ]
]

forward-open :
    (m : Message) (r : Round) (d : Text)
    → inbox_subject m.subject ≡ some d
    → r.publish ≡ returned tt
    → r.ack ≡ returned tt
    → forward m r [] ≡ (none, acked m ∷ published d m.payload ∷ [])
unfolding forward
forward-open m r d e p a = rw (e, guarded-open r.publish p, guarded-open r.ack a, forward) refl

WasPublished-append : (m : Message) (xs ys : Trace) → WasPublished m xs → WasPublished m (xs ++ ys)
WasPublished-append m [] ys h = absurd h
WasPublished-append m (published d x ∷ xs) ys h = elim h [
  | inl a ↦ inl a
  | inr b ↦ inr (WasPublished-append m xs ys b)
]
WasPublished-append m (acked n ∷ xs) ys h = WasPublished-append m xs ys h
WasPublished-append m (naked n ∷ xs) ys h = WasPublished-append m xs ys h

-- A request on a proper subject is delivered: if no call ends the relay, and in some round of the
-- broker's redeliveries both the publication and the acknowledgement come through, then the
-- request is acknowledged in the end and stands in its inbox, whatever failed before.
pub deliveries-WasPublished :
    (m : Message) (rs : List Round) (d : Text)
    → inbox_subject m.subject ≡ some d
    → AllTransient rs
    → SomeOpen rs
    → ((deliveries m rs).0 ≡ none)
      × ((deliveries m rs).1 ≡ true)
      × WasPublished m (deliveries m rs).2
unfolding deliveries
deliveries-WasPublished m [] d e t o = absurd o
deliveries-WasPublished m (r ∷ rs) d e t (inl o) =
    rw (forward-open m r d e o.0 o.1, deliveries) (refl, refl, inl (e, refl))
deliveries-WasPublished m (r ∷ rs) d e t (inr o) =
    let (a, b, c) = deliveries-WasPublished m rs d e t.1 o in
    let (tr, now, cases) = forward-transient m r d e t.0 in
    elim cases [
      | inl pending ↦
          rw (now, pending, deliveries) (a, b, WasPublished-append m (deliveries m rs).2 tr c)
      | inr (done, was) ↦ rw (now, done, deliveries) (refl, refl, was)
    ]
