-- ===== src/History/Bounds.antt =====
-- The bound and the order of eviction of yugo/history.py, and the isolation of its threads.
use yugo.Base.{
  starts_with, length-drop, ℕ, zero, suc, ◌+◌, ◌-◌, ◌*◌, ◌≤◌, ◌≡◌, refl, ap, sym, ◌∙◌, Text,
  text_eq_iff, text_eq_refl, true, false, Bool-cases, inl, inr, List, [], ◌∷◌, ◌++◌, length, drop,
  length-append, arith, all_of, ◌==◌, ltb, ltb→lt, ◌<◌,
}
use yugo.History.{
  entry, system, user, Entry, ThreadKey, channel, named, same_key, History, store_of, put_store,
  evict, turn, recorded, record_turn, build_messages, bus_thread_key, is_compactable, allowed_role,
}

suc-sub : (r n : ℕ) → r < suc n → suc n - r ≡ suc (n - r)
suc-sub r n lt = omega arith

sub-zero : (a b : ℕ) → a ≤ b → a - b ≡ 0
sub-zero a b le = omega arith

evict-eq-drop : (room : ℕ) (s : List Entry) → evict room s ≡ drop (length s - room) s
unfolding evict
evict-eq-drop room [] = ground arith
evict-eq-drop room (e ∷ s) = elim (Bool-cases (ltb room (length (e ∷ s)))) [
  | inl y ↦ rw (y) (
      evict-eq-drop room s
      ∙ ap (λ n. drop n (e ∷ s)) (sym (suc-sub room (length s) (ltb→lt _ _ y))))
  | inr n ↦ rw (n) (ap (λ n. drop n (e ∷ s)) (sym (sub-zero (length (e ∷ s)) room (ground arith))))
]

same_key_refl : (k : ThreadKey) → same_key k k ≡ true
unfolding same_key
same_key_refl (channel n) = ground arith
same_key_refl (named t) = text_eq_refl t

same_key_sound : (k k' : ThreadKey) → same_key k k' ≡ true → k ≡ k'
unfolding same_key
same_key_sound (channel a) (channel b) h = ground arith
same_key_sound (channel a) (named b) h = ground arith
same_key_sound (named a) (channel b) h = ground arith
same_key_sound (named a) (named b) h = ground (arith, text_eq_iff a b)

store_of-put_store :
    (k : ThreadKey) (s : List Entry) (h : History) → store_of k (put_store k s h) ≡ s
unfolding store_of put_store
store_of-put_store k s [] = ground (arith, same_key_refl k)
store_of-put_store k s ((k', s') ∷ h) = ground (arith, same_key_refl k, store_of-put_store k s h)

drop-append {ℓ} :
    {A : Type ℓ} (n : ℕ) (xs ys : List A) → n ≤ length xs → drop n (xs ++ ys) ≡ drop n xs ++ ys
drop-append zero xs ys le = refl
drop-append (suc n) [] ys le = ground arith
drop-append (suc n) (x ∷ xs) ys le = drop-append n xs ys (omega arith)

drop-nil {ℓ} : {A : Type ℓ} (n : ℕ) → drop {A = A} n [] ≡ []
drop-nil zero = refl
drop-nil (suc n) = refl

suc_add : (a b : ℕ) → suc (a + b) ≡ suc a + b
suc_add a b = omega arith

drop-drop {ℓ} : {A : Type ℓ} (a b : ℕ) (xs : List A) → drop a (drop b xs) ≡ drop (b + a) xs
drop-drop a zero xs = ground arith
drop-drop a (suc b) [] = drop-nil a ∙ sym (drop-nil (suc b + a))
drop-drop a (suc b) (x ∷ xs) = drop-drop a b xs ∙ ap (λ n. drop n (x ∷ xs)) (suc_add b a)

positive : (n : ℕ) → 1 ≤ n → (n == 0) ≡ false
positive n le = ground arith

-- A completed turn on a positive bound is recorded, and the thread's store is then the turn
-- after what the old store keeps of its end: as much as leaves at most `max_turns * 2` entries,
-- in their order.
pub record_turn_fifo :
    (k : ThreadKey) (max_turns : ℕ) (u a : Text) (h : History)
    → 1 ≤ max_turns
    → (record_turn k max_turns u a h).0 ≡ recorded
      × store_of k (record_turn k max_turns u a h).1
        ≡ drop (length (store_of k h) - (max_turns * 2 - 2)) (store_of k h) ++ turn u a
      × length (store_of k (record_turn k max_turns u a h).1) ≤ max_turns * 2
unfolding record_turn all_of allowed_role
record_turn_fifo k max_turns u a h le =
    let e = evict-eq-drop (max_turns * 2 - 2) (store_of k h) in
    let n = length-drop (length (store_of k h) - (max_turns * 2 - 2)) (store_of k h) in
    rw (positive max_turns le, store_of-put_store k, e)
      (
        refl,
        refl,
        omega (
          arith,
          n,
          length-append (drop (length (store_of k h) - (max_turns * 2 - 2)) (store_of k h))
              (turn u a),
        ),
      )

store_of-put_other :
    (k k' : ThreadKey) (s : List Entry) (h : History)
    → same_key k' k ≡ false
    → store_of k' (put_store k s h) ≡ store_of k' h
unfolding store_of put_store
store_of-put_other k k' s [] ne = ground (arith, ne)
store_of-put_other k k' s ((k'', s') ∷ h) ne = elim (Bool-cases (same_key k k'')) [
  | inl y ↦ ground (arith, same_key_sound k k'' y)
  | inr n ↦ ground (arith, store_of-put_other k k' s h ne)
]

-- The entries of the turns in order, and the history after they have all been recorded.
unfoldable pub entries : List (Text × Text) → List Entry
entries [] = []
entries ((u, a) ∷ ts) = turn u a ++ entries ts

unfoldable pub record_all : ThreadKey → ℕ → List (Text × Text) → History → History
record_all k max_turns [] h = h
record_all k max_turns ((u, a) ∷ ts) h = record_all k max_turns ts (record_turn k max_turns u a h).1

append_assoc : (xs ys zs : List Entry) → (xs ++ ys) ++ zs ≡ xs ++ (ys ++ zs)
append_assoc [] ys zs = refl
append_assoc (x ∷ xs) ys zs = ap (λ l. x ∷ l) (append_assoc xs ys zs)

append-nil : (xs : List Entry) → xs ++ [] ≡ xs
append-nil [] = refl
append-nil (x ∷ xs) = ap (λ l. x ∷ l) (append-nil xs)

store_of-nil : (k : ThreadKey) → store_of k [] ≡ []
unfolding store_of
store_of-nil k = refl

apart :
    (peer : Text) (n : ℕ)
    → (same_key (channel n) (bus_thread_key peer) ≡ false)
      × (same_key (bus_thread_key peer) (channel n) ≡ false)
unfolding same_key bus_thread_key
apart peer n = (refl, refl)

record_turn-other :
    (k k' : ThreadKey) (m : ℕ) (u a : Text) (h : History)
    → same_key k' k ≡ false
    → store_of k' (record_turn k m u a h).1 ≡ store_of k' h
unfolding record_turn all_of allowed_role
record_turn-other k k' m u a h ne = elim (Bool-cases (m == 0)) [
  | inl y ↦ rw (y) (store_of-put_other k k' [] h ne)
  | inr n ↦ rw (n) (store_of-put_other k k' _ h ne)
]

-- The last `n` entries of a list.
abbrev pub last_of : ℕ → List Entry → List Entry
last_of n xs = drop (length xs - n) xs

last_of-turn :
    (b : ℕ) (xs : List Entry) (u a : Text)
    → 2 ≤ b
    → drop (length (last_of b xs) - (b - 2)) (last_of b xs) ++ turn u a ≡ last_of b (xs ++ turn u a)
last_of-turn b xs u a two =
    let k = length xs - b in
    let l = length-drop k xs in
    let m : k + (length (drop k xs) - (b - 2)) ≡ length (xs ++ turn u a) - b =
      omega (arith, l, length-append xs (turn u a)) in
    let le : length (xs ++ turn u a) - b ≤ length xs = omega (arith, length-append xs (turn u a)) in
    ap (λ l. l ++ turn u a) (drop-drop (length (drop k xs) - (b - 2)) k xs ∙ ap (λ i. drop i xs) m)
    ∙ sym (drop-append (length (xs ++ turn u a) - b) xs (turn u a) le)

record_all-from :
    (k : ThreadKey) (m : ℕ) (ts : List (Text × Text)) (xs : List Entry) (h : History)
    → 1 ≤ m
    → store_of k h ≡ last_of (m * 2) xs
    → store_of k (record_all k m ts h) ≡ last_of (m * 2) (xs ++ entries ts)
unfolding record_all entries
record_all-from k m [] xs h le e = e ∙ ap (last_of (m * 2)) (sym (append-nil xs))
record_all-from k m ((u, a) ∷ ts) xs h le e =
    let fifo = record_turn_fifo k m u a h le in
    let step =
      fifo.1
      ∙ ap (λ s. drop (length s - (m * 2 - 2)) s ++ turn u a) e
      ∙ last_of-turn (m * 2) xs u a (omega arith) in
    record_all-from k m ts (xs ++ turn u a) (record_turn k m u a h).1 le step
    ∙ ap (last_of (m * 2)) (append_assoc xs (turn u a) (entries ts))

-- From an empty history, after any number of completed turns of a thread on a positive bound,
-- what the next model call sees of the thread is the system message, then exactly the last
-- `max_turns * 2` entries of all the turns, oldest first, then the new user text.
pub build_messages-record_all :
    (k : ThreadKey) (max_turns : ℕ) (ts : List (Text × Text)) (persona text : Text)
    → 1 ≤ max_turns
    → build_messages persona k text (record_all k max_turns ts [])
      ≡ entry system persona ∷ (last_of (max_turns * 2) (entries ts) ++ (entry user text ∷ []))
unfolding build_messages
build_messages-record_all k m ts persona text le =
    ap (λ s. entry system persona ∷ (s ++ (entry user text ∷ [])))
      (record_all-from k m ts [] [] le (store_of-nil k ∙ sym (drop-nil (0 - m * 2))))

-- Whatever a peer bot's turn records, and whether it succeeds or raises, the model call of a
-- Discord channel sees what it saw before, and the reverse; of the two stores only the channel's
-- may be compacted.
pub bus_isolation :
    (peer : Text) (n max_turns : ℕ) (u a persona text : Text) (h : History)
    → (build_messages persona (channel n) text (record_turn (bus_thread_key peer) max_turns u a h).1
        ≡ build_messages persona (channel n) text h)
      × (build_messages persona
            (bus_thread_key peer)
            text
            (record_turn (channel n) max_turns u a h).1
          ≡ build_messages persona (bus_thread_key peer) text h)
      × (is_compactable (bus_thread_key peer) ≡ false)
      × (is_compactable (channel n) ≡ true)
unfolding build_messages bus_thread_key is_compactable starts_with
bus_isolation peer n m u a persona text h = (
  ap (λ s. entry system persona ∷ (s ++ (entry user text ∷ [])))
      (record_turn-other (bus_thread_key peer) (channel n) m u a h (apart peer n).0),
  ap (λ s. entry system persona ∷ (s ++ (entry user text ∷ [])))
      (record_turn-other (channel n) (bus_thread_key peer) m u a h (apart peer n).1),
  refl,
  refl,
)
