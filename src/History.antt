-- ===== src/History.antt =====
-- yugo/history.py: the rolling conversation history of each thread.
use yugo.Base.{
  starts_with, ℕ, zero, suc, ◌-◌, ◌*◌, Text, codes, text_eq, Bool, true, false, not, ◌==◌, List, [],
  ◌∷◌, ◌++◌, length, ltb, all_of, if◌then◌else◌,
}
pub mod Bounds

pub data Role : Type 0 where
  system : Role
  user : Role
  assistant : Role

pub record Entry : Type 0 where
  pub role : Role
  pub content : Text

-- `ThreadKey`: an `int` of Discord or a prefixed `str`.
pub data ThreadKey : Type 0 where
  channel : ℕ → ThreadKey
  named : Text → ThreadKey

unfoldable pub same_key : ThreadKey → ThreadKey → Bool
same_key (channel a) (channel b) = a == b
same_key (named a) (named b) = text_eq a b
same_key _ _ = false

abbrev pub bus_thread_prefix : Text
bus_thread_prefix = codes "bus:"

unfoldable pub bus_thread_key : Text → ThreadKey
bus_thread_key from_claim = named (bus_thread_prefix ++ from_claim)

unfoldable pub is_compactable : ThreadKey → Bool
unfolding starts_with
is_compactable (channel n) = true
is_compactable (named t) = not (starts_with bus_thread_prefix t)

-- `_history`, keyed by thread; a thread without a key has no store yet.
abbrev pub History : Type 0
History = List (ThreadKey × List Entry)

-- `_history.get(thread_id, ())`
unfoldable pub store_of : ThreadKey → History → List Entry
unfolding same_key
store_of k [] = []
store_of k ((k', s) ∷ h) = let rest = store_of k h in if same_key k k' then s else rest

-- Python's assignment to a key: in place, or a new key at the end.
unfoldable pub put_store : ThreadKey → List Entry → History → History
unfolding same_key
put_store k s [] = (k, s) ∷ []
put_store k s ((k', s') ∷ h) =
    let rest = put_store k s h in if same_key k k' then (k', s) ∷ h else (k', s') ∷ rest

abbrev pub entry : Role → Text → Entry
entry r t = record { role = r; content = t }

unfoldable pub build_messages : Text → ThreadKey → Text → History → List Entry
unfolding store_of
build_messages persona k user_text h =
    entry system persona ∷ (store_of k h ++ (entry user user_text ∷ []))

-- `while len(store) > room: del store[0]`, by recursion on the store; on an empty store with
-- `room` below 0 the source raises IndexError, see `record_turn`.
unfoldable pub evict : ℕ → List Entry → List Entry
evict room [] = []
evict room (e ∷ s) = let rest = evict room s in if ltb room (length (e ∷ s)) then rest else e ∷ s

abbrev pub turn : Text → Text → List Entry
turn user_text assistant_text = entry user user_text ∷ entry assistant assistant_text ∷ []

-- ALLOWED_ROLES
unfoldable pub allowed_role : Role → Bool
allowed_role system = false
allowed_role user = true
allowed_role assistant = true

pub data Recorded : Type 0 where
  recorded : Recorded
  value_error : Recorded
  index_error : Recorded

-- What it returns or raises, and the history it leaves. With `max_turns` 0 the loop empties the
-- store and goes on to `del store[0]` on the empty list, which raises.
unfoldable pub record_turn : ThreadKey → ℕ → Text → Text → History → Recorded × History
unfolding store_of put_store evict allowed_role
record_turn k max_turns user_text assistant_text h =
    if all_of (λ e. allowed_role e.role) (turn user_text assistant_text)
    then (if max_turns == 0 then (index_error, put_store k [] h) else (
      recorded,
      put_store k (evict (max_turns * 2 - 2) (store_of k h) ++ turn user_text assistant_text) h,
    ))
    else (value_error, h)
