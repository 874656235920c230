-- ===== src/Tests/History.antt =====
-- A conversation with a bound of two turns.
use yugo.Base.{
  ◌≤◌, ◌≡◌, ◌*◌, ◌-◌, ◌++◌, Text, codes, true, false, List, [], ◌∷◌, length, drop, arith,
}
use yugo.History.{
  channel, entry, system, user, store_of, turn, record_turn, recorded, build_messages,
  bus_thread_key, is_compactable,
}
use yugo.History.Bounds.{
  record_turn_fifo, build_messages-record_all, bus_isolation, entries, record_all,
}

abbrev said : List (Text × Text)
said = (codes "a", codes "b") ∷ (codes "c", codes "d") ∷ (codes "e", codes "f") ∷ []

record_turn_fifo_example :
    ((record_turn (channel 7) 2 (codes "g") (codes "h") (record_all (channel 7) 2 said [])).0
      ≡ recorded)
    × (store_of
          (channel 7)
          (record_turn (channel 7) 2 (codes "g") (codes "h") (record_all (channel 7) 2 said [])).1
        ≡ drop
            (length (store_of (channel 7) (record_all (channel 7) 2 said [])) - (2 * 2 - 2))
            (store_of (channel 7) (record_all (channel 7) 2 said []))
          ++ turn (codes "g") (codes "h"))
    × (length (
          store_of
            (channel 7)
            (record_turn
              (channel 7)
              2
              (codes "g")
              (codes "h")
              (record_all (channel 7) 2 said [])).1)
        ≤ 2 * 2)
record_turn_fifo_example =
    record_turn_fifo (channel 7) 2 (codes "g") (codes "h") (record_all (channel 7) 2 said [])
      (omega arith)

build_messages-record_all_example :
    build_messages (codes "p") (channel 7) (codes "t") (record_all (channel 7) 2 said [])
    ≡ entry system (codes "p")
      ∷ (turn (codes "c") (codes "d")
          ++ (turn (codes "e") (codes "f") ++ (entry user (codes "t") ∷ [])))
unfolding entries
build_messages-record_all_example =
    build_messages-record_all (channel 7) 2 said (codes "p") (codes "t") (omega arith)

bus_isolation_example :
    (build_messages
        (codes "p")
        (channel 7)
        (codes "t")
        (record_turn
          (bus_thread_key (codes "ohm"))
          2
          (codes "u")
          (codes "a")
          (record_all (channel 7) 2 said [])).1
      ≡ build_messages (codes "p") (channel 7) (codes "t") (record_all (channel 7) 2 said []))
    × (build_messages
          (codes "p")
          (bus_thread_key (codes "ohm"))
          (codes "t")
          (record_turn (channel 7) 2 (codes "u") (codes "a") (record_all (channel 7) 2 said [])).1
        ≡ build_messages
            (codes "p")
            (bus_thread_key (codes "ohm"))
            (codes "t")
            (record_all (channel 7) 2 said []))
    × (is_compactable (bus_thread_key (codes "ohm")) ≡ false)
    × (is_compactable (channel 7) ≡ true)
bus_isolation_example =
    bus_isolation (codes "ohm") 7 2 (codes "u") (codes "a") (codes "p") (codes "t")
      (record_all (channel 7) 2 said [])
