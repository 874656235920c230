-- ===== src/Bus/Ends.antt =====
-- The loop of `find_bus_tags` of yugo/fleet_bus.py, without a bound on its rounds.
use yugo.Base.{
  find_offset, length-drop, ℕ, zero, suc, ◌+◌, ◌<◌, Text, ◌≡◌, true, false, none, some, List, [],
  ◌∷◌, arith, length, drop, Option-cases, Bool-cases, inl, inr, refl, ap, subst,
}
use yugo.Bus.Platform.{Platform}
use yugo.Bus.Tags.{
  BusTag, Step, last, tag, tag_open, read_tag, scan_tags, find_bus_tags, is_other_word,
}
use yugo.Bus.Spans.{StepFits, read_tag_fits, find_offset_fits}

-- `while True` from `index`, with the text from there on: the loop ends, having appended the tags.
-- A derivation has one constructor for each round.
pub data Scans (p : Platform) (size : ℕ) : ℕ → Text → List BusTag → Type 0 where
  no_more : {index : ℕ} {t : Text} → find_offset tag_open t ≡ none → Scans p size index t []
  another_word :
      {index o : ℕ} {t : Text} {tags : List BusTag}
      → find_offset tag_open t ≡ some o
      → is_other_word (drop (o + 4) t) ≡ true
      → Scans p size (index + o + 4) (drop (o + 4) t) tags
      → Scans p size index t tags
  unclosed_tag :
      {index o : ℕ} {t : Text} {b : BusTag}
      → find_offset tag_open t ≡ some o
      → is_other_word (drop (o + 4) t) ≡ false
      → read_tag p size (index + o) (index + o + 4) (drop (o + 4) t) ≡ last b
      → Scans p size index t (b ∷ [])
  closed_tag :
      {index o end : ℕ} {t rest : Text} {b : BusTag} {tags : List BusTag}
      → find_offset tag_open t ≡ some o
      → is_other_word (drop (o + 4) t) ≡ false
      → read_tag p size (index + o) (index + o + 4) (drop (o + 4) t) ≡ tag b end rest
      → Scans p size end rest tags
      → Scans p size index t (b ∷ tags)

module _ (p : Platform) (size : ℕ) where
  -- A round that is at a tag, if the loop ends from where the tag does.
  at_tag :
      {index o : ℕ} {t : Text} (s : Step) (next : ℕ → Text → List BusTag)
      → find_offset tag_open t ≡ some o
      → is_other_word (drop (o + 4) t) ≡ false
      → read_tag p size (index + o) (index + o + 4) (drop (o + 4) t) ≡ s
      → StepFits size (index + o) s
      → ((end : ℕ) (rest : Text)
          → index + o < end
          → end + length rest ≡ size
          → Scans p size end rest (next end rest))
      → Scans p size index t (elim s [ last b ↦ b ∷ [] | tag b end rest ↦ b ∷ next end rest ])
  at_tag (last b) next found a_tag e fits h = unclosed_tag found a_tag e
  at_tag (tag b end rest) next found a_tag e fits h =
      closed_tag found a_tag e (h end rest fits.2 fits.3)

  scan_tags-Scans :
      (fuel index : ℕ) (t : Text)
      → index + length t ≡ size
      → length t < fuel
      → Scans p size index t (scan_tags p fuel size index t)
  unfolding scan_tags
  scan_tags-Scans zero index t e h = elim h [ ]
  scan_tags-Scans (suc fuel) index t e h = elim (Option-cases (find_offset tag_open t)) [
    | inl gone ↦ rw (gone, scan_tags) (no_more gone)
    | inr (o, found) ↦
        let fits = find_offset_fits tag_open t o found in
        let tail = drop (o + 4) t in
        let size_eq : index + o + 4 + length tail ≡ size =
          omega (arith, fits, length-drop (o + 4) t) in
        elim (Bool-cases (is_other_word tail)) [
          | inl other ↦
              rw (found, scan_tags)
                (rw (other, scan_tags)
                  (another_word found other
                    (scan_tags-Scans fuel (index + o + 4) tail size_eq (omega arith))))
          | inr a_tag ↦
              rw (found, scan_tags)
                (rw (a_tag, scan_tags)
                  (at_tag (read_tag p size (index + o) (index + o + 4) tail) (scan_tags p fuel size)
                    found a_tag refl
                    (read_tag_fits p size (index + o) (index + o + 4) tail (omega arith) size_eq)
                    (λ end rest lt eq. scan_tags-Scans fuel end rest eq (omega arith))))
        ]
  ]

  Scans-scan_tags :
      (fuel : ℕ) {index : ℕ} {t : Text} {tags : List BusTag}
      → Scans p size index t tags
      → index + length t ≡ size
      → length t < fuel
      → scan_tags p fuel size index t ≡ tags
  unfolding scan_tags
  Scans-scan_tags zero d e h = elim h [ ]
  Scans-scan_tags (suc fuel) (no_more gone) e h = rw (gone, scan_tags) refl
  Scans-scan_tags (suc fuel) {index} {t} (another_word {o = o} found other d) e h =
      rw (found, scan_tags)
        (rw (other, scan_tags)
          (Scans-scan_tags fuel d
            (omega (arith, e, find_offset_fits tag_open t o found, length-drop (o + 4) t))
            (omega (arith, h, find_offset_fits tag_open t o found, length-drop (o + 4) t))))
  Scans-scan_tags (suc fuel) (unclosed_tag found a_tag read) e h =
      rw (found, scan_tags) (rw (a_tag, scan_tags) (rw read refl))
  Scans-scan_tags (suc fuel) {index} {t} (closed_tag {o = o} {b = b} found a_tag read d) e h =
      let fits =
        read_tag_fits p size (index + o) (index + o + 4) (drop (o + 4) t) (omega arith)
          (omega (arith, e, find_offset_fits tag_open t o found, length-drop (o + 4) t)) in
      let fits' = subst (StepFits size (index + o)) read fits in
      rw (found, scan_tags)
        (rw (a_tag, scan_tags)
          (rw read
            (ap (◌∷◌ b) (Scans-scan_tags fuel d fits'.3 (omega (arith, e, h, fits'.2, fits'.3))))))

-- On every text the loop of `find_bus_tags`, followed round by round and without a bound on the
-- rounds, comes to an end, and the tags that it has appended by then are those that the function
-- returns: the loop does not end with any others.
pub find_bus_tags-Scans :
    (p : Platform) (text : Text)
    → Scans p (length text) 0 text (find_bus_tags p text)
      × ((tags : List BusTag) → Scans p (length text) 0 text tags → find_bus_tags p text ≡ tags)
unfolding find_bus_tags
find_bus_tags-Scans p text = (
  scan_tags-Scans p (length text) (suc (length text)) 0 text (omega arith) (omega arith),
  λ tags d. Scans-scan_tags p (length text) (suc (length text)) d (omega arith) (omega arith),
)
