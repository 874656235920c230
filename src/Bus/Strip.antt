-- ===== src/Bus/Strip.antt =====
-- What `strip_bus_tags` of yugo/fleet_bus.py takes away.
use yugo.Base.{
  length-drop, length-take, ℕ, ◌+◌, ◌-◌, ◌≤◌, Text, ◌≡◌, List, [], ◌∷◌, arith, length, drop,
  length-append,
}
use yugo.Bus.Platform.{Platform}
use yugo.Bus.Tags.{BusTag, find_bus_tags, slice, strip_from, strip_bus_tags}
use yugo.Bus.Spans.{Spans, find_bus_tags_spans}

-- How much of the text the tags take up.
pub covered : List BusTag → ℕ
covered [] = 0
covered (b ∷ tags) = (b.end - b.start) + covered tags

hi_bound : (lo hi : ℕ) (tags : List BusTag) → Spans lo hi tags → lo ≤ hi
hi_bound lo hi [] s = s
hi_bound lo hi (b ∷ tags) s = omega (arith, hi_bound b.end hi tags s.2)

length-strip_from :
    (lo : ℕ) (text : Text) (tags : List BusTag)
    → Spans lo (length text) tags
    → length (strip_from lo text tags) + covered tags ≡ length text - lo
unfolding strip_from covered
length-strip_from lo text [] s = omega (arith, length-drop lo text)
length-strip_from lo text (b ∷ tags) s = omega (
  arith,
  length-append (slice lo b.start text) (strip_from b.end text tags),
  length-take (b.start - lo) (drop lo text),
  length-drop lo text,
  length-strip_from b.end text tags s.2,
  hi_bound b.end (length text) tags s.2,
)

-- The length of what `strip_bus_tags` leaves and the lengths of the spans that were found add up
-- to the length of the text.
pub length-strip_bus_tags :
    (p : Platform) (text : Text)
    → length (strip_bus_tags text (find_bus_tags p text)) + covered (find_bus_tags p text)
      ≡ length text
unfolding strip_bus_tags
length-strip_bus_tags p text =
    omega (arith, length-strip_from 0 text (find_bus_tags p text) (find_bus_tags_spans p text))
