-- ===== src/Timeline/Tests.antt =====
-- Older items in front of a list of two.
use sub_etha.Prelude.{
  ◌+◌, ◌≡◌, refl, Text, codes, text_eq, false, List, [], ◌∷◌, any, length, arith,
}
use sub_etha.Timeline.Scroll.{
  TimelineChangeKind, TimelineIdentity, TimelineScrollMode, classify_timeline_change,
  should_follow_timeline_change,
}
use sub_etha.Timeline.Prepend.{index_after, prepend_keeps_place}

abbrev item : Text → TimelineIdentity
item id = record { id = id; is_local = false }

abbrev shown : List TimelineIdentity
shown = item (codes "$c") ∷ item (codes "$d") ∷ []

abbrev extended : List TimelineIdentity
extended = item (codes "$a") ∷ item (codes "$b") ∷ shown

is_fresh : any (λ i. text_eq i.id (codes "$c")) (item (codes "$a") ∷ item (codes "$b") ∷ []) ≡ false
unfolding text_eq
is_fresh = refl

prepend_keeps_place_example :
    (index_after 1000000 (item (codes "$c")) extended
        + length (item (codes "$a") ∷ item (codes "$b") ∷ [])
      ≡ 1000000)
    × ((classify_timeline_change shown extended 1000000
          (index_after 1000000 (item (codes "$c")) extended)).kind
        ≡ TimelineChangeKind.prepend)
    × (should_follow_timeline_change
          (classify_timeline_change shown extended 1000000
            (index_after 1000000 (item (codes "$c")) extended))
          TimelineScrollMode.attached
        ≡ false)
prepend_keeps_place_example =
    prepend_keeps_place 1000000 (item (codes "$a")) (item (codes "$b") ∷ [])
      (item (codes "$d") ∷ []) [] b'$' (codes "c") false TimelineScrollMode.attached is_fresh
      (omega arith)
