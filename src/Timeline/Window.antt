-- ===== src/Timeline/Window.antt =====
-- lib/timeline-window.ts: the index of the first item after older ones are put in front.
use sub_etha.Prelude.{
  ℕ, suc, ◌-◌, Text, text_eq, Bool, List, [], ◌∷◌, Option, none, some, if◌then◌else◌,
}

-- `xs.findIndex(p)`; `none` is -1.
unfoldable pub index_where {ℓ} : {A : Type ℓ} → (A → Bool) → List A → Option ℕ
index_where p [] = none
index_where p (x ∷ xs) =
    if p x then some 0 else elim (index_where p xs) [ none ↦ none | some n ↦ some (suc n) ]

abbrev pub or_zero : Option ℕ → ℕ
or_zero none = 0
or_zero (some n) = n

-- `countPrependedTimelineItems`; an empty identifier counts as none.
unfoldable pub count_prepended_timeline_items : Option Text → List Text → ℕ
unfolding index_where
count_prepended_timeline_items none next_item_ids = 0
count_prepended_timeline_items (some []) next_item_ids = 0
count_prepended_timeline_items (some (c ∷ id)) next_item_ids =
    or_zero (index_where (text_eq (c ∷ id)) next_item_ids)

-- `timelineStartIndexAfterPrepend`; `-` on ℕ stops at 0.
unfoldable pub timeline_start_index_after_prepend : ℕ → Option Text → List Text → ℕ
unfolding count_prepended_timeline_items
timeline_start_index_after_prepend current_start_index previous_first_item_id next_item_ids =
    current_start_index - count_prepended_timeline_items previous_first_item_id next_item_ids
