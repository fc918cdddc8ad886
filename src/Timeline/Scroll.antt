-- ===== src/Timeline/Scroll.antt =====
-- lib/timeline-scroll.ts: what changed between two lists of items, and whether the view follows.
use sub_etha.Prelude.{
  ℕ, ◌+◌, ◌-◌, Text, text_eq, Bool, true, false, ◌&&◌, not, List, [], ◌∷◌, if◌then◌else◌, leb, ltb,
  ◌==◌, length, any, drop, holds,
}
use sub_etha.Timeline.Window.{index_where}

pub data TimelineChangeKind : Type 0 where
  initial append prepend items_change window_shift replace : TimelineChangeKind

pub record TimelineIdentity : Type 0 where
  pub id : Text
  pub is_local : Bool

pub record TimelineChange : Type 0 where
  pub kind : TimelineChangeKind
  pub appended_local_item : Bool

pub data TimelineScrollMode : Type 0 where
  initializing attached detached restoring_history : TimelineScrollMode

pub data TimelineScrollEvent : Type 0 where
  room_change initial_positioned user_detach history_start history_complete local_append :
      TimelineScrollEvent
  bottom_state : (at_bottom : Bool) → TimelineScrollEvent

-- The loop over the previous items, from a place in the next ones.
unfoldable pub same_ids : List TimelineIdentity → List TimelineIdentity → Bool
same_ids [] next = true
same_ids (p ∷ previous) [] = false
same_ids (p ∷ previous) (n ∷ next) = text_eq p.id n.id && same_ids previous next

-- `sameIdsAtOffset`
unfoldable pub same_ids_at_offset : List TimelineIdentity → List TimelineIdentity → ℕ → Bool
unfolding same_ids
same_ids_at_offset previous next offset =
    leb (offset + length previous) (length next) && same_ids previous (drop offset next)

abbrev pub has_id : List TimelineIdentity → TimelineIdentity → Bool
has_id items item = any (λ i. text_eq i.id item.id) items

abbrev pub change : TimelineChangeKind → Bool → TimelineChange
change kind appended = record { kind = kind; appended_local_item = appended }

abbrev pub appended_change : List TimelineIdentity → TimelineChange
appended_change [] = change TimelineChangeKind.items_change false
appended_change (i ∷ items) = change TimelineChangeKind.append (any (λ i. i.is_local) (i ∷ items))

-- `previousOffset === prependedCount && prependedCount > 0`
abbrev pub is_shifted :
    TimelineIdentity → List TimelineIdentity → (previous_index next_index : ℕ) → Bool
is_shifted first next previous_index next_index =
    ltb next_index previous_index
    && holds (λ offset. offset == previous_index - next_index)
        (index_where (λ i. text_eq i.id first.id) next)

-- `classifyTimelineChange`
unfoldable pub classify_timeline_change :
    (previous next : List TimelineIdentity)
    → (previous_first_item_index next_first_item_index : ℕ) → TimelineChange
unfolding same_ids_at_offset index_where
classify_timeline_change [] next previous_index next_index =
    change TimelineChangeKind.initial (any (λ i. i.is_local) next)
classify_timeline_change (p ∷ previous) [] previous_index next_index =
    change TimelineChangeKind.replace false
classify_timeline_change (p ∷ previous) (n ∷ next) previous_index next_index =
    if is_shifted p (n ∷ next) previous_index next_index
      && same_ids_at_offset (p ∷ previous) (n ∷ next) (previous_index - next_index)
    then change TimelineChangeKind.prepend false
    else if same_ids_at_offset (p ∷ previous) (n ∷ next) 0
    then appended_change (drop (length (p ∷ previous)) (n ∷ next))
    else if any (has_id (p ∷ previous)) (n ∷ next)
    then change TimelineChangeKind.window_shift
        (any (λ i. not (has_id (p ∷ previous) i) && i.is_local) (n ∷ next))
    else change TimelineChangeKind.replace false

abbrev pub is_attached : TimelineScrollMode → Bool
is_attached attached = true
is_attached _ = false

abbrev pub follows_kind : TimelineChangeKind → Bool → TimelineScrollMode → Bool
follows_kind prepend appended mode = false
follows_kind _ true mode = true
follows_kind initial false mode = true
follows_kind items_change false mode = false
follows_kind append false mode = is_attached mode
follows_kind window_shift false mode = is_attached mode
follows_kind replace false mode = is_attached mode

-- `shouldFollowTimelineChange`
unfoldable pub should_follow_timeline_change : TimelineChange → TimelineScrollMode → Bool
should_follow_timeline_change c mode = follows_kind c.kind c.appended_local_item mode

-- `transitionTimelineScrollMode`
unfoldable pub transition_timeline_scroll_mode :
    TimelineScrollMode → TimelineScrollEvent → TimelineScrollMode
transition_timeline_scroll_mode mode room_change = initializing
transition_timeline_scroll_mode mode initial_positioned = attached
transition_timeline_scroll_mode mode local_append = attached
transition_timeline_scroll_mode mode (bottom_state true) = attached
transition_timeline_scroll_mode mode (bottom_state false) = detached
transition_timeline_scroll_mode mode user_detach = detached
transition_timeline_scroll_mode mode history_complete = detached
transition_timeline_scroll_mode mode history_start = restoring_history
