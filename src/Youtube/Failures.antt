-- ===== src/Youtube/Failures.antt =====
-- `BoundedYouTubeThumbnailFailureStore` of lib/youtube-preview.ts: a set in its order of insertion.
use sub_etha.Prelude.{
  ℕ, suc, ◌≤◌, ◌≡◌, Text, text_eq, text_eq_refl, text_eq_comm, Bool, true, List, [], ◌∷◌, ◌++◌,
  if◌then◌else◌, ltb, length, any, arith, Keyed, Keyed-append, any-append, if_intro,
}

abbrev pub youtube_preview_failure_capacity : ℕ
youtube_preview_failure_capacity = 256

abbrev pub has : Text → List Text → Bool
has id = any (text_eq id)

-- The loop that deletes the oldest.
unfoldable pub evict_oldest : ℕ → List Text → List Text
evict_oldest capacity [] = []
evict_oldest capacity (id ∷ ids) =
    let rest = evict_oldest capacity ids in
    if ltb capacity (length (id ∷ ids)) then rest else id ∷ ids

-- `markFailed`
unfoldable pub mark_failed : ℕ → Text → List Text → List Text
unfolding evict_oldest
mark_failed capacity id failed =
    if has id failed then failed else evict_oldest capacity (failed ++ id ∷ [])

unfoldable pub mark_all : ℕ → List Text → List Text → List Text
mark_all capacity [] failed = failed
mark_all capacity (id ∷ ids) failed = mark_all capacity ids (mark_failed capacity id failed)

evict_oldest-bound :
    (capacity : ℕ) (ids : List Text) → length (evict_oldest capacity ids) ≤ capacity
unfolding evict_oldest
evict_oldest-bound capacity [] = omega arith
evict_oldest-bound capacity (id ∷ ids) = ground (arith, evict_oldest-bound capacity ids)

evict_oldest-Keyed :
    (capacity : ℕ) (ids : List Text) → Keyed text_eq ids → Keyed text_eq (evict_oldest capacity ids)
unfolding evict_oldest
evict_oldest-Keyed capacity [] h = tt
evict_oldest-Keyed capacity (id ∷ ids) h =
    if_intro (Keyed text_eq) (ltb capacity (length (id ∷ ids))) (evict_oldest capacity ids)
      (id ∷ ids) (λ _. evict_oldest-Keyed capacity ids h.1) (λ _. h)

-- The latest of a list is not evicted while there is room for one.
evict_oldest-latest :
    (capacity : ℕ) (id : Text) (ids : List Text)
    → has id (evict_oldest (suc capacity) (ids ++ id ∷ [])) ≡ true
unfolding evict_oldest
evict_oldest-latest capacity id [] = ground (arith, text_eq_refl id)
evict_oldest-latest capacity id (other ∷ ids) =
    if_intro (λ left. has id left ≡ true) (ltb (suc capacity) (length (other ∷ ids ++ id ∷ []))) _ _
      (λ _. evict_oldest-latest capacity id ids)
      (λ _. ground (arith, any-append (text_eq id) ids id, text_eq_refl id))

mark_failed-kept :
    (capacity : ℕ) (id : Text) (failed : List Text)
    → length failed ≤ capacity
    → Keyed text_eq failed
    → (length (mark_failed capacity id failed) ≤ capacity)
      × Keyed text_eq (mark_failed capacity id failed)
unfolding mark_failed
mark_failed-kept capacity id failed short h =
    if_intro (λ left. (length left ≤ capacity) × Keyed text_eq left) (has id failed) _ _
      (λ _. (short, h))
      (λ fresh. (
        evict_oldest-bound capacity (failed ++ id ∷ []),
        evict_oldest-Keyed capacity (failed ++ id ∷ [])
            (Keyed-append text_eq failed id h (λ s. text_eq_comm s id) fresh),
      ))

-- From a store within its capacity that has each failure once, any sequence of marks leaves it so.
pub mark_all-Keyed :
    (capacity : ℕ) (ids failed : List Text)
    → length failed ≤ capacity
    → Keyed text_eq failed
    → (length (mark_all capacity ids failed) ≤ capacity)
      × Keyed text_eq (mark_all capacity ids failed)
unfolding mark_all
mark_all-Keyed capacity [] failed short h = (short, h)
mark_all-Keyed capacity (id ∷ ids) failed short h =
    mark_all-Keyed capacity ids (mark_failed capacity id failed) kept.0 kept.1
  where
    kept :
        (length (mark_failed capacity id failed) ≤ capacity)
        × Keyed text_eq (mark_failed capacity id failed)
    kept = mark_failed-kept capacity id failed short h

-- What is marked is remembered by a store with room for one, whatever it held.
pub mark_failed-has :
    (capacity : ℕ) (id : Text) (failed : List Text)
    → has id (mark_failed (suc capacity) id failed) ≡ true
unfolding mark_failed
mark_failed-has capacity id failed =
    if_intro (λ left. has id left ≡ true) (has id failed) _ _ (λ e. e)
      (λ _. evict_oldest-latest capacity id failed)
