-- ===== src/Timeline/Prepend.antt =====
-- Older items put in front of the list.
use sub_etha.Prelude.{
  ℕ, ◌+◌, ◌-◌, ◌≤◌, ◌≡◌, refl, suc, Text, text_eq, text_eq_refl, text_eq_comm, Bool, true, false,
  ◌&&◌, List, [], ◌∷◌, ◌++◌, some, leb, ltb, ◌==◌, length, any, drop, map, holds, arith, if_yes,
  length-append, ap, sym, subst,
}
use sub_etha.Timeline.Window.{
  index_where, or_zero, count_prepended_timeline_items, timeline_start_index_after_prepend,
}
use sub_etha.Timeline.Scroll.{
  TimelineChangeKind, TimelineIdentity, TimelineChange, TimelineScrollMode, same_ids,
  same_ids_at_offset, is_shifted, classify_timeline_change, should_follow_timeline_change,
  follows_kind,
}

index_where-append {ℓ} :
    {A : Type ℓ} (p : A → Bool) (xs : List A) (y : A) (ys : List A)
    → any p xs ≡ false
    → p y ≡ true
    → index_where p (xs ++ y ∷ ys) ≡ some (length xs)
unfolding index_where
index_where-append p [] y ys h k = ground arith
index_where-append p (x ∷ xs) y ys h k = ground (arith, index_where-append p xs y ys)

same_ids-append :
    (previous newer : List TimelineIdentity) → same_ids previous (previous ++ newer) ≡ true
unfolding same_ids
same_ids-append [] newer = refl
same_ids-append (p ∷ previous) newer =
    ground (arith, text_eq_refl p.id, same_ids-append previous newer)

drop-append {ℓ} : {A : Type ℓ} (xs ys : List A) → drop (length xs) (xs ++ ys) ≡ ys
drop-append [] ys = refl
drop-append (x ∷ xs) ys = drop-append xs ys

both : (a b : Bool) → a ≡ true → b ≡ true → (a && b) ≡ true
both a b h k = ground arith

same_ids_at_offset-append :
    (older previous newer : List TimelineIdentity)
    → same_ids_at_offset previous (older ++ (previous ++ newer)) (length older) ≡ true
unfolding same_ids_at_offset
same_ids_at_offset-append older previous newer =
    both (leb (length older + length previous) (length (older ++ (previous ++ newer)))) _
      (ground (arith, length-append older (previous ++ newer), length-append previous newer))
      (subst (λ next. same_ids previous next ≡ true) (sym (drop-append older (previous ++ newer)))
        (same_ids-append previous newer))

-- The place of an item in the list of identifiers.
index_where-ids :
    (older : List TimelineIdentity) (p : TimelineIdentity) (ys : List TimelineIdentity)
    → any (λ i. text_eq i.id p.id) older ≡ false
    → index_where (text_eq p.id) (map (λ i. i.id) (older ++ p ∷ ys)) ≡ some (length older)
unfolding index_where
index_where-ids [] p ys h = ground (arith, text_eq_refl p.id)
index_where-ids (x ∷ xs) p ys h = ground (arith, text_eq_comm p.id x.id, index_where-ids xs p ys)

module _ (o : TimelineIdentity) (os : List TimelineIdentity) (p : TimelineIdentity)
    (ps newer : List TimelineIdentity) (fresh : any (λ i. text_eq i.id p.id) (o ∷ os) ≡ false) where
  abbrev pub next_items : List TimelineIdentity
  next_items = (o ∷ os) ++ ((p ∷ ps) ++ newer)

  classify-prepend :
      (start index : ℕ)
      → start - index ≡ suc (length os)
      → (classify_timeline_change (p ∷ ps) next_items start index).kind ≡ TimelineChangeKind.prepend
  unfolding classify_timeline_change
  classify-prepend start index shift =
      if_yes (λ (c : TimelineChange). c.kind ≡ TimelineChangeKind.prepend)
        (is_shifted p next_items start index
          && same_ids_at_offset (p ∷ ps) next_items (start - index))
        _ _ cond refl
    where
      found : index_where (λ i. text_eq i.id p.id) next_items ≡ some (suc (length os))
      found =
          index_where-append (λ i. text_eq i.id p.id) (o ∷ os) p (ps ++ newer) fresh
            (text_eq_refl p.id)

      cond :
          (is_shifted p next_items start index
            && same_ids_at_offset (p ∷ ps) next_items (start - index))
          ≡ true
      cond =
          both (is_shifted p next_items start index) _
            (both (ltb index start) _ (ground arith) (
              subst (λ at. holds (λ offset. offset == start - index) at ≡ true) (sym found)
                (ground arith)))
            (subst (λ offset. same_ids_at_offset (p ∷ ps) next_items offset ≡ true) (sym shift)
              (same_ids_at_offset-append (o ∷ os) (p ∷ ps) newer))

-- The index of the first item once the list has the identifiers of the items.
abbrev pub index_after : ℕ → TimelineIdentity → List TimelineIdentity → ℕ
index_after start p items =
    timeline_start_index_after_prepend start (some p.id) (map (λ i. i.id) items)

index_after-prepend :
    (start : ℕ) (older ys : List TimelineIdentity) (c : ℕ) (cs : Text) (is_local : Bool)
    → any (λ i. text_eq i.id (c ∷ cs)) older ≡ false
    → index_after start
        (record { id = c ∷ cs; is_local = is_local })
        (older ++ record { id = c ∷ cs; is_local = is_local } ∷ ys)
      ≡ start - length older
unfolding timeline_start_index_after_prepend count_prepended_timeline_items
index_after-prepend start older ys c cs is_local fresh =
    ap (λ at. start - or_zero at)
      (index_where-ids older (record { id = c ∷ cs; is_local = is_local }) ys fresh)

stays :
    (c : TimelineChange) (mode : TimelineScrollMode)
    → c.kind ≡ TimelineChangeKind.prepend
    → should_follow_timeline_change c mode ≡ false
unfolding should_follow_timeline_change
stays c mode h = subst (λ k. follows_kind k c.appended_local_item mode ≡ false) (sym h) refl

-- Where one or more older items are put in front of a list that has items, with or without newer ones at
-- its end, where none of the older ones has the identifier of the first item, which is not empty, and
-- where the index leaves room for them: the new index and the number of older items add up to the old
-- index, the change is classified as `prepend`, and the view follows it in no mode.
pub prepend_keeps_place :
    (start : ℕ) (o : TimelineIdentity) (os ps newer : List TimelineIdentity) (c : ℕ) (cs : Text)
    (is_local : Bool) (mode : TimelineScrollMode)
    → any (λ i. text_eq i.id (c ∷ cs)) (o ∷ os) ≡ false
    → length (o ∷ os) ≤ start
    → let p : TimelineIdentity = record { id = c ∷ cs; is_local = is_local } in
      let next : List TimelineIdentity = (o ∷ os) ++ ((p ∷ ps) ++ newer) in
      (index_after start p next + length (o ∷ os) ≡ start)
      × ((classify_timeline_change (p ∷ ps) next start (index_after start p next)).kind
          ≡ TimelineChangeKind.prepend)
      × (should_follow_timeline_change
            (classify_timeline_change (p ∷ ps) next start (index_after start p next))
            mode
          ≡ false)
prepend_keeps_place start o os ps newer c cs is_local mode fresh room =
    (omega (arith, moved), kind, stays _ mode kind)
  where
    p : TimelineIdentity
    p = record { id = c ∷ cs; is_local = is_local }

    next : List TimelineIdentity
    next = (o ∷ os) ++ ((p ∷ ps) ++ newer)

    moved : index_after start p next ≡ start - length (o ∷ os)
    moved = index_after-prepend start (o ∷ os) (ps ++ newer) c cs is_local fresh

    kind :
        (classify_timeline_change (p ∷ ps) next start (index_after start p next)).kind
        ≡ TimelineChangeKind.prepend
    kind =
        classify-prepend o os p ps newer fresh start (index_after start p next)
          (omega (arith, moved))
