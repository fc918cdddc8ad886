-- ===== src/Matrix/MessageText/Segments.antt =====
-- The segments of lib/matrix/message-text.ts, put together again.
use mathlib.Core.List.{append-nil, append_assoc}
use sub_etha.Prelude.{
  ℕ, zero, suc, ◌+◌, ◌-◌, ◌≤◌, ◌≡◌, refl, sym, ap, ◌∙◌, Text, List, [], ◌∷◌, ◌++◌, Option, none,
  some, length, take, drop, arith,
}
use sub_etha.Matrix.MessageText.{
  Segment, Match, link_end, split_trailing_punctuation, push_text, push_link, segments_from,
  message_text_segments,
}

-- The text that the segments show.
abbrev pub shown : List Segment → Text
shown [] = []
shown (s ∷ segments) = s.text ++ shown segments

-- What `matchAll` yields: matches that are found in the value, one behind the other.
abbrev pub InOrder : Text → ℕ → List Match → Type 0
InOrder value cursor [] = Unit
InOrder value cursor (m ∷ matches) =
    (cursor ≤ m.index)
    × (take (length m.text) (drop m.index value) ≡ m.text)
    × InOrder value (m.index + length m.text) matches

take-drop : {A : Type 0} (n : ℕ) (s : List A) → take n s ++ drop n s ≡ s
take-drop zero s = refl
take-drop (suc n) [] = refl
take-drop (suc n) (c ∷ s) = ap (λ t. c ∷ t) (take-drop n s)

drop_nil : {A : Type 0} (n : ℕ) → drop {A = A} n [] ≡ []
drop_nil zero = refl
drop_nil (suc n) = refl

drop-drop : {A : Type 0} (m n : ℕ) (s : List A) → drop m (drop n s) ≡ drop (n + m) s
drop-drop m zero s = ap (λ k. drop k s) (omega arith)
drop-drop m (suc n) [] = drop_nil m ∙ sym (drop_nil (suc n + m))
drop-drop m (suc n) (c ∷ s) =
    let step : suc (n + m) ≡ suc n + m = omega arith in
    drop-drop m n s ∙ ap (λ k. drop k (c ∷ s)) step

shown-append : (xs ys : List Segment) → shown (xs ++ ys) ≡ shown xs ++ shown ys
shown-append [] ys = refl
shown-append (x ∷ xs) ys = rw (shown-append xs ys) (sym (append_assoc x.text (shown xs) (shown ys)))

shown_last :
    (s : Segment) (href : Option Text) (text : Text)
    → shown (elim href [
      | none ↦ record { text = s.text ++ text; href = none } ∷ []
      | some h ↦ s ∷ record { text = text; href = none } ∷ []
    ])
      ≡ (s.text ++ []) ++ text
shown_last s none text = rw (append-nil (s.text ++ text), append-nil s.text) refl
shown_last s (some h) text = rw (append-nil text, append-nil s.text) refl

shown-push_text :
    (segments : List Segment) (text : Text)
    → shown (push_text segments text) ≡ shown segments ++ text
unfolding push_text
shown-push_text segments [] = sym (append-nil (shown segments))
shown-push_text [] (c ∷ text) = append-nil (c ∷ text)
shown-push_text (s ∷ []) (c ∷ text) = shown_last s s.href (c ∷ text)
shown-push_text (s ∷ t ∷ segments) (c ∷ text) =
    ap (λ u. s.text ++ u) (shown-push_text (t ∷ segments) (c ∷ text))
    ∙ sym (append_assoc s.text (shown (t ∷ segments)) (c ∷ text))

-- From a match on, the value is the match and what is behind it.
match_behind :
    (value : Text) (m : Match)
    → take (length m.text) (drop m.index value) ≡ m.text
    → m.text ++ drop (m.index + length m.text) value ≡ drop m.index value
match_behind value m found =
    ap (λ t. t ++ drop (m.index + length m.text) value) (sym found)
    ∙ ap (λ t. take (length m.text) (drop m.index value) ++ t)
        (sym (drop-drop (length m.text) m.index value))
    ∙ take-drop (length m.text) (drop m.index value)

-- Up to a match, the value is what is between and the rest.
up_to_match :
    (value : Text) (cursor index : ℕ)
    → cursor ≤ index
    → take (index - cursor) (drop cursor value) ++ drop index value ≡ drop cursor value
up_to_match value cursor index le =
    let there : index ≡ cursor + (index - cursor) = omega arith in
    ap (λ t. take (index - cursor) (drop cursor value) ++ t)
      (ap (λ k. drop k value) there ∙ sym (drop-drop (index - cursor) cursor value))
    ∙ take-drop (index - cursor) (drop cursor value)

module _ (to_lower_case : Text → Text) where
  shown-push_link :
      (segments : List Segment) (link : Text)
      → shown (push_link to_lower_case segments link) ≡ shown segments ++ link
  unfolding push_link
  shown-push_link segments [] = sym (append-nil (shown segments))
  shown-push_link segments (c ∷ link) =
      shown-append segments _ ∙ ap (λ t. shown segments ++ t) (append-nil (c ∷ link))

  -- A match adds its text, cut in two or not.
  shown_match :
      (segments : List Segment) (text : Text)
      → shown (
          push_text
            (push_link to_lower_case segments (split_trailing_punctuation text).0)
            (split_trailing_punctuation text).1)
        ≡ shown segments ++ text
  unfolding split_trailing_punctuation
  shown_match segments text =
      let end = link_end text (length text) in
      shown-push_text (push_link to_lower_case segments (take end text)) (drop end text)
      ∙ ap (λ t. t ++ drop end text) (shown-push_link segments (take end text))
      ∙ append_assoc (shown segments) (take end text) (drop end text)
      ∙ ap (λ t. shown segments ++ t) (take-drop end text)

  shown-segments_from :
      (value : Text) (cursor : ℕ) (segments : List Segment) (matches : List Match)
      → InOrder value cursor matches
      → shown (segments_from to_lower_case value cursor segments matches)
        ≡ shown segments ++ drop cursor value
  unfolding segments_from
  shown-segments_from value cursor segments [] u = shown-push_text segments (drop cursor value)
  shown-segments_from value cursor segments (m ∷ matches) (le, found, rest) =
      let between = take (m.index - cursor) (drop cursor value) in
      let behind = drop (m.index + length m.text) value in
      shown-segments_from value (m.index + length m.text) _ matches rest
      ∙ ap (λ t. t ++ behind) (shown_match (push_text segments between) m.text)
      ∙ ap (λ t. (t ++ m.text) ++ behind) (shown-push_text segments between)
      ∙ append_assoc (shown segments ++ between) m.text behind
      ∙ ap (λ t. (shown segments ++ between) ++ t) (match_behind value m found)
      ∙ append_assoc (shown segments) between (drop m.index value)
      ∙ ap (λ t. shown segments ++ t) (up_to_match value cursor m.index le)

-- Where the matches are found in the value, one behind the other: the segments show the value, with no
-- character lost, added or moved, whatever is a link and whatever punctuation is cut off it.
pub shown-message_text_segments :
    (to_lower_case : Text → Text) (value : Text) (matches : List Match)
    → InOrder value 0 matches
    → shown (message_text_segments to_lower_case value matches) ≡ value
unfolding message_text_segments
shown-message_text_segments to_lower_case value matches h =
    shown-segments_from to_lower_case value 0 [] matches h
