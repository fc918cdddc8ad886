-- ===== src/Matrix/MessageText.antt =====
-- lib/matrix/message-text.ts. The matches of `LINK_PATTERN` are a parameter of the segments: where each
-- stands, and its text. The brackets are ASCII, so that they are counted by units.
pub mod Segments
use sub_etha.Prelude.{
  ℕ, zero, suc, ◌+◌, ◌-◌, Text, codes, text_eq, is_empty, Bool, true, false, not, ◌&&◌, ◌||◌, List,
  [], ◌∷◌, ◌++◌, Option, none, some, if◌then◌else◌, ltb, leb, ◌==◌, length, any, map, take, drop,
  filter_by, starts_with, split, join, get_elem?,
}

pub record Segment : Type 0 where
  pub text : Text
  pub href : Option Text

pub record Match : Type 0 where
  pub index : ℕ
  pub text : Text

unfoldable pub is_simple_punctuation : ℕ → Bool
is_simple_punctuation c = any (λ d. d == c) (b'.' ∷ b',' ∷ b'!' ∷ b'?' ∷ b';' ∷ b':' ∷ 0x2026 ∷ [])

unfoldable pub closing_pair : ℕ → Option ℕ
closing_pair c =
    if c == b')'
    then some b'('
    else if c == b']'
    then some b'['
    else if c == b'}'
    then some b'{'
    else none

abbrev pub unit_at : Text → ℕ → ℕ
unit_at s i = elim (get_elem? s i) [ none ↦ 0 | some c ↦ c ]

abbrev pub count : ℕ → Text → ℕ
count c s = length (filter_by (λ d. d == c) s)

-- Where the link ends that is read up to `end`.
unfoldable pub link_end : Text → ℕ → ℕ
unfolding is_simple_punctuation closing_pair
link_end value zero = 0
link_end value (suc end) =
    let last = unit_at value end in
    let shorter = link_end value end in
    let candidate = take (suc end) value in
    if is_simple_punctuation last then shorter else elim (closing_pair last) [
      | none ↦ suc end
      | some opening ↦
          if leb (count last candidate) (count opening candidate) then suc end else shorter
    ]

unfoldable pub split_trailing_punctuation : Text → Text × Text
unfolding link_end
split_trailing_punctuation value =
    let end = link_end value (length value) in (take end value, drop end value)

-- The lower case of ASCII, which is what the flag `i` compares with these patterns.
abbrev pub ascii_lower : ℕ → ℕ
ascii_lower c = if leb b'A' c && leb c b'Z' then c + 32 else c

unfoldable pub includes : Text → Text → Bool
unfolding starts_with
includes [] part = starts_with [] part
includes (c ∷ s) part = starts_with (c ∷ s) part || includes s part

-- The number of quoted lines at the start.
unfoldable pub quoted_lines : List Text → ℕ
unfolding starts_with
quoted_lines [] = 0
quoted_lines (line ∷ lines) =
    let rest = quoted_lines lines in if starts_with line (codes "> ") then suc rest else 0

-- `lines[n] === ""`
abbrev pub is_blank_line : List Text → ℕ → Bool
is_blank_line lines n = elim (get_elem? lines n) [ none ↦ false | some line ↦ is_empty line ]

unfoldable pub strip_plain_reply_fallback : Text → Text
unfolding split join quoted_lines
strip_plain_reply_fallback value =
    let lines = split b'\n' value in
    let first = quoted_lines lines in
    if first == 0
    then value
    else join b'\n' (drop (if is_blank_line lines first then suc first else first) lines)

-- A segment of text goes to the end of the last segment, where that is text too.
unfoldable pub push_text : List Segment → Text → List Segment
push_text segments [] = segments
push_text [] (c ∷ text) = record { text = c ∷ text; href = none } ∷ []
push_text (s ∷ []) (c ∷ text) = elim s.href [
  | none ↦ record { text = s.text ++ (c ∷ text); href = none } ∷ []
  | some href ↦ s ∷ record { text = c ∷ text; href = none } ∷ []
]
push_text (s ∷ t ∷ segments) (c ∷ text) = let rest = push_text (t ∷ segments) (c ∷ text) in s ∷ rest

module _ (to_lower_case : Text → Text) where
  unfoldable pub href_for : Text → Text
  unfolding starts_with includes
  href_for value =
      if starts_with (to_lower_case value) (codes "www.")
      then codes "https://" ++ value
      else if starts_with (map ascii_lower value) (codes "mailto:")
          || starts_with (map ascii_lower value) (codes "magnet:")
      then value
      else if not (includes value (codes "://"))
      then codes "mailto:" ++ value
      else value

  unfoldable pub push_link : List Segment → Text → List Segment
  unfolding href_for
  push_link segments [] = segments
  push_link segments (c ∷ link) =
      segments ++ (record { text = c ∷ link; href = some (href_for (c ∷ link)) } ∷ [])

  -- From a place in the value on, with the matches that are left.
  unfoldable pub segments_from : Text → ℕ → List Segment → List Match → List Segment
  unfolding push_text push_link split_trailing_punctuation
  segments_from value cursor segments [] = push_text segments (drop cursor value)
  segments_from value cursor segments (m ∷ matches) =
      let before = push_text segments (take (m.index - cursor) (drop cursor value)) in
      let parts = split_trailing_punctuation m.text in
      segments_from value (m.index + length m.text) (push_text (push_link before parts.0) parts.1)
        matches

  unfoldable pub message_text_segments : Text → List Match → List Segment
  unfolding segments_from
  message_text_segments value matches = segments_from value 0 [] matches
