-- ===== src/Media/Files.antt =====
-- The names and types of uploads in lib/matrix/media.ts, and the insertion of a text at a selection.
-- `toLowerCase` and the clock's value are parameters; a file is its name and its type.
pub mod Tests
use mathlib.Core.List.{append_assoc}
use sub_etha.Prelude.{
  ℕ, zero, suc, ◌+◌, ◌-◌, ◌≤◌, ◌≡◌, refl, sym, ap, ◌∙◌, Text, codes, text_eq, is_empty, decimal,
  Bool, true, false, not, ◌&&◌, ◌||◌, List, [], ◌∷◌, ◌++◌, Option, none, some, is_some,
  if◌then◌else◌, ltb, length, length-append, take, drop, min, max, split, starts_with, Outcome, ok,
  refused, ◌>>=◌, arith,
}

pub record File : Type 0 where
  pub name : Text
  pub type : Text

pub data MetadataLimit : Type 0 where
  too_large : MetadataLimit

unfoldable pub extension_for_mime : Text → Text
unfolding text_eq
extension_for_mime mime =
    if text_eq mime (codes "image/gif")
    then codes "gif"
    else if text_eq mime (codes "image/png")
    then codes "png"
    else if text_eq mime (codes "image/jpeg")
    then codes "jpg"
    else if text_eq mime (codes "image/webp")
    then codes "webp"
    else codes "bin"

-- `IMAGE_EXTENSIONS.get(extension) ?? null`
unfoldable pub image_extension : Text → Option Text
unfolding text_eq
image_extension extension =
    if text_eq extension (codes "png")
    then some (codes "image/png")
    else if text_eq extension (codes "jpg")
    then some (codes "image/jpeg")
    else if text_eq extension (codes "jpeg")
    then some (codes "image/jpeg")
    else if text_eq extension (codes "gif")
    then some (codes "image/gif")
    else if text_eq extension (codes "webp")
    then some (codes "image/webp")
    else none

abbrev pub last_part : List Text → Text
last_part [] = []
last_part (part ∷ []) = part
last_part (part ∷ q ∷ parts) = last_part (q ∷ parts)

-- `boundedMediaString` of a string, with a whole maximum.
unfoldable pub bounded_media_string : Text → ℕ → Outcome MetadataLimit Text
bounded_media_string value maximum =
    if ltb maximum (length value) then refused too_large else ok value

module _ (to_lower_case : Text → Text) (now : ℕ) where
  unfoldable pub image_mime_type_from_name : Text → Option Text
  unfolding split image_extension
  image_mime_type_from_name name = image_extension (last_part (split b'.' (to_lower_case name)))

  unfoldable pub is_image_upload_candidate : File → Bool
  unfolding starts_with image_mime_type_from_name
  is_image_upload_candidate file =
      starts_with (to_lower_case file.type) (codes "image/")
      || is_some (image_mime_type_from_name file.name)

  unfoldable pub canonical_media_file_name : File → (mime_type : Text) → Outcome MetadataLimit Text
  unfolding decimal extension_for_mime starts_with bounded_media_string
  canonical_media_file_name file mime_type =
      let fallback = codes "sub-etha-" ++ decimal now ++ (b'.' ∷ extension_for_mime mime_type) in
      bounded_media_string
        (if not (is_empty file.name) && not (starts_with file.name (codes "image."))
          then file.name
          else fallback)
        255

  abbrev pub guessed_type : File → Text
  guessed_type file =
      let lower = to_lower_case file.type in
      if is_empty lower || text_eq lower (codes "application/octet-stream")
      then elim (image_mime_type_from_name file.name) [ none ↦ lower | some mime ↦ mime ]
      else lower

  -- The name and the type that the upload gets; the file is the same where they are its own.
  unfoldable pub normalize_media_file : File → Outcome MetadataLimit File
  unfolding text_eq image_mime_type_from_name canonical_media_file_name
  normalize_media_file file =
      let guessed = guessed_type file in
      let mime_type = if is_empty guessed then codes "application/octet-stream" else guessed in
      canonical_media_file_name file mime_type >>= λ name.
      ok (record { name = name; type = mime_type })

pub record Inserted : Type 0 where
  pub value : Text
  pub caret : ℕ

unfoldable pub insert_at_selection : (value insertion : Text) (start end : ℕ) → Inserted
insert_at_selection value insertion start end =
    let safe_start = max 0 (min start (length value)) in
    let safe_end = max safe_start (min end (length value)) in
    record {
      value = take safe_start value ++ insertion ++ drop safe_end value;
      caret = safe_start + length insertion;
    }

take-front : (a b : Text) → take (length a) (a ++ b) ≡ a
take-front [] b = refl
take-front (c ∷ a) b = ap (λ t. c ∷ t) (take-front a b)

drop-front : (a b : Text) → drop (length a) (a ++ b) ≡ b
drop-front [] b = refl
drop-front (c ∷ a) b = drop-front a b

length-take_of : (n : ℕ) (s : Text) → n ≤ length s → length (take n s) ≡ n
length-take_of zero s h = refl
length-take_of (suc n) [] h = absurd (omega arith)
length-take_of (suc n) (c ∷ s) h = ap suc (length-take_of n s (omega arith))

-- At a selection inside of the value, the text before and behind it stays, and the caret is behind the
-- insertion: the first characters up to the caret are the old ones and the insertion, and the rest is
-- what was behind the selection.
pub insert_at_selection_parts :
    (value insertion : Text) (start end : ℕ)
    → start ≤ end
    → end ≤ length value
    → (take
          (insert_at_selection value insertion start end).caret
          (insert_at_selection value insertion start end).value
        ≡ take start value ++ insertion)
      × (drop
            (insert_at_selection value insertion start end).caret
            (insert_at_selection value insertion start end).value
          ≡ drop end value)
unfolding insert_at_selection
insert_at_selection_parts value insertion start end le inside =
    let same_start : max 0 (min start (length value)) ≡ start = omega arith in
    let same_end : max start (min end (length value)) ≡ end = omega arith in
    let front = take start value ++ insertion in
    let caret : start + length insertion ≡ length front = omega (
      arith,
      length-append (take start value) insertion,
      length-take_of start value (omega arith),
    ) in
    rw (same_start, same_end, caret)
      (take-front front (drop end value), drop-front front (drop end value))
