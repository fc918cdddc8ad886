-- ===== src/Media/Files/Tests.antt =====
-- Uploads and insertions of lib/matrix/media.ts at concrete values.
use sub_etha.Prelude.{Text, ◌≡◌, refl, codes, ◌++◌, take, drop, some, ok, arith}
use sub_etha.Media.Files.{
  insert_at_selection, insert_at_selection_parts, normalize_media_file, image_mime_type_from_name,
}

abbrev same_case : Text → Text
same_case s = s

insert_test :
    insert_at_selection (codes "so long") (codes "very ") 3 3
    ≡ record { value = codes "so very long"; caret = 8 }
unfolding insert_at_selection
insert_test = refl

insert_at_selection_parts_example :
    (take
        (insert_at_selection (codes "so long") (codes "much") 3 7).caret
        (insert_at_selection (codes "so long") (codes "much") 3 7).value
      ≡ take 3 (codes "so long") ++ codes "much")
    × (drop
          (insert_at_selection (codes "so long") (codes "much") 3 7).caret
          (insert_at_selection (codes "so long") (codes "much") 3 7).value
        ≡ drop 7 (codes "so long"))
insert_at_selection_parts_example =
    insert_at_selection_parts (codes "so long") (codes "much") 3 7 (omega arith) (omega arith)

name_test : image_mime_type_from_name same_case 0 (codes "a.b.jpg") ≡ some (codes "image/jpeg")
unfolding image_mime_type_from_name
name_test = refl

normalize_test :
    normalize_media_file same_case 42 (record { name = codes "image.png"; type = codes "" })
    ≡ ok (record { name = codes "sub-etha-42.png"; type = codes "image/png" })
unfolding normalize_media_file
normalize_test = refl
