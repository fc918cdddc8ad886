-- ===== src/Youtube/Tests.antt =====
-- Messages with links, and the theorems at them.
use sub_etha.Prelude.{
  ◌≡◌, ◌≤◌, refl, Text, codes, text_eq, true, List, [], ◌∷◌, ◌++◌, length, All, Keyed, arith,
}
use sub_etha.Youtube.Grammar.{is_video_id, parse_youtube_token}
use sub_etha.Youtube.Previews.{parse_youtube_video_ids}
use sub_etha.Youtube.Failures.{mark_failed, mark_all, mark_all-Keyed, mark_failed-has, has}
use sub_etha.Youtube.Bounds.{parse_youtube_video_ids-IsListed}

abbrev message : Text
message =
    codes "see https://youtu.be/dQw4w9WgXcQ, (https://www.youtube.com/watch?v=abcdefghijk&t=1) "
    ++ codes "https://m.youtube.com/shorts/dQw4w9WgXcQ"

-- Two videos: the third link is of the first one.
finds_two : parse_youtube_video_ids message ≡ codes "dQw4w9WgXcQ" ∷ codes "abcdefghijk" ∷ []
unfolding parse_youtube_video_ids text_eq is_video_id sub_etha.Youtube.Grammar.parse_watch_query
finds_two = refl

parse_youtube_video_ids-IsListed_example :
    (length (parse_youtube_video_ids message) ≤ 3)
    × All (λ id. is_video_id id ≡ true) (parse_youtube_video_ids message)
    × Keyed text_eq (parse_youtube_video_ids message)
parse_youtube_video_ids-IsListed_example = parse_youtube_video_ids-IsListed message

abbrev failures : List Text
failures = codes "a" ∷ codes "b" ∷ codes "c" ∷ codes "b" ∷ []

abbrev none_failed : List Text
none_failed = []

mark_all-Keyed_example :
    (length (mark_all 2 failures none_failed) ≤ 2) × Keyed text_eq (mark_all 2 failures none_failed)
mark_all-Keyed_example = mark_all-Keyed 2 failures none_failed (omega arith) tt

mark_failed-has_example : has (codes "d") (mark_failed 2 (codes "d") failures) ≡ true
mark_failed-has_example = mark_failed-has 1 (codes "d") failures
