-- ===== src/Youtube/Previews.antt =====
-- The previews of a message: `parseYouTubeVideoIds` and `timelineYouTubePreviews` of
-- lib/youtube-preview.ts.
use sub_etha.Prelude.{
  ℕ, Text, codes, text_eq, Bool, ◌&&◌, ◌||◌, not, List, [], ◌∷◌, ◌++◌, Option, none, some,
  if◌then◌else◌, leb, length, any, holds, map, is_some,
}
use sub_etha.Youtube.Tokens.{scan_raw_youtube_tokens}
use sub_etha.Youtube.Grammar.{parse_youtube_token}

abbrev pub youtube_preview_max_count : ℕ
youtube_preview_max_count = 3

abbrev pub extended : List Text → Text → List Text
extended ids id = if any (text_eq id) ids then ids else ids ++ id ∷ []

-- The loop over the tokens, with the identifiers so far.
unfoldable pub collect : List Text → List Text → List Text
unfolding parse_youtube_token
collect ids [] = ids
collect ids (token ∷ tokens) = elim (parse_youtube_token token) [
  | none ↦ collect ids tokens
  | some id ↦
      let rest = collect (extended ids id) tokens in
      if not (any (text_eq id) ids) && leb youtube_preview_max_count (length (ids ++ id ∷ []))
      then ids ++ id ∷ []
      else rest
]

-- `parseYouTubeVideoIds` of a string.
unfoldable pub parse_youtube_video_ids : Text → List Text
unfolding collect scan_raw_youtube_tokens
parse_youtube_video_ids body = collect [] (scan_raw_youtube_tokens body)

unfoldable pub youtube_thumbnail_url : Text → Text
youtube_thumbnail_url id = codes "https://i.ytimg.com/vi/" ++ id ++ codes "/hqdefault.jpg"

unfoldable pub youtube_watch_url : Text → Text
youtube_watch_url id = codes "https://www.youtube.com/watch?v=" ++ id

-- What the source reads of a timeline item; `body`, `type` and `decryption_state` are there if they are
-- strings, and the flags are `redacted === true`, `sendingStatus != null` and `media != null`.
pub record YoutubeTimelineItem : Type 0 where
  pub body : Option Text
  pub type : Option Text
  pub decryption_state : Option Text
  pub is_redacted : Bool
  pub is_sending : Bool
  pub has_media : Bool

pub record YoutubePreview : Type 0 where
  pub id : Text
  pub src : Text
  pub href : Text

abbrev pub is_text : Text → Option Text → Bool
is_text s = holds (λ t. text_eq t s)

-- `isTimelineYouTubePreviewEligible`
unfoldable pub is_eligible : YoutubeTimelineItem → Bool
is_eligible item = not (
    not (is_some item.body)
    || not (is_text (codes "ready") item.decryption_state)
    || item.is_redacted
    || item.is_sending
    || item.has_media
    || (not (is_text (codes "message") item.type) && not (is_text (codes "notice") item.type)))

abbrev pub preview : Text → YoutubePreview
preview id = record { id = id; src = youtube_thumbnail_url id; href = youtube_watch_url id }

abbrev pub ids_of : Option Text → List Text
ids_of none = []
ids_of (some body) = parse_youtube_video_ids body

unfoldable pub timeline_youtube_previews : YoutubeTimelineItem → List YoutubePreview
timeline_youtube_previews item = if is_eligible item then map preview (ids_of item.body) else []
