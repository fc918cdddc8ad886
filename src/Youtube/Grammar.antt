-- ===== src/Youtube/Grammar.antt =====
-- The links of videos: `parseYouTubeToken` of lib/youtube-preview.ts and what it calls.
use sub_etha.Prelude.{
  split, is_empty, ℕ, Text, codes, text_eq, Bool, ◌||◌, ◌&&◌, not, List, [], ◌∷◌, Option, none,
  some, if◌then◌else◌, leb, ltb, ◌==◌, length, drop, any, all, find, starts_with, is_space,
}
use sub_etha.Youtube.Tokens.{scheme}

abbrev pub youtube_preview_token_limit : ℕ
youtube_preview_token_limit = 2048

abbrev between : ℕ → ℕ → ℕ → Bool
between lo hi c = leb lo c && leb c hi

abbrev pub is_word : ℕ → Bool
is_word c = between b'A' b'Z' c || between b'a' b'z' c || between b'0' b'9' c || c == b'_'

-- `/^[A-Za-z0-9_-]{11}$/`
unfoldable pub is_video_id : Text → Bool
is_video_id s = (length s == 11) && all (λ c. is_word c || c == b'-') s

-- `/^[A-Za-z0-9_.:-]{1,128}$/`
unfoldable pub is_query_value : Text → Bool
is_query_value s =
    leb 1 (length s)
    && leb (length s) 128
    && all (λ c. is_word c || c == b'.' || c == b':' || c == b'-') s

abbrev pub one_of : List Text → Text → Bool
one_of ts s = any (text_eq s) ts

abbrev pub youtube_hosts : List Text
youtube_hosts =
    codes "youtu.be" ∷ codes "youtube.com" ∷ codes "www.youtube.com" ∷ codes "m.youtube.com" ∷ []

abbrev pub youtube_query_keys : List Text
youtube_query_keys =
    codes "v"
    ∷ codes "t"
    ∷ codes "start"
    ∷ codes "list"
    ∷ codes "index"
    ∷ codes "si"
    ∷ codes "feature"
    ∷ []

unfoldable pub has_forbidden_raw_characters : Text → Bool
unfolding is_space
has_forbidden_raw_characters =
    any (λ c.
      ltb c 32 || c == 127 || c == b'\\' || c == b'%' || c == b'#' || (ltb 127 c && is_space c))

-- The text up to the first unit that meets the test, and from it on.
unfoldable pub cut : (ℕ → Bool) → Text → Text × Text
cut p [] = ([], [])
cut p (c ∷ s) = let rest = cut p s in if p c then ([], c ∷ s) else (c ∷ rest.0, rest.1)

-- A field of a query: its key and its value.
abbrev pub assigned : Text × Text → Option (Text × Text)
assigned (key, []) = none
assigned ([], e ∷ value) = none
assigned (c ∷ key, e ∷ value) = if any (λ d. d == b'=') value then none else some (c ∷ key, value)

unfoldable pub query_field : Text → Option (Text × Text)
unfolding cut
query_field field = assigned (cut (λ c. c == b'=') field)

abbrev pub names : Text → Text × Text → Bool
names key v = text_eq v.0 key

-- The loop over the fields, with the values so far.
unfoldable pub query_values : List (Text × Text) → List Text → Option (List (Text × Text))
unfolding query_field is_query_value
query_values values [] = some values
query_values values (field ∷ fields) = elim (query_field field) [
  | none ↦ none
  | some v ↦
      let rest = query_values (v ∷ values) fields in
      if not (one_of youtube_query_keys v.0) || not (is_query_value v.1) || any (names v.0) values
      then none
      else rest
]

abbrev pub valid_id : Option (Text × Text) → Option Text
valid_id none = none
valid_id (some v) = if is_video_id v.1 then some v.1 else none

abbrev pub watched : Option (List (Text × Text)) → Option Text
watched none = none
watched (some values) = valid_id (find (names (codes "v")) values)

-- `parseWatchQuery`
unfoldable pub parse_watch_query : Text → Option Text
unfolding query_values split
parse_watch_query query =
    if is_empty query then none else watched (query_values [] (split b'&' query))

-- What follows a `?`, if the text has one.
abbrev pub query_of : Text → Option Text
query_of [] = none
query_of (c ∷ s) = some s

abbrev pub is_empty_or_dots : Text → Bool
is_empty_or_dots s = is_empty s || text_eq s (codes ".") || text_eq s (codes "..")

abbrev pub id_of : Text → Option Text
id_of s = if is_video_id s then some s else none

-- `https://youtu.be/<id>`
abbrev pub short_link : List Text → Option Text → Option Text
short_link (root ∷ id ∷ []) none = id_of id
short_link _ _ = none

-- `/shorts/<id>`, `/embed/<id>` and `/live/<id>`
abbrev pub path_link : List Text → Option Text
path_link (root ∷ kind ∷ id ∷ []) =
    if one_of (codes "shorts" ∷ codes "embed" ∷ codes "live" ∷ []) kind then id_of id else none
path_link _ = none

abbrev pub long_link : Text → List Text → Option Text → Option Text
long_link path segments none = path_link segments
long_link path segments (some query) =
    if text_eq path (codes "/watch") then parse_watch_query query else none

-- A link with its host, its path and the path's segments, and its query.
unfoldable pub parse_link : Text → Text → List Text → Option Text → Option Text
parse_link host path segments query =
    if not (starts_with path (codes "/")) || any is_empty_or_dots (drop 1 segments)
    then none
    else if text_eq host (codes "youtu.be")
    then short_link segments query
    else long_link path segments query

abbrev pub is_refused : Text → Bool
is_refused token =
    ltb youtube_preview_token_limit (length token)
    || not (starts_with token scheme)
    || has_forbidden_raw_characters token

abbrev pub is_foreign : Text → Bool
is_foreign host =
    not (one_of youtube_hosts host) || any (λ c. c == b':') host || any (λ c. c == b'@') host

-- A link with its host, and its path with what follows it.
unfoldable pub parse_path : Text → Text × Text → Option Text
unfolding split parse_link
parse_path host (path, tail) =
    if is_foreign host then none else parse_link host path (split b'/' path) (query_of tail)

unfoldable pub parse_authority : Text × Text → Option Text
unfolding cut parse_path
parse_authority (host, tail) = parse_path host (cut (λ c. c == b'?') tail)

-- `parseYouTubeToken`
unfoldable pub parse_youtube_token : Text → Option Text
unfolding has_forbidden_raw_characters cut parse_authority
parse_youtube_token token =
    if is_refused token
    then none
    else parse_authority (cut (λ c. c == b'/' || c == b'?') (drop 8 token))
