-- ===== src/Youtube/Tokens.antt =====
-- The tokens of a message that may be links: `scanRawYouTubeTokens` of lib/youtube-preview.ts.
use sub_etha.Prelude.{
  ℕ, suc, zero, ◌-◌, Text, codes, Bool, ◌||◌, ◌&&◌, not, List, [], ◌∷◌, ◌++◌, Option, none, some,
  if◌then◌else◌, leb, ◌==◌, length, take, drop, any, get_elem?, holds, starts_with,
}

abbrev pub youtube_preview_scan_limit : ℕ
youtube_preview_scan_limit = 16384

abbrev pub youtube_preview_raw_token_limit : ℕ
youtube_preview_raw_token_limit = 32

abbrev pub scheme : Text
scheme = codes "https://"

unfoldable pub is_ascii_whitespace : ℕ → Bool
is_ascii_whitespace c = (leb 9 c && leb c 13) || c == 32

unfoldable pub is_explicit_delimiter : ℕ → Bool
is_explicit_delimiter c = any (λ d. c == d) (codes "\"'`<>()[]{},;!")

-- What ends a token.
unfoldable pub is_break : ℕ → Bool
unfolding is_ascii_whitespace is_explicit_delimiter
is_break c = is_ascii_whitespace c || is_explicit_delimiter c

abbrev last : Text → Option ℕ
last [] = none
last (c ∷ []) = some c
last (c ∷ d ∷ s) = last (d ∷ s)

-- The text before its last ASCII space, or the empty text without one.
unfoldable pub before_last_space : Text → Text
before_last_space [] = []
before_last_space (c ∷ s) = if any is_ascii_whitespace s then c ∷ before_last_space s else []

unfoldable pub bounded_body : Text → Text
unfolding is_break before_last_space
bounded_body body =
    if leb (length body) youtube_preview_scan_limit
    then body
    else let slice = take youtube_preview_scan_limit body in
      if holds is_break (last slice) || holds is_break (get_elem? body youtube_preview_scan_limit)
      then slice
      else before_last_space slice

unfoldable pub until_break : Text → Text
unfolding is_break
until_break [] = []
until_break (c ∷ s) = if is_break c then [] else c ∷ until_break s

-- What stands at a place, after the unit `preceding`: the token that starts there, if one does, and how
-- many units after the first are looked at with it.
unfoldable pub look : Option ℕ → Text → Option Text × ℕ
unfolding starts_with is_break until_break
look preceding s =
    if starts_with s scheme
    then if holds (λ d. not (is_break d)) preceding
      then (none, length scheme - 1)
      else (some (scheme ++ until_break (drop 8 s)), length (scheme ++ until_break (drop 8 s)) - 1)
    else (none, 0)

abbrev pub left : ℕ → Option Text → ℕ
left room none = suc room
left room (some token) = room

abbrev pub prepend : Option Text → List Text → List Text
prepend none tokens = tokens
prepend (some token) tokens = token ∷ tokens

-- The scan from a place: `room` tokens may still be taken, `preceding` is the unit before the place,
-- and the next `skipped` units have been looked at.
unfoldable pub scan : (room skipped : ℕ) → Option ℕ → Text → List Text
unfolding look
scan room skipped preceding [] = []
scan room (suc skipped) preceding (c ∷ s) = scan room skipped (some c) s
scan zero zero preceding (c ∷ s) = []
scan (suc room) zero preceding (c ∷ s) =
    let found = look preceding (c ∷ s) in
    prepend found.0 (scan (left room found.0) found.1 (some c) s)

-- `scanRawYouTubeTokens`
unfoldable pub scan_raw_youtube_tokens : Text → List Text
unfolding scan bounded_body
scan_raw_youtube_tokens body = scan youtube_preview_raw_token_limit 0 none (bounded_body body)
