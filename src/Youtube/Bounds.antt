-- ===== src/Youtube/Bounds.antt =====
-- What a message can make the client preview, and how many failures it remembers.
use sub_etha.Prelude.{
  split, is_empty, ℕ, ◌≤◌, ◌<◌, ◌≡◌, Text, codes, text_eq, Bool, true, false, ◌&&◌, ◌||◌, not, List,
  [], ◌∷◌, ◌++◌, Option, none, some, if◌then◌else◌, leb, length, any, All, All-append, Keyed,
  Keyed-append, arith, if_intro, subst, option_intro, text_eq_comm, starts_with, find, ◌==◌, drop,
  length-append,
}
use sub_etha.Youtube.Tokens.{scan_raw_youtube_tokens}
use sub_etha.Youtube.Grammar.{
  is_video_id, parse_youtube_token, parse_link, short_link, path_link, long_link, id_of, valid_id,
  watched, parse_watch_query, query_of, names, parse_path, parse_authority, is_refused, is_foreign,
  cut, one_of, is_empty_or_dots,
}
use sub_etha.Youtube.Previews.{
  parse_youtube_video_ids, collect, extended, youtube_preview_max_count,
}

-- What is found is a video's identifier.
abbrev Found : Option Text → Type 0
Found none = Unit
Found (some id) = is_video_id id ≡ true

valid_id-Found : (o : Option (Text × Text)) → Found (valid_id o)
valid_id-Found none = tt
valid_id-Found (some v) = if_intro Found (is_video_id v.1) _ _ (λ e. e) (λ _. tt)

id_of-Found : (s : Text) → Found (id_of s)
id_of-Found s = if_intro Found (is_video_id s) _ _ (λ e. e) (λ _. tt)

watched-Found : (values : Option (List (Text × Text))) → Found (watched values)
watched-Found none = tt
watched-Found (some values) = valid_id-Found (find (names (codes "v")) values)

parse_watch_query-Found : (query : Text) → Found (parse_watch_query query)
unfolding parse_watch_query
parse_watch_query-Found query = if_intro Found (is_empty query) _ _ (λ _. tt) (λ _. watched-Found _)

short_link-Found : (segments : List Text) (query : Option Text) → Found (short_link segments query)
short_link-Found (root ∷ id ∷ []) none = id_of-Found id
short_link-Found (root ∷ id ∷ []) (some query) = tt
short_link-Found [] query = tt
short_link-Found (root ∷ []) query = tt
short_link-Found (root ∷ id ∷ more ∷ segments) query = tt

path_link-Found : (segments : List Text) → Found (path_link segments)
path_link-Found (root ∷ kind ∷ id ∷ []) =
    if_intro Found (one_of (codes "shorts" ∷ codes "embed" ∷ codes "live" ∷ []) kind) _ none
      (λ _. id_of-Found id) (λ _. tt)
path_link-Found [] = tt
path_link-Found (root ∷ []) = tt
path_link-Found (root ∷ kind ∷ []) = tt
path_link-Found (root ∷ kind ∷ id ∷ more ∷ segments) = tt

long_link-Found :
    (path : Text) (segments : List Text) (query : Option Text)
    → Found (long_link path segments query)
long_link-Found path segments none = path_link-Found segments
long_link-Found path segments (some query) =
    if_intro Found (text_eq path (codes "/watch")) _ _ (λ _. parse_watch_query-Found query)
      (λ _. tt)

parse_link-Found :
    (host path : Text) (segments : List Text) (query : Option Text)
    → Found (parse_link host path segments query)
unfolding parse_link
parse_link-Found host path segments query =
    if_intro Found (not (starts_with path (codes "/")) || any is_empty_or_dots (drop 1 segments)) _
      _ (λ _. tt)
      (λ _.
        if_intro Found (text_eq host (codes "youtu.be")) _ _ (λ _. short_link-Found segments query)
          (λ _. long_link-Found path segments query))

parse_path-Found : (host : Text) (parts : Text × Text) → Found (parse_path host parts)
unfolding parse_path
parse_path-Found host (path, tail) =
    if_intro Found (is_foreign host) none (parse_link host path (split b'/' path) (query_of tail))
      (λ _. tt) (λ _. parse_link-Found host path (split b'/' path) (query_of tail))

parse_authority-Found : (parts : Text × Text) → Found (parse_authority parts)
unfolding parse_authority
parse_authority-Found (host, tail) = parse_path-Found host (cut (λ c. c == b'?') tail)

parse_youtube_token-Found : (token : Text) → Found (parse_youtube_token token)
unfolding parse_youtube_token
parse_youtube_token-Found token =
    if_intro Found (is_refused token) none (parse_authority parts) (λ _. tt)
      (λ _. parse_authority-Found parts)
  where
    parts : Text × Text
    parts = cut (λ c. c == b'/' || c == b'?') (drop 8 token)

-- Few identifiers, each of a video and each of them once.
record IsListed (limit : ℕ) (ids : List Text) : Type 0 where
  few : length ids ≤ limit
  valid : All (λ id. is_video_id id ≡ true) ids
  distinct : Keyed text_eq ids

added-IsListed :
    (limit : ℕ) (id : Text) (ids : List Text)
    → is_video_id id ≡ true
    → any (text_eq id) ids ≡ false
    → length ids < limit
    → IsListed 3 ids
    → IsListed limit (ids ++ id ∷ [])
added-IsListed limit id ids v fresh room h = record {
  few = omega (arith, length-append ids (id ∷ []));
  valid = All-append (λ id. is_video_id id ≡ true) ids (id ∷ []) h.valid (v, tt);
  distinct = Keyed-append text_eq ids id h.distinct (λ s. text_eq_comm s id) fresh;
}

unseen : (seen full : Bool) → (not seen && full) ≡ true → seen ≡ false
unseen seen full h = ground arith

has_room : (seen : Bool) (n : ℕ) → (not seen && leb 3 n) ≡ false → seen ≡ false → n < 3
has_room seen n h k = ground arith

collect-IsListed :
    (ids tokens : List Text) → length ids < 3 → IsListed 3 ids → IsListed 3 (collect ids tokens)
unfolding collect
collect-IsListed ids [] room h = h
collect-IsListed ids (token ∷ tokens) room h =
    option_intro (IsListed 3) (parse_youtube_token token) (collect ids tokens)
      (λ id.
        if not (any (text_eq id) ids) && leb youtube_preview_max_count (length (ids ++ id ∷ []))
        then ids ++ id ∷ []
        else collect (extended ids id) tokens)
      (λ _. collect-IsListed ids tokens room h)
      (λ id e.
        if_intro (IsListed 3)
          (not (any (text_eq id) ids) && leb youtube_preview_max_count (length (ids ++ id ∷ []))) _
          _
          (λ full.
            added-IsListed 3 id ids (is_id id e) (unseen (any (text_eq id) ids) _ full) room h)
          (λ more.
            if_intro (λ next. IsListed 3 (collect next tokens)) (any (text_eq id) ids) _ _
              (λ _. collect-IsListed ids tokens room h)
              (λ fresh.
                collect-IsListed (ids ++ id ∷ []) tokens
                  (has_room (any (text_eq id) ids) _ more fresh)
                  (added-IsListed 3 id ids (is_id id e) fresh room h))))
  where
    is_id : (id : Text) → parse_youtube_token token ≡ some id → is_video_id id ≡ true
    is_id id e = subst Found e (parse_youtube_token-Found token)

-- Whatever a message says, its previews are of at most three videos, each with the eleven characters of
-- an identifier and each shown once.
pub parse_youtube_video_ids-IsListed :
    (body : Text)
    → (length (parse_youtube_video_ids body) ≤ 3)
      × All (λ id. is_video_id id ≡ true) (parse_youtube_video_ids body)
      × Keyed text_eq (parse_youtube_video_ids body)
unfolding parse_youtube_video_ids
parse_youtube_video_ids-IsListed body = (s.few, s.valid, s.distinct)
  where
    s : IsListed 3 (collect [] (scan_raw_youtube_tokens body))
    s =
        collect-IsListed [] (scan_raw_youtube_tokens body) (omega arith)
          (record { few = omega arith; valid = tt; distinct = tt })
