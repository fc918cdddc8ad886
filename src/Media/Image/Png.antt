-- ===== src/Media/Image/Png.antt =====
-- The PNG readers of lib/matrix/media.ts: `pngFrameCount`, `pngFrameRects` and `pngDimensions`.
use sub_etha.Prelude.{
  ℕ, suc, ◌+◌, Bool, not, ◌&&◌, ◌||◌, List, [], ◌∷◌, ◌++◌, Option, none, some, if◌then◌else◌, ltb,
  leb, ◌==◌, length, Outcome, ok, Step, next, stop, walk, ◌>>=◌,
}
use sub_etha.Media.Image.{
  Bytes, tag_at, uint32_be, is_png, ImageFrameRect, ImageDimensions, MediaLimit, Scan,
}

-- A chunk at `offset` does not lie in the bytes: `offset + 12 <= size` or the test of the length fails.
unfoldable pub no_chunk : Bytes → ℕ → Bool
no_chunk bytes offset =
    ltb (length bytes) (offset + 12) || ltb (length bytes) (offset + 12 + uint32_be bytes offset)

unfoldable pub png_count_step : Bytes → ℕ → Step MediaLimit ℕ ℕ
unfolding no_chunk tag_at uint32_be
png_count_step bytes offset =
    let size = uint32_be bytes offset in
    if no_chunk bytes offset
    then stop (ok 1)
    else if tag_at bytes (offset + 4) "acTL" && leb 8 size
    then stop (ok (uint32_be bytes (offset + 8)))
    else next (offset + 12 + size)

unfoldable pub png_frame_count : Bytes → Outcome MediaLimit ℕ
unfolding walk png_count_step is_png
png_frame_count bytes =
    if not (is_png bytes) then ok 0 else walk (suc (length bytes)) (png_count_step bytes) 8

unfoldable pub png_rect : Bytes → ℕ → ImageFrameRect
unfolding uint32_be
png_rect bytes offset = record {
  x = uint32_be bytes (offset + 20);
  y = uint32_be bytes (offset + 24);
  width = uint32_be bytes (offset + 12);
  height = uint32_be bytes (offset + 16);
}

unfoldable pub png_rects_step :
    Bytes
    → Scan (List ImageFrameRect)
    → Step MediaLimit (Scan (List ImageFrameRect)) (List ImageFrameRect)
unfolding no_chunk tag_at uint32_be png_rect
png_rects_step bytes s =
    let size = uint32_be bytes s.offset in
    if no_chunk bytes s.offset
    then stop (ok s.frames)
    else next (record {
      offset = s.offset + 12 + size;
      frames =
          if tag_at bytes (s.offset + 4) "fcTL" && leb 26 size
          then s.frames ++ (png_rect bytes s.offset ∷ [])
          else s.frames;
    })

unfoldable pub png_frame_rects : Bytes → Outcome MediaLimit (List ImageFrameRect)
unfolding walk png_rects_step is_png
png_frame_rects bytes =
    if not (is_png bytes)
    then ok []
    else walk (suc (length bytes)) (png_rects_step bytes) (record { offset = 8; frames = [] })

unfoldable pub png_dimensions : Bytes → Outcome MediaLimit (Option ImageDimensions)
unfolding png_frame_count tag_at uint32_be
png_dimensions bytes =
    if ltb (length bytes) 24
    then ok none
    else png_frame_count bytes >>= λ frames. ok (
        if frames == 0 || not (uint32_be bytes 8 == 13) || not (tag_at bytes 12 "IHDR")
        then none
        else some (record { width = uint32_be bytes 16; height = uint32_be bytes 20 }))
