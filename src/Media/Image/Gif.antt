-- ===== src/Media/Image/Gif.antt =====
-- The GIF readers of lib/matrix/media.ts: `skipGifSubBlocks`, `gifFrameCount`, `gifFrameRects` and
-- `gifDimensions`. A loop has one round more than there are bytes.
use sub_etha.Prelude.{
  ℕ, suc, ◌+◌, ◌*◌, ◌/◌, ◌%◌, ◌^◌, not, ◌||◌, List, [], ◌∷◌, ◌++◌, Option, none, some,
  if◌then◌else◌, ltb, leb, ◌==◌, length, Outcome, ok, Step, next, stop, step_after, walk,
}
use sub_etha.Media.Image.{
  Bytes, byte_at, uint16_le, bytes_are_gif, ImageFrameRect, ImageDimensions, MediaLimit, Scan,
}

unfoldable pub sub_block_step : Bytes → ℕ → Step MediaLimit ℕ ℕ
sub_block_step bytes offset =
    let size = byte_at bytes offset in
    if not (ltb offset (length bytes))
    then stop (ok offset)
    else if size == 0
    then stop (ok (offset + 1))
    else if ltb (length bytes) (offset + 1 + size)
    then stop (ok (length bytes))
    else next (offset + 1 + size)

unfoldable pub skip_gif_sub_blocks : Bytes → ℕ → Outcome MediaLimit ℕ
unfolding walk sub_block_step
skip_gif_sub_blocks bytes start = walk (suc (length bytes)) (sub_block_step bytes) start

-- The size of the colour table that a packed byte announces.
unfoldable pub color_table : ℕ → ℕ
color_table packed = if (packed / 128) % 2 == 0 then 0 else 3 * 2 ^ (packed % 8 + 1)

-- Where the blocks of a GIF start.
unfoldable pub first_block : Bytes → ℕ
unfolding color_table byte_at
first_block bytes = 13 + color_table (byte_at bytes 10)

unfoldable pub gif_count_step : Bytes → Scan ℕ → Step MediaLimit (Scan ℕ) ℕ
gif_count_step bytes s =
    let size = length bytes in
    let marker = byte_at bytes s.offset in
    let at = s.offset + 1 in
    let after = at + 9 + color_table (byte_at bytes (at + 8)) in
    if not (ltb s.offset size) || marker == 0x3b
    then stop (ok s.frames)
    else if marker == 0x21
    then step_after (skip_gif_sub_blocks bytes (at + 1))
        (λ offset. next (record s { offset = offset }))
    else if not (marker == 0x2c) || ltb size (at + 9) || leb size after
    then stop (ok s.frames)
    else step_after (skip_gif_sub_blocks bytes (after + 1))
        (λ offset. next (record { offset = offset; frames = s.frames + 1 }))

unfoldable pub gif_frame_count : Bytes → Outcome MediaLimit ℕ
unfolding walk gif_count_step skip_gif_sub_blocks first_block bytes_are_gif color_table byte_at
gif_frame_count bytes =
    if not (bytes_are_gif bytes) || ltb (length bytes) 13
    then ok 0
    else walk (suc (length bytes)) (gif_count_step bytes)
        (record { offset = first_block bytes; frames = 0 })

unfoldable pub gif_rect : Bytes → ℕ → ImageFrameRect
unfolding uint16_le
gif_rect bytes at = record {
  x = uint16_le bytes at;
  y = uint16_le bytes (at + 2);
  width = uint16_le bytes (at + 4);
  height = uint16_le bytes (at + 6);
}

unfoldable pub gif_rects_step :
    Bytes
    → Scan (List ImageFrameRect)
    → Step MediaLimit (Scan (List ImageFrameRect)) (List ImageFrameRect)
gif_rects_step bytes s =
    let size = length bytes in
    let marker = byte_at bytes s.offset in
    let at = s.offset + 1 in
    let after = at + 9 + color_table (byte_at bytes (at + 8)) in
    let frames = s.frames ++ (gif_rect bytes at ∷ []) in
    if not (ltb s.offset size) || marker == 0x3b
    then stop (ok s.frames)
    else if marker == 0x21
    then (if leb size at
        then stop (ok s.frames)
        else step_after (skip_gif_sub_blocks bytes (at + 1))
            (λ offset. next (record s { offset = offset })))
    else if not (marker == 0x2c) || ltb size (at + 9)
    then stop (ok s.frames)
    else if leb size after
    then stop (ok frames)
    else step_after (skip_gif_sub_blocks bytes (after + 1))
        (λ offset. next (record { offset = offset; frames = frames }))

unfoldable pub gif_frame_rects : Bytes → Outcome MediaLimit (List ImageFrameRect)
unfolding walk gif_rects_step skip_gif_sub_blocks first_block bytes_are_gif color_table byte_at
    gif_rect
gif_frame_rects bytes =
    if not (bytes_are_gif bytes) || ltb (length bytes) 13
    then ok []
    else walk (suc (length bytes)) (gif_rects_step bytes)
        (record { offset = first_block bytes; frames = [] })

unfoldable pub gif_dimensions : Bytes → Option ImageDimensions
unfolding bytes_are_gif uint16_le
gif_dimensions bytes =
    if not (bytes_are_gif bytes) || ltb (length bytes) 13
    then none
    else some (record { width = uint16_le bytes 6; height = uint16_le bytes 8 })
