-- ===== src/Media/Image/Webp.antt =====
-- The WebP readers of lib/matrix/media.ts: `webpFrameCount`, `webpFrameRects` and `webpDimensions`.
use sub_etha.Prelude.{
  ℕ, suc, ◌+◌, ◌*◌, ◌/◌, ◌%◌, Bool, not, ◌&&◌, ◌||◌, List, [], ◌∷◌, ◌++◌, Option, none, some,
  if◌then◌else◌, ltb, leb, ◌==◌, length, max, Outcome, ok, refused, Step, next, stop, walk, ◌>>=◌,
}
use sub_etha.Media.Image.{
  Bytes, byte_at, tag_at, uint16_le, uint24_le, uint32_le, is_webp, ImageFrameRect, ImageDimensions,
  MediaLimit, invalid_frames, Scan,
}

-- The length of the data of the chunk at `offset`.
unfoldable pub data_size : Bytes → ℕ → ℕ
unfolding uint32_le
data_size bytes offset = uint32_le bytes (offset + 4)

-- `offset + 8 > size`: the loop ends.
abbrev pub past_chunks : Bytes → ℕ → Bool
past_chunks bytes offset = ltb (length bytes) (offset + 8)

-- `length > size - offset - 8`
abbrev pub overruns : Bytes → ℕ → Bool
overruns bytes offset = ltb (length bytes) (offset + 8 + data_size bytes offset)

-- Behind a chunk and its padding.
unfoldable pub next_chunk : Bytes → ℕ → ℕ
unfolding data_size
next_chunk bytes offset = offset + 8 + data_size bytes offset + data_size bytes offset % 2

unfoldable pub webp_count_step : Bytes → Scan ℕ → Step MediaLimit (Scan ℕ) ℕ
unfolding data_size next_chunk tag_at
webp_count_step bytes s =
    if past_chunks bytes s.offset || overruns bytes s.offset
    then stop (ok s.frames)
    else next (record {
      offset = next_chunk bytes s.offset;
      frames = if tag_at bytes s.offset "ANMF" then s.frames + 1 else s.frames;
    })

unfoldable pub webp_frame_count : Bytes → Outcome MediaLimit ℕ
unfolding walk webp_count_step is_webp
webp_frame_count bytes =
    if not (is_webp bytes)
    then ok 0
    else walk (suc (length bytes)) (webp_count_step bytes) (record { offset = 12; frames = 0 })
      >>= λ frames. ok (max 1 frames)

unfoldable pub webp_rect : Bytes → ℕ → ImageFrameRect
unfolding uint24_le
webp_rect bytes at = record {
  x = uint24_le bytes at * 2;
  y = uint24_le bytes (at + 3) * 2;
  width = uint24_le bytes (at + 6) + 1;
  height = uint24_le bytes (at + 9) + 1;
}

unfoldable pub webp_rects_step :
    Bytes
    → Scan (List ImageFrameRect)
    → Step MediaLimit (Scan (List ImageFrameRect)) (List ImageFrameRect)
unfolding data_size next_chunk tag_at webp_rect
webp_rects_step bytes s =
    let animation = tag_at bytes s.offset "ANMF" in
    if past_chunks bytes s.offset || overruns bytes s.offset
    then stop (ok s.frames)
    else if animation && ltb (data_size bytes s.offset) 16
    then stop (refused invalid_frames)
    else next (record {
      offset = next_chunk bytes s.offset;
      frames =
          if animation && leb 16 (data_size bytes s.offset)
          then s.frames ++ (webp_rect bytes (s.offset + 8) ∷ [])
          else s.frames;
    })

unfoldable pub webp_frame_rects : Bytes → Outcome MediaLimit (List ImageFrameRect)
unfolding walk webp_rects_step is_webp
webp_frame_rects bytes =
    if not (is_webp bytes)
    then ok []
    else walk (suc (length bytes)) (webp_rects_step bytes) (record { offset = 12; frames = [] })

-- The dimensions in the chunk at `offset` with its data at `at`, if it is one that has them.
unfoldable pub chunk_dimensions : Bytes → ℕ → ℕ → Option ImageDimensions
unfolding data_size tag_at uint24_le uint16_le byte_at
chunk_dimensions bytes offset at =
    let size = data_size bytes offset in
    if tag_at bytes offset "VP8X" && leb 10 size
    then some
        (record { width = uint24_le bytes (at + 4) + 1; height = uint24_le bytes (at + 7) + 1 })
    else if tag_at bytes offset "VP8 "
        && leb 10 size
        && byte_at bytes (at + 3) == 0x9d
        && byte_at bytes (at + 4) == 0x01
        && byte_at bytes (at + 5) == 0x2a
    then some (record {
      width = uint16_le bytes (at + 6) % 0x4000;
      height = uint16_le bytes (at + 8) % 0x4000;
    })
    else if tag_at bytes offset "VP8L" && leb 5 size && byte_at bytes at == 0x2f
    then some (record {
      width = 1 + byte_at bytes (at + 1) + byte_at bytes (at + 2) % 0x40 * 256;
      height =
          1
          + byte_at bytes (at + 2) / 64
          + byte_at bytes (at + 3) * 4
          + byte_at bytes (at + 4) % 0x10 * 1024;
    })
    else none

unfoldable pub webp_dimensions_step : Bytes → ℕ → Step MediaLimit ℕ (Option ImageDimensions)
unfolding next_chunk chunk_dimensions data_size
webp_dimensions_step bytes offset =
    if past_chunks bytes offset || overruns bytes offset
    then stop (ok none)
    else elim (chunk_dimensions bytes offset (offset + 8)) [
      | some d ↦ stop (ok (some d))
      | none ↦ next (next_chunk bytes offset)
    ]

unfoldable pub webp_dimensions : Bytes → Outcome MediaLimit (Option ImageDimensions)
unfolding walk webp_dimensions_step is_webp
webp_dimensions bytes =
    if ltb (length bytes) 20 || not (is_webp bytes)
    then ok none
    else walk (suc (length bytes)) (webp_dimensions_step bytes) 12
