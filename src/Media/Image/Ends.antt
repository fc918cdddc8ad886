-- ===== src/Media/Image/Ends.antt =====
-- What the children share about the ends of the loops over the bytes of an image.
pub mod Gif
pub mod Chunks
pub mod Jpeg
use sub_etha.Prelude.{
  if◌then◌else◌, ℕ, suc, ◌+◌, ◌-◌, ◌≤◌, ◌<◌, Bool, true, false, List, Option, none, some, ltb, leb,
  ◌==◌, length, Outcome, ok, refused, out_of_fuel, Step, next, stop, step_after, walk, Ends,
  Advances, Ends-walk, arith, if_intro, not, ◌||◌, ◌++◌, ◌∷◌, [],
}
use sub_etha.Media.Image.Jpeg.{fill_step, skip_fill, marker_step, jpeg_step, jpeg_dimensions}
use sub_etha.Media.Image.Png.{
  no_chunk, png_count_step, png_frame_count, png_rects_step, png_frame_rects,
}
use sub_etha.Media.Image.Webp.{
  next_chunk, chunk_dimensions, webp_count_step, webp_frame_count, webp_rects_step,
  webp_frame_rects, webp_dimensions_step, webp_dimensions,
}
use sub_etha.Media.Image.Gif.{
  first_block, color_table, gif_rect, sub_block_step, skip_gif_sub_blocks, gif_count_step,
  gif_frame_count, gif_rects_step, gif_frame_rects,
}
use sub_etha.Media.Image.{Bytes, byte_at, ImageFrameRect, ImageDimensions, MediaLimit, Scan}

module _ (bytes : Bytes) where
  abbrev pub bytes_left : ℕ → ℕ
  bytes_left offset = length bytes - offset

  abbrev pub scan_left : {A : Type 0} → Scan A → ℕ
  scan_left s = length bytes - s.offset

  abbrev pub Anywhere : (S : Type 0) → S → Type 0
  Anywhere S s = Unit

  -- A loop that may stand anywhere ends.
  pub loop-Ends :
      {S A : Type 0} (left : S → ℕ) (step : S → Step MediaLimit S A)
      → ((s : S) → Advances (Anywhere S) left (Anywhere A) s (step s))
      → ((s : S) → left s ≤ length bytes)
      → (s : S) → Ends (Anywhere A) (walk (suc (length bytes)) step s)
  loop-Ends {S} {A} left step h near s =
      Ends-walk (Anywhere S) left (Anywhere A) step (λ s u. h s) (suc (length bytes)) s tt
        (omega (arith, near s))
