-- ===== src/Media/Image/Ends/Gif.antt =====
-- The loops of the GIF readers of lib/matrix/media.ts.
use sub_etha.Prelude.{
  ℕ, suc, ◌+◌, ◌≤◌, ◌<◌, List, length, Outcome, ok, refused, out_of_fuel, next, step_after, Ends,
  Advances, Ends-walk, arith, ◌++◌, ◌∷◌, [],
}
use sub_etha.Media.Image.Gif.{
  first_block, color_table, gif_rect, sub_block_step, skip_gif_sub_blocks, gif_count_step,
  gif_frame_count, gif_rects_step, gif_frame_rects,
}
use sub_etha.Media.Image.{Bytes, byte_at, ImageFrameRect, MediaLimit, Scan}
use sub_etha.Media.Image.Ends.{bytes_left, scan_left, Anywhere, loop-Ends}

module _ (bytes : Bytes) where
  sub_block-Advances :
      (start offset : ℕ)
      → start ≤ offset
      → Advances
          (λ o. start ≤ o)
          (bytes_left bytes)
          (λ o. start ≤ o)
          offset
          (sub_block_step bytes offset)
  unfolding sub_block_step
  sub_block-Advances start offset le = ground arith

  Ends-skip_gif_sub_blocks : (start : ℕ) → Ends (λ o. start ≤ o) (skip_gif_sub_blocks bytes start)
  unfolding skip_gif_sub_blocks
  Ends-skip_gif_sub_blocks start =
      Ends-walk (λ o. start ≤ o) (bytes_left bytes) (λ o. start ≤ o) (sub_block_step bytes)
        (λ o le. sub_block-Advances start o le) (suc (length bytes)) start (omega arith)
        (omega arith)

  -- A round that goes on behind the blocks it skips has advanced.
  step_after-Advances :
      {A : Type 0} (s : Scan A) (start : ℕ) (o : Outcome MediaLimit ℕ) (frames : A)
      → s.offset < length bytes
      → s.offset < start
      → Ends (λ o. start ≤ o) o
      → Advances
          (Anywhere bytes (Scan A))
          (scan_left bytes)
          (Anywhere bytes A)
          s
          (step_after o (λ offset. next (record { offset = offset; frames = frames })))
  step_after-Advances s start (ok o) frames lt further e = (tt, omega arith)
  step_after-Advances s start (refused l) frames lt further e = tt
  step_after-Advances s start out_of_fuel frames lt further e = e

  skip-Advances :
      {A : Type 0} (s : Scan A) (start : ℕ) (frames : A)
      → s.offset < length bytes
      → s.offset < start
      → Advances (Anywhere bytes (Scan A)) (scan_left bytes) (Anywhere bytes A) s (
          step_after
            (skip_gif_sub_blocks bytes start)
            (λ offset. next (record { offset = offset; frames = frames })))
  skip-Advances s start frames lt further =
      step_after-Advances s start (skip_gif_sub_blocks bytes start) frames lt further
        (Ends-skip_gif_sub_blocks start)

  -- Behind the descriptor of an image and its colour table.
  abbrev behind_image : {A : Type 0} → Scan A → ℕ
  behind_image s = s.offset + 1 + 9 + color_table (byte_at bytes (s.offset + 1 + 8)) + 1

  gif_count-Advances :
      (s : Scan ℕ)
      → Advances
          (Anywhere bytes (Scan ℕ))
          (scan_left bytes)
          (Anywhere bytes ℕ)
          s
          (gif_count_step bytes s)
  unfolding gif_count_step
  gif_count-Advances s = ground (
    arith,
    skip-Advances s (s.offset + 1 + 1) s.frames,
    skip-Advances s (behind_image s) (s.frames + 1),
  )

  gif_rects-Advances :
      (s : Scan (List ImageFrameRect))
      → Advances
          (Anywhere bytes (Scan (List ImageFrameRect)))
          (scan_left bytes)
          (Anywhere bytes (List ImageFrameRect))
          s
          (gif_rects_step bytes s)
  unfolding gif_rects_step
  gif_rects-Advances s = ground (
    arith,
    skip-Advances s (s.offset + 1 + 1) s.frames,
    skip-Advances s (behind_image s) (s.frames ++ (gif_rect bytes (s.offset + 1) ∷ [])),
  )

  pub Ends-gif_frame_count : Ends (Anywhere bytes ℕ) (gif_frame_count bytes)
  unfolding gif_frame_count
  Ends-gif_frame_count = ground (
    arith,
    loop-Ends bytes (scan_left bytes) (gif_count_step bytes) gif_count-Advances (λ s. omega arith)
        (record { offset = first_block bytes; frames = 0 }),
  )

  pub Ends-gif_frame_rects : Ends (Anywhere bytes (List ImageFrameRect)) (gif_frame_rects bytes)
  unfolding gif_frame_rects
  Ends-gif_frame_rects = ground (
    arith,
    loop-Ends bytes (scan_left bytes) (gif_rects_step bytes) gif_rects-Advances (λ s. omega arith)
        (record { offset = first_block bytes; frames = [] }),
  )
