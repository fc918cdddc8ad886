-- ===== src/Media/Image/Ends/Chunks.antt =====
-- The loops over the chunks of a PNG and of a WebP in lib/matrix/media.ts.
use sub_etha.Prelude.{
  ◌||◌, suc, if_intro, Ends->>=, ltb, not, walk, ℕ, ◌+◌, ◌<◌, List, Option, none, some, length, ok,
  next, stop, Ends, Advances, arith, [],
}
use sub_etha.Media.Image.Png.{
  png_dimensions, no_chunk, png_count_step, png_frame_count, png_rects_step, png_frame_rects,
}
use sub_etha.Media.Image.Webp.{
  past_chunks, overruns, webp_frame_count, next_chunk, chunk_dimensions, webp_count_step,
  webp_rects_step, webp_frame_rects, webp_dimensions_step, webp_dimensions,
}
use sub_etha.Media.Image.{Bytes, ImageFrameRect, ImageDimensions, Scan}
use sub_etha.Media.Image.{is_webp, MediaLimit}
use sub_etha.Media.Image.Ends.{bytes_left, scan_left, Anywhere, loop-Ends}

module _ (bytes : Bytes) where
  png_count-Advances :
      (offset : ℕ)
      → Advances
          (Anywhere bytes ℕ)
          (bytes_left bytes)
          (Anywhere bytes ℕ)
          offset
          (png_count_step bytes offset)
  unfolding png_count_step no_chunk
  png_count-Advances offset = ground arith

  pub Ends-png_frame_count : Ends (Anywhere bytes ℕ) (png_frame_count bytes)
  unfolding png_frame_count
  Ends-png_frame_count = ground (
    arith,
    loop-Ends bytes (bytes_left bytes) (png_count_step bytes) png_count-Advances (λ s. omega arith)
        8,
  )

  png_rects-Advances :
      (s : Scan (List ImageFrameRect))
      → Advances
          (Anywhere bytes (Scan (List ImageFrameRect)))
          (scan_left bytes)
          (Anywhere bytes (List ImageFrameRect))
          s
          (png_rects_step bytes s)
  unfolding png_rects_step no_chunk
  png_rects-Advances s = ground arith

  pub Ends-png_frame_rects : Ends (Anywhere bytes (List ImageFrameRect)) (png_frame_rects bytes)
  unfolding png_frame_rects
  Ends-png_frame_rects = ground (
    arith,
    loop-Ends bytes (scan_left bytes) (png_rects_step bytes) png_rects-Advances (λ s. omega arith)
        (record { offset = 8; frames = [] }),
  )

  webp_count-Advances :
      (s : Scan ℕ)
      → Advances
          (Anywhere bytes (Scan ℕ))
          (scan_left bytes)
          (Anywhere bytes ℕ)
          s
          (webp_count_step bytes s)
  unfolding webp_count_step next_chunk
  webp_count-Advances s = ground arith

  webp_rects-Advances :
      (s : Scan (List ImageFrameRect))
      → Advances
          (Anywhere bytes (Scan (List ImageFrameRect)))
          (scan_left bytes)
          (Anywhere bytes (List ImageFrameRect))
          s
          (webp_rects_step bytes s)
  unfolding webp_rects_step next_chunk
  webp_rects-Advances s = ground arith

  pub Ends-webp_frame_rects : Ends (Anywhere bytes (List ImageFrameRect)) (webp_frame_rects bytes)
  unfolding webp_frame_rects
  Ends-webp_frame_rects = ground (
    arith,
    loop-Ends bytes (scan_left bytes) (webp_rects_step bytes) webp_rects-Advances (λ s. omega arith)
        (record { offset = 12; frames = [] }),
  )

  found-Advances :
      (offset : ℕ) (found : Option ImageDimensions)
      → offset < length bytes
      → Advances {E = MediaLimit}
          (Anywhere bytes ℕ)
          (bytes_left bytes)
          (Anywhere bytes (Option ImageDimensions))
          offset
          (elim found [ some d ↦ stop (ok (some d)) | none ↦ next (next_chunk bytes offset) ])
  unfolding next_chunk
  found-Advances offset none lt = (tt, omega arith)
  found-Advances offset (some d) lt = tt

  webp_dimensions-Advances :
      (offset : ℕ)
      → Advances
          (Anywhere bytes ℕ)
          (bytes_left bytes)
          (Anywhere bytes (Option ImageDimensions))
          offset
          (webp_dimensions_step bytes offset)
  unfolding webp_dimensions_step
  webp_dimensions-Advances offset =
      if_intro
        (Advances {E = MediaLimit} (Anywhere bytes ℕ) (bytes_left bytes)
          (Anywhere bytes (Option ImageDimensions)) offset)
        (past_chunks bytes offset || overruns bytes offset) _ _ (λ h. tt)
        (λ inside.
          found-Advances offset (chunk_dimensions bytes offset (offset + 8)) (ground arith))

  pub Ends-webp_dimensions : Ends (Anywhere bytes (Option ImageDimensions)) (webp_dimensions bytes)
  unfolding webp_dimensions
  Ends-webp_dimensions = ground (
    arith,
    loop-Ends bytes (bytes_left bytes) (webp_dimensions_step bytes) webp_dimensions-Advances
        (λ s. omega arith) 12,
  )

  webp_rounds-Ends :
      Ends
        (Anywhere bytes ℕ)
        (walk (suc (length bytes)) (webp_count_step bytes) (record { offset = 12; frames = 0 }))
  webp_rounds-Ends =
      loop-Ends bytes (scan_left bytes) (webp_count_step bytes) webp_count-Advances
        (λ s. omega arith) (record { offset = 12; frames = 0 })

  pub Ends-webp_frame_count : Ends (Anywhere bytes ℕ) (webp_frame_count bytes)
  unfolding webp_frame_count
  Ends-webp_frame_count =
      if_intro (Ends (Anywhere bytes ℕ)) (not (is_webp bytes)) _ _ (λ h. tt)
        (λ h.
          Ends->>= (Anywhere bytes ℕ) (Anywhere bytes ℕ) _ _ webp_rounds-Ends (λ frames e u. tt))

  pub Ends-png_dimensions : Ends (Anywhere bytes (Option ImageDimensions)) (png_dimensions bytes)
  unfolding png_dimensions
  Ends-png_dimensions =
      if_intro (Ends (Anywhere bytes (Option ImageDimensions))) (ltb (length bytes) 24) _ _
        (λ h. tt)
        (λ h.
          Ends->>= (Anywhere bytes ℕ) (Anywhere bytes (Option ImageDimensions)) _ _
            Ends-png_frame_count (λ frames e u. tt))
