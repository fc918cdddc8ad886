-- ===== src/Media/Image/Accepted.antt =====
-- What `assertSafeImageBytes` of lib/matrix/media.ts promises of the images that it lets through.
use sub_etha.Prelude.{
  ℕ, ◌+◌, ◌*◌, ◌/◌, ◌≤◌, ◌<◌, ◌≡◌, ◌≢◌, false, List, [], ◌∷◌, ltb, length, All, if_intro,
  option_intro, ok, out_of_fuel, Ends, Ends->>=, Ends-map, Ends-refuse_if, Ends-finished, Ends-ok,
  arith,
}
use native.Mathlib.Nat.{le-div_iff_mul-le, mul-pos}
use sub_etha.Media.Image.Ends.Chunks.{
  Ends-png_frame_count, Ends-png_frame_rects, Ends-png_dimensions, Ends-webp_frame_count,
  Ends-webp_frame_rects, Ends-webp_dimensions,
}
use sub_etha.Media.Image.Ends.Gif.{Ends-gif_frame_count, Ends-gif_frame_rects}
use sub_etha.Media.Image.Ends.Jpeg.{Ends-jpeg_dimensions}
use sub_etha.Media.Image.Safety.{
  unsafe_frame, exceeds_preview, disagree, safety, validate_frame_rects, still_or_webp_count,
  image_frame_count, safe_raster_mime_type, raster_dimensions, raster_frame_rects, check_frames,
  assert_safe_image_bytes,
}
use sub_etha.Media.Image.{
  Bytes, bytes_are_gif, is_png, is_jpeg, is_webp, ImageFrameRect, ImageDimensions, ImageSafety,
  MimeType, image_gif, image_jpeg, image_png, image_webp, MediaLimit, assert_media_byte_length,
  whole, max_image_bytes, max_image_edge, max_image_pixels, preview_pixels, invalid_frames,
  decode_limit,
}

-- A frame with an area, inside a canvas.
abbrev pub FitsIn : (canvas_width canvas_height : ℕ) → ImageFrameRect → Type 0
FitsIn w h frame =
    (0 < frame.width)
    × (0 < frame.height)
    × (frame.x + frame.width ≤ w)
    × (frame.y + frame.height ≤ h)

-- What the preview of an image costs: its bytes, its edges, its pixels in all frames, and its frames,
-- which are those that the file describes.
abbrev pub IsSafe : Bytes → ImageSafety → Type 0
IsSafe bytes s =
    (length bytes ≤ max_image_bytes)
    × ((0 < s.width) × (s.width ≤ max_image_edge))
    × ((0 < s.height) × (s.height ≤ max_image_edge))
    × (s.frame_count * (s.width * s.height) ≤ max_image_pixels)
    × ((rects : List ImageFrameRect) × (raster_frame_rects bytes s.mime_type ≡ ok rects)
        × All (FitsIn s.width s.height) rects
        × (1 < s.frame_count → length rects ≡ s.frame_count))

module _ (w h : ℕ) where
  safe_frame-FitsIn : (frame : ImageFrameRect) → unsafe_frame w h frame ≡ false → FitsIn w h frame
  unfolding unsafe_frame
  safe_frame-FitsIn frame safe = ground arith

  Ends-validate_frame_rects :
      (frames : List ImageFrameRect)
      → Ends (λ u. All (FitsIn w h) frames) (validate_frame_rects frames w h)
  unfolding validate_frame_rects
  Ends-validate_frame_rects [] = tt
  Ends-validate_frame_rects (frame ∷ frames) =
      Ends-refuse_if (λ u. All (FitsIn w h) (frame ∷ frames)) (unsafe_frame w h frame) _ _
        (λ safe.
          Ends-map (λ u. All (FitsIn w h) frames) (λ u. All (FitsIn w h) (frame ∷ frames)) _
            (λ u fits. (safe_frame-FitsIn frame safe, fits)) (Ends-validate_frame_rects frames))

module _ (bytes : Bytes) where
  Ends-image_frame_count : Ends (λ n. Unit {0}) (image_frame_count bytes)
  unfolding image_frame_count still_or_webp_count
  Ends-image_frame_count =
      if_intro (Ends (λ n. Unit {0})) (bytes_are_gif bytes) _ _
        (λ h.
          Ends->>= (λ n. Unit {0}) (λ n. Unit {0}) _ _ (Ends-gif_frame_count bytes)
            (λ frames e u. tt))
        (λ h.
          Ends->>= (λ n. Unit {0}) (λ n. Unit {0}) _ _ (Ends-png_frame_count bytes)
            (λ png e u.
              if_intro (Ends (λ n. Unit {0})) (ltb 0 png) _ _ (λ h. tt)
                (λ h.
                  Ends->>= (λ n. Unit {0}) (λ n. Unit {0}) _ _ (Ends-webp_frame_count bytes)
                    (λ frames e u. tt))))

  Ends-raster_dimensions : (m : MimeType) → Ends (λ d. Unit {0}) (raster_dimensions bytes m)
  unfolding raster_dimensions
  Ends-raster_dimensions image_gif = tt
  Ends-raster_dimensions image_png = Ends-png_dimensions bytes
  Ends-raster_dimensions image_jpeg = Ends-jpeg_dimensions bytes
  Ends-raster_dimensions image_webp = Ends-webp_dimensions bytes

  Ends-raster_frame_rects : (m : MimeType) → Ends (λ r. Unit {0}) (raster_frame_rects bytes m)
  unfolding raster_frame_rects
  Ends-raster_frame_rects image_gif = Ends-gif_frame_rects bytes
  Ends-raster_frame_rects image_png = Ends-png_frame_rects bytes
  Ends-raster_frame_rects image_jpeg = tt
  Ends-raster_frame_rects image_webp = Ends-webp_frame_rects bytes

  Ends-safe_raster_mime_type : Ends (λ m. Unit {0}) (safe_raster_mime_type bytes)
  unfolding safe_raster_mime_type
  Ends-safe_raster_mime_type =
      let any_type = if_intro (Ends {E = MediaLimit} {A = MimeType} (λ m. Unit {0})) in
      any_type (bytes_are_gif bytes) _ _ (λ h. tt)
        (λ h.
          any_type (is_png bytes) _ _ (λ h. tt)
            (λ h.
              any_type (is_jpeg bytes) _ _ (λ h. tt)
                (λ h. any_type (is_webp bytes) _ _ (λ h. tt) (λ h. tt))))

  within_budget :
      (n p : ℕ) → 0 < p → ltb (max_image_pixels / p) n ≡ false → n * p ≤ max_image_pixels
  within_budget n p positive h = (le-div_iff_mul-le positive).0 (ground arith)

  size_ok :
      Ends
        (λ u. length bytes ≤ max_image_bytes)
        (assert_media_byte_length (whole (length bytes)) (whole max_image_bytes))
  unfolding assert_media_byte_length
  size_ok = ground arith

  passed-IsSafe :
      (m : MimeType) (d : ImageDimensions) (n : ℕ) (rects : List ImageFrameRect)
      → length bytes ≤ max_image_bytes
      → exceeds_preview d ≡ false
      → raster_frame_rects bytes m ≡ ok rects
      → disagree n rects ≡ false
      → All (FitsIn d.width d.height) rects
      → ltb (max_image_pixels / (d.width * d.height)) n ≡ false
      → IsSafe bytes (safety d n m)
  unfolding exceeds_preview disagree
  passed-IsSafe m d n rects small edges read agree fit budget =
      let wide : 0 < d.width = ground arith in
      let high : 0 < d.height = ground arith in
      (
        small,
        (wide, ground arith),
        (high, ground arith),
        within_budget n (d.width * d.height) (mul-pos wide high) budget,
        (rects, read, fit, λ more. ground arith),
      )

  Ends-check_frames :
      (m : MimeType) (d : ImageDimensions)
      → length bytes ≤ max_image_bytes
      → Ends (IsSafe bytes) (check_frames bytes m d)
  unfolding check_frames
  Ends-check_frames m d small =
      Ends-refuse_if (IsSafe bytes) (exceeds_preview d) preview_pixels _ (λ edges.
        Ends->>= (λ n. Unit {0}) (IsSafe bytes) _ _ Ends-image_frame_count
          (λ n counted u.
            Ends->>= (λ r. Unit {0}) (IsSafe bytes) _ _ (Ends-raster_frame_rects m)
              (λ rects read u.
                Ends-refuse_if (IsSafe bytes) (disagree n rects) invalid_frames _ (λ agree.
                  Ends->>= (λ u. All (FitsIn d.width d.height) rects) (IsSafe bytes) _ _
                    (Ends-validate_frame_rects d.width d.height rects)
                    (λ u e fit.
                      Ends-refuse_if (IsSafe bytes) _ decode_limit _
                        (λ budget. passed-IsSafe m d n rects small edges read agree fit budget))))))

  Ends-assert_safe_image_bytes : Ends (IsSafe bytes) (assert_safe_image_bytes bytes)
  unfolding assert_safe_image_bytes
  Ends-assert_safe_image_bytes =
      Ends->>= (λ u. length bytes ≤ max_image_bytes) (IsSafe bytes) _ _ size_ok
        (λ u e small.
          Ends->>= (λ m. Unit {0}) (IsSafe bytes) _ _ Ends-safe_raster_mime_type
            (λ m e u.
              Ends->>= (λ d. Unit {0}) (IsSafe bytes) _ _ (Ends-raster_dimensions m)
                (λ found e u.
                  option_intro (Ends (IsSafe bytes)) found _ (check_frames bytes m) (λ e. tt)
                    (λ d e. Ends-check_frames m d small))))

-- `assertSafeImageBytes` always returns or throws: no input keeps one of the loops over the bytes, the
-- chunks, the sub-blocks or the markers from its end.
pub assert_safe_image_bytes_total : (bytes : Bytes) → assert_safe_image_bytes bytes ≢ out_of_fuel
assert_safe_image_bytes_total bytes =
    Ends-finished (IsSafe bytes) (assert_safe_image_bytes bytes)
      (Ends-assert_safe_image_bytes bytes)

-- An image that `assertSafeImageBytes` lets through has at most 64 MiB, edges from 1 to 16384, at most
-- 16 Mi pixels over all its frames, frames that have an area and lie in the canvas, and, where it has
-- more than one, as many placed frames as counted ones.
pub assert_safe_image_bytes-IsSafe :
    (bytes : Bytes) (s : ImageSafety) → assert_safe_image_bytes bytes ≡ ok s → IsSafe bytes s
assert_safe_image_bytes-IsSafe bytes s h =
    Ends-ok (IsSafe bytes) (Ends-assert_safe_image_bytes bytes) h
