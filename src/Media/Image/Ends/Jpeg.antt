-- ===== src/Media/Image/Ends/Jpeg.antt =====
-- The loops of the JPEG reader of lib/matrix/media.ts.
use sub_etha.Prelude.{
  if◌then◌else◌, ℕ, suc, ◌+◌, ◌≤◌, ◌<◌, Option, none, leb, length, Outcome, ok, refused,
  out_of_fuel, stop, step_after, Ends, Advances, Ends-walk, arith,
}
use sub_etha.Media.Image.Jpeg.{fill_step, skip_fill, marker_step, jpeg_step, jpeg_dimensions}
use sub_etha.Media.Image.{Bytes, byte_at, ImageDimensions, MediaLimit}
use sub_etha.Media.Image.Ends.{bytes_left, Anywhere, loop-Ends}

module _ (bytes : Bytes) where
  fill-Advances :
      (start offset : ℕ)
      → start ≤ offset
      → Advances
          (λ o. start ≤ o)
          (bytes_left bytes)
          (λ o. start ≤ o)
          offset
          (fill_step bytes offset)
  unfolding fill_step
  fill-Advances start offset le = ground arith

  Ends-skip_fill : (start : ℕ) → Ends (λ o. start ≤ o) (skip_fill bytes start)
  unfolding skip_fill
  Ends-skip_fill start =
      Ends-walk (λ o. start ≤ o) (bytes_left bytes) (λ o. start ≤ o) (fill_step bytes)
        (λ o le. fill-Advances start o le) (suc (length bytes)) start (omega arith) (omega arith)

  marker-Advances :
      (start marker offset : ℕ)
      → start < length bytes
      → start < offset
      → Advances
          (Anywhere bytes ℕ)
          (bytes_left bytes)
          (Anywhere bytes (Option ImageDimensions))
          start
          (marker_step bytes marker offset)
  unfolding marker_step
  marker-Advances start marker offset lt further = ground arith

  behind_fill-Advances :
      (start : ℕ) (o : Outcome MediaLimit ℕ)
      → start < length bytes
      → Ends (λ o. start ≤ o) o
      → Advances
          (Anywhere bytes ℕ)
          (bytes_left bytes)
          (Anywhere bytes (Option ImageDimensions))
          start
          (step_after o (λ offset.
            if leb (length bytes) offset
            then stop (ok none)
            else marker_step bytes (byte_at bytes offset) (offset + 1)))
  behind_fill-Advances start (ok offset) lt e =
      ground (arith, marker-Advances start (byte_at bytes offset) (offset + 1))
  behind_fill-Advances start (refused l) lt e = tt
  behind_fill-Advances start out_of_fuel lt e = e

  jpeg-Advances :
      (start : ℕ)
      → Advances
          (Anywhere bytes ℕ)
          (bytes_left bytes)
          (Anywhere bytes (Option ImageDimensions))
          start
          (jpeg_step bytes start)
  unfolding jpeg_step
  jpeg-Advances start =
      ground (arith, behind_fill-Advances start (skip_fill bytes start), Ends-skip_fill start)

  pub Ends-jpeg_dimensions : Ends (Anywhere bytes (Option ImageDimensions)) (jpeg_dimensions bytes)
  unfolding jpeg_dimensions
  Ends-jpeg_dimensions = ground (
    arith,
    loop-Ends bytes (bytes_left bytes) (jpeg_step bytes) jpeg-Advances (λ s. omega arith) 2,
  )
