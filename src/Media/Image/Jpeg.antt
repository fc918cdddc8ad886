-- ===== src/Media/Image/Jpeg.antt =====
-- The JPEG reader of lib/matrix/media.ts: `isJpegStartOfFrame` and `jpegDimensions`.
use sub_etha.Prelude.{
  ℕ, suc, ◌+◌, Bool, not, ◌&&◌, ◌||◌, Option, none, some, if◌then◌else◌, ltb, leb, ◌==◌, length,
  Outcome, ok, Step, next, stop, step_after, walk,
}
use sub_etha.Media.Image.{Bytes, byte_at, uint16_be, ImageDimensions, MediaLimit}

unfoldable pub is_jpeg_start_of_frame : ℕ → Bool
is_jpeg_start_of_frame marker =
    leb 0xc0 marker && leb marker 0xcf && not (marker == 0xc4 || marker == 0xc8 || marker == 0xcc)

-- The fill bytes in front of a marker.
unfoldable pub fill_step : Bytes → ℕ → Step MediaLimit ℕ ℕ
fill_step bytes offset =
    if ltb offset (length bytes) && byte_at bytes offset == 0xff
    then next (offset + 1)
    else stop (ok offset)

unfoldable pub skip_fill : Bytes → ℕ → Outcome MediaLimit ℕ
unfolding walk fill_step
skip_fill bytes offset = walk (suc (length bytes)) (fill_step bytes) offset

-- A marker with no segment behind it.
abbrev pub stands_alone : ℕ → Bool
stands_alone marker = marker == 0x01 || marker == 0xd8 || (leb 0xd0 marker && leb marker 0xd7)

-- From the marker on, which is the byte before `offset`.
unfoldable pub marker_step : Bytes → ℕ → ℕ → Step MediaLimit ℕ (Option ImageDimensions)
unfolding is_jpeg_start_of_frame uint16_be
marker_step bytes marker offset =
    let size = uint16_be bytes offset in
    if marker == 0xd9 || marker == 0xda
    then stop (ok none)
    else if stands_alone marker
    then next offset
    else if ltb (length bytes) (offset + 2)
    then stop (ok none)
    else if ltb size 2 || ltb (length bytes) (offset + size)
    then stop (ok none)
    else if is_jpeg_start_of_frame marker
    then (if ltb size 7
        then stop (ok none)
        else stop (
            ok (
              some (record {
                width = uint16_be bytes (offset + 5);
                height = uint16_be bytes (offset + 3);
              }))))
    else next (offset + size)

unfoldable pub jpeg_step : Bytes → ℕ → Step MediaLimit ℕ (Option ImageDimensions)
unfolding skip_fill marker_step byte_at
jpeg_step bytes start =
    if not (ltb start (length bytes)) || not (byte_at bytes start == 0xff)
    then stop (ok none)
    else step_after (skip_fill bytes start) (λ offset.
      if leb (length bytes) offset
      then stop (ok none)
      else marker_step bytes (byte_at bytes offset) (offset + 1))

unfoldable pub jpeg_dimensions : Bytes → Outcome MediaLimit (Option ImageDimensions)
unfolding walk jpeg_step byte_at
jpeg_dimensions bytes =
    if ltb (length bytes) 4 || not (byte_at bytes 0 == 0xff) || not (byte_at bytes 1 == 0xd8)
    then ok none
    else walk (suc (length bytes)) (jpeg_step bytes) 2
