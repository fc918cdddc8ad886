-- ===== src/Media/Image/Safety.antt =====
-- `safeRasterMimeType`, `rasterDimensions`, `imageFrameCount`, `validateFrameRects` and
-- `assertSafeImageBytes` of lib/matrix/media.ts.
use sub_etha.Prelude.{
  ℕ, ◌+◌, ◌*◌, ◌/◌, Bool, not, ◌&&◌, ◌||◌, List, [], ◌∷◌, Option, none, some, if◌then◌else◌, ltb,
  leb, ◌==◌, length, max, Outcome, ok, refused, ◌>>=◌, ◌>>◌, refuse_if,
}
use sub_etha.Media.Gate.{max_safe_integer}
use sub_etha.Media.Image.Gif.{gif_frame_count, gif_frame_rects, gif_dimensions}
use sub_etha.Media.Image.Jpeg.{jpeg_dimensions}
use sub_etha.Media.Image.Png.{png_frame_count, png_frame_rects, png_dimensions}
use sub_etha.Media.Image.Webp.{webp_frame_count, webp_frame_rects, webp_dimensions}
use sub_etha.Media.Image.{
  Bytes, bytes_are_gif, is_png, is_jpeg, is_webp, ImageFrameRect, ImageDimensions, ImageSafety,
  MimeType, image_gif, image_jpeg, image_png, image_webp, MediaLimit, preview_pixels, frame_limits,
  unsafe_format, invalid_frames, decode_limit, whole, assert_media_byte_length, max_image_bytes,
  max_image_edge, max_image_pixels,
}

-- The test of one frame, with `isSafeNonNegativeInteger` of its four numbers.
unfoldable pub unsafe_frame : (canvas_width canvas_height : ℕ) → ImageFrameRect → Bool
unsafe_frame canvas_width canvas_height frame =
    not (leb frame.x max_safe_integer)
    || not (leb frame.y max_safe_integer)
    || not (leb frame.width max_safe_integer)
    || not (leb frame.height max_safe_integer)
    || leb frame.width 0
    || leb frame.height 0
    || ltb max_image_edge frame.width
    || ltb max_image_edge frame.height
    || ltb max_image_pixels (frame.width * frame.height)
    || ltb canvas_width (frame.x + frame.width)
    || ltb canvas_height (frame.y + frame.height)

unfoldable pub validate_frame_rects :
    List ImageFrameRect → (canvas_width canvas_height : ℕ) → Outcome MediaLimit (Unit {0})
unfolding unsafe_frame
validate_frame_rects [] w h = ok tt
validate_frame_rects (frame ∷ frames) w h =
    refuse_if (unsafe_frame w h frame) frame_limits >> validate_frame_rects frames w h

unfoldable pub still_or_webp_count : Bytes → ℕ → Outcome MediaLimit ℕ
unfolding webp_frame_count
still_or_webp_count bytes png_frames =
    if ltb 0 png_frames
    then ok png_frames
    else webp_frame_count bytes >>= λ frames. ok (if ltb 0 frames then frames else 1)

unfoldable pub image_frame_count : Bytes → Outcome MediaLimit ℕ
unfolding gif_frame_count png_frame_count still_or_webp_count bytes_are_gif
image_frame_count bytes =
    if bytes_are_gif bytes
    then (gif_frame_count bytes >>= λ frames. ok (max 1 frames))
    else (png_frame_count bytes >>= still_or_webp_count bytes)

unfoldable pub safe_raster_mime_type : Bytes → Outcome MediaLimit MimeType
unfolding bytes_are_gif is_png is_jpeg is_webp
safe_raster_mime_type bytes =
    if bytes_are_gif bytes
    then ok image_gif
    else if is_png bytes
    then ok image_png
    else if is_jpeg bytes
    then ok image_jpeg
    else if is_webp bytes
    then ok image_webp
    else refused unsafe_format

unfoldable pub raster_dimensions : Bytes → MimeType → Outcome MediaLimit (Option ImageDimensions)
unfolding gif_dimensions png_dimensions jpeg_dimensions webp_dimensions
raster_dimensions bytes image_gif = ok (gif_dimensions bytes)
raster_dimensions bytes image_png = png_dimensions bytes
raster_dimensions bytes image_jpeg = jpeg_dimensions bytes
raster_dimensions bytes image_webp = webp_dimensions bytes

unfoldable pub raster_frame_rects : Bytes → MimeType → Outcome MediaLimit (List ImageFrameRect)
unfolding gif_frame_rects png_frame_rects webp_frame_rects
raster_frame_rects bytes image_gif = gif_frame_rects bytes
raster_frame_rects bytes image_png = png_frame_rects bytes
raster_frame_rects bytes image_jpeg = ok []
raster_frame_rects bytes image_webp = webp_frame_rects bytes

unfoldable pub exceeds_preview : ImageDimensions → Bool
exceeds_preview d =
    d.width == 0
    || d.height == 0
    || ltb max_image_edge d.width
    || ltb max_image_edge d.height
    || ltb max_image_pixels (d.width * d.height)

-- The frames that are counted are not the frames that are placed.
unfoldable pub disagree : ℕ → List ImageFrameRect → Bool
disagree frame_count frame_rects =
    (ltb 1 frame_count && length frame_rects == 0)
    || (ltb 0 (length frame_rects) && not (length frame_rects == frame_count))

abbrev pub safety : ImageDimensions → ℕ → MimeType → ImageSafety
safety d frame_count mime_type = record {
  width = d.width;
  height = d.height;
  frame_count = frame_count;
  animated = ltb 1 frame_count;
  mime_type = mime_type;
}

-- From the dimensions on.
unfoldable pub check_frames : Bytes → MimeType → ImageDimensions → Outcome MediaLimit ImageSafety
unfolding image_frame_count raster_frame_rects validate_frame_rects exceeds_preview disagree
check_frames bytes mime_type d = do
  refuse_if (exceeds_preview d) preview_pixels
  frame_count ← image_frame_count bytes
  let pixels = d.width * d.height
  frame_rects ← raster_frame_rects bytes mime_type
  refuse_if (disagree frame_count frame_rects) invalid_frames
  validate_frame_rects frame_rects d.width d.height
  refuse_if (ltb (max_image_pixels / pixels) frame_count) decode_limit
  ok (safety d frame_count mime_type)

unfoldable pub assert_safe_image_bytes : Bytes → Outcome MediaLimit ImageSafety
unfolding assert_media_byte_length safe_raster_mime_type raster_dimensions check_frames
assert_safe_image_bytes bytes = do
  assert_media_byte_length (whole (length bytes)) (whole max_image_bytes)
  mime_type ← safe_raster_mime_type bytes
  dimensions ← raster_dimensions bytes mime_type
  elim dimensions [ none ↦ refused unsafe_format | some d ↦ check_frames bytes mime_type d ]
