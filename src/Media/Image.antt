-- ===== src/Media/Image.antt =====
-- The image headers that lib/matrix/media.ts reads: its limits, its types and the reads of a
-- `Uint8Array`, which is a list of bytes. The source reads inside the array only, so that a byte past
-- the end, which is never used, counts as 0. A shift or a disjunction of bytes is written as the sum.
pub mod Gif
pub mod Png
pub mod Jpeg
pub mod Webp
pub mod WebpFrames
pub mod Safety
pub mod Ends
pub mod Accepted
pub mod Tests
use Prim.Native.String.{String}
use sub_etha.Prelude.{
  ℕ, ◌+◌, ◌*◌, ◌/◌, ◌%◌, ◌^◌, Text, codes, text_eq, Bool, true, false, not, ◌&&◌, ◌||◌, List, [],
  ◌∷◌, Option, none, some, if◌then◌else◌, ltb, leb, ◌==◌, length, get_elem?, take, drop, Outcome,
  ok, refused, ◌>>=◌, ◌>>◌, refuse_if,
}
use sub_etha.Media.Gate.{max_safe_integer}

abbrev pub max_image_bytes : ℕ
max_image_bytes = 64 * 1024 * 1024

abbrev pub max_image_decoded_bytes : ℕ
max_image_decoded_bytes = 64 * 1024 * 1024

abbrev pub max_image_pixels : ℕ
max_image_pixels = max_image_decoded_bytes / 4

abbrev pub max_image_edge : ℕ
max_image_edge = 16384

-- The messages of `MediaLimitError`.
pub data MediaLimit : Type 0 where
  oversized : (maximum_bytes : Option ℕ) → MediaLimit
  preview_dimensions preview_pixels frame_limits : MediaLimit
  unsafe_format invalid_frames decode_limit : MediaLimit

pub data MimeType : Type 0 where
  image_gif image_jpeg image_png image_webp : MimeType

pub record ImageFrameRect : Type 0 where
  pub x : ℕ
  pub y : ℕ
  pub width : ℕ
  pub height : ℕ

pub record ImageDimensions : Type 0 where
  pub width : ℕ
  pub height : ℕ

pub record ImageSafety : Type 0 where
  pub width : ℕ
  pub height : ℕ
  pub frame_count : ℕ
  pub animated : Bool
  pub mime_type : MimeType

-- The variables of a loop over the bytes: where it stands, and the frames so far.
pub record Scan (A : Type 0) : Type 0 where
  pub offset : ℕ
  pub frames : A

abbrev pub Bytes : Type 0
Bytes = List ℕ

unfoldable pub byte_at : Bytes → ℕ → ℕ
byte_at bytes i = elim (get_elem? bytes i) [ none ↦ 0 | some b ↦ b ]

-- `String.fromCharCode(...bytes.slice(at, at + 4)) === tag`
unfoldable pub tag_at : Bytes → ℕ → String → Bool
unfolding text_eq
tag_at bytes at tag = text_eq (take 4 (drop at bytes)) (codes tag)

-- `view.getUint16(at, true)`
unfoldable pub uint16_le : Bytes → ℕ → ℕ
unfolding byte_at
uint16_le bytes at = byte_at bytes at + 256 * byte_at bytes (at + 1)

-- `(bytes[at] << 8) | bytes[at + 1]`
unfoldable pub uint16_be : Bytes → ℕ → ℕ
unfolding byte_at
uint16_be bytes at = 256 * byte_at bytes at + byte_at bytes (at + 1)

unfoldable pub uint24_le : Bytes → ℕ → ℕ
unfolding byte_at uint16_le
uint24_le bytes at = uint16_le bytes at + 65536 * byte_at bytes (at + 2)

-- `view.getUint32(at, true)`
unfoldable pub uint32_le : Bytes → ℕ → ℕ
unfolding uint16_le
uint32_le bytes at = uint16_le bytes at + 65536 * uint16_le bytes (at + 2)

-- `view.getUint32(at)`
unfoldable pub uint32_be : Bytes → ℕ → ℕ
unfolding uint16_be
uint32_be bytes at = 65536 * uint16_be bytes at + uint16_be bytes (at + 2)

unfoldable pub bytes_are_gif : Bytes → Bool
unfolding text_eq
bytes_are_gif bytes =
    not (ltb (length bytes) 6)
    && (text_eq (take 6 bytes) (codes "GIF87a") || text_eq (take 6 bytes) (codes "GIF89a"))

abbrev pub png_signature : Bytes
png_signature = 137 ∷ 80 ∷ 78 ∷ 71 ∷ 13 ∷ 10 ∷ 26 ∷ 10 ∷ []

unfoldable pub is_png : Bytes → Bool
unfolding text_eq
is_png bytes = leb 8 (length bytes) && text_eq (take 8 bytes) png_signature

unfoldable pub is_jpeg : Bytes → Bool
unfolding byte_at
is_jpeg bytes =
    leb 3 (length bytes)
    && byte_at bytes 0 == 0xff
    && byte_at bytes 1 == 0xd8
    && byte_at bytes 2 == 0xff

unfoldable pub is_webp : Bytes → Bool
unfolding tag_at
is_webp bytes = leb 12 (length bytes) && tag_at bytes 0 "RIFF" && tag_at bytes 8 "WEBP"

-- A JavaScript number: a whole one that is not negative, or any other.
pub data Number : Type 0 where
  whole : ℕ → Number
  other : Number

abbrev pub is_safe_non_negative_integer : Number → Bool
is_safe_non_negative_integer (whole n) = leb n max_safe_integer
is_safe_non_negative_integer other = false

abbrev pub maximum_of : Number → Option ℕ
maximum_of (whole n) = some n
maximum_of other = none

unfoldable pub assert_media_byte_length : Number → Number → Outcome MediaLimit (Unit {0})
assert_media_byte_length (whole n) (whole maximum) =
    refuse_if (not (leb n max_safe_integer) || not (leb maximum max_safe_integer) || ltb maximum n)
      (oversized (some maximum))
assert_media_byte_length n maximum = refused (oversized (maximum_of maximum))

-- One of the two dimensions.
unfoldable pub assert_dimension : Option Number → Outcome MediaLimit (Unit {0})
assert_dimension none = ok tt
assert_dimension (some other) = refused preview_dimensions
assert_dimension (some (whole n)) =
    refuse_if (not (leb n max_safe_integer) || leb n 0 || ltb max_image_edge n) preview_dimensions

-- `media.width !== undefined && media.height !== undefined && …`, with both sizes whole by then.
abbrev pub exceeds_pixels : Option Number → Option Number → Bool
exceeds_pixels (some (whole w)) (some (whole h)) = ltb max_image_pixels (w * h)
exceeds_pixels w h = false

unfoldable pub assert_declared_size : Option Number → Number → Outcome MediaLimit (Unit {0})
assert_declared_size none maximum = ok tt
assert_declared_size (some n) maximum = assert_media_byte_length n maximum

unfoldable pub assert_declared_media_limits :
    (size width height : Option Number) → (maximum_bytes : Number) → Outcome MediaLimit (Unit {0})
assert_declared_media_limits size width height maximum = do
  assert_declared_size size maximum
  assert_dimension width
  assert_dimension height
  refuse_if (exceeds_pixels width height) preview_pixels
