-- ===== src/Media/Image/Tests.antt =====
-- Small images, for the tests of the readers of lib/matrix/media.ts.
use sub_etha.Prelude.{
  ℕ, ◌≡◌, refl, true, false, List, [], ◌∷◌, ◌++◌, take, codes, ok, refused, ◌≢◌, out_of_fuel,
}
use sub_etha.Media.Image.Accepted.{
  IsSafe, assert_safe_image_bytes_total, assert_safe_image_bytes-IsSafe,
}
use sub_etha.Media.Image.Safety.{assert_safe_image_bytes}
use sub_etha.Media.Image.WebpFrames.{webp_frame_count-webp_frame_rects}
use sub_etha.Media.Image.Webp.{webp_frame_rects, webp_frame_count}
use sub_etha.Media.Image.{
  Bytes, ImageSafety, image_gif, image_webp, is_webp, ImageFrameRect, unsafe_format, frame_limits,
}

-- A frame of one pixel at the given column, with one block of data.
abbrev gif_frame : ℕ → Bytes
gif_frame x = 0x2c ∷ x ∷ 0 ∷ 0 ∷ 0 ∷ 1 ∷ 0 ∷ 1 ∷ 0 ∷ 0 ∷ 2 ∷ 1 ∷ 0x44 ∷ 0 ∷ []

-- Two frames on a canvas of two pixels.
abbrev two_frames : Bytes
two_frames =
    codes "GIF89a"
    ++ (2 ∷ 0 ∷ 1 ∷ 0 ∷ 0x80 ∷ 0 ∷ 0 ∷ [])
    ++ (0 ∷ 0 ∷ 0 ∷ 255 ∷ 255 ∷ 255 ∷ [])
    ++ (0x21 ∷ 0xf9 ∷ 1 ∷ 0 ∷ 0 ∷ [])
    ++ gif_frame 0
    ++ gif_frame 1
    ++ (0x3b ∷ [])

abbrev two_frames_safety : ImageSafety
two_frames_safety = record {
  width = 2;
  height = 1;
  frame_count = 2;
  animated = true;
  mime_type = image_gif;
}

two_frames_test : assert_safe_image_bytes two_frames ≡ ok two_frames_safety
unfolding assert_safe_image_bytes
two_frames_test = refl

-- The second frame lies beside the canvas.
outside_test :
    assert_safe_image_bytes (take 38 two_frames ++ gif_frame 2 ++ (0x3b ∷ []))
    ≡ refused frame_limits
unfolding assert_safe_image_bytes
outside_test = refl

text_test : assert_safe_image_bytes (codes "hello") ≡ refused unsafe_format
unfolding assert_safe_image_bytes
text_test = refl

-- A WebP with a canvas of 16 by 16 and one animation frame of 2 by 3 at (4, 6).
abbrev animated_webp : Bytes
animated_webp =
    codes "RIFF"
    ++ (0 ∷ 0 ∷ 0 ∷ 0 ∷ [])
    ++ codes "WEBPVP8X"
    ++ (10 ∷ 0 ∷ 0 ∷ 0 ∷ 2 ∷ 0 ∷ 0 ∷ 0 ∷ 15 ∷ 0 ∷ 0 ∷ 15 ∷ 0 ∷ 0 ∷ [])
    ++ codes "ANMF"
    ++ (16 ∷ 0 ∷ 0 ∷ 0 ∷ 2 ∷ 0 ∷ 0 ∷ 3 ∷ 0 ∷ 0 ∷ 1 ∷ 0 ∷ 0 ∷ 2 ∷ 0 ∷ 0 ∷ 0 ∷ 0 ∷ 0 ∷ 0 ∷ [])

animated_webp_test :
    assert_safe_image_bytes animated_webp
    ≡ ok (record {
      width = 16;
      height = 16;
      frame_count = 1;
      animated = false;
      mime_type = image_webp;
    })
unfolding assert_safe_image_bytes
animated_webp_test = refl

abbrev one_rect : List ImageFrameRect
one_rect = record { x = 4; y = 6; width = 2; height = 3 } ∷ []

assert_safe_image_bytes_total_example : assert_safe_image_bytes two_frames ≢ out_of_fuel
assert_safe_image_bytes_total_example = assert_safe_image_bytes_total two_frames

assert_safe_image_bytes-IsSafe_example : IsSafe two_frames two_frames_safety
assert_safe_image_bytes-IsSafe_example =
    assert_safe_image_bytes-IsSafe two_frames two_frames_safety two_frames_test

webp_is_webp : is_webp animated_webp ≡ true
unfolding is_webp
webp_is_webp = refl

one_rect_placed : webp_frame_rects animated_webp ≡ ok one_rect
unfolding webp_frame_rects
one_rect_placed = refl

webp_frame_count-webp_frame_rects_example : webp_frame_count animated_webp ≡ ok 1
webp_frame_count-webp_frame_rects_example =
    webp_frame_count-webp_frame_rects animated_webp one_rect webp_is_webp one_rect_placed
