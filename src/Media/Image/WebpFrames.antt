-- ===== src/Media/Image/WebpFrames.antt =====
-- The two loops over the chunks of a WebP in lib/matrix/media.ts, side by side.
use sub_etha.Prelude.{
  if_no, if_false, ℕ, suc, ◌+◌, ◌≡◌, refl, sym, Bool, true, false, List, [], ◌∷◌, ◌++◌, ◌∙◌, ◌&&◌,
  leb, length, length-append, max, ap, Outcome, ok, refused, out_of_fuel, walk, Matches, StepsMatch,
  Matches-walk, arith, ◌>>=◌, if◌then◌else◌, not, ltb, subst,
}
use sub_etha.Media.Image.Webp.{
  webp_count_step, webp_frame_count, webp_rects_step, webp_frame_rects, webp_rect, data_size,
}
use sub_etha.Media.Image.{Bytes, tag_at, is_webp, ImageFrameRect, MediaLimit, Scan}

-- The variables of the counting loop where the placing one stands.
abbrev counted : Scan (List ImageFrameRect) → Scan ℕ
counted s = record { offset = s.offset; frames = length s.frames }

abbrev InStep : Scan (List ImageFrameRect) → Scan ℕ → Type 0
InStep s t = counted s ≡ t

abbrev SameCount : List ImageFrameRect → ℕ → Type 0
SameCount rects n = length rects ≡ n

module _ (bytes : Bytes) where
  placed_counted :
      (frames : List ImageFrameRect) (rect : ImageFrameRect) (animation small long : Bool)
      → (animation && small) ≡ false
      → (small ≡ false → long ≡ true)
      → length (if animation && long then frames ++ (rect ∷ []) else frames)
        ≡ (if animation then length frames + 1 else length frames)
  placed_counted frames rect true true long h k = absurd cc
  placed_counted frames rect true false long h k =
      rw (k refl) (length-append frames (rect ∷ []) ∙ omega arith)
  placed_counted frames rect false small long h k = refl

  rounds-StepsMatch :
      (s : Scan (List ImageFrameRect))
      → StepsMatch InStep SameCount (webp_rects_step bytes s) (webp_count_step bytes (counted s))
  unfolding webp_rects_step webp_count_step
  rounds-StepsMatch s = ground (
    arith,
    placed_counted s.frames (webp_rect bytes (s.offset + 8)) (tag_at bytes s.offset "ANMF")
        (ltb (data_size bytes s.offset) 16) (leb 16 (data_size bytes s.offset)),
  )

  loops-Matches :
      Matches SameCount
        (walk (suc (length bytes)) (webp_rects_step bytes) (record { offset = 12; frames = [] }))
        (walk (suc (length bytes)) (webp_count_step bytes) (record { offset = 12; frames = 0 }))
  loops-Matches =
      Matches-walk InStep SameCount (webp_rects_step bytes) (webp_count_step bytes)
        (λ s t r.
          subst
            (λ t. StepsMatch InStep SameCount (webp_rects_step bytes s) (webp_count_step bytes t)) r
            (rounds-StepsMatch s))
        (suc (length bytes)) _ _ refl

-- What the counting loop returns beside a placing one that returns.
matched_count :
    (o : Outcome MediaLimit (List ImageFrameRect)) (p : Outcome MediaLimit ℕ)
    {rects : List ImageFrameRect}
    → Matches SameCount o p
    → o ≡ ok rects
    → (p >>= λ frames. ok (max 1 frames)) ≡ ok (max 1 (length rects))
matched_count (ok r) (ok n) {rects = rects} m h =
    let same : r ≡ rects = cc in ap (λ n. ok (max 1 n)) (sym m ∙ ap length same)
matched_count (ok r) (refused e) m h = absurd m
matched_count (ok r) out_of_fuel m h = absurd m
matched_count (refused e) p m h = cc
matched_count out_of_fuel p m h = cc

-- For the bytes of a WebP whose frames `webpFrameRects` places without throwing, `webpFrameCount` counts
-- as many frames as are placed, and 1 where none is.
pub webp_frame_count-webp_frame_rects :
    (bytes : Bytes) (rects : List ImageFrameRect)
    → is_webp bytes ≡ true
    → webp_frame_rects bytes ≡ ok rects
    → webp_frame_count bytes ≡ ok (max 1 (length rects))
unfolding webp_frame_count webp_frame_rects
webp_frame_count-webp_frame_rects bytes rects webp h =
    let skipped : not (is_webp bytes) ≡ false = ap not webp in
    if_no (λ o. o ≡ ok (max 1 (length rects))) (not (is_webp bytes)) _ _ skipped
      (matched_count _ _ (loops-Matches bytes)
        (sym (if_false (not (is_webp bytes)) _ _ skipped) ∙ h))
