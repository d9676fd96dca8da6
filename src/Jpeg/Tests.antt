-- ===== src/Jpeg/Tests.antt =====
-- Concrete data for the parser of src/crsdkpy/_jpeg.py.
use cr_sdkpy.Base.{ℕ, ◌+◌, none, some, List, [], ◌∷◌, length, ◌≡◌, refl, ◌≢◌}
use cr_sdkpy.Jpeg.{
  Segment, jpeg_segments, jpeg_dimensions, frame_at, walk_segments, look, is_jpeg, is_sof,
  is_standalone, yield_found,
}
use cr_sdkpy.Jpeg.Bounds.{IsInOrder, jpeg_dimensions-ne-none, jpeg_segments-IsInOrder}
use cr_sdkpy.Jpeg.Agreement.{first_frame, jpeg_dimensions-agree}

-- A signature and a frame header of 2 by 3.
abbrev small_header : List ℕ
small_header =
    0xFF ∷ 0xD8 ∷ 0xFF ∷ 0xC0 ∷ 0 ∷ 11 ∷ 8 ∷ 0 ∷ 3 ∷ 0 ∷ 2 ∷ 1 ∷ 1 ∷ 0x11 ∷ 0 ∷ 0xFF ∷ 0xD9 ∷ []

jpeg_dimensions_ends_example : jpeg_dimensions small_header ≢ none
jpeg_dimensions_ends_example = jpeg_dimensions-ne-none small_header

jpeg_segments_example : IsInOrder 2 (length small_header) (jpeg_segments small_header)
jpeg_segments_example = jpeg_segments-IsInOrder small_header

abbrev header_segment : Segment
header_segment = record { marker = 0xC0; start = 2; end = 15 }

abbrev segments : List Segment
segments = header_segment ∷ record { marker = 0xD9; start = 15; end = 17 } ∷ []

header_walked : jpeg_segments small_header ≡ some segments
unfolding jpeg_segments walk_segments look is_jpeg is_standalone yield_found
header_walked = refl

header_found : first_frame segments ≡ some header_segment
unfolding is_sof
header_found = refl

jpeg_dimensions_example : jpeg_dimensions small_header ≡ some (frame_at small_header (2 + 2))
jpeg_dimensions_example =
    jpeg_dimensions-agree small_header segments header_segment header_walked header_found
