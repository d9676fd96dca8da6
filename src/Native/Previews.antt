-- ===== src/Native/Previews.antt =====
-- src/crsdkpy/backend/native.py: the bytes of previews, postviews and live-view frames, checked
-- before they are handed out.
use cr_sdkpy.Base.{ℕ, false, not, Option, none, some, List, if◌then◌else◌, Result, ok, err}
use cr_sdkpy.Enums.{PreviewKind}
use cr_sdkpy.Contract.{Preview, ContentRef}
use cr_sdkpy.Events.{Error, camera_connection}
use cr_sdkpy.Jpeg.{is_jpeg, jpeg_dimensions}
use cr_sdkpy.Cabi.Structs.{PreviewInfoStruct, PostviewInfoStruct, FrameInfoStruct}
use cr_sdkpy.Native.Decode.{or_none}

-- `jpeg_dimensions(data)`; its fuel is never exhausted.
abbrev pub dimensions : List ℕ → Option (ℕ × ℕ)
dimensions bytes = elim (jpeg_dimensions bytes) [ some found ↦ found | none ↦ none ]

-- The two checks of `build_content_preview` and `build_postview`.
abbrev checked : List ℕ → (ℕ → ℕ → Preview) → Result Error Preview
checked bytes make =
    if not (is_jpeg bytes) then err (camera_connection false) else (elim (dimensions bytes) [
      | none ↦ err (camera_connection false)
      | some (width, height) ↦ ok (make width height)
    ])

abbrev number_of : Option ContentRef → Option ℕ
number_of none = none
number_of (some ref) = ref.file_number

-- `build_content_preview`
unfoldable pub build_content_preview :
    PreviewKind → List ℕ → PreviewInfoStruct → ℕ → Option ContentRef → Result Error Preview
build_content_preview kind bytes info timestamp_ms content = checked bytes (λ width height. record {
  kind = kind;
  bytes = bytes;
  width = some width;
  height = some height;
  timestamp_ms = timestamp_ms;
  content_id = some info.content_id;
  frame_number = 0;
  file_id = info.file_id;
  file_number = number_of content;
})

-- `build_postview`
unfoldable pub build_postview : List ℕ → PostviewInfoStruct → ℕ → Result Error Preview
build_postview bytes info timestamp_ms = checked bytes (λ width height. record {
  kind = PreviewKind.postview;
  bytes = bytes;
  width = some width;
  height = some height;
  timestamp_ms = timestamp_ms;
  content_id = none;
  frame_number = 0;
  file_id = 0;
  file_number = none;
})

-- The geometry of a frame: its own, or what the info call reported.
abbrev geometry : Option (ℕ × ℕ) → FrameInfoStruct → Option ℕ × Option ℕ
geometry none info = (or_none info.width, or_none info.height)
geometry (some (width, height)) info = (some width, some height)

-- `build_live_view_frame`
unfoldable pub build_live_view_frame : List ℕ → FrameInfoStruct → ℕ → Preview
build_live_view_frame bytes info timestamp_ms =
    let (width, height) = geometry (dimensions bytes) info in
    record {
      kind = PreviewKind.live_view;
      bytes = bytes;
      width = width;
      height = height;
      timestamp_ms = timestamp_ms;
      content_id = none;
      frame_number = info.frame_number;
      file_id = 0;
      file_number = none;
    }
