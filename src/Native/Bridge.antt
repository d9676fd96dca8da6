-- ===== src/Native/Bridge.antt =====
-- src/crsdkpy/backend/native.py: the functions of the C bridge that `NativeBackend` calls, as a
-- parameter, and the constants of their use. A function gives its status and what it wrote
-- through its pointers; of an array the items that it produced.
use Prim.Native.String.{String}
use cr_sdkpy.Base.{ℕ, Bool, Option, none, some, List, [], ◌∷◌, ◌==◌, if◌then◌else◌, Result, ok, err}
use cr_sdkpy.Base.Int.{ℤ, negsuc}
use cr_sdkpy.Enums.{PreviewKind}
use cr_sdkpy.Contract.{ContentRef}
use cr_sdkpy.Events.{Error, Text, unsupported}
use cr_sdkpy.Cabi.Structs.{
  CameraInfoStruct, PropertyStruct, ContentStruct, PreviewInfoStruct, PostviewInfoStruct,
  LiveViewInfoStruct, FrameInfoStruct, EventStruct,
}

-- The functions of the bridge, with the clock.
pub record Bridge : Type 1 where
  pub World : Type 0
  pub now_ms : World → ℕ
  pub sleep_ms : ℕ → World → World
  pub init : World → ℤ × World
  pub shutdown : World → ℤ × World
  pub enumerate : ℕ → World → (ℤ × ℕ) × World
  pub camera_at : ℕ → World → (ℤ × CameraInfoStruct) × World
  pub open_session : Text → ℕ → World → (ℤ × ℕ) × World
  pub close_session : ℕ → World → ℤ × World
  pub connection_state : ℕ → World → (ℤ × ℤ) × World
  pub poll_events : ℕ → ℕ → ℕ → World → (ℤ × List EventStruct) × World
  -- the capacity, or none for the call that asks for the count
  pub count_properties : ℕ → World → (ℤ × ℕ) × World
  pub list_properties : ℕ → ℕ → World → (ℤ × List PropertyStruct) × World
  pub get_property : ℕ → ℕ → World → (ℤ × PropertyStruct) × World
  pub set_property : ℕ → ℕ → ℤ → World → ℤ × World
  pub send_command : ℕ → ℕ → ℕ → World → ℤ × World
  pub count_content : ℕ → ℕ → ℕ → World → (ℤ × ℕ) × World
  pub list_content : ℕ → ℕ → ℕ → ℕ → World → (ℤ × List ContentStruct) × World
  pub fetch_content_preview : ℕ → ℕ → ℕ → ℕ → ℕ → ℕ → World → (ℤ × PreviewInfoStruct) × World
  pub take_content_preview : ℕ → ℕ → World → (ℤ × List ℕ) × World
  pub configure_postview : ℕ → Bool → Bool → World → ℤ × World
  pub pull_postview : ℕ → World → (ℤ × PostviewInfoStruct) × World
  pub take_postview : ℕ → ℕ → World → (ℤ × List ℕ) × World
  pub get_live_view_info : ℕ → World → (ℤ × LiveViewInfoStruct) × World
  -- the frame's length, then the bytes
  pub size_live_view_frame : ℕ → World → (ℤ × FrameInfoStruct) × World
  pub get_live_view_frame : ℕ → ℕ → World → (ℤ × FrameInfoStruct × List ℕ) × World

-- `ERR_NOT_FOUND` and `ERR_UNSUPPORTED`
abbrev pub err_not_found : ℤ
err_not_found = negsuc 6

abbrev pub err_unsupported : ℤ
err_unsupported = negsuc 10

-- `preview_kind_to_abi`
unfoldable pub preview_kind_to_abi : PreviewKind → Result Error ℕ
preview_kind_to_abi PreviewKind.thumbnail = ok 1
preview_kind_to_abi PreviewKind.screennail = ok 2
preview_kind_to_abi PreviewKind.postview = err (unsupported "postview_delivery")
preview_kind_to_abi PreviewKind.live_view = err (unsupported "live_view")

-- `PREVIEW_CAPABILITY`
unfoldable pub preview_capability : PreviewKind → String
preview_capability PreviewKind.thumbnail = "thumbnail"
preview_capability PreviewKind.screennail = "screennail"
preview_capability PreviewKind.postview = "postview_delivery"
preview_capability PreviewKind.live_view = "live_view"

-- The item of `_content_by_id`.
unfoldable pub find_content : ℕ → List ContentRef → Option ContentRef
find_content id [] = none
find_content id (ref ∷ refs) = if ref.content_id == id then some ref else find_content id refs

-- `content.file_id if content else 0`
abbrev pub file_id_of : Option ContentRef → ℕ
file_id_of none = 0
file_id_of (some ref) = ref.file_id

-- `max(0, int(newer_than)) if newer_than is not None else 0`
abbrev pub after_of : Option ℕ → ℕ
after_of none = 0
after_of (some n) = n
