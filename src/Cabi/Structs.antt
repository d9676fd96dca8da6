-- ===== src/Cabi/Structs.antt =====
-- src/crsdkpy/backend/_cabi.py: the structures that the bridge and the host process fill, and
-- their layout as bytes. A signed field is an integer, an unsigned one a number; an array of
-- characters is the text up to its first zero. Texts are ASCII, so a byte is a code point.
-- Reserved fields are left out.
use cr_sdkpy.Base.{ℕ, List, [], ◌∷◌, ◌==◌, if◌then◌else◌, take, drop}
use cr_sdkpy.Base.Bytes.{from_le}
use cr_sdkpy.Base.Int.{ℤ, signed32, signed64}
use cr_sdkpy.Events.{Text}

-- A field of `width` bytes at `offset`, and the signed fields.
abbrev pub unsigned_at : List ℕ → ℕ → ℕ → ℕ
unsigned_at bytes offset width = from_le (take width (drop offset bytes))

abbrev pub int32_at : List ℕ → ℕ → ℤ
int32_at bytes offset = signed32 (unsigned_at bytes offset 4)

abbrev pub int64_at : List ℕ → ℕ → ℤ
int64_at bytes offset = signed64 (unsigned_at bytes offset 8)

abbrev pub c_string : List ℕ → Text
c_string [] = []
c_string (b ∷ bs) = if b == 0 then [] else b ∷ c_string bs

abbrev pub text_at : List ℕ → ℕ → ℕ → Text
text_at bytes offset width = c_string (take width (drop offset bytes))

-- `CameraInfoStruct`
pub record CameraInfoStruct : Type 0 where
  pub device_key : Text
  pub model : Text
  pub serial : Text
  pub firmware : Text
  pub transport : Text
  pub adapter : Text
  pub usb_pid : ℤ

abbrev pub camera_info_size : ℕ
camera_info_size = 456

unfoldable pub read_camera_info : List ℕ → CameraInfoStruct
read_camera_info bytes = record {
  device_key = text_at bytes 0 192;
  model = text_at bytes 192 64;
  serial = text_at bytes 256 64;
  firmware = text_at bytes 320 32;
  transport = text_at bytes 352 32;
  adapter = text_at bytes 384 64;
  usb_pid = int32_at bytes 448;
}

-- `PropertyStruct`
pub record PropertyStruct : Type 0 where
  pub code : ℕ
  pub value_type : ℤ
  pub access : ℤ
  pub value : ℤ
  pub allowed_count : ℕ

abbrev pub property_size : ℕ
property_size = 32

unfoldable pub read_property : List ℕ → PropertyStruct
read_property bytes = record {
  code = unsigned_at bytes 0 4;
  value_type = int32_at bytes 4;
  access = int32_at bytes 8;
  value = int64_at bytes 16;
  allowed_count = unsigned_at bytes 24 4;
}

-- `ContentStruct`
pub record ContentStruct : Type 0 where
  pub content_id : ℕ
  pub file_id : ℕ
  pub file_number : ℕ
  pub content_type : ℕ
  pub file_format : ℕ
  pub image_width : ℕ
  pub image_height : ℕ
  pub file_size : ℤ
  pub slot : ℕ
  pub file_count : ℕ
  pub created_year : ℕ
  pub created_month : ℕ
  pub created_day : ℕ
  pub created_hour : ℕ
  pub created_minute : ℕ
  pub created_second : ℕ
  pub created_millisecond : ℕ
  pub path : Text

abbrev pub content_size : ℕ
content_size = 320

unfoldable pub read_content : List ℕ → ContentStruct
read_content bytes = record {
  content_id = unsigned_at bytes 0 4;
  file_id = unsigned_at bytes 4 4;
  file_number = unsigned_at bytes 8 4;
  content_type = unsigned_at bytes 16 4;
  file_format = unsigned_at bytes 20 4;
  image_width = unsigned_at bytes 24 4;
  image_height = unsigned_at bytes 28 4;
  file_size = int64_at bytes 32;
  slot = unsigned_at bytes 40 4;
  file_count = unsigned_at bytes 44 4;
  created_year = unsigned_at bytes 48 2;
  created_month = unsigned_at bytes 50 2;
  created_day = unsigned_at bytes 52 2;
  created_hour = unsigned_at bytes 54 2;
  created_minute = unsigned_at bytes 56 2;
  created_second = unsigned_at bytes 58 2;
  created_millisecond = unsigned_at bytes 60 2;
  path = text_at bytes 64 256;
}

-- `PreviewInfoStruct`
pub record PreviewInfoStruct : Type 0 where
  pub content_id : ℕ
  pub file_id : ℕ
  pub kind : ℤ
  pub vendor_notify : ℤ
  pub byte_length : ℕ
  pub slot : ℕ
  pub deliveries : ℕ
  pub requested_ms : ℤ
  pub completed_ms : ℤ

abbrev pub preview_info_size : ℕ
preview_info_size = 48

unfoldable pub read_preview_info : List ℕ → PreviewInfoStruct
read_preview_info bytes = record {
  content_id = unsigned_at bytes 0 4;
  file_id = unsigned_at bytes 4 4;
  kind = int32_at bytes 8;
  vendor_notify = int32_at bytes 12;
  byte_length = unsigned_at bytes 16 4;
  slot = unsigned_at bytes 20 4;
  deliveries = unsigned_at bytes 24 4;
  requested_ms = int64_at bytes 32;
  completed_ms = int64_at bytes 40;
}

-- `PostviewInfoStruct`
pub record PostviewInfoStruct : Type 0 where
  pub byte_length : ℕ
  pub notified_ms : ℤ
  pub pulled_ms : ℤ
  pub filename : Text

abbrev pub postview_info_size : ℕ
postview_info_size = 280

unfoldable pub read_postview_info : List ℕ → PostviewInfoStruct
read_postview_info bytes = record {
  byte_length = unsigned_at bytes 0 4;
  notified_ms = int64_at bytes 8;
  pulled_ms = int64_at bytes 16;
  filename = text_at bytes 24 256;
}

-- `LiveViewInfoStruct`
pub record LiveViewInfoStruct : Type 0 where
  pub info_ok : ℤ
  pub vendor_error : ℤ
  pub width : ℕ
  pub height : ℕ
  pub buffer_size : ℕ

abbrev pub live_view_info_size : ℕ
live_view_info_size = 24

unfoldable pub read_live_view_info : List ℕ → LiveViewInfoStruct
read_live_view_info bytes = record {
  info_ok = int32_at bytes 0;
  vendor_error = int32_at bytes 4;
  width = unsigned_at bytes 8 4;
  height = unsigned_at bytes 12 4;
  buffer_size = unsigned_at bytes 16 4;
}

-- `FrameInfoStruct`
pub record FrameInfoStruct : Type 0 where
  pub byte_length : ℕ
  pub frame_number : ℕ
  pub width : ℕ
  pub height : ℕ
  pub time_code : ℕ

abbrev pub frame_info_size : ℕ
frame_info_size = 32

unfoldable pub read_frame_info : List ℕ → FrameInfoStruct
read_frame_info bytes = record {
  byte_length = unsigned_at bytes 0 4;
  frame_number = unsigned_at bytes 4 4;
  width = unsigned_at bytes 8 4;
  height = unsigned_at bytes 12 4;
  time_code = unsigned_at bytes 16 4;
}

-- `EventStruct`
pub record EventStruct : Type 0 where
  pub kind : ℤ
  pub timestamp_ms : ℤ
  pub code : ℕ
  pub i0 : ℤ
  pub i1 : ℤ
  pub i2 : ℤ

abbrev pub event_size : ℕ
event_size = 40

unfoldable pub read_event : List ℕ → EventStruct
read_event bytes = record {
  kind = int32_at bytes 0;
  timestamp_ms = int64_at bytes 8;
  code = unsigned_at bytes 16 4;
  i0 = int32_at bytes 20;
  i1 = int32_at bytes 24;
  i2 = int32_at bytes 28;
}
