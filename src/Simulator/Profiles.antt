-- ===== src/Simulator/Profiles.antt =====
-- src/crsdkpy/simulator/profiles.py: the synthetic cameras. A frame rate is counted in
-- thousandths of a frame per second.
use Prim.Native.String.{String}
use cr_sdkpy.Base.{
  ℕ, Bool, true, false, ◌||◌, none, some, List, [], ◌∷◌, ◌++◌, map, ltb, ◌==◌, if◌then◌else◌, elem,
  Result, ok, err, string_identity,
}
use cr_sdkpy.Base.Dict.{Dict, lookup}
use cr_sdkpy.Enums.{
  SessionMode, StillDestination, PreviewKind, PropertyAccess, PropertyValueType, mode_identity,
}
use cr_sdkpy.Capabilities.{CameraCapabilities}
use cr_sdkpy.Events.{Error, key_error}

-- `LOCK_UNLOCKED`, `LOCK_LOCKED`
abbrev pub lock_unlocked : ℕ
lock_unlocked = 1

abbrev pub lock_locked : ℕ
lock_locked = 2

-- `FOCUS_UNLOCKED` and the other focus-indication values.
abbrev pub value_unlocked : ℕ
value_unlocked = 0x0001

abbrev pub value_focused_af_s : ℕ
value_focused_af_s = 0x0102

abbrev pub value_not_focused_af_s : ℕ
value_not_focused_af_s = 0x0202

abbrev pub value_focused_af_c : ℕ
value_focused_af_c = 0x0103

abbrev pub value_not_focused_af_c : ℕ
value_not_focused_af_c = 0x0203

abbrev pub value_tracking_af_c : ℕ
value_tracking_af_c = 0x0303

-- `CODE_S1` and the other property codes.
abbrev pub code_s1 : ℕ
code_s1 = 0x0001

abbrev pub code_focus_mode : ℕ
code_focus_mode = 0x0109

abbrev pub code_focus_indication : ℕ
code_focus_indication = 0x0707

abbrev pub code_drive_mode : ℕ
code_drive_mode = 0x010E

abbrev pub code_recording_state : ℕ
code_recording_state = 0x0705

abbrev pub code_iso : ℕ
code_iso = 0x0104

abbrev pub code_destination : ℕ
code_destination = 0x0119

abbrev pub code_camera_caution : ℕ
code_camera_caution = 0x078B

abbrev pub code_system_caution : ℕ
code_system_caution = 0x078C

pub record Timings : Type 0 where
  pub connect : ℕ
  pub disconnect : ℕ
  pub focus_confirm : ℕ
  pub focus_channel_skew : ℕ
  pub focus_fail : ℕ
  pub focus_tracking : ℕ
  pub exposure : ℕ
  pub content : ℕ
  pub preview : ℕ
  pub postview : ℕ
  pub recording_start : ℕ
  pub recording_stop : ℕ
  pub live_view_gap : ℕ
  pub reconnect : ℕ
  pub property_straggler : ℕ

-- `Timings()`
abbrev pub default_timings : Timings
default_timings = record {
  connect = 150;
  disconnect = 100;
  focus_confirm = 175;
  focus_channel_skew = 15;
  focus_fail = 731;
  focus_tracking = 122;
  exposure = 430;
  content = 470;
  preview = 90;
  postview = 250;
  recording_start = 200;
  recording_stop = 175;
  live_view_gap = 108;
  reconnect = 28000;
  property_straggler = 102;
}

pub record PreviewSpec : Type 0 where
  pub width : ℕ
  pub height : ℕ
  pub byte_length : ℕ

pub record LiveViewProfile : Type 0 where
  pub width : ℕ
  pub height : ℕ
  pub milliframes_per_second : ℕ
  pub byte_length : ℕ
  pub byte_jitter : ℕ
  pub buffer_size : ℕ

-- `LiveViewProfile()`
abbrev pub default_live_view : LiveViewProfile
default_live_view = record {
  width = 640;
  height = 428;
  milliframes_per_second = 29200;
  byte_length = 85000;
  byte_jitter = 12000;
  buffer_size = 307200;
}

pub record ModeProfile : Type 0 where
  pub live_view : Bool
  pub content_index : Bool
  pub thumbnail : Bool
  pub screennail : Bool
  pub postview_configuration : Bool
  pub postview_delivery_possible : Bool
  pub postview_delivery_requires_host : Bool
  pub still_capture : Bool
  pub video : Bool
  pub extra_property_codes : List ℕ
  pub extra_capabilities : Dict String Bool

-- `ModeProfile()`
abbrev pub default_mode : ModeProfile
default_mode = record {
  live_view = false;
  content_index = false;
  thumbnail = false;
  screennail = false;
  postview_configuration = false;
  postview_delivery_possible = false;
  postview_delivery_requires_host = true;
  still_capture = true;
  video = true;
  extra_property_codes = [];
  extra_capabilities = [];
}

pub record CameraProfile : Type 0 where
  pub name : String
  pub model : String
  pub still_capture : Bool
  pub autofocus_s1 : Bool
  pub video : Bool
  pub modes : Dict SessionMode ModeProfile
  pub destinations : List StillDestination
  pub default_destination : StillDestination
  pub base_property_codes : List ℕ
  pub timings : Timings
  pub live_view : LiveViewProfile
  pub previews : Dict PreviewKind PreviewSpec
  pub extra_camera_capabilities : Dict String Bool
  pub battery_percent : ℕ
  pub usb_power : Bool
  pub slots : List Bool
  pub remaining_shots : ℕ
  pub remaining_seconds : ℕ

-- `any(...)`
abbrev any_mode : (ModeProfile → Bool) → Dict SessionMode ModeProfile → Bool
any_mode p [] = false
any_mode p ((_, m) ∷ ms) = p m || any_mode p ms

-- `CameraProfile.camera_capabilities`
unfoldable pub camera_capabilities : CameraProfile → CameraCapabilities
camera_capabilities p = record {
  still_capture = p.still_capture;
  autofocus_s1 = p.autofocus_s1;
  video = p.video;
  modes = map (λ entry. entry.0) p.modes;
  destinations = p.destinations;
  live_view_any_mode = any_mode (λ m. m.live_view) p.modes;
  content_index_any_mode = any_mode (λ m. m.content_index) p.modes;
  extra = p.extra_camera_capabilities;
}

-- Adds a code to a sorted list without repetition.
pub insert_sorted : ℕ → List ℕ → List ℕ
insert_sorted x [] = x ∷ []
insert_sorted x (y ∷ ys) =
    if x == y then y ∷ ys else if ltb x y then x ∷ y ∷ ys else y ∷ insert_sorted x ys

-- `sorted(set(codes))`
unfoldable pub sorted_set : List ℕ → List ℕ
unfolding insert_sorted
sorted_set [] = []
sorted_set (x ∷ xs) = insert_sorted x (sorted_set xs)

-- `CameraProfile.property_codes_for`; a mode that the profile lacks is a `KeyError` there.
unfoldable pub property_codes_for : CameraProfile → ModeProfile → List ℕ
unfolding sorted_set
property_codes_for p m = sorted_set (p.base_property_codes ++ m.extra_property_codes)

-- `_base_properties`
abbrev pub base_properties : List ℕ
base_properties =
    code_s1 ∷ code_iso ∷ code_drive_mode ∷ code_focus_mode ∷ code_recording_state
    ∷ code_focus_indication ∷ code_camera_caution ∷ code_system_caution ∷ code_destination ∷ []

-- The fields of a `Property` that the simulator fills in.
pub record Property : Type 0 where
  pub code : ℕ
  pub value : ℕ
  pub value_type : PropertyValueType
  pub access : PropertyAccess
  pub allowed_values : List ℕ

abbrev read_only_codes : List ℕ
read_only_codes =
    code_focus_indication ∷ code_recording_state ∷ code_camera_caution ∷ code_system_caution
    ∷ code_focus_mode ∷ []

unfoldable pub build_property : ℕ → ℕ → Property
build_property code value = record {
  code = code;
  value = value;
  value_type = PropertyValueType.int;
  access =
      if elem code read_only_codes then PropertyAccess.read_only else PropertyAccess.read_write;
  allowed_values = if code == code_s1 then lock_unlocked ∷ lock_locked ∷ [] else [];
}

-- `FX3A`
abbrev pub fx3a : CameraProfile
fx3a = record {
  name = "fx3a";
  model = "ILME-FX3A";
  still_capture = true;
  autofocus_s1 = true;
  video = true;
  modes =
      (
        SessionMode.remote,
        record default_mode {
          live_view = true;
          postview_delivery_possible = true;
          extra_property_codes = 0x0581 ∷ 0x0582 ∷ [];
        },
      )
      ∷ (
        SessionMode.remote_transfer,
        record default_mode {
          content_index = true;
          thumbnail = true;
          screennail = true;
          postview_configuration = true;
          postview_delivery_possible = true;
        },
      )
      ∷ [];
  destinations = StillDestination.memory_card ∷ StillDestination.host_and_memory_card ∷ [];
  default_destination = StillDestination.memory_card;
  base_property_codes = base_properties;
  timings = default_timings;
  live_view = default_live_view;
  previews =
      (PreviewKind.postview, record { width = 4240; height = 2832; byte_length = 4639743 })
      ∷ (PreviewKind.screennail, record { width = 1616; height = 1080; byte_length = 114211 })
      ∷ (PreviewKind.thumbnail, record { width = 160; height = 120; byte_length = 56113 })
      ∷ [];
  extra_camera_capabilities = [];
  battery_percent = 87;
  usb_power = false;
  slots = true ∷ [];
  remaining_shots = 1234;
  remaining_seconds = 5678;
}

-- `MINIMAL_STILL`
abbrev pub minimal_still : CameraProfile
minimal_still = record fx3a {
  name = "minimal_still";
  model = "SIM-MinimalStill";
  autofocus_s1 = false;
  video = false;
  modes = (SessionMode.remote, record default_mode { live_view = true; video = false }) ∷ [];
  destinations = StillDestination.memory_card ∷ [];
  base_property_codes = code_iso ∷ code_drive_mode ∷ code_recording_state ∷ [];
  timings = record default_timings { focus_confirm = 0; exposure = 300; content = 400 };
  live_view = record {
    width = 512;
    height = 384;
    milliframes_per_second = 15000;
    byte_length = 40000;
    byte_jitter = 5000;
    buffer_size = 200000;
  };
  previews = [];
}

-- `INVERTED_MODES`
abbrev pub inverted_modes : CameraProfile
inverted_modes = record fx3a {
  name = "inverted_modes";
  model = "SIM-InvertedModes";
  modes =
      (
        SessionMode.remote,
        record default_mode {
          content_index = true;
          thumbnail = true;
          screennail = true;
          postview_configuration = true;
          postview_delivery_possible = true;
          postview_delivery_requires_host = false;
        },
      )
      ∷ (
        SessionMode.remote_transfer,
        record default_mode { live_view = true; content_index = true; screennail = true },
      )
      ∷ [];
  destinations =
      StillDestination.memory_card ∷ StillDestination.host ∷ StillDestination.host_and_memory_card
      ∷ [];
  timings = record default_timings {
    focus_confirm = 90;
    exposure = 250;
    content = 300;
    reconnect = 5000;
  };
  live_view = record default_live_view {
    width = 1024;
    height = 576;
    milliframes_per_second = 50000;
  };
  previews =
      (PreviewKind.postview, record { width = 6000; height = 4000; byte_length = 2100000 })
      ∷ (PreviewKind.screennail, record { width = 1920; height = 1080; byte_length = 180000 })
      ∷ (PreviewKind.thumbnail, record { width = 320; height = 240; byte_length = 30000 })
      ∷ [];
}

-- `FUTURE_UNKNOWN`
abbrev pub future_unknown : CameraProfile
future_unknown = record fx3a {
  name = "future_unknown";
  model = "SIM-FutureBody";
  modes =
      (
        SessionMode.remote,
        record default_mode {
          live_view = true;
          content_index = true;
          thumbnail = true;
          screennail = true;
          postview_configuration = true;
          postview_delivery_possible = true;
          postview_delivery_requires_host = false;
          extra_property_codes = 0x7F01 ∷ 0x7F02 ∷ 0x7FFE ∷ [];
          extra_capabilities =
              ("holographic_viewfinder", true) ∷ ("neural_subject_lock", true) ∷ [];
        },
      )
      ∷ [];
  timings = record default_timings { focus_confirm = 120; exposure = 200; content = 250 };
  previews =
      (PreviewKind.postview, record { width = 8000; height = 6000; byte_length = 3000000 })
      ∷ (PreviewKind.screennail, record { width = 1600; height = 1200; byte_length = 150000 })
      ∷ (PreviewKind.thumbnail, record { width = 200; height = 150; byte_length = 40000 })
      ∷ [];
  extra_camera_capabilities = ("quantum_stabilizer", true) ∷ [];
}

-- `PROFILES`
abbrev pub profiles : Dict String CameraProfile
profiles =
    ("fx3a", fx3a)
    ∷ ("minimal_still", minimal_still)
    ∷ ("inverted_modes", inverted_modes)
    ∷ ("future_unknown", future_unknown)
    ∷ []

pub get_profile : String → Result Error CameraProfile
get_profile name = elim (lookup name profiles) [ some p ↦ ok p | none ↦ err key_error ]
