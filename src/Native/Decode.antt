-- ===== src/Native/Decode.antt =====
-- src/crsdkpy/backend/native.py: what the structures of the bridge mean, shared by the backend in
-- the process and the one behind the host. Both give an event the time at which they saw it.
use cr_sdkpy.Base.{
  ℕ, zero, suc, ◌+◌, ◌/◌, ◌%◌, ◌-◌, Bool, true, false, not, ◌||◌, Option, none, some, [], ◌∷◌, ◌++◌,
  ◌==◌, if◌then◌else◌, nat_identity, ◌is◌, string_identity, length, replicate,
}
use cr_sdkpy.Base.Dict.{Dict, lookup}
use cr_sdkpy.Base.Int.{ℤ, pos, negsuc, int_identity}
use cr_sdkpy.Enums.{
  SessionMode, StillDestination, ConnectionState, FocusState, TransferOutcome, PropertyAccess,
  PropertyValueType, FocusSource, Command, CommandParameter,
}
use cr_sdkpy.Capabilities.{CameraCapabilities}
use cr_sdkpy.Contract.{ContentRef, LiveViewInfo}
use cr_sdkpy.Events.{Event, Text}
use cr_sdkpy.Properties.{Property, PropertyValue}
use cr_sdkpy.Cabi.Structs.{
  EventStruct, PropertyStruct, ContentStruct, LiveViewInfoStruct, CameraInfoStruct,
}

-- `table.get(key, default)` on a table of the ABI's numbers.
abbrev pub abi_get : {V : Type 0} → Dict ℕ V → V → ℤ → V
abi_get table default (pos n) = elim (lookup n table) [ some v ↦ v | none ↦ default ]
abi_get table default (negsuc n) = default

-- `int(x) or None`
abbrev pub or_none : ℕ → Option ℕ
or_none zero = none
or_none (suc n) = some (suc n)

abbrev pub int_or_none : ℤ → Option ℤ
int_or_none (pos zero) = none
int_or_none (pos (suc n)) = some (pos (suc n))
int_or_none (negsuc n) = some (negsuc n)

-- `bool(x)`
abbrev pub truth : ℤ → Bool
truth (pos n) = not (n == 0)
truth (negsuc n) = true

-- `text or None`
abbrev pub text_or_none : Text → Option Text
text_or_none [] = none
text_or_none (c ∷ cs) = some (c ∷ cs)

-- `_MODE_TO_ABI`
unfoldable pub mode_to_abi : SessionMode → ℕ
mode_to_abi SessionMode.remote = 0
mode_to_abi SessionMode.contents_transfer = 1
mode_to_abi SessionMode.remote_transfer = 2

-- `_ABI_TO_STATE`
abbrev pub abi_states : Dict ℕ ConnectionState
abi_states =
    (0, ConnectionState.connecting)
    ∷ (1, ConnectionState.connected)
    ∷ (2, ConnectionState.reconnecting)
    ∷ (3, ConnectionState.closing)
    ∷ (4, ConnectionState.closed)
    ∷ []

unfoldable pub abi_to_state : ℤ → ConnectionState
abi_to_state = abi_get abi_states ConnectionState.closed

-- `_ABI_TO_TRANSFER_OUTCOME`
abbrev pub abi_outcomes : Dict ℕ TransferOutcome
abi_outcomes =
    (0, TransferOutcome.in_progress)
    ∷ (1, TransferOutcome.ok)
    ∷ (2, TransferOutcome.failed)
    ∷ (3, TransferOutcome.busy)
    ∷ (4, TransferOutcome.storage_full)
    ∷ (5, TransferOutcome.stopped)
    ∷ (6, TransferOutcome.canceled)
    ∷ (7, TransferOutcome.unknown)
    ∷ []

-- `_ABI_TO_ACCESS`, `_ABI_TO_VALUE_TYPE`
abbrev pub abi_accesses : Dict ℕ PropertyAccess
abi_accesses =
    (0, PropertyAccess.unknown)
    ∷ (1, PropertyAccess.read_only)
    ∷ (2, PropertyAccess.write_only)
    ∷ (3, PropertyAccess.read_write)
    ∷ []

abbrev pub abi_value_types : Dict ℕ PropertyValueType
abi_value_types =
    (0, PropertyValueType.unknown)
    ∷ (1, PropertyValueType.int)
    ∷ (2, PropertyValueType.string)
    ∷ (3, PropertyValueType.int_array)
    ∷ []

-- `_FOCUS_INDICATION`, of the property channel.
abbrev pub focus_indication : Dict ℕ FocusState
focus_indication =
    (0x0001, FocusState.unlocked)
    ∷ (0x0102, FocusState.focused_af_s)
    ∷ (0x0202, FocusState.not_focused_af_s)
    ∷ (0x0103, FocusState.focused_af_c)
    ∷ (0x0203, FocusState.not_focused_af_c)
    ∷ (0x0303, FocusState.tracking_af_c)
    ∷ []

-- `_FOCUS_AF_STATUS`, of the warning channel.
abbrev pub focus_af_status : Dict ℕ FocusState
focus_af_status =
    (1, FocusState.unlocked)
    ∷ (2, FocusState.focused_af_s)
    ∷ (3, FocusState.not_focused_af_s)
    ∷ (5, FocusState.tracking_af_c)
    ∷ (6, FocusState.focused_af_c)
    ∷ (7, FocusState.not_focused_af_c)
    ∷ []

-- `command_to_abi` and `parameter_to_abi`, on the public enumerations.
unfoldable pub command_to_abi : Command → ℕ
command_to_abi Command.release = 0
command_to_abi Command.movie_record = 1
command_to_abi Command.cancel_shooting = 2
command_to_abi Command.s1_and_release = 7

unfoldable pub parameter_to_abi : CommandParameter → ℕ
parameter_to_abi CommandParameter.up = 0
parameter_to_abi CommandParameter.down = 1

abbrev focus_event : EventStruct → ℕ → Event
focus_event raw stamp =
    if raw.i1 is pos 1
    then Event.focus stamp (abi_get focus_af_status FocusState.unknown raw.i0)
        FocusSource.status_warning (some raw.i0)
    else Event.focus stamp (abi_get focus_indication FocusState.unknown raw.i0) FocusSource.property
        (some raw.i0)

-- `decode_event`, with the time of the observation.
unfoldable pub decode_event : EventStruct → ℕ → Event
unfolding abi_to_state
decode_event raw stamp =
    if raw.kind is pos 0
    then Event.connection stamp (abi_to_state raw.i0) (truth raw.i1) (or_none raw.code)
        (int_or_none raw.i2)
    else if raw.kind is pos 8
    then Event.transfer stamp (abi_get abi_outcomes TransferOutcome.unknown raw.i1) raw.i0
        (or_none raw.code) (truth raw.i2)
    else if raw.kind is pos 1
    then Event.property_changed stamp (raw.code ∷ [])
    else if raw.kind is pos 2
    then focus_event raw stamp
    else if raw.kind is pos 3
    then Event.capture stamp 0
    else if raw.kind is pos 4
    then Event.content stamp none none none
    else if raw.kind is pos 5 || raw.kind is pos 6
    then Event.warning stamp raw.code
    else Event.unknown stamp raw.code (some (raw.kind, raw.i0, raw.i1))

-- `decode_property`
unfoldable pub decode_property : PropertyStruct → Property
decode_property raw = record {
  code = raw.code;
  value = PropertyValue.num raw.value;
  value_type = abi_get abi_value_types PropertyValueType.unknown raw.value_type;
  access = abi_get abi_accesses PropertyAccess.unknown raw.access;
  allowed_values = [];
  value_range = none;
  allowed_count = raw.allowed_count;
  values_undecoded = false;
}

-- `f"{n:0{width}d}"`: the digits of a number below 10 ** 5, with zeros in front.
abbrev digits : ℕ → ℕ → Text → Text
digits zero n acc = acc
digits (suc fuel) n acc =
    let rest = digits fuel (n / 10) ((b'0' + n % 10) ∷ acc) in if n == 0 then acc else rest

unfoldable pub padded : ℕ → ℕ → Text
padded width n = let ds = digits 5 n [] in replicate (width - length ds) b'0' ++ ds

-- `_captured_at`
unfoldable pub captured_at : ContentStruct → Option Text
unfolding padded
captured_at raw =
    if raw.created_year == 0
    then none
    else some (
        padded 4 raw.created_year
        ++ (b'-'
            ∷ (padded 2 raw.created_month
                ++ (b'-'
                    ∷ (padded 2 raw.created_day
                        ++ (b'T'
                            ∷ (padded 2 raw.created_hour
                                ++ (b':'
                                    ∷ (padded 2 raw.created_minute
                                        ++ (b':'
                                            ∷ (padded 2 raw.created_second
                                                ++ (b'.'
                                                    ∷ padded 3 raw.created_millisecond))))))))))))

abbrev or_one : ℕ → ℕ
or_one zero = 1
or_one (suc n) = suc n

abbrev unless_negative : ℤ → Option ℕ
unless_negative (pos n) = some n
unless_negative (negsuc n) = none

-- `decode_content`
unfoldable pub decode_content : ContentStruct → ℕ → ContentRef
unfolding captured_at
decode_content raw observed_ms = record {
  content_id = raw.content_id;
  file_id = raw.file_id;
  file_number = or_none raw.file_number;
  path = text_or_none raw.path;
  created_ms = observed_ms;
  captured_at = captured_at raw;
  content_type = raw.content_type;
  file_format = raw.file_format;
  width = or_none raw.image_width;
  height = or_none raw.image_height;
  file_size = unless_negative raw.file_size;
  slot = or_one raw.slot;
  file_count = or_one raw.file_count;
}

-- `decode_live_view_info`
unfoldable pub decode_live_view_info : LiveViewInfoStruct → LiveViewInfo
decode_live_view_info raw = record {
  info_ok = truth raw.info_ok;
  width = or_none raw.width;
  height = or_none raw.height;
  buffer_size = raw.buffer_size;
  error_code = int_or_none raw.vendor_error;
}

-- `BackendCameraInfo`; the metadata are constants.
pub record CameraInfo : Type 0 where
  pub device_key : Text
  pub model : Text
  pub serial : Option Text
  pub firmware : Option Text
  -- `none` is "unknown"
  pub transport : Option Text
  pub adapter : Option Text
  pub usb_pid : Option ℕ
  pub capabilities : CameraCapabilities

-- `decode_camera_info`
unfoldable pub decode_camera_info : CameraInfoStruct → CameraInfo
decode_camera_info info = record {
  device_key = info.device_key;
  model = info.model;
  serial = text_or_none info.serial;
  firmware = text_or_none info.firmware;
  transport = text_or_none info.transport;
  adapter = text_or_none info.adapter;
  usb_pid = unless_negative info.usb_pid;
  capabilities = record {
    still_capture = true;
    autofocus_s1 = true;
    video = true;
    modes = SessionMode.remote ∷ SessionMode.remote_transfer ∷ [];
    destinations =
        StillDestination.memory_card ∷ StillDestination.host ∷ StillDestination.host_and_memory_card
        ∷ [];
    live_view_any_mode = true;
    content_index_any_mode = true;
    extra = ("native", true) ∷ [];
  };
}
