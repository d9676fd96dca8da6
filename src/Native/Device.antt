-- ===== src/Native/Device.antt =====
-- src/crsdkpy/backend/native.py: the half-press stage, the focus state, destination, battery,
-- media, recording and the session's capabilities, all by property access. The backend in the
-- process and the one behind the host share them.
use Prim.Native.String.{String}
use cr_sdkpy.Base.{
  ℕ, Bool, true, false, not, ◌&&◌, ◌||◌, Option, none, some, List, [], ◌∷◌, ◌++◌, if◌then◌else◌,
  contains, nat_identity, ◌is◌, Result, ok, err,
}
use cr_sdkpy.Base.Dict.{Dict, lookup}
use cr_sdkpy.Base.Int.{ℤ, pos, negsuc, leb_ℤ, int_identity}
use cr_sdkpy.Enums.{
  SessionMode, StillDestination, FocusState, RecordingState, Command, CommandParameter,
  destination_identity, recording_identity, includes_host,
}
use cr_sdkpy.Capabilities.{SessionCapabilities}
use cr_sdkpy.Contract.{BatteryStatus, StorageSlot, LiveViewInfo, usable}
use cr_sdkpy.Events.{
  Error, Action, pure, gets, modify, ◌>>=◌, ◌>>◌, unsupported, property_not_supported, value_error,
}
use cr_sdkpy.Properties.{Property, PropertyValue}
use cr_sdkpy.Native.Decode.{abi_get, focus_indication}
use cr_sdkpy.Native.Measured.{
  MeasuredCapabilities, knows_live_view, note_live_view, note_video, has_content,
}

-- `CODE_S1` and the other codes.
abbrev pub code_s1 : ℕ
code_s1 = 0x0001

abbrev pub code_focus_indication : ℕ
code_focus_indication = 0x0707

abbrev pub code_destination : ℕ
code_destination = 0x0119

abbrev pub code_battery_remain : ℕ
code_battery_remain = 0x0702

abbrev pub code_battery_level : ℕ
code_battery_level = 0x0703

abbrev pub code_recording_state : ℕ
code_recording_state = 0x0705

abbrev pub lock_unlocked : ℤ
lock_unlocked = pos 1

abbrev pub lock_locked : ℤ
lock_locked = pos 2

-- `_DESTINATION_TO_ABI` and `_ABI_TO_DESTINATION`
unfoldable pub destination_to_abi : StillDestination → ℤ
destination_to_abi StillDestination.host = pos 1
destination_to_abi StillDestination.memory_card = pos 2
destination_to_abi StillDestination.host_and_memory_card = pos 3

abbrev pub abi_destinations : Dict ℕ StillDestination
abi_destinations =
    (1, StillDestination.host)
    ∷ (2, StillDestination.memory_card)
    ∷ (3, StillDestination.host_and_memory_card)
    ∷ []

-- `_ABI_TO_RECORDING`
abbrev pub abi_recording : Dict ℕ RecordingState
abi_recording =
    (0, RecordingState.idle)
    ∷ (1, RecordingState.recording)
    ∷ (2, RecordingState.failed)
    ∷ (3, RecordingState.recording)
    ∷ []

-- `_BATTERY_LEVEL`, in three-hundredths.
abbrev pub battery_levels : Dict ℕ ℕ
battery_levels =
    (1, 0) ∷ (2, 75) ∷ (3, 150) ∷ (4, 225) ∷ (5, 300) ∷ (6, 100) ∷ (7, 200) ∷ (8, 300) ∷ []

-- `_SLOT_STATUS`
abbrev pub slot_statuses : Dict ℕ String
slot_statuses =
    (0, "ok")
    ∷ (1, "no_card")
    ∷ (2, "card_error")
    ∷ (3, "locked_or_recognising")
    ∷ (4, "database_error")
    ∷ (5, "recognising")
    ∷ (6, "locked_and_database_error")
    ∷ []

-- What the mixins use of a backend, for one session: its number, the operations, the clock, and
-- the measured capabilities, which are a part of the state.
pub record Device : Type 1 where
  pub State : Type 0
  pub session : ℕ
  pub get_property : ℕ → Action State Property
  pub set_property : ℕ → ℤ → Action State (Unit {0})
  pub send_command : Command → CommandParameter → Action State (Unit {0})
  pub sleep_ms : ℕ → State → State
  pub live_view_info : Action State LiveViewInfo
  pub measured : State → MeasuredCapabilities
  pub remember : MeasuredCapabilities → State → State

-- `int(prop.value)`, on a number; no other value is one.
unfoldable pub int_value : PropertyValue → Result Error ℤ
int_value (PropertyValue.num v) = ok v
int_value PropertyValue.absent = err value_error
int_value (PropertyValue.text t) = err value_error

-- `try: ... except PropertyNotSupportedError: other`
abbrev pub on_missing : {S A : Type 0} → Result Error A → Result Error A × S → Result Error A × S
on_missing other (ok a, s) = (ok a, s)
on_missing other (err (property_not_supported code), s) = (other, s)
on_missing other (err e, s) = (err e, s)

-- `try: bool(probe()) except Exception: False`
abbrev pub attempt : {S : Type 0} → Result Error Bool × S → Bool × S
attempt (ok b, s) = (b, s)
attempt (err e, s) = (false, s)

-- `RecordingState` in `_ACTIVE_RECORDING`
unfoldable pub is_active : RecordingState → Bool
is_active state = state is RecordingState.recording || state is RecordingState.starting

abbrev is_present : {A : Type 0} → Option A → Bool
is_present none = false
is_present (some a) = true

module _ (D : Device) where
  open D use {State, session}

  -- `int(self.get_property(...).value)`
  unfoldable pub read_value : ℕ → Action State ℤ
  unfolding int_value
  read_value code = D.get_property code >>= λ p s. (int_value p.value, s)

  -- `ShutterStageMixin`
  unfoldable pub get_half_press : Action State Bool
  unfolding read_value
  get_half_press = read_value code_s1 >>= λ v. pure (v is lock_locked)

  unfoldable pub set_half_press : Bool → Action State (Unit {0})
  set_half_press engaged = D.set_property code_s1 (if engaged then lock_locked else lock_unlocked)

  unfoldable pub focus_state : Action State FocusState
  unfolding read_value
  focus_state s = on_missing (ok FocusState.unknown) (
      (read_value code_focus_indication >>= λ v.
      pure (abi_get focus_indication FocusState.unknown v))
        s)

  -- `_optional_value`
  unfoldable pub optional_value : ℕ → Action State (Option ℤ)
  unfolding read_value
  optional_value code s = on_missing (ok none) ((read_value code >>= λ v. pure (some v)) s)

  abbrev destination_of : Option ℤ → StillDestination
  destination_of none = StillDestination.memory_card
  destination_of (some v) = abi_get abi_destinations StillDestination.memory_card v

  -- `get_destination`
  unfoldable pub get_destination : Action State StillDestination
  unfolding optional_value
  get_destination = optional_value code_destination >>= λ v. pure (destination_of v)

  -- `set_destination`; both backends forget nothing at it.
  unfoldable pub set_destination : StillDestination → Action State (Unit {0})
  set_destination destination = D.set_property code_destination (destination_to_abi destination)

  -- `_apply_destination`
  unfoldable pub apply_destination : StillDestination → Action State (Unit {0})
  unfolding get_destination set_destination
  apply_destination destination = get_destination >>= λ current.
      if current is destination then pure tt else set_destination destination

  -- A percentage outside 0 to 100 is reported as absent.
  abbrev percent_of : Option ℤ → Option ℤ
  percent_of none = none
  percent_of (some v) = if leb_ℤ (pos 0) v && leb_ℤ v (pos 100) then some v else none

  abbrev level_of : Option ℤ → Option ℕ
  level_of none = none
  level_of (some (negsuc n)) = none
  level_of (some (pos n)) = lookup n battery_levels

  abbrev is_usb_power : Option ℤ → Bool
  is_usb_power none = false
  is_usb_power (some v) = v is pos 0x00010000

  -- `battery`
  unfoldable pub battery : Action State BatteryStatus
  unfolding optional_value
  battery = do
    percent ← optional_value code_battery_remain
    raw_level ← optional_value code_battery_level
    pure (record {
      percent = percent_of percent;
      level = level_of raw_level;
      usb_power = is_usb_power raw_level;
      raw_level = raw_level;
    })

  -- What one round of `storage` makes of the status: the slot, if the body has it.
  unfoldable pub slot_of : ℕ → ℕ → ℕ → Option ℤ → Action State (List StorageSlot)
  unfolding optional_value
  slot_of number shots_code seconds_code none s = (ok [], s)
  slot_of number shots_code seconds_code (some raw_status) s =
      (do
        shots ← optional_value shots_code
        seconds ← optional_value seconds_code
        pure (
            record {
              slot = number;
              status = abi_get slot_statuses "unknown" raw_status;
              remaining_shots = shots;
              remaining_seconds = seconds;
              raw_status = some raw_status;
            }
            ∷ []))
        s

  -- One round of `storage`.
  unfoldable pub read_slot : ℕ → ℕ → ℕ → ℕ → Action State (List StorageSlot)
  unfolding optional_value slot_of
  read_slot number status_code shots_code seconds_code =
      optional_value status_code >>= slot_of number shots_code seconds_code

  -- `storage`, over `_SLOT_CODES`.
  unfoldable pub storage : Action State (List StorageSlot)
  unfolding read_slot
  storage = do
    first ← read_slot 1 0x0708 0x0709 0x070A
    second ← read_slot 2 0x070D 0x070F 0x0710
    pure (first ++ second)

  -- `recording_state`
  unfoldable pub recording_state : Action State RecordingState
  unfolding read_value
  recording_state s = on_missing (err (unsupported "video")) (
      (read_value code_recording_state >>= λ v. pure (abi_get abi_recording RecordingState.idle v))
        s)

  -- `_press_record`
  unfoldable pub press_record : Action State (Unit {0})
  press_record = do
    D.send_command Command.movie_record CommandParameter.down
    modify (D.sleep_ms 35)
    D.send_command Command.movie_record CommandParameter.up

  -- `start_recording` and `stop_recording`
  unfoldable pub start_recording : Action State (Unit {0})
  unfolding recording_state press_record is_active
  start_recording = recording_state >>= λ state. if is_active state then pure tt else press_record

  unfoldable pub stop_recording : Action State (Unit {0})
  unfolding recording_state press_record is_active
  stop_recording =
      recording_state >>= λ state. if not (is_active state) then pure tt else press_record

  -- `_probe_video` and `_probe_live_view`
  abbrev pub probe_video : Action State Bool
  probe_video = optional_value code_recording_state >>= λ v. pure (is_present v)

  abbrev pub probe_live_view : Action State Bool
  probe_live_view = D.live_view_info >>= λ info. pure (usable info)

  -- `MeasuredCapabilities.video`
  unfoldable pub measure_video : Action State Bool
  unfolding optional_value
  measure_video s = elim (lookup session (D.measured s).videos) [
    | some b ↦ (ok b, s)
    | none ↦
        let (b, s') = attempt (probe_video s) in
        (ok b, D.remember (note_video session b (D.measured s')) s')
  ]

  -- `MeasuredCapabilities.live_view`
  unfoldable pub measure_live_view : Action State Bool
  unfolding usable
  measure_live_view s =
      if knows_live_view session (D.measured s)
      then (ok true, s)
      else let (b, s') = attempt (probe_live_view s) in
        (ok b, D.remember (note_live_view session b (D.measured s')) s')

  -- `_build_capabilities`
  unfoldable pub build_capabilities :
      SessionMode → Dict String Bool → Action State SessionCapabilities
  unfolding get_destination measure_video measure_live_view has_content
  build_capabilities mode extra = do
    destination ← get_destination
    video ← measure_video
    live_view ← measure_live_view
    measured ← gets D.measured
    pure (record {
      mode = mode;
      destination = destination;
      still_capture = true;
      autofocus_s1 = true;
      video = video;
      live_view = live_view;
      content_index = has_content mode;
      thumbnail = has_content mode;
      screennail = has_content mode;
      postview_configuration = not (contains session measured.postview_configuration_refused);
      postview_delivery = includes_host destination || contains session measured.postview_delivered;
      raw_commands = true;
      extra = extra;
    })
