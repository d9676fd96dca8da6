-- ===== src/Host/Mixins.antt =====
-- src/crsdkpy/backend/host.py: what `HostBackend` inherits from the mixins of native.py.
use cr_sdkpy.Base.{ℕ, Bool, List}
use cr_sdkpy.Enums.{StillDestination, FocusState, RecordingState}
use cr_sdkpy.Contract.{BatteryStatus, StorageSlot}
use cr_sdkpy.Events.{Action}
use cr_sdkpy.Native.Device
use cr_sdkpy.Native.Keeps.{
  get_half_press-Keeps, set_half_press-Keeps, focus_state-Keeps, get_destination-Keeps,
  set_destination-Keeps, battery-Keeps, storage-Keeps, recording_state-Keeps, start_recording-Keeps,
  stop_recording-Keeps,
}
use cr_sdkpy.Session.Keeps.{Keeps}
use cr_sdkpy.Host.Transport.{Platform, Host}
use cr_sdkpy.Host.Access.{device}
use cr_sdkpy.Host.Tables.{IsCoherent}
use cr_sdkpy.Host.Coherent.{hosted-DeviceKeeps}

module _ (P : Platform) (fuel id : ℕ) where
  unfoldable pub get_half_press : Action (Host P) Bool
  unfolding device Device.get_half_press
  get_half_press = Device.get_half_press (device P fuel id)

  unfoldable pub set_half_press : Bool → Action (Host P) (Unit {0})
  unfolding device Device.set_half_press
  set_half_press = Device.set_half_press (device P fuel id)

  unfoldable pub focus_state : Action (Host P) FocusState
  unfolding device Device.focus_state
  focus_state = Device.focus_state (device P fuel id)

  unfoldable pub get_destination : Action (Host P) StillDestination
  unfolding device Device.get_destination
  get_destination = Device.get_destination (device P fuel id)

  unfoldable pub set_destination : StillDestination → Action (Host P) (Unit {0})
  unfolding device Device.set_destination
  set_destination = Device.set_destination (device P fuel id)

  unfoldable pub battery : Action (Host P) BatteryStatus
  unfolding device Device.battery
  battery = Device.battery (device P fuel id)

  unfoldable pub storage : Action (Host P) (List StorageSlot)
  unfolding device Device.storage
  storage = Device.storage (device P fuel id)

  unfoldable pub recording_state : Action (Host P) RecordingState
  unfolding device Device.recording_state
  recording_state = Device.recording_state (device P fuel id)

  unfoldable pub start_recording : Action (Host P) (Unit {0})
  unfolding device Device.start_recording
  start_recording = Device.start_recording (device P fuel id)

  unfoldable pub stop_recording : Action (Host P) (Unit {0})
  unfolding device Device.stop_recording
  stop_recording = Device.stop_recording (device P fuel id)

  pub hosted_get_half_press-Keeps : Keeps (IsCoherent P) get_half_press
  unfolding get_half_press device
  hosted_get_half_press-Keeps =
      get_half_press-Keeps (device P fuel id) (IsCoherent P) (hosted-DeviceKeeps P fuel id)

  pub hosted_set_half_press-Keeps : (a : Bool) → Keeps (IsCoherent P) (set_half_press a)
  unfolding set_half_press device
  hosted_set_half_press-Keeps =
      set_half_press-Keeps (device P fuel id) (IsCoherent P) (hosted-DeviceKeeps P fuel id)

  pub hosted_focus_state-Keeps : Keeps (IsCoherent P) focus_state
  unfolding focus_state device
  hosted_focus_state-Keeps =
      focus_state-Keeps (device P fuel id) (IsCoherent P) (hosted-DeviceKeeps P fuel id)

  pub hosted_get_destination-Keeps : Keeps (IsCoherent P) get_destination
  unfolding get_destination device
  hosted_get_destination-Keeps =
      get_destination-Keeps (device P fuel id) (IsCoherent P) (hosted-DeviceKeeps P fuel id)

  pub hosted_set_destination-Keeps :
      (a : StillDestination) → Keeps (IsCoherent P) (set_destination a)
  unfolding set_destination device
  hosted_set_destination-Keeps =
      set_destination-Keeps (device P fuel id) (IsCoherent P) (hosted-DeviceKeeps P fuel id)

  pub hosted_battery-Keeps : Keeps (IsCoherent P) battery
  unfolding battery device
  hosted_battery-Keeps =
      battery-Keeps (device P fuel id) (IsCoherent P) (hosted-DeviceKeeps P fuel id)

  pub hosted_storage-Keeps : Keeps (IsCoherent P) storage
  unfolding storage device
  hosted_storage-Keeps =
      storage-Keeps (device P fuel id) (IsCoherent P) (hosted-DeviceKeeps P fuel id)

  pub hosted_recording_state-Keeps : Keeps (IsCoherent P) recording_state
  unfolding recording_state device
  hosted_recording_state-Keeps =
      recording_state-Keeps (device P fuel id) (IsCoherent P) (hosted-DeviceKeeps P fuel id)

  pub hosted_start_recording-Keeps : Keeps (IsCoherent P) start_recording
  unfolding start_recording device
  hosted_start_recording-Keeps =
      start_recording-Keeps (device P fuel id) (IsCoherent P) (hosted-DeviceKeeps P fuel id)

  pub hosted_stop_recording-Keeps : Keeps (IsCoherent P) stop_recording
  unfolding stop_recording device
  hosted_stop_recording-Keeps =
      stop_recording-Keeps (device P fuel id) (IsCoherent P) (hosted-DeviceKeeps P fuel id)
