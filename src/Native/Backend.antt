-- ===== src/Native/Backend.antt =====
-- src/crsdkpy/backend/native.py: `NativeBackend`, over the functions of the C bridge. A session
-- id is its number.
use cr_sdkpy.Base.{
  ℕ, zero, suc, ◌+◌, Bool, true, false, not, Option, none, some, List, [], ◌∷◌, map, ◌==◌,
  if◌then◌else◌, nat_identity, ok, err,
}
use cr_sdkpy.Base.Dict.{Dict, lookup, insert, erase}
use cr_sdkpy.Base.Int.{ℤ, int_identity}
use cr_sdkpy.Enums.{SessionMode, StillDestination, ConnectionState, Command, CommandParameter}
use cr_sdkpy.Capabilities.{SessionCapabilities}
use cr_sdkpy.Contract.{LiveViewInfo}
use cr_sdkpy.Events.{
  Event, Action, Text, pure, gets, modify, raise_when, ◌>>=◌, ◌>>◌, session_closed,
  native_backend_error,
}
use cr_sdkpy.Properties.{Property}
use cr_sdkpy.Cabi.{check}
use cr_sdkpy.Native.Decode.{
  CameraInfo, mode_to_abi, abi_to_state, command_to_abi, parameter_to_abi, decode_event,
  decode_property, decode_live_view_info, decode_camera_info,
}
use cr_sdkpy.Native.Measured.{FrameSequencer, forget_frames, MeasuredCapabilities, forget_measured}
use cr_sdkpy.Native.Bridge.{Bridge}
use cr_sdkpy.Native.Device.{Device}
use cr_sdkpy.Native.Device

-- `NativeBackend`
pub record NativeBackend (World : Type 0) : Type 0 where
  pub world : World
  pub started : Bool
  pub handles : Dict ℕ ℕ
  pub modes : Dict ℕ SessionMode
  pub counter : ℕ
  pub measurements : MeasuredCapabilities
  pub frames : FrameSequencer

module _ (C : Bridge) where
  open C use {World}

  abbrev pub State : Type 0
  State = NativeBackend World

  -- A call of a function of the bridge.
  abbrev pub raw : {A : Type 0} → (World → A × World) → Action State A
  raw f s = let (a, w) = f s.world in (ok a, record s { world = w })

  -- `_cabi.check(self._lib, f(...))`
  abbrev pub checked : (World → ℤ × World) → Action State (Unit {0})
  checked f = raw f >>= λ status s. (check status, s)

  abbrev pub fetched : {A : Type 0} → (World → (ℤ × A) × World) → Action State A
  fetched f = raw f >>= λ reply. (λ s. (check reply.0, s)) >>= λ _. pure reply.1

  -- `start`
  unfoldable pub start : Action State (Unit {0})
  unfolding check
  start s =
      if s.started
      then (ok tt, s)
      else (checked C.init >>= λ _. modify (λ s'. record s' { started = true })) s

  -- `shutdown`
  unfoldable pub shutdown : Action State (Unit {0})
  unfolding check
  shutdown s =
      if not s.started
      then (ok tt, s)
      else (checked C.shutdown >>= λ _. modify (λ s'. record s' { started = false }))
          (record s { handles = []; modes = [] })

  -- `_require_started`
  abbrev require_started : Action State (Unit {0})
  require_started s = raise_when (not s.started) native_backend_error s

  -- The loop of `enumerate_cameras`, from an index on.
  unfoldable pub cameras_from : ℕ → ℕ → Action State (List CameraInfo)
  unfolding check decode_camera_info
  cameras_from index zero = pure []
  cameras_from index (suc left) = do
    info ← fetched (C.camera_at index)
    rest ← cameras_from (suc index) left
    pure (decode_camera_info info ∷ rest)

  -- `enumerate_cameras`
  unfoldable pub enumerate_cameras : ℕ → Action State (List CameraInfo)
  unfolding check cameras_from
  enumerate_cameras timeout_sec = do
    require_started
    count ← fetched (C.enumerate timeout_sec)
    cameras_from 0 count

  -- `_handle`
  unfoldable pub handle_of : ℕ → Action State ℕ
  handle_of id s = elim (lookup id s.handles) [
    | none ↦ (err session_closed, s)
    | some handle ↦ (ok handle, s)
  ]

  -- `connection_state`
  unfoldable pub connection_state : ℕ → Action State ConnectionState
  unfolding check abi_to_state
  connection_state id s = elim (lookup id s.handles) [
    | none ↦ (ok ConnectionState.closed, s)
    | some handle ↦ (fetched (C.connection_state handle) >>= λ state. pure (abi_to_state state)) s
  ]

  -- `poll_events`, with its buffer of 128 events.
  unfoldable pub poll_events : ℕ → ℕ → Action State (List Event)
  unfolding handle_of check decode_event
  poll_events id timeout_ms = do
    handle ← handle_of id
    raws ← fetched (C.poll_events handle 128 timeout_ms)
    observed ← gets (λ s. C.now_ms s.world)
    pure (map (λ r. decode_event r observed) raws)

  -- `list_properties`
  unfoldable pub list_properties : ℕ → Action State (List Property)
  unfolding handle_of check decode_property
  list_properties id = do
    handle ← handle_of id
    count ← fetched (C.count_properties handle)
    if count == 0
        then pure []
        else (fetched (C.list_properties handle count) >>= λ raws. pure (map decode_property raws))

  -- `get_property`
  unfoldable pub get_property : ℕ → ℕ → Action State Property
  unfolding handle_of check decode_property
  get_property id code = do
    handle ← handle_of id
    r ← fetched (C.get_property handle code)
    pure (decode_property r)

  -- `set_property`
  unfoldable pub set_property : ℕ → ℕ → ℤ → Action State (Unit {0})
  unfolding handle_of check
  set_property id code value = do handle ← handle_of id; checked (C.set_property handle code value)

  -- `send_command`
  unfoldable pub send_command : ℕ → Command → CommandParameter → Action State (Unit {0})
  unfolding handle_of check command_to_abi parameter_to_abi
  send_command id command parameter = do
    handle ← handle_of id
    checked (C.send_command handle (command_to_abi command) (parameter_to_abi parameter))

  -- `live_view_info`
  unfoldable pub live_view_info : ℕ → Action State LiveViewInfo
  unfolding handle_of check decode_live_view_info
  live_view_info id = do
    handle ← handle_of id
    r ← fetched (C.get_live_view_info handle)
    pure (decode_live_view_info r)

  abbrev sleep : ℕ → State → State
  sleep duration s = record s { world = C.sleep_ms duration s.world }

  -- A session as the mixins see it.
  unfoldable pub device : ℕ → Device
  unfolding get_property set_property send_command live_view_info
  device id = record {
    State = State;
    session = id;
    get_property = get_property id;
    set_property = set_property id;
    send_command = send_command id;
    sleep_ms = sleep;
    live_view_info = live_view_info id;
    measured = λ s. s.measurements;
    remember = λ m s. record s { measurements = m };
  }

  -- What `open_session` enters into its tables.
  abbrev pub register : ℕ → SessionMode → State → State
  register handle mode s = record s {
    counter = s.counter + 1;
    handles = insert (s.counter + 1) handle s.handles;
    modes = insert (s.counter + 1) mode s.modes;
  }

  unfoldable pub apply_wanted : ℕ → Option StillDestination → Action State (Unit {0})
  unfolding device Device.apply_destination
  apply_wanted id none = pure tt
  apply_wanted id (some destination) = Device.apply_destination (device id) destination

  -- `open_session`; the policy of reconnection is not passed on.
  unfoldable pub open_session : Text → SessionMode → Option StillDestination → Action State ℕ
  unfolding check mode_to_abi apply_wanted
  open_session device_key mode destination = do
    require_started
    handle ← fetched (C.open_session device_key (mode_to_abi mode))
    modify (register handle mode)
    id ← gets (λ s. s.counter)
    apply_wanted id destination
    pure id

  abbrev pub unregister : ℕ → State → State
  unregister id s = record s {
    handles = erase id s.handles;
    modes = erase id s.modes;
    measurements = forget_measured id s.measurements;
    frames = forget_frames id s.frames;
  }

  -- `close_session`
  unfoldable pub close_session : ℕ → Action State (Unit {0})
  unfolding check forget_measured forget_frames
  close_session id s = elim (lookup id s.handles) [
    | none ↦ (ok tt, unregister id s)
    | some handle ↦ checked (C.close_session handle) (unregister id s)
  ]

  -- `self._modes.get(session_id, SessionMode.REMOTE)`
  abbrev pub mode_of : ℕ → State → SessionMode
  mode_of id s = elim (lookup id s.modes) [ none ↦ SessionMode.remote | some mode ↦ mode ]

  -- `session_capabilities`
  unfoldable pub session_capabilities : ℕ → Action State SessionCapabilities
  unfolding device Device.build_capabilities
  session_capabilities id s =
      Device.build_capabilities (device id) (mode_of id s)
        (("backend", true) ∷ ("hosted", false) ∷ []) s
