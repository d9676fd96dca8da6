-- ===== src/Host/Sessions.antt =====
-- src/crsdkpy/backend/host.py: the table of sessions of `HostBackend`, and their state.
use cr_sdkpy.Base.{
  ℕ, zero, suc, ◌+◌, ◌-◌, Bool, true, false, Option, none, some, [], ◌∷◌, nat_identity, Result, ok,
  err,
}
use cr_sdkpy.Base.Dict.{lookup, insert, erase}
use cr_sdkpy.Base.Int.{pos, int_identity}
use cr_sdkpy.Enums.{SessionMode, StillDestination, ConnectionState, ReconnectPolicy}
use cr_sdkpy.Capabilities.{SessionCapabilities}
use cr_sdkpy.Events.{
  Error, Action, Text, pure, gets, modify, raise_when, ◌>>=◌, ◌>>◌, backend_error,
  camera_connection,
}
use cr_sdkpy.Native.Decode.{abi_to_state, mode_to_abi}
use cr_sdkpy.Native.Measured.{forget_measured, forget_frames}
use cr_sdkpy.Native.Device
use cr_sdkpy.Native.Device.{Device}
use cr_sdkpy.Host.Wire.{Response, no_arguments}
use cr_sdkpy.Host.Transport.{Platform, HostState, Host, call}
use cr_sdkpy.Host.Life.{current_state}
use cr_sdkpy.Host.Access.{device}

-- `_RECONNECT_TO_ABI`
unfoldable pub reconnect_to_abi : ReconnectPolicy → ℕ
reconnect_to_abi ReconnectPolicy.bounded = 0
reconnect_to_abi ReconnectPolicy.vendor = 1

-- The number of attempts of `_open_with_retry`.
unfoldable pub attempts_of : ReconnectPolicy → ℕ
attempts_of ReconnectPolicy.vendor = 1
attempts_of ReconnectPolicy.bounded = 2

-- `except CameraConnectionError`, with the marker of a connection callback that never came.
abbrev pub on_callback_timeout :
    {S A : Type 0} → Action S A → Result Error A × S → Result Error A × S
on_callback_timeout other (ok a, s) = (ok a, s)
on_callback_timeout other (err (camera_connection true), s) = other s
on_callback_timeout other (err e, s) = (err e, s)

-- The loop of `_open_with_retry`, with so many attempts left behind this one.
unfoldable pub retry_loop : {S A : Type 0} → ℕ → Action S A → Action S A
retry_loop zero m s = m s
retry_loop (suc left) m s = on_callback_timeout (retry_loop left m) (m s)

module _ (P : Platform) (fuel : ℕ) where
  -- `_open_with_retry`
  unfoldable pub open_with_retry : ℕ → Text → ReconnectPolicy → Action (Host P) Response
  unfolding retry_loop call reconnect_to_abi
  open_with_retry abi_mode device_key reconnect = retry_loop (attempts_of reconnect - 1) (
      call P fuel 6 (record no_arguments {
        i32 = pos abi_mode;
        i32_2 = pos (reconnect_to_abi reconnect);
        text = device_key;
      })
      >>= λ reply. pure reply.0)

  -- What `open_session` enters into its tables.
  abbrev pub register : ℕ → SessionMode → Host P → Host P
  register handle mode s = record s {
    session_counter = s.session_counter + 1;
    handles = insert (s.session_counter + 1) handle s.handles;
    modes = insert (s.session_counter + 1) mode s.modes;
  }

  unfoldable pub apply_wanted : ℕ → Option StillDestination → Action (Host P) (Unit {0})
  unfolding device Device.apply_destination
  apply_wanted id none = pure tt
  apply_wanted id (some destination) = Device.apply_destination (device P fuel id) destination

  -- `open_session`
  unfoldable pub open_session :
      Text → SessionMode → Option StillDestination → ReconnectPolicy → Action (Host P) ℕ
  unfolding open_with_retry mode_to_abi apply_wanted
  open_session device_key mode destination reconnect = do
    response ← open_with_retry (mode_to_abi mode) device_key reconnect
    modify (register response.handle mode)
    id ← gets (λ s. s.session_counter)
    apply_wanted id destination
    pure id

  abbrev pub unregister : ℕ → Host P → Host P
  unregister id s = record s {
    handles = erase id s.handles;
    modes = erase id s.modes;
    measurements = forget_measured id s.measurements;
    frames = forget_frames id s.frames;
  }

  -- `close_session`
  unfoldable pub close_session : ℕ → Action (Host P) (Unit {0})
  unfolding call forget_measured forget_frames
  close_session id s = elim (lookup id s.handles) [
    | none ↦ (ok tt, unregister id s)
    | some handle ↦
        (call P fuel 7 (record no_arguments { handle = handle }) >>= λ reply. pure tt)
          (unregister id s)
  ]

  abbrev pub has_crashed : HostState → Bool
  has_crashed HostState.crashed = true
  has_crashed _ = false

  abbrev pub ask_state : ℕ → Action (Host P) ConnectionState
  ask_state id s = elim (lookup id s.handles) [
    | none ↦ (ok ConnectionState.closed, s)
    | some handle ↦
        (call P fuel 8 (record no_arguments { handle = handle }) >>= λ reply.
        pure (abi_to_state reply.0.i32_result))
          s
  ]

  -- `connection_state`
  unfoldable pub connection_state : ℕ → Action (Host P) ConnectionState
  unfolding current_state call abi_to_state
  connection_state id = do
    state ← current_state P
    raise_when (has_crashed state) backend_error
    ask_state id

  -- `self._modes.get(session_id, SessionMode.REMOTE)`
  abbrev pub mode_of : ℕ → Host P → SessionMode
  mode_of id s = elim (lookup id s.modes) [ none ↦ SessionMode.remote | some mode ↦ mode ]

  -- `session_capabilities`
  unfoldable pub session_capabilities : ℕ → Action (Host P) SessionCapabilities
  unfolding device Device.build_capabilities
  session_capabilities id s =
      Device.build_capabilities (device P fuel id) (mode_of id s)
        (("backend", true) ∷ ("hosted", true) ∷ []) s
