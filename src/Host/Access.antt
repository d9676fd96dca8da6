-- ===== src/Host/Access.antt =====
-- src/crsdkpy/backend/host.py: discovery, events, properties and commands of `HostBackend`. A
-- session id is its number; `fuel` is that of one call.
use cr_sdkpy.Base.{
  ℕ, length, Bool, true, false, not, ◌||◌, Option, none, some, List, [], ◌∷◌, map, ◌==◌,
  if◌then◌else◌, nat_identity, ◌is◌, Result, ok, err,
}
use cr_sdkpy.Base.Dict.{lookup}
use cr_sdkpy.Base.Int.{ℤ, pos, word32, high32, int_identity}
use cr_sdkpy.Enums.{PropertyValueType, Command, CommandParameter}
use cr_sdkpy.Contract.{LiveViewInfo}
use cr_sdkpy.Events.{
  Event, Error, Action, pure, raise, gets, raise_when, ◌>>=◌, ◌>>◌, session_closed,
  native_backend_error, property_not_supported, protocol_error, value_error, key_error,
  attribute_error, struct_error, exhausted,
}
use cr_sdkpy.Ipc.{unpack_array, unpack_int64_array, from_bytes}
use cr_sdkpy.Properties.{Property, PropertyValue, PropertyRange}
use cr_sdkpy.Cabi.Structs.{
  camera_info_size, read_camera_info, event_size, read_event, property_size, read_property,
  live_view_info_size, read_live_view_info,
}
use cr_sdkpy.Native.Decode.{
  CameraInfo, command_to_abi, parameter_to_abi, decode_event, decode_property, decode_camera_info,
  decode_live_view_info, int_or_none,
}
use cr_sdkpy.Native.Device.{Device}
use cr_sdkpy.Host.Wire.{Response, Arguments, no_arguments}
use cr_sdkpy.Host.Transport.{Platform, Host, wire, call, call_ex}
use cr_sdkpy.Host.Life.{is_ready}

-- The exceptions that derive from `CrSDKPyError`.
unfoldable pub is_program_error : Error → Bool
is_program_error protocol_error = false
is_program_error value_error = false
is_program_error key_error = false
is_program_error attribute_error = false
is_program_error struct_error = false
is_program_error exhausted = false
is_program_error _ = true

-- `except CrSDKPyError: return a`
abbrev pub on_program_error : {S A : Type 0} → A → Result Error A × S → Result Error A × S
on_program_error a (ok b, s) = (ok b, s)
on_program_error a (err e, s) = (if is_program_error e then ok a else err e, s)

abbrev has_constraints : Property → Bool
has_constraints p = has_items p.allowed_values || has_range p.value_range
  where
    has_items : List ℤ → Bool
    has_items [] = false
    has_items (v ∷ vs) = true

    has_range : Option PropertyRange → Bool
    has_range none = false
    has_range (some r) = true

abbrev with_range : Property → List ℤ → Property
with_range p (minimum ∷ maximum ∷ step ∷ []) = record p {
  value_range = some (record { minimum = minimum; maximum = maximum; step = int_or_none step });
}
with_range p _ = p

-- What `_with_values` makes of the response: 3 is VALUES_RAW, 0 VALUES_NONE, 2 VALUES_RANGE and 1
-- VALUES_ENUM.
unfoldable pub take_values : Property → Response → List ℕ → Property
take_values p response blob =
    if response.i32_result is pos 3
    then record p { values_undecoded = true }
    else if response.i32_result is pos 0 || response.count == 0 || length blob == 0
    then p
    else if response.i32_result is pos 2
    then with_range p (unpack_int64_array blob response.count)
    else if response.i32_result is pos 1
    then record p { allowed_values = unpack_int64_array blob response.count }
    else p

abbrev is_string : PropertyValueType → Bool
is_string PropertyValueType.string = true
is_string _ = false

-- What `_with_string` makes of the response.
abbrev take_string : Property → Response → Property
take_string p response =
    if response.count == 0 then p else record p { value = PropertyValue.text response.message }

-- The arguments of `set_property`: the value in its two halves.
unfoldable pub value_arguments : ℕ → ℕ → ℤ → Arguments
value_arguments handle code value = record no_arguments {
  handle = handle;
  u32 = code;
  i32 = pos (word32 value);
  i32_2 = pos (high32 value);
}

module _ (P : Platform) (fuel : ℕ) where
  -- `enumerate_cameras`
  unfoldable pub enumerate_cameras : ℕ → Action (Host P) (List CameraInfo)
  unfolding call unpack_array decode_camera_info read_camera_info is_ready
  enumerate_cameras timeout_sec = do
    ready ← gets (λ s. is_ready s.state)
    raise_when (not ready) native_backend_error
    reply ← call P fuel 4 (record no_arguments { i32 = pos timeout_sec })
    items ← wire P (unpack_array camera_info_size reply.1 reply.0.count)
    pure (map (λ item. decode_camera_info (read_camera_info item)) items)

  -- `_handle`
  unfoldable pub handle_of : ℕ → Action (Host P) ℕ
  handle_of id s = elim (lookup id s.handles) [
    | none ↦ (err session_closed, s)
    | some handle ↦ (ok handle, s)
  ]

  -- `poll_events`
  unfoldable pub poll_events : ℕ → ℕ → Action (Host P) (List Event)
  unfolding handle_of call unpack_array decode_event read_event
  poll_events id timeout_ms = do
    handle ← handle_of id
    reply ← call P fuel 9 (record no_arguments { handle = handle; i32 = pos timeout_ms })
    items ← wire P (unpack_array event_size reply.1 reply.0.count)
    observed ← gets (λ s. P.now_ms s.world)
    pure (map (λ item. decode_event (read_event item) observed) items)

  -- `_with_string`
  unfoldable pub with_string : ℕ → Property → Action (Host P) Property
  unfolding handle_of call is_program_error
  with_string id p s =
      let ask = on_program_error p (
        (do
          handle ← handle_of id
          reply ← call P fuel 21 (record no_arguments { handle = handle; u32 = p.code })
          pure (take_string p reply.0))
          s) in
      if is_string p.value_type then ask else (ok p, s)

  -- `_with_values`
  unfoldable pub with_values : ℕ → Property → Action (Host P) Property
  unfolding handle_of call is_program_error take_values
  with_values id p s =
      let ask = on_program_error p (
        (do
          handle ← handle_of id
          reply ← call P fuel 22 (record no_arguments { handle = handle; u32 = p.code })
          pure (take_values p reply.0 reply.1))
          s) in
      if has_constraints p then (ok p, s) else ask

  -- `_describe`
  unfoldable pub describe : ℕ → Property → Action (Host P) Property
  unfolding with_string with_values
  describe id p = with_string id p >>= with_values id

  unfoldable pub describe_all : ℕ → List Property → Action (Host P) (List Property)
  unfolding describe
  describe_all id [] = pure []
  describe_all id (p ∷ ps) = do q ← describe id p; qs ← describe_all id ps; pure (q ∷ qs)

  -- `list_properties`
  unfoldable pub list_properties : ℕ → Action (Host P) (List Property)
  unfolding handle_of call unpack_array decode_property read_property describe_all
  list_properties id = do
    handle ← handle_of id
    reply ← call P fuel 10 (record no_arguments { handle = handle })
    items ← wire P (unpack_array property_size reply.1 reply.0.count)
    describe_all id (map (λ item. decode_property (read_property item)) items)

  abbrev pub first_property : ℕ → ℕ → List (List ℕ) → Action (Host P) Property
  first_property id code [] = raise (property_not_supported code)
  first_property id code (item ∷ items) = describe id (decode_property (read_property item))

  -- `get_property`
  unfoldable pub get_property : ℕ → ℕ → Action (Host P) Property
  unfolding handle_of call unpack_array decode_property read_property describe
  get_property id code = do
    handle ← handle_of id
    reply ← call P fuel 11 (record no_arguments { handle = handle; u32 = code })
    items ← wire P (unpack_array property_size reply.1 reply.0.count)
    first_property id code items

  -- `set_property`
  unfoldable pub set_property : ℕ → ℕ → ℤ → Action (Host P) (Unit {0})
  unfolding handle_of call value_arguments
  set_property id code value = do
    handle ← handle_of id
    reply ← call P fuel 12 (value_arguments handle code value)
    pure tt

  -- `send_command`
  unfoldable pub send_command : ℕ → Command → CommandParameter → Action (Host P) (Unit {0})
  unfolding handle_of call command_to_abi parameter_to_abi
  send_command id command parameter = do
    handle ← handle_of id
    reply ← call P fuel 13 (record no_arguments {
      handle = handle;
      u32 = command_to_abi command;
      i32 = pos (parameter_to_abi parameter);
    })
    pure tt

  -- `live_view_info`
  unfoldable pub live_view_info : ℕ → Action (Host P) LiveViewInfo
  unfolding handle_of call_ex from_bytes decode_live_view_info read_live_view_info
  live_view_info id = do
    handle ← handle_of id
    reply ← call_ex P fuel 18 (record no_arguments { handle = handle })
    bytes ← wire P (from_bytes live_view_info_size reply.2)
    pure (decode_live_view_info (read_live_view_info bytes))

  abbrev sleep : ℕ → Host P → Host P
  sleep duration s = record s { world = P.sleep_ms duration s.world }

  -- A session as the mixins see it.
  unfoldable pub device : ℕ → Device
  unfolding get_property set_property send_command live_view_info
  device id = record {
    State = Host P;
    session = id;
    get_property = get_property id;
    set_property = set_property id;
    send_command = send_command id;
    sleep_ms = sleep;
    live_view_info = live_view_info id;
    measured = λ s. s.measurements;
    remember = λ m s. record s { measurements = m };
  }
