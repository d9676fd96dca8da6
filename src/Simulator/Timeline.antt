-- ===== src/Simulator/Timeline.antt =====
-- `_Session` of src/crsdkpy/simulator/backend.py: the state of one simulated connection and its
-- scheduled timeline. A closure on the heap is a value of `Effect`, run by `run_effect`; the
-- heap of `heapq` is a list in the order in which `heappop` takes its entries, by time and then
-- by counter. Property values are numbers.
pub mod Order
pub mod Budget
use Prim.Native.String.{String}
use cr_sdkpy.Base.{
  ℕ, zero, suc, ◌+◌, ◌-◌, ◌/◌, ◌%◌, Bool, true, false, ◌&&◌, ◌||◌, Option, none, some, List, [],
  ◌∷◌, ◌++◌, map, ltb, leb, ◌==◌, if◌then◌else◌, length, replicate, nat_identity,
}
use cr_sdkpy.Base.Dict.{Dict, insert}
use cr_sdkpy.Base.Int.{pos}
use cr_sdkpy.Enums.{
  SessionMode, StillDestination, ConnectionState, FocusState, FocusSource, RecordingState,
}
use cr_sdkpy.Events.{Event, Text}
use cr_sdkpy.Contract.{ContentRef}
use cr_sdkpy.Simulator.Scenario.{Scenario}
use cr_sdkpy.Simulator.Profiles.{
  CameraProfile, lock_unlocked, value_unlocked, value_focused_af_s, value_not_focused_af_s,
  value_focused_af_c, value_not_focused_af_c, value_tracking_af_c, code_s1, code_focus_mode,
  code_focus_indication, code_drive_mode, code_recording_state, code_iso, code_destination,
  code_camera_caution, code_system_caution,
}

-- The closures that the backend schedules, with what each one captures.
pub data Effect : Type 0 where
  set_connected begin_reconnect recover expose emit_unknown recording_active recording_idle : Effect
  -- the vendor's focus value
  focus_property focus_status : ℕ → Effect
  -- the content id fixed when the exposure was scheduled
  add_content announce_postview : ℕ → Effect
  -- the property code that arrives late
  straggle : ℕ → Effect

pub record Entry : Type 0 where
  pub at : ℕ
  pub counter : ℕ
  pub effect : Effect

pub record SimSession : Type 0 where
  pub profile : CameraProfile
  pub scenario : Scenario
  pub mode : SessionMode
  pub destination : StillDestination
  pub state : ConnectionState
  pub opened_ms : ℕ
  pub closed : Bool
  pub properties : Dict ℕ ℕ
  pub recording : RecordingState
  pub postview_configured : Bool
  pub postview_pending : Option ℕ
  pub transfer_path : Option Text
  pub contents : List ContentRef
  pub next_content_id : ℕ
  pub capture_sequence : ℕ
  pub last_delivered_content : Option ℕ
  pub live_view_frame_no : ℕ
  pub next_frame_ms : ℕ
  pub live_view_blocked_until : ℕ
  pub heap : List Entry
  pub counter : ℕ
  pub ready : List Event

-- The vendor's number of a destination.
abbrev pub destination_value : StillDestination → ℕ
destination_value StillDestination.memory_card = 0x0002
destination_value StillDestination.host = 0x0001
destination_value StillDestination.host_and_memory_card = 0x0003

-- `_Session._initial_value`
unfoldable pub initial_value : ℕ → StillDestination → ℕ
initial_value code destination =
    if code == code_s1
    then lock_unlocked
    else if code == code_focus_indication
    then value_unlocked
    else if code == code_focus_mode
    then 0x0002
    else if code == code_drive_mode
    then 0x0001
    else if code == code_recording_state
    then 0x0000
    else if code == code_iso
    then 100
    else if code == code_camera_caution || code == code_system_caution
    then 0x01
    else if code == code_destination
    then destination_value destination
    else 0

-- `_Session.__init__`, given the property codes of the profile in this mode.
unfoldable pub new_session :
    CameraProfile → Scenario → SessionMode → StillDestination → List ℕ → ℕ → SimSession
unfolding initial_value
new_session profile scenario mode destination codes opened_ms = record {
  profile = profile;
  scenario = scenario;
  mode = mode;
  destination = destination;
  state = ConnectionState.connecting;
  opened_ms = opened_ms;
  closed = false;
  properties = map (λ code. (code, initial_value code destination)) codes;
  recording = RecordingState.idle;
  postview_configured = false;
  postview_pending = none;
  transfer_path = none;
  contents = [];
  next_content_id = 131000;
  capture_sequence = 0;
  last_delivered_content = none;
  live_view_frame_no = 0;
  next_frame_ms = opened_ms;
  live_view_blocked_until = 0;
  heap = [];
  counter = 0;
  ready = [];
}

-- `heapq.heappush`: entries are compared by time, then by counter.
unfoldable pub push_entry : Entry → List Entry → List Entry
push_entry e [] = e ∷ []
push_entry e (f ∷ fs) =
    if ltb e.at f.at || (e.at == f.at && ltb e.counter f.counter)
    then e ∷ f ∷ fs
    else f ∷ push_entry e fs

-- `_Session.schedule`
unfoldable pub schedule : ℕ → Effect → SimSession → SimSession
schedule at effect s = record s {
  heap = push_entry (record { at = at; counter = s.counter; effect = effect }) s.heap;
  counter = s.counter + 1;
}

-- `_Session.next_scheduled_ms`
unfoldable pub next_scheduled_ms : SimSession → Option ℕ
next_scheduled_ms s = elim (s.heap) [ [] ↦ none | e ∷ _ ↦ some e.at ]

-- `session.ready.append(...)`
abbrev pub notify : Event → SimSession → SimSession
notify event s = record s { ready = s.ready ++ (event ∷ []) }

-- `session.properties[code] = value`
abbrev pub put_property : ℕ → ℕ → SimSession → SimSession
put_property code value s = record s { properties = insert code value s.properties }

-- `_FOCUS_VALUE_TO_STATE.get(value, FocusState.UNKNOWN)`
unfoldable pub focus_value_to_state : ℕ → FocusState
focus_value_to_state value =
    if value == value_unlocked
    then FocusState.unlocked
    else if value == value_focused_af_s
    then FocusState.focused_af_s
    else if value == value_not_focused_af_s
    then FocusState.not_focused_af_s
    else if value == value_focused_af_c
    then FocusState.focused_af_c
    else if value == value_not_focused_af_c
    then FocusState.not_focused_af_c
    else if value == value_tracking_af_c
    then FocusState.tracking_af_c
    else FocusState.unknown

-- The decimal digits of a number, as code points; the fuel bounds their count.
decimal : ℕ → ℕ → List ℕ
decimal zero n = []
decimal (suc fuel) n =
    let rest = decimal fuel (n / 10) in (if n == 0 then [] else rest ++ ((b'0' + n % 10) ∷ []))

-- `f"{number:05d}"`
pad5 : ℕ → List ℕ
unfolding decimal
pad5 n = let digits = decimal (suc n) n in replicate (5 - length digits) b'0' ++ digits

-- `f"A:/DCIM/100SIM/DSC{number:05d}.ARW"`
unfoldable pub content_path : ℕ → Text
unfolding pad5
content_path number =
    (b'A' ∷ b':' ∷ b'/' ∷ b'D' ∷ b'C' ∷ b'I' ∷ b'M' ∷ b'/' ∷ b'1' ∷ b'0' ∷ b'0' ∷ b'S' ∷ b'I' ∷ b'M'
      ∷ b'/' ∷ b'D' ∷ b'S' ∷ b'C' ∷ [])
    ++ (pad5 number ++ (b'.' ∷ b'A' ∷ b'R' ∷ b'W' ∷ []))

-- The record that `_content` appends.
unfoldable pub content_ref : ℕ → ℕ → ℕ → ContentRef
content_ref now content_id number = record {
  content_id = content_id;
  file_id = 1;
  file_number = some number;
  path = some (content_path number);
  created_ms = now;
  captured_at = none;
  content_type = 1;
  file_format = 0xB101;
  width = some 4240;
  height = some 2832;
  file_size = some 24000000;
  slot = 1;
  file_count = 1;
}

abbrev connected_event : ℕ → Bool → Event
connected_event now recovered = Event.connection now ConnectionState.connected recovered none none

-- What a scheduled closure does when it is run at `now`, and the events that it returns.
unfoldable pub run_effect : ℕ → Effect → SimSession → SimSession × List Event
unfolding content_ref focus_value_to_state
run_effect now Effect.set_connected s =
    (record s { state = ConnectionState.connected }, connected_event now false ∷ [])
run_effect now Effect.begin_reconnect s = (
  record s { state = ConnectionState.reconnecting },
  Event.connection now ConnectionState.reconnecting false none none
      ∷ (if s.scenario.reconnect_without_disconnect
          then []
          else (Event.connection now ConnectionState.closed false none none ∷ [])),
)
run_effect now Effect.recover s = (
  record s { state = ConnectionState.connected; next_frame_ms = now },
  (if s.scenario.duplicate_connected_event then (connected_event now false ∷ []) else [])
      ++ (connected_event now true ∷ []),
)
run_effect now Effect.expose s =
    let sequence = s.capture_sequence + 1 in
    (record s { capture_sequence = sequence }, Event.capture now sequence ∷ [])
run_effect now (Effect.add_content content_id) s =
    let ref = content_ref now content_id (3400 + length s.contents) in
    (
      record s { next_content_id = content_id; contents = s.contents ++ (ref ∷ []) },
      Event.content now (some ref.content_id) ref.file_number ref.path ∷ [],
    )
run_effect now (Effect.announce_postview content_id) s =
    (record s { postview_pending = some content_id }, [])
run_effect now Effect.emit_unknown s = (s, Event.unknown now 0xDEAD none ∷ [])
run_effect now Effect.recording_active s = (
  put_property code_recording_state 0x0001 (record s { recording = RecordingState.recording }),
  Event.recording now RecordingState.recording ∷ [],
)
run_effect now Effect.recording_idle s = (
  put_property code_recording_state 0x0000 (record s { recording = RecordingState.idle }),
  Event.recording now RecordingState.idle ∷ [],
)
run_effect now (Effect.focus_property value) s = (
  put_property code_focus_indication value s,
  Event.property_changed now (code_focus_indication ∷ [])
      ∷ Event.focus now (focus_value_to_state value) FocusSource.property (some (pos value))
      ∷ [],
)
run_effect now (Effect.focus_status value) s = (
  s,
  Event.focus now (focus_value_to_state value) FocusSource.status_warning (some (pos value)) ∷ [],
)
run_effect now (Effect.straggle code) s = (s, Event.property_changed now (code ∷ []) ∷ [])

-- The loop of `drain_due` over the heap: the events of what is due.
unfoldable pub run_due : ℕ → List Entry → SimSession → SimSession × List Event
run_due now [] s = (record s { heap = [] }, [])
run_due now (e ∷ rest) s =
    let next : SimSession × List Event =
      (let (s', events) = run_effect now e.effect s in
        let (s'', later) = run_due now rest s' in (s'', events ++ later)) in
    if leb e.at now then next else (record s { heap = e ∷ rest }, [])

-- `_Session.drain_due`
unfoldable pub drain_due : ℕ → SimSession → SimSession × List Event
drain_due now s =
    let (s', events) = run_due now s.heap (record s { ready = [] }) in (s', s.ready ++ events)

-- `session.ready.extend(session.drain_due(now))`
unfoldable pub settle : ℕ → SimSession → SimSession
settle now s = let (s', events) = drain_due now s in record s' { ready = s'.ready ++ events }
