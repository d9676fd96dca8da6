-- ===== src/Simulator/Backend.antt =====
-- `SimulatedBackend` of src/crsdkpy/simulator/backend.py: its state, a virtual clock and the open
-- sessions, and its operations. A session is named by the number in its `sim-session-N`, a
-- device by the profile and the index in its `sim:NAME:INDEX`.
use Prim.Native.String.{String}
use cr_sdkpy.Base.{
  ℕ, zero, suc, ◌+◌, ◌-◌, Bool, true, false, not, ◌&&◌, Option, none, some, List, [], ◌∷◌, map, ltb,
  leb, ◌==◌, if◌then◌else◌, contains, nat_identity, string_identity, ◌is◌, Result, ok, err,
}
use cr_sdkpy.Base.Dict.{Dict, lookup, insert, has_key}
use cr_sdkpy.Enums.{
  SessionMode, StillDestination, ConnectionState, FocusState, CommandParameter, writable,
  mode_identity, destination_identity, preview_identity,
}
use cr_sdkpy.Capabilities.{SessionCapabilities}
use cr_sdkpy.Events.{
  Event, Error, Action, gets, modify, raise_when, ◌>>◌, camera_connection, session_closed,
  unsupported, property_not_supported, camera_busy,
}
use cr_sdkpy.Simulator.Scenario.{Scenario}
use cr_sdkpy.Simulator.Profiles.{
  CameraProfile, ModeProfile, Property, property_codes_for, build_property, lock_unlocked,
  lock_locked, code_s1, code_focus_indication,
}
use cr_sdkpy.Simulator.Timeline.{
  SimSession, Effect, new_session, schedule, next_scheduled_ms, notify, put_property, drain_due,
  settle, focus_value_to_state,
}
use cr_sdkpy.Simulator.Shooting.{
  CommandLike, caps, begin_autofocus, cancel_autofocus, dispatch, schedule_reconnect,
}

pub record World : Type 0 where
  pub profiles : List CameraProfile
  pub scenario : Scenario
  pub now : ℕ
  pub started : Bool
  pub sessions : Dict ℕ SimSession
  pub session_counter : ℕ

-- `VirtualClock.sleep_ms`, without listeners; a negative duration is clamped at the caller.
unfoldable pub sleep_ms : ℕ → World → World
sleep_ms duration w = record w { now = w.now + duration }

abbrev pub save : ℕ → SimSession → World → World
save id s w = record w { sessions = insert id s w.sessions }

-- The session as it is, or the error of `_session`.
unfoldable pub find_session : ℕ → World → Result Error SimSession
find_session id w = elim (lookup id w.sessions) [
  | none ↦ err session_closed
  | some s ↦ if s.closed then err session_closed else ok s
]

-- The checks of `_live_session` on a session whose due effects have run.
unfoldable pub check_live : SimSession → Result Error (Unit {0})
check_live s = elim (s.state) [
  | ConnectionState.reconnecting ↦ err (camera_connection false)
  | _ ↦ if s.scenario.busy then err camera_busy else ok tt
]

-- An operation on one session at a time.
abbrev pub Operation : Type 0 → Type 0
Operation A = ℕ → Action SimSession A

-- Runs an operation on a session and saves what it leaves.
abbrev run_on : {A : Type 0} → ℕ → Operation A → SimSession → World → Result Error A × World
run_on id op s w = let (r, s') = op w.now s in (r, save id s' w)

-- An operation that begins by `self._session(...)`.
unfoldable pub on_session : {A : Type 0} → ℕ → Operation A → Action World A
on_session id op w = elim (find_session id w) [ err e ↦ (err e, w) | ok s ↦ run_on id op s w ]

abbrev pub checked : {A : Type 0} → Operation A → Operation A
checked op now s =
    let s' = settle now s in elim (check_live s') [ err e ↦ (err e, s') | ok _ ↦ op now s' ]

-- An operation that begins by `self._live_session(...)`.
unfoldable pub on_live_session : {A : Type 0} → ℕ → Operation A → Action World A
unfolding on_session
on_live_session id op = on_session id (checked op)

-- `start`
unfoldable pub start : World → World
start w = record w { started = true }

-- `_profile_for`: the profile at the index, if it bears the name.
unfoldable pub profile_for : String → ℕ → List CameraProfile → Option CameraProfile
profile_for name index [] = none
profile_for name zero (p ∷ ps) = if name is p.name then some p else none
profile_for name (suc index) (p ∷ ps) = profile_for name index ps

-- A new session, connected; the clock has moved on by the time that connecting takes.
abbrev connect :
    CameraProfile → ModeProfile → SessionMode → StillDestination → World → Result Error ℕ × World
connect p m mode destination w =
    let id = w.session_counter + 1 in
    let connect_at = w.now + p.timings.connect in
    let fresh = new_session p w.scenario mode destination (property_codes_for p m) w.now in
    let opened =
      schedule connect_at Effect.set_connected
        (notify (Event.connection w.now ConnectionState.connecting false none none) fresh) in
    let planned : SimSession = elim (w.scenario.reconnect_after_ms) [
      | some delay ↦ schedule_reconnect (connect_at + delay) opened
      | none ↦ opened
    ] in
    (
      ok id,
      save id (settle connect_at planned) (record w { now = connect_at; session_counter = id }),
    )

abbrev pub mode_name : SessionMode → String
mode_name SessionMode.remote = "mode.remote"
mode_name SessionMode.remote_transfer = "mode.remote_transfer"
mode_name SessionMode.contents_transfer = "mode.contents_transfer"

abbrev pub destination_name : StillDestination → String
destination_name StillDestination.memory_card = "destination.memory_card"
destination_name StillDestination.host = "destination.host"
destination_name StillDestination.host_and_memory_card = "destination.host_and_memory_card"

abbrev or_default : {A : Type 0} → Option A → A → A
or_default none a = a
or_default (some b) a = b

abbrev open_mode :
    CameraProfile → SessionMode → Option StillDestination → World → Result Error ℕ × World
open_mode p mode wanted w = elim (lookup mode p.modes) [
  | none ↦ (err (unsupported (mode_name mode)), w)
  | some m ↦
      let destination = or_default wanted p.default_destination in
      if contains destination p.destinations
      then connect p m mode destination w
      else (err (unsupported (destination_name destination)), w)
]

-- `open_session`
unfoldable pub open_session : String → ℕ → SessionMode → Option StillDestination → Action World ℕ
unfolding profile_for
open_session name index mode wanted w = elim (profile_for name index w.profiles) [
  | none ↦ (err (camera_connection false), w)
  | some p ↦ open_mode p mode wanted w
]

abbrev close_one : ℕ → SimSession → World → World
close_one id s w =
    if s.closed
    then w
    else save id
        (notify (Event.connection w.now ConnectionState.closed false none none)
          (record s { closed = true; state = ConnectionState.closed }))
        w

-- `close_session`
unfoldable pub close_session : ℕ → World → World
close_session id w = elim (lookup id w.sessions) [ none ↦ w | some s ↦ close_one id s w ]

-- `shutdown`: every session that was open is closed.
unfoldable pub close_all : Dict ℕ SimSession → World → World
close_all [] w = w
close_all ((id, _) ∷ rest) w = close_all rest (close_session id w)

unfoldable pub shutdown : World → World
unfolding close_all
shutdown w = record (close_all w.sessions w) { started = false }

abbrev settled_state : ℕ → SimSession → World → Result Error ConnectionState × World
settled_state id s w = let s' = settle w.now s in (ok s'.state, save id s' w)

-- `connection_state`
unfoldable pub connection_state : ℕ → Action World ConnectionState
connection_state id w = elim (lookup id w.sessions) [
  | none ↦ (ok ConnectionState.closed, w)
  | some s ↦ settled_state id s w
]

-- `session_capabilities`
unfoldable pub session_capabilities : ℕ → Action World SessionCapabilities
session_capabilities id = on_session id (λ now. gets caps)

-- How long `poll_events` sleeps when nothing is due.
unfoldable pub poll_wait : ℕ → ℕ → SimSession → ℕ
poll_wait now timeout_ms s = elim (next_scheduled_ms s) [
  | none ↦ timeout_ms
  | some next ↦ if ltb (now + timeout_ms) next then timeout_ms else next - now
]

abbrev pub drained : ℕ → SimSession → World → Result Error (List Event) × World
drained id s w = let (s', events) = drain_due w.now s in (ok events, save id s' w)

-- `poll_events` on an open session: what is due, or what falls due within the timeout.
unfoldable pub poll_session : ℕ → ℕ → SimSession → World → Result Error (List Event) × World
poll_session id timeout_ms s w =
    let (s', events) = drain_due w.now s in
    elim events [
      | e ∷ es ↦ (ok (e ∷ es), save id s' w)
      | [] ↦
          if timeout_ms == 0
          then (ok [], save id s' w)
          else drained id s' (sleep_ms (poll_wait w.now timeout_ms s') w)
    ]

-- `poll_events`
unfoldable pub poll_events : ℕ → ℕ → Action World (List Event)
poll_events id timeout_ms w = elim (find_session id w) [
  | err e ↦ (err e, w)
  | ok s ↦ poll_session id timeout_ms s w
]

-- The entries of a dict in the order of their keys.
insert_entry : ℕ × ℕ → List (ℕ × ℕ) → List (ℕ × ℕ)
insert_entry e [] = e ∷ []
insert_entry e (f ∷ fs) = if leb e.0 f.0 then e ∷ f ∷ fs else f ∷ insert_entry e fs

sorted_items : List (ℕ × ℕ) → List (ℕ × ℕ)
unfolding insert_entry
sorted_items [] = []
sorted_items (e ∷ es) = insert_entry e (sorted_items es)

-- `list_properties`
unfoldable pub list_properties : ℕ → Action World (List Property)
unfolding sorted_items
list_properties id =
    on_live_session id
      (λ now s. (ok (map (λ e. build_property e.0 e.1) (sorted_items s.properties)), s))

-- `get_property`
unfoldable pub get_property : ℕ → ℕ → Action World Property
get_property id code = on_live_session id (λ now s. (
  elim (lookup code s.properties) [
    | none ↦ err (property_not_supported code)
    | some value ↦ ok (build_property code value)
  ],
  s,
))

-- The half-press stage follows a write of its property.
abbrev pub after_write : ℕ → ℕ → ℕ → SimSession → SimSession
after_write now code value s =
    if code == code_s1
    then (if value == lock_locked then begin_autofocus now s else cancel_autofocus s)
    else s

-- `set_property` on a session that is live.
unfoldable pub write_property : ℕ → ℕ → Operation (Unit {0})
write_property code value now s = elim (lookup code s.properties) [
  | none ↦ (err (property_not_supported code), s)
  | some old ↦
      if writable (build_property code old).access
      then (
        ok tt,
        after_write now code value
            (notify (Event.property_changed now (code ∷ [])) (put_property code value s)),
      )
      else (err (unsupported "property.write"), s)
]

-- `set_property`
unfoldable pub set_property : ℕ → ℕ → ℕ → Action World (Unit {0})
unfolding write_property
set_property id code value = on_live_session id (write_property code value)

-- `get_half_press`
unfoldable pub get_half_press : ℕ → Action World Bool
get_half_press id = on_live_session id (λ now s. (
  ok (elim (lookup code_s1 s.properties) [ none ↦ false | some value ↦ value == lock_locked ]),
  s,
))

abbrev pub require_half_press : Operation (Unit {0})
require_half_press now s =
    raise_when (not (s.profile.autofocus_s1 && has_key code_s1 s.properties))
      (unsupported "autofocus_s1") s

-- `set_half_press`
unfoldable pub set_half_press : ℕ → Bool → Action World (Unit {0})
set_half_press id engaged = do
  on_live_session id require_half_press
  set_property id code_s1 (if engaged then lock_locked else lock_unlocked)

-- `focus_state`
unfoldable pub focus_state : ℕ → Action World FocusState
focus_state id = on_live_session id (λ now s. (
  ok (elim (lookup code_focus_indication s.properties) [
    | none ↦ FocusState.unknown
    | some value ↦ focus_value_to_state value
  ]),
  s,
))

-- `send_command`
unfoldable pub send_command : ℕ → CommandLike → CommandParameter → Action World (Unit {0})
send_command id command parameter =
    on_live_session id (λ now. modify (dispatch now command parameter))
