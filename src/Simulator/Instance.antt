-- ===== src/Simulator/Instance.antt =====
-- `SimulatedBackend` (src/crsdkpy/simulator/backend.py) as the backend of one public session, and
-- the laws of waiting that the public session relies on.
use cr_sdkpy.Base.{
  ℕ, ◌+◌, ◌-◌, ◌<◌, ◌≤◌, Bool, true, false, Option, none, some, List, [], ◌∷◌, ltb, ◌==◌, length,
  if◌then◌else◌, nat_identity, Result, ok, err, ◌≡◌, refl, ◌⊎◌, inl, inr, Bool-cases, Option-cases,
  arith,
}
use cr_sdkpy.Base.Dict.{lookup, lookup-insert_self}
use cr_sdkpy.Enums.{ConnectionState}
use cr_sdkpy.Contract.{Backend, Returns}
use cr_sdkpy.Events.{Event, Error, is_exhausted, session_closed, camera_connection, camera_busy}
use cr_sdkpy.Simulator.Timeline.{SimSession, drain_due, settle, next_scheduled_ms}
use cr_sdkpy.Simulator.Timeline.Budget.{
  load, drain_due-load, settle-load, IsLater, drain_due-IsLater,
}
use cr_sdkpy.Simulator.Shooting.{named}
use cr_sdkpy.Simulator.Backend.{
  World, Operation, checked, save, find_session, check_live, on_session, on_live_session,
  close_session, connection_state, session_capabilities, poll_wait, drained, poll_session,
  poll_events, get_half_press, set_half_press, focus_state, send_command, sleep_ms,
}
use cr_sdkpy.Simulator.Media.{Rng}
use cr_sdkpy.Simulator.Media

-- The operations of the simulator on one session.
abbrev pub simulated : Rng → ℕ → Backend
simulated rng id = record {
  State = World;
  now_ms = λ w. w.now;
  sleep_ms = sleep_ms;
  connection_state = connection_state id;
  session_capabilities = session_capabilities id;
  close_session = λ w. (ok tt, close_session id w);
  poll_events = poll_events id;
  get_destination = Media.get_destination id;
  set_destination = Media.set_destination id;
  get_half_press = get_half_press id;
  set_half_press = set_half_press id;
  focus_state = focus_state id;
  send_command = λ command. send_command id (named command);
  latest_content = Media.latest_content id;
  list_content = Media.list_content id;
  get_preview = Media.get_preview rng id;
  pull_postview = Media.pull_postview rng id;
  configure_postview = Media.configure_postview id;
  get_live_view_frame = Media.get_live_view_frame rng id;
  live_view_info = Media.live_view_info id;
  start_recording = Media.start_recording id;
  stop_recording = Media.stop_recording id;
  recording_state = Media.recording_state id;
}

-- What a session of the world can still deliver.
abbrev pub load_of : Option SimSession → ℕ
load_of none = 0
load_of (some s) = load s

abbrev pub pending : ℕ → World → ℕ
pending id w = load_of (lookup id w.sessions)

abbrev pub Ends : {A : Type 0} → Result Error A → Type 0
Ends (ok a) = Unit
Ends (err e) = is_exhausted e ≡ false

-- An operation that adds nothing to the timeline.
abbrev pub IsCalm : {A : Type 0} → Operation A → Type 0
IsCalm op = (now : ℕ) (s : SimSession) → Ends (op now s).0 × (load (op now s).1 ≤ load s)

-- Time does not run backwards, and what is pending does not grow.
abbrev pub Steady : {A : Type 0} → ℕ → World → A → World → Type 0
Steady id w a w' = (w.now ≤ w'.now) × (pending id w' ≤ pending id w)

pub find_cases :
    (id : ℕ) (w : World)
    → (find_session id w ≡ err session_closed)
      ⊎ ((s : SimSession) × (lookup id w.sessions ≡ some s) × (find_session id w ≡ ok s))
unfolding find_session
find_cases id w = elim (Option-cases (lookup id w.sessions)) [
  | inl none_there ↦ inl (rw (none_there, find_session) refl)
  | inr (s, there) ↦ elim (Bool-cases s.closed) [
    | inl closed ↦ inl (rw (there, find_session) (rw closed refl))
    | inr live ↦ inr (s, there, rw (there, find_session) (rw live refl))
  ]
]

pub check_live-Ends : (s : SimSession) → Ends (check_live s)
unfolding check_live
check_live-Ends s = by_state s.state
  where
    by_busy : (b : Bool) → Ends (if b then err camera_busy else ok tt)
    by_busy true = refl
    by_busy false = tt

    by_state :
        (state : ConnectionState)
        → Ends (elim state as (λ _. Result Error (Unit {0})) [
          | ConnectionState.reconnecting ↦ err (camera_connection false)
          | _ ↦ if s.scenario.busy then err camera_busy else ok tt
        ])
    by_state ConnectionState.reconnecting = refl
    by_state ConnectionState.connecting = by_busy s.scenario.busy
    by_state ConnectionState.connected = by_busy s.scenario.busy
    by_state ConnectionState.closing = by_busy s.scenario.busy
    by_state ConnectionState.closed = by_busy s.scenario.busy

pub checked-IsCalm : {A : Type 0} (op : Operation A) → IsCalm op → IsCalm (checked op)
checked-IsCalm {A} op calm now s = go (check_live (settle now s)) (check_live-Ends (settle now s))
  where
    go :
        (r : Result Error (Unit {0}))
        → Ends r
        → Ends
            (elim r as (λ _. Result Error A × SimSession) [
              | err e ↦ (err e, settle now s)
              | ok _ ↦ op now (settle now s)
            ]).0
          × (load
                (elim r as (λ _. Result Error A × SimSession) [
                  | err e ↦ (err e, settle now s)
                  | ok _ ↦ op now (settle now s)
                ]).1
              ≤ load s)
    go (ok a) h =
        ((calm now (settle now s)).0, omega (arith, (calm now (settle now s)).1, settle-load now s))
    go (err e) h = (h, settle-load now s)

pub saved :
    {A : Type 0} (id : ℕ) (w : World) (s : SimSession) (x : Result Error A × SimSession)
    → lookup id w.sessions ≡ some s
    → Ends x.0
    → load x.1 ≤ load s
    → Returns (Steady id w) (x.0, save id x.1 w)
unfolding Returns
saved id w s (ok a, s') there h l = (omega arith, rw (lookup-insert_self id s' w.sessions, there) l)
saved id w s (err e, s') there h l = h

pub on_session_found :
    {A : Type 0} (id : ℕ) (op : Operation A) (w : World) (s : SimSession)
    → find_session id w ≡ ok s
    → on_session id op w ≡ ((op w.now s).0, save id (op w.now s).1 w)
unfolding on_session
on_session_found id op w s h = rw (h, on_session) refl

pub on_session_missing :
    {A : Type 0} (id : ℕ) (op : Operation A) (w : World) (e : Error)
    → find_session id w ≡ err e
    → on_session id op w ≡ (err e, w)
unfolding on_session
on_session_missing id op w e h = rw (h, on_session) refl

pub on_session-Steady :
    {A : Type 0} (id : ℕ) (op : Operation A) (w : World)
    → IsCalm op
    → Returns (Steady id w) (on_session id op w)
unfolding Returns
on_session-Steady id op w calm = elim (find_cases id w) [
  | inl closed ↦ rw (on_session_missing id op w session_closed closed) refl
  | inr (s, there, found) ↦
      rw (on_session_found id op w s found)
        (saved id w s (op w.now s) there (calm w.now s).0 (calm w.now s).1)
]

pub on_live_session-Steady :
    {A : Type 0} (id : ℕ) (op : Operation A) (w : World)
    → IsCalm op
    → Returns (Steady id w) (on_live_session id op w)
unfolding on_live_session
on_live_session-Steady id op w calm = on_session-Steady id (checked op) w (checked-IsCalm op calm)

-- A poll that waits moves the clock or delivers something.
abbrev pub Moves : ℕ → World → List Event → World → Type 0
Moves id w events w' =
    (w.now + pending id w' < w'.now + pending id w) × (pending id w' ≤ pending id w)

poll_wait-positive :
    (now timeout_ms : ℕ) (s : SimSession)
    → 0 < timeout_ms
    → IsLater now (next_scheduled_ms s)
    → 0 < poll_wait now timeout_ms s
unfolding poll_wait
poll_wait-positive now timeout_ms s ht later = by_next (next_scheduled_ms s) later
  where
    by_next :
        (next : Option ℕ)
        → IsLater now next
        → 0 < (elim next as (λ _. ℕ) [
          | none ↦ timeout_ms
          | some next ↦ if ltb (now + timeout_ms) next then timeout_ms else next - now
        ])
    by_next none h = ht
    by_next (some next) h = ground arith

drained-Moves :
    (id wait : ℕ) (w : World) (s s' : SimSession)
    → lookup id w.sessions ≡ some s
    → 0 < wait
    → load s' ≤ load s
    → Returns (Moves id w) (drained id s' (sleep_ms wait w))
unfolding Returns sleep_ms
drained-Moves id wait w s s' there hw hl =
    rw (lookup-insert_self id (drain_due (w.now + wait) s').0 w.sessions, there)
      (omega (arith, drain_due-load (w.now + wait) s'))

-- What `poll_session` does with the first batch.
poll_rest :
    (id timeout_ms : ℕ) (w : World) (s s' : SimSession) (events : List Event)
    → lookup id w.sessions ≡ some s
    → 0 < timeout_ms
    → length events + load s' ≤ load s
    → IsLater w.now (next_scheduled_ms s')
    → Returns (Moves id w) (elim events as (λ _. Result Error (List Event) × World) [
      | e ∷ es ↦ (ok (e ∷ es), save id s' w)
      | [] ↦
          if timeout_ms == 0
          then (ok [], save id s' w)
          else drained id s' (sleep_ms (poll_wait w.now timeout_ms s') w)
    ])
unfolding Returns sleep_ms
poll_rest id timeout_ms w s s' (e ∷ es) there ht hl later =
    rw (lookup-insert_self id s' w.sessions, there) (omega arith)
poll_rest id timeout_ms w s s' [] there ht hl later = elim (Bool-cases (timeout_ms == 0)) [
  | inl zero_wait ↦ absurd (not_zero zero_wait ht)
  | inr waits ↦ rw waits (
      drained-Moves id (poll_wait w.now timeout_ms s') w s s' there
        (poll_wait-positive w.now timeout_ms s' ht later) (omega arith))
]
  where
    not_zero : {n : ℕ} → n == 0 ≡ true → 0 < n → ⊥
    not_zero h h' = ground arith

pub poll_session_found :
    (id timeout_ms : ℕ) (w : World) (s : SimSession)
    → find_session id w ≡ ok s
    → poll_events id timeout_ms w ≡ poll_session id timeout_ms s w
unfolding poll_events
poll_session_found id timeout_ms w s h = rw (h, poll_events) refl

pub poll_session_missing :
    (id timeout_ms : ℕ) (w : World) (e : Error)
    → find_session id w ≡ err e
    → poll_events id timeout_ms w ≡ (err e, w)
unfolding poll_events
poll_session_missing id timeout_ms w e h = rw (h, poll_events) refl

poll_session-Moves :
    (id timeout_ms : ℕ) (w : World) (s : SimSession)
    → lookup id w.sessions ≡ some s
    → 0 < timeout_ms
    → Returns (Moves id w) (poll_session id timeout_ms s w)
unfolding poll_session
poll_session-Moves id timeout_ms w s there ht =
    poll_rest id timeout_ms w s (drain_due w.now s).0 (drain_due w.now s).1 there ht
      (drain_due-load w.now s) (drain_due-IsLater w.now s)

pub poll_events-Moves :
    (id timeout_ms : ℕ) (w : World)
    → 0 < timeout_ms
    → Returns (Moves id w) (poll_events id timeout_ms w)
unfolding Returns
poll_events-Moves id timeout_ms w ht = elim (find_cases id w) [
  | inl closed ↦ rw (poll_session_missing id timeout_ms w session_closed closed) refl
  | inr (s, there, found) ↦
      rw (poll_session_found id timeout_ms w s found)
        (poll_session-Moves id timeout_ms w s there ht)
]
