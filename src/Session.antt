-- ===== src/Session.antt =====
-- src/crsdkpy/session.py: the state of an open session, its life cycle and its event queues, over
-- any backend. The parts that wait take fuel; `exhausted` is the answer of a loop that has run
-- out. Durations are what `max(0, int(...))` leaves of the caller's argument.
pub mod Focus
pub mod Shots
pub mod Release
pub mod Resolve
pub mod Keeps
pub mod Gate
pub mod Confirm
pub mod Ends
pub mod Outcomes
pub mod Queues
pub mod Waits
pub mod Newer
pub mod Kept
pub mod Identity
pub mod Closed
pub mod Onward
pub mod Arrives
pub mod Tests
pub mod Authorise
use cr_sdkpy.Base.{
  ℕ, zero, suc, ◌+◌, ◌-◌, min, max, Bool, true, false, Option, none, some, List, [], ◌∷◌, ◌++◌, ltb,
  leb, ◌==◌, if◌then◌else◌, Result, ok, err, ◌is◌,
}
use cr_sdkpy.Enums.{SessionMode, StillDestination, ConnectionState, connection_identity, is_usable}
use cr_sdkpy.Capabilities.{SessionCapabilities}
use cr_sdkpy.Contract.{Backend}
use cr_sdkpy.Events.{
  Event, Error, Action, pure, raise, gets, modify, raise_when, bind, ◌>>=◌, ◌>>◌, session_closed,
  camera_connection, invalid_session_state, exhausted,
}

-- `Session`, over the states of a backend. The facades it owns keep no state of their own.
pub record Session (S : Type 0) : Type 0 where
  pub backend : S
  pub mode : SessionMode
  pub closed : Bool
  pub state : ConnectionState
  pub user_events : List Event
  pub op_events : List Event

-- A call of the backend.
abbrev pub call : {S A : Type 0} → Action S A → Action (Session S) A
call m c = let (r, s) = m c.backend in (r, record c { backend = s })

-- The state that the last connection event of a batch reports.
unfoldable pub last_state : ConnectionState → List Event → ConnectionState
last_state state [] = state
last_state state (Event.connection _ next _ _ _ ∷ events) = last_state next events
last_state state (_ ∷ events) = last_state state events

-- Puts a batch on both queues.
abbrev pub enqueue : {S : Type 0} → List Event → Session S → Session S
enqueue events c = record c {
  state = last_state c.state events;
  user_events = c.user_events ++ events;
  op_events = c.op_events ++ events;
}

-- `_take_op_events`
abbrev pub take_op_events : {S : Type 0} → Action (Session S) (List Event)
take_op_events c = (ok c.op_events, record c { op_events = [] })

-- The first event that passes the test, and the others.
unfoldable pub take_first : (Event → Bool) → List Event → Option (Event × List Event)
take_first p [] = none
take_first p (e ∷ es) =
    if p e
    then some (e, es)
    else (elim (take_first p es) [ none ↦ none | some (found, rest) ↦ some (found, e ∷ rest) ])

module _ (B : Backend) where
  open B use {State, now_ms, sleep_ms, connection_state, session_capabilities, poll_events}

  abbrev pub Live : Type 0
  Live = Session State

  -- `clock.now_ms()`
  abbrev pub now : Live → ℕ
  now c = now_ms c.backend

  -- `clock.sleep_ms(duration)`
  abbrev pub sleep : ℕ → Action Live (Unit {0})
  sleep duration = modify (λ c. record c { backend = sleep_ms duration c.backend })

  -- `_pump`
  unfoldable pub pump : ℕ → Action Live (List Event)
  pump timeout_ms c =
      if c.closed
      then (ok [], c)
      else bind (λ events c'. (ok events, enqueue events c')) (call (poll_events timeout_ms) c)

  -- `capabilities`
  unfoldable pub capabilities : Action Live SessionCapabilities
  capabilities c = if c.closed then (err session_closed, c) else call session_capabilities c

  -- The verdict of `_check_usable` on a connection state.
  abbrev pub usable_or_raise : ConnectionState → Action Live (Unit {0})
  usable_or_raise ConnectionState.connected = pure tt
  usable_or_raise ConnectionState.reconnecting = raise (camera_connection false)
  usable_or_raise state = raise (invalid_session_state state)

  -- `_check_usable`
  unfoldable pub check_usable : Action Live (Unit {0})
  check_usable = do
    raise_when (← gets (λ c. c.closed)) session_closed
    state ← call connection_state
    modify (λ c. record c { state = state })
    usable_or_raise state

  abbrev fresh : SessionMode → State → Live
  fresh mode s = record {
    backend = s;
    mode = mode;
    closed = false;
    state = ConnectionState.connecting;
    user_events = [];
    op_events = [];
  }

  set_state : ConnectionState → Action Live (Unit {0})
  set_state state = modify (λ c. record c { state = state })

  -- `__init__`: what is due already is drained, and the state is read.
  unfoldable pub init : SessionMode → State → Result Error (Unit {0}) × Live
  unfolding pump set_state
  init mode s = (pump 0 >>= λ _. call connection_state >>= set_state) (fresh mode s)

  -- `state`
  unfoldable pub current_state : Action Live ConnectionState
  unfolding pump
  current_state c =
      if c.closed then (ok ConnectionState.closed, c) else (pump 0 >>= λ _. gets (λ c'. c'.state)) c

  -- `close`, and what `Camera._forget_session` is told.
  unfoldable pub close : Action Live (Unit {0})
  close c =
      if c.closed
      then (ok tt, c)
      else call B.close_session (record c { closed = true; state = ConnectionState.closed })

  -- `configure_postview`
  unfoldable pub configure_postview : Bool → Action Live (Unit {0})
  unfolding check_usable
  configure_postview enabled = do check_usable; call (B.configure_postview enabled)

  -- `set_destination`
  unfoldable pub set_destination : StillDestination → Action Live (Unit {0})
  unfolding check_usable
  set_destination destination = do check_usable; call (B.set_destination destination)

  abbrev hand_out : Action Live (List Event)
  hand_out c = (ok c.user_events, record c { user_events = [] })

  -- `drain_events`
  unfoldable pub drain_events : ℕ → Action Live (List Event)
  unfolding pump
  drain_events timeout_ms = pump timeout_ms >>= λ _. hand_out

  -- One step of the iterator `events`: the next event, or `none` at its end.
  unfoldable pub next_event : ℕ → Action Live (Option Event)
  unfolding pump
  next_event timeout_ms c = elim (c.user_events) [
    | e ∷ es ↦ (ok (some e), record c { user_events = es })
    | [] ↦
        if c.closed
        then (ok none, c)
        else (pump timeout_ms >>= λ _ c'. elim (c'.user_events) [
          | e ∷ es ↦ (ok (some e), record c' { user_events = es })
          | [] ↦ (ok none, c')
        ])
            c
  ]

  -- The loop of `wait_for_event`; the type of the event is the test.
  unfoldable pub wait_loop : ℕ → (Event → Bool) → ℕ → Action Live (Option Event)
  unfolding pump
  wait_loop zero test deadline c = (err exhausted, c)
  wait_loop (suc fuel) test deadline c = elim (take_first test c.user_events) [
    | some (e, rest) ↦ (ok (some e), record c { user_events = rest })
    | none ↦
        let again = (pump (min (deadline - now c) 250) >>= λ _. wait_loop fuel test deadline) c in
        if leb deadline (now c) then (ok none, c) else if c.closed then (ok none, c) else again
  ]

  -- `wait_for_event`
  unfoldable pub wait_for_event : ℕ → (Event → Bool) → ℕ → Action Live (Option Event)
  unfolding wait_loop
  wait_for_event fuel test timeout_ms c = wait_loop fuel test (now c + timeout_ms) c

  -- The loop of `wait_for_state`.
  unfoldable pub state_loop : ℕ → ConnectionState → ℕ → Action Live Bool
  unfolding pump set_state
  state_loop zero state deadline c = (err exhausted, c)
  state_loop (suc fuel) state deadline c =
      if c.closed
      then (ok (state is ConnectionState.closed), c)
      else (call connection_state >>= λ found c'.
            let again =
              (pump (min (deadline - now c') 250) >>= λ _. state_loop fuel state deadline) c' in
            if found is state
            then (set_state state >>= λ _. pure true) c'
            else if leb deadline (now c')
            then (ok false, c')
            else again)
          c

  -- `wait_for_state`
  unfoldable pub wait_for_state : ℕ → ConnectionState → ℕ → Action Live Bool
  unfolding state_loop
  wait_for_state fuel state timeout_ms c = state_loop fuel state (now c + timeout_ms) c
