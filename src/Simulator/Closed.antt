-- ===== src/Simulator/Closed.antt =====
-- `close_session` of src/crsdkpy/simulator/backend.py, and the operations on a closed session.
use cr_sdkpy.Base.{
  ℕ, Bool, true, Option, none, some, err, ◌≡◌, refl, inl, inr, nat_identity, Bool-cases,
  Option-cases,
}
use cr_sdkpy.Base.Dict.{lookup, lookup-insert_self}
use cr_sdkpy.Enums.{CommandParameter}
use cr_sdkpy.Events.{session_closed}
use cr_sdkpy.Simulator.Timeline.{SimSession}
use cr_sdkpy.Simulator.Shooting.{CommandLike}
use cr_sdkpy.Simulator.Backend.{
  World, Operation, checked, find_session, on_live_session, close_session, poll_events,
  set_half_press, get_property, set_property, focus_state, send_command,
}
use cr_sdkpy.Simulator.Instance.{on_session_missing, poll_session_missing}

-- A session id that answers to nothing: every operation raises and leaves the world as it is.
pub record IsShut (id : ℕ) (w : World) : Type 0 where
  pub closes_again : close_session id w ≡ w
  pub does_not_poll : (timeout_ms : ℕ) → poll_events id timeout_ms w ≡ (err session_closed, w)
  pub does_not_read : (code : ℕ) → get_property id code w ≡ (err session_closed, w)
  pub does_not_write : (code value : ℕ) → set_property id code value w ≡ (err session_closed, w)
  pub does_not_engage : (engaged : Bool) → set_half_press id engaged w ≡ (err session_closed, w)
  pub does_not_see : focus_state id w ≡ (err session_closed, w)
  pub does_not_shoot :
      (command : CommandLike) (parameter : CommandParameter)
      → send_command id command parameter w ≡ (err session_closed, w)

-- The session is unknown or closed.
abbrev pub Ended : Option SimSession → Type 0
Ended none = Unit
Ended (some s) = s.closed ≡ true

close_session-Ended : (id : ℕ) (w : World) → Ended (lookup id (close_session id w).sessions)
unfolding close_session
close_session-Ended id w = elim (Option-cases (lookup id w.sessions)) [
  | inl missing ↦ rw (missing, close_session) (rw missing tt)
  | inr (s, there) ↦ elim (Bool-cases s.closed) [
    | inl closed ↦ rw (there, close_session) (rw closed (rw there closed))
    | inr live ↦ rw (there, close_session) (rw live (rw (lookup-insert_self id _ w.sessions) refl))
  ]
]

Ended-find_session :
    (id : ℕ) (w : World) → Ended (lookup id w.sessions) → find_session id w ≡ err session_closed
unfolding find_session
Ended-find_session id w h = elim (Option-cases (lookup id w.sessions)) [
  | inl missing ↦ rw (missing, find_session) refl
  | inr (s, there) ↦ rw (there, find_session) (rw (rw there at h) refl)
]

Ended-close_session : (id : ℕ) (w : World) → Ended (lookup id w.sessions) → close_session id w ≡ w
unfolding close_session
Ended-close_session id w h = elim (Option-cases (lookup id w.sessions)) [
  | inl missing ↦ rw (missing, close_session) refl
  | inr (s, there) ↦ rw (there, close_session) (rw (rw there at h) refl)
]

on_live_session_missing :
    {A : Type 0} (id : ℕ) (op : Operation A) (w : World)
    → find_session id w ≡ err session_closed
    → on_live_session id op w ≡ (err session_closed, w)
unfolding on_live_session
on_live_session_missing id op w gone = on_session_missing id (checked op) w session_closed gone

Ended-IsShut : (id : ℕ) (w : World) → Ended (lookup id w.sessions) → IsShut id w
unfolding get_property set_property set_half_press focus_state send_command
Ended-IsShut id w h =
    let gone : find_session id w ≡ err session_closed = Ended-find_session id w h in
    record {
      closes_again = Ended-close_session id w h;
      does_not_poll = λ timeout_ms. poll_session_missing id timeout_ms w session_closed gone;
      does_not_read = λ code. on_live_session_missing id _ w gone;
      does_not_write = λ code value. on_live_session_missing id _ w gone;
      does_not_engage = λ engaged. rw (on_live_session_missing id _ w gone) refl;
      does_not_see = on_live_session_missing id _ w gone;
      does_not_shoot = λ command parameter. on_live_session_missing id _ w gone;
    }

-- Behind `close_session` of any id, known or not, the id answers to nothing: closing it again
-- changes nothing, and polling, reading or writing a property, engaging the half-press stage,
-- reading the focus state and sending a command raise that the session is closed and leave the
-- backend as it is.
pub close_session-IsShut : (id : ℕ) (w : World) → IsShut id (close_session id w)
close_session-IsShut id w = Ended-IsShut id (close_session id w) (close_session-Ended id w)
