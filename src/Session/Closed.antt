-- ===== src/Session/Closed.antt =====
-- `close` of src/crsdkpy/session.py, and the operations on a session that is closed.
use cr_sdkpy.Base.{
  ℕ, suc, ◌+◌, Bool, true, Option, none, some, [], ◌∷◌, leb, ap, if◌then◌else◌, false, Result, ok,
  err, ◌≡◌, refl, Bool-cases, inl, inr,
}
use cr_sdkpy.Enums.{ConnectionState, StillDestination}
use cr_sdkpy.Contract.{Backend}
use cr_sdkpy.Events.{Event, Error, session_closed}
use cr_sdkpy.Session.{
  Live, now, pump, capabilities, check_usable, close, current_state, configure_postview,
  set_destination, drain_events, next_event, take_first, wait_loop, wait_for_event,
}
use cr_sdkpy.Session.Focus.{autofocus}
use cr_sdkpy.Session.Release.{take_shot, autofocus_and_capture}

if_closed :
    {A : Type 0} (late closed : Bool) (x y : A)
    → closed ≡ true
    → (if late then x else if closed then x else y) ≡ x
if_closed true closed x y h = refl
if_closed false closed x y h = rw h refl

module _ (B : Backend) where
  -- A session on which nothing reaches the backend any more: the operations that need the camera
  -- raise, the others answer from what the session holds, and none of them changes more of it than
  -- the queue of events that they hand out.
  pub record IsInert (c : Live B) : Type 0 where
    pub closed : c.closed ≡ true
    pub closes_again : close B c ≡ (ok tt, c)
    pub is_unusable : check_usable B c ≡ (err session_closed, c)
    pub has_no_capabilities : capabilities B c ≡ (err session_closed, c)
    pub receives_nothing : (timeout_ms : ℕ) → pump B timeout_ms c ≡ (ok [], c)
    pub drains_buffered :
        (timeout_ms : ℕ)
        → drain_events B timeout_ms c ≡ (ok c.user_events, record c { user_events = [] })
    pub iterates_buffered :
        (timeout_ms : ℕ)
        → next_event B timeout_ms c ≡ (elim (c.user_events) [
          | [] ↦ (ok none, c)
          | e ∷ es ↦ (ok (some e), record c { user_events = es })
        ])
    pub waits_for_buffered :
        (fuel : ℕ) (test : Event → Bool) (timeout_ms : ℕ)
        → wait_for_event B (suc fuel) test timeout_ms c ≡ (elim (take_first test c.user_events) [
          | none ↦ (ok none, c)
          | some (e, rest) ↦ (ok (some e), record c { user_events = rest })
        ])
    pub says_closed : current_state B c ≡ (ok ConnectionState.closed, c)
    pub keeps_destination :
        (destination : StillDestination) → set_destination B destination c ≡ (err session_closed, c)
    pub keeps_postview : (enabled : Bool) → configure_postview B enabled c ≡ (err session_closed, c)
    pub does_not_focus :
        (fuel timeout_ms : ℕ) → autofocus B fuel timeout_ms c ≡ (err session_closed, c)
    pub does_not_capture :
        (fuel dwell_ms : ℕ) (waits : Bool) (timeout_ms : ℕ)
        → take_shot B fuel dwell_ms waits timeout_ms c ≡ (err session_closed, c)
    pub does_not_focus_and_capture :
        (fuel focus_ms dwell_ms timeout_ms : ℕ) (raises : Bool)
        → autofocus_and_capture B fuel focus_ms dwell_ms timeout_ms raises c
          ≡ (err session_closed, c)

  next_buffered :
      (timeout_ms : ℕ) (c : Live B)
      → c.closed ≡ true
      → next_event B timeout_ms c ≡ (elim (c.user_events) [
        | [] ↦ (ok none, c)
        | e ∷ es ↦ (ok (some e), record c { user_events = es })
      ])
  unfolding next_event
  next_buffered timeout_ms c h =
      ap
        (λ x. elim (c.user_events) as (λ _. Result Error (Option Event) × Live B) [
          | [] ↦ x
          | e ∷ es ↦ (ok (some e), record c { user_events = es })
        ])
        (if_closed false c.closed _ _ h)

  found_buffered :
      (fuel : ℕ) (test : Event → Bool) (timeout_ms : ℕ) (c : Live B)
      → c.closed ≡ true
      → wait_for_event B (suc fuel) test timeout_ms c ≡ (elim (take_first test c.user_events) [
        | none ↦ (ok none, c)
        | some (e, rest) ↦ (ok (some e), record c { user_events = rest })
      ])
  unfolding wait_for_event wait_loop
  found_buffered fuel test timeout_ms c h =
      ap
        (λ x. elim (take_first test c.user_events) as (λ _. Result Error (Option Event) × Live B) [
          | none ↦ x
          | some (e, rest) ↦ (ok (some e), record c { user_events = rest })
        ])
        (if_closed (leb (now B c + timeout_ms) (now B c)) c.closed _ _ h)

  closed-IsInert : (c : Live B) → c.closed ≡ true → IsInert c
  unfolding drain_events close check_usable capabilities pump current_state set_destination
      configure_postview autofocus take_shot autofocus_and_capture
  closed-IsInert c h = record {
    closed = h;
    closes_again = rw h refl;
    is_unusable = rw h refl;
    has_no_capabilities = rw h refl;
    receives_nothing = λ timeout_ms. rw h refl;
    drains_buffered = λ timeout_ms. rw h refl;
    iterates_buffered = λ timeout_ms. next_buffered timeout_ms c h;
    waits_for_buffered = λ fuel test timeout_ms. found_buffered fuel test timeout_ms c h;
    says_closed = rw h refl;
    keeps_destination = λ destination. rw h refl;
    keeps_postview = λ enabled. rw h refl;
    does_not_focus = λ fuel timeout_ms. rw h refl;
    does_not_capture = λ fuel dwell_ms waits timeout_ms. rw h refl;
    does_not_focus_and_capture = λ fuel focus_ms dwell_ms timeout_ms raises. rw h refl;
  }

  close_closes : (c : Live B) → (close B c).1.closed ≡ true
  unfolding close
  close_closes c = elim (Bool-cases c.closed) [ inl h ↦ rw h refl | inr h ↦ rw h refl ]

  -- Whatever state a session is in, and whether or not its backend fails to close it: behind
  -- `close` the session is closed for good, and none of these reaches the backend. Closing it
  -- again, reading the state and polling for events change nothing; draining, iterating over and
  -- waiting for events hand out what was buffered, in its order, and change that queue alone, and
  -- one unit of fuel is enough for the wait; focusing, capturing, writing the destination or the
  -- postview and reading the capabilities raise that the session is closed and change nothing.
  pub close-IsInert : (c : Live B) → IsInert (close B c).1
  close-IsInert c = closed-IsInert (close B c).1 (close_closes c)
