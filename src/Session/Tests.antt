-- ===== src/Session/Tests.antt =====
-- Concrete runs of the public session of src/crsdkpy/session.py, over the simulator.
use cr_sdkpy.Base.{◌+◌, ◌<◌, Bool, true, false, none, some, [], refl, ◌⊎◌, arith}
use cr_sdkpy.Enums.{CaptureState, preview_identity}
use cr_sdkpy.Contract.{Backend, Returns}
use cr_sdkpy.Events.{Event}
use cr_sdkpy.Session.{wait_for_event, close}
use cr_sdkpy.Session.Focus.{focus_gate, release_half_press}
use cr_sdkpy.Session.Shots.{Shot}
use cr_sdkpy.Session.Release.{autofocus_and_capture}
use cr_sdkpy.Session.Resolve.{wait_for_content}
use cr_sdkpy.Session.Outcomes.{Outcome}
use cr_sdkpy.Session.Authorise.{Confirmed, autofocus_and_capture-authorised}
use cr_sdkpy.Session.Ends.{
  EndsOpen, Anything, ahead, gate_start, focus_gate-ends, release_half_press-ends,
}
use cr_sdkpy.Session.Arrives.{Open, wait_for_content-ends}
use cr_sdkpy.Session.Waits.{wait_for_event-ends}
use cr_sdkpy.Session.Queues.{Receives, wait_for_event-Receives}
use cr_sdkpy.Session.Identity.{Newest, wait_for_content-newer}
use cr_sdkpy.Session.Closed.{IsInert, close-IsInert}
use cr_sdkpy.Simulator.Instance.{simulated}
use cr_sdkpy.Simulator.Laws.{waiting_laws, simulated-ListsNewer}
use cr_sdkpy.Simulator.Safety.{NoShot, simulated-IsQuiet}
use cr_sdkpy.Simulator.Backend.{
  set_half_press, set_property, focus_state, on_live_session, find_session, check_live,
}
use cr_sdkpy.Simulator.Timeline.{settle, drain_due, run_due, schedule, push_entry}
use cr_sdkpy.Simulator.Profiles.{build_property}
use cr_sdkpy.Simulator.Shooting.{begin_autofocus}
use cr_sdkpy.Simulator.Tests.{zeros, live_session, at_rest}

abbrev camera : Backend
camera = simulated zeros 1

authorised_example :
    NoShot 1 0 (autofocus_and_capture camera 5000 2000 200 3000 false live_session).1.backend
    ⊎ Confirmed camera
        (NoShot 1 0)
        5000
        2000
        200
        3000
        live_session
        (autofocus_and_capture camera 5000 2000 200 3000 false live_session)
authorised_example =
    autofocus_and_capture-authorised camera (NoShot 1 0) (simulated-IsQuiet zeros 1 0) 5000 2000 200
      3000 false live_session at_rest

enough_fuel :
    ahead camera
      (waiting_laws zeros 1)
      (100 + 2000)
      (gate_start camera (waiting_laws zeros 1) live_session)
    < 5000
unfolding waiting_laws set_half_press set_property focus_state on_live_session find_session
    check_live settle drain_due run_due build_property begin_autofocus schedule push_entry
enough_fuel = omega arith

focus_gate_example :
    Returns (EndsOpen camera (waiting_laws zeros 1)) (focus_gate camera 5000 2000 live_session)
focus_gate_example =
    focus_gate-ends camera (waiting_laws zeros 1) 5000 2000 live_session refl enough_fuel

release_half_press_example :
    Returns (Anything camera (waiting_laws zeros 1)) (release_half_press camera 1501 live_session)
release_half_press_example =
    release_half_press-ends camera (waiting_laws zeros 1) 1501 live_session (omega arith)

nothing_pending : 5000 + (waiting_laws zeros 1).pending live_session.backend < 5001
unfolding waiting_laws
nothing_pending = omega arith

wait_for_event_ends_example :
    Returns
      (Anything camera (waiting_laws zeros 1))
      (wait_for_event camera 5001 (λ e. false) 5000 live_session)
wait_for_event_ends_example =
    wait_for_event-ends camera (waiting_laws zeros 1) 5001 (λ e. false) 5000 live_session
      nothing_pending

-- Whether an event tells of an exposure.
abbrev is_capture : Event → Bool
is_capture (Event.capture at sequence) = true
is_capture _ = false

wait_for_event_example :
    Outcome
      (Receives camera is_capture live_session)
      (wait_for_event camera 50 is_capture 1000 live_session)
wait_for_event_example = wait_for_event-Receives camera 50 is_capture 1000 live_session

-- A capture whose camera held the content 5 when it was requested.
abbrev fresh_shot : Shot camera.State
fresh_shot = record {
  session = live_session;
  capture = record {
    state = CaptureState.exposed;
    requested_ms = 100;
    focused_ms = none;
    exposed_ms = some 300;
    content_ms = none;
    focus = none;
    content = none;
    failure = none;
    previews = [];
    baseline_content = some 5;
  };
}

wait_for_content_example : Outcome (Newest (some 5)) (wait_for_content camera 50 1000 fresh_shot)
wait_for_content_example =
    wait_for_content-newer camera (simulated-ListsNewer zeros 1) 50 1000 fresh_shot tt

close_example : IsInert camera (close camera live_session).1
close_example = close-IsInert camera live_session

wait_for_content_ends_example :
    Returns (Open camera (waiting_laws zeros 1)) (wait_for_content camera 5001 5000 fresh_shot)
wait_for_content_ends_example =
    wait_for_content-ends camera (waiting_laws zeros 1) 5001 5000 fresh_shot refl nothing_pending
