-- ===== src/Simulator/Tests.antt =====
-- Concrete runs of the simulator of src/crsdkpy/simulator/backend.py.
use cr_sdkpy.Base.Identity.{nat_identity}
use cr_sdkpy.Base.{
  ℕ, true, false, none, some, List, [], ◌∷◌, ltb, select, length, max, ◌≡◌, refl, ◌⊎◌, inl, inr, ok,
  arith,
}
use cr_sdkpy.Enums.{SessionMode, StillDestination, ConnectionState, RecordingState}
use cr_sdkpy.Contract.{Advances}
use cr_sdkpy.Session.{Live}
use cr_sdkpy.Session.Newer.{ListsNewer}
use cr_sdkpy.Session.Authorise.{Confirmed}
use cr_sdkpy.Session.Release.{autofocus_and_capture}
use cr_sdkpy.Jpeg.{jpeg_dimensions, looks_complete}
use cr_sdkpy.Simulator.Scenario.{nominal}
use cr_sdkpy.Simulator.Profiles.{
  fx3a, code_s1, code_focus_mode, code_focus_indication, lock_unlocked, value_unlocked,
  build_property,
}
use cr_sdkpy.Simulator.Timeline.{
  SimSession, Effect, schedule, drain_due, settle, run_due, push_entry,
}
use cr_sdkpy.Simulator.Timeline.Order.{IsTimeline, schedule-IsTimeline, drain_due-pops}
use cr_sdkpy.Simulator.Backend.{
  World, get_half_press, set_half_press, set_property, on_live_session, find_session, check_live,
}
use cr_sdkpy.Simulator.Shooting.{begin_autofocus}
use cr_sdkpy.Simulator.Media.{Rng}
use cr_sdkpy.Simulator.Image.{synth_image, synth_image_reads_back}
use cr_sdkpy.Simulator.Instance.{simulated}
use cr_sdkpy.Simulator.Laws.{simulated-Advances, simulated-ListsNewer}
use cr_sdkpy.Simulator.Backend.{close_session, write_property}
use cr_sdkpy.Simulator.Closed.{IsShut, close_session-IsShut}
use cr_sdkpy.Simulator.Written.{write_property-reads_back}
use cr_sdkpy.Base.Dict.{lookup}
use cr_sdkpy.Simulator.Profiles.{lock_locked}
use cr_sdkpy.Simulator.Safety.{NoShot, autofocus_and_capture-unauthorised}

-- A generator that draws zeros.
abbrev pub zeros : Rng
zeros = record { byte = λ seed i. 0; spread = λ seed jitter. jitter }

-- A connected camera with nothing scheduled.
abbrev pub idle_camera : SimSession
idle_camera = record {
  profile = fx3a;
  scenario = nominal;
  mode = SessionMode.remote;
  destination = StillDestination.memory_card;
  state = ConnectionState.connected;
  opened_ms = 0;
  closed = false;
  properties =
      (code_s1, lock_unlocked)
      ∷ (code_focus_indication, value_unlocked)
      ∷ (code_focus_mode, 2)
      ∷ [];
  recording = RecordingState.idle;
  postview_configured = false;
  postview_pending = none;
  transfer_path = none;
  contents = [];
  next_content_id = 131000;
  capture_sequence = 0;
  last_delivered_content = none;
  live_view_frame_no = 0;
  next_frame_ms = 0;
  live_view_blocked_until = 0;
  heap = [];
  counter = 0;
  ready = [];
}

abbrev pub one_camera : World
one_camera = record {
  profiles = fx3a ∷ [];
  scenario = nominal;
  now = 100;
  started = true;
  sessions = (1, idle_camera) ∷ [];
  session_counter = 1;
}

abbrev pub live_session : Live (simulated zeros 1)
live_session = record {
  backend = one_camera;
  mode = SessionMode.remote;
  closed = false;
  state = ConnectionState.connected;
  user_events = [];
  op_events = [];
}

-- The half-press stage that is engaged reads back as engaged.
engaged_reads_back : (get_half_press 1 (set_half_press 1 true one_camera).1).0 ≡ ok true
unfolding get_half_press set_half_press on_live_session find_session check_live settle drain_due
    run_due set_property build_property begin_autofocus schedule push_entry
engaged_reads_back = refl

-- Two entries of equal time stand in the order in which they were scheduled.
abbrev two_scheduled : SimSession
two_scheduled = record idle_camera {
  heap =
      record { at = 50; counter = 0; effect = Effect.expose }
      ∷ record { at = 50; counter = 1; effect = Effect.set_connected }
      ∷ record { at = 90; counter = 2; effect = Effect.emit_unknown }
      ∷ [];
  counter = 3;
}

two_scheduled-IsTimeline : IsTimeline two_scheduled
two_scheduled-IsTimeline = record {
  ordered =
      ((inr (refl, omega arith), (inl (omega arith), tt)), ((inl (omega arith), tt), (tt, tt)));
  counted = (omega arith, (omega arith, (omega arith, tt)));
}

schedule_example : IsTimeline (schedule 50 Effect.recover two_scheduled)
schedule_example = schedule-IsTimeline 50 Effect.recover two_scheduled two_scheduled-IsTimeline

drain_due_example :
    ((drain_due 60 two_scheduled).0.heap ≡ select (λ e. ltb 60 e.at) two_scheduled.heap)
    × ((drain_due 60 two_scheduled).0.ready ≡ [])
    × IsTimeline (drain_due 60 two_scheduled).0
drain_due_example = drain_due-pops 60 two_scheduled two_scheduled-IsTimeline

simulated-Advances_example : Advances (simulated zeros 1)
simulated-Advances_example = simulated-Advances zeros 1

simulated-ListsNewer_example : ListsNewer (simulated zeros 1)
simulated-ListsNewer_example = simulated-ListsNewer zeros 1

pub at_rest : NoShot 1 0 one_camera
unfolding NoShot
at_rest = record { counts = refl; none_scheduled = tt }

unauthorised_example :
    NoShot 1 0
      (autofocus_and_capture (simulated zeros 1) 5000 2000 200 3000 true live_session).1.backend
    ⊎ Confirmed
        (simulated zeros 1)
        (NoShot 1 0)
        5000
        2000
        200
        3000
        live_session
        (autofocus_and_capture (simulated zeros 1) 5000 2000 200 3000 true live_session)
unauthorised_example =
    autofocus_and_capture-unauthorised zeros 1 0 5000 2000 200 3000 true live_session at_rest

synth_image_example :
    (image : List ℕ) × (synth_image (λ i. i) 100 640 480 ≡ some image)
    × (length image ≡ max 32 100)
    × (looks_complete image ≡ true)
    × (jpeg_dimensions image ≡ some (some (640, 480)))
synth_image_example =
    synth_image_reads_back (λ i. i) 100 640 480 (omega arith) (omega arith) (omega arith)
      (omega arith)

close_session_example : IsShut 1 (close_session 1 one_camera)
close_session_example = close_session-IsShut 1 one_camera

abbrev engaged_camera : SimSession
engaged_camera = (write_property code_s1 lock_locked 100 idle_camera).1

engaged_written : write_property code_s1 lock_locked 100 idle_camera ≡ (ok tt, engaged_camera)
unfolding write_property build_property
engaged_written = refl

write_property_example : lookup code_s1 (settle 9000 engaged_camera).properties ≡ some lock_locked
write_property_example =
    write_property-reads_back code_s1 lock_locked 100 9000 idle_camera engaged_camera
      engaged_written
