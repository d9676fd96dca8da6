-- ===== src/Native/Tests.antt =====
-- Runs of the frame sequencer of src/crsdkpy/backend/native.py, and a camera with a record button.
use cr_sdkpy.Base.{
  ◌+◌, ◌≡◌, refl, Bool, true, false, not, none, [], ◌∷◌, length, if◌then◌else◌, leb, ok, err, arith,
}
use cr_sdkpy.Base.Int.{pos}
use cr_sdkpy.Enums.{Command, CommandParameter, PropertyAccess, PropertyValueType}
use cr_sdkpy.Events.{backend_error}
use cr_sdkpy.Properties.{Property, PropertyValue}
use cr_sdkpy.Native.Device.{
  Device, code_recording_state, start_recording, recording_state, press_record, is_active,
  measure_video, measure_live_view,
}
use cr_sdkpy.Native.Recording.{HasRecordButton, Brings, recording-Brings}
use cr_sdkpy.Native.Once.{Remembers, measured-once}
use cr_sdkpy.Native.Measured.{
  MeasuredCapabilities, nothing_measured, empty_sequencer, skipped_of, accept,
}
use cr_sdkpy.Native.Frames.{delivered, last_number, delivered-accounts_for_all}

-- The camera repeats the frame 5 and loses two frames before 8.
delivered-accounts_for_all_example :
    skipped_of 1 (delivered 1 (5 ∷ 5 ∷ 8 ∷ 9 ∷ []) empty_sequencer).1
      + length (delivered 1 (5 ∷ 5 ∷ 8 ∷ 9 ∷ []) empty_sequencer).0
      + 5
    ≡ skipped_of 1 empty_sequencer + last_number 5 (5 ∷ 8 ∷ 9 ∷ []) + 1
delivered-accounts_for_all_example =
    delivered-accounts_for_all 1 5 (5 ∷ 8 ∷ 9 ∷ []) empty_sequencer refl
      (omega arith, (omega arith, (omega arith, tt)))

frames_seen : (delivered 1 (5 ∷ 5 ∷ 8 ∷ 9 ∷ []) empty_sequencer).0 ≡ 5 ∷ 8 ∷ 9 ∷ []
unfolding accept
frames_seen = refl

-- A camera that records or not, and shows it 182 milliseconds late, with what is remembered.
record Body : Type 0 where
  recording : Bool
  shown : Bool
  memory : MeasuredCapabilities

abbrev report : Bool → Property
report b = record {
  code = code_recording_state;
  value = PropertyValue.num (if b then pos 1 else pos 0);
  value_type = PropertyValueType.int;
  access = PropertyAccess.read_only;
  allowed_values = [];
  value_range = none;
  allowed_count = 0;
  values_undecoded = false;
}

abbrev press : Command → CommandParameter → Body → Body
press Command.movie_record CommandParameter.down s = record s { recording = not s.recording }
press _ _ s = s

abbrev camcorder : Device
camcorder = record {
  State = Body;
  session = 1;
  get_property = λ code s. (ok (report s.shown), s);
  set_property = λ code value s. (ok tt, s);
  send_command = λ command parameter s. (ok tt, press command parameter s);
  sleep_ms = λ duration s. record s { shown = if leb 182 duration then s.recording else s.shown };
  live_view_info = λ s. (err backend_error, s);
  measured = λ s. s.memory;
  remember = λ m s. record s { memory = m };
}

camcorder-HasRecordButton : HasRecordButton camcorder
camcorder-HasRecordButton = record {
  is_recording = λ s. s.recording;
  reports = λ s. s.shown;
  reported = λ s. report s.shown;
  down = λ s. record s { recording = not s.recording };
  up = λ s. s;
  reads = λ s. refl;
  tells = λ s. refl;
  presses = λ s. refl;
  releases = λ s. refl;
  toggles = λ s. refl;
  up_keeps = λ s. refl;
  sleep_keeps = λ duration s. refl;
}

abbrev resting : Body
resting = record { recording = false; shown = false; memory = nothing_measured }

-- Behind a start, before it is shown.
abbrev just_started : Body
just_started = record { recording = true; shown = false; memory = nothing_measured }

starts : start_recording camcorder resting ≡ (ok tt, just_started)
unfolding start_recording recording_state press_record is_active
starts = refl

recording-Brings_example : Brings camcorder camcorder-HasRecordButton true resting just_started
unfolding camcorder-HasRecordButton
recording-Brings_example =
    recording-Brings camcorder camcorder-HasRecordButton true resting just_started refl refl

camcorder-Remembers : Remembers camcorder
camcorder-Remembers m s = refl

measured-once_example :
    (measure_video camcorder (measure_video camcorder resting).1 ≡ measure_video camcorder resting)
    × ((measure_live_view camcorder resting).0 ≡ ok true
        → measure_live_view camcorder (measure_live_view camcorder resting).1
          ≡ measure_live_view camcorder resting)
measured-once_example = measured-once camcorder camcorder-Remembers resting
