-- ===== src/Native/Keeps.antt =====
-- src/crsdkpy/backend/native.py: the mixins do to a backend what its own operations do. A predicate
-- that the operations of a device keep is kept by everything that the mixins make of them.
use cr_sdkpy.Base.{
  ℕ, Bool, true, false, not, Option, none, some, if◌then◌else◌, ◌is◌, nat_identity, Result, ok, err,
}
use cr_sdkpy.Base.Dict.{Dict, lookup}
use cr_sdkpy.Base.Int.{ℤ}
use Prim.Native.String.{String}
use cr_sdkpy.Enums.{SessionMode, StillDestination, Command, CommandParameter, destination_identity}
use cr_sdkpy.Events.{Error, property_not_supported}
use cr_sdkpy.Session.Keeps.{Keeps, bind_keeps, either_keeps}
use cr_sdkpy.Native.Measured.{MeasuredCapabilities, knows_live_view, note_video}
use cr_sdkpy.Native.Device.{
  Device, on_missing, attempt, is_active, read_value, get_half_press, set_half_press, focus_state,
  optional_value, get_destination, set_destination, apply_destination, battery, slot_of, read_slot,
  storage, recording_state, press_record, start_recording, stop_recording, measure_video,
  measure_live_view, probe_video, probe_live_view, build_capabilities, code_battery_remain,
  code_battery_level, code_destination, code_recording_state, code_focus_indication, code_s1,
}

-- The operations of a device keep the predicate.
pub record DeviceKeeps (D : Device) (Q : D.State → Type 0) : Type 0 where
  pub gets : (code : ℕ) → Keeps Q (D.get_property code)
  pub sets : (code : ℕ) (value : ℤ) → Keeps Q (D.set_property code value)
  pub sends :
      (command : Command) (parameter : CommandParameter)
      → Keeps Q (D.send_command command parameter)
  pub sleeps : (duration : ℕ) (s : D.State) → Q s → Q (D.sleep_ms duration s)
  pub looks : Keeps Q D.live_view_info
  pub remembers : (m : MeasuredCapabilities) (s : D.State) → Q s → Q (D.remember m s)

module _ {S : Type 0} (Q : S → Type 0) where
  on_missing_keeps :
      {A : Type 0} (other : Result Error A) (x : Result Error A × S)
      → Q x.1
      → Q (on_missing other x).1
  on_missing_keeps other (ok a, s) q = q
  on_missing_keeps other (err (property_not_supported code), s) q = q
  on_missing_keeps other (err e, s) q = q

  attempt_keeps : (x : Result Error Bool × S) → Q x.1 → Q (attempt x).1
  attempt_keeps (ok b, s) q = q
  attempt_keeps (err e, s) q = q

module _ (D : Device) (Q : D.State → Type 0) (laws : DeviceKeeps D Q) where
  read_value-Keeps : (code : ℕ) → Keeps Q (read_value D code)
  unfolding read_value
  read_value-Keeps code s q =
      bind_keeps Q _ (D.get_property code s) (λ p s1 q1. q1) (laws.gets code s q)

  pub get_half_press-Keeps : Keeps Q (get_half_press D)
  unfolding get_half_press
  get_half_press-Keeps s q =
      bind_keeps Q _ (read_value D code_s1 s) (λ v s1 q1. q1) (read_value-Keeps code_s1 s q)

  pub set_half_press-Keeps : (engaged : Bool) → Keeps Q (set_half_press D engaged)
  unfolding set_half_press
  set_half_press-Keeps engaged s q = laws.sets code_s1 _ s q

  pub focus_state-Keeps : Keeps Q (focus_state D)
  unfolding focus_state
  focus_state-Keeps s q = on_missing_keeps Q _ _ (
      bind_keeps Q _ (read_value D code_focus_indication s) (λ v s1 q1. q1)
        (read_value-Keeps code_focus_indication s q))

  optional_value-Keeps : (code : ℕ) → Keeps Q (optional_value D code)
  unfolding optional_value
  optional_value-Keeps code s q =
      on_missing_keeps Q _ _
        (bind_keeps Q _ (read_value D code s) (λ v s1 q1. q1) (read_value-Keeps code s q))

  pub get_destination-Keeps : Keeps Q (get_destination D)
  unfolding get_destination
  get_destination-Keeps s q =
      bind_keeps Q _ (optional_value D code_destination s) (λ v s1 q1. q1)
        (optional_value-Keeps code_destination s q)

  pub set_destination-Keeps :
      (destination : StillDestination) → Keeps Q (set_destination D destination)
  unfolding set_destination
  set_destination-Keeps destination s q = laws.sets code_destination _ s q

  pub apply_destination-Keeps :
      (destination : StillDestination) → Keeps Q (apply_destination D destination)
  unfolding apply_destination
  apply_destination-Keeps destination s q =
      bind_keeps Q _ (get_destination D s)
        (λ current s1 q1. by_current (current is destination) s1 q1) (get_destination-Keeps s q)
    where
      by_current :
          (b : Bool) (s1 : D.State)
          → Q s1
          → Q ((if b then (λ s2. (ok tt, s2)) else set_destination D destination) s1).1
      by_current true s1 q1 = q1
      by_current false s1 q1 = set_destination-Keeps destination s1 q1

  pub battery-Keeps : Keeps Q (battery D)
  unfolding battery
  battery-Keeps s q =
      bind_keeps Q _ (optional_value D code_battery_remain s)
        (λ percent s1 q1.
          bind_keeps Q _ (optional_value D code_battery_level s1) (λ level s2 q2. q2)
            (optional_value-Keeps code_battery_level s1 q1))
        (optional_value-Keeps code_battery_remain s q)

  slot_of-Keeps :
      (number shots_code seconds_code : ℕ) (found : Option ℤ)
      → Keeps Q (slot_of D number shots_code seconds_code found)
  unfolding slot_of
  slot_of-Keeps number shots_code seconds_code none s q = q
  slot_of-Keeps number shots_code seconds_code (some raw_status) s q =
      bind_keeps Q _ (optional_value D shots_code s)
        (λ shots s1 q1.
          bind_keeps Q _ (optional_value D seconds_code s1) (λ seconds s2 q2. q2)
            (optional_value-Keeps seconds_code s1 q1))
        (optional_value-Keeps shots_code s q)

  read_slot-Keeps :
      (number status_code shots_code seconds_code : ℕ)
      → Keeps Q (read_slot D number status_code shots_code seconds_code)
  unfolding read_slot
  read_slot-Keeps number status_code shots_code seconds_code s q =
      bind_keeps Q _ (optional_value D status_code s)
        (λ found s1 q1. slot_of-Keeps number shots_code seconds_code found s1 q1)
        (optional_value-Keeps status_code s q)

  pub storage-Keeps : Keeps Q (storage D)
  unfolding storage
  storage-Keeps s q =
      bind_keeps Q _ (read_slot D 1 0x0708 0x0709 0x070A s)
        (λ first s1 q1.
          bind_keeps Q _ (read_slot D 2 0x070D 0x070F 0x0710 s1) (λ second s2 q2. q2)
            (read_slot-Keeps 2 0x070D 0x070F 0x0710 s1 q1))
        (read_slot-Keeps 1 0x0708 0x0709 0x070A s q)

  pub recording_state-Keeps : Keeps Q (recording_state D)
  unfolding recording_state
  recording_state-Keeps s q = on_missing_keeps Q _ _ (
      bind_keeps Q _ (read_value D code_recording_state s) (λ v s1 q1. q1)
        (read_value-Keeps code_recording_state s q))

  press_record-Keeps : Keeps Q (press_record D)
  unfolding press_record
  press_record-Keeps s q =
      bind_keeps Q _ (D.send_command Command.movie_record CommandParameter.down s)
        (λ _ s1 q1.
          laws.sends Command.movie_record CommandParameter.up (D.sleep_ms 35 s1)
            (laws.sleeps 35 s1 q1))
        (laws.sends Command.movie_record CommandParameter.down s q)

  unless_Keeps :
      (b : Bool) (s : D.State) → Q s → Q ((if b then (λ s1. (ok tt, s1)) else press_record D) s).1
  unless_Keeps true s q = q
  unless_Keeps false s q = press_record-Keeps s q

  pub start_recording-Keeps : Keeps Q (start_recording D)
  unfolding start_recording
  start_recording-Keeps s q =
      bind_keeps Q _ (recording_state D s) (λ state s1 q1. unless_Keeps (is_active state) s1 q1)
        (recording_state-Keeps s q)

  pub stop_recording-Keeps : Keeps Q (stop_recording D)
  unfolding stop_recording
  stop_recording-Keeps s q =
      bind_keeps Q _ (recording_state D s)
        (λ state s1 q1. unless_Keeps (not (is_active state)) s1 q1) (recording_state-Keeps s q)

  measure_video-Keeps : Keeps Q (measure_video D)
  unfolding measure_video
  measure_video-Keeps s q = by_table (lookup D.session (D.measured s).videos)
    where
      probed : Bool × D.State
      probed = attempt (probe_video D s)

      by_table :
          (found : Option Bool)
          → Q
              (elim found as (λ _. Result Error Bool × D.State) [
                | some b ↦ (ok b, s)
                | none ↦ (
                  ok probed.0,
                  D.remember (note_video D.session probed.0 (D.measured probed.1)) probed.1,
                )
              ]).1
      by_table (some b) = q
      by_table none = laws.remembers _ probed.1 (
          attempt_keeps Q (probe_video D s) (
            bind_keeps Q _ (optional_value D code_recording_state s) (λ v s1 q1. q1)
              (optional_value-Keeps code_recording_state s q)))

  measure_live_view-Keeps : Keeps Q (measure_live_view D)
  unfolding measure_live_view
  measure_live_view-Keeps s q = either_keeps Q (knows_live_view D.session (D.measured s)) _ _ q (
      laws.remembers _ (attempt (probe_live_view D s)).1 (
        attempt_keeps Q (probe_live_view D s)
          (bind_keeps Q _ (D.live_view_info s) (λ info s1 q1. q1) (laws.looks s q))))

  pub build_capabilities-Keeps :
      (mode : SessionMode) (extra : Dict String Bool) → Keeps Q (build_capabilities D mode extra)
  unfolding build_capabilities
  build_capabilities-Keeps mode extra s q =
      bind_keeps Q _ (get_destination D s)
        (λ destination s1 q1.
          bind_keeps Q _ (measure_video D s1)
            (λ video s2 q2.
              bind_keeps Q _ (measure_live_view D s2) (λ live s3 q3. q3)
                (measure_live_view-Keeps s2 q2))
            (measure_video-Keeps s1 q1))
        (get_destination-Keeps s q)
