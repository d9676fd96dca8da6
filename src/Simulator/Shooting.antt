-- ===== src/Simulator/Shooting.antt =====
-- Autofocus, the shutter and movie recording of src/crsdkpy/simulator/backend.py, on one session
-- at a time `now` of the clock.
use cr_sdkpy.Base.{
  ℕ, ◌+◌, Bool, true, false, not, ◌&&◌, none, some, ◌==◌, if◌then◌else◌, nat_identity,
}
use cr_sdkpy.Base.Dict.{lookup}
use cr_sdkpy.Enums.{
  SessionMode, StillDestination, RecordingState, Command, CommandParameter, includes_host,
  mode_identity,
}
use cr_sdkpy.Capabilities.{SessionCapabilities}
use cr_sdkpy.Events.{Event}
use cr_sdkpy.Simulator.Scenario.{AfOutcome, FocusChannel}
use cr_sdkpy.Simulator.Profiles.{
  CameraProfile, ModeProfile, default_mode, lock_unlocked, value_unlocked, value_focused_af_s,
  value_not_focused_af_s, value_focused_af_c, value_not_focused_af_c, value_tracking_af_c, code_s1,
  code_focus_mode, code_focus_indication,
}
use cr_sdkpy.Simulator.Timeline.{SimSession, Effect, schedule, notify, put_property}

-- `_capabilities_for`, given the profile of the mode.
unfoldable pub capabilities_for :
    CameraProfile → ModeProfile → SessionMode → StillDestination → SessionCapabilities
capabilities_for p m mode destination = record {
  mode = mode;
  destination = destination;
  still_capture = p.still_capture && m.still_capture;
  autofocus_s1 = p.autofocus_s1;
  video = p.video && m.video;
  live_view = m.live_view;
  content_index = m.content_index;
  thumbnail = m.thumbnail;
  screennail = m.screennail;
  postview_configuration = m.postview_configuration;
  postview_delivery =
      m.postview_delivery_possible
      && (if m.postview_delivery_requires_host then includes_host destination else true);
  raw_commands = true;
  extra = m.extra_capabilities;
}

-- `profile.modes[mode]`: `open_session` has checked that it is there.
unfoldable pub mode_profile : SimSession → ModeProfile
mode_profile s = elim (lookup s.mode s.profile.modes) [ some m ↦ m | none ↦ default_mode ]

-- `_caps`
unfoldable pub caps : SimSession → SessionCapabilities
unfolding capabilities_for mode_profile
caps s = capabilities_for s.profile (mode_profile s) s.mode s.destination

-- `session.properties.get(code) == value`
abbrev pub property_is : ℕ → ℕ → SimSession → Bool
property_is code value s = elim (lookup code s.properties) [ some v ↦ v == value | none ↦ false ]

-- `_focus_mode_is_af_c`
abbrev pub focus_mode_is_af_c : SimSession → Bool
focus_mode_is_af_c s = property_is code_focus_mode 0x0003 s

-- `scenario.af_leading_channel is FocusChannel.PROPERTY`
abbrev leads : FocusChannel → Bool
leads FocusChannel.property = true
leads FocusChannel.status = false

-- `_schedule_focus`: one focus value on both channels, the one that leads first.
unfoldable pub schedule_focus : ℕ → ℕ → ℕ → SimSession → SimSession
schedule_focus at value skew s =
    let lead_is_property = leads s.scenario.af_leading_channel in
    schedule (if lead_is_property then at + skew else at) (Effect.focus_status value)
      (schedule (if lead_is_property then at else at + skew) (Effect.focus_property value) s)

abbrev pub focus_skew : SimSession → ℕ
focus_skew s = elim (s.scenario.af_channel_skew_ms) [
  | some skew ↦ skew
  | none ↦ s.profile.timings.focus_channel_skew
]

-- The verdicts of `_begin_autofocus` behind its early returns.
unfoldable pub schedule_verdict : AfOutcome → ℕ → Bool → ℕ → SimSession → SimSession
unfolding schedule_focus
schedule_verdict AfOutcome.silent now af_c skew s = s
schedule_verdict AfOutcome.no_lock now af_c skew s =
    schedule_focus (now + s.profile.timings.focus_fail)
      (if af_c then value_not_focused_af_c else value_not_focused_af_s) skew s
schedule_verdict AfOutcome.tracking_then_focus now af_c skew s =
    schedule_focus (now + s.profile.timings.focus_confirm) value_focused_af_c skew
      (schedule_focus (now + s.profile.timings.focus_tracking) value_tracking_af_c skew s)
schedule_verdict AfOutcome.focus now af_c skew s =
    if af_c
    then schedule_focus (now + s.profile.timings.focus_confirm) value_focused_af_c skew
        (schedule_focus (now + s.profile.timings.focus_tracking) value_tracking_af_c skew s)
    else schedule_focus (now + s.profile.timings.focus_confirm) value_focused_af_s skew s

-- `_begin_autofocus`
unfoldable pub begin_autofocus : ℕ → SimSession → SimSession
unfolding schedule_verdict
begin_autofocus now s =
    let af_c = focus_mode_is_af_c s in
    if not s.profile.autofocus_s1
    then s
    else if s.scenario.af_sticky
    then put_property code_focus_indication
        (if af_c then value_focused_af_c else value_focused_af_s) s
    else schedule_verdict s.scenario.af_outcome now af_c (focus_skew s) s

-- `_cancel_autofocus`
unfoldable pub cancel_autofocus : SimSession → SimSession
cancel_autofocus s = put_property code_focus_indication value_unlocked s

-- What follows an exposure in `_schedule_exposure`: the postview, and the unknown event.
abbrev schedule_postview : ℕ → ℕ → SimSession → SimSession
schedule_postview at content_id s =
    if (caps s).postview_delivery then schedule at (Effect.announce_postview content_id) s else s

abbrev schedule_unknown : ℕ → SimSession → SimSession
schedule_unknown at s =
    if s.scenario.emit_unknown_events then schedule at Effect.emit_unknown s else s

-- `_schedule_exposure`
unfoldable pub schedule_exposure : ℕ → SimSession → SimSession
unfolding caps
schedule_exposure from_ms s =
    let t = s.profile.timings in
    let exposure_at = from_ms + t.exposure in
    let content_id = s.next_content_id + s.scenario.content_id_step in
    let content_at = exposure_at + t.content + s.scenario.content_extra_delay_ms in
    if s.scenario.capture_without_exposure
    then s
    else schedule_unknown (exposure_at + 5) (
        schedule_postview (from_ms + t.postview) content_id (
          schedule content_at (Effect.add_content content_id) (
            schedule exposure_at Effect.expose
              (record s { live_view_blocked_until = exposure_at + t.live_view_gap }))))

-- What a release button that comes up does.
unfoldable pub clear_half_press : SimSession → SimSession
clear_half_press s =
    if s.scenario.release_clears_s1
    then put_property code_focus_indication value_unlocked (put_property code_s1 lock_unlocked s)
    else s

-- `_handle_release`
unfoldable pub handle_release : ℕ → CommandParameter → SimSession → SimSession
handle_release now CommandParameter.down s = schedule_exposure now s
handle_release now CommandParameter.up s = clear_half_press s

-- `_handle_s1_and_release`
unfoldable pub handle_s1_and_release : ℕ → CommandParameter → SimSession → SimSession
handle_s1_and_release now CommandParameter.down s =
    schedule_exposure (now + s.profile.timings.focus_confirm) (begin_autofocus now s)
handle_s1_and_release now CommandParameter.up s = clear_half_press s

abbrev start_recording_at : ℕ → SimSession → SimSession
start_recording_at now s =
    schedule (now + s.profile.timings.recording_start) Effect.recording_active (
      notify (Event.recording now RecordingState.starting)
        (record s { recording = RecordingState.starting }))

-- `_begin_recording`
unfoldable pub begin_recording : ℕ → SimSession → SimSession
begin_recording now s = elim (s.recording) [
  | RecordingState.recording ↦ s
  | RecordingState.starting ↦ s
  | _ ↦ start_recording_at now s
]

-- The part of `stop_recording` behind its checks.
unfoldable pub end_recording : ℕ → SimSession → SimSession
end_recording now s = elim (s.recording) [
  | RecordingState.idle ↦ s
  | _ ↦ schedule (now + s.profile.timings.recording_stop) Effect.recording_idle (
      notify (Event.recording now RecordingState.stopping)
        (record s { recording = RecordingState.stopping }))
]

-- A command of the public enumeration, or a raw vendor number.
pub data CommandLike : Type 0 where
  named : Command → CommandLike
  raw : ℕ → CommandLike

-- The dispatch of `send_command`.
unfoldable pub dispatch : ℕ → CommandLike → CommandParameter → SimSession → SimSession
dispatch now (named Command.release) parameter s = handle_release now parameter s
dispatch now (named Command.s1_and_release) parameter s = handle_s1_and_release now parameter s
dispatch now (named Command.movie_record) CommandParameter.down s = begin_recording now s
dispatch now (named Command.movie_record) CommandParameter.up s = s
dispatch now (named Command.cancel_shooting) parameter s = s
dispatch now (raw code) parameter s = s

-- `_schedule_reconnect`
unfoldable pub schedule_reconnect : ℕ → SimSession → SimSession
schedule_reconnect at s =
    schedule (at + s.profile.timings.reconnect) Effect.recover
      (schedule at Effect.begin_reconnect s)
