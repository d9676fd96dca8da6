-- ===== src/Simulator/Scenario.antt =====
-- src/crsdkpy/simulator/scenarios.py: what happens during a simulated run.
use Prim.Native.String.{String}
use cr_sdkpy.Base.{
  ℕ, Bool, true, false, Option, none, some, [], ◌∷◌, Result, ok, err, string_identity,
}
use cr_sdkpy.Base.Dict.{Dict, lookup}
use cr_sdkpy.Events.{Error, key_error}

pub data AfOutcome : Type 0 where
  focus no_lock tracking_then_focus silent : AfOutcome

pub data FocusChannel : Type 0 where
  property status : FocusChannel

pub record Scenario : Type 0 where
  pub af_outcome : AfOutcome
  pub af_leading_channel : FocusChannel
  pub af_channel_skew_ms : Option ℕ
  pub af_sticky : Bool
  pub release_clears_s1 : Bool
  pub capture_without_exposure : Bool
  pub content_extra_delay_ms : ℕ
  pub content_id_step : ℕ
  pub stale_preview : Bool
  pub live_view_info_ok_but_empty : Bool
  pub live_view_fetch_fails : Bool
  pub reconnect_after_ms : Option ℕ
  pub reconnect_without_disconnect : Bool
  pub duplicate_connected_event : Bool
  pub busy : Bool
  pub property_stragglers : Bool
  pub emit_unknown_events : Bool

-- `Scenario()`
abbrev pub nominal : Scenario
nominal = record {
  af_outcome = AfOutcome.focus;
  af_leading_channel = FocusChannel.status;
  af_channel_skew_ms = none;
  af_sticky = false;
  release_clears_s1 = true;
  capture_without_exposure = false;
  content_extra_delay_ms = 0;
  content_id_step = 1;
  stale_preview = false;
  live_view_info_ok_but_empty = false;
  live_view_fetch_fails = false;
  reconnect_after_ms = none;
  reconnect_without_disconnect = true;
  duplicate_connected_event = true;
  busy = false;
  property_stragglers = true;
  emit_unknown_events = false;
}

-- `SCENARIOS`
abbrev pub scenarios : Dict String Scenario
scenarios =
    ("nominal", nominal)
    ∷ ("af_property_leads", record nominal { af_leading_channel = FocusChannel.property })
    ∷ ("af_status_leads", record nominal { af_leading_channel = FocusChannel.status })
    ∷ (
      "af_channel_disagreement",
      record nominal { af_leading_channel = FocusChannel.status; af_channel_skew_ms = some 100 },
    )
    ∷ ("af_tracking_first", record nominal { af_outcome = AfOutcome.tracking_then_focus })
    ∷ ("af_sticky", record nominal { af_sticky = true })
    ∷ ("af_no_lock", record nominal { af_outcome = AfOutcome.no_lock })
    ∷ ("af_silent", record nominal { af_outcome = AfOutcome.silent })
    ∷ ("s1_not_cleared_by_release", record nominal { release_clears_s1 = false })
    ∷ ("capture_without_exposure", record nominal { capture_without_exposure = true })
    ∷ ("delayed_content", record nominal { content_extra_delay_ms = 3000 })
    ∷ ("non_contiguous_content", record nominal { content_id_step = 2 })
    ∷ ("stale_preview", record nominal { stale_preview = true })
    ∷ ("live_view_empty_info", record nominal { live_view_info_ok_but_empty = true })
    ∷ ("live_view_fetch_fails", record nominal { live_view_fetch_fails = true })
    ∷ ("reconnect", record nominal { reconnect_after_ms = some 1000 })
    ∷ ("busy", record nominal { busy = true })
    ∷ ("unknown_events", record nominal { emit_unknown_events = true })
    ∷ []

pub get_scenario : String → Result Error Scenario
get_scenario name = elim (lookup name scenarios) [ some s ↦ ok s | none ↦ err key_error ]
