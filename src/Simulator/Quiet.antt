-- ===== src/Simulator/Quiet.antt =====
-- No operation of the simulator (src/crsdkpy/simulator/backend.py) but a command exposes: the
-- autofocus, the polls and the reads of a session neither run an exposure nor schedule one.
use cr_sdkpy.Base.{
  ℕ, Bool, true, false, not, List, [], ◌∷◌, leb, if◌then◌else◌, All, nat_identity, ◌≡◌, refl, ◌∙◌,
  inl, inr, Bool-cases, arith,
}
use cr_sdkpy.Simulator.Scenario.{AfOutcome}
use cr_sdkpy.Simulator.Timeline.{
  SimSession, Entry, Effect, schedule, run_effect, run_due, drain_due, settle,
}
use cr_sdkpy.Simulator.Timeline.Order.{push_entry-All}
use cr_sdkpy.Simulator.Shooting.{
  schedule_focus, schedule_verdict, begin_autofocus, cancel_autofocus,
}

-- The effect that exposes.
abbrev pub exposes : Effect → Bool
exposes Effect.expose = true
exposes _ = false

-- A session that has made `shots` exposures, and has none scheduled.
pub record AtRest (shots : ℕ) (s : SimSession) : Type 0 where
  pub counts : s.capture_sequence ≡ shots
  pub none_scheduled : All (λ e. exposes e.effect ≡ false) s.heap

run_effect-capture_sequence :
    (now : ℕ) (effect : Effect) (s : SimSession)
    → exposes effect ≡ false
    → (run_effect now effect s).0.capture_sequence ≡ s.capture_sequence
unfolding run_effect
run_effect-capture_sequence now Effect.expose s h = absurd (not_true h)
  where
    not_true : true ≡ false → ⊥
    not_true h = grind arith
run_effect-capture_sequence now Effect.set_connected s h = refl
run_effect-capture_sequence now Effect.begin_reconnect s h = refl
run_effect-capture_sequence now Effect.recover s h = refl
run_effect-capture_sequence now Effect.emit_unknown s h = refl
run_effect-capture_sequence now Effect.recording_active s h = refl
run_effect-capture_sequence now Effect.recording_idle s h = refl
run_effect-capture_sequence now (Effect.focus_property value) s h = refl
run_effect-capture_sequence now (Effect.focus_status value) s h = refl
run_effect-capture_sequence now (Effect.add_content id) s h = refl
run_effect-capture_sequence now (Effect.announce_postview id) s h = refl
run_effect-capture_sequence now (Effect.straggle code) s h = refl

run_due-AtRest :
    (shots now : ℕ) (es : List Entry) (s : SimSession)
    → s.capture_sequence ≡ shots
    → All (λ e. exposes e.effect ≡ false) es
    → AtRest shots (run_due now es s).0
unfolding run_due
run_due-AtRest shots now [] s h a = record { counts = h; none_scheduled = tt }
run_due-AtRest shots now (e ∷ es) s h a = elim (Bool-cases (leb e.at now)) [
  | inr early ↦ rw early (record { counts = h; none_scheduled = a })
  | inl due ↦ rw due (
      run_due-AtRest shots now es (run_effect now e.effect s).0
        (run_effect-capture_sequence now e.effect s a.0 ∙ h) a.1)
]

pub drain_due-AtRest :
    (shots now : ℕ) (s : SimSession) → AtRest shots s → AtRest shots (drain_due now s).0
unfolding drain_due
drain_due-AtRest shots now s h =
    run_due-AtRest shots now s.heap (record s { ready = [] }) h.counts h.none_scheduled

pub settle-AtRest : (shots now : ℕ) (s : SimSession) → AtRest shots s → AtRest shots (settle now s)
unfolding settle
settle-AtRest shots now s h = record {
  counts = (drain_due-AtRest shots now s h).counts;
  none_scheduled = (drain_due-AtRest shots now s h).none_scheduled;
}

schedule-AtRest :
    (shots at : ℕ) (effect : Effect) (s : SimSession)
    → exposes effect ≡ false
    → AtRest shots s
    → AtRest shots (schedule at effect s)
unfolding schedule
schedule-AtRest shots at effect s he h = record {
  counts = h.counts;
  none_scheduled = push_entry-All (λ e. exposes e.effect ≡ false) _ s.heap he h.none_scheduled;
}

schedule_focus-AtRest :
    (shots at value skew : ℕ) (s : SimSession)
    → AtRest shots s
    → AtRest shots (schedule_focus at value skew s)
unfolding schedule_focus
schedule_focus-AtRest shots at value skew s h =
    schedule-AtRest shots _ (Effect.focus_status value) _ refl
      (schedule-AtRest shots _ (Effect.focus_property value) s refl h)

either_AtRest :
    (shots : ℕ) (b : Bool) (s s' : SimSession)
    → AtRest shots s
    → AtRest shots s'
    → AtRest shots (if b then s else s')
either_AtRest shots true s s' h h' = h
either_AtRest shots false s s' h h' = h'

schedule_verdict-AtRest :
    (shots : ℕ) (outcome : AfOutcome) (now : ℕ) (af_c : Bool) (skew : ℕ) (s : SimSession)
    → AtRest shots s
    → AtRest shots (schedule_verdict outcome now af_c skew s)
unfolding schedule_verdict
schedule_verdict-AtRest shots AfOutcome.silent now af_c skew s h = h
schedule_verdict-AtRest shots AfOutcome.no_lock now af_c skew s h =
    schedule_focus-AtRest shots _ _ skew s h
schedule_verdict-AtRest shots AfOutcome.tracking_then_focus now af_c skew s h =
    schedule_focus-AtRest shots _ _ skew _ (schedule_focus-AtRest shots _ _ skew s h)
schedule_verdict-AtRest shots AfOutcome.focus now af_c skew s h =
    either_AtRest shots af_c _ _
      (schedule_focus-AtRest shots _ _ skew _ (schedule_focus-AtRest shots _ _ skew s h))
      (schedule_focus-AtRest shots _ _ skew s h)

pub begin_autofocus-AtRest :
    (shots now : ℕ) (s : SimSession) → AtRest shots s → AtRest shots (begin_autofocus now s)
unfolding begin_autofocus
begin_autofocus-AtRest shots now s h = either_AtRest shots (not s.profile.autofocus_s1) _ _ h (
    either_AtRest shots s.scenario.af_sticky _ _
      (record { counts = h.counts; none_scheduled = h.none_scheduled })
      (schedule_verdict-AtRest shots _ now _ _ s h))

pub cancel_autofocus-AtRest :
    (shots : ℕ) (s : SimSession) → AtRest shots s → AtRest shots (cancel_autofocus s)
unfolding cancel_autofocus
cancel_autofocus-AtRest shots s h = record { counts = h.counts; none_scheduled = h.none_scheduled }
