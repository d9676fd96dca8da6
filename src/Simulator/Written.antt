-- ===== src/Simulator/Written.antt =====
-- A property that `set_property` of src/crsdkpy/simulator/backend.py has written reads back, also
-- when scheduled effects have run since.
use mathlib.Core.Path.{subst}
use cr_sdkpy.Base.{
  ℕ, Bool, true, false, not, some, List, [], ◌∷◌, leb, ◌==◌, if◌then◌else◌, nat_identity, Result,
  ok, err, ◌≡◌, ◌≢◌, refl, ap, ◌∙◌, inl, inr, Bool-cases, Option-cases, arith,
}
use cr_sdkpy.Base.Dict.{lookup, lookup-insert_self, lookup-insert_ne}
use cr_sdkpy.Enums.{writable}
use cr_sdkpy.Events.{Error, unsupported, property_not_supported}
use cr_sdkpy.Simulator.Scenario.{AfOutcome}
use cr_sdkpy.Simulator.Profiles.{
  build_property, code_s1, code_focus_indication, code_recording_state, lock_locked,
}
use cr_sdkpy.Simulator.Timeline.{
  SimSession, Entry, Effect, schedule, put_property, run_effect, run_due, drain_due, settle,
}
use cr_sdkpy.Simulator.Shooting.{
  schedule_focus, schedule_verdict, begin_autofocus, cancel_autofocus,
}
use cr_sdkpy.Simulator.Backend.{write_property, after_write}

-- The properties that effects and autofocus write are not for the caller to write.
writable-ne :
    (code old : ℕ)
    → writable (build_property code old).access ≡ true
    → (code ≢ code_focus_indication) × (code ≢ code_recording_state)
unfolding build_property
writable-ne code old h = (λ e. ground arith, λ e. ground arith)

abbrev pub Reads : ℕ → ℕ → SimSession → Type 0
Reads code value s = lookup code s.properties ≡ some value

put_property-Reads :
    (code value other new : ℕ) (s : SimSession)
    → code ≢ other
    → Reads code value s
    → Reads code value (put_property other new s)
put_property-Reads code value other new s ne h = lookup-insert_ne code other new s.properties ne ∙ h

-- A property of the caller: no effect writes it.
record IsOwn (code : ℕ) : Type 0 where
  not_focus : code ≢ code_focus_indication
  not_recording : code ≢ code_recording_state

run_effect-Reads :
    (code value now : ℕ) (effect : Effect) (s : SimSession)
    → IsOwn code
    → Reads code value s
    → Reads code value (run_effect now effect s).0
unfolding run_effect
run_effect-Reads code value now Effect.set_connected s own h = h
run_effect-Reads code value now Effect.begin_reconnect s own h = h
run_effect-Reads code value now Effect.recover s own h = h
run_effect-Reads code value now Effect.expose s own h = h
run_effect-Reads code value now Effect.emit_unknown s own h = h
run_effect-Reads code value now Effect.recording_active s own h =
    put_property-Reads code value code_recording_state 0x0001 s own.not_recording h
run_effect-Reads code value now Effect.recording_idle s own h =
    put_property-Reads code value code_recording_state 0x0000 s own.not_recording h
run_effect-Reads code value now (Effect.focus_property new) s own h =
    put_property-Reads code value code_focus_indication new s own.not_focus h
run_effect-Reads code value now (Effect.focus_status new) s own h = h
run_effect-Reads code value now (Effect.add_content id) s own h = h
run_effect-Reads code value now (Effect.announce_postview id) s own h = h
run_effect-Reads code value now (Effect.straggle late) s own h = h

run_due-Reads :
    (code value now : ℕ) (es : List Entry) (s : SimSession)
    → IsOwn code
    → Reads code value s
    → Reads code value (run_due now es s).0
unfolding run_due
run_due-Reads code value now [] s own h = h
run_due-Reads code value now (e ∷ es) s own h = elim (Bool-cases (leb e.at now)) [
  | inr early ↦ rw early h
  | inl due ↦ rw due (
      run_due-Reads code value now es (run_effect now e.effect s).0 own
        (run_effect-Reads code value now e.effect s own h))
]

settle-Reads :
    (code value now : ℕ) (s : SimSession)
    → IsOwn code
    → Reads code value s
    → Reads code value (settle now s)
unfolding settle drain_due
settle-Reads code value now s own h =
    run_due-Reads code value now s.heap (record s { ready = [] }) own h

schedule_focus-properties :
    (at value skew : ℕ) (s : SimSession)
    → (schedule_focus at value skew s).properties ≡ s.properties
unfolding schedule_focus schedule
schedule_focus-properties at value skew s = refl

if_Reads :
    (code value : ℕ) (b : Bool) (s s' : SimSession)
    → Reads code value s
    → Reads code value s'
    → Reads code value (if b then s else s')
if_Reads code value true s s' h h' = h
if_Reads code value false s s' h h' = h'

schedule_verdict-Reads :
    (code value : ℕ) (outcome : AfOutcome) (now : ℕ) (af_c : Bool) (skew : ℕ) (s : SimSession)
    → Reads code value s
    → Reads code value (schedule_verdict outcome now af_c skew s)
unfolding schedule_verdict schedule_focus schedule
schedule_verdict-Reads code value AfOutcome.silent now af_c skew s h = h
schedule_verdict-Reads code value AfOutcome.no_lock now af_c skew s h = h
schedule_verdict-Reads code value AfOutcome.tracking_then_focus now af_c skew s h = h
schedule_verdict-Reads code value AfOutcome.focus now af_c skew s h =
    if_Reads code value af_c _ _ h h

begin_autofocus-Reads :
    (code value now : ℕ) (s : SimSession)
    → IsOwn code
    → Reads code value s
    → Reads code value (begin_autofocus now s)
unfolding begin_autofocus
begin_autofocus-Reads code value now s own h =
    if_Reads code value (not s.profile.autofocus_s1) _ _ h (
      if_Reads code value s.scenario.af_sticky _ _
        (put_property-Reads code value code_focus_indication _ s own.not_focus h)
        (schedule_verdict-Reads code value _ now _ _ s h))

after_write-Reads :
    (code value now : ℕ) (s : SimSession)
    → IsOwn code
    → Reads code value s
    → Reads code value (after_write now code value s)
unfolding cancel_autofocus
after_write-Reads code value now s own h =
    if_Reads code value (code == code_s1) _ _
      (if_Reads code value (value == lock_locked) _ _ (begin_autofocus-Reads code value now s own h)
        (put_property-Reads code value code_focus_indication _ s own.not_focus h))
      h

raised :
    (e : Error) (x : Result Error (Unit {0}) × SimSession) (s' : SimSession)
    → x.0 ≡ err e
    → x ≡ (ok tt, s')
    → ⊥
raised e x s' he h = grind (arith, he, ap (λ y. y.0) h)

-- A write that succeeds reads back, at that time and behind whatever effects fall due by any
-- later time: the property holds the value that was written.
pub write_property-reads_back :
    (code value now later : ℕ) (s s' : SimSession)
    → write_property code value now s ≡ (ok tt, s')
    → lookup code (settle later s').properties ≡ some value
unfolding write_property
write_property-reads_back code value now later s s' written =
    elim (Option-cases (lookup code s.properties)) [
      | inl missing ↦ absurd (
          raised (property_not_supported code) (write_property code value now s) s'
            (rw (missing, write_property) refl) written)
      | inr (old, there) ↦ elim (Bool-cases (writable (build_property code old).access)) [
        | inr read_only ↦ absurd (
            raised (unsupported "property.write") (write_property code value now s) s'
              (rw (there, write_property) (rw read_only refl)) written)
        | inl may_write ↦ settle-Reads code value later s' (own old may_write) (
            subst (λ x. Reads code value x.1)
              (rw may_write at (rw (there, write_property) at written))
              (after_write-Reads code value now _ (own old may_write)
                (lookup-insert_self code value s.properties)))
      ]
    ]
  where
    own : (old : ℕ) → writable (build_property code old).access ≡ true → IsOwn code
    own old h = record {
      not_focus = (writable-ne code old h).0;
      not_recording = (writable-ne code old h).1;
    }
