-- ===== src/Simulator/Timeline/Budget.antt =====
-- How much the timeline of src/crsdkpy/simulator/backend.py can still deliver: no step of time
-- makes it more.
use cr_sdkpy.Base.{
  ℕ, ◌+◌, ◌*◌, ◌<◌, ◌≤◌, Option, none, some, List, [], ◌∷◌, leb, length, length-append, inl, inr,
  Bool-cases, arith,
}
use cr_sdkpy.Simulator.Timeline.{
  Entry, Effect, SimSession, next_scheduled_ms, run_effect, run_due, drain_due, settle,
}
use cr_sdkpy.Simulator.Timeline.Order.{run_due-LeavesQueues}

-- The events that wait, and twice the effects to come: an effect reports two events at most.
abbrev pub load : SimSession → ℕ
load s = length s.ready + 2 * length s.heap

run_effect-length :
    (now : ℕ) (effect : Effect) (s : SimSession) → length (run_effect now effect s).1 ≤ 2
unfolding run_effect
run_effect-length now Effect.set_connected s = omega arith
run_effect-length now Effect.begin_reconnect s = ground arith
run_effect-length now Effect.recover s = ground arith
run_effect-length now Effect.expose s = omega arith
run_effect-length now Effect.emit_unknown s = omega arith
run_effect-length now Effect.recording_active s = omega arith
run_effect-length now Effect.recording_idle s = omega arith
run_effect-length now (Effect.focus_property value) s = omega arith
run_effect-length now (Effect.focus_status value) s = omega arith
run_effect-length now (Effect.add_content id) s = omega arith
run_effect-length now (Effect.announce_postview id) s = omega arith
run_effect-length now (Effect.straggle code) s = omega arith

run_due-length :
    (now : ℕ) (es : List Entry) (s : SimSession)
    → length (run_due now es s).1 + 2 * length (run_due now es s).0.heap ≤ 2 * length es
unfolding run_due
run_due-length now [] s = omega arith
run_due-length now (e ∷ es) s = elim (Bool-cases (leb e.at now)) [
  | inr h ↦ rw h (omega arith)
  | inl h ↦ rw h (
      rw (length-append (run_effect now e.effect s).1 _) (
        omega (
          arith,
          run_effect-length now e.effect s,
          run_due-length now es (run_effect now e.effect s).0,
        )))
]

-- What a session holds after draining and what was delivered is no more than what it held.
pub drain_due-load :
    (now : ℕ) (s : SimSession) → length (drain_due now s).1 + load (drain_due now s).0 ≤ load s
unfolding drain_due
drain_due-load now s =
    rw
      (
        length-append s.ready (run_due now s.heap (record s { ready = [] })).1,
        (run_due-LeavesQueues now s.heap (record s { ready = [] })).1,
      )
      (omega (arith, run_due-length now s.heap (record s { ready = [] })))

pub settle-load : (now : ℕ) (s : SimSession) → load (settle now s) ≤ load s
unfolding settle drain_due
settle-load now s =
    rw
      (
        (run_due-LeavesQueues now s.heap (record s { ready = [] })).1,
        length-append s.ready (run_due now s.heap (record s { ready = [] })).1,
      )
      (omega (arith, run_due-length now s.heap (record s { ready = [] })))

-- What is still scheduled lies in the future.
abbrev pub IsLater : ℕ → Option ℕ → Type 0
IsLater now none = Unit
IsLater now (some at) = now < at

run_due-IsLater :
    (now : ℕ) (es : List Entry) (s : SimSession)
    → IsLater now (next_scheduled_ms (run_due now es s).0)
unfolding run_due next_scheduled_ms
run_due-IsLater now [] s = tt
run_due-IsLater now (e ∷ es) s = elim (Bool-cases (leb e.at now)) [
  | inl h ↦ rw h (run_due-IsLater now es (run_effect now e.effect s).0)
  | inr h ↦ rw h (ground arith)
]

pub drain_due-IsLater :
    (now : ℕ) (s : SimSession) → IsLater now (next_scheduled_ms (drain_due now s).0)
unfolding drain_due
drain_due-IsLater now s = run_due-IsLater now s.heap (record s { ready = [] })
