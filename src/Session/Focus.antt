-- ===== src/Session/Focus.antt =====
-- Autofocus of src/crsdkpy/session.py: the focus gate and the half-press stage.
use cr_sdkpy.Base.{
  ℕ, zero, suc, ◌+◌, ◌-◌, min, max, Bool, true, false, not, List, [], ◌∷◌, leb, if◌then◌else◌,
  select, Result, ok, err,
}
use cr_sdkpy.Base.Int.{ℤ, sub_ℕ}
use cr_sdkpy.Enums.{FocusState, FocusSource, is_focused}
use cr_sdkpy.Contract.{Backend}
use cr_sdkpy.Events.{
  Event, Error, Action, pure, raise, gets, raise_when, ◌>>=◌, ◌>>◌, unsupported, exhausted,
}
use cr_sdkpy.Session.{Live, now, sleep, call, pump, capabilities, check_usable, take_op_events}

-- `FocusResult` of src/crsdkpy/capture.py.
pub record FocusResult : Type 0 where
  pub confirmed : Bool
  pub state : FocusState
  pub elapsed_ms : ℤ
  pub source : FocusSource

-- `_FOCUS_READ_POINTS_MS`
abbrev pub focus_read_points : List ℕ
focus_read_points = 150 ∷ 400 ∷ 900 ∷ 1600 ∷ 2500 ∷ []

-- `except UnsupportedOperationError: ...`
abbrev pub on_unsupported : {S A : Type 0} → A → Result Error A × S → Result Error A × S
on_unsupported a (ok b, s) = (ok b, s)
on_unsupported a (err (unsupported capability), s) = (ok a, s)
on_unsupported a (err e, s) = (err e, s)

abbrev pub confirmation : FocusState → ℤ → FocusSource → FocusResult
confirmation state elapsed source = record {
  confirmed = true;
  state = state;
  elapsed_ms = elapsed;
  source = source;
}

-- The loop over a batch of events: the latest focus state, or the result that ends the gate.
pub data Verdict : Type 0 where
  latest_is : FocusState → Verdict
  confirms : FocusResult → Verdict

unfoldable pub scan_focus : ℕ → FocusState → List Event → Verdict
scan_focus start latest [] = latest_is latest
scan_focus start latest (Event.focus at state source raw ∷ events) =
    if is_focused state
    then confirms (confirmation state (sub_ℕ at start) source)
    else scan_focus start state events
scan_focus start latest (_ ∷ events) = scan_focus start latest events

-- How long the gate waits before it looks again.
unfoldable pub gate_wait : ℕ → ℕ → List ℕ → ℕ → ℕ
gate_wait start deadline [] at = max 1 (deadline - at)
gate_wait start deadline (point ∷ points) at = max 1 (min deadline (start + point) - at)

abbrev is_unknown : FocusState → Bool
is_unknown FocusState.unknown = true
is_unknown _ = false

module _ (B : Backend) where
  open B use {State, get_half_press, set_half_press, focus_state}

  -- A direct read that confirms, as a result.
  abbrev read_result : FocusState → ℕ → Live B → FocusResult
  read_result state start c = confirmation state (sub_ℕ (now B c) start) FocusSource.direct_read

  -- The last direct read, behind the loop.
  unfoldable pub final_read : ℕ → FocusState → Action (Live B) FocusResult
  final_read start latest = call focus_state >>= λ final c. (
    ok (
        if is_focused final then read_result final start c else record {
          confirmed = false;
          state = if is_unknown final then latest else final;
          elapsed_ms = sub_ℕ (now B c) start;
          source = FocusSource.property;
        }),
    c,
  )

  -- The spaced direct read of one round, where its point has come: what is left of the points,
  -- and a result or the latest state.
  unfoldable pub spaced_read : ℕ → List ℕ → FocusState → Action (Live B) (List ℕ × Verdict)
  spaced_read start [] latest c = (ok ([], latest_is latest), c)
  spaced_read start (point ∷ points) latest c =
      if leb (start + point) (now B c)
      then (call focus_state >>= λ state c'. (
        ok (
          points,
          (if is_focused state then confirms (read_result state start c') else latest_is state),
        ),
        c',
      ))
          c
      else (ok (point ∷ points, latest_is latest), c)

  -- Where the events of a round confirm, there is no direct read.
  unfoldable pub unless_confirmed :
      List ℕ
      → (FocusState → Action (Live B) (List ℕ × Verdict))
      → Verdict
      → Action (Live B) (List ℕ × Verdict)
  unless_confirmed points read (confirms result) c = (ok (points, confirms result), c)
  unless_confirmed points read (latest_is state) c = read state c

  -- A round that confirms ends the loop.
  unfoldable pub next_round :
      (List ℕ → FocusState → Action (Live B) FocusResult)
      → List ℕ
      → Verdict
      → Action (Live B) FocusResult
  next_round rest points (confirms result) c = (ok result, c)
  next_round rest points (latest_is state) c = rest points state c

  -- The events of one round, and then its direct read.
  unfoldable pub round_verdict : ℕ → List ℕ → FocusState → Action (Live B) (List ℕ × Verdict)
  unfolding scan_focus spaced_read unless_confirmed
  round_verdict start points latest = take_op_events >>= λ events.
      unless_confirmed points (spaced_read start points) (scan_focus start latest events)

  -- The loop of `_focus_gate`.
  unfoldable pub gate_loop : ℕ → ℕ → ℕ → List ℕ → FocusState → Action (Live B) FocusResult
  unfolding pump round_verdict final_read next_round
  gate_loop zero start deadline points latest c = (err exhausted, c)
  gate_loop (suc fuel) start deadline points latest c =
      let again =
        (pump B (gate_wait start deadline points (now B c)) >>= λ _.
        round_verdict start points latest >>= λ r.
        next_round (gate_loop fuel start deadline) r.0 r.1)
          c in
      if leb deadline (now B c) then final_read start latest c else again

  -- The rest of `_focus_gate` behind the assertion of the half-press stage.
  unfoldable pub gate_from : ℕ → ℕ → ℕ → FocusState → Action (Live B) FocusResult
  unfolding gate_loop
  gate_from fuel start timeout_ms immediate c =
      if is_focused immediate
      then (ok (read_result immediate start c), c)
      else gate_loop fuel start (start + timeout_ms)
          (select (λ p. leb p timeout_ms) focus_read_points) immediate c

  -- `_focus_gate`
  unfoldable pub focus_gate : ℕ → ℕ → Action (Live B) FocusResult
  unfolding gate_from
  focus_gate fuel timeout_ms = do
    start ← gets (now B)
    call (set_half_press true)
    immediate ← call focus_state
    gate_from fuel start timeout_ms immediate

  -- `_clear_stale_half_press`
  unfoldable pub clear_stale_half_press : Action (Live B) (Unit {0})
  clear_stale_half_press c = on_unsupported tt (
      (call get_half_press >>= λ engaged. if engaged then call (set_half_press false) else pure tt)
        c)

  -- The loop of `_release_half_press`: whether the stage is seen released by the deadline.
  unfoldable pub release_loop : ℕ → ℕ → Action (Live B) Bool
  release_loop zero deadline = raise exhausted
  release_loop (suc fuel) deadline = call get_half_press >>= λ engaged c.
      let again = (sleep B 50 >>= λ _. release_loop fuel deadline) c in
      if not engaged then (ok true, c) else if leb deadline (now B c) then (ok false, c) else again

  -- `_release_half_press`, with its timeout of 1500 ms.
  unfoldable pub release_half_press : ℕ → Action (Live B) Bool
  unfolding release_loop
  release_half_press fuel c = on_unsupported true (
      (call get_half_press >>= λ engaged.
      if not engaged
      then pure true
      else (call (set_half_press false) >>= λ _ c'. release_loop fuel (now B c' + 1500) c'))
        c)

  -- `if not result.confirmed: self._release_half_press()`
  abbrev release_unless : ℕ → FocusResult → Action (Live B) FocusResult
  release_unless fuel result =
      if result.confirmed then pure result else (release_half_press fuel >>= λ _. pure result)

  -- `autofocus`
  unfoldable pub autofocus : ℕ → ℕ → Action (Live B) FocusResult
  unfolding check_usable capabilities clear_stale_half_press focus_gate release_half_press
  autofocus fuel timeout_ms = do
    check_usable B
    caps ← capabilities B
    raise_when (not caps.autofocus_s1) (unsupported "autofocus_s1")
    clear_stale_half_press
    result ← focus_gate fuel timeout_ms
    release_unless fuel result
