-- ===== src/Session/Gate.antt =====
-- The gate of `autofocus_and_capture` (src/crsdkpy/session.py): nothing is sent to the camera
-- unless the focus was confirmed.
use cr_sdkpy.Base.{ℕ, zero, suc, ◌+◌, true, false, not, List, [], ◌∷◌, leb}
use cr_sdkpy.Enums.{FocusState, is_focused}
use cr_sdkpy.Contract.{Backend}
use cr_sdkpy.Events.{Action, pure}
use cr_sdkpy.Session.{Live, now, call, pump}
use cr_sdkpy.Session.Focus.{
  FocusResult, Verdict, latest_is, confirms, scan_focus, spaced_read, round_verdict, final_read,
  unless_confirmed, next_round, gate_loop, gate_from, focus_gate, clear_stale_half_press,
  release_loop, release_half_press,
}
use cr_sdkpy.Session.Keeps.{
  Keeps, bind_keeps, either_keeps, then-Keeps, if_Keeps, on_unsupported_keeps, Inside, call-Keeps,
  IsQuiet,
}

module _ (B : Backend) (Q : B.State → Type 0) (quiet : IsQuiet B Q) where
  abbrev KeepsQ : {A : Type 0} → Action (Live B) A → Type 0
  KeepsQ = Keeps (Inside Q)

  pub pump_keeps : (timeout_ms : ℕ) → KeepsQ (pump B timeout_ms)
  unfolding pump
  pump_keeps timeout_ms c p = either_keeps (Inside Q) c.closed _ _ p (
      bind_keeps (Inside Q) _ (call (B.poll_events timeout_ms) c) (λ events c' p'. p')
        (quiet.polls timeout_ms c.backend p))

  final_read_keeps : (start : ℕ) (latest : FocusState) → KeepsQ (final_read B start latest)
  unfolding final_read
  final_read_keeps start latest =
      then-Keeps (Inside Q) (call B.focus_state) _ (call-Keeps Q B.focus_state quiet.reads_focus)
        (λ final c p. p)

  spaced_read_keeps :
      (start : ℕ) (points : List ℕ) (latest : FocusState)
      → KeepsQ (spaced_read B start points latest)
  unfolding spaced_read
  spaced_read_keeps start [] latest c p = p
  spaced_read_keeps start (point ∷ points) latest c p =
      either_keeps (Inside Q) (leb (start + point) (now B c)) _ _
        (bind_keeps (Inside Q) _ (call B.focus_state c) (λ state c' p'. p')
          (quiet.reads_focus c.backend p))
        p

  unless_confirmed_keeps :
      (start : ℕ) (points : List ℕ) (v : Verdict)
      → KeepsQ (unless_confirmed B points (spaced_read B start points) v)
  unfolding unless_confirmed
  unless_confirmed_keeps start points (confirms result) c p = p
  unless_confirmed_keeps start points (latest_is state) c p =
      spaced_read_keeps start points state c p

  round_verdict_keeps :
      (start : ℕ) (points : List ℕ) (latest : FocusState)
      → KeepsQ (round_verdict B start points latest)
  unfolding round_verdict
  round_verdict_keeps start points latest c p =
      unless_confirmed_keeps start points (scan_focus start latest c.op_events) _ p

  next_round_keeps :
      (rest : List ℕ → FocusState → Action (Live B) FocusResult) (points : List ℕ) (v : Verdict)
      → ((points : List ℕ) (state : FocusState) → KeepsQ (rest points state))
      → KeepsQ (next_round B rest points v)
  unfolding next_round
  next_round_keeps rest points (confirms result) h c p = p
  next_round_keeps rest points (latest_is state) h c p = h points state c p

  gate_loop_keeps :
      (fuel start deadline : ℕ) (points : List ℕ) (latest : FocusState)
      → KeepsQ (gate_loop B fuel start deadline points latest)
  unfolding gate_loop
  gate_loop_keeps zero start deadline points latest c p = p
  gate_loop_keeps (suc fuel) start deadline points latest c p =
      either_keeps (Inside Q) (leb deadline (now B c)) _ _ (final_read_keeps start latest c p) (
        then-Keeps (Inside Q) (pump B _) _ (pump_keeps _)
          (λ _.
            then-Keeps (Inside Q) (round_verdict B start points latest) _
              (round_verdict_keeps start points latest)
              (λ r.
                next_round_keeps (gate_loop B fuel start deadline) r.0 r.1
                  (gate_loop_keeps fuel start deadline)))
          c p)

  gate_from_keeps :
      (fuel start timeout_ms : ℕ) (immediate : FocusState)
      → KeepsQ (gate_from B fuel start timeout_ms immediate)
  unfolding gate_from
  gate_from_keeps fuel start timeout_ms immediate c p =
      either_keeps (Inside Q) (is_focused immediate) _ _ p
        (gate_loop_keeps fuel start _ _ immediate c p)

  pub focus_gate_keeps : (fuel timeout_ms : ℕ) → KeepsQ (focus_gate B fuel timeout_ms)
  unfolding focus_gate
  focus_gate_keeps fuel timeout_ms c p =
      then-Keeps (Inside Q) (call (B.set_half_press true)) _
        (call-Keeps Q (B.set_half_press true) (quiet.sets_stage true))
        (λ _.
          then-Keeps (Inside Q) (call B.focus_state) _
            (call-Keeps Q B.focus_state quiet.reads_focus)
            (gate_from_keeps fuel (now B c) timeout_ms))
        c p

  pub clear_stale_half_press_keeps : KeepsQ (clear_stale_half_press B)
  unfolding clear_stale_half_press
  clear_stale_half_press_keeps c p = on_unsupported_keeps (Inside Q) tt _ (
      then-Keeps (Inside Q) (call B.get_half_press) _
        (call-Keeps Q B.get_half_press quiet.gets_stage)
        (λ engaged.
          if_Keeps (Inside Q) engaged (call (B.set_half_press false)) (pure tt)
            (call-Keeps Q (B.set_half_press false) (quiet.sets_stage false)) (λ c' p'. p'))
        c p)

  release_loop_keeps : (fuel deadline : ℕ) → KeepsQ (release_loop B fuel deadline)
  unfolding release_loop
  release_loop_keeps zero deadline c p = p
  release_loop_keeps (suc fuel) deadline c p =
      then-Keeps (Inside Q) (call B.get_half_press) _
        (call-Keeps Q B.get_half_press quiet.gets_stage)
        (λ engaged c' p'. either_keeps (Inside Q) (not engaged) _ _ p' (
          either_keeps (Inside Q) (leb deadline (now B c')) _ _ p'
            (release_loop_keeps fuel deadline _ (quiet.sleeps 50 c'.backend p'))))
        c p

  pub release_half_press_keeps : (fuel : ℕ) → KeepsQ (release_half_press B fuel)
  unfolding release_half_press
  release_half_press_keeps fuel c p = on_unsupported_keeps (Inside Q) true _ (
      then-Keeps (Inside Q) (call B.get_half_press) _
        (call-Keeps Q B.get_half_press quiet.gets_stage)
        (λ engaged.
          if_Keeps (Inside Q) (not engaged) (pure true) _ (λ c' p'. p')
            (then-Keeps (Inside Q) (call (B.set_half_press false)) _
              (call-Keeps Q (B.set_half_press false) (quiet.sets_stage false))
              (λ _ c'. release_loop_keeps fuel (now B c' + 1500) c')))
        c p)
