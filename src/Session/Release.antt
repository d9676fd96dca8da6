-- ===== src/Session/Release.antt =====
-- The shutter of src/crsdkpy/session.py: `capture` and `autofocus_and_capture`, and the wait for
-- the exposure.
use cr_sdkpy.Base.{
  ℕ, zero, suc, ◌+◌, ◌-◌, min, max, Bool, true, false, not, none, some, List, [], ◌∷◌, ltb,
  if◌then◌else◌, ok, err,
}
use cr_sdkpy.Enums.{CaptureState, Command, CommandParameter, preview_identity}
use cr_sdkpy.Contract.{Backend}
use cr_sdkpy.Events.{
  Event, Action, pure, gets, raise_when, bind, ◌>>=◌, ◌>>◌, unsupported, autofocus_failed,
  exhausted,
}
use cr_sdkpy.Session.{Live, now, sleep, call, pump, capabilities, check_usable, take_op_events}
use cr_sdkpy.Session.Focus.{FocusResult, clear_stale_half_press, focus_gate, release_half_press}
use cr_sdkpy.Session.Shots.{
  Capture, new_capture, advance, fail, focus_not_confirmed, no_exposure, Shooting, leave, lift,
  change, content_baseline, record_content,
}

module _ (B : Backend) where
  open B use {State, latest_content, list_content, get_preview, pull_postview, send_command}

  -- The loop of `_await_exposure` over a batch: whether the exposure was among the events.
  unfoldable pub scan_exposure : List Event → Action (Shooting B) Bool
  unfolding record_content
  scan_exposure [] z = (ok false, z)
  scan_exposure (Event.capture at sequence ∷ events) z = (
    ok true,
    record z {
      capture = record (z.capture) {
        exposed_ms = some (now B z.session);
        state = CaptureState.exposed;
      };
    },
  )
  scan_exposure (Event.content at content_id file_number path ∷ events) z =
      bind (λ _. scan_exposure events) (record_content B at content_id file_number path z)
  scan_exposure (_ ∷ events) z = scan_exposure events z

  -- `if not capture.exposed: capture._fail(...)`
  abbrev fail_unexposed : Capture → Capture
  fail_unexposed k = elim (k.exposed_ms) [ some _ ↦ k | none ↦ fail no_exposure k ]

  -- The loop of `_await_exposure`.
  unfoldable pub exposure_loop : ℕ → ℕ → Action (Shooting B) (Unit {0})
  unfolding pump scan_exposure
  exposure_loop zero deadline z = (err exhausted, z)
  exposure_loop (suc fuel) deadline z =
      let at = now B z.session in
      let again =
        (lift (pump B (max 1 (min 50 (deadline - at)))) >>= λ _. lift take_op_events >>= λ events.
        scan_exposure events >>= λ exposed.
        if exposed then pure tt else exposure_loop fuel deadline)
          z in
      if ltb at deadline then again else change fail_unexposed z

  -- `_await_exposure`
  unfoldable pub await_exposure : ℕ → ℕ → Action (Shooting B) (Unit {0})
  unfolding exposure_loop
  await_exposure fuel timeout_ms z = exposure_loop fuel (now B z.session + timeout_ms) z

  -- The release button, down and up.
  unfoldable pub press_release : ℕ → Action (Live B) (Unit {0})
  press_release dwell_ms = do
    call (send_command Command.release CommandParameter.down)
    sleep B dwell_ms
    call (send_command Command.release CommandParameter.up)

  abbrev pub start_shot : CaptureState → Action (Live B) Capture
  start_shot state c =
      bind (λ baseline c'. (ok (advance state (new_capture (now B c) baseline)), c'))
        (content_baseline B c)

  -- Runs an operation on a capture, and returns the capture as it is then.
  abbrev with_capture : Action (Shooting B) (Unit {0}) → Capture → Action (Live B) Capture
  with_capture op k c = leave (op (record { session = c; capture = k }))

  -- `capture`
  unfoldable pub take_shot : ℕ → ℕ → Bool → ℕ → Action (Live B) Capture
  unfolding check_usable capabilities content_baseline press_release await_exposure new_capture
  take_shot fuel dwell_ms wait_for_exposure timeout_ms = do
    check_usable B
    caps ← capabilities B
    raise_when (not caps.still_capture) (unsupported "still_capture")
    k ← start_shot CaptureState.requested
    press_release dwell_ms
    if wait_for_exposure then with_capture (await_exposure fuel timeout_ms) k else pure k

  -- The part of `autofocus_and_capture` behind a gate that did not confirm.
  unfoldable pub refuse_shot : ℕ → Bool → FocusResult → Capture → Action (Live B) Capture
  unfolding release_half_press
  refuse_shot fuel raise_on_focus_failure focus k = do
    released ← release_half_press B fuel
    raise_when raise_on_focus_failure (autofocus_failed focus.state focus.elapsed_ms)
    pure (fail (focus_not_confirmed focus.state) (record k { focus = some focus }))

  -- The part behind a gate that confirmed: the release.
  unfoldable pub release_shot : ℕ → ℕ → ℕ → FocusResult → Capture → Action (Live B) Capture
  unfolding press_release await_exposure release_half_press
  release_shot fuel dwell_ms timeout_ms focus k = do
    at ← gets (now B)
    press_release dwell_ms
    shot ←
        with_capture (await_exposure fuel timeout_ms)
          (record k { focus = some focus; focused_ms = some at; state = CaptureState.focused })
    released ← release_half_press B fuel
    pure shot

  -- The gate, and the branch on its result.
  unfoldable pub gated_shot : ℕ → ℕ → ℕ → ℕ → Bool → Capture → Action (Live B) Capture
  unfolding clear_stale_half_press focus_gate refuse_shot release_shot
  gated_shot fuel focus_timeout_ms dwell_ms timeout_ms raise_on_focus_failure k = do
    clear_stale_half_press B
    focus ← focus_gate B fuel focus_timeout_ms
    if focus.confirmed
        then release_shot fuel dwell_ms timeout_ms focus k
        else refuse_shot fuel raise_on_focus_failure focus k

  -- `autofocus_and_capture`
  unfoldable pub autofocus_and_capture : ℕ → ℕ → ℕ → ℕ → Bool → Action (Live B) Capture
  unfolding check_usable capabilities content_baseline new_capture gated_shot
  autofocus_and_capture fuel focus_timeout_ms dwell_ms timeout_ms raise_on_focus_failure = do
    check_usable B
    caps ← capabilities B
    raise_when (not caps.still_capture) (unsupported "still_capture")
    raise_when (not caps.autofocus_s1) (unsupported "autofocus_s1")
    k ← start_shot CaptureState.focusing
    gated_shot fuel focus_timeout_ms dwell_ms timeout_ms raise_on_focus_failure k
