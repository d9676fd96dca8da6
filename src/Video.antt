-- ===== src/Video.antt =====
-- src/crsdkpy/video.py: the facade `Video` of a session. A `Recording` is the time of its start; the
-- loop that waits takes fuel.
pub mod Waits
pub mod Tests
use cr_sdkpy.Base.{
  ℕ, zero, suc, ◌+◌, ◌-◌, min, max, Bool, true, false, not, leb, if◌then◌else◌, ◌is◌, ok, err,
}
use cr_sdkpy.Enums.{RecordingState, recording_identity}
use cr_sdkpy.Contract.{Backend}
use cr_sdkpy.Events.{
  Action, pure, gets, raise_when, bind, ◌>>=◌, ◌>>◌, unsupported, operation_timeout, exhausted,
}
use cr_sdkpy.Session.{Live, now, call, pump, capabilities, check_usable}

module _ (B : Backend) where
  -- `Video.state`
  unfoldable pub video_state : Action (Live B) RecordingState
  unfolding check_usable
  video_state = check_usable B >>= λ _. call B.recording_state

  -- `Video._require`
  unfoldable pub require_video : Action (Live B) (Unit {0})
  unfolding check_usable capabilities
  require_video = do
    check_usable B
    caps ← capabilities B
    raise_when (not caps.video) (unsupported "video")

  -- The loop of `Video._wait_for`.
  unfoldable pub recording_loop : ℕ → RecordingState → ℕ → Action (Live B) Bool
  unfolding pump
  recording_loop zero target deadline c = (err exhausted, c)
  recording_loop (suc fuel) target deadline c =
      bind
        (λ state c'.
          let again =
            (pump B (min 50 (max 1 (deadline - now B c'))) >>= λ _.
            recording_loop fuel target deadline)
              c' in
          if state is target
          then (ok true, c')
          else if leb deadline (now B c')
          then (ok false, c')
          else again)
        (call B.recording_state c)

  -- `Video._wait_for`
  unfoldable pub wait_for : ℕ → RecordingState → ℕ → Action (Live B) Bool
  unfolding recording_loop
  wait_for fuel target timeout_ms c = recording_loop fuel target (now B c + timeout_ms) c

  -- The end of `Video.start` and of `Video.stop`.
  unfoldable pub wait_or_raise : ℕ → Bool → RecordingState → ℕ → Action (Live B) (Unit {0})
  unfolding wait_for
  wait_or_raise fuel wait target timeout_ms =
      if wait
      then (wait_for fuel target timeout_ms >>= λ reached.
          raise_when (not reached) operation_timeout)
      else pure tt

  -- `Video.start`
  unfoldable pub start_video : ℕ → Bool → ℕ → Action (Live B) ℕ
  unfolding require_video wait_or_raise
  start_video fuel wait timeout_ms = do
    require_video
    started ← gets (now B)
    call B.start_recording
    wait_or_raise fuel wait RecordingState.recording timeout_ms
    pure started

  -- `Video.stop`
  unfoldable pub stop_video : ℕ → Bool → ℕ → Action (Live B) (Unit {0})
  unfolding require_video wait_or_raise
  stop_video fuel wait timeout_ms = do
    require_video
    call B.stop_recording
    wait_or_raise fuel wait RecordingState.idle timeout_ms
