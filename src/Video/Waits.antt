-- ===== src/Video/Waits.antt =====
-- src/crsdkpy/video.py: the wait for a recording to begin or to end.
use cr_sdkpy.Base.{
  ℕ, zero, suc, ◌+◌, ◌-◌, ◌<◌, ◌≤◌, min, max, Bool, true, false, leb, leb→le, ◌is◌, Result, ok, err,
  ◌≡◌, refl, ◌∙◌, arith,
}
use cr_sdkpy.Enums.{RecordingState, recording_identity}
use cr_sdkpy.Contract.{Backend, Advances, Returns}
use cr_sdkpy.Events.{Error}
use cr_sdkpy.Session.{Live, now, call, pump}
use cr_sdkpy.Session.Ends.{
  bind-Returns, either-Returns, call-Returns, ahead, pump_gains, leb-false, no_fuel,
}
use cr_sdkpy.Video.{recording_loop, wait_for}

-- Together with the equation that it returned.
with_equation :
    {S A : Type 0} (G : A → S → Type 0) (x : Result Error A × S)
    → Returns G x
    → Returns (λ a s. G a s × (x ≡ (ok a, s))) x
unfolding Returns
with_equation G (ok a, s) g = (g, refl)
with_equation G (err e, s) g = g

stays : (n n' p p' deadline : ℕ) → n ≤ n' → p' ≤ p → (deadline - n') + p' ≤ (deadline - n) + p
stays n n' p p' deadline h hp = omega arith

-- Reading the recording state makes neither the clock nor what is pending go backwards.
abbrev pub ReadsRecording : (B : Backend) → Advances B → Type 0
ReadsRecording B laws =
    (s : B.State)
    → Returns (λ state s'. (B.now_ms s ≤ B.now_ms s') × (laws.pending s' ≤ laws.pending s))
        (B.recording_state s)

module _ (B : Backend) (laws : Advances B) (reads : ReadsRecording B laws) where
  -- The state that the backend reported last, with nothing called since.
  pub record Told (target : RecordingState) (c : Live B) : Type 0 where
    pub asked : B.State
    pub state : RecordingState
    pub answer : B.recording_state asked ≡ (ok state, c.backend)
    pub is_target : (state is target) ≡ true

  -- What the answer of the wait says.
  unfoldable pub Waited : RecordingState → ℕ → Bool → Live B → Type 0
  Waited target deadline true c = Told target c
  Waited target deadline false c = deadline ≤ now B c

  recording_loop_ends :
      (fuel : ℕ) (target : RecordingState) (deadline : ℕ) (c : Live B)
      → c.closed ≡ false
      → ahead B laws deadline c < fuel
      → Returns (Waited target deadline) (recording_loop B fuel target deadline c)
  unfolding recording_loop Returns Waited
  recording_loop_ends zero target deadline c hc hf = absurd (no_fuel hf)
  recording_loop_ends (suc fuel) target deadline c hc hf =
      bind-Returns _ (Waited target deadline) _ (call B.recording_state c)
        (call-Returns _ B.recording_state c
          (with_equation _ (B.recording_state c.backend) (reads c.backend)))
        (λ state c' h.
          either-Returns (Waited target deadline) (state is target) _ _
            (λ there. record {
              asked = c.backend;
              state = state;
              answer = h.0.1;
              is_target = there;
            })
            (λ _.
              either-Returns (Waited target deadline) (leb deadline (now B c')) _ _
                (λ late. leb→le _ _ late)
                (λ early.
                  bind-Returns _ (Waited target deadline) _
                    (pump B (min 50 (max 1 (deadline - now B c'))) c')
                    (pump_gains B laws _ deadline c' (omega arith) (leb-false early) (h.1 ∙ hc))
                    (λ _ c2 g.
                      recording_loop_ends fuel target deadline c2 g.1
                        (sooner g.0 (stays _ _ _ _ deadline h.0.0.0 h.0.0.1) hf)))))
    where
      sooner : {a b n m : ℕ} → a < b → b ≤ n → n < suc m → a < m
      sooner h h' h'' = omega arith

  -- On an open session over a backend that keeps the laws of waiting and whose recording state can be
  -- read without going backwards: with more fuel than its timeout and the pending deliveries, the wait
  -- of start and stop comes to its end. It answers that the state is reached only where that is the
  -- backend's last word, and that it is not only when the time has run out.
  pub wait_for-ends :
      (fuel : ℕ) (target : RecordingState) (timeout_ms : ℕ) (c : Live B)
      → c.closed ≡ false
      → timeout_ms + laws.pending c.backend < fuel
      → Returns (Waited target (now B c + timeout_ms)) (wait_for B fuel target timeout_ms c)
  unfolding wait_for
  wait_for-ends fuel target timeout_ms c hc hf =
      recording_loop_ends fuel target (now B c + timeout_ms) c hc (omega arith)
