-- ===== src/LiveView/Fetch.antt =====
-- src/crsdkpy/liveview.py: the wait of `LiveView.try_get_frame` and of `get_frame` ends.
use cr_sdkpy.Base.{
  ℕ, zero, suc, ◌+◌, ◌-◌, ◌<◌, ◌≤◌, min, Bool, true, false, not, Option, none, some, leb, ok,
  Result, ◌≡◌, refl, arith, if◌then◌else◌, leb→le,
}
use cr_sdkpy.Enums.{ConnectionState}
use cr_sdkpy.Contract.{Backend, Preview, Advances, Returns}
use cr_sdkpy.Events.{Error, is_exhausted, raise_when, unsupported, session_closed}
use cr_sdkpy.Session.{Live, now, call, capabilities, check_usable, usable_or_raise}
use cr_sdkpy.Session.Ends.{bind-Returns, either-Returns, call-Returns, weaken, no_fuel, leb-false}
use cr_sdkpy.LiveView.{fetch_loop, try_get_frame}

sooner_by :
    (n n' after deadline : ℕ) {fuel : ℕ}
    → after ≡ n' + min 10 (deadline - n')
    → n ≤ n'
    → n' < deadline
    → deadline - n < suc fuel
    → deadline - after < fuel
sooner_by n n' after deadline e h h' hf = omega arith

no_sooner : {a b c : ℕ} → a ≤ b → b ≤ c → a ≤ c
no_sooner h h' = omega arith

later_by : {n n' : ℕ} (timeout_ms : ℕ) → n ≤ n' → n + timeout_ms ≤ n' + timeout_ms
later_by timeout_ms h = omega arith

module _ (B : Backend) (laws : Advances B) where
  -- A frame, or none once the deadline is over.
  abbrev pub InTime : ℕ → Option Preview → Live B → Type 0
  InTime deadline none c = deadline ≤ now B c
  InTime deadline (some frame) c = Unit

  fetch_round_ends :
      (deadline : ℕ) (c : Live B) (again : Result Error (Option Preview) × Live B)
      (found : Option Preview)
      → (now B c < deadline → Returns (InTime deadline) again)
      → Returns (InTime deadline) (elim found [
        | some frame ↦ (ok (some frame), c)
        | none ↦ if leb deadline (now B c) then (ok none, c) else again
      ])
  unfolding Returns
  fetch_round_ends deadline c again (some frame) h = tt
  fetch_round_ends deadline c again none h =
      either-Returns (InTime deadline) (leb deadline (now B c)) _ _ (λ late. leb→le _ _ late)
        (λ early. h (leb-false early))

  fetch_loop_ends :
      (fuel deadline : ℕ) (c : Live B)
      → deadline - now B c < fuel
      → Returns (InTime deadline) (fetch_loop B fuel deadline c)
  unfolding fetch_loop Returns
  fetch_loop_ends zero deadline c hf = absurd (no_fuel hf)
  fetch_loop_ends (suc fuel) deadline c hf =
      bind-Returns _ (InTime deadline) _ (call B.get_live_view_frame c)
        (call-Returns _ B.get_live_view_frame c (laws.get_live_view_frame_keeps c.backend))
        (λ found c' h. fetch_round_ends deadline c' _ found (λ early.
          fetch_loop_ends fuel deadline _
            (sooner_by _ _ _ _ (laws.sleep_moves _ c'.backend) h.0.0 early hf)))

  -- The clock has not gone back.
  abbrev NotBefore : {A : Type 0} → ℕ → A → Live B → Type 0
  NotBefore start a c' = start ≤ now B c'

  raise_kept :
      (start : ℕ) (b : Bool) (e : Error) (c : Live B)
      → is_exhausted e ≡ false
      → start ≤ now B c
      → Returns (NotBefore start) (raise_when b e c)
  unfolding Returns
  raise_kept start true e c h hs = h
  raise_kept start false e c h hs = hs

  usable_ends :
      (start : ℕ) (state : ConnectionState) (c : Live B)
      → start ≤ now B c
      → Returns (NotBefore start) (usable_or_raise B state c)
  unfolding Returns
  usable_ends start ConnectionState.connected c hs = hs
  usable_ends start ConnectionState.reconnecting c hs = refl
  usable_ends start ConnectionState.connecting c hs = refl
  usable_ends start ConnectionState.closing c hs = refl
  usable_ends start ConnectionState.closed c hs = refl

  check_usable_ends : (c : Live B) → Returns (NotBefore (now B c)) (check_usable B c)
  unfolding check_usable
  check_usable_ends c =
      bind-Returns _ (NotBefore (now B c)) _ (raise_when c.closed session_closed c)
        (raise_kept (now B c) c.closed session_closed c refl (omega arith))
        (λ _ c1 h1.
          bind-Returns _ (NotBefore (now B c)) _ (call B.connection_state c1)
            (call-Returns _ B.connection_state c1 (laws.connection_state_keeps c1.backend))
            (λ state c2 h2.
              usable_ends (now B c) state (record c2 { state = state }) (no_sooner h1 h2.0.0)))

  capabilities_ends :
      (start : ℕ) (c : Live B) → start ≤ now B c → Returns (NotBefore start) (capabilities B c)
  unfolding capabilities Returns
  capabilities_ends start c hs =
      either-Returns (NotBefore start) c.closed _ _ (λ _. refl)
        (λ _.
          weaken _ (NotBefore start) (call B.session_capabilities c)
            (call-Returns _ B.session_capabilities c (laws.session_capabilities_keeps c.backend))
            (λ _ _ h. no_sooner hs h.0.0))

  InTime-sooner :
      (deadline deadline' : ℕ) (found : Option Preview) (c : Live B)
      → deadline ≤ deadline'
      → InTime deadline' found c
      → InTime deadline found c
  InTime-sooner deadline deadline' none c h t = no_sooner h t
  InTime-sooner deadline deadline' (some frame) c h t = tt

  -- Over a backend that keeps the laws of waiting: with more fuel than its timeout, try_get_frame
  -- does not run out of fuel. It raises an error of the program, or returns a frame, or returns
  -- none; then the clock stands at least the timeout beyond the time of the call.
  pub try_get_frame-ends :
      (fuel timeout_ms : ℕ) (c : Live B)
      → timeout_ms < fuel
      → Returns (InTime (now B c + timeout_ms)) (try_get_frame B fuel timeout_ms c)
  unfolding try_get_frame
  try_get_frame-ends fuel timeout_ms c hf =
      bind-Returns _ (InTime (now B c + timeout_ms)) _ (check_usable B c) (check_usable_ends c)
        (λ _ c1 h1.
          bind-Returns _ (InTime (now B c + timeout_ms)) _ (capabilities B c1)
            (capabilities_ends (now B c) c1 h1)
            (λ caps c2 h2.
              bind-Returns _ (InTime (now B c + timeout_ms)) _
                (raise_when (not caps.live_view) _ c2)
                (raise_kept (now B c) _ (unsupported "live_view") c2 refl h2)
                (λ _ c3 h3.
                  weaken _ (InTime (now B c + timeout_ms))
                    (fetch_loop B fuel (now B c3 + timeout_ms) c3)
                    (fetch_loop_ends fuel (now B c3 + timeout_ms) c3 (omega arith))
                    (λ found c4 t.
                      InTime-sooner (now B c + timeout_ms) (now B c3 + timeout_ms) found c4
                        (later_by timeout_ms h3) t))))
