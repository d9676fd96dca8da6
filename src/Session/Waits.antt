-- ===== src/Session/Waits.antt =====
-- The waits of src/crsdkpy/session.py for an event and for an exposure end.
use cr_sdkpy.Base.{
  ℕ, zero, suc, ◌+◌, ◌-◌, ◌<◌, min, Bool, false, Option, none, some, List, leb, if◌then◌else◌,
  Result, ok, ◌≡◌, arith,
}
use cr_sdkpy.Contract.{Backend, Advances, Returns}
use cr_sdkpy.Events.{Event, Error}
use cr_sdkpy.Session.{Live, now, pump, take_first, wait_loop, wait_for_event}
use cr_sdkpy.Session.Ends.{
  bind-Returns, either-Returns, Anything, ahead, pump_gains, leb-false, no_fuel,
}

module _ (B : Backend) (laws : Advances B) where
  wait_round_ends :
      (deadline : ℕ) (c : Live B) (again : Result Error (Option Event) × Live B)
      (found : Option (Event × List Event))
      → (now B c < deadline → c.closed ≡ false → Returns (Anything B laws) again)
      → Returns {A = Option Event} (Anything B laws) (elim found [
        | some (e, rest) ↦ (ok (some e), record c { user_events = rest })
        | none ↦
            if leb deadline (now B c)
            then (ok none, c)
            else if c.closed
            then (ok none, c)
            else again
      ])
  unfolding Returns
  wait_round_ends deadline c again (some (e, rest)) h = tt
  wait_round_ends deadline c again none h =
      either-Returns (Anything B laws) (leb deadline (now B c)) _ _ (λ _. tt)
        (λ early. either-Returns (Anything B laws) c.closed _ _ (λ _. tt) (h (leb-false early)))

  wait_loop_ends :
      (fuel : ℕ) (test : Event → Bool) (deadline : ℕ) (c : Live B)
      → ahead B laws deadline c < fuel
      → Returns (Anything B laws) (wait_loop B fuel test deadline c)
  unfolding wait_loop Returns
  wait_loop_ends zero test deadline c hf = absurd (no_fuel hf)
  wait_loop_ends (suc fuel) test deadline c hf =
      wait_round_ends deadline c _ (take_first test c.user_events) (λ early hc.
        bind-Returns _ (Anything B laws) _ (pump B (min (deadline - now B c) 250) c)
          (pump_gains B laws _ deadline c (omega arith) early hc)
          (λ _ c1 h. wait_loop_ends fuel test deadline c1 (less h.0 hf)))
    where
      less : {a b n : ℕ} → a < b → b < suc n → a < n
      less h h' = omega arith

  -- Over a backend that keeps the laws of waiting: with more fuel than its timeout and the
  -- pending deliveries, `wait_for_event` does not run out of fuel; it returns an event or none,
  -- or raises an error of the program.
  pub wait_for_event-ends :
      (fuel : ℕ) (test : Event → Bool) (timeout_ms : ℕ) (c : Live B)
      → timeout_ms + laws.pending c.backend < fuel
      → Returns (Anything B laws) (wait_for_event B fuel test timeout_ms c)
  unfolding wait_for_event
  wait_for_event-ends fuel test timeout_ms c hf =
      wait_loop_ends fuel test (now B c + timeout_ms) c (omega arith)
