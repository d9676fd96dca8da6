-- ===== src/Session/Arrives.antt =====
-- The wait for the content of a capture (`_await_content` of src/crsdkpy/session.py) ends.
use cr_sdkpy.Base.{
  ℕ, zero, suc, ◌+◌, ◌-◌, ◌<◌, ◌≤◌, max, Bool, true, false, not, Option, none, some, [], ltb,
  Result, ok, ◌≡◌, refl, ◌∙◌, ltb→lt, arith,
}
use cr_sdkpy.Contract.{Backend, Advances, Returns}
use cr_sdkpy.Events.{Error, is_exhausted, raise_when, unsupported}
use cr_sdkpy.Session.{now, call, pump, capabilities}
use cr_sdkpy.Session.Shots.{CapturedContent, Shooting, lift}
use cr_sdkpy.Session.Resolve.{
  scan_content, poll_index, content_loop, await_content, or_timeout, wait_for_content,
}
use cr_sdkpy.Session.Ends.{
  bind-Returns, either-Returns, call-Returns, weaken, ahead, no_fuel, not_both,
}
use cr_sdkpy.Session.Onward.{
  lift-Returns, Onward-trans, scan_content_goes, poll_index_goes, Onward, Go,
}

shrinks :
    (n n' n'' p p' p'' deadline : ℕ)
    → n < deadline
    → n ≤ n'
    → p' ≤ p
    → n' + p'' < n'' + p'
    → p'' ≤ p'
    → (deadline - n'') + p'' < (deadline - n) + p
shrinks n n' n'' p p' p'' deadline h a b c d = omega arith

at_least_one : (n : ℕ) → 0 < max 1 n
at_least_one n = omega arith

enough :
    (timeout n : ℕ) {p p' fuel : ℕ} → p' ≤ p → timeout + p < fuel → ((n + timeout) - n) + p' < fuel
enough timeout n h h' = omega arith

less : {a b n : ℕ} → a < b → b < suc n → a < n
less h h' = omega arith

module _ (B : Backend) (laws : Advances B) where
  open laws use {pending}

  -- The wait returns with the session still open.
  abbrev pub Open : {A : Type 0} → A → Shooting B → Type 0
  Open a z = z.session.closed ≡ false

  pump_on :
      (timeout_ms : ℕ) (z : Shooting B)
      → 0 < timeout_ms
      → z.session.closed ≡ false
      → Returns
          (λ events z'.
            (now B z.session + pending z'.session.backend
              < now B z'.session + pending z.session.backend)
            × (pending z'.session.backend ≤ pending z.session.backend)
            × (z'.session.closed ≡ false))
          (lift (pump B timeout_ms) z)
  unfolding pump Returns
  pump_on timeout_ms z ht hc =
      lift-Returns
        (λ events c'.
          (now B z.session + pending c'.backend < now B c' + pending z.session.backend)
          × (pending c'.backend ≤ pending z.session.backend)
          × (c'.closed ≡ false))
        (pump B timeout_ms) z
        (either-Returns _ z.session.closed _ _ (λ closed. absurd (not_both closed hc))
          (λ _.
            bind-Returns _ _ _ (call (B.poll_events timeout_ms) z.session)
              (call-Returns _ (B.poll_events timeout_ms) z.session
                (laws.poll_moves timeout_ms z.session.backend ht))
              (λ events c' h. (h.0.0, h.0.1, h.1 ∙ hc))))

  abbrev emptied : Shooting B → Shooting B
  emptied z = record z { session = record (z.session) { op_events = [] } }

  capabilities_goes :
      (z : Shooting B) → z.session.closed ≡ false → Returns (Go B laws z) (lift (capabilities B) z)
  unfolding capabilities Returns
  capabilities_goes z hc =
      lift-Returns (λ caps c'. Onward B laws z.session c') (capabilities B) z
        (either-Returns _ z.session.closed _ _ (λ closed. absurd (not_both closed hc))
          (λ _.
            weaken _ _ (call B.session_capabilities z.session)
              (call-Returns _ B.session_capabilities z.session
                (laws.session_capabilities_keeps z.session.backend))
              (λ caps c' h. (h.0.0, h.0.1, h.1 ∙ hc))))

  raise_same :
      (b : Bool) (e : Error) (z : Shooting B)
      → is_exhausted e ≡ false
      → Returns (λ _ z'. z' ≡ z) (raise_when b e z)
  unfolding Returns
  raise_same true e z h = h
  raise_same false e z h = refl

  pick_ends :
      (found : Option CapturedContent) (z : Shooting B)
      (other : Result Error (Option CapturedContent) × Shooting B)
      → z.session.closed ≡ false
      → Returns Open other
      → Returns Open (elim found as (λ _. Result Error (Option CapturedContent) × Shooting B) [
        | some content ↦ (ok (some content), z)
        | none ↦ other
      ])
  unfolding Returns
  pick_ends (some content) z other hc h = hc
  pick_ends none z other hc h = h

  content_loop_ends :
      (fuel next_poll_ms deadline : ℕ) (z : Shooting B)
      → ahead B laws deadline z.session < fuel
      → z.session.closed ≡ false
      → Returns Open (content_loop B fuel next_poll_ms deadline z)
  unfolding content_loop Returns
  content_loop_ends zero next_poll_ms deadline z hf hc = absurd (no_fuel hf)
  content_loop_ends (suc fuel) next_poll_ms deadline z hf hc =
      either-Returns Open (ltb (now B z.session) deadline) _ _
        (λ early.
          bind-Returns (Go B laws z) Open _ (scan_content B z.session.op_events (emptied z))
            (scan_content_goes B laws z.session.op_events (emptied z) hc)
            (λ _ z2 h2. pick_ends z2.capture.content z2 _ h2.2 (
              either-Returns Open (ltb (now B z2.session) next_poll_ms) _ _
                (λ _.
                  bind-Returns _ Open _ (lift (pump B _) z2) (pump_on _ z2 (at_least_one _) h2.2)
                    (λ _ z3 h3.
                      content_loop_ends fuel next_poll_ms deadline z3
                        (less (shrinks _ _ _ _ _ _ deadline (ltb→lt _ _ early) h2.0 h2.1 h3.0 h3.1)
                          hf)
                        h3.2))
                (λ _.
                  bind-Returns (Go B laws z2) Open _ (poll_index B z2)
                    (poll_index_goes B laws z2 h2.2)
                    (λ found z3 h3. pick_ends found z3 _ h3.2 (
                      bind-Returns _ Open _ (lift (pump B _) z3)
                        (pump_on _ z3 (at_least_one _) h3.2)
                        (λ _ z4 h4.
                          content_loop_ends fuel (now B z2.session + 150) deadline z4
                            (less
                              (shrinks _ _ _ _ _ _ deadline (ltb→lt _ _ early)
                                (Onward-trans B laws z.session z2.session z3.session h2 h3).0
                                (Onward-trans B laws z.session z2.session z3.session h2 h3).1 h4.0
                                h4.1)
                              hf)
                            h4.2)))))))
        (λ _. hc)

  await_content_ends :
      (fuel timeout_ms : ℕ) (z : Shooting B)
      → z.session.closed ≡ false
      → timeout_ms + pending z.session.backend < fuel
      → Returns Open (await_content B fuel timeout_ms z)
  unfolding await_content capabilities Returns
  await_content_ends fuel timeout_ms z hc hf = pick_ends z.capture.content z _ hc (
      bind-Returns (Go B laws z) Open _ (lift (capabilities B) z) (capabilities_goes z hc)
        (λ caps z1 h1.
          bind-Returns (λ _ z2. z2 ≡ z1) Open _
            (raise_when (not caps.content_index) (unsupported "content_index") z1)
            (raise_same (not caps.content_index) (unsupported "content_index") z1 refl)
            (λ _ z2 e.
              content_loop_ends fuel 0 (now B z2.session + timeout_ms) z2
                (rw e (enough timeout_ms (now B z1.session) h1.1 hf)) (rw e h1.2))))

  -- On an open session over a backend that keeps the laws of waiting: with more fuel than its
  -- timeout and the pending deliveries, `wait_for_content` does not run out of fuel. It returns a
  -- content, or raises an error of the program, of which one is that the time has run out.
  pub wait_for_content-ends :
      (fuel timeout_ms : ℕ) (z : Shooting B)
      → z.session.closed ≡ false
      → timeout_ms + pending z.session.backend < fuel
      → Returns Open (wait_for_content B fuel timeout_ms z)
  unfolding wait_for_content Returns
  wait_for_content-ends fuel timeout_ms z hc hf =
      bind-Returns Open Open _ (await_content B fuel timeout_ms z)
        (await_content_ends fuel timeout_ms z hc hf) (λ found z' h. or_timeout_ends found z' h)
    where
      or_timeout_ends :
          (found : Option CapturedContent) (z' : Shooting B)
          → z'.session.closed ≡ false
          → Returns Open (or_timeout B found z')
      or_timeout_ends none z' h = refl
      or_timeout_ends (some content) z' h = h
