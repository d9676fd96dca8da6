-- ===== src/Host/Running.antt =====
-- src/crsdkpy/backend/host.py: where a call returns, the process is there still.
use cr_sdkpy.Base.{
  ℕ, zero, suc, ◌≡◌, ◌∙◌, ap, arith, true, not, Option, none, some, [], ◌++◌, ◌==◌, nat_identity,
  Result, ok, err,
}
use cr_sdkpy.Base.Int.{ℤ}
use cr_sdkpy.Events.{Error, Action, camera_connection}
use cr_sdkpy.Ipc.{Frame, Stream, Wire, encode, read_frame}
use cr_sdkpy.Session.Outcomes.{Outcome, bind-Outcome, either-Outcome, map-Outcome}
use cr_sdkpy.Host.Wire.{Arguments, request_bytes, msg_event, msg_request, msg_response}
use cr_sdkpy.Host.Transport.{
  Platform, Host, next_id, next_request_id, unless_ended, require_process, write, frame_or_die,
  read_frame_or_die, accept_response, await_response, call_ex, call,
}
use cr_sdkpy.Host.Replies.{wire-Outcome, Accepted, accept_response-Accepted}
use cr_sdkpy.Host.Sessions.{on_callback_timeout, retry_loop}

module _ (P : Platform) where
  -- Where a call returns, the backend holds a process.
  abbrev pub Runs : {A : Type 0} → A → Host P → Type 0
  Runs a s = s.running ≡ true

  unless_ended-Runs :
      (code : Option ℤ) (s : Host P) → s.running ≡ true → Outcome Runs (unless_ended P code s)
  unfolding Outcome
  unless_ended-Runs none s h = h
  unless_ended-Runs (some code) s h = tt

  require_process-Runs : (s : Host P) → Outcome Runs (require_process P s)
  unfolding require_process Outcome
  require_process-Runs s =
      either-Outcome Runs (not s.running) _ _ (λ stopped. tt)
        (λ runs.
          unless_ended-Runs (P.poll s.world).0 (record s { world = (P.poll s.world).1 })
            (ground (arith, runs)))

  frame_or_die-Runs :
      (r : Wire (Option Frame × Stream)) (s : Host P)
      → s.running ≡ true
      → Outcome Runs (frame_or_die P r s)
  unfolding frame_or_die Outcome
  frame_or_die-Runs (err e) s h = tt
  frame_or_die-Runs (ok (none, rest)) s h = tt
  frame_or_die-Runs (ok (some frame, rest)) s h = h

  read_frame_or_die-Runs : (s : Host P) → Outcome Runs (read_frame_or_die P s)
  unfolding read_frame_or_die
  read_frame_or_die-Runs s =
      bind-Outcome Runs Runs _ (require_process P s) (require_process-Runs s)
        (λ _ s1 runs. frame_or_die-Runs (read_frame (P.pipe s1.world)) s1 runs)

  await_response-Runs : (fuel id : ℕ) (s : Host P) → Outcome Runs (await_response P fuel id s)
  unfolding await_response Outcome
  await_response-Runs zero id s = tt
  await_response-Runs (suc fuel) id s =
      bind-Outcome Runs Runs _ (read_frame_or_die P s) (read_frame_or_die-Runs s) (λ frame s1 runs.
        either-Outcome Runs (frame.message_type == msg_event) _ _
          (λ _. await_response-Runs fuel id s1)
          (λ _.
            either-Outcome Runs (not (frame.message_type == msg_response)) _ _ (λ _. tt)
              (λ _.
                map-Outcome (Accepted P id frame s1) Runs (accept_response P id frame s1)
                  (accept_response-Accepted P id frame s1)
                  (λ reply s2 a. ap (λ t. t.running) a.0 ∙ runs))))

  anything : {A : Type 0} (x : Result Error A × Host P) → Outcome (λ a s'. Unit {0}) x
  unfolding Outcome
  anything (ok a, s) = tt
  anything (err e, s) = tt

  call_ex-Runs :
      (fuel op : ℕ) (arguments : Arguments) (s : Host P)
      → Outcome Runs (call_ex P fuel op arguments s)
  unfolding call_ex next_request_id
  call_ex-Runs fuel op arguments s =
      let id = (next_id s.request_id).1 in
      wire-Outcome P Runs (encode msg_request id (request_bytes op arguments ++ arguments.extra) [])
        _ (next_request_id P s).1
        (λ payload _.
          bind-Outcome (λ a s'. Unit {0}) Runs _ (write P payload (next_request_id P s).1)
            (anything (write P payload (next_request_id P s).1))
            (λ _ s2 _. await_response-Runs fuel id s2))

  pub call-Runs :
      (fuel op : ℕ) (arguments : Arguments) (s : Host P) → Outcome Runs (call P fuel op arguments s)
  unfolding call Outcome
  call-Runs fuel op arguments s =
      bind-Outcome Runs Runs _ (call_ex P fuel op arguments s) (call_ex-Runs fuel op arguments s)
        (λ reply s1 runs. runs)

  on_callback_timeout-Runs :
      {A : Type 0} (other : Action (Host P) A) (x : Result Error A × Host P)
      → ((s : Host P) → Outcome Runs (other s))
      → Outcome Runs x
      → Outcome Runs (on_callback_timeout other x)
  unfolding Outcome
  on_callback_timeout-Runs other (ok a, s) h x = x
  on_callback_timeout-Runs other (err (camera_connection true), s) h x = h s
  on_callback_timeout-Runs other (err e, s) h x = tt

  pub retry_loop-Runs :
      {A : Type 0} (left : ℕ) (m : Action (Host P) A)
      → ((s : Host P) → Outcome Runs (m s))
      → (s : Host P) → Outcome Runs (retry_loop left m s)
  unfolding retry_loop
  retry_loop-Runs zero m h s = h s
  retry_loop-Runs (suc left) m h s =
      on_callback_timeout-Runs (retry_loop left m) (m s) (retry_loop-Runs left m h) (h s)
