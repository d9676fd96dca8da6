-- ===== src/Session/Authorise.antt =====
-- The rule of `autofocus_and_capture` (src/crsdkpy/session.py): the camera gets no command unless
-- the focus gate has confirmed.
use cr_sdkpy.Base.{
  ℕ, Bool, true, false, not, if◌then◌else◌, Result, ok, err, none, ◌≡◌, refl, ◌⊎◌, inl, inr,
}
use mathlib.Core.Path.{subst}
use cr_sdkpy.Enums.{ConnectionState, CaptureState, is_focused}
use cr_sdkpy.Contract.{Backend}
use cr_sdkpy.Events.{
  Error, Action, pure, raise_when, bind, ◌>>=◌, ◌>>◌, unsupported, session_closed,
}
use cr_sdkpy.Capabilities.{SessionCapabilities}
use cr_sdkpy.Session.{Live, call, capabilities, check_usable, usable_or_raise}
use cr_sdkpy.Session.Focus.{FocusResult, clear_stale_half_press, focus_gate, release_half_press}
use cr_sdkpy.Session.Shots.{Capture, content_baseline}
use cr_sdkpy.Session.Release.{
  refuse_shot, release_shot, gated_shot, autofocus_and_capture, start_shot,
}
use cr_sdkpy.Session.Keeps.{
  Keeps, bind_keeps, either_keeps, then-Keeps, if_Keeps, Inside, call-Keeps, IsQuiet,
}
use cr_sdkpy.Session.Gate.{focus_gate_keeps, clear_stale_half_press_keeps, release_half_press_keeps}
use cr_sdkpy.Session.Confirm.{Yields, IsHonest, focus_gate-IsHonest}

-- The steps by which a call that began on `c` came to its outcome `x`: up to the gate nothing broke
-- the predicate, the gate that the call ran confirmed, and the rest of the call is the release.
pub record Confirmed (B : Backend) (Q : B.State → Type 0) (fuel focus_ms dwell_ms timeout_ms : ℕ)
    (c : Live B) (x : Result Error Capture × Live B) : Type 0 where
  pub usable : Live B
  pub described : Live B
  pub requested : Live B
  pub cleared : Live B
  pub after : Live B
  pub caps : SessionCapabilities
  pub capture : Capture
  pub result : FocusResult
  pub is_usable : check_usable B c ≡ (ok tt, usable)
  pub describes : capabilities B usable ≡ (ok caps, described)
  pub requests : start_shot B CaptureState.focusing described ≡ (ok capture, requested)
  pub clears : clear_stale_half_press B requested ≡ (ok tt, cleared)
  pub untouched : Q cleared.backend
  pub runs : focus_gate B fuel focus_ms cleared ≡ (ok result, after)
  pub still : Q after.backend
  pub is_confirmed : result.confirmed ≡ true
  pub is_in_focus : is_focused result.state ≡ true
  pub releases : x ≡ release_shot B fuel dwell_ms timeout_ms result capture after

bind_or :
    {S A C : Type 0} (P : S → Type 0) (R : Result Error C × S → Type 0) (f : A → Action S C)
    (x : Result Error A × S)
    → ((a : A) (s : S) → x ≡ (ok a, s) → P s → P (f a s).1 ⊎ R (f a s))
    → P x.1
    → P (bind f x).1 ⊎ R (bind f x)
bind_or P R f (ok a, s) h p = h a s refl p
bind_or P R f (err e, s) h p = inl p

raise_or :
    {S A : Type 0} (P : S → Type 0) (R : Result Error A × S → Type 0) (b : Bool) (e : Error)
    (m : Action S A) (s : S)
    → P (m s).1 ⊎ R (m s)
    → P s
    → P ((raise_when b e >> m) s).1 ⊎ R ((raise_when b e >> m) s)
raise_or P R true e m s h p = inl p
raise_or P R false e m s h p = h

raise_keeps :
    {S A : Type 0} (P : S → Type 0) (b : Bool) (e : Error) (m : Action S A) (s : S)
    → P (m s).1
    → P s
    → P ((raise_when b e >> m) s).1
raise_keeps P true e m s h p = p
raise_keeps P false e m s h p = h

if_or :
    {S A : Type 0} (P : S → Type 0) (R : Result Error A × S → Type 0) (b : Bool) (m n : Action S A)
    (s : S)
    → (b ≡ true → R (m s))
    → P (n s).1
    → P ((if b then m else n) s).1 ⊎ R ((if b then m else n) s)
if_or P R true m n s r p = inr (r refl)
if_or P R false m n s r p = inl p

module _ (B : Backend) (Q : B.State → Type 0) (quiet : IsQuiet B Q) where
  usable_or_raise-Keeps : (state : ConnectionState) → Keeps (Inside Q) (usable_or_raise B state)
  usable_or_raise-Keeps ConnectionState.connected c p = p
  usable_or_raise-Keeps ConnectionState.reconnecting c p = p
  usable_or_raise-Keeps ConnectionState.connecting c p = p
  usable_or_raise-Keeps ConnectionState.closing c p = p
  usable_or_raise-Keeps ConnectionState.closed c p = p

  check_usable-Keeps : Keeps (Inside Q) (check_usable B)
  unfolding check_usable
  check_usable-Keeps c p =
      raise_keeps (Inside Q) c.closed session_closed _ c
        (then-Keeps (Inside Q) (call B.connection_state) _
          (call-Keeps Q B.connection_state quiet.connects)
          (λ state c' p'. usable_or_raise-Keeps state _ p') c p)
        p

  capabilities-Keeps : Keeps (Inside Q) (capabilities B)
  unfolding capabilities
  capabilities-Keeps c p = either_keeps (Inside Q) c.closed _ _ p (quiet.describes c.backend p)

  content_baseline-Keeps : Keeps (Inside Q) (content_baseline B)
  unfolding content_baseline
  content_baseline-Keeps = then-Keeps (Inside Q) (capabilities B) _ capabilities-Keeps (λ caps.
      if_Keeps (Inside Q) (not caps.content_index) (pure none) _ (λ c p. p)
        (then-Keeps (Inside Q) (call B.latest_content) _
          (call-Keeps Q B.latest_content quiet.reads_latest) (λ latest c p. p)))

  start_shot-Keeps : (state : CaptureState) → Keeps (Inside Q) (start_shot B state)
  start_shot-Keeps state c p =
      bind_keeps (Inside Q) _ (content_baseline B c) (λ baseline c' p'. p')
        (content_baseline-Keeps c p)

  refuse_shot-Keeps :
      (fuel : ℕ) (raises : Bool) (focus : FocusResult) (k : Capture)
      → Keeps (Inside Q) (refuse_shot B fuel raises focus k)
  unfolding refuse_shot
  refuse_shot-Keeps fuel raises focus k c p =
      then-Keeps (Inside Q) (release_half_press B fuel) _ (release_half_press_keeps B Q quiet fuel)
        (λ released. then-Keeps (Inside Q) (raise_when raises _) _ (λ c' p'. p') (λ _ c' p'. p')) c
        p

  -- What a confirmed gate has behind it, once the capture was begun.
  record Gated (fuel focus_ms dwell_ms timeout_ms : ℕ) (k : Capture) (requested : Live B)
      (x : Result Error Capture × Live B) : Type 0 where
    cleared : Live B
    after : Live B
    result : FocusResult
    clears : clear_stale_half_press B requested ≡ (ok tt, cleared)
    untouched : Q cleared.backend
    runs : focus_gate B fuel focus_ms cleared ≡ (ok result, after)
    still : Q after.backend
    is_confirmed : result.confirmed ≡ true
    releases : x ≡ release_shot B fuel dwell_ms timeout_ms result k after

  gate_is_honest :
      (fuel focus_ms : ℕ) (before after : Live B) (result : FocusResult)
      → focus_gate B fuel focus_ms before ≡ (ok result, after)
      → result.confirmed ≡ true
      → is_focused result.state ≡ true
  unfolding Yields IsHonest
  gate_is_honest fuel focus_ms before after result runs h =
      subst (Yields IsHonest) runs (focus_gate-IsHonest B fuel focus_ms before) h

  gated_shot_authorised :
      (fuel focus_ms dwell_ms timeout_ms : ℕ) (raises : Bool) (k : Capture) (c : Live B)
      → Q c.backend
      → Q (gated_shot B fuel focus_ms dwell_ms timeout_ms raises k c).1.backend
        ⊎ Gated fuel focus_ms dwell_ms timeout_ms k c
            (gated_shot B fuel focus_ms dwell_ms timeout_ms raises k c)
  unfolding gated_shot
  gated_shot_authorised fuel focus_ms dwell_ms timeout_ms raises k c p =
      bind_or (Inside Q) (Gated fuel focus_ms dwell_ms timeout_ms k c) _
        (clear_stale_half_press B c)
        (λ _ c1 clears p1.
          bind_or (Inside Q) (Gated fuel focus_ms dwell_ms timeout_ms k c) _
            (focus_gate B fuel focus_ms c1)
            (λ result c2 runs p2.
              if_or (Inside Q) (Gated fuel focus_ms dwell_ms timeout_ms k c) result.confirmed _ _ c2
                (λ confirmed. record {
                  cleared = c1;
                  after = c2;
                  result = result;
                  clears = clears;
                  untouched = p1;
                  runs = runs;
                  still = p2;
                  is_confirmed = confirmed;
                  releases = refl;
                })
                (refuse_shot-Keeps fuel raises result k c2 p2))
            (focus_gate_keeps B Q quiet fuel focus_ms c1 p1))
        (clear_stale_half_press_keeps B Q quiet c p)

  step_by_step :
      (fuel focus_ms dwell_ms timeout_ms : ℕ) (c c1 c2 c3 : Live B) (caps : SessionCapabilities)
      (k : Capture) (x : Result Error Capture × Live B)
      → check_usable B c ≡ (ok tt, c1)
      → capabilities B c1 ≡ (ok caps, c2)
      → start_shot B CaptureState.focusing c2 ≡ (ok k, c3)
      → Q x.1.backend ⊎ Gated fuel focus_ms dwell_ms timeout_ms k c3 x
      → Q x.1.backend ⊎ Confirmed B Q fuel focus_ms dwell_ms timeout_ms c x
  step_by_step fuel focus_ms dwell_ms timeout_ms c c1 c2 c3 caps k x h1 h2 h3 (inl p) = inl p
  step_by_step fuel focus_ms dwell_ms timeout_ms c c1 c2 c3 caps k x h1 h2 h3 (inr g) =
      inr (record {
        usable = c1;
        described = c2;
        requested = c3;
        cleared = g.cleared;
        after = g.after;
        caps = caps;
        capture = k;
        result = g.result;
        is_usable = h1;
        describes = h2;
        requests = h3;
        clears = g.clears;
        untouched = g.untouched;
        runs = g.runs;
        still = g.still;
        is_confirmed = g.is_confirmed;
        is_in_focus = gate_is_honest fuel focus_ms g.cleared g.after g.result g.runs g.is_confirmed;
        releases = g.releases;
      })

  -- For a predicate on the backend's state that every backend operation of the gate keeps: when
  -- `autofocus_and_capture` starts where it holds, then it still holds behind the call, whatever
  -- the outcome, or else the call was authorised. That is: it found the session usable, read its
  -- capabilities, began a capture and released a stale half-press, and the predicate held; the
  -- focus gate that it ran from there confirmed with a focused state, and the predicate still
  -- held; and what the call then did is the release of that capture. So a command, the one
  -- operation that need not keep the predicate, is sent behind a confirmation only.
  pub autofocus_and_capture-authorised :
      (fuel focus_ms dwell_ms timeout_ms : ℕ) (raises : Bool) (c : Live B)
      → Q c.backend
      → Q (autofocus_and_capture B fuel focus_ms dwell_ms timeout_ms raises c).1.backend
        ⊎ Confirmed B Q fuel focus_ms dwell_ms timeout_ms c
            (autofocus_and_capture B fuel focus_ms dwell_ms timeout_ms raises c)
  unfolding autofocus_and_capture
  autofocus_and_capture-authorised fuel focus_ms dwell_ms timeout_ms raises c p =
      bind_or (Inside Q) Authorised _ (check_usable B c)
        (λ _ c1 h1 p1.
          bind_or (Inside Q) Authorised _ (capabilities B c1)
            (λ caps c2 h2 p2.
              raise_or (Inside Q) Authorised (not caps.still_capture) (unsupported "still_capture")
                (raise_when (not caps.autofocus_s1) (unsupported "autofocus_s1") >> shoot) c2
                (raise_or (Inside Q) Authorised (not caps.autofocus_s1) (unsupported "autofocus_s1")
                  shoot c2
                  (bind_or (Inside Q) Authorised _ (start_shot B CaptureState.focusing c2)
                    (λ k c3 h3 p3.
                      step_by_step fuel focus_ms dwell_ms timeout_ms c c1 c2 c3 caps k _ h1 h2 h3
                        (gated_shot_authorised fuel focus_ms dwell_ms timeout_ms raises k c3 p3))
                    (start_shot-Keeps CaptureState.focusing c2 p2))
                  p2)
                p2)
            (capabilities-Keeps c1 p1))
        (check_usable-Keeps c p)
    where
      Authorised : Result Error Capture × Live B → Type 0
      Authorised x = Confirmed B Q fuel focus_ms dwell_ms timeout_ms c x

      shoot : Action (Live B) Capture
      shoot =
          start_shot B CaptureState.focusing
          >>= gated_shot B fuel focus_ms dwell_ms timeout_ms raises
