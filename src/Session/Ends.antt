-- ===== src/Session/Ends.antt =====
-- The waiting loops of autofocus (src/crsdkpy/session.py) end: a loop of the model that gets as
-- much fuel as there are milliseconds and pending deliveries ahead does not run out of it.
use cr_sdkpy.Base.{
  ℕ, zero, suc, ◌+◌, ◌-◌, ◌≤◌, ◌<◌, Bool, true, false, not, List, [], ◌∷◌, leb, if◌then◌else◌,
  Result, ok, err, ◌≡◌, refl, ◌∙◌, arith,
}
use cr_sdkpy.Enums.{FocusState, is_focused}
use cr_sdkpy.Contract.{Backend, Advances, Returns}
use cr_sdkpy.Events.{Error, Action, pure, bind, unsupported}
use cr_sdkpy.Session.{Session, Live, now, call, pump}
use cr_sdkpy.Session.Focus.{
  FocusResult, Verdict, latest_is, confirms, scan_focus, spaced_read, round_verdict, gate_wait,
  final_read, unless_confirmed, next_round, gate_loop, gate_from, focus_gate, release_loop,
  release_half_press, on_unsupported,
}

pub bind-Returns :
    {S A C : Type 0} (G : A → S → Type 0) (H : C → S → Type 0) (f : A → Action S C)
    (x : Result Error A × S)
    → Returns G x
    → ((a : A) (s : S) → G a s → Returns H (f a s))
    → Returns H (bind f x)
unfolding Returns
bind-Returns G H f (ok a, s) g h = h a s g
bind-Returns G H f (err e, s) g h = g

pub weaken :
    {S A : Type 0} (G H : A → S → Type 0) (x : Result Error A × S)
    → Returns G x
    → ((a : A) (s : S) → G a s → H a s)
    → Returns H x
unfolding Returns
weaken G H (ok a, s) g h = h a s g
weaken G H (err e, s) g h = g

pub not_both : {b : Bool} → b ≡ true → b ≡ false → ⊥
not_both h h' = grind arith

pub no_fuel : {n : ℕ} → n < 0 → ⊥
no_fuel h = omega arith

pub bind_at :
    {S A C : Type 0} (G : A → S → Type 0) (H : C → S → Type 0) (f : A → Action S C)
    (x : Result Error A × S)
    → Returns G x
    → ((a : A) → G a x.1 → Returns H (f a x.1))
    → Returns H (bind f x)
unfolding Returns
bind_at G H f (ok a, s) g h = h a g
bind_at G H f (err e, s) g h = g

if_Returns :
    {S A : Type 0} (G : A → S → Type 0) (b : Bool) (m n : Action S A) (s : S)
    → Returns G (m s)
    → Returns G (n s)
    → Returns G ((if b then m else n) s)
if_Returns G true m n s gm gn = gm
if_Returns G false m n s gm gn = gn

later :
    {deadline now now' fuel after : ℕ}
    → now' < deadline
    → now ≤ now'
    → after ≡ now' + 50
    → deadline - now < suc fuel
    → deadline - after < fuel
later h h' e hf = omega arith

pub either-Returns :
    {S A : Type 0} (G : A → S → Type 0) (b : Bool) (x y : Result Error A × S)
    → (b ≡ true → Returns G x)
    → (b ≡ false → Returns G y)
    → Returns G (if b then x else y)
either-Returns G true x y gx gy = gx refl
either-Returns G false x y gx gy = gy refl

pub call-Returns :
    {S A : Type 0} (G : A → S → Type 0) (m : Action S A) (c : Session S)
    → Returns G (m c.backend)
    → Returns (λ a c'. G a c'.backend × (c'.closed ≡ c.closed)) (call m c)
unfolding Returns
call-Returns {S} {A} G m c g = wrap (m c.backend) g
  where
    wrap :
        (x : Result Error A × S)
        → Returns G x
        → Returns
            (λ a c'. G a c'.backend × (c'.closed ≡ c.closed))
            (let (r, s) = x in (r, record c { backend = s }))
    wrap (ok a, s) h = (h, refl)
    wrap (err e, s) h = h

gain :
    (n n' p p' deadline : ℕ)
    → n + p' < n' + p
    → p' ≤ p
    → n < deadline
    → (deadline - n') + p' < (deadline - n) + p
gain n n' p p' deadline h hp hd = omega arith

keep : (n n' p p' deadline : ℕ) → n ≤ n' → p' ≤ p → (deadline - n') + p' ≤ (deadline - n) + p
keep n n' p p' deadline h hp = omega arith

pub below : {a b c fuel : ℕ} → a ≤ b → b < c → c < suc fuel → a < fuel
below h h' hf = omega arith

pub leb-false : {a b : ℕ} → leb a b ≡ false → b < a
leb-false h = ground arith

gate_wait-positive :
    (start deadline : ℕ) (points : List ℕ) (at : ℕ) → 0 < gate_wait start deadline points at
unfolding gate_wait
gate_wait-positive start deadline [] at = omega arith
gate_wait-positive start deadline (point ∷ points) at = omega arith

module _ (B : Backend) (laws : Advances B) where
  open laws use {pending}

  -- What a state has ahead of it before the deadline.
  abbrev pub ahead : ℕ → Live B → ℕ
  ahead deadline c = (deadline - now B c) + pending c.backend

  -- A step that does not lose ground, on a session that stays open.
  abbrev Keeping : {A : Type 0} → ℕ → Live B → A → Live B → Type 0
  Keeping deadline c a c' = (ahead deadline c' ≤ ahead deadline c) × (c'.closed ≡ false)

  abbrev pub Gaining : {A : Type 0} → ℕ → Live B → A → Live B → Type 0
  Gaining deadline c a c' = (ahead deadline c' < ahead deadline c) × (c'.closed ≡ false)

  abbrev pub Anything : {A : Type 0} → A → Live B → Type 0
  Anything a c' = Unit {0}

  abbrev pub EndsOpen : {A : Type 0} → A → Live B → Type 0
  EndsOpen a c' = c'.closed ≡ false

  pub pump_gains :
      (timeout_ms deadline : ℕ) (c : Live B)
      → 0 < timeout_ms
      → now B c < deadline
      → c.closed ≡ false
      → Returns (Gaining deadline c) (pump B timeout_ms c)
  unfolding pump Returns
  pump_gains timeout_ms deadline c ht hd hc =
      either-Returns (Gaining deadline c) c.closed _ _ (λ closed. absurd (not_both closed hc))
        (λ _.
          bind-Returns _ (Gaining deadline c) _ (call (B.poll_events timeout_ms) c)
            (call-Returns _ (B.poll_events timeout_ms) c (laws.poll_moves timeout_ms c.backend ht))
            (λ events c' h. (gain _ _ _ _ deadline h.0.0 h.0.1 hd, h.1 ∙ hc)))

  read_keeps :
      (deadline : ℕ) (c : Live B)
      → c.closed ≡ false
      → Returns (Keeping deadline c) (call B.focus_state c)
  read_keeps deadline c hc =
      weaken _ (Keeping deadline c) (call B.focus_state c)
        (call-Returns _ B.focus_state c (laws.focus_state_keeps c.backend))
        (λ state c' h. (keep _ _ _ _ deadline h.0.0 h.0.1, h.1 ∙ hc))

  spaced_read_keeps_ahead :
      (start deadline : ℕ) (points : List ℕ) (latest : FocusState) (c : Live B)
      → c.closed ≡ false
      → Returns (Keeping deadline c) (spaced_read B start points latest c)
  unfolding spaced_read Returns
  spaced_read_keeps_ahead start deadline [] latest c hc = (omega arith, hc)
  spaced_read_keeps_ahead start deadline (point ∷ points) latest c hc =
      either-Returns (Keeping deadline c) (leb (start + point) (now B c)) _ _
        (λ _.
          bind-Returns _ (Keeping deadline c) _ (call B.focus_state c) (read_keeps deadline c hc)
            (λ state c' h. h))
        (λ _. (omega arith, hc))

  unless_confirmed_keeps_ahead :
      (start deadline : ℕ) (points : List ℕ) (v : Verdict) (c : Live B)
      → c.closed ≡ false
      → Returns (Keeping deadline c) (unless_confirmed B points (spaced_read B start points) v c)
  unfolding unless_confirmed Returns
  unless_confirmed_keeps_ahead start deadline points (confirms r) c hc = (omega arith, hc)
  unless_confirmed_keeps_ahead start deadline points (latest_is state) c hc =
      spaced_read_keeps_ahead start deadline points state c hc

  round_verdict_keeps_ahead :
      (start deadline : ℕ) (points : List ℕ) (latest : FocusState) (c : Live B)
      → c.closed ≡ false
      → Returns (Keeping deadline c) (round_verdict B start points latest c)
  unfolding round_verdict
  round_verdict_keeps_ahead start deadline points latest c hc =
      unless_confirmed_keeps_ahead start deadline points (scan_focus start latest c.op_events)
        (record c { op_events = [] }) hc

  next_round_ends :
      (rest : List ℕ → FocusState → Action (Live B) FocusResult) (points : List ℕ) (v : Verdict)
      (c : Live B)
      → c.closed ≡ false
      → ((points : List ℕ) (state : FocusState) → Returns EndsOpen (rest points state c))
      → Returns EndsOpen (next_round B rest points v c)
  unfolding next_round Returns
  next_round_ends rest points (confirms r) c hc h = hc
  next_round_ends rest points (latest_is state) c hc h = h points state

  final_read_ends :
      (start : ℕ) (latest : FocusState) (c : Live B)
      → c.closed ≡ false
      → Returns EndsOpen (final_read B start latest c)
  unfolding final_read Returns
  final_read_ends start latest c hc =
      bind-Returns _ EndsOpen _ (call B.focus_state c) (read_keeps 0 c hc) (λ final c' h. h.1)

  gate_loop_ends :
      (fuel start deadline : ℕ) (points : List ℕ) (latest : FocusState) (c : Live B)
      → ahead deadline c < fuel
      → c.closed ≡ false
      → Returns EndsOpen (gate_loop B fuel start deadline points latest c)
  unfolding gate_loop
  gate_loop_ends zero start deadline points latest c hf hc = absurd (no_fuel hf)
  gate_loop_ends (suc fuel) start deadline points latest c hf hc =
      either-Returns EndsOpen (leb deadline (now B c)) _ _ (λ _. final_read_ends start latest c hc)
        (λ early.
          bind-Returns _ EndsOpen _ (pump B (gate_wait start deadline points (now B c)) c)
            (pump_gains _ deadline c (gate_wait-positive start deadline points (now B c))
              (leb-false early) hc)
            (λ _ c1 h1.
              bind-Returns _ EndsOpen _ (round_verdict B start points latest c1)
                (round_verdict_keeps_ahead start deadline points latest c1 h1.1)
                (λ r c2 h2.
                  next_round_ends (gate_loop B fuel start deadline) r.0 r.1 c2 h2.1 (λ left state.
                    gate_loop_ends fuel start deadline left state c2 (below h2.0 h1.0 hf) h2.1))))

  gate_from_ends :
      (fuel start timeout_ms : ℕ) (immediate : FocusState) (c : Live B)
      → ahead (start + timeout_ms) c < fuel
      → c.closed ≡ false
      → Returns EndsOpen (gate_from B fuel start timeout_ms immediate c)
  unfolding gate_from Returns
  gate_from_ends fuel start timeout_ms immediate c hf hc =
      either-Returns EndsOpen (is_focused immediate) _ _ (λ _. hc)
        (λ _. gate_loop_ends fuel start _ _ immediate c hf hc)

  -- The state in which the gate begins to wait: the stage is asserted and read once.
  abbrev pub gate_start : Live B → Live B
  gate_start c = (call B.focus_state (call (B.set_half_press true) c).1).1

  -- On an open session over a backend that keeps the laws of waiting: a gate with more fuel than
  -- there are milliseconds to its deadline and pending deliveries, counted in the state in which
  -- it begins to wait, does not run out of fuel. It returns on a session that is still open, or
  -- raises an error of the program.
  pub focus_gate-ends :
      (fuel timeout_ms : ℕ) (c : Live B)
      → c.closed ≡ false
      → ahead (now B c + timeout_ms) (gate_start c) < fuel
      → Returns EndsOpen (focus_gate B fuel timeout_ms c)
  unfolding focus_gate
  focus_gate-ends fuel timeout_ms c hc hf =
      bind_at _ EndsOpen _ (call (B.set_half_press true) c)
        (call-Returns _ (B.set_half_press true) c (laws.set_half_press_ends true c.backend))
        (λ _ h1.
          bind_at _ EndsOpen _ (call B.focus_state (call (B.set_half_press true) c).1)
            (call-Returns _ B.focus_state _ (laws.focus_state_keeps _))
            (λ immediate h2.
              gate_from_ends fuel (now B c) timeout_ms immediate (gate_start c) hf
                (h2.1 ∙ (h1.1 ∙ hc))))

  release_loop_ends :
      (fuel deadline : ℕ) (c : Live B)
      → deadline - now B c < fuel
      → Returns Anything (release_loop B fuel deadline c)
  unfolding release_loop Returns
  release_loop_ends zero deadline c hf = absurd (no_fuel hf)
  release_loop_ends (suc fuel) deadline c hf =
      bind-Returns _ Anything _ (call B.get_half_press c)
        (call-Returns _ B.get_half_press c (laws.get_half_press_keeps c.backend))
        (λ engaged c1 h.
          either-Returns Anything (not engaged) _ _ (λ _. tt)
            (λ _.
              either-Returns Anything (leb deadline (now B c1)) _ _ (λ _. tt)
                (λ early.
                  release_loop_ends fuel deadline _
                    (later (leb-false early) h.0.0 (laws.sleep_moves 50 c1.backend) hf))))

  on_unsupported-Returns :
      {A : Type 0} (a : A) (x : Result Error A × Live B)
      → Returns Anything x
      → Returns Anything (on_unsupported a x)
  unfolding Returns
  on_unsupported-Returns a (ok b, s) h = tt
  on_unsupported-Returns a (err (unsupported capability), s) h = tt
  on_unsupported-Returns a (err e, s) h = h

  -- Over a backend that keeps the laws of waiting, 1501 units of fuel are enough for
  -- `_release_half_press`, in every state: it says whether it has seen the stage released, or
  -- raises an error of the program.
  pub release_half_press-ends :
      (fuel : ℕ) (c : Live B) → 1500 < fuel → Returns Anything (release_half_press B fuel c)
  unfolding release_half_press Returns
  release_half_press-ends fuel c hf = on_unsupported-Returns true _ (
      bind-Returns _ Anything _ (call B.get_half_press c)
        (call-Returns _ B.get_half_press c (laws.get_half_press_keeps c.backend))
        (λ engaged c1 _. if_Returns Anything (not engaged) (pure true) _ c1 tt (
          bind-Returns _ Anything _ (call (B.set_half_press false) c1)
            (call-Returns _ (B.set_half_press false) c1 (laws.set_half_press_ends false c1.backend))
            (λ _ c2 _. release_loop_ends fuel (now B c2 + 1500) c2 (omega arith)))))
