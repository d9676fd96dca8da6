-- ===== src/Session/Confirm.antt =====
-- What a confirmation of the focus gate of src/crsdkpy/session.py says: a predicate on the
-- result of an operation, carried through the gate.
use cr_sdkpy.Base.{
  ℕ, zero, suc, ◌+◌, Bool, true, false, List, [], ◌∷◌, leb, if◌then◌else◌, Result, ok, err, ◌≡◌,
  inl, inr, Bool-cases, arith,
}
use cr_sdkpy.Base.Int.{ℤ}
use cr_sdkpy.Enums.{FocusState, FocusSource, is_focused}
use cr_sdkpy.Contract.{Backend}
use cr_sdkpy.Events.{Event, Error, Action, bind}
use cr_sdkpy.Session.{Live, now, call, pump}
use cr_sdkpy.Session.Focus.{
  FocusResult, Verdict, latest_is, confirms, confirmation, scan_focus, spaced_read, round_verdict,
  final_read, unless_confirmed, next_round, gate_loop, gate_from, focus_gate,
}

-- A predicate on what an operation returns, where it returns.
unfoldable pub Yields : {S A : Type 0} → (A → Type 0) → Result Error A × S → Type 0
Yields G (ok a, s) = G a
Yields G (err e, s) = Unit

bind-Yields :
    {S A C : Type 0} (G : A → Type 0) (H : C → Type 0) (f : A → Action S C) (x : Result Error A × S)
    → Yields G x
    → ((a : A) (s : S) → G a → Yields H (f a s))
    → Yields H (bind f x)
unfolding Yields
bind-Yields G H f (ok a, s) g h = h a s g
bind-Yields G H f (err e, s) g h = tt

any-Yields : {S A : Type 0} (x : Result Error A × S) → Yields (λ _. Unit {0}) x
unfolding Yields
any-Yields (ok a, s) = tt
any-Yields (err e, s) = tt

either-Yields :
    {S A : Type 0} (G : A → Type 0) (b : Bool) (x y : Result Error A × S)
    → Yields G x
    → Yields G y
    → Yields G (if b then x else y)
either-Yields G true x y gx gy = gx
either-Yields G false x y gx gy = gy

-- A confirmed result has a focused state.
unfoldable pub IsHonest : FocusResult → Type 0
IsHonest r = r.confirmed ≡ true → is_focused r.state ≡ true

IsHonestVerdict : Verdict → Type 0
IsHonestVerdict (confirms r) = IsHonest r
IsHonestVerdict (latest_is state) = Unit

confirmation-IsHonest :
    (state : FocusState) (elapsed : ℤ) (source : FocusSource)
    → is_focused state ≡ true
    → IsHonest (confirmation state elapsed source)
unfolding IsHonest
confirmation-IsHonest state elapsed source h _ = h

scan_focus-IsHonest :
    (start : ℕ) (latest : FocusState) (events : List Event)
    → IsHonestVerdict (scan_focus start latest events)
unfolding scan_focus IsHonestVerdict IsHonest
scan_focus-IsHonest start latest [] = tt
scan_focus-IsHonest start latest (Event.focus at state source raw ∷ events) =
    elim (Bool-cases (is_focused state)) [
      | inl h ↦ (rw h (λ _. h))
      | inr h ↦ (rw h (scan_focus-IsHonest start state events))
    ]
scan_focus-IsHonest start latest (Event.connection a b c d e ∷ events) =
    scan_focus-IsHonest start latest events
scan_focus-IsHonest start latest (Event.property_changed a b ∷ events) =
    scan_focus-IsHonest start latest events
scan_focus-IsHonest start latest (Event.capture a b ∷ events) =
    scan_focus-IsHonest start latest events
scan_focus-IsHonest start latest (Event.content a b c d ∷ events) =
    scan_focus-IsHonest start latest events
scan_focus-IsHonest start latest (Event.transfer a b c d e ∷ events) =
    scan_focus-IsHonest start latest events
scan_focus-IsHonest start latest (Event.recording a b ∷ events) =
    scan_focus-IsHonest start latest events
scan_focus-IsHonest start latest (Event.warning a b ∷ events) =
    scan_focus-IsHonest start latest events
scan_focus-IsHonest start latest (Event.unknown a b c ∷ events) =
    scan_focus-IsHonest start latest events

module _ (B : Backend) where
  final_read-IsHonest :
      (start : ℕ) (latest : FocusState) (c : Live B) → Yields IsHonest (final_read B start latest c)
  unfolding final_read Yields IsHonest
  final_read-IsHonest start latest c =
      bind-Yields (λ _. Unit {0}) IsHonest _ (call B.focus_state c) (any-Yields _)
        (λ final c' _. elim (Bool-cases (is_focused final)) [
          | inl h ↦ (rw h (λ _. h))
          | inr h ↦ (rw h (λ q. grind arith))
        ])

  spaced_read-IsHonest :
      (start : ℕ) (points : List ℕ) (latest : FocusState) (c : Live B)
      → Yields (λ r. IsHonestVerdict r.1) (spaced_read B start points latest c)
  unfolding spaced_read Yields IsHonestVerdict IsHonest
  spaced_read-IsHonest start [] latest c = tt
  spaced_read-IsHonest start (point ∷ points) latest c =
      either-Yields (λ r. IsHonestVerdict r.1) (leb (start + point) (now B c)) _ _
        (bind-Yields (λ _. Unit {0}) (λ r. IsHonestVerdict r.1) _ (call B.focus_state c)
          (any-Yields _)
          (λ state c' _. elim (Bool-cases (is_focused state)) [
            | inl h ↦ (rw h (λ _. h))
            | inr h ↦ (rw h tt)
          ]))
        tt

  round_verdict-IsHonest :
      (start : ℕ) (points : List ℕ) (latest : FocusState) (c : Live B)
      → Yields (λ r. IsHonestVerdict r.1) (round_verdict B start points latest c)
  unfolding round_verdict unless_confirmed Yields
  round_verdict-IsHonest start points latest c =
      pick (scan_focus start latest c.op_events) (scan_focus-IsHonest start latest c.op_events)
    where
      pick :
          (v : Verdict)
          → IsHonestVerdict v
          → Yields
              (λ r. IsHonestVerdict r.1)
              (unless_confirmed B points
                (spaced_read B start points)
                v
                (record c { op_events = [] }))
      pick (confirms r) h = h
      pick (latest_is state) h = spaced_read-IsHonest start points state _

  next_round-IsHonest :
      (rest : List ℕ → FocusState → Action (Live B) FocusResult) (points : List ℕ) (v : Verdict)
      (c : Live B)
      → IsHonestVerdict v
      → ((points : List ℕ) (state : FocusState) (c : Live B)
          → Yields IsHonest (rest points state c))
      → Yields IsHonest (next_round B rest points v c)
  unfolding next_round Yields IsHonestVerdict
  next_round-IsHonest rest points (confirms r) c h hr = h
  next_round-IsHonest rest points (latest_is state) c h hr = hr points state c

  gate_loop-IsHonest :
      (fuel start deadline : ℕ) (points : List ℕ) (latest : FocusState) (c : Live B)
      → Yields IsHonest (gate_loop B fuel start deadline points latest c)
  unfolding gate_loop Yields
  gate_loop-IsHonest zero start deadline points latest c = tt
  gate_loop-IsHonest (suc fuel) start deadline points latest c =
      either-Yields IsHonest (leb deadline (now B c)) _ _ (final_read-IsHonest start latest c) (
        bind-Yields (λ _. Unit {0}) IsHonest _ (pump B _ c) (any-Yields _)
          (λ _ c1 _.
            bind-Yields (λ r. IsHonestVerdict r.1) IsHonest _
              (round_verdict B start points latest c1)
              (round_verdict-IsHonest start points latest c1)
              (λ r c2 h.
                next_round-IsHonest _ r.0 r.1 c2 h (gate_loop-IsHonest fuel start deadline))))

  gate_from-IsHonest :
      (fuel start timeout_ms : ℕ) (immediate : FocusState) (c : Live B)
      → Yields IsHonest (gate_from B fuel start timeout_ms immediate c)
  unfolding gate_from Yields IsHonest
  gate_from-IsHonest fuel start timeout_ms immediate c = elim (Bool-cases (is_focused immediate)) [
    | inl h ↦ (rw h (λ _. h))
    | inr h ↦ (rw h (gate_loop-IsHonest fuel start _ _ immediate c))
  ]

  pub focus_gate-IsHonest :
      (fuel timeout_ms : ℕ) (c : Live B) → Yields IsHonest (focus_gate B fuel timeout_ms c)
  unfolding focus_gate
  focus_gate-IsHonest fuel timeout_ms c =
      bind-Yields (λ _. Unit {0}) IsHonest _ (call (B.set_half_press true) c) (any-Yields _)
        (λ _ c1 _.
          bind-Yields (λ _. Unit {0}) IsHonest _ (call B.focus_state c1) (any-Yields _)
            (λ immediate c2 _. gate_from-IsHonest fuel (now B c) timeout_ms immediate c2))
