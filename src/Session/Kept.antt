-- ===== src/Session/Kept.antt =====
-- The wait for content (src/crsdkpy/session.py, src/crsdkpy/capture.py) keeps the baseline of the
-- capture, and that what the capture holds is above it.
use cr_sdkpy.Base.{
  ℕ, zero, suc, ◌+◌, Bool, true, false, not, Option, none, some, List, [], ◌∷◌, ltb, if◌then◌else◌,
  get_last?, Result, ok, ◌≡◌, refl, sym, All,
}
use mathlib.Core.Path.{subst}
use cr_sdkpy.Contract.{Backend, ContentRef}
use cr_sdkpy.Enums.{preview_identity}
use cr_sdkpy.Events.{Event, Error, Action, pure, raise_when, bind}
use cr_sdkpy.Session.{Live, now, call, pump, capabilities}
use cr_sdkpy.Session.Shots.{CapturedContent, project, Shooting, lift, record_content}
use cr_sdkpy.Session.Resolve.{scan_content, resolve, poll_index, content_loop, await_content}
use cr_sdkpy.Session.Keeps.{Keeps, then-Keeps, bind_keeps}
use cr_sdkpy.Session.Newer.{
  AboveBaseline, HoldsNewer, ListsNewer, bind_step, lift_value, call_value, get_last?-AboveBaseline,
  Newer, record_content-Newer,
}

module _ (B : Backend) (lists : ListsNewer B) (baseline : Option ℕ) where
  scan_content-Newer : (events : List Event) → Keeps (Newer B baseline) (scan_content B events)
  unfolding scan_content
  scan_content-Newer [] z h = h
  scan_content-Newer (Event.content at id number path ∷ events) z h =
      then-Keeps (Newer B baseline) (record_content B at id number path) _
        (record_content-Newer B baseline at id number path) (λ _. scan_content-Newer events) z h
  scan_content-Newer (Event.connection _ _ _ _ _ ∷ events) z h = scan_content-Newer events z h
  scan_content-Newer (Event.property_changed _ _ ∷ events) z h = scan_content-Newer events z h
  scan_content-Newer (Event.focus _ _ _ _ ∷ events) z h = scan_content-Newer events z h
  scan_content-Newer (Event.capture _ _ ∷ events) z h = scan_content-Newer events z h
  scan_content-Newer (Event.transfer _ _ _ _ _ ∷ events) z h = scan_content-Newer events z h
  scan_content-Newer (Event.recording _ _ ∷ events) z h = scan_content-Newer events z h
  scan_content-Newer (Event.warning _ _ ∷ events) z h = scan_content-Newer events z h
  scan_content-Newer (Event.unknown _ _ _ ∷ events) z h = scan_content-Newer events z h

  resolve-Newer :
      (refs : List ContentRef) (z : Shooting B)
      → Newer B baseline z
      → HoldsNewer
          (elim (get_last? refs) [ none ↦ none | some ref ↦ some (project ref) ])
          z.capture.baseline_content
      → Newer B baseline
          ((elim (get_last? refs) as (λ _. Action (Shooting B) (Option CapturedContent)) [
            | none ↦ pure none
            | some ref ↦ resolve B (project ref)
          ])
            z).1
  resolve-Newer refs z h g = last (get_last? refs) g
    where
      last :
          (found : Option ContentRef)
          → HoldsNewer
              (elim found [ none ↦ none | some ref ↦ some (project ref) ])
              z.capture.baseline_content
          → Newer B baseline
              ((elim found as (λ _. Action (Shooting B) (Option CapturedContent)) [
                | none ↦ pure none
                | some ref ↦ resolve B (project ref)
              ])
                z).1
      last none g = h
      last (some ref) g = (h.0, g)

  poll_index-Newer : Keeps (Newer B baseline) (poll_index B)
  unfolding poll_index ListsNewer
  poll_index-Newer z h =
      bind_step (λ refs. All (λ ref. AboveBaseline z.capture.baseline_content ref.content_id) refs)
        (λ z'. Newer B baseline z' × (z'.capture.baseline_content ≡ z.capture.baseline_content))
        (Newer B baseline) _ (lift (call (B.list_content z.capture.baseline_content)) z)
        (lift_value _ (call (B.list_content z.capture.baseline_content)) z (
          call_value _ (B.list_content z.capture.baseline_content) z.session
            (lists z.capture.baseline_content z.session.backend)))
        (h, refl) (λ _ p. p.0)
        (λ refs z' g p. resolve-Newer refs z' p.0 (
          get_last?-AboveBaseline z'.capture.baseline_content refs
            (subst (λ b. All (λ ref. AboveBaseline b ref.content_id) refs) (sym p.1) g)))

  abbrev taken : Shooting B → Shooting B
  taken z = record z { session = record (z.session) { op_events = [] } }

  -- The invariant behind an outcome, kept closed while the loop is taken apart.
  unfoldable pub Leaves : {A : Type 0} → Result Error A × Shooting B → Type 0
  Leaves x = Newer B baseline x.1

  bind-Leaves :
      {A C : Type 0} (f : A → Action (Shooting B) C) (x : Result Error A × Shooting B)
      → Leaves x
      → ((a : A) (z : Shooting B) → Newer B baseline z → Leaves (f a z))
      → Leaves (bind f x)
  unfolding Leaves
  bind-Leaves f x p h = bind_keeps (Newer B baseline) f x h p

  either-Leaves :
      {A : Type 0} (b : Bool) (x y : Result Error A × Shooting B)
      → (b ≡ true → Leaves x)
      → (b ≡ false → Leaves y)
      → Leaves (if b then x else y)
  either-Leaves true x y px py = px refl
  either-Leaves false x y px py = py refl

  pick-Leaves :
      (found : Option CapturedContent) (z : Shooting B)
      (other : Result Error (Option CapturedContent) × Shooting B)
      → Newer B baseline z
      → Leaves other
      → Leaves (elim found as (λ _. Result Error (Option CapturedContent) × Shooting B) [
        | some content ↦ (ok (some content), z)
        | none ↦ other
      ])
  unfolding Leaves
  pick-Leaves (some content) z other h h' = h
  pick-Leaves none z other h h' = h'

  lift-Leaves :
      {A : Type 0} (m : Action (Live B) A) (z : Shooting B) → Newer B baseline z → Leaves (lift m z)
  unfolding Leaves
  lift-Leaves m z h = h

  scan-Leaves :
      (events : List Event) (z : Shooting B) → Newer B baseline z → Leaves (scan_content B events z)
  unfolding Leaves
  scan-Leaves events z h = scan_content-Newer events z h

  poll-Leaves : (z : Shooting B) → Newer B baseline z → Leaves (poll_index B z)
  unfolding Leaves
  poll-Leaves z h = poll_index-Newer z h

  stay-Leaves :
      {A : Type 0} (r : Result Error A) (z : Shooting B) → Newer B baseline z → Leaves (r, z)
  unfolding Leaves
  stay-Leaves r z h = h

  raise-Leaves :
      (b : Bool) (e : Error) (z : Shooting B) → Newer B baseline z → Leaves (raise_when b e z)
  unfolding Leaves
  raise-Leaves b e z h = h

  content_loop-Leaves :
      (fuel next_poll_ms deadline : ℕ) (z : Shooting B)
      → Newer B baseline z
      → Leaves (content_loop B fuel next_poll_ms deadline z)
  unfolding content_loop
  content_loop-Leaves zero next_poll_ms deadline z h = stay-Leaves _ z h
  content_loop-Leaves (suc fuel) next_poll_ms deadline z h =
      either-Leaves (ltb (now B z.session) deadline) _ _
        (λ _.
          bind-Leaves _ (scan_content B z.session.op_events (taken z))
            (scan-Leaves z.session.op_events (taken z) h)
            (λ _ z2 h2. pick-Leaves z2.capture.content z2 _ h2 (
              either-Leaves (ltb (now B z2.session) next_poll_ms) _ _
                (λ _.
                  bind-Leaves _ (lift (pump B _) z2) (lift-Leaves (pump B _) z2 h2)
                    (λ _ z3 h3. content_loop-Leaves fuel next_poll_ms deadline z3 h3))
                (λ _. bind-Leaves _ (poll_index B z2) (poll-Leaves z2 h2) (λ found z3 h3.
                  pick-Leaves found z3 _ h3 (
                    bind-Leaves _ (lift (pump B _) z3) (lift-Leaves (pump B _) z3 h3) (λ _ z4 h4.
                      content_loop-Leaves fuel (now B z2.session + 150) deadline z4 h4)))))))
        (λ _. stay-Leaves _ z h)

  pub await_content-Leaves :
      (fuel timeout_ms : ℕ) (z : Shooting B)
      → Newer B baseline z
      → Leaves (await_content B fuel timeout_ms z)
  unfolding await_content
  await_content-Leaves fuel timeout_ms z h = pick-Leaves z.capture.content z _ h (
      bind-Leaves _ (lift (capabilities B) z) (lift-Leaves (capabilities B) z h) (λ caps z1 h1.
        bind-Leaves _ (raise_when (not caps.content_index) _ z1) (raise-Leaves _ _ z1 h1)
          (λ _ z2 h2. content_loop-Leaves fuel 0 (now B z2.session + timeout_ms) z2 h2)))
