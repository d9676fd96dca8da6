-- ===== src/Session/Onward.antt =====
-- The steps of the wait for the content of a capture (src/crsdkpy/session.py) get on: none makes
-- time run backwards, adds to what is pending or closes the session.
use mathlib.Core.Path.{subst, sym}
use cr_sdkpy.Base.{
  ℕ, ◌≤◌, false, not, Option, none, some, List, [], ◌∷◌, ◌==◌, get_last?, Result, ok, err, ◌≡◌,
  refl, Bool-cases, inl, inr, arith,
}
use cr_sdkpy.Contract.{Backend, Advances, Returns, ContentRef}
use cr_sdkpy.Events.{Event, Error, Action, pure, bind, Text, unsupported, camera_connection}
use cr_sdkpy.Session.{Session, Live, now, call}
use cr_sdkpy.Session.Shots.{
  CapturedContent, project, Shot, Shooting, lift, just_before, tolerate, from_event, takes_up,
  find_content, enrich_content, record_content,
}
use cr_sdkpy.Session.Resolve.{scan_content, resolve, poll_index}
use cr_sdkpy.Session.Ends.{bind-Returns, call-Returns, weaken}

pub lift-Returns :
    {S A : Type 0} (G : A → Session S → Type 0) (m : Action (Session S) A) (z : Shot S)
    → Returns G (m z.session)
    → Returns (λ a z'. G a z'.session) (lift m z)
unfolding Returns
lift-Returns {S} {A} G m z g = wrap (m z.session) g
  where
    wrap :
        (x : Result Error A × Session S)
        → Returns G x
        → Returns (λ a z'. G a z'.session) (let (r, c) = x in (r, record z { session = c }))
    wrap (ok a, c) h = h
    wrap (err e, c) h = h

tolerate-Returns :
    {S A : Type 0} (P : S → Type 0) (a : A) (x : Result Error A × S)
    → P x.1
    → Returns (λ a s. P s) x
    → Returns (λ a s. P s) (tolerate a x)
unfolding Returns
tolerate-Returns P a (ok b, s) p h = h
tolerate-Returns P a (err (unsupported capability), s) p h = p
tolerate-Returns P a (err (camera_connection marker), s) p h = p
tolerate-Returns P a (err e, s) p h = h

bind-pure_state :
    {S A C : Type 0} (f : A → C) (x : Result Error A × S) → (bind (λ a. pure (f a)) x).1 ≡ x.1
bind-pure_state f (ok a, s) = refl
bind-pure_state f (err e, s) = refl

module _ (B : Backend) (laws : Advances B) where
  open laws use {pending}

  -- Time has not run backwards, nothing more is pending, and the session is open.
  abbrev pub Onward : Live B → Live B → Type 0
  Onward c c' =
      (now B c ≤ now B c') × (pending c'.backend ≤ pending c.backend) × (c'.closed ≡ false)

  abbrev pub Go : {A : Type 0} → Shooting B → A → Shooting B → Type 0
  Go z a z' = Onward z.session z'.session

  pub Onward-trans : (c c' c'' : Live B) → Onward c c' → Onward c' c'' → Onward c c''
  Onward-trans c c' c'' h k = (omega (arith, h.0, k.0), omega (arith, h.1, k.1), k.2)

  stay : (c : Live B) → c.closed ≡ false → Onward c c
  stay c hc = (omega arith, omega arith, hc)

  weaken-Go :
      {A : Type 0} (z z' : Shooting B) (x : Result Error A × Shooting B)
      → Onward z.session z'.session
      → Returns (Go z') x
      → Returns (Go z) x
  weaken-Go z z' x h r =
      weaken (Go z') (Go z) x r (λ a z'' k. Onward-trans z.session z'.session z''.session h k)

  list_state :
      (bound : Option ℕ) (z : Shooting B)
      → z.session.closed ≡ false
      → Onward z.session (lift (call (B.list_content bound)) z).1.session
  list_state bound z hc = (
    (laws.list_content_keeps bound z.session.backend).0,
    (laws.list_content_keeps bound z.session.backend).1,
    hc,
  )

  any_state :
      {A : Type 0} (P : Shooting B → Type 0) (x : Result Error A × Shooting B)
      → Returns (λ a z. Unit {0}) x
      → P x.1
      → Returns (λ a z. P z) x
  unfolding Returns
  any_state P (ok a, z) h p = p
  any_state P (err e, z) h p = h

  list_goes :
      (bound : Option ℕ) (z : Shooting B)
      → z.session.closed ≡ false
      → Returns (Go z) (lift (call (B.list_content bound)) z)
  list_goes bound z hc =
      any_state (λ z'. Onward z.session z'.session) (lift (call (B.list_content bound)) z)
        (lift-Returns (λ a c. Unit {0}) (call (B.list_content bound)) z
          (weaken _ _ (call (B.list_content bound) z.session)
            (call-Returns (λ a s. Unit {0}) (B.list_content bound) z.session
              (laws.list_content_keeps bound z.session.backend).2)
            (λ a s h. tt)))
        (list_state bound z hc)

  find_state :
      (id : ℕ) (z : Shooting B)
      → z.session.closed ≡ false
      → Onward z.session (lift (find_content B id) z).1.session
  unfolding find_content
  find_state id z hc =
      subst (λ c. Onward z.session c)
        (sym (bind-pure_state _ (call (B.list_content (just_before id)) z.session)))
        (list_state (just_before id) z hc)

  find_goes :
      (id : ℕ) (z : Shooting B)
      → z.session.closed ≡ false
      → Returns (Go z) (lift (find_content B id) z)
  unfolding find_content Returns
  find_goes id z hc =
      any_state (λ z'. Onward z.session z'.session) (lift (find_content B id) z)
        (lift-Returns (λ a c. Unit {0}) (find_content B id) z
          (bind-Returns (λ a c. Unit {0}) (λ a c. Unit {0}) _
            (call (B.list_content (just_before id)) z.session)
            (weaken _ _ (call (B.list_content (just_before id)) z.session)
              (call-Returns (λ a s. Unit {0}) (B.list_content (just_before id)) z.session
                (laws.list_content_keeps (just_before id) z.session.backend).2)
              (λ a s h. tt))
            (λ refs c _. tt)))
        (find_state id z hc)

  enrich_content_goes :
      (content : CapturedContent) (z : Shooting B)
      → z.session.closed ≡ false
      → Returns (Go z) (enrich_content B content z)
  unfolding enrich_content Returns
  enrich_content_goes content z hc = elim (Bool-cases (not (content.file_id == 0))) [
    | inl known ↦ rw known (stay z.session hc)
    | inr bare ↦ rw bare (
        bind-Returns (Go z) (Go z) _ (tolerate none (lift (find_content B content.content_id) z))
          (tolerate-Returns (λ z'. Onward z.session z'.session) none
            (lift (find_content B content.content_id) z) (find_state content.content_id z hc)
            (find_goes content.content_id z hc))
          (λ found z' h. h))
  ]

  record_content_goes :
      (at : ℕ) (id number : Option ℕ) (path : Option Text) (z : Shooting B)
      → z.session.closed ≡ false
      → Returns (Go z) (record_content B at id number path z)
  unfolding record_content Returns
  record_content_goes at none number path z hc = stay z.session hc
  record_content_goes at (some id) number path z hc = elim (Bool-cases (takes_up id z.capture)) [
    | inr old ↦ rw old (stay z.session hc)
    | inl fresh ↦ rw fresh (
        bind-Returns (Go z) (Go z) _
          (enrich_content B (from_event at id number path) (record z {
            capture = record (z.capture) { content = some (from_event at id number path) };
          }))
          (enrich_content_goes (from_event at id number path)
            (record z {
              capture = record (z.capture) { content = some (from_event at id number path) };
            })
            hc)
          (λ _ z' h. h))
  ]

  pub scan_content_goes :
      (events : List Event) (z : Shooting B)
      → z.session.closed ≡ false
      → Returns (Go z) (scan_content B events z)
  unfolding scan_content Returns
  scan_content_goes [] z hc = stay z.session hc
  scan_content_goes (Event.content at id number path ∷ events) z hc =
      bind-Returns (Go z) (Go z) _ (record_content B at id number path z)
        (record_content_goes at id number path z hc)
        (λ _ z' h. weaken-Go z z' (scan_content B events z') h (scan_content_goes events z' h.2))
  scan_content_goes (Event.connection _ _ _ _ _ ∷ events) z hc = scan_content_goes events z hc
  scan_content_goes (Event.property_changed _ _ ∷ events) z hc = scan_content_goes events z hc
  scan_content_goes (Event.focus _ _ _ _ ∷ events) z hc = scan_content_goes events z hc
  scan_content_goes (Event.capture _ _ ∷ events) z hc = scan_content_goes events z hc
  scan_content_goes (Event.transfer _ _ _ _ _ ∷ events) z hc = scan_content_goes events z hc
  scan_content_goes (Event.recording _ _ ∷ events) z hc = scan_content_goes events z hc
  scan_content_goes (Event.warning _ _ ∷ events) z hc = scan_content_goes events z hc
  scan_content_goes (Event.unknown _ _ _ ∷ events) z hc = scan_content_goes events z hc

  pub poll_index_goes :
      (z : Shooting B) → z.session.closed ≡ false → Returns (Go z) (poll_index B z)
  unfolding poll_index Returns
  poll_index_goes z hc =
      bind-Returns (Go z) (Go z) _ (lift (call (B.list_content z.capture.baseline_content)) z)
        (list_goes z.capture.baseline_content z hc) (λ refs z' h. found_goes (get_last? refs) z' h)
    where
      found_goes :
          (found : Option ContentRef) (z' : Shooting B)
          → Onward z.session z'.session
          → Returns (Go z) (
              (elim found as (λ _. Action (Shooting B) (Option CapturedContent)) [
                | none ↦ pure none
                | some ref ↦ resolve B (project ref)
              ])
                z')
      found_goes none z' h = h
      found_goes (some ref) z' h = h
