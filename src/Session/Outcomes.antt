-- ===== src/Session/Outcomes.antt =====
-- What holds of the value and the state with which an operation returns, and how it is carried
-- through the operations of a session and of a capture.
use cr_sdkpy.Base.{Bool, true, false, Result, ok, err, ◌≡◌, refl, if◌then◌else◌}
use cr_sdkpy.Events.{Error, Action, bind}
use cr_sdkpy.Session.{Session, call}
use cr_sdkpy.Session.Shots.{Shot, lift}

unfoldable pub Outcome : {S A : Type 0} → (A → S → Type 0) → Result Error A × S → Type 0
Outcome G (ok a, s) = G a s
Outcome G (err e, s) = Unit

pub bind-Outcome :
    {S A C : Type 0} (G : A → S → Type 0) (H : C → S → Type 0) (f : A → Action S C)
    (x : Result Error A × S)
    → Outcome G x
    → ((a : A) (s : S) → G a s → Outcome H (f a s))
    → Outcome H (bind f x)
unfolding Outcome
bind-Outcome G H f (ok a, s) g h = h a s g
bind-Outcome G H f (err e, s) g h = tt

pub either-Outcome :
    {S A : Type 0} (G : A → S → Type 0) (b : Bool) (x y : Result Error A × S)
    → (b ≡ true → Outcome G x)
    → (b ≡ false → Outcome G y)
    → Outcome G (if b then x else y)
either-Outcome G true x y gx gy = gx refl
either-Outcome G false x y gx gy = gy refl

pub map-Outcome :
    {S A : Type 0} (G H : A → S → Type 0) (x : Result Error A × S)
    → Outcome G x
    → ((a : A) (s : S) → G a s → H a s)
    → Outcome H x
unfolding Outcome
map-Outcome G H (ok a, s) g h = h a s g
map-Outcome G H (err e, s) g h = tt

-- A call of the backend changes the session in its backend only, and answers what that answers.
pub call-Outcome :
    {S A : Type 0} (m : Action S A) (c : Session S)
    → Outcome
        (λ a c'. (m c.backend ≡ (ok a, c'.backend)) × (c' ≡ record c { backend = c'.backend }))
        (call m c)
unfolding Outcome
call-Outcome {S} {A} m c = wrap (m c.backend) refl
  where
    wrap :
        (x : Result Error A × S)
        → m c.backend ≡ x
        → Outcome
            (λ a c'. (m c.backend ≡ (ok a, c'.backend)) × (c' ≡ record c { backend = c'.backend }))
            (let (r, s) = x in (r, record c { backend = s }))
    wrap (ok a, s) e = (e, refl)
    wrap (err e1, s) e = tt

-- An operation on the session leaves the capture as it is.
pub lift-Outcome :
    {S A : Type 0} (m : Action (Session S) A) (z : Shot S)
    → Outcome (λ a z'. z'.capture ≡ z.capture) (lift m z)
unfolding Outcome
lift-Outcome {S} {A} m z = wrap (m z.session)
  where
    wrap :
        (x : Result Error A × Session S)
        → Outcome (λ a z'. z'.capture ≡ z.capture) (let (r, c) = x in (r, record z { session = c }))
    wrap (ok a, c) = refl
    wrap (err e, c) = tt
