-- ===== src/Session/Keeps.antt =====
-- What an operation keeps: a predicate on the state that holds behind every outcome. A backend
-- is quiet for a predicate if each of its operations but `send_command` keeps it.
use cr_sdkpy.Base.{ℕ, Bool, true, false, Option, Result, ok, err, if◌then◌else◌}
use cr_sdkpy.Contract.{Backend}
use cr_sdkpy.Events.{Error, Action, bind, ◌>>=◌, unsupported}
use cr_sdkpy.Session.{Session, call}
use cr_sdkpy.Session.Focus.{on_unsupported}
use cr_sdkpy.Session.Shots.{Shot, lift}

module _ {S : Type 0} (P : S → Type 0) where
  abbrev pub Keeps : {A : Type 0} → Action S A → Type 0
  Keeps m = (s : S) → P s → P (m s).1

  pub bind_keeps :
      {A B : Type 0} (f : A → Action S B) (x : Result Error A × S)
      → ((a : A) → Keeps (f a))
      → P x.1
      → P (bind f x).1
  bind_keeps f (ok a, s) h p = h a s p
  bind_keeps f (err e, s) h p = p

  pub then-Keeps :
      {A B : Type 0} (m : Action S A) (f : A → Action S B)
      → Keeps m
      → ((a : A) → Keeps (f a))
      → Keeps (m >>= f)
  then-Keeps m f hm hf s p = bind_keeps f (m s) hf (hm s p)

  pub either_keeps :
      {A : Type 0} (b : Bool) (x y : Result Error A × S) → P x.1 → P y.1 → P (if b then x else y).1
  either_keeps true x y px py = px
  either_keeps false x y px py = py

  pub if_Keeps :
      {A : Type 0} (b : Bool) (m n : Action S A) → Keeps m → Keeps n → Keeps (if b then m else n)
  if_Keeps true m n hm hn = hm
  if_Keeps false m n hm hn = hn

  pub on_unsupported_keeps :
      {A : Type 0} (a : A) (x : Result Error A × S) → P x.1 → P (on_unsupported a x).1
  on_unsupported_keeps a (ok b, s) p = p
  on_unsupported_keeps a (err (unsupported capability), s) p = p
  on_unsupported_keeps a (err e, s) p = p

-- A predicate on the backend's state, on a session and on a session with a capture.
module _ {S : Type 0} (Q : S → Type 0) where
  abbrev pub Inside : Session S → Type 0
  Inside c = Q c.backend

  abbrev pub Within : Shot S → Type 0
  Within z = Q z.session.backend

  pub call-Keeps : {A : Type 0} (m : Action S A) → Keeps Q m → Keeps Inside (call m)
  call-Keeps m h c p = h c.backend p

  pub lift-Keeps : {A : Type 0} (m : Action (Session S) A) → Keeps Inside m → Keeps Within (lift m)
  lift-Keeps m h z p = h z.session p

-- Every operation of the backend but `send_command` keeps the predicate.
pub record IsQuiet (B : Backend) (Q : B.State → Type 0) : Type 0 where
  pub sleeps : (duration : ℕ) (s : B.State) → Q s → Q (B.sleep_ms duration s)
  pub connects : Keeps Q B.connection_state
  pub describes : Keeps Q B.session_capabilities
  pub polls : (timeout_ms : ℕ) → Keeps Q (B.poll_events timeout_ms)
  pub gets_stage : Keeps Q B.get_half_press
  pub sets_stage : (engaged : Bool) → Keeps Q (B.set_half_press engaged)
  pub reads_focus : Keeps Q B.focus_state
  pub reads_latest : Keeps Q B.latest_content
  pub lists : (newer_than : Option ℕ) → Keeps Q (B.list_content newer_than)
