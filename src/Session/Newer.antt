-- ===== src/Session/Newer.antt =====
-- The content of a capture (src/crsdkpy/session.py, src/crsdkpy/capture.py) is newer than what the
-- camera held when the capture was requested, and a preview is one of that content.
use cr_sdkpy.Base.{
  ℕ, ◌<◌, Bool, true, false, not, ◌&&◌, Option, none, some, List, [], ◌∷◌, ltb, ◌==◌, if◌then◌else◌,
  get_last?, Result, ok, err, ◌≡◌, inl, inr, Bool-cases, All, arith,
}
use cr_sdkpy.Contract.{Backend, ContentRef}
use cr_sdkpy.Session.Keeps.{Keeps}
use cr_sdkpy.Events.{Error, Action, pure, bind, Text, unsupported, camera_connection}
use cr_sdkpy.Session.{Session, Live, call}
use cr_sdkpy.Session.Shots.{
  CapturedContent, project, Capture, Shot, Shooting, lift, just_before, find_ref, tolerate,
  from_event, takes_up, find_content, enriched, enrich_content, record_content,
}
use cr_sdkpy.Session.Outcomes.{Outcome, bind-Outcome}

-- What a capture may hold: no content yet, or one above its baseline.
abbrev pub AboveBaseline : Option ℕ → ℕ → Type 0
AboveBaseline none content_id = Unit
AboveBaseline (some baseline) content_id = baseline < content_id

abbrev pub HoldsNewer : Option CapturedContent → Option ℕ → Type 0
HoldsNewer none baseline = Unit
HoldsNewer (some content) baseline = AboveBaseline baseline content.content_id

abbrev pub IsNewer : Capture → Type 0
IsNewer k = HoldsNewer k.content k.baseline_content

-- The index answers with content above the bound that it is asked for.
unfoldable pub ListsNewer : (B : Backend) → Type 0
ListsNewer B =
    (newer_than : Option ℕ) (s : B.State)
    → Outcome (λ refs s'. All (λ ref. AboveBaseline newer_than ref.content_id) refs)
        (B.list_content newer_than s)

takes_up-above :
    (content_id : ℕ) (k : Capture)
    → takes_up content_id k ≡ true
    → AboveBaseline k.baseline_content content_id
unfolding takes_up
takes_up-above content_id k h = above k.baseline_content k.content h
  where
    above :
        (b : Option ℕ) (c : Option CapturedContent)
        → (elim b [ none ↦ true | some b ↦ ltb b content_id ])
            && (elim c [ none ↦ true | some _ ↦ false ])
          ≡ true
        → AboveBaseline b content_id
    above none c h = tt
    above (some b) c h = ground arith

abbrev pub HasId : ℕ → Option ContentRef → Type 0
HasId content_id none = Unit
HasId content_id (some ref) = ref.content_id ≡ content_id

find_ref-HasId :
    (content_id : ℕ) (refs : List ContentRef) → HasId content_id (find_ref content_id refs)
unfolding find_ref
find_ref-HasId content_id [] = tt
find_ref-HasId content_id (c ∷ cs) = elim (Bool-cases (c.content_id == content_id)) [
  | inl e ↦ rw e (ground arith)
  | inr e ↦ rw e (find_ref-HasId content_id cs)
]

-- A step whose value satisfies `G`, and whose state satisfies `P` and what is left to do relies on.
pub bind_step :
    {S A C : Type 0} (G : A → Type 0) (P Q : S → Type 0) (f : A → Action S C)
    (x : Result Error A × S)
    → Outcome (λ a s. G a) x
    → P x.1
    → ((s : S) → P s → Q s)
    → ((a : A) (s : S) → G a → P s → Q (f a s).1)
    → Q (bind f x).1
unfolding Outcome
bind_step G P Q f (ok a, s) g p weak h = h a s g p
bind_step G P Q f (err e, s) g p weak h = weak s p

either_run :
    {S A : Type 0} (P : S → Type 0) (b : Bool) (m n : Action S A) (s : S)
    → P (m s).1
    → P (n s).1
    → P ((if b then m else n) s).1
either_run P true m n s pm pn = pm
either_run P false m n s pm pn = pn

pub anything : {S A : Type 0} (x : Result Error A × S) → Outcome (λ a s. Unit {0}) x
unfolding Outcome
anything (ok a, s) = tt
anything (err e, s) = tt

pub lift_value :
    {S A : Type 0} (G : A → Type 0) (m : Action (Session S) A) (z : Shot S)
    → Outcome (λ a c. G a) (m z.session)
    → Outcome (λ a z'. G a) (lift m z)
unfolding Outcome
lift_value {S} {A} G m z = wrap (m z.session)
  where
    wrap :
        (x : Result Error A × Session S)
        → Outcome (λ a c. G a) x
        → Outcome (λ a z'. G a) (let (r, c) = x in (r, record z { session = c }))
    wrap (ok a, c) g = g
    wrap (err e, c) g = tt

pub call_value :
    {S A : Type 0} (G : A → Type 0) (m : Action S A) (c : Session S)
    → Outcome (λ a s. G a) (m c.backend)
    → Outcome (λ a c'. G a) (call m c)
unfolding Outcome
call_value {S} {A} G m c = wrap (m c.backend)
  where
    wrap :
        (x : Result Error A × S)
        → Outcome (λ a s. G a) x
        → Outcome (λ a c'. G a) (let (r, s) = x in (r, record c { backend = s }))
    wrap (ok a, s) g = g
    wrap (err e, s) g = tt

tolerate_value :
    {S A : Type 0} (G : A → Type 0) (a : A) (x : Result Error A × S)
    → G a
    → Outcome (λ a s. G a) x
    → Outcome (λ a s. G a) (tolerate a x)
unfolding Outcome
tolerate_value G a (ok b, s) g h = h
tolerate_value G a (err (unsupported capability), s) g h = g
tolerate_value G a (err (camera_connection marker), s) g h = g
tolerate_value G a (err e, s) g h = tt

tolerate_keeps :
    {S A : Type 0} (P : S → Type 0) (a : A) (x : Result Error A × S) → P x.1 → P (tolerate a x).1
tolerate_keeps P a (ok b, s) p = p
tolerate_keeps P a (err (unsupported capability), s) p = p
tolerate_keeps P a (err (camera_connection marker), s) p = p
tolerate_keeps P a (err e, s) p = p

pub get_last?-AboveBaseline :
    (b : Option ℕ) (refs : List ContentRef)
    → All (λ ref. AboveBaseline b ref.content_id) refs
    → HoldsNewer (elim (get_last? refs) [ none ↦ none | some ref ↦ some (project ref) ]) b
unfolding project
get_last?-AboveBaseline b [] h = tt
get_last?-AboveBaseline b (ref ∷ []) h = h.0
get_last?-AboveBaseline b (x ∷ y ∷ refs) h = get_last?-AboveBaseline b (y ∷ refs) h.1

module _ (B : Backend) (baseline : Option ℕ) where
  -- The capture has the baseline that it began with, and nothing that is not above it.
  abbrev pub Newer : Shooting B → Type 0
  Newer z = (z.capture.baseline_content ≡ baseline) × IsNewer z.capture

  find_content-HasId :
      (content_id : ℕ) (c : Live B)
      → Outcome (λ r c'. HasId content_id r) (find_content B content_id c)
  unfolding find_content Outcome
  find_content-HasId content_id c =
      bind-Outcome (λ refs c'. Unit {0}) (λ r c'. HasId content_id r) _
        (call (B.list_content (just_before content_id)) c) (anything _)
        (λ refs c' _. find_ref-HasId content_id refs)

  enriched-above :
      (content : CapturedContent) (found : Option ContentRef) (b : Option ℕ)
      → HasId content.content_id found
      → AboveBaseline b content.content_id
      → AboveBaseline b (enriched B content found).content_id
  unfolding project
  enriched-above content none b h a = a
  enriched-above content (some ref) b h a = rw h a

  -- A capture with newer content or none, for which an id is new.
  abbrev Above : ℕ → Shooting B → Type 0
  Above content_id z = Newer z × AboveBaseline z.capture.baseline_content content_id

  enrich_content-Newer :
      (content : CapturedContent) (z : Shooting B)
      → Above content.content_id z
      → Newer (enrich_content B content z).1
  unfolding enrich_content
  enrich_content-Newer content z h' =
      either_run Newer (not (content.file_id == 0)) (pure tt) _ z h'.0 (
        bind_step (HasId content.content_id) (Above content.content_id) Newer _
          (tolerate none (lift (find_content B content.content_id) z))
          (tolerate_value (HasId content.content_id) none _ tt (
            lift_value (HasId content.content_id) (find_content B content.content_id) z
              (find_content-HasId content.content_id z.session)))
          (tolerate_keeps (Above content.content_id) none _ h') (λ _ p. p.0)
          (λ found z' g p. (p.0.0, enriched-above content found z'.capture.baseline_content g p.1)))

  pub record_content-Newer :
      (at : ℕ) (id : Option ℕ) (number : Option ℕ) (path : Option Text)
      → Keeps Newer (record_content B at id number path)
  unfolding record_content
  record_content-Newer at none number path z h = h
  record_content-Newer at (some id) number path z h = elim (Bool-cases (takes_up id z.capture)) [
    | inr e ↦ rw e h
    | inl e ↦ rw e (
        bind_step (λ _. Unit {0}) Newer Newer _
          (enrich_content B (from_event at id number path) (record z {
            capture = record (z.capture) { content = some (from_event at id number path) };
          }))
          (anything _)
          (enrich_content-Newer (from_event at id number path)
            (record z {
              capture = record (z.capture) { content = some (from_event at id number path) };
            })
            ((h.0, takes_up-above id z.capture e), takes_up-above id z.capture e))
          (λ _ p. p) (λ _ z' _ p. p))
  ]
