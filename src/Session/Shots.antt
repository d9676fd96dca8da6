-- ===== src/Session/Shots.antt =====
-- Captures: `Capture` of src/crsdkpy/capture.py and the capture methods of
-- src/crsdkpy/session.py. A capture is an object that the caller keeps while its session goes on,
-- so the operations on it act on both.
-- Here: the records, and the content that a notification names.
use cr_sdkpy.Base.{
  ℕ, ◌-◌, Bool, true, false, not, ◌&&◌, Option, none, some, List, [], ◌∷◌, ltb, ◌==◌, if◌then◌else◌,
  Result, ok, err,
}
use cr_sdkpy.Base.Int.{ℤ, sub_ℕ}
use cr_sdkpy.Base.Dict.{Dict}
use cr_sdkpy.Enums.{CaptureState, FocusState, PreviewKind, preview_identity}
use cr_sdkpy.Contract.{Backend, ContentRef, Preview}
use cr_sdkpy.Events.{
  Error, Action, pure, modify, bind, ◌>>=◌, ◌>>◌, unsupported, camera_connection, Text,
}
use cr_sdkpy.Session.{Session, Live, call, capabilities}
use cr_sdkpy.Session.Focus.{FocusResult}

-- `CapturedContent`
pub record CapturedContent : Type 0 where
  pub content_id : ℕ
  pub file_number : Option ℕ
  pub path : Option Text
  pub created_ms : ℕ
  pub file_id : ℕ
  pub captured_at : Option Text
  pub width : Option ℕ
  pub height : Option ℕ
  pub file_size : Option ℕ

-- `_project` of src/crsdkpy/content.py.
unfoldable pub project : ContentRef → CapturedContent
project ref = record {
  content_id = ref.content_id;
  file_number = ref.file_number;
  path = ref.path;
  created_ms = ref.created_ms;
  file_id = ref.file_id;
  captured_at = ref.captured_at;
  width = ref.width;
  height = ref.height;
  file_size = ref.file_size;
}

pub data Failure : Type 0 where
  focus_not_confirmed : FocusState → Failure
  no_exposure : Failure

pub record Capture : Type 0 where
  pub state : CaptureState
  pub requested_ms : ℕ
  pub focused_ms : Option ℕ
  pub exposed_ms : Option ℕ
  pub content_ms : Option ℕ
  pub focus : Option FocusResult
  pub content : Option CapturedContent
  pub failure : Option Failure
  pub previews : Dict PreviewKind Preview
  pub baseline_content : Option ℕ

-- `Capture.__init__`, with the baseline that the session sets.
unfoldable pub new_capture : ℕ → Option ℕ → Capture
new_capture requested_ms baseline = record {
  state = CaptureState.requested;
  requested_ms = requested_ms;
  focused_ms = none;
  exposed_ms = none;
  content_ms = none;
  focus = none;
  content = none;
  failure = none;
  previews = [];
  baseline_content = baseline;
}

-- `exposure_latency_ms` and `content_latency_ms`
unfoldable pub latency : Option ℕ → Capture → Option ℤ
latency none k = none
latency (some at) k = some (sub_ℕ at k.requested_ms)

-- `_advance`
abbrev pub advance : CaptureState → Capture → Capture
advance state k = record k { state = state }

-- `_fail`
abbrev pub fail : Failure → Capture → Capture
fail reason k = record k { failure = some reason; state = CaptureState.failed }

-- A session with one of its captures.
pub record Shot (S : Type 0) : Type 0 where
  pub session : Session S
  pub capture : Capture

-- What an operation on a capture leaves, for a method that returns the capture.
abbrev pub leave :
    {S : Type 0} → Result Error (Unit {0}) × Shot S → Result Error Capture × Session S
leave (ok _, z) = (ok z.capture, z.session)
leave (err e, z) = (err e, z.session)

-- An operation on the session alone.
abbrev pub lift : {S A : Type 0} → Action (Session S) A → Action (Shot S) A
lift m z = let (r, c) = m z.session in (r, record z { session = c })

abbrev pub change : {S : Type 0} → (Capture → Capture) → Action (Shot S) (Unit {0})
change f = modify (λ z. record z { capture = f z.capture })

-- The bound of `list_content(newer_than=content_id - 1)`; with the id 0 that asks for everything.
abbrev pub just_before : ℕ → Option ℕ
just_before content_id = if content_id == 0 then none else some (content_id - 1)

-- The search of `_find_content`.
unfoldable pub find_ref : ℕ → List ContentRef → Option ContentRef
find_ref content_id [] = none
find_ref content_id (c ∷ cs) = if c.content_id == content_id then some c else find_ref content_id cs

-- `except (UnsupportedOperationError, CameraConnectionError): return`
abbrev pub tolerate : {S A : Type 0} → A → Result Error A × S → Result Error A × S
tolerate a (ok b, s) = (ok b, s)
tolerate a (err (unsupported capability), s) = (ok a, s)
tolerate a (err (camera_connection marker), s) = (ok a, s)
tolerate a (err e, s) = (err e, s)

-- What a content event says of the content.
abbrev pub from_event : ℕ → ℕ → Option ℕ → Option Text → CapturedContent
from_event at content_id file_number path = record {
  content_id = content_id;
  file_number = file_number;
  path = path;
  created_ms = at;
  file_id = 0;
  captured_at = none;
  width = none;
  height = none;
  file_size = none;
}

-- Whether `_record_content` takes an id up: it is newer than the baseline, and no content is known.
unfoldable pub takes_up : ℕ → Capture → Bool
takes_up content_id k =
    (elim (k.baseline_content) [ none ↦ true | some b ↦ ltb b content_id ])
    && (elim (k.content) [ none ↦ true | some _ ↦ false ])

module _ (B : Backend) where
  open B use {State, latest_content, list_content, get_preview, pull_postview, send_command}

  abbrev pub Shooting : Type 0
  Shooting = Shot State

  -- `_content_baseline`
  unfoldable pub content_baseline : Action (Live B) (Option ℕ)
  unfolding capabilities
  content_baseline = capabilities B >>= λ caps.
      if not caps.content_index
      then pure none
      else (call latest_content >>= λ latest.
          pure (elim latest [ none ↦ none | some ref ↦ some ref.content_id ]))

  -- `_find_content`
  unfoldable pub find_content : ℕ → Action (Live B) (Option ContentRef)
  unfolding find_ref
  find_content content_id =
      call (list_content (just_before content_id)) >>= λ refs. pure (find_ref content_id refs)

  abbrev pub enriched : CapturedContent → Option ContentRef → CapturedContent
  enriched content none = content
  enriched content (some ref) = record (project ref) { created_ms = content.created_ms }

  -- `_enrich_content`
  unfoldable pub enrich_content : CapturedContent → Action Shooting (Unit {0})
  unfolding find_content project
  enrich_content content = if not (content.file_id == 0) then pure tt else (λ z.
      bind (λ ref. change (λ k. record k { content = some (enriched content ref) }))
        (tolerate none (lift (find_content content.content_id) z)))

  -- `_record_content`
  unfoldable pub record_content : ℕ → Option ℕ → Option ℕ → Option Text → Action Shooting (Unit {0})
  unfolding takes_up enrich_content
  record_content at none file_number path z = (ok tt, z)
  record_content at (some content_id) file_number path z =
      let content = from_event at content_id file_number path in
      if takes_up content_id z.capture
      then (do
        change (λ k. record k { content = some content })
        enrich_content content
        change (λ k. record k { content_ms = some at; state = CaptureState.content_available }))
          z
      else (ok tt, z)
