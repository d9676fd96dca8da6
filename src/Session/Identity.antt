-- ===== src/Session/Identity.antt =====
-- `wait_for_content` and the fetch of a preview by content id (src/crsdkpy/capture.py and
-- src/crsdkpy/session.py): which content they resolve to.
use cr_sdkpy.Base.{
  ℕ, zero, suc, ◌+◌, false, not, Option, none, some, [], ltb, get_last?, Result, ok, err, ◌≡◌, refl,
}
use mathlib.Core.Path.{subst}
use cr_sdkpy.Contract.{Backend, ContentRef, Preview}
use cr_sdkpy.Enums.{preview_identity}
use cr_sdkpy.Events.{Error, Action, pure, raise_when, bind}
use cr_sdkpy.Session.{now, call, pump, capabilities}
use cr_sdkpy.Session.Shots.{CapturedContent, project, Capture, Shot, Shooting, lift}
use cr_sdkpy.Session.Resolve.{
  scan_content, resolve, poll_index, content_loop, await_content, wait_for_content, or_timeout,
  is_stale,
}
use cr_sdkpy.Session.Outcomes.{Outcome, bind-Outcome, either-Outcome}
use cr_sdkpy.Session.Kept.{Leaves, await_content-Leaves}
use cr_sdkpy.Session.Newer.{AboveBaseline, HoldsNewer, IsNewer, ListsNewer, anything, Newer}

-- The content that a wait returns is the one that the capture then holds.
abbrev pub HeldIn : Option CapturedContent → Capture → Type 0
HeldIn none k = Unit
HeldIn (some content) k = k.content ≡ some content

abbrev pub Got : {S : Type 0} → Option CapturedContent → Shot S → Type 0
Got found z = HeldIn found z.capture

-- What a wait for content yields on a capture that began with the baseline: the content that the
-- capture then holds, above that baseline, which the capture has kept.
abbrev pub Newest : {S : Type 0} → Option ℕ → CapturedContent → Shot S → Type 0
Newest baseline content z =
    (z.capture.content ≡ some content)
    × (z.capture.baseline_content ≡ baseline)
    × AboveBaseline baseline content.content_id

-- What a preview that was fetched by content id is a preview of.
pub record IsPreviewOf (B : Backend) (baseline : Option ℕ) (p : Preview) (z : Shooting B)
    : Type 0 where
  pub content : CapturedContent
  pub newest : Newest baseline content z
  pub matches : is_stale B content.content_id p ≡ false

module _ (B : Backend) where
  poll_index-Got : (z : Shooting B) → Outcome Got (poll_index B z)
  unfolding poll_index Outcome
  poll_index-Got z =
      bind-Outcome _ Got _ (lift (call (B.list_content z.capture.baseline_content)) z) (anything _)
        (λ refs z' _. last (get_last? refs) z')
    where
      last :
          (found : Option ContentRef) (z : Shooting B)
          → Outcome Got (
              (elim found as (λ _. Action (Shooting B) (Option CapturedContent)) [
                | none ↦ pure none
                | some ref ↦ resolve B (project ref)
              ])
                z)
      last none z = tt
      last (some ref) z = refl

  pick-Got :
      (found : Option CapturedContent) (z : Shooting B)
      (other : Result Error (Option CapturedContent) × Shooting B)
      → Got found z
      → Outcome Got other
      → Outcome Got (elim found as (λ _. Result Error (Option CapturedContent) × Shooting B) [
        | some content ↦ (ok (some content), z)
        | none ↦ other
      ])
  unfolding Outcome
  pick-Got (some content) z other h h' = h
  pick-Got none z other h h' = h'

  held : (k : Capture) → HeldIn k.content k
  held k = elim (k.content) as (λ c. HeldIn c (record k { content = c })) [
    | none ↦ tt
    | some content ↦ refl
  ]

  content_loop-Got :
      (fuel next_poll_ms deadline : ℕ) (z : Shooting B)
      → Outcome Got (content_loop B fuel next_poll_ms deadline z)
  unfolding content_loop Outcome
  content_loop-Got zero next_poll_ms deadline z = tt
  content_loop-Got (suc fuel) next_poll_ms deadline z =
      either-Outcome Got (ltb (now B z.session) deadline) _ _
        (λ _.
          bind-Outcome _ Got _
            (scan_content B z.session.op_events
              (record z { session = record (z.session) { op_events = [] } }))
            (anything _)
            (λ _ z2 _. pick-Got z2.capture.content z2 _ (held z2.capture) (
              either-Outcome Got (ltb (now B z2.session) next_poll_ms) _ _
                (λ _.
                  bind-Outcome _ Got _ (lift (pump B _) z2) (anything _)
                    (λ _ z3 _. content_loop-Got fuel next_poll_ms deadline z3))
                (λ _. bind-Outcome Got Got _ (poll_index B z2) (poll_index-Got z2) (λ found z3 g.
                  pick-Got found z3 _ g (
                    bind-Outcome _ Got _ (lift (pump B _) z3) (anything _)
                      (λ _ z4 _. content_loop-Got fuel (now B z2.session + 150) deadline z4)))))))
        (λ _. tt)

  await_content-Got :
      (fuel timeout_ms : ℕ) (z : Shooting B) → Outcome Got (await_content B fuel timeout_ms z)
  unfolding await_content
  await_content-Got fuel timeout_ms z = pick-Got z.capture.content z _ (held z.capture) (
      bind-Outcome _ Got _ (lift (capabilities B) z) (anything _) (λ caps z1 _.
        bind-Outcome _ Got _ (raise_when (not caps.content_index) _ z1) (anything _)
          (λ _ z2 _. content_loop-Got fuel 0 (now B z2.session + timeout_ms) z2)))

module _ (B : Backend) (lists : ListsNewer B) (baseline : Option ℕ) where
  awaited :
      (x : Result Error (Option CapturedContent) × Shooting B)
      → Outcome Got x
      → Leaves B lists baseline x
      → Outcome (Newest baseline) (bind (or_timeout B) x)
  unfolding Outcome Leaves
  awaited (ok none, z) g p = tt
  awaited (ok (some content), z) g p = (
    g,
    p.0,
    subst (λ b. AboveBaseline b content.content_id) p.0
        (subst (λ c. HoldsNewer c z.capture.baseline_content) g p.1),
  )
  awaited (err e, z) g p = tt

module _ (B : Backend) (lists : ListsNewer B) where
  -- Over a backend that lists content above the bound it is given: where `wait_for_content`
  -- returns, on a capture that holds no content at or below its baseline, the content is the one
  -- that the capture then holds, the capture has the baseline that it had at the call, and the id
  -- of the content is greater than that baseline, where it had one.
  pub wait_for_content-newer :
      (fuel timeout_ms : ℕ) (z : Shooting B)
      → IsNewer z.capture
      → Outcome (Newest z.capture.baseline_content) (wait_for_content B fuel timeout_ms z)
  unfolding wait_for_content
  wait_for_content-newer fuel timeout_ms z h =
      awaited B lists z.capture.baseline_content (await_content B fuel timeout_ms z)
        (await_content-Got B fuel timeout_ms z)
        (await_content-Leaves B lists z.capture.baseline_content fuel timeout_ms z (refl, h))
