-- ===== src/Session/Resolve.antt =====
-- The content of a capture and its previews: `_await_content` and `_fetch_capture_preview` of
-- src/crsdkpy/session.py, `wait_for_content` and `preview` of src/crsdkpy/capture.py.
use cr_sdkpy.Base.{
  ℕ, zero, suc, ◌+◌, ◌-◌, min, max, Bool, false, not, Option, none, some, List, [], ◌∷◌, ltb, ◌==◌,
  if◌then◌else◌, get_last?, ok, err, ◌is◌,
}
use cr_sdkpy.Base.Dict.{lookup, insert}
use cr_sdkpy.Enums.{CaptureState, PreviewKind, preview_identity}
use cr_sdkpy.Contract.{Backend, Preview}
use cr_sdkpy.Events.{
  Event, Action, pure, raise, gets, raise_when, bind, ◌>>=◌, ◌>>◌, unsupported, camera_connection,
  operation_timeout, exhausted,
}
use cr_sdkpy.Session.{Live, now, call, pump, capabilities, check_usable, take_op_events}
use cr_sdkpy.Session.Shots.{CapturedContent, project, Capture, Shooting, lift, record_content}

module _ (B : Backend) where
  open B use {State, latest_content, list_content, get_preview, pull_postview, send_command}

  -- The loop of `_await_content` over a batch of events.
  unfoldable pub scan_content : List Event → Action (Shooting B) (Unit {0})
  unfolding record_content
  scan_content [] z = (ok tt, z)
  scan_content (Event.content at content_id file_number path ∷ events) z =
      bind (λ _. scan_content events) (record_content B at content_id file_number path z)
  scan_content (_ ∷ events) z = scan_content events z

  -- A poll of the index that found something: the newest item is the content.
  abbrev pub resolve : CapturedContent → Action (Shooting B) (Option CapturedContent)
  resolve content z = (
    ok (some content),
    record z {
      capture = record (z.capture) {
        content = some content;
        content_ms = some (now B z.session);
        state = CaptureState.content_available;
      };
    },
  )

  -- One poll of the index, at a round of the loop: the content, if there is any.
  unfoldable pub poll_index : Action (Shooting B) (Option CapturedContent)
  unfolding project
  poll_index z =
      (lift (call (list_content z.capture.baseline_content)) >>= λ newer. elim (get_last? newer) [
        | none ↦ pure none
        | some ref ↦ resolve (project ref)
      ])
        z

  -- The loop of `_await_content`; `next_poll_ms` paces the polls.
  unfoldable pub content_loop : ℕ → ℕ → ℕ → Action (Shooting B) (Option CapturedContent)
  unfolding pump scan_content poll_index
  content_loop zero next_poll_ms deadline z = (err exhausted, z)
  content_loop (suc fuel) next_poll_ms deadline z =
      let round =
        (lift take_op_events >>= λ events. scan_content events >>= λ _ z'.
        let at = now B z'.session in
        let waiting =
          (lift (pump B (max 1 (min 50 (deadline - at)))) >>= λ _.
          content_loop fuel next_poll_ms deadline)
            z' in
        let polling =
          (poll_index >>= λ found z''. elim found [
            | some content ↦ (ok (some content), z'')
            | none ↦
                (lift (pump B (max 1 (min 50 (deadline - now B z''.session)))) >>= λ _.
                content_loop fuel (at + 150) deadline)
                  z''
          ])
            z' in
        elim (z'.capture.content) [
          | some content ↦ (ok (some content), z')
          | none ↦ if ltb at next_poll_ms then waiting else polling
        ])
          z in
      if ltb (now B z.session) deadline then round else (ok none, z)

  -- `_await_content`
  unfoldable pub await_content : ℕ → ℕ → Action (Shooting B) (Option CapturedContent)
  unfolding capabilities content_loop
  await_content fuel timeout_ms z = elim (z.capture.content) [
    | some content ↦ (ok (some content), z)
    | none ↦
        (do
          caps ← lift (capabilities B)
          raise_when (not caps.content_index) (unsupported "content_index")
          start ← gets (λ z'. now B z'.session)
          content_loop fuel 0 (start + timeout_ms))
          z
  ]

  abbrev pub or_timeout : {A : Type 0} → Option A → Action (Shooting B) A
  or_timeout none z = (err operation_timeout, z)
  or_timeout (some a) z = (ok a, z)

  -- `Capture.wait_for_content`
  unfoldable pub wait_for_content : ℕ → ℕ → Action (Shooting B) CapturedContent
  unfolding await_content
  wait_for_content fuel timeout_ms = await_content fuel timeout_ms >>= or_timeout

  -- The wait for a postview in `_fetch_capture_preview`.
  unfoldable pub postview_loop : ℕ → ℕ → Action (Live B) Preview
  unfolding pump
  postview_loop zero deadline c = (err exhausted, c)
  postview_loop (suc fuel) deadline c =
      let again =
        (call pull_postview >>= λ found c'. elim found [
          | some preview ↦ (ok preview, c')
          | none ↦
              (pump B (max 1 (min 50 (deadline - now B c'))) >>= λ _. postview_loop fuel deadline)
                c'
        ])
          c in
      if ltb (now B c) deadline then again else (err operation_timeout, c)

  -- Whether a preview names another content than the one that was asked for.
  abbrev pub is_stale : ℕ → Preview → Bool
  is_stale content_id preview = elim (preview.content_id) [
    | none ↦ false
    | some found ↦ not (found == content_id)
  ]

  -- The fetch by content id, with the check of identity.
  unfoldable pub fetch_by_content : PreviewKind → CapturedContent → Action (Shooting B) Preview
  fetch_by_content kind content = lift (call (get_preview content.content_id kind)) >>= λ preview.
      if is_stale content.content_id preview then raise (camera_connection false) else pure preview

  -- `_fetch_capture_preview`
  unfoldable pub fetch_capture_preview : ℕ → PreviewKind → ℕ → Action (Shooting B) Preview
  unfolding check_usable capabilities postview_loop await_content fetch_by_content
  fetch_capture_preview fuel kind timeout_ms = do
    lift (check_usable B)
    caps ← lift (capabilities B)
    if kind is PreviewKind.postview
        then (do
          raise_when (not caps.postview_delivery) (unsupported "postview_delivery")
          at ← gets (λ z. now B z.session)
          lift (postview_loop fuel (at + timeout_ms)))
        else (await_content fuel timeout_ms >>= or_timeout >>= fetch_by_content kind)

  -- What `Capture.preview` keeps of a preview that it has fetched.
  abbrev remember : PreviewKind → Preview → Capture → Capture
  remember kind preview k = record k {
    previews = insert kind preview k.previews;
    state = elim (k.state) [
      | CaptureState.content_available ↦ CaptureState.preview_available
      | other ↦ other
    ];
  }

  abbrev fetch_and_remember : ℕ → PreviewKind → ℕ → Action (Shooting B) Preview
  fetch_and_remember fuel kind timeout_ms =
      fetch_capture_preview fuel kind timeout_ms >>= λ preview z.
      (ok preview, record z { capture = remember kind preview z.capture })

  -- `Capture.preview`
  unfoldable pub preview : ℕ → PreviewKind → ℕ → Action (Shooting B) Preview
  unfolding fetch_capture_preview
  preview fuel kind timeout_ms z =
      if kind is PreviewKind.live_view
      then (err (unsupported "live_view"), z)
      else (elim (lookup kind z.capture.previews) [
        | some known ↦ (ok known, z)
        | none ↦ fetch_and_remember fuel kind timeout_ms z
      ])
