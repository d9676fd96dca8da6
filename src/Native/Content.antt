-- ===== src/Native/Content.antt =====
-- src/crsdkpy/backend/native.py: live view, postviews, the content index and previews of
-- `NativeBackend`.
use Prim.Native.String.{String}
use cr_sdkpy.Base.{
  ℕ, ◌+◌, ◌-◌, Bool, not, Option, none, some, List, [], map, ◌==◌, if◌then◌else◌, ◌is◌, get_last?,
  take, ok,
}
use cr_sdkpy.Base.Int.{ℤ, int_identity}
use cr_sdkpy.Enums.{PreviewKind}
use cr_sdkpy.Contract.{ContentRef, Preview}
use cr_sdkpy.Events.{Action, pure, gets, modify, raise_when, ◌>>=◌, ◌>>◌, unsupported}
use cr_sdkpy.Cabi.{check}
use cr_sdkpy.Native.Decode.{decode_content}
use cr_sdkpy.Native.Previews.{build_content_preview, build_postview, build_live_view_frame}
use cr_sdkpy.Native.Measured.{accept, add, has_content}
use cr_sdkpy.Native.Bridge.{
  Bridge, err_not_found, err_unsupported, preview_kind_to_abi, preview_capability, find_content,
  file_id_of, after_of,
}
use cr_sdkpy.Native.Backend.{State, raw, fetched, handle_of, mode_of}

module _ (C : Bridge) where
  -- `self._frames.accept(session_id, number)`
  abbrev is_new_frame : ℕ → ℕ → Action (State C) Bool
  is_new_frame id number s =
      let (b, frames) = accept id number s.frames in (ok b, record s { frames = frames })

  -- `_cabi.check(self._lib, status, ...)`
  abbrev check_status : ℤ → Action (State C) (Unit {0})
  check_status status s = (check status, s)

  abbrev clock_ms : Action (State C) ℕ
  clock_ms = gets (λ s. C.now_ms s.world)

  -- `get_live_view_frame`: the size, the bytes, and no frame twice.
  unfoldable pub get_live_view_frame : ℕ → Action (State C) (Option Preview)
  unfolding handle_of check accept build_live_view_frame
  get_live_view_frame id = do
    handle ← handle_of C id
    sized ← raw C (C.size_live_view_frame handle)
    if sized.0 is err_not_found then pure none else (do
      check_status sized.0
      reply ← raw C (C.get_live_view_frame handle sized.1.byte_length)
      if reply.0 is err_not_found then pure none else (do
        check_status reply.0
        new ← is_new_frame id reply.1.frame_number
        if not new
            then pure none
            else (clock_ms >>= λ now.
                pure
                  (some (build_live_view_frame (take reply.1.byte_length reply.2) reply.1 now)))))

  abbrev note_refused : ℕ → Bool → State C → State C
  note_refused id refused s =
      if refused
      then record s {
        measurements = record (s.measurements) {
          postview_configuration_refused = add id s.measurements.postview_configuration_refused;
        };
      }
      else s

  abbrev note_delivered : ℕ → State C → State C
  note_delivered id s = record s {
    measurements = record (s.measurements) {
      postview_delivered = add id s.measurements.postview_delivered;
    };
  }

  -- `configure_postview`
  unfoldable pub configure_postview : ℕ → Bool → Bool → Action (State C) (Unit {0})
  unfolding handle_of check
  configure_postview id enabled transfer_to_ram = do
    handle ← handle_of C id
    status ← raw C (C.configure_postview handle enabled transfer_to_ram)
    modify (note_refused id (status is err_unsupported))
    check_status status

  -- `pull_postview`
  unfoldable pub pull_postview : ℕ → Action (State C) (Option Preview)
  unfolding handle_of check build_postview
  pull_postview id = do
    handle ← handle_of C id
    announced ← raw C (C.pull_postview handle)
    if announced.0 is err_not_found then pure none else (do
      check_status announced.0
      bytes ← fetched C (C.take_postview handle announced.1.byte_length)
      modify (note_delivered id)
      now ← clock_ms
      preview ← (λ s. (build_postview bytes announced.1 now, s))
      pure (some preview))

  -- `_require_content_mode`
  abbrev require_content_mode : ℕ → String → Action (State C) (Unit {0})
  require_content_mode id capability s =
      raise_when (not (has_content (mode_of C id s))) (unsupported capability) s

  -- `list_content`: the count, then the items into a buffer that holds eight more.
  unfoldable pub list_content : ℕ → Option ℕ → Action (State C) (List ContentRef)
  unfolding handle_of check has_content decode_content
  list_content id newer_than = do
    handle ← handle_of C id
    require_content_mode id "content_index"
    count ← fetched C (C.count_content handle 1 (after_of newer_than))
    if count == 0 then pure [] else (do
      raws ← fetched C (C.list_content handle 1 (after_of newer_than) (count + 8))
      observed ← clock_ms
      pure (map (λ r. decode_content r observed) raws))

  -- `latest_content`
  unfoldable pub latest_content : ℕ → Action (State C) (Option ContentRef)
  unfolding list_content
  latest_content id = list_content id none >>= λ items. pure (get_last? items)

  -- `_content_by_id`
  unfoldable pub content_by_id : ℕ → ℕ → Action (State C) (Option ContentRef)
  unfolding list_content find_content
  content_by_id id content_id =
      list_content id (some (content_id - 1)) >>= λ items. pure (find_content content_id items)

  -- `get_preview`
  unfoldable pub get_preview : ℕ → ℕ → PreviewKind → Action (State C) Preview
  unfolding handle_of check has_content preview_capability preview_kind_to_abi content_by_id
      build_content_preview
  get_preview id content_id kind = do
    handle ← handle_of C id
    require_content_mode id (preview_capability kind)
    abi_kind ← (λ s. (preview_kind_to_abi kind, s))
    content ← content_by_id id content_id
    info ←
        fetched C (C.fetch_content_preview handle 1 content_id (file_id_of content) abi_kind 15000)
    bytes ← fetched C (C.take_content_preview handle info.byte_length)
    now ← clock_ms
    λ s. (build_content_preview kind bytes info now content, s)
