-- ===== src/Host/Content.antt =====
-- src/crsdkpy/backend/host.py: live view, postviews, transferred files, the content index and
-- previews of `HostBackend`.
use Prim.Native.String.{String}
use cr_sdkpy.Base.{
  ℕ, ◌-◌, Bool, not, ◌||◌, Option, none, some, List, map, ◌==◌, if◌then◌else◌, length, get_last?,
  Result, ok, err,
}
use cr_sdkpy.Base.Int.{pos}
use cr_sdkpy.Enums.{PreviewKind}
use cr_sdkpy.Contract.{ContentRef, Preview}
use cr_sdkpy.Events.{Error, Action, Text, pure, gets, modify, raise_when, ◌>>=◌, ◌>>◌, unsupported}
use cr_sdkpy.Ipc.{unpack_array, from_bytes}
use cr_sdkpy.Cabi.Structs.{
  content_size, read_content, preview_info_size, read_preview_info, postview_info_size,
  read_postview_info, frame_info_size, read_frame_info,
}
use cr_sdkpy.Native.Decode.{decode_content, text_or_none}
use cr_sdkpy.Native.Previews.{build_content_preview, build_postview, build_live_view_frame}
use cr_sdkpy.Native.Measured.{accept, add, has_content}
use cr_sdkpy.Native.Bridge.{
  preview_kind_to_abi, preview_capability, find_content, file_id_of, after_of,
}
use cr_sdkpy.Host.Wire.{no_arguments, content_args_bytes}
use cr_sdkpy.Host.Transport.{Platform, Host, wire, call, call_ex}
use cr_sdkpy.Host.Access.{handle_of}
use cr_sdkpy.Host.Sessions.{mode_of}

-- `response.count == 0 or not tail`
abbrev pub is_nothing : {A : Type 0} → ℕ → List A → Bool
is_nothing count tail = count == 0 || length tail == 0

module _ (P : Platform) (fuel : ℕ) where
  -- `self._frames.accept(session_id, number)`
  abbrev pub is_new_frame : ℕ → ℕ → Action (Host P) Bool
  is_new_frame id number s =
      let (b, frames) = accept id number s.frames in (ok b, record s { frames = frames })

  abbrev pub clock_ms : Action (Host P) ℕ
  clock_ms = gets (λ s. P.now_ms s.world)

  -- `get_live_view_frame`
  unfoldable pub get_live_view_frame : ℕ → Action (Host P) (Option Preview)
  unfolding handle_of call_ex from_bytes accept read_frame_info build_live_view_frame
  get_live_view_frame id = do
    handle ← handle_of P fuel id
    reply ← call_ex P fuel 19 (record no_arguments { handle = handle })
    if is_nothing reply.0.count reply.2 then pure none else (do
      bytes ← wire P (from_bytes frame_info_size reply.2)
      let info = read_frame_info bytes
      new ← is_new_frame id info.frame_number
      if not new
          then pure none
          else (clock_ms >>= λ now. pure (some (build_live_view_frame reply.1 info now))))

  abbrev pub note_refused : ℕ → Host P → Host P
  note_refused id s = record s {
    measurements = record (s.measurements) {
      postview_configuration_refused = add id s.measurements.postview_configuration_refused;
    };
  }

  abbrev pub note_delivered : ℕ → Host P → Host P
  note_delivered id s = record s {
    measurements = record (s.measurements) {
      postview_delivered = add id s.measurements.postview_delivered;
    };
  }

  -- `except UnsupportedOperationError: ...; raise`
  abbrev pub noting_refusal : {A : Type 0} → ℕ → Result Error A × Host P → Result Error A × Host P
  noting_refusal id (ok a, s) = (ok a, s)
  noting_refusal id (err (unsupported capability), s) =
      (err (unsupported capability), note_refused id s)
  noting_refusal id (err e, s) = (err e, s)

  abbrev pub flag : Bool → ℕ
  flag b = if b then 1 else 0

  -- `configure_postview`
  unfoldable pub configure_postview : ℕ → Bool → Bool → Action (Host P) (Unit {0})
  unfolding handle_of call
  configure_postview id enabled transfer_to_ram = handle_of P fuel id >>= λ handle s.
      noting_refusal id (
        (call P fuel 16 (record no_arguments {
          handle = handle;
          i32 = pos (flag enabled);
          i32_2 = pos (flag transfer_to_ram);
        })
            >>= λ reply. pure tt)
          s)

  -- `pull_postview`
  unfoldable pub pull_postview : ℕ → Action (Host P) (Option Preview)
  unfolding handle_of call_ex from_bytes read_postview_info build_postview
  pull_postview id = do
    handle ← handle_of P fuel id
    reply ← call_ex P fuel 17 (record no_arguments { handle = handle })
    if is_nothing reply.0.count reply.2 then pure none else (do
      bytes ← wire P (from_bytes postview_info_size reply.2)
      modify (note_delivered id)
      now ← clock_ms
      preview ← (λ s. (build_postview reply.1 (read_postview_info bytes) now, s))
      pure (some preview))

  -- `take_transfer_path`
  unfoldable pub take_transfer_path : ℕ → Action (Host P) (Option Text)
  unfolding handle_of call
  take_transfer_path id = do
    handle ← handle_of P fuel id
    reply ← call P fuel 20 (record no_arguments { handle = handle })
    pure (if reply.0.count == 0 then none else text_or_none reply.0.message)

  -- `_require_content_mode`
  abbrev pub require_content_mode : ℕ → String → Action (Host P) (Unit {0})
  require_content_mode id capability s =
      raise_when (not (has_content (mode_of P fuel id s))) (unsupported capability) s

  -- `list_content`
  unfoldable pub list_content : ℕ → Option ℕ → Action (Host P) (List ContentRef)
  unfolding handle_of call_ex unpack_array has_content decode_content read_content
      content_args_bytes
  list_content id newer_than = do
    handle ← handle_of P fuel id
    require_content_mode id "content_index"
    reply ← call_ex P fuel 14 (record no_arguments {
      handle = handle;
      extra = content_args_bytes 1 0 0 (after_of newer_than) 0 0;
    })
    items ← wire P (unpack_array content_size reply.1 reply.0.count)
    observed ← clock_ms
    pure (map (λ item. decode_content (read_content item) observed) items)

  -- `latest_content`
  unfoldable pub latest_content : ℕ → Action (Host P) (Option ContentRef)
  unfolding list_content
  latest_content id = list_content id none >>= λ items. pure (get_last? items)

  -- `_content_by_id`
  unfoldable pub content_by_id : ℕ → ℕ → Action (Host P) (Option ContentRef)
  unfolding list_content find_content
  content_by_id id content_id =
      list_content id (some (content_id - 1)) >>= λ items. pure (find_content content_id items)

  -- `get_preview`
  unfoldable pub get_preview : ℕ → ℕ → PreviewKind → Action (Host P) Preview
  unfolding handle_of has_content preview_capability preview_kind_to_abi content_by_id call_ex
      content_args_bytes from_bytes read_preview_info build_content_preview
  get_preview id content_id kind = do
    handle ← handle_of P fuel id
    require_content_mode id (preview_capability kind)
    abi_kind ← (λ s. (preview_kind_to_abi kind, s))
    content ← content_by_id id content_id
    reply ← call_ex P fuel 15 (record no_arguments {
      handle = handle;
      extra = content_args_bytes 1 content_id (file_id_of content) 0 abi_kind 15000;
    })
    bytes ← wire P (from_bytes preview_info_size reply.2)
    now ← clock_ms
    λ s. (build_content_preview kind reply.1 (read_preview_info bytes) now content, s)
