-- ===== src/Host/Handled.antt =====
-- src/crsdkpy/backend/host.py: discovery, events, live view, postviews and content, and the table of
-- sessions.
use cr_sdkpy.Base.{ℕ, ◌-◌, Bool, not, Option, none, some, nat_identity, Result, ok, err}
use cr_sdkpy.Base.Dict.{lookup}
use cr_sdkpy.Base.Int.{pos}
use cr_sdkpy.Enums.{ConnectionState, PreviewKind}
use cr_sdkpy.Events.{Error, Action, bind, unsupported, backend_error, native_backend_error}
use cr_sdkpy.Ipc.{unpack_array, from_bytes}
use cr_sdkpy.Cabi.Structs.{
  camera_info_size, event_size, content_size, preview_info_size, postview_info_size,
  frame_info_size, read_frame_info,
}
use cr_sdkpy.Native.Measured.{MeasuredCapabilities, FrameSequencer, accept, has_content}
use cr_sdkpy.Native.Bridge.{preview_kind_to_abi, preview_capability, file_id_of, after_of}
use cr_sdkpy.Native.Keeps.{build_capabilities-Keeps}
use cr_sdkpy.Session.Keeps.{Keeps, bind_keeps, if_Keeps}
use cr_sdkpy.Host.Wire.{no_arguments, content_args_bytes, Arguments}
use cr_sdkpy.Host.Transport.{Platform, Host, call_ex, call, Reply}
use cr_sdkpy.Host.Life.{is_ready, current_state}
use cr_sdkpy.Host.Access.{enumerate_cameras, poll_events, device}
use cr_sdkpy.Host.Sessions.{has_crashed, ask_state, connection_state, mode_of, session_capabilities}
use cr_sdkpy.Host.Content.{
  is_nothing, noting_refusal, flag, get_live_view_frame, configure_postview, pull_postview,
  take_transfer_path, list_content, latest_content, content_by_id, get_preview,
}
use cr_sdkpy.Host.Tables.{IsCoherent, call_ex-IsCoherent, wire_keeps, guard_keeps}
use cr_sdkpy.Host.Coherent.{with_handle_keeps, after_call_keeps, hosted-DeviceKeeps}
use cr_sdkpy.Host.Alive.{current_state-Keeps}

module _ (P : Platform) (fuel : ℕ) where
  pub enumerate_cameras-Keeps :
      (timeout_sec : ℕ) → Keeps (IsCoherent P) (enumerate_cameras P fuel timeout_sec)
  unfolding enumerate_cameras
  enumerate_cameras-Keeps timeout_sec s c =
      guard_keeps P (not (is_ready s.state)) native_backend_error _ s c (
        after_call_keeps P fuel 4 (record no_arguments { i32 = pos timeout_sec }) _ s c
          (λ reply s1 c1.
            wire_keeps P (unpack_array camera_info_size reply.1 reply.0.count) _ s1 c1
              (λ items. c1)))

  pub poll_events-Keeps :
      (id timeout_ms : ℕ) → Keeps (IsCoherent P) (poll_events P fuel id timeout_ms)
  unfolding poll_events
  poll_events-Keeps id timeout_ms s c = with_handle_keeps P fuel id _ s c (λ handle s1 c1.
      after_call_keeps P fuel 9 (record no_arguments { handle = handle; i32 = pos timeout_ms }) _ s1
        c1
        (λ reply s2 c2.
          wire_keeps P (unpack_array event_size reply.1 reply.0.count) _ s2 c2 (λ items. c2)))

  pub ask_state-Keeps : (id : ℕ) → Keeps (IsCoherent P) (ask_state P fuel id)
  ask_state-Keeps id s c = by_table (lookup id s.handles)
    where
      by_table :
          (found : Option ℕ)
          → IsCoherent P
              (elim found as (λ _. Result Error ConnectionState × Host P) [
                | none ↦ (ok ConnectionState.closed, s)
                | some handle ↦
                    bind
                      (λ reply s'.
                        (ok (cr_sdkpy.Native.Decode.abi_to_state reply.0.i32_result), s'))
                      (call P fuel 8 (record no_arguments { handle = handle }) s)
              ]).1
      by_table none = c
      by_table (some handle) =
          after_call_keeps P fuel 8 (record no_arguments { handle = handle }) _ s c
            (λ reply s1 c1. c1)

  pub connection_state-Keeps : (id : ℕ) → Keeps (IsCoherent P) (connection_state P fuel id)
  unfolding connection_state
  connection_state-Keeps id s c =
      bind_keeps (IsCoherent P) _ (current_state P s)
        (λ state s1 c1.
          guard_keeps P (has_crashed P fuel state) backend_error _ s1 c1 (ask_state-Keeps id s1 c1))
        (current_state-Keeps P s c)

  pub session_capabilities-Keeps : (id : ℕ) → Keeps (IsCoherent P) (session_capabilities P fuel id)
  unfolding session_capabilities device
  session_capabilities-Keeps id s c =
      build_capabilities-Keeps (device P fuel id) (IsCoherent P) (hosted-DeviceKeeps P fuel id)
        (mode_of P fuel id s) _ s c

  -- What a session remembers of its capabilities and frames is no part of the tables.
  remembered-IsCoherent :
      (m : MeasuredCapabilities) (f : FrameSequencer) (s : Host P)
      → IsCoherent P s
      → IsCoherent P (record s { measurements = m; frames = f })
  unfolding IsCoherent
  remembered-IsCoherent m f s c = c

  -- What follows a call with a blob.
  after_call_ex_keeps :
      {A : Type 0} (op : ℕ) (arguments : Arguments) (f : Reply P → Action (Host P) A) (s : Host P)
      → IsCoherent P s
      → ((reply : Reply P) → Keeps (IsCoherent P) (f reply))
      → IsCoherent P (bind f (call_ex P fuel op arguments s)).1
  after_call_ex_keeps op arguments f s c h =
      bind_keeps (IsCoherent P) f (call_ex P fuel op arguments s) h
        (call_ex-IsCoherent P fuel op arguments s c)

  pub get_live_view_frame-Keeps : (id : ℕ) → Keeps (IsCoherent P) (get_live_view_frame P fuel id)
  unfolding get_live_view_frame
  get_live_view_frame-Keeps id s c = with_handle_keeps P fuel id _ s c (λ handle s1 c1.
      after_call_ex_keeps 19 (record no_arguments { handle = handle }) _ s1 c1
        (λ reply s2 c2.
          if_Keeps (IsCoherent P) (is_nothing reply.0.count reply.2) _ _ (λ s3 c3. c3)
            (λ s3 c3. wire_keeps P (from_bytes frame_info_size reply.2) _ s3 c3 (λ bytes.
              let r = accept id (read_frame_info bytes).frame_number s3.frames in
              if_Keeps (IsCoherent P) (not r.0) _ _ (λ s4 c4. c4) (λ s4 c4. c4)
                (record s3 { frames = r.1 }) (remembered-IsCoherent s3.measurements r.1 s3 c3)))
            s2 c2))

  noting_refusal_keeps :
      {A : Type 0} (id : ℕ) (x : Result Error A × Host P)
      → IsCoherent P x.1
      → IsCoherent P (noting_refusal P fuel id x).1
  noting_refusal_keeps id (ok a, s) c = c
  noting_refusal_keeps id (err (unsupported capability), s) c = remembered-IsCoherent _ s.frames s c
  noting_refusal_keeps id (err e, s) c = c

  pub configure_postview-Keeps :
      (id : ℕ) (enabled transfer_to_ram : Bool)
      → Keeps (IsCoherent P) (configure_postview P fuel id enabled transfer_to_ram)
  unfolding configure_postview
  configure_postview-Keeps id enabled transfer_to_ram s c =
      with_handle_keeps P fuel id _ s c (λ handle s1 c1. noting_refusal_keeps id _ (
        after_call_keeps P fuel 16
          (record no_arguments {
            handle = handle;
            i32 = pos (flag P fuel enabled);
            i32_2 = pos (flag P fuel transfer_to_ram);
          })
          _ s1 c1 (λ reply s2 c2. c2)))

  pub pull_postview-Keeps : (id : ℕ) → Keeps (IsCoherent P) (pull_postview P fuel id)
  unfolding pull_postview
  pull_postview-Keeps id s c = with_handle_keeps P fuel id _ s c (λ handle s1 c1.
      after_call_ex_keeps 17 (record no_arguments { handle = handle }) _ s1 c1
        (λ reply s2 c2.
          if_Keeps (IsCoherent P) (is_nothing reply.0.count reply.2) _ _ (λ s3 c3. c3)
            (λ s3 c3. wire_keeps P (from_bytes postview_info_size reply.2) _ s3 c3 (λ bytes.
              bind_keeps (IsCoherent P) _ _ (λ preview s4 c4. c4)
                (remembered-IsCoherent _ s3.frames s3 c3)))
            s2 c2))

  pub take_transfer_path-Keeps : (id : ℕ) → Keeps (IsCoherent P) (take_transfer_path P fuel id)
  unfolding take_transfer_path
  take_transfer_path-Keeps id s c = with_handle_keeps P fuel id _ s c (λ handle s1 c1.
      after_call_keeps P fuel 20 (record no_arguments { handle = handle }) _ s1 c1
        (λ reply s2 c2. c2))

  listing : ℕ → Option ℕ → Arguments
  listing handle newer_than = record no_arguments {
    handle = handle;
    extra = content_args_bytes 1 0 0 (after_of newer_than) 0 0;
  }

  pub list_content-Keeps :
      (id : ℕ) (newer_than : Option ℕ) → Keeps (IsCoherent P) (list_content P fuel id newer_than)
  unfolding list_content listing
  list_content-Keeps id newer_than s c = with_handle_keeps P fuel id _ s c (λ handle s1 c1.
      guard_keeps P (not (has_content (mode_of P fuel id s1))) (unsupported "content_index") _ s1 c1
        (after_call_ex_keeps 14 (listing handle newer_than) _ s1 c1 (λ reply s2 c2.
          wire_keeps P (unpack_array content_size reply.1 reply.0.count) _ s2 c2 (λ items. c2))))

  pub latest_content-Keeps : (id : ℕ) → Keeps (IsCoherent P) (latest_content P fuel id)
  unfolding latest_content
  latest_content-Keeps id s c =
      bind_keeps (IsCoherent P) _ (list_content P fuel id none s) (λ items s1 c1. c1)
        (list_content-Keeps id none s c)

  pub content_by_id-Keeps :
      (id content_id : ℕ) → Keeps (IsCoherent P) (content_by_id P fuel id content_id)
  unfolding content_by_id
  content_by_id-Keeps id content_id s c =
      bind_keeps (IsCoherent P) _ (list_content P fuel id (some (content_id - 1)) s)
        (λ items s1 c1. c1) (list_content-Keeps id (some (content_id - 1)) s c)

  pub get_preview-Keeps :
      (id content_id : ℕ) (kind : PreviewKind)
      → Keeps (IsCoherent P) (get_preview P fuel id content_id kind)
  unfolding get_preview
  get_preview-Keeps id content_id kind s c = with_handle_keeps P fuel id _ s c (λ handle s1 c1.
      guard_keeps P (not (has_content (mode_of P fuel id s1)))
        (unsupported (preview_capability kind)) _ s1 c1
        (bind_keeps (IsCoherent P) _ (preview_kind_to_abi kind, s1)
          (λ abi_kind s2 c2.
            bind_keeps (IsCoherent P) _ (content_by_id P fuel id content_id s2)
              (λ content s3 c3.
                after_call_ex_keeps 15
                  (record no_arguments {
                    handle = handle;
                    extra = content_args_bytes 1 content_id (file_id_of content) 0 abi_kind 15000;
                  })
                  _ s3 c3
                  (λ reply s4 c4.
                    wire_keeps P (from_bytes preview_info_size reply.2) _ s4 c4 (λ bytes. c4)))
              (content_by_id-Keeps id content_id s2 c2))
          c1))
