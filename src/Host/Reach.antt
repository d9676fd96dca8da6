-- ===== src/Host/Reach.antt =====
-- src/crsdkpy/backend/host.py: every operation of `HostBackend`, as the steps of a backend, and what
-- holds of its table of sessions wherever they lead.
use cr_sdkpy.Base.{ℕ, Bool, false, Option, nat_identity}
use cr_sdkpy.Base.Int.{ℤ}
use cr_sdkpy.Enums.{
  SessionMode, StillDestination, ReconnectPolicy, Command, CommandParameter, PreviewKind,
}
use cr_sdkpy.Events.{Text}
use cr_sdkpy.Host.Transport.{Platform, Host, new_host}
use cr_sdkpy.Host.Life.{start, shutdown, current_state}
use cr_sdkpy.Host.Access.{
  enumerate_cameras, poll_events, list_properties, get_property, set_property, send_command,
  live_view_info,
}
use cr_sdkpy.Host.Sessions.{open_session, close_session, connection_state, session_capabilities}
use cr_sdkpy.Host.Content.{
  get_live_view_frame, configure_postview, pull_postview, take_transfer_path, list_content,
  latest_content, get_preview,
}
use cr_sdkpy.Host.Mixins
use cr_sdkpy.Host.Mixins.{
  hosted_get_half_press-Keeps, hosted_set_half_press-Keeps, hosted_focus_state-Keeps,
  hosted_get_destination-Keeps, hosted_set_destination-Keeps, hosted_battery-Keeps,
  hosted_storage-Keeps, hosted_recording_state-Keeps, hosted_start_recording-Keeps,
  hosted_stop_recording-Keeps,
}
use cr_sdkpy.Host.Tables.{AreCoherent, no_sessions-AreCoherent, IsCoherent}
use cr_sdkpy.Host.Coherent.{
  list_properties-Keeps, get_property-Keeps, set_property-Keeps, send_command-Keeps,
  live_view_info-Keeps,
}
use cr_sdkpy.Host.Registry.{open_session-Keeps, close_session-Keeps}
use cr_sdkpy.Host.Alive.{start-Keeps, shutdown-Keeps, current_state-Keeps}
use cr_sdkpy.Host.Handled.{
  enumerate_cameras-Keeps, poll_events-Keeps, connection_state-Keeps, session_capabilities-Keeps,
  get_live_view_frame-Keeps, configure_postview-Keeps, pull_postview-Keeps,
  take_transfer_path-Keeps, list_content-Keeps, latest_content-Keeps, get_preview-Keeps,
}

module _ (P : Platform) (fuel : ℕ) where
  -- One operation of the backend, with any arguments, whatever its outcome.
  pub data Step (s : Host P) : Host P → Type 0 where
    starts : (adapter_dir : Text) → Step s (start P fuel adapter_dir s).1
    shuts_down : Step s (shutdown P s).1
    reads_state : Step s (current_state P s).1
    enumerates : (timeout_sec : ℕ) → Step s (enumerate_cameras P fuel timeout_sec s).1
    opens :
        (device_key : Text) (mode : SessionMode) (destination : Option StillDestination)
        (reconnect : ReconnectPolicy)
        → Step s (open_session P fuel device_key mode destination reconnect s).1
    closes : (id : ℕ) → Step s (close_session P fuel id s).1
    reads_connection : (id : ℕ) → Step s (connection_state P fuel id s).1
    reads_capabilities : (id : ℕ) → Step s (session_capabilities P fuel id s).1
    polls : (id timeout_ms : ℕ) → Step s (poll_events P fuel id timeout_ms s).1
    lists_properties : (id : ℕ) → Step s (list_properties P fuel id s).1
    gets_property : (id code : ℕ) → Step s (get_property P fuel id code s).1
    sets_property : (id code : ℕ) (value : ℤ) → Step s (set_property P fuel id code value s).1
    sends :
        (id : ℕ) (command : Command) (parameter : CommandParameter)
        → Step s (send_command P fuel id command parameter s).1
    looks : (id : ℕ) → Step s (live_view_info P fuel id s).1
    gets_frame : (id : ℕ) → Step s (get_live_view_frame P fuel id s).1
    configures :
        (id : ℕ) (enabled transfer_to_ram : Bool)
        → Step s (configure_postview P fuel id enabled transfer_to_ram s).1
    pulls : (id : ℕ) → Step s (pull_postview P fuel id s).1
    takes_path : (id : ℕ) → Step s (take_transfer_path P fuel id s).1
    lists_content :
        (id : ℕ) (newer_than : Option ℕ) → Step s (list_content P fuel id newer_than s).1
    reads_latest : (id : ℕ) → Step s (latest_content P fuel id s).1
    gets_preview :
        (id content_id : ℕ) (kind : PreviewKind)
        → Step s (get_preview P fuel id content_id kind s).1
    reads_stage : (id : ℕ) → Step s (Mixins.get_half_press P fuel id s).1
    sets_stage : (id : ℕ) (engaged : Bool) → Step s (Mixins.set_half_press P fuel id engaged s).1
    reads_focus : (id : ℕ) → Step s (Mixins.focus_state P fuel id s).1
    reads_destination : (id : ℕ) → Step s (Mixins.get_destination P fuel id s).1
    sets_destination :
        (id : ℕ) (destination : StillDestination)
        → Step s (Mixins.set_destination P fuel id destination s).1
    reads_battery : (id : ℕ) → Step s (Mixins.battery P fuel id s).1
    reads_storage : (id : ℕ) → Step s (Mixins.storage P fuel id s).1
    reads_recording : (id : ℕ) → Step s (Mixins.recording_state P fuel id s).1
    starts_recording : (id : ℕ) → Step s (Mixins.start_recording P fuel id s).1
    stops_recording : (id : ℕ) → Step s (Mixins.stop_recording P fuel id s).1

  Step-IsCoherent : (s s' : Host P) → Step s s' → IsCoherent P s → IsCoherent P s'
  Step-IsCoherent s _ (starts adapter_dir) c = start-Keeps P fuel adapter_dir s c
  Step-IsCoherent s _ shuts_down c = shutdown-Keeps P s c
  Step-IsCoherent s _ reads_state c = current_state-Keeps P s c
  Step-IsCoherent s _ (enumerates timeout_sec) c = enumerate_cameras-Keeps P fuel timeout_sec s c
  Step-IsCoherent s _ (opens device_key mode destination reconnect) c =
      open_session-Keeps P fuel device_key mode destination reconnect s c
  Step-IsCoherent s _ (closes id) c = close_session-Keeps P fuel id s c
  Step-IsCoherent s _ (reads_connection id) c = connection_state-Keeps P fuel id s c
  Step-IsCoherent s _ (reads_capabilities id) c = session_capabilities-Keeps P fuel id s c
  Step-IsCoherent s _ (polls id timeout_ms) c = poll_events-Keeps P fuel id timeout_ms s c
  Step-IsCoherent s _ (lists_properties id) c = list_properties-Keeps P fuel id s c
  Step-IsCoherent s _ (gets_property id code) c = get_property-Keeps P fuel id code s c
  Step-IsCoherent s _ (sets_property id code value) c = set_property-Keeps P fuel id code value s c
  Step-IsCoherent s _ (sends id command parameter) c =
      send_command-Keeps P fuel id command parameter s c
  Step-IsCoherent s _ (looks id) c = live_view_info-Keeps P fuel id s c
  Step-IsCoherent s _ (gets_frame id) c = get_live_view_frame-Keeps P fuel id s c
  Step-IsCoherent s _ (configures id enabled transfer_to_ram) c =
      configure_postview-Keeps P fuel id enabled transfer_to_ram s c
  Step-IsCoherent s _ (pulls id) c = pull_postview-Keeps P fuel id s c
  Step-IsCoherent s _ (takes_path id) c = take_transfer_path-Keeps P fuel id s c
  Step-IsCoherent s _ (lists_content id newer_than) c = list_content-Keeps P fuel id newer_than s c
  Step-IsCoherent s _ (reads_latest id) c = latest_content-Keeps P fuel id s c
  Step-IsCoherent s _ (gets_preview id content_id kind) c =
      get_preview-Keeps P fuel id content_id kind s c
  Step-IsCoherent s _ (reads_stage id) c = hosted_get_half_press-Keeps P fuel id s c
  Step-IsCoherent s _ (sets_stage id engaged) c = hosted_set_half_press-Keeps P fuel id engaged s c
  Step-IsCoherent s _ (reads_focus id) c = hosted_focus_state-Keeps P fuel id s c
  Step-IsCoherent s _ (reads_destination id) c = hosted_get_destination-Keeps P fuel id s c
  Step-IsCoherent s _ (sets_destination id destination) c =
      hosted_set_destination-Keeps P fuel id destination s c
  Step-IsCoherent s _ (reads_battery id) c = hosted_battery-Keeps P fuel id s c
  Step-IsCoherent s _ (reads_storage id) c = hosted_storage-Keeps P fuel id s c
  Step-IsCoherent s _ (reads_recording id) c = hosted_recording_state-Keeps P fuel id s c
  Step-IsCoherent s _ (starts_recording id) c = hosted_start_recording-Keeps P fuel id s c
  Step-IsCoherent s _ (stops_recording id) c = hosted_stop_recording-Keeps P fuel id s c

  -- Where a backend gets to by its operations, from a new one on.
  pub data Reachable : Host P → Type 0 where
    created : (world : P.World) → Reachable (new_host P world)
    and_then : {s s' : Host P} → Reachable s → Step s s' → Reachable s'

  Reachable-IsCoherent : (s : Host P) → Reachable s → IsCoherent P s
  unfolding IsCoherent
  Reachable-IsCoherent _ (created world) = no_sessions-AreCoherent false 0
  Reachable-IsCoherent _ (and_then {s} {s'} r step) =
      Step-IsCoherent s s' step (Reachable-IsCoherent s r)

  -- Wherever the operations of the backend lead, in any order and with any outcome, and whatever
  -- the process and the operating system answer: the sessions that have a handle are those that
  -- have a mode, each has a number that has been given out, and without a process there are none.
  pub Reachable-AreCoherent :
      (s : Host P) → Reachable s → AreCoherent s.running s.handles s.modes s.session_counter
  unfolding IsCoherent
  Reachable-AreCoherent s r = Reachable-IsCoherent s r
