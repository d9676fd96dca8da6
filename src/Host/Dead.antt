-- ===== src/Host/Dead.antt =====
-- src/crsdkpy/backend/host.py: a backend whose process has been found dead.
use cr_sdkpy.Base.{
  ℕ, Bool, true, false, not, Option, none, some, [], Result, ok, err, ◌≡◌, refl, if◌then◌else◌,
  arith,
}
use cr_sdkpy.Base.Int.{ℤ}
use cr_sdkpy.Enums.{Command, CommandParameter, PreviewKind, StillDestination}
use cr_sdkpy.Events.{Error, bind, backend_error, session_closed, native_backend_error}
use cr_sdkpy.Ipc.{Stream, Wire, Frame, read_frame}
use cr_sdkpy.Host.Transport.{
  Platform, HostState, Host, set_state, cleanup_process, end_process, terminate, unless_ended,
  require_process, frame_or_die, read_frame_or_die,
}
use cr_sdkpy.Host.Life.{may_crash, is_ready, current_state}
use cr_sdkpy.Host.Access.{
  enumerate_cameras, handle_of, poll_events, get_property, set_property, send_command,
  list_properties, live_view_info, device,
}
use cr_sdkpy.Host.Sessions.{close_session, connection_state, session_capabilities}
use cr_sdkpy.Host.Content.{
  get_live_view_frame, get_preview, configure_postview, pull_postview, take_transfer_path,
  list_content, latest_content,
}
use cr_sdkpy.Native.Device
use cr_sdkpy.Host.Mixins.{
  get_half_press, set_half_press, focus_state, get_destination, set_destination, battery, storage,
  recording_state, start_recording, stop_recording,
}

module _ (P : Platform) where
  -- A backend that knows that its process is gone, and what it answers with `fuel`.
  pub record IsDead (s : Host P) : Type 0 where
    pub crashed : s.state ≡ HostState.crashed
    pub no_process : s.running ≡ false
    pub connection : (fuel id : ℕ) → connection_state P fuel id s ≡ (err backend_error, s)
    pub enumerates :
        (fuel timeout_sec : ℕ)
        → enumerate_cameras P fuel timeout_sec s ≡ (err native_backend_error, s)
    pub polls :
        (fuel id timeout_ms : ℕ) → poll_events P fuel id timeout_ms s ≡ (err session_closed, s)
    pub lists : (fuel id : ℕ) → list_properties P fuel id s ≡ (err session_closed, s)
    pub gets : (fuel id code : ℕ) → get_property P fuel id code s ≡ (err session_closed, s)
    pub sets :
        (fuel id code : ℕ) (value : ℤ)
        → set_property P fuel id code value s ≡ (err session_closed, s)
    pub sends :
        (fuel id : ℕ) (command : Command) (parameter : CommandParameter)
        → send_command P fuel id command parameter s ≡ (err session_closed, s)
    pub frames : (fuel id : ℕ) → get_live_view_frame P fuel id s ≡ (err session_closed, s)
    pub previews :
        (fuel id content_id : ℕ) (kind : PreviewKind)
        → get_preview P fuel id content_id kind s ≡ (err session_closed, s)
    pub describes : (fuel id : ℕ) → session_capabilities P fuel id s ≡ (err session_closed, s)
    pub frame_info : (fuel id : ℕ) → live_view_info P fuel id s ≡ (err session_closed, s)
    pub configures :
        (fuel id : ℕ) (enabled transfer_to_ram : Bool)
        → configure_postview P fuel id enabled transfer_to_ram s ≡ (err session_closed, s)
    pub postviews : (fuel id : ℕ) → pull_postview P fuel id s ≡ (err session_closed, s)
    pub transfers : (fuel id : ℕ) → take_transfer_path P fuel id s ≡ (err session_closed, s)
    pub lists_content :
        (fuel id : ℕ) (newer_than : Option ℕ)
        → list_content P fuel id newer_than s ≡ (err session_closed, s)
    pub latest : (fuel id : ℕ) → latest_content P fuel id s ≡ (err session_closed, s)
    pub gets_half_press : (fuel id : ℕ) → get_half_press P fuel id s ≡ (err session_closed, s)
    pub sets_half_press :
        (fuel id : ℕ) (engaged : Bool)
        → set_half_press P fuel id engaged s ≡ (err session_closed, s)
    pub focuses : (fuel id : ℕ) → focus_state P fuel id s ≡ (err session_closed, s)
    pub gets_destination : (fuel id : ℕ) → get_destination P fuel id s ≡ (err session_closed, s)
    pub sets_destination :
        (fuel id : ℕ) (destination : StillDestination)
        → set_destination P fuel id destination s ≡ (err session_closed, s)
    pub charges : (fuel id : ℕ) → battery P fuel id s ≡ (err session_closed, s)
    pub stores : (fuel id : ℕ) → storage P fuel id s ≡ (err session_closed, s)
    pub recording : (fuel id : ℕ) → recording_state P fuel id s ≡ (err session_closed, s)
    pub starts : (fuel id : ℕ) → start_recording P fuel id s ≡ (err session_closed, s)
    pub stops : (fuel id : ℕ) → stop_recording P fuel id s ≡ (err session_closed, s)
    pub closes : (fuel id : ℕ) → (close_session P fuel id s).0 ≡ ok tt

  abbrev dead : P.World → Host P → Host P
  dead world s = record s {
    world = world;
    running = false;
    state = HostState.crashed;
    handles = [];
    modes = [];
  }

  dead-IsDead : (world : P.World) (s : Host P) → IsDead (dead world s)
  unfolding connection_state current_state may_crash enumerate_cameras is_ready poll_events
      list_properties get_property set_property send_command get_live_view_frame get_preview
      close_session handle_of session_capabilities live_view_info configure_postview pull_postview
      take_transfer_path list_content latest_content get_half_press set_half_press focus_state
      get_destination set_destination battery storage recording_state start_recording stop_recording
      device Device.build_capabilities Device.get_half_press Device.set_half_press
      Device.focus_state Device.get_destination Device.set_destination Device.battery Device.storage
      Device.recording_state Device.start_recording Device.stop_recording Device.read_value
      Device.optional_value Device.read_slot
  dead-IsDead world s = record {
    crashed = refl;
    no_process = refl;
    connection = λ fuel id. refl;
    enumerates = λ fuel timeout_sec. refl;
    polls = λ fuel id timeout_ms. refl;
    lists = λ fuel id. refl;
    gets = λ fuel id code. refl;
    sets = λ fuel id code value. refl;
    sends = λ fuel id command parameter. refl;
    frames = λ fuel id. refl;
    previews = λ fuel id content_id kind. refl;
    describes = λ fuel id. refl;
    frame_info = λ fuel id. refl;
    configures = λ fuel id enabled transfer_to_ram. refl;
    postviews = λ fuel id. refl;
    transfers = λ fuel id. refl;
    lists_content = λ fuel id newer_than. refl;
    latest = λ fuel id. refl;
    gets_half_press = λ fuel id. refl;
    sets_half_press = λ fuel id engaged. refl;
    focuses = λ fuel id. refl;
    gets_destination = λ fuel id. refl;
    sets_destination = λ fuel id destination. refl;
    charges = λ fuel id. refl;
    stores = λ fuel id. refl;
    recording = λ fuel id. refl;
    starts = λ fuel id. refl;
    stops = λ fuel id. refl;
    closes = λ fuel id. refl;
  }

  -- Either a value, with the process still there, or the error of a process that is gone.
  unfoldable pub Dies : {A : Type 0} → Result Error A × Host P → Type 0
  Dies (ok a, s) = s.running ≡ true
  Dies (err e, s) = (e ≡ backend_error) × IsDead s

  cleaned-IsDead :
      (s : Host P) → s.running ≡ true → IsDead (cleanup_process P (set_state P HostState.crashed s))
  unfolding cleanup_process
  cleaned-IsDead s h = rw h (dead-IsDead (P.close_pipes s.world) s)

  ended-IsDead :
      (code : Option ℤ) (s : Host P)
      → s.running ≡ true
      → IsDead (cleanup_process P (end_process P code (set_state P HostState.crashed s)))
  ended-IsDead none s h = cleaned-IsDead (record s { world = (P.wait (P.kill s.world)).1 }) h
  ended-IsDead (some code) s h = cleaned-IsDead s h

  terminated-IsDead :
      (s : Host P) → s.running ≡ true → IsDead (terminate P (set_state P HostState.crashed s))
  unfolding terminate
  terminated-IsDead s h = by_process s.running h
    where
      polled : Host P
      polled = record s { world = (P.poll s.world).1 }

      by_process :
          (b : Bool)
          → b ≡ true
          → IsDead (
              if b
              then cleanup_process P
                  (end_process P (P.poll s.world).0 (set_state P HostState.crashed polled))
              else set_state P HostState.crashed s)
      by_process true e = ended-IsDead (P.poll s.world).0 polled h
      by_process false e = absurd (ground (arith, e))

  unless_ended-Dies :
      (code : Option ℤ) (s : Host P) → s.running ≡ true → Dies (unless_ended P code s)
  unfolding Dies
  unless_ended-Dies none s h = h
  unless_ended-Dies (some code) s h = (refl, cleaned-IsDead s h)

  frame_or_die-Dies :
      (r : Wire (Option Frame × Stream)) (s : Host P) → s.running ≡ true → Dies (frame_or_die P r s)
  unfolding frame_or_die Dies
  frame_or_die-Dies (err e) s h = (refl, terminated-IsDead s h)
  frame_or_die-Dies (ok (none, rest)) s h =
      (refl, cleaned-IsDead (record s { world = (P.poll (P.after_read rest s.world)).1 }) h)
  frame_or_die-Dies (ok (some frame, rest)) s h = h

  then-Dies :
      {A B : Type 0} (f : A → cr_sdkpy.Events.Action (Host P) B) (x : Result Error A × Host P)
      → Dies x
      → ((a : A) (s : Host P) → s.running ≡ true → Dies (f a s))
      → Dies (bind f x)
  unfolding Dies
  then-Dies f (ok a, s) d h = h a s d
  then-Dies f (err e, s) d h = d

  -- A backend with a process that reads a frame gets one and holds the process still, or finds that
  -- the process has ended, that its output has, or that a frame is malformed. Then it raises a
  -- BackendError and is dead: from there on the state of a connection is that error and never that a
  -- session has closed, discovery raises that there is no process, every request on any session
  -- raises that the session is closed, none of them changes anything, and closing a session succeeds.
  pub read_frame_or_die-Dies : (s : Host P) → s.running ≡ true → Dies (read_frame_or_die P s)
  unfolding read_frame_or_die require_process
  read_frame_or_die-Dies s h =
      then-Dies _ (require_process P s) (runs s.running h)
        (λ _ s1 h1. frame_or_die-Dies (read_frame (P.pipe s1.world)) s1 h1)
    where
      asked : Result Error (Unit {0}) × Host P
      asked = unless_ended P (P.poll s.world).0 (record s { world = (P.poll s.world).1 })

      runs : (b : Bool) → b ≡ true → Dies (if not b then (err native_backend_error, s) else asked)
      runs true e = unless_ended-Dies (P.poll s.world).0 (record s { world = (P.poll s.world).1 }) h
      runs false e = absurd (ground (arith, e))
