-- ===== src/Host/Tables.antt =====
-- src/crsdkpy/backend/host.py: what one call of the helper process leaves of the table of sessions.
use cr_sdkpy.Base.{
  ℕ, zero, suc, ◌≤◌, ◌≡◌, refl, All, Bool, true, false, not, Option, none, some, List, [], ◌++◌,
  ◌==◌, if◌then◌else◌, nat_identity, ◌is◌, ok, err,
}
use cr_sdkpy.Base.Dict.{Dict, keys}
use cr_sdkpy.Base.Int.{ℤ, pos, int_identity}
use cr_sdkpy.Enums.{SessionMode}
use cr_sdkpy.Events.{Error, Action, bind, raise_when}
use cr_sdkpy.Ipc.{Stream, Wire, Frame, encode, read_frame, from_bytes}
use cr_sdkpy.Session.Keeps.{bind_keeps, either_keeps}
use cr_sdkpy.Host.Wire.{
  Arguments, read_response, response_size, request_bytes, msg_event, msg_request, msg_response,
}
use cr_sdkpy.Host.Transport.{
  Platform, HostState, Host, set_state, next_id, next_request_id, cleanup_process, end_process,
  terminate, unless_ended, require_process, write, wire, frame_or_die, read_frame_or_die,
  accept_response, await_response, call_ex, call,
}

-- The tables of a backend: the sessions that have a handle are those that have a mode, their
-- numbers have been given out, and without a process there are none.
pub record AreCoherent (running : Bool) (handles : Dict ℕ ℕ) (modes : Dict ℕ SessionMode)
    (counter : ℕ) : Type 0 where
  pub same_sessions : keys handles ≡ keys modes
  pub numbered : All (λ id. id ≤ counter) (keys handles)
  pub none_without_process : running ≡ false → handles ≡ []

pub no_sessions-AreCoherent : (running : Bool) (counter : ℕ) → AreCoherent running [] [] counter
no_sessions-AreCoherent running counter = record {
  same_sessions = refl;
  numbered = tt;
  none_without_process = λ stopped. refl;
}

module _ (P : Platform) where
  -- Kept by every operation of the backend.
  unfoldable pub IsCoherent : Host P → Type 0
  IsCoherent s = AreCoherent s.running s.handles s.modes s.session_counter

  pub cleanup_process-IsCoherent : (s : Host P) → IsCoherent s → IsCoherent (cleanup_process P s)
  unfolding cleanup_process IsCoherent
  cleanup_process-IsCoherent s c = by_process s.running
    where
      by_process :
          (b : Bool)
          → IsCoherent (
              if b
              then record s {
                world = P.close_pipes s.world;
                running = false;
                handles = [];
                modes = [];
              }
              else s)
      by_process true = no_sessions-AreCoherent false s.session_counter
      by_process false = c

  end_process-IsCoherent :
      (code : Option ℤ) (s : Host P) → IsCoherent s → IsCoherent (end_process P code s)
  unfolding IsCoherent
  end_process-IsCoherent none s c = c
  end_process-IsCoherent (some code) s c = c

  pub terminate-IsCoherent : (s : Host P) → IsCoherent s → IsCoherent (terminate P s)
  unfolding terminate IsCoherent
  terminate-IsCoherent s c = by_process s.running
    where
      ended : Host P
      ended = end_process P (P.poll s.world).0 (record s { world = (P.poll s.world).1 })

      by_process : (b : Bool) → IsCoherent (if b then cleanup_process P ended else s)
      by_process true =
          cleanup_process-IsCoherent ended
            (end_process-IsCoherent (P.poll s.world).0 (record s { world = (P.poll s.world).1 }) c)
      by_process false = c

  unless_ended-IsCoherent :
      (code : Option ℤ) (s : Host P) → IsCoherent s → IsCoherent (unless_ended P code s).1
  unfolding cleanup_process IsCoherent
  unless_ended-IsCoherent none s c = c
  unless_ended-IsCoherent (some code) s c =
      cleanup_process-IsCoherent (set_state P HostState.crashed s) c

  require_process-IsCoherent : (s : Host P) → IsCoherent s → IsCoherent (require_process P s).1
  unfolding require_process IsCoherent
  require_process-IsCoherent s c =
      either_keeps IsCoherent (not s.running) _ _ c
        (unless_ended-IsCoherent (P.poll s.world).0 (record s { world = (P.poll s.world).1 }) c)

  pub write-IsCoherent :
      (payload : List ℕ) (s : Host P) → IsCoherent s → IsCoherent (write P payload s).1
  unfolding write IsCoherent
  write-IsCoherent payload s c =
      bind_keeps IsCoherent _ (require_process P s)
        (λ _ s1 c1. either_keeps IsCoherent (P.write payload s1.world).0 _ _ c1 c1)
        (require_process-IsCoherent s c)

  frame_or_die-IsCoherent :
      (r : Wire (Option Frame × Stream)) (s : Host P)
      → IsCoherent s
      → IsCoherent (frame_or_die P r s).1
  unfolding frame_or_die IsCoherent
  frame_or_die-IsCoherent (err e) s c = terminate-IsCoherent (set_state P HostState.crashed s) c
  frame_or_die-IsCoherent (ok (none, rest)) s c =
      cleanup_process-IsCoherent
        (set_state P HostState.crashed
          (record s { world = (P.poll (P.after_read rest s.world)).1 }))
        c
  frame_or_die-IsCoherent (ok (some frame, rest)) s c = c

  pub read_frame_or_die-IsCoherent :
      (s : Host P) → IsCoherent s → IsCoherent (read_frame_or_die P s).1
  unfolding read_frame_or_die
  read_frame_or_die-IsCoherent s c =
      bind_keeps IsCoherent _ (require_process P s)
        (λ _ s1 c1. frame_or_die-IsCoherent (read_frame (P.pipe s1.world)) s1 c1)
        (require_process-IsCoherent s c)

  pub wire_keeps :
      {A B : Type 0} (w : Wire A) (f : A → Action (Host P) B) (s : Host P)
      → IsCoherent s
      → ((a : A) → IsCoherent (f a s).1)
      → IsCoherent (bind f (wire P w s)).1
  wire_keeps (ok a) f s c h = h a
  wire_keeps (err e) f s c h = c

  pub guard_keeps :
      {A : Type 0} (b : Bool) (e : Error) (f : Unit {0} → Action (Host P) A) (s : Host P)
      → IsCoherent s
      → IsCoherent (f tt s).1
      → IsCoherent (bind f (raise_when b e s)).1
  guard_keeps true e f s c h = c
  guard_keeps false e f s c h = h

  accept_response-IsCoherent :
      (id : ℕ) (frame : Frame) (s : Host P)
      → IsCoherent s
      → IsCoherent (accept_response P id frame s).1
  unfolding accept_response IsCoherent
  accept_response-IsCoherent id frame s c = guard_keeps (not (frame.request_id == id)) _ _ s c (
      wire_keeps (from_bytes response_size frame.meta) _ s c
        (λ bytes. guard_keeps (not ((read_response bytes).status is pos 0)) _ _ s c c))

  await_response-IsCoherent :
      (fuel id : ℕ) (s : Host P) → IsCoherent s → IsCoherent (await_response P fuel id s).1
  unfolding await_response
  await_response-IsCoherent zero id s c = c
  await_response-IsCoherent (suc fuel) id s c =
      bind_keeps IsCoherent _ (read_frame_or_die P s)
        (λ frame s1 c1.
          either_keeps IsCoherent (frame.message_type == msg_event) _ _
            (await_response-IsCoherent fuel id s1 c1)
            (either_keeps IsCoherent (not (frame.message_type == msg_response)) _ _ c1
              (accept_response-IsCoherent id frame s1 c1)))
        (read_frame_or_die-IsCoherent s c)

  pub next_request_id-IsCoherent : (s : Host P) → IsCoherent s → IsCoherent (next_request_id P s).1
  unfolding next_request_id IsCoherent
  next_request_id-IsCoherent s c = c

  -- A call of the process leaves the table of sessions coherent, whatever its outcome.
  pub call_ex-IsCoherent :
      (fuel op : ℕ) (arguments : Arguments) (s : Host P)
      → IsCoherent s
      → IsCoherent (call_ex P fuel op arguments s).1
  unfolding call_ex next_request_id
  call_ex-IsCoherent fuel op arguments s c =
      let c1 = next_request_id-IsCoherent s c in
      let id = (next_id s.request_id).1 in
      wire_keeps (encode msg_request id (request_bytes op arguments ++ arguments.extra) []) _
        (next_request_id P s).1 c1
        (λ payload.
          bind_keeps IsCoherent _ (write P payload (next_request_id P s).1)
            (λ _ s2 c2. await_response-IsCoherent fuel id s2 c2)
            (write-IsCoherent payload (next_request_id P s).1 c1))

  pub call-IsCoherent :
      (fuel op : ℕ) (arguments : Arguments) (s : Host P)
      → IsCoherent s
      → IsCoherent (call P fuel op arguments s).1
  unfolding call
  call-IsCoherent fuel op arguments s c =
      bind_keeps IsCoherent _ (call_ex P fuel op arguments s) (λ reply s1 c1. c1)
        (call_ex-IsCoherent fuel op arguments s c)
