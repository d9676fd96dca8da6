-- ===== src/Host/Alive.antt =====
-- src/crsdkpy/backend/host.py: the life of the process, from `start` to `shutdown`, and the table of
-- sessions.
use cr_sdkpy.Base.{arith, ℕ, true, not, ◌&&◌, Option, none, some, [], ◌==◌, Result, ok, err}
use cr_sdkpy.Base.Int.{ℤ}
use cr_sdkpy.Events.{Error, Text, native_backend_error}
use cr_sdkpy.Ipc.{encode, from_bytes, version_major, version_minor}
use cr_sdkpy.Session.Keeps.{Keeps, bind_keeps, either_keeps}
use cr_sdkpy.Host.Wire.{
  HelloAckStruct, hello_bytes, hello_ack_size, read_hello_ack, msg_hello, msg_hello_ack, msg_bye,
  no_arguments,
}
use cr_sdkpy.Host.Transport.{
  Platform, HostState, Host, set_state, next_id, next_request_id, cleanup_process, write,
  read_frame_or_die, call,
}
use cr_sdkpy.Host.Life.{
  may_crash, is_ready, op_init, do_handshake, or_terminate, start, await_end, say_goodbye,
  unless_gone, shutdown, noted, current_state,
}
use cr_sdkpy.Host.Tables.{
  IsCoherent, next_request_id-IsCoherent, write-IsCoherent, read_frame_or_die-IsCoherent,
  wire_keeps, guard_keeps, terminate-IsCoherent, cleanup_process-IsCoherent, call-IsCoherent,
}

module _ (P : Platform) where
  -- A change of the world, of the state or of the handshake leaves the tables as they are.
  in_world-IsCoherent :
      (world : P.World) (s : Host P) → IsCoherent P s → IsCoherent P (record s { world = world })
  unfolding IsCoherent
  in_world-IsCoherent world s c = c

  in_state-IsCoherent :
      (state : HostState) (s : Host P) → IsCoherent P s → IsCoherent P (set_state P state s)
  unfolding IsCoherent
  in_state-IsCoherent state s c = c

  in_handshake-IsCoherent :
      (ack : HelloAckStruct) (s : Host P)
      → IsCoherent P s
      → IsCoherent P (record s { handshake = some ack })
  unfolding IsCoherent
  in_handshake-IsCoherent ack s c = c

  do_handshake-Keeps : Keeps (IsCoherent P) (do_handshake P)
  unfolding do_handshake
  do_handshake-Keeps s c =
      let c1 = next_request_id-IsCoherent P s c in
      let s1 = (next_request_id P s).1 in
      let id = (next_id s.request_id).1 in
      wire_keeps P (encode msg_hello id (hello_bytes version_major version_minor) []) _ s1 c1
        (λ payload.
          bind_keeps (IsCoherent P) _ (write P payload s1)
            (λ _ s2 c2.
              bind_keeps (IsCoherent P) _ (read_frame_or_die P s2)
                (λ frame s3 c3.
                  guard_keeps P (not (frame.message_type == msg_hello_ack)) native_backend_error _
                    s3 c3
                    (wire_keeps P (from_bytes hello_ack_size frame.meta) _ s3 c3 (λ bytes.
                      let ack = read_hello_ack bytes in
                      guard_keeps P (not (ack.protocol_major == version_major)) native_backend_error
                        _ s3 c3
                        (guard_keeps P (not (ack.abi_major == 1)) native_backend_error _ s3 c3
                          (in_handshake-IsCoherent ack s3 c3)))))
                (read_frame_or_die-IsCoherent P s2 c2))
            (write-IsCoherent P payload s1 c1))

  or_terminate-IsCoherent :
      (x : Result Error (Unit {0}) × Host P) → IsCoherent P x.1 → IsCoherent P (or_terminate P x).1
  or_terminate-IsCoherent (ok a, s) c = in_state-IsCoherent HostState.ready s c
  or_terminate-IsCoherent (err e, s) c = terminate-IsCoherent P s c

  -- A process that has been started: where the tables are empty, or there was one already.
  runs-IsCoherent : (s : Host P) → IsCoherent P s → IsCoherent P (record s { running = true })
  unfolding IsCoherent
  runs-IsCoherent s c = record {
    same_sessions = c.same_sessions;
    numbered = c.numbered;
    none_without_process = λ stopped. absurd (ground (arith, stopped));
  }

  pub start-Keeps :
      (fuel : ℕ) (adapter_dir : Text) → Keeps (IsCoherent P) (start P fuel adapter_dir)
  unfolding start
  start-Keeps fuel adapter_dir s c = either_keeps (IsCoherent P) (is_ready s.state) _ _ c (
      either_keeps (IsCoherent P) (not (P.spawn s.world).0) _ _
        (in_state-IsCoherent HostState.crashed starting c1)
        (or_terminate-IsCoherent _ (
          bind_keeps (IsCoherent P) _ (do_handshake P (record starting { running = true }))
            (λ _ s2 c2.
              bind_keeps (IsCoherent P) _
                (call P fuel op_init (record no_arguments { text = adapter_dir }) s2)
                (λ reply s3 c3. c3)
                (call-IsCoherent P fuel op_init (record no_arguments { text = adapter_dir }) s2 c2))
            (do_handshake-Keeps (record starting { running = true })
              (runs-IsCoherent starting c1)))))
    where
      starting : Host P
      starting = record (set_state P HostState.starting s) { world = (P.spawn s.world).1 }

      c1 : IsCoherent P starting
      c1 =
          in_world-IsCoherent (P.spawn s.world).1 (set_state P HostState.starting s)
            (in_state-IsCoherent HostState.starting s c)

  await_end-Keeps : Keeps (IsCoherent P) (await_end P)
  await_end-Keeps s c =
      let c1 = in_world-IsCoherent (P.wait s.world).1 s c in
      either_keeps (IsCoherent P) (not s.running) _ _ c (
        either_keeps (IsCoherent P) (P.wait s.world).0 _ _ c1
          (terminate-IsCoherent P (record s { world = (P.wait s.world).1 }) c1))

  say_goodbye-Keeps : Keeps (IsCoherent P) (say_goodbye P)
  unfolding next_request_id IsCoherent
  say_goodbye-Keeps s c =
      let c1 = next_request_id-IsCoherent P s c in
      let s1 = (next_request_id P s).1 in
      await_end-Keeps _ (
        wire_keeps P (encode msg_bye (next_id s.request_id).1 [] []) _ s1 c1
          (λ payload. write-IsCoherent P payload s1 c1))

  unless_gone-Keeps : (code : Option ℤ) → Keeps (IsCoherent P) (unless_gone P code)
  unless_gone-Keeps none s c = say_goodbye-Keeps s c
  unless_gone-Keeps (some code) s c = c

  pub shutdown-Keeps : Keeps (IsCoherent P) (shutdown P)
  unfolding shutdown
  shutdown-Keeps s c =
      either_keeps (IsCoherent P) s.running _ _
        (bind_keeps (IsCoherent P) _ (unless_gone P (P.poll s.world).0 stopping)
          (λ _ s1 c1.
            in_state-IsCoherent HostState.stopped (cleanup_process P s1)
              (cleanup_process-IsCoherent P s1 c1))
          (unless_gone-Keeps (P.poll s.world).0 stopping (
            in_world-IsCoherent (P.poll s.world).1 (set_state P HostState.stopping s)
              (in_state-IsCoherent HostState.stopping s c))))
        (in_state-IsCoherent HostState.stopped s c)
    where
      stopping : Host P
      stopping = record (set_state P HostState.stopping s) { world = (P.poll s.world).1 }

  noted-Keeps : (code : Option ℤ) → Keeps (IsCoherent P) (noted P code)
  noted-Keeps none s c = c
  noted-Keeps (some code) s c = in_state-IsCoherent HostState.crashed s c

  pub current_state-Keeps : Keeps (IsCoherent P) (current_state P)
  unfolding current_state
  current_state-Keeps s c =
      either_keeps (IsCoherent P) (may_crash s.state && s.running) _ _
        (noted-Keeps (P.poll s.world).0 (record s { world = (P.poll s.world).1 })
          (in_world-IsCoherent (P.poll s.world).1 s c))
        c
