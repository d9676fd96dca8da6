-- ===== src/Host/Life.antt =====
-- src/crsdkpy/backend/host.py: the life of the helper process, from `start` with its handshake to
-- `shutdown`.
use cr_sdkpy.Base.{
  ℕ, Bool, true, false, not, ◌&&◌, Option, none, some, [], ◌==◌, if◌then◌else◌, Result, ok, err,
}
use cr_sdkpy.Base.Int.{ℤ}
use cr_sdkpy.Events.{
  Error, Action, Text, pure, modify, raise_when, ◌>>=◌, ◌>>◌, native_backend_error, attribute_error,
}
use cr_sdkpy.Ipc.{encode, from_bytes, version_major, version_minor}
use cr_sdkpy.Host.Wire.{
  hello_bytes, hello_ack_size, read_hello_ack, msg_hello, msg_hello_ack, msg_bye, no_arguments,
}
use cr_sdkpy.Host.Transport.{
  Platform, HostState, Host, system, set_state, next_request_id, terminate, cleanup_process, write,
  wire, read_frame_or_die, call,
}

-- The states in which a look at the process may find that it has ended.
unfoldable pub may_crash : HostState → Bool
may_crash HostState.ready = true
may_crash HostState.starting = true
may_crash _ = false

unfoldable pub is_ready : HostState → Bool
is_ready HostState.ready = true
is_ready _ = false

-- `OP_INIT`
abbrev pub op_init : ℕ
op_init = 2

module _ (P : Platform) where
  -- `_do_handshake`
  unfoldable pub do_handshake : Action (Host P) (Unit {0})
  unfolding next_request_id write read_frame_or_die encode from_bytes hello_bytes read_hello_ack
  do_handshake = do
    id ← next_request_id P
    payload ← wire P (encode msg_hello id (hello_bytes version_major version_minor) [])
    write P payload
    frame ← read_frame_or_die P
    raise_when (not (frame.message_type == msg_hello_ack)) native_backend_error
    bytes ← wire P (from_bytes hello_ack_size frame.meta)
    let ack = read_hello_ack bytes
    raise_when (not (ack.protocol_major == version_major)) native_backend_error
    raise_when (not (ack.abi_major == 1)) native_backend_error
    modify (λ s. record s { handshake = some ack })

  -- `except Exception: self._terminate(); raise`
  abbrev pub or_terminate : Result Error (Unit {0}) × Host P → Result Error (Unit {0}) × Host P
  or_terminate (ok a, s) = (ok a, set_state P HostState.ready s)
  or_terminate (err e, s) = (err e, terminate P s)

  -- `start`; the directory of the adapters is an argument.
  unfoldable pub start : ℕ → Text → Action (Host P) (Unit {0})
  unfolding do_handshake call terminate is_ready
  start fuel adapter_dir s =
      let begin =
        (system P P.spawn >>= λ spawned s'.
        if not spawned
        then (err native_backend_error, set_state P HostState.crashed s')
        else or_terminate (
            (do
              do_handshake
              reply ← call P fuel op_init (record no_arguments { text = adapter_dir })
              pure tt)
              (record s' { running = true })))
          (set_state P HostState.starting s) in
      if is_ready s.state then (ok tt, s) else begin

  -- The wait behind the goodbye. `self._process` is gone where the write found that the process
  -- had ended.
  abbrev pub await_end : Action (Host P) (Unit {0})
  await_end s =
      let (ended, w) = P.wait s.world in
      if not s.running
      then (err attribute_error, s)
      else if ended
      then (ok tt, record s { world = w })
      else (ok tt, terminate P (record s { world = w }))

  -- What `shutdown` says to a process that runs still: goodbye, with `except Exception: pass`, and
  -- the wait.
  abbrev pub say_goodbye : Action (Host P) (Unit {0})
  say_goodbye s =
      await_end ((next_request_id P >>= λ id. wire P (encode msg_bye id [] []) >>= write P) s).1

  abbrev pub unless_gone : Option ℤ → Action (Host P) (Unit {0})
  unless_gone none = say_goodbye
  unless_gone (some code) = pure tt

  -- `shutdown`
  unfoldable pub shutdown : Action (Host P) (Unit {0})
  unfolding next_request_id write encode terminate cleanup_process
  shutdown s =
      let leave =
        (system P P.poll >>= λ code. unless_gone code >>= λ _.
        modify (λ s'. set_state P HostState.stopped (cleanup_process P s')))
          (set_state P HostState.stopping s) in
      if s.running then leave else (ok tt, set_state P HostState.stopped s)

  -- What `_refresh_state` makes of the exit code.
  abbrev pub noted : Option ℤ → Action (Host P) HostState
  noted none s = (ok s.state, s)
  noted (some code) s = (ok HostState.crashed, set_state P HostState.crashed s)

  -- `_refresh_state`, as the property `state` uses it.
  unfoldable pub current_state : Action (Host P) HostState
  unfolding may_crash
  current_state s =
      if may_crash s.state && s.running then (system P P.poll >>= noted) s else (ok s.state, s)
