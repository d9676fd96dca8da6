-- ===== src/Host/Transport.antt =====
-- src/crsdkpy/backend/host.py: the helper process, the frames written to it and read from it, and
-- one call of it. The operating system with the process is a parameter: what the reads of the
-- process's output will return until the next write is `pipe`, and a read that blocks for ever is
-- left out. The loop that waits for a response takes fuel.
use cr_sdkpy.Base.{
  ℕ, zero, suc, ◌+◌, ◌%◌, ◌^◌, Bool, false, not, Option, none, some, List, [], ◌++◌, drop, ◌==◌,
  if◌then◌else◌, nat_identity, ◌is◌, ok, err,
}
use cr_sdkpy.Base.Dict.{Dict}
use cr_sdkpy.Base.Int.{ℤ, pos, int_identity}
use cr_sdkpy.Enums.{SessionMode}
use cr_sdkpy.Events.{
  Action, pure, raise_when, bind, ◌>>=◌, ◌>>◌, native_backend_error, backend_error, protocol_error,
  exhausted,
}
use cr_sdkpy.Ipc.{Stream, Wire, Frame, encode, read_frame, from_bytes}
use cr_sdkpy.Native.Measured.{
  MeasuredCapabilities, nothing_measured, FrameSequencer, empty_sequencer,
}
use cr_sdkpy.Host.Wire.{
  Arguments, request_bytes, Response, read_response, response_size, to_exception, HelloAckStruct,
  msg_request, msg_response, msg_event,
}

-- The operating system with at most one helper process.
pub record Platform : Type 1 where
  pub World : Type 0
  pub now_ms : World → ℕ
  pub sleep_ms : ℕ → World → World
  -- `Popen`; false is an `OSError`
  pub spawn : World → Bool × World
  -- `poll`: the exit code, once the process has ended
  pub poll : World → Option ℤ × World
  -- `stdin.write` and `flush`; false is a broken pipe
  pub write : List ℕ → World → Bool × World
  pub pipe : World → Stream
  -- the world in which so much of the pipe is left
  pub after_read : Stream → World → World
  -- `wait(timeout=5)`; false is `TimeoutExpired`
  pub wait : World → Bool × World
  pub kill : World → World
  pub close_pipes : World → World

-- `HostState`
pub data HostState : Type 0 where
  not_started starting ready stopping stopped crashed : HostState

-- `HostBackend`; `running` is whether it holds a process.
pub record HostBackend (World : Type 0) : Type 0 where
  pub world : World
  pub running : Bool
  pub state : HostState
  pub request_id : ℕ
  pub handshake : Option HelloAckStruct
  pub handles : Dict ℕ ℕ
  pub modes : Dict ℕ SessionMode
  pub session_counter : ℕ
  pub measurements : MeasuredCapabilities
  pub frames : FrameSequencer

-- `_next_request_id`: the counter's next value, and the id that is sent.
unfoldable pub next_id : ℕ → ℕ × ℕ
next_id counter = let next = (counter + 1) % 2 ^ 32 in (next, if next == 0 then 1 else next)

module _ (P : Platform) where
  open P use {World}

  abbrev pub Host : Type 0
  Host = HostBackend World

  -- What `HostBackend.__init__` leaves.
  abbrev pub new_host : World → Host
  new_host world = record {
    world = world;
    running = false;
    state = HostState.not_started;
    request_id = 0;
    handshake = none;
    handles = [];
    modes = [];
    session_counter = 0;
    measurements = nothing_measured;
    frames = empty_sequencer;
  }

  -- A function of the operating system.
  abbrev pub system : {A : Type 0} → (World → A × World) → Action Host A
  system f s = let (a, w) = f s.world in (ok a, record s { world = w })

  abbrev pub set_state : HostState → Host → Host
  set_state state s = record s { state = state }

  unfoldable pub next_request_id : Action Host ℕ
  unfolding next_id
  next_request_id s =
      let (counter, id) = next_id s.request_id in (ok id, record s { request_id = counter })

  -- `_cleanup_process`
  unfoldable pub cleanup_process : Host → Host
  cleanup_process s =
      if s.running
      then record s { world = P.close_pipes s.world; running = false; handles = []; modes = [] }
      else s

  -- The part of `_terminate` that ends a process that runs still.
  abbrev pub end_process : Option ℤ → Host → Host
  end_process (some code) s = s
  end_process none s = record s { world = (P.wait (P.kill s.world)).1 }

  -- `_terminate`
  unfoldable pub terminate : Host → Host
  unfolding cleanup_process
  terminate s =
      let (code, w) = P.poll s.world in
      if s.running then cleanup_process (end_process code (record s { world = w })) else s

  -- What `_require_process` makes of the exit code.
  abbrev pub unless_ended : Option ℤ → Action Host (Unit {0})
  unless_ended none s = (ok tt, s)
  unless_ended (some code) s = (err backend_error, cleanup_process (set_state HostState.crashed s))

  -- `_require_process`
  unfoldable pub require_process : Action Host (Unit {0})
  unfolding cleanup_process
  require_process s =
      if not s.running then (err native_backend_error, s) else (system P.poll >>= unless_ended) s

  -- `_write`
  unfoldable pub write : List ℕ → Action Host (Unit {0})
  unfolding require_process
  write payload = do
    require_process
    written ← system (P.write payload)
    λ s. if written then (ok tt, s) else (err backend_error, set_state HostState.crashed s)

  -- A `ProtocolError` that is not caught.
  abbrev pub wire : {A : Type 0} → Wire A → Action Host A
  wire (ok a) s = (ok a, s)
  wire (err e) s = (err protocol_error, s)

  -- What `_read_frame_or_die` makes of a read: a frame, the end of the stream, or a frame that
  -- is malformed.
  unfoldable pub frame_or_die : Wire (Option Frame × Stream) → Action Host Frame
  unfolding terminate cleanup_process
  frame_or_die (err e) s = (err backend_error, terminate (set_state HostState.crashed s))
  frame_or_die (ok (none, rest)) s =
      let (code, w) = P.poll (P.after_read rest s.world) in
      (err backend_error, cleanup_process (set_state HostState.crashed (record s { world = w })))
  frame_or_die (ok (some frame, rest)) s =
      (ok frame, record s { world = P.after_read rest s.world })

  -- `_read_frame_or_die`
  unfoldable pub read_frame_or_die : Action Host Frame
  unfolding require_process frame_or_die read_frame
  read_frame_or_die = require_process >>= λ _ s. frame_or_die (read_frame (P.pipe s.world)) s

  -- The response, its blob, and what stands behind the structure in the metadata.
  abbrev pub Reply : Type 0
  Reply = Response × List ℕ × List ℕ

  -- A frame that is a response to the request.
  unfoldable pub accept_response : ℕ → Frame → Action Host Reply
  unfolding from_bytes read_response to_exception
  accept_response id frame = do
    raise_when (not (frame.request_id == id)) backend_error
    bytes ← wire (from_bytes response_size frame.meta)
    let response = read_response bytes
    raise_when (not (response.status is pos 0)) (to_exception response)
    pure (response, frame.blob, drop response_size frame.meta)

  -- The loop of `_call_ex`: events that come meanwhile are dropped.
  unfoldable pub await_response : ℕ → ℕ → Action Host Reply
  unfolding read_frame_or_die accept_response
  await_response zero id s = (err exhausted, s)
  await_response (suc fuel) id s =
      bind
        (λ frame s'.
          let again = await_response fuel id s' in
          if frame.message_type == msg_event
          then again
          else if not (frame.message_type == msg_response)
          then (err backend_error, s')
          else accept_response id frame s')
        (read_frame_or_die s)

  -- `_call_ex`
  unfoldable pub call_ex : ℕ → ℕ → Arguments → Action Host Reply
  unfolding next_request_id write await_response request_bytes encode
  call_ex fuel op arguments = do
    id ← next_request_id
    payload ← wire (encode msg_request id (request_bytes op arguments ++ arguments.extra) [])
    write payload
    await_response fuel id

  -- `_call`, which has no `extra`.
  unfoldable pub call : ℕ → ℕ → Arguments → Action Host (Response × List ℕ)
  unfolding call_ex
  call fuel op arguments = call_ex fuel op arguments >>= λ reply. pure (reply.0, reply.1)
