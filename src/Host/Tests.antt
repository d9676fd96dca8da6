-- ===== src/Host/Tests.antt =====
-- A scripted host process for src/crsdkpy/backend/host.py.
use cr_sdkpy.Base.{
  List, ℕ, ◌<◌, ◌^◌, ◌≢◌, true, Option, none, [], ◌∷◌, ◌++◌, replicate, ◌≡◌, refl, arith,
}
use cr_sdkpy.Base.Int.{ℤ, negsuc}
use cr_sdkpy.Contract.{Returns}
use cr_sdkpy.Ipc.{Stream, pack_header, read_exact, read_body, decode, read_payload}
use cr_sdkpy.Native.Measured.{nothing_measured, empty_sequencer}
use cr_sdkpy.Session.Outcomes.{Outcome}
use cr_sdkpy.Host.Wire.{request_bytes}
use cr_sdkpy.Host.Transport.{
  Platform, HostState, Host, new_host, next_id, read_frame_or_die, await_response,
}
use cr_sdkpy.Enums.{SessionMode, ReconnectPolicy}
use cr_sdkpy.Host.Access.{value_arguments}
use cr_sdkpy.Host.Life.{start}
use cr_sdkpy.Host.Sessions.{open_session, attempts_of}
use cr_sdkpy.Host.Tables.{AreCoherent}
use cr_sdkpy.Host.Reach.{created, and_then, starts, opens, Reachable-AreCoherent}
use cr_sdkpy.Host.Dead.{Dies, read_frame_or_die-Dies}
use cr_sdkpy.Host.Requests.{CarriesValue, value_arguments-CarriesValue, next_id_bounds}
use cr_sdkpy.Host.Replies.{Answers, await_response-Answers}
use cr_sdkpy.Host.Ends.{KeepsPipe, Anything, await_response-ends}

-- What the process will write, the time, and its exit code.
record Script : Type 0 where
  output : Stream
  clock : ℕ
  code : Option ℤ

abbrev scripted : Platform
scripted = record {
  World = Script;
  now_ms = λ w. w.clock;
  sleep_ms = λ duration w. w;
  spawn = λ w. (true, w);
  poll = λ w. (w.code, w);
  write = λ payload w. (true, w);
  pipe = λ w. w.output;
  after_read = λ rest w. record w { output = rest };
  wait = λ w. (true, w);
  kill = λ w. w;
  close_pipes = λ w. w;
}

-- An event without contents, in two chunks.
abbrev event_chunks : Stream
event_chunks = pack_header 5 0 0 0 ∷ []

-- A response to the request 1 that reports success, its metadata in two chunks.
abbrev response_chunks : Stream
response_chunks = pack_header 4 1 544 0 ∷ replicate 500 0 ∷ replicate 44 0 ∷ []

abbrev running_host : Stream → Option ℤ → Host scripted
running_host output code = record {
  world = record { output = output; clock = 0; code = code };
  running = true;
  state = HostState.ready;
  request_id = 1;
  handshake = none;
  handles = (1, 7) ∷ [];
  modes = [];
  session_counter = 1;
  measurements = nothing_measured;
  frames = empty_sequencer;
}

abbrev answering : Host scripted
answering = running_host (event_chunks ++ response_chunks) none

scripted-KeepsPipe : KeepsPipe scripted
scripted-KeepsPipe = record { poll_keeps = λ w. refl; read_leaves = λ rest w. refl }

value_arguments-CarriesValue_example :
    CarriesValue (request_bytes 12 (value_arguments 7 262 (negsuc 4))) 7 262 (negsuc 4)
value_arguments-CarriesValue_example =
    value_arguments-CarriesValue 7 262 (negsuc 4) (omega arith) (omega arith) (omega arith)
      (omega arith)

await_response-Answers_example :
    Outcome (Answers scripted 1 answering) (await_response scripted 3 1 answering)
await_response-Answers_example = await_response-Answers scripted 3 1 answering

await_response-ends_example :
    Returns (Anything scripted scripted-KeepsPipe) (await_response scripted 700 1 answering)
await_response-ends_example =
    await_response-ends scripted scripted-KeepsPipe 700 1 answering (omega arith)

-- The call has used up the stream, the event before its response included.
reads_past_the_event : (await_response scripted 3 1 answering).1.world.output ≡ []
unfolding await_response read_exact read_body decode read_payload
reads_past_the_event = refl

next_id_bounds_example :
    (0 < (next_id 5).1)
    × ((next_id 5).1 < 2 ^ 32)
    × ((next_id 5).0 < 2 ^ 32)
    × ((next_id 5).0 ≢ 0 → (next_id (next_id 5).0).1 ≢ (next_id 5).1)
next_id_bounds_example = next_id_bounds 5

-- A process that greets with the right versions, and confirms the initialisation and the opening of
-- a session with the handle 7.
abbrev success : ℕ → List ℕ
success id = pack_header 4 id 544 0 ++ (replicate 16 0 ++ (7 ∷ (replicate 527 0)))

abbrev greeting : List ℕ
greeting = pack_header 2 1 272 0 ++ (1 ∷ 0 ∷ 0 ∷ 0 ∷ 1 ∷ replicate 267 0)

abbrev obliging : Script
obliging = record { output = greeting ∷ success 2 ∷ success 3 ∷ []; clock = 0; code = none }

abbrev opened : Host scripted
opened =
    (open_session scripted 2000 [] SessionMode.remote none ReconnectPolicy.bounded
      (start scripted 2000 [] (new_host scripted obliging)).1).1

reachable_example : AreCoherent opened.running opened.handles opened.modes opened.session_counter
reachable_example = Reachable-AreCoherent scripted 2000 opened (
    and_then (and_then (created obliging) (starts []))
      (opens [] SessionMode.remote none ReconnectPolicy.bounded))

-- The session 1 with its handle.
one_session : opened.handles ≡ (1, 7) ∷ []
unfolding open_session attempts_of start read_exact read_body decode read_payload
one_session = refl

read_frame_or_die_example : Dies scripted (read_frame_or_die scripted (running_host [] none))
read_frame_or_die_example = read_frame_or_die-Dies scripted (running_host [] none) refl
