-- ===== src/Lib.antt =====
-- CrSDKPy: control of a camera from Python through a vendor's SDK, with a deterministic
-- simulator beside the native backend.
--
-- The program has a public session (src/crsdkpy/session.py, capture.py), which drives a backend
-- through one contract (backend/contract.py). The backend is the simulator (simulator/), or a
-- native bridge, in the process (backend/native.py) or in a host process that is spoken to in
-- frames (backend/host.py, backend/_ipc.py). The session pumps the backend's events into two
-- queues, one for the user and one for its own operations; autofocus and captures wait on them.
--
-- Files:
--   Base      tests, lists, bytes, integers, dicts and results that the components share
--   Enums     src/crsdkpy/enums.py and commands.py
--   Events    src/crsdkpy/events.py and errors.py; `Action`, the monad of stateful operations
--   Capabilities   src/crsdkpy/capabilities.py; Missing proves
--   Contract  src/crsdkpy/backend/contract.py: the interface `Backend` with `State` for all that a
--     backend may read or change, and `Advances`, the laws that waiting loops rely on
--   Jpeg      src/crsdkpy/_jpeg.py; Bounds and Agreement prove
--   Ipc       src/crsdkpy/backend/_ipc.py; Reading, RoundTrip, Truncation and Shrinks prove
--   Properties     src/crsdkpy/properties.py; Range and Snapshot prove
--   Cabi      src/crsdkpy/backend/_cabi.py: the status codes; Structs, the structures as bytes
--   Native    src/crsdkpy/backend/native.py: Decode (what the structures mean), Previews (checked
--     images), Measured (what is remembered of a session), Device (`ShutterStageMixin`,
--     `DeviceStatusMixin`, `VideoStageMixin`, `NativeCapabilityMixin` over a record of operations
--     that both native backends fill), Bridge (the C functions, a parameter), Backend and Content
--     (`NativeBackend`); Frames, Keeps, Recording and Once prove
--   Host      src/crsdkpy/backend/host.py: Wire (payloads as bytes), Transport (the process and one
--     call), Life (`start` to `shutdown`), Access, Sessions, Content and Mixins (the operations), over
--     a parameter `Platform` for the operating system; Reach has all of them as steps; Requests,
--     Replies, Ends, Tables, Coherent, Running, Registry, Handled, Alive and Dead prove
--   Simulator src/crsdkpy/simulator: Scenario (scenarios.py), Profiles (profiles.py) and, for
--     backend.py, Timeline (`_Session`), Shooting (autofocus, exposure, recording, commands),
--     Backend and Media (the operations), Image (`_synth_image`); Instance makes it a `Backend`,
--     Laws, Quiet, Safety, Closed and Written prove
--   Session   src/crsdkpy/session.py, capture.py: Focus (autofocus), Shots, Release (the shutter),
--     Resolve (content and previews); Keeps, Gate, Confirm, Authorise, Ends, Waits, Queues,
--     Outcomes, Newer, Kept, Identity, Onward, Arrives and Closed prove
--   LiveView  src/crsdkpy/liveview.py: the facade on a session; Summary, Rounds and Fetch prove
--   Video     src/crsdkpy/video.py: the facade on a session; Waits proves
--
-- An operation is a function from a state to a result and a state, so what was written before
-- an exception stays written. `self._x` of the session is a field of `Session`, the backend
-- behind it is the field `backend`; a capture is an object that the caller keeps, so the
-- operations on it act on a session with a capture (`Shot`). A closure that the simulator puts
-- on its heap is a value of `Effect`, and the heap is a list in the order of heapq.
--
-- Bounds and fuel: times are natural numbers of milliseconds, durations what `max(0,
-- int(x))` leaves. A waiting loop takes fuel and answers with `exhausted` when it has run
-- out, an error that the program does not have; as much fuel as milliseconds to the deadline
-- and deliveries pending is enough for the gate, for `wait_for_event`, for
-- `wait_for_content` and for the waits of `Video`, as much as the timeout for
-- `try_get_frame`, and 1501 for the release of the half-press stage. No fuel is known to be
-- enough for `measure`, which does not return on every clock. A call of the host process
-- needs more fuel than there are bytes in its pipe. The walks over JPEG data get the length
-- of the data, and no input exhausts it. Frames keep the limits of the code: 16, 32 and 64
-- bits, 64 KiB and 64 MiB.
--
-- Not modelled: messages and representations; the random generator of the simulator and the
-- numbers of `json`, which are parameters or left out; threads and locks, as each object is
-- driven by one; the bridge and the host process in C++, which are parameters; finding and
-- loading libraries and executables, the environment, the hook at interpreter exit; raw.py,
-- sdk.py, camera.py; tools, examples and tests.
pub mod Base
pub mod Enums
pub mod Events
pub mod Capabilities
pub mod Contract
pub mod Jpeg
pub mod Ipc
pub mod Simulator
pub mod Session
pub mod Cabi
pub mod Host
pub mod LiveView
pub mod Native
pub mod Properties
pub mod Video
