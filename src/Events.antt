-- ===== src/Events.antt =====
-- src/crsdkpy/events.py and src/crsdkpy/errors.py: the typed facts of a session's stream, and
-- the exceptions. An error is its class with what a caller can branch on; messages and
-- operation names are left out.
use Prim.Native.String.{String}
use cr_sdkpy.Base.{ℕ, Bool, true, false, Option, List, Result, ok, err, if◌then◌else◌}
use cr_sdkpy.Base.Int.{ℤ}
use cr_sdkpy.Enums.{ConnectionState, FocusState, FocusSource, RecordingState, TransferOutcome}

-- Code points, for texts that are taken apart.
abbrev pub Text : Type 0
Text = List ℕ

-- Every constructor begins with the event's `timestamp_ms`.
pub data Event : Type 0 where
  -- state, recovered, backend_code, connection_version
  connection : ℕ → ConnectionState → Bool → Option ℕ → Option ℤ → Event
  property_changed : ℕ → List ℕ → Event
  -- state, source, raw_value
  focus : ℕ → FocusState → FocusSource → Option ℤ → Event
  -- sequence
  capture : ℕ → ℕ → Event
  -- content_id, file_number, path
  content : ℕ → Option ℕ → Option ℕ → Option Text → Event
  -- outcome, percent, notify_code, has_path
  transfer : ℕ → TransferOutcome → ℤ → Option ℕ → Bool → Event
  recording : ℕ → RecordingState → Event
  warning : ℕ → ℕ → Event
  -- code, and the bridge's kind, i0 and i1 where it has them
  unknown : ℕ → ℕ → Option (ℤ × ℤ × ℤ) → Event

abbrev pub timestamp_ms : Event → ℕ
timestamp_ms (connection t _ _ _ _) = t
timestamp_ms (property_changed t _) = t
timestamp_ms (focus t _ _ _) = t
timestamp_ms (capture t _) = t
timestamp_ms (content t _ _ _) = t
timestamp_ms (transfer t _ _ _ _) = t
timestamp_ms (recording t _) = t
timestamp_ms (warning t _) = t
timestamp_ms (unknown t _ _) = t

pub data Error : Type 0 where
  sdk_not_found native_backend_error sdk_not_started : Error
  -- whether the cause is a connection callback that never came (the marker of `host.py`)
  camera_connection : Bool → Error
  session_closed : Error
  invalid_session_state : ConnectionState → Error
  -- capability
  unsupported : String → Error
  property_not_supported : ℕ → Error
  operation_timeout : Error
  autofocus_failed : FocusState → ℤ → Error
  camera_busy backend_error : Error
  -- `ProtocolError` of src/crsdkpy/backend/_ipc.py, which is none of the program's hierarchy
  protocol_error : Error
  -- Python's own: ValueError, KeyError, AttributeError, struct.error
  value_error key_error attribute_error struct_error : Error
  -- no exception of the program: a loop of the model has run out of fuel
  exhausted : Error

abbrev pub is_exhausted : Error → Bool
is_exhausted exhausted = true
is_exhausted _ = false

-- An operation on a state: what was written before an exception stays written.
abbrev pub Action : Type 0 → Type 0 → Type 0
Action S A = S → Result Error A × S

module _ {S : Type 0} where
  abbrev pub pure : {A : Type 0} → A → Action S A
  pure a s = (ok a, s)

  abbrev pub raise : {A : Type 0} → Error → Action S A
  raise e s = (err e, s)

  abbrev pub gets : {A : Type 0} → (S → A) → Action S A
  gets f s = (ok (f s), s)

  abbrev pub modify : (S → S) → Action S (Unit {0})
  modify f s = (ok tt, f s)

  abbrev pub raise_when : Bool → Error → Action S (Unit {0})
  raise_when test e s = (if test then err e else ok tt, s)

-- Continues behind an outcome.
abbrev pub bind : {S A B : Type 0} → (A → Action S B) → Result Error A × S → Result Error B × S
bind f (ok a, s) = f a s
bind f (err e, s) = (err e, s)

infixl 5 ◌>>=◌ ◌>>◌
abbrev pub ◌>>=◌ : {S A B : Type 0} → Action S A → (A → Action S B) → Action S B
◌>>=◌ m f s = bind f (m s)

abbrev pub ◌>>◌ : {S B : Type 0} → Action S (Unit {0}) → Action S B → Action S B
m >> k = m >>= λ _. k
