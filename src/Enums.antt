-- ===== src/Enums.antt =====
-- src/crsdkpy/enums.py: the enumerations of the public API with their predicates, and
-- src/crsdkpy/commands.py. The string value of a member is not modelled, except that a member
-- is told from another by its tag.
use cr_sdkpy.Base.{ℕ, ◌≡◌, ◌↔◌, Bool, true, false, arith, ◌==◌}
use cr_sdkpy.Base.Identity.{Identity}

pub data SessionMode : Type 0 where
  remote remote_transfer contents_transfer : SessionMode

pub data StillDestination : Type 0 where
  memory_card host host_and_memory_card : StillDestination

pub data ConnectionState : Type 0 where
  connecting connected reconnecting closing closed : ConnectionState

pub data FocusState : Type 0 where
  unknown unlocked focused_af_s not_focused_af_s focused_af_c not_focused_af_c tracking_af_c :
      FocusState

pub data CaptureState : Type 0 where
  requested focusing focused exposed content_available preview_available failed : CaptureState

pub data RecordingState : Type 0 where
  idle starting recording stopping failed : RecordingState

pub data ReconnectPolicy : Type 0 where
  bounded vendor : ReconnectPolicy

pub data TransferOutcome : Type 0 where
  in_progress ok failed busy storage_full stopped canceled unknown : TransferOutcome

pub data PreviewKind : Type 0 where
  live_view postview thumbnail screennail : PreviewKind

pub data PropertyAccess : Type 0 where
  unknown read_only write_only read_write : PropertyAccess

pub data PropertyValueType : Type 0 where
  unknown int string bytes int_array : PropertyValueType

-- `FocusSource`: which channel reported a focus state.
pub data FocusSource : Type 0 where
  property status_warning direct_read : FocusSource

pub data Command : Type 0 where
  release s1_and_release movie_record cancel_shooting : Command

pub data CommandParameter : Type 0 where
  up down : CommandParameter

abbrev mode_tag : SessionMode → ℕ
mode_tag SessionMode.remote = 0
mode_tag SessionMode.remote_transfer = 1
mode_tag SessionMode.contents_transfer = 2

pub mode_same_iff : (a b : SessionMode) → ((mode_tag a == mode_tag b) ≡ true) ↔ (a ≡ b)
mode_same_iff a b = ground arith

instance abbrev pub mode_identity : Identity SessionMode
mode_identity = record { same = λ a b. mode_tag a == mode_tag b; same_iff = mode_same_iff }

abbrev destination_tag : StillDestination → ℕ
destination_tag StillDestination.memory_card = 0
destination_tag StillDestination.host = 1
destination_tag StillDestination.host_and_memory_card = 2

pub destination_same_iff :
    (a b : StillDestination) → ((destination_tag a == destination_tag b) ≡ true) ↔ (a ≡ b)
destination_same_iff a b = ground arith

instance abbrev pub destination_identity : Identity StillDestination
destination_identity = record {
  same = λ a b. destination_tag a == destination_tag b;
  same_iff = destination_same_iff;
}

abbrev connection_tag : ConnectionState → ℕ
connection_tag ConnectionState.connecting = 0
connection_tag ConnectionState.connected = 1
connection_tag ConnectionState.reconnecting = 2
connection_tag ConnectionState.closing = 3
connection_tag ConnectionState.closed = 4

pub connection_same_iff :
    (a b : ConnectionState) → ((connection_tag a == connection_tag b) ≡ true) ↔ (a ≡ b)
connection_same_iff a b = ground arith

instance abbrev pub connection_identity : Identity ConnectionState
connection_identity = record {
  same = λ a b. connection_tag a == connection_tag b;
  same_iff = connection_same_iff;
}

abbrev recording_tag : RecordingState → ℕ
recording_tag RecordingState.idle = 0
recording_tag RecordingState.starting = 1
recording_tag RecordingState.recording = 2
recording_tag RecordingState.stopping = 3
recording_tag RecordingState.failed = 4

pub recording_same_iff :
    (a b : RecordingState) → ((recording_tag a == recording_tag b) ≡ true) ↔ (a ≡ b)
recording_same_iff a b = ground arith

instance abbrev pub recording_identity : Identity RecordingState
recording_identity = record {
  same = λ a b. recording_tag a == recording_tag b;
  same_iff = recording_same_iff;
}

abbrev preview_tag : PreviewKind → ℕ
preview_tag PreviewKind.live_view = 0
preview_tag PreviewKind.postview = 1
preview_tag PreviewKind.thumbnail = 2
preview_tag PreviewKind.screennail = 3

pub preview_same_iff : (a b : PreviewKind) → ((preview_tag a == preview_tag b) ≡ true) ↔ (a ≡ b)
preview_same_iff a b = ground arith

instance abbrev pub preview_identity : Identity PreviewKind
preview_identity = record {
  same = λ a b. preview_tag a == preview_tag b;
  same_iff = preview_same_iff;
}

-- `StillDestination.includes_host`
abbrev pub includes_host : StillDestination → Bool
includes_host StillDestination.memory_card = false
includes_host _ = true

-- `StillDestination.includes_card`
abbrev pub includes_card : StillDestination → Bool
includes_card StillDestination.host = false
includes_card _ = true

-- `ConnectionState.is_usable`
abbrev pub is_usable : ConnectionState → Bool
is_usable ConnectionState.connected = true
is_usable _ = false

-- `ConnectionState.is_terminal`
abbrev pub is_terminal : ConnectionState → Bool
is_terminal ConnectionState.closed = true
is_terminal _ = false

-- `FocusState.is_focused`: the states that authorise a release.
abbrev pub is_focused : FocusState → Bool
is_focused FocusState.focused_af_s = true
is_focused FocusState.focused_af_c = true
is_focused _ = false

-- `FocusState.is_failure`: the states in which autofocus gave up.
abbrev pub is_failure : FocusState → Bool
is_failure FocusState.not_focused_af_s = true
is_failure FocusState.not_focused_af_c = true
is_failure _ = false

-- `CaptureState.is_terminal`
abbrev pub is_terminal_capture : CaptureState → Bool
is_terminal_capture CaptureState.preview_available = true
is_terminal_capture CaptureState.failed = true
is_terminal_capture _ = false

-- `TransferOutcome.finished`
abbrev pub finished : TransferOutcome → Bool
finished TransferOutcome.in_progress = false
finished _ = true

-- `PreviewKind.is_exact_still`
abbrev pub is_exact_still : PreviewKind → Bool
is_exact_still PreviewKind.live_view = false
is_exact_still _ = true

-- `PropertyAccess.writable`
abbrev pub writable : PropertyAccess → Bool
writable PropertyAccess.read_write = true
writable PropertyAccess.write_only = true
writable _ = false

-- `PropertyAccess.readable`
abbrev pub readable : PropertyAccess → Bool
readable PropertyAccess.read_write = true
readable PropertyAccess.read_only = true
readable _ = false
