-- ===== src/Contract.antt =====
-- src/crsdkpy/backend/contract.py with the records it passes on from status.py and previews.py:
-- what a backend reports, and the interface that the public session drives.
use Prim.Native.String.{String}
use cr_sdkpy.Base.{ℕ, ◌+◌, ◌≤◌, ◌<◌, Bool, Option, List, ltb, ◌&&◌, Result, ok, err, false, ◌≡◌}
use cr_sdkpy.Base.Int.{ℤ}
use cr_sdkpy.Enums.{
  ConnectionState, StillDestination, FocusState, RecordingState, PreviewKind, Command,
  CommandParameter,
}
use cr_sdkpy.Capabilities.{SessionCapabilities}
use cr_sdkpy.Events.{Event, Error, is_exhausted, Action, Text}

-- `ContentRef` of src/crsdkpy/backend/contract.py.
pub record ContentRef : Type 0 where
  pub content_id : ℕ
  pub file_id : ℕ
  pub file_number : Option ℕ
  pub path : Option Text
  pub created_ms : ℕ
  pub captured_at : Option Text
  pub content_type : ℕ
  pub file_format : ℕ
  pub width : Option ℕ
  pub height : Option ℕ
  pub file_size : Option ℕ
  pub slot : ℕ
  pub file_count : ℕ

-- `BatteryStatus` of src/crsdkpy/status.py; a level is counted in three-hundredths, which holds
-- percentages, quarters and thirds.
pub record BatteryStatus : Type 0 where
  pub percent : Option ℤ
  pub level : Option ℕ
  pub usb_power : Bool
  pub raw_level : Option ℤ

-- `StorageSlot` of src/crsdkpy/status.py.
pub record StorageSlot : Type 0 where
  pub slot : ℕ
  pub status : String
  pub remaining_shots : Option ℤ
  pub remaining_seconds : Option ℤ
  pub raw_status : Option ℤ

-- `LiveViewInfo` of src/crsdkpy/backend/contract.py.
pub record LiveViewInfo : Type 0 where
  pub info_ok : Bool
  pub width : Option ℕ
  pub height : Option ℕ
  pub buffer_size : ℕ
  pub error_code : Option ℤ

-- `LiveViewInfo.usable`
unfoldable pub usable : LiveViewInfo → Bool
usable i = i.info_ok && ltb 0 i.buffer_size

-- `Preview` and `LiveViewFrame` of src/crsdkpy/previews.py; of the metadata the file's number.
pub record Preview : Type 0 where
  pub kind : PreviewKind
  pub bytes : List ℕ
  pub width : Option ℕ
  pub height : Option ℕ
  pub timestamp_ms : ℕ
  pub content_id : Option ℕ
  pub frame_number : ℕ
  pub file_id : ℕ
  pub file_number : Option ℕ

-- `Backend`, with the session id of one open session already given. `State` is all that an
-- operation may read or change, the clock included.
pub record Backend : Type 1 where
  pub State : Type 0
  pub now_ms : State → ℕ
  pub sleep_ms : ℕ → State → State
  pub connection_state : Action State ConnectionState
  pub session_capabilities : Action State SessionCapabilities
  pub close_session : Action State (Unit {0})
  pub poll_events : ℕ → Action State (List Event)
  pub get_destination : Action State StillDestination
  pub set_destination : StillDestination → Action State (Unit {0})
  pub get_half_press : Action State Bool
  pub set_half_press : Bool → Action State (Unit {0})
  pub focus_state : Action State FocusState
  pub send_command : Command → CommandParameter → Action State (Unit {0})
  pub latest_content : Action State (Option ContentRef)
  pub list_content : Option ℕ → Action State (List ContentRef)
  pub get_preview : ℕ → PreviewKind → Action State Preview
  pub pull_postview : Action State (Option Preview)
  pub configure_postview : Bool → Action State (Unit {0})
  pub get_live_view_frame : Action State (Option Preview)
  pub live_view_info : Action State LiveViewInfo
  pub start_recording : Action State (Unit {0})
  pub stop_recording : Action State (Unit {0})
  pub recording_state : Action State RecordingState

-- What holds of the value and the state that an operation returns with; where it raises, the
-- error is one of the program.
unfoldable pub Returns : {S A : Type 0} → (A → S → Type 0) → Result Error A × S → Type 0
Returns G (ok a, s) = G a s
Returns G (err e, s) = is_exhausted e ≡ false

-- What the waiting loops of the public layer rely on: time does not run backwards, and waiting
-- gets somewhere. `pending` counts what a backend still has to deliver; a poll that waits and
-- succeeds either moves the clock or delivers some of it.
pub record Advances (B : Backend) : Type 1 where
  pub pending : B.State → ℕ
  pub poll_moves :
      (timeout_ms : ℕ) (s : B.State)
      → 0 < timeout_ms
      → Returns
          (λ events s'.
            (B.now_ms s + pending s' < B.now_ms s' + pending s) × (pending s' ≤ pending s))
          (B.poll_events timeout_ms s)
  pub focus_state_keeps :
      (s : B.State)
      → Returns
          (λ state s'. (B.now_ms s ≤ B.now_ms s') × (pending s' ≤ pending s))
          (B.focus_state s)
  pub get_half_press_keeps :
      (s : B.State)
      → Returns
          (λ engaged s'. (B.now_ms s ≤ B.now_ms s') × (pending s' ≤ pending s))
          (B.get_half_press s)
  -- whether it returns or raises
  pub list_content_keeps :
      (newer_than : Option ℕ) (s : B.State)
      → (B.now_ms s ≤ B.now_ms (B.list_content newer_than s).1)
        × (pending (B.list_content newer_than s).1 ≤ pending s)
        × Returns (λ refs s'. Unit {0}) (B.list_content newer_than s)
  pub session_capabilities_keeps :
      (s : B.State)
      → Returns
          (λ caps s'. (B.now_ms s ≤ B.now_ms s') × (pending s' ≤ pending s))
          (B.session_capabilities s)
  pub connection_state_keeps :
      (s : B.State)
      → Returns
          (λ state s'. (B.now_ms s ≤ B.now_ms s') × (pending s' ≤ pending s))
          (B.connection_state s)
  pub get_live_view_frame_keeps :
      (s : B.State)
      → Returns
          (λ frame s'. (B.now_ms s ≤ B.now_ms s') × (pending s' ≤ pending s))
          (B.get_live_view_frame s)
  pub sleep_moves :
      (duration : ℕ) (s : B.State) → B.now_ms (B.sleep_ms duration s) ≡ B.now_ms s + duration
  pub set_half_press_ends :
      (engaged : Bool) (s : B.State) → Returns (λ _ s'. Unit {0}) (B.set_half_press engaged s)
