-- ===== src/Simulator/Media.antt =====
-- The operations of `SimulatedBackend` (src/crsdkpy/simulator/backend.py) on device status,
-- destination, live view, content, previews and movies. The random generator is an argument.
use Prim.Native.String.{String}
use cr_sdkpy.Base.{
  ℕ, ◌+◌, ◌-◌, ◌*◌, ◌/◌, Bool, true, false, not, ◌&&◌, Option, none, some, List, [], ◌∷◌, ltb, ◌==◌,
  max, if◌then◌else◌, length, get_last?, select, contains, nat_identity, Result, ok, err,
}
use cr_sdkpy.Base.Int.{pos}
use cr_sdkpy.Base.Dict.{Dict, lookup, has_key}
use cr_sdkpy.Enums.{
  StillDestination, PreviewKind, RecordingState, destination_identity, preview_identity,
}
use cr_sdkpy.Capabilities.{get}
use cr_sdkpy.Contract.{BatteryStatus, StorageSlot, LiveViewInfo, Preview, ContentRef}
use cr_sdkpy.Events.{
  Event, Error, Action, gets, modify, camera_connection, unsupported, struct_error,
}
use cr_sdkpy.Simulator.Profiles.{PreviewSpec, LiveViewProfile, code_destination}
use cr_sdkpy.Simulator.Timeline.{
  SimSession, Effect, initial_value, schedule, notify, put_property, settle,
}
use cr_sdkpy.Simulator.Shooting.{caps, begin_recording, end_recording, schedule_reconnect}
use cr_sdkpy.Simulator.Image.{synth_image}
use cr_sdkpy.Simulator.Backend.{World, Operation, on_session, on_live_session, destination_name}

-- `random.Random(seed)`: the bytes that it draws, and `randint(-jitter, jitter)` counted from
-- `-jitter`.
pub record Rng : Type 0 where
  pub byte : ℕ → ℕ → ℕ
  pub spread : ℕ → ℕ → ℕ

abbrev read_battery : SimSession → BatteryStatus
read_battery s =
    let percent = s.profile.battery_percent - s.capture_sequence in
    record {
      percent = some (pos percent);
      level = some (3 * percent);
      usb_power = s.profile.usb_power;
      raw_level = none;
    }

-- `battery`
unfoldable pub battery : ℕ → Action World BatteryStatus
battery id = on_live_session id (λ now. gets read_battery)

-- The slots of `storage`, from a slot number on.
unfoldable pub read_slots : ℕ → List Bool → SimSession → List StorageSlot
read_slots number [] s = []
read_slots number (present ∷ rest) s =
    (if present
      then record {
        slot = number;
        status = "ok";
        remaining_shots = some (pos (s.profile.remaining_shots - length s.contents));
        remaining_seconds = some (pos s.profile.remaining_seconds);
        raw_status = some (pos 0);
      }
      else record {
        slot = number;
        status = "no_card";
        remaining_shots = none;
        remaining_seconds = none;
        raw_status = none;
      })
    ∷ read_slots (number + 1) rest s

-- `storage`
unfoldable pub storage : ℕ → Action World (List StorageSlot)
unfolding read_slots
storage id = on_live_session id (λ now. gets (λ s. read_slots 1 s.profile.slots s))

-- `get_destination`
unfoldable pub get_destination : ℕ → Action World StillDestination
get_destination id = on_session id (λ now. gets (λ s. s.destination))

abbrev choose_destination : StillDestination → Operation (Unit {0})
choose_destination destination now s =
    if contains destination s.profile.destinations
    then (
      ok tt,
      notify (Event.property_changed now (code_destination ∷ [])) (
          put_property code_destination (initial_value code_destination destination)
            (record s { destination = destination })),
    )
    else (err (unsupported (destination_name destination)), s)

-- `set_destination`
unfoldable pub set_destination : ℕ → StillDestination → Action World (Unit {0})
unfolding initial_value
set_destination id destination = on_live_session id (choose_destination destination)

abbrev empty_info : LiveViewInfo
empty_info = record {
  info_ok = true;
  width = some 0;
  height = some 0;
  buffer_size = 0;
  error_code = none;
}

abbrev read_info : SimSession → LiveViewInfo
read_info s =
    let lv = s.profile.live_view in
    if not (caps s).live_view
    then empty_info
    else if s.scenario.live_view_info_ok_but_empty
    then empty_info
    else record {
      info_ok = true;
      width = some lv.width;
      height = some lv.height;
      buffer_size = lv.buffer_size;
      error_code = none;
    }

-- `live_view_info`
unfoldable pub live_view_info : ℕ → Action World LiveViewInfo
live_view_info id = on_live_session id (λ now. gets read_info)

-- `max(1, int(1000.0 / max(frames_per_second, 0.001)))`
unfoldable pub frame_interval : LiveViewProfile → ℕ
frame_interval lv = max 1 (1000000 / max lv.milliframes_per_second 1)

-- `struct.error` on an image whose geometry does not fit.
abbrev pub with_image :
    {S : Type 0} → Option (List ℕ) → (List ℕ → Preview) → S → Result Error Preview × S
with_image none make s = (err struct_error, s)
with_image (some bytes) make s = (ok (make bytes), s)

abbrev pub to_option : {S : Type 0} → Result Error Preview × S → Result Error (Option Preview) × S
to_option (ok p, s) = (ok (some p), s)
to_option (err e, s) = (err e, s)

-- The part of `get_live_view_frame` that produces a frame.
unfoldable pub produce_frame : Rng → Operation (Option Preview)
unfolding frame_interval
produce_frame rng now s =
    let lv = s.profile.live_view in
    let number = s.live_view_frame_no + 1 in
    let s' = record s { next_frame_ms = now + frame_interval lv; live_view_frame_no = number } in
    let size = max 1024 (lv.byte_length + rng.spread number lv.byte_jitter - lv.byte_jitter) in
    to_option (
      with_image (synth_image (rng.byte number) size lv.width lv.height)
        (λ bytes. record {
          kind = PreviewKind.live_view;
          bytes = bytes;
          width = some lv.width;
          height = some lv.height;
          timestamp_ms = now;
          content_id = none;
          frame_number = number;
          file_id = 0;
          file_number = none;
        })
        s')

unfoldable pub next_frame : Rng → Operation (Option Preview)
unfolding produce_frame caps
next_frame rng now s =
    if not (caps s).live_view
    then (err (unsupported "live_view"), s)
    else if s.scenario.live_view_fetch_fails
    then (err (camera_connection false), s)
    else if ltb now s.live_view_blocked_until
    then (ok none, s)
    else if ltb now s.next_frame_ms
    then (ok none, s)
    else produce_frame rng now s

-- `get_live_view_frame`
unfoldable pub get_live_view_frame : Rng → ℕ → Action World (Option Preview)
unfolding next_frame
get_live_view_frame rng id = on_live_session id (next_frame rng)

-- `configure_postview`
unfoldable pub configure_postview : ℕ → Bool → Action World (Unit {0})
unfolding caps
configure_postview id enabled = on_live_session id (λ now s.
    if (caps s).postview_configuration
    then (ok tt, record s { postview_configured = enabled })
    else (err (unsupported "postview_configuration"), s))

-- `take_transfer_path`
unfoldable pub take_transfer_path : ℕ → Action World (Option (List ℕ))
take_transfer_path id =
    on_live_session id (λ now s. (ok s.transfer_path, record s { transfer_path = none }))

abbrev salt : PreviewKind → ℕ
salt PreviewKind.live_view = 11
salt PreviewKind.postview = 23
salt PreviewKind.thumbnail = 37
salt PreviewKind.screennail = 51

-- `next((c for c in session.contents if c.content_id == content_id), None)`
unfoldable pub find_ref : ℕ → List ContentRef → Option ContentRef
find_ref content_id [] = none
find_ref content_id (c ∷ cs) = if c.content_id == content_id then some c else find_ref content_id cs

abbrev preview_spec : PreviewKind → SimSession → PreviewSpec
preview_spec kind s = elim (lookup kind s.profile.previews) [
  | some spec ↦ spec
  | none ↦ record { width = 640; height = 480; byte_length = 50000 }
]

-- `_make_preview`
unfoldable pub make_preview : Rng → PreviewKind → ℕ → Operation Preview
unfolding find_ref
make_preview rng kind content_id now s =
    let spec = preview_spec kind s in
    let source = find_ref content_id s.contents in
    with_image
      (synth_image (rng.byte (content_id * 31 + salt kind)) spec.byte_length spec.width spec.height)
      (λ bytes. record {
        kind = kind;
        bytes = bytes;
        width = some spec.width;
        height = some spec.height;
        timestamp_ms = now;
        content_id = some content_id;
        frame_number = 0;
        file_id = elim source [ some ref ↦ ref.file_id | none ↦ 0 ];
        file_number = elim source [ some ref ↦ ref.file_number | none ↦ none ];
      })
      s

abbrev deliver_postview : Rng → Operation (Option Preview)
deliver_postview rng now s = elim (s.postview_pending) [
  | none ↦ (ok none, s)
  | some content_id ↦
      to_option (
        make_preview rng PreviewKind.postview content_id now (record s { postview_pending = none }))
]

-- `pull_postview`
unfoldable pub pull_postview : Rng → ℕ → Action World (Option Preview)
unfolding caps make_preview
pull_postview rng id = on_live_session id (λ now s.
    if (caps s).postview_delivery
    then deliver_postview rng now s
    else (err (unsupported "postview_delivery"), s))

-- `_require_content_index`
abbrev pub with_index : {A : Type 0} → Operation A → Operation A
with_index op now s =
    if (caps s).content_index then op now s else (err (unsupported "content_index"), s)

-- `latest_content`
unfoldable pub latest_content : ℕ → Action World (Option ContentRef)
unfolding caps
latest_content id = on_live_session id (with_index (λ now. gets (λ s. get_last? s.contents)))

-- The items of `list_content`.
abbrev pub newer : Option ℕ → List ContentRef → List ContentRef
newer none contents = contents
newer (some baseline) contents = select (λ c. ltb baseline c.content_id) contents

-- `list_content`
unfoldable pub list_content : ℕ → Option ℕ → Action World (List ContentRef)
unfolding caps
list_content id newer_than =
    on_live_session id (with_index (λ now. gets (λ s. newer newer_than s.contents)))

-- The capability that a preview form needs.
abbrev preview_capability : PreviewKind → String
preview_capability PreviewKind.thumbnail = "thumbnail"
preview_capability PreviewKind.screennail = "screennail"
preview_capability PreviewKind.postview = "postview_delivery"
preview_capability PreviewKind.live_view = "content_index"

-- The content whose image is served: under `stale_preview`, that of the request before.
abbrev served : ℕ → SimSession → ℕ
served content_id s =
    if s.scenario.stale_preview
    then elim (s.last_delivered_content) [ some previous ↦ previous | none ↦ content_id ]
    else content_id

-- `get_preview` on a session that is live.
unfoldable pub serve_preview : Rng → ℕ → PreviewKind → Operation Preview
unfolding caps make_preview get
serve_preview rng content_id kind now s =
    if get (caps s) (preview_capability kind) false
    then make_preview rng kind (served content_id s) now
        (record s { last_delivered_content = some content_id })
    else (err (unsupported (preview_capability kind)), s)

-- `get_preview`
unfoldable pub get_preview : Rng → ℕ → ℕ → PreviewKind → Action World Preview
unfolding serve_preview
get_preview rng id content_id kind = on_live_session id (serve_preview rng content_id kind)

-- `if not caps.video: raise`
abbrev with_video : (ℕ → SimSession → SimSession) → Operation (Unit {0})
with_video act now s = if (caps s).video then (ok tt, act now s) else (err (unsupported "video"), s)

-- `start_recording`
unfoldable pub start_recording : ℕ → Action World (Unit {0})
unfolding caps
start_recording id = on_live_session id (with_video begin_recording)

-- `stop_recording`
unfoldable pub stop_recording : ℕ → Action World (Unit {0})
unfolding caps
stop_recording id = on_live_session id (with_video end_recording)

-- `recording_state`
unfoldable pub recording_state : ℕ → Action World RecordingState
recording_state id = on_session id (λ now s. let s' = settle now s in (ok s'.recording, s'))

-- `values.items()` that name a property of the session are written.
unfoldable pub write_known : Dict ℕ ℕ → SimSession → SimSession
write_known [] s = s
write_known ((code, value) ∷ rest) s =
    write_known rest (if has_key code s.properties then put_property code value s else s)

abbrev announce : List ℕ → ℕ → SimSession → SimSession
announce [] now s = s
announce (c ∷ cs) now s = notify (Event.property_changed now (c ∷ cs)) s

abbrev schedule_straggler : List ℕ → ℕ → SimSession → SimSession
schedule_straggler batch now s = elim (get_last? batch) [
  | none ↦ s
  | some code ↦
      if s.scenario.property_stragglers && ltb 1 (length batch)
      then schedule (now + s.profile.timings.property_straggler) (Effect.straggle code) s
      else s
]

abbrev physical_change : List ℕ → Dict ℕ ℕ → Operation (Unit {0})
physical_change codes values now s =
    let s' = write_known values s in
    let batch = select (λ code. has_key code s'.properties) codes in
    (ok tt, schedule_straggler batch now (announce batch now s'))

-- `simulate_physical_property_change`
unfoldable pub simulate_physical_property_change : ℕ → List ℕ → Dict ℕ ℕ → Action World (Unit {0})
unfolding write_known
simulate_physical_property_change id codes values =
    on_live_session id (physical_change codes values)

-- `simulate_reconnect`
unfoldable pub simulate_reconnect : ℕ → ℕ → Action World (Unit {0})
simulate_reconnect id delay_ms = on_session id (λ now. modify (schedule_reconnect (now + delay_ms)))
