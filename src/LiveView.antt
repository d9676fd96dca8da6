-- ===== src/LiveView.antt =====
-- src/crsdkpy/liveview.py: the facade `LiveView` of a session and the statistics of `measure`.
-- The clock does not run backwards, so the differences of its readings are numbers.
pub mod Summary
pub mod Rounds
pub mod Fetch
pub mod Tests
use cr_sdkpy.Base.{
  ℕ, zero, suc, ◌+◌, ◌-◌, min, max, Bool, true, false, not, ◌&&◌, Option, none, some, List, [], ◌∷◌,
  ltb, leb, if◌then◌else◌, length, ok, err,
}
use cr_sdkpy.Contract.{Backend, LiveViewInfo, Preview}
use cr_sdkpy.Events.{
  Action, raise_when, gets, pure, bind, ◌>>=◌, ◌>>◌, unsupported, operation_timeout, exhausted,
}
use cr_sdkpy.Session.{Live, now, sleep, call, capabilities, check_usable}

-- `LiveViewStatus`
pub record LiveViewStatus : Type 0 where
  pub available : Bool
  pub info_ok : Bool
  pub width : Option ℕ
  pub height : Option ℕ
  pub buffer_size : ℕ

-- `LiveViewStatus.usable`
unfoldable pub can_stream : LiveViewStatus → Bool
can_stream s = s.available && s.info_ok && ltb 0 s.buffer_size

-- What `measure` counts while it runs.
pub record Tally : Type 0 where
  pub frames : ℕ
  pub empty_polls : ℕ
  pub total_bytes : ℕ
  pub min_bytes : Option ℕ
  pub max_bytes : Option ℕ
  pub min_interval_ms : Option ℕ
  pub max_interval_ms : Option ℕ
  pub max_fetch_ms : Option ℕ
  pub previous_ms : Option ℕ
  pub first_number : Option ℕ
  pub last_number : Option ℕ

abbrev pub empty_tally : Tally
empty_tally = record {
  frames = 0;
  empty_polls = 0;
  total_bytes = 0;
  min_bytes = none;
  max_bytes = none;
  min_interval_ms = none;
  max_interval_ms = none;
  max_fetch_ms = none;
  previous_ms = none;
  first_number = none;
  last_number = none;
}

abbrev pub least : Option ℕ → ℕ → Option ℕ
least none n = some n
least (some m) n = some (min m n)

abbrev pub greatest : Option ℕ → ℕ → Option ℕ
greatest none n = some n
greatest (some m) n = some (max m n)

-- The gap to the frame before, taken up by `least` or `greatest`.
abbrev pub with_gap : (Option ℕ → ℕ → Option ℕ) → Option ℕ → ℕ → Option ℕ → Option ℕ
with_gap f none after bound = bound
with_gap f (some previous) after bound = f bound (after - previous)

abbrev first_of : Option ℕ → ℕ → Option ℕ
first_of none n = some n
first_of (some m) n = some m

-- One round of `measure`: the clock before and after the fetch, and what it returned.
pub record Round : Type 0 where
  pub before : ℕ
  pub after : ℕ
  pub frame : Option Preview

abbrev count_frame : ℕ → ℕ → Preview → Tally → Tally
count_frame before after frame t = record {
  frames = t.frames + 1;
  empty_polls = t.empty_polls;
  total_bytes = t.total_bytes + length frame.bytes;
  min_bytes = least t.min_bytes (length frame.bytes);
  max_bytes = greatest t.max_bytes (length frame.bytes);
  min_interval_ms = with_gap least t.previous_ms after t.min_interval_ms;
  max_interval_ms = with_gap greatest t.previous_ms after t.max_interval_ms;
  max_fetch_ms = greatest t.max_fetch_ms (after - before);
  previous_ms = some after;
  first_number = first_of t.first_number frame.frame_number;
  last_number = some frame.frame_number;
}

-- The body of the loop of `measure` behind the fetch.
unfoldable pub observe : Round → Tally → Tally
observe r t = elim (r.frame) [
  | none ↦ record t { empty_polls = t.empty_polls + 1 }
  | some frame ↦ count_frame r.before r.after frame t
]

-- The gaps in the camera's own numbering.
unfoldable pub skipped_by : Option ℕ → Option ℕ → ℕ → ℕ
skipped_by (some first) (some last) frames =
    if ltb 1 frames then (last + 1) - (first + frames) else 0
skipped_by _ _ frames = 0

abbrev pub skipped : Tally → ℕ
skipped t = skipped_by t.first_number t.last_number t.frames

module _ (B : Backend) where
  open B use {live_view_info, get_live_view_frame}

  -- `status`
  unfoldable pub status : Action (Live B) LiveViewStatus
  unfolding check_usable capabilities
  status = do
    check_usable B
    info ← call live_view_info
    caps ← capabilities B
    pure (record {
      available = caps.live_view;
      info_ok = info.info_ok;
      width = info.width;
      height = info.height;
      buffer_size = info.buffer_size;
    })

  -- The loop of `try_get_frame`.
  unfoldable pub fetch_loop : ℕ → ℕ → Action (Live B) (Option Preview)
  fetch_loop zero deadline c = (err exhausted, c)
  fetch_loop (suc fuel) deadline c =
      (call get_live_view_frame >>= λ found c'.
      let again = (sleep B (min 10 (deadline - now B c')) >>= λ _. fetch_loop fuel deadline) c' in
      elim found [
        | some frame ↦ (ok (some frame), c')
        | none ↦ if leb deadline (now B c') then (ok none, c') else again
      ])
        c

  -- `try_get_frame`
  unfoldable pub try_get_frame : ℕ → ℕ → Action (Live B) (Option Preview)
  unfolding check_usable capabilities fetch_loop
  try_get_frame fuel timeout_ms = do
    check_usable B
    caps ← capabilities B
    raise_when (not caps.live_view) (unsupported "live_view")
    at ← gets (now B)
    fetch_loop fuel (at + timeout_ms)

  abbrev or_raise : Option Preview → Action (Live B) Preview
  or_raise none c = (err operation_timeout, c)
  or_raise (some frame) c = (ok frame, c)

  -- `get_frame`
  unfoldable pub get_frame : ℕ → ℕ → Action (Live B) Preview
  unfolding try_get_frame
  get_frame fuel timeout_ms = try_get_frame fuel timeout_ms >>= or_raise

  -- The loop of `measure`; a fetch gets the fuel `fetch_fuel`.
  unfoldable pub measure_loop : ℕ → ℕ → ℕ → ℕ → Tally → Action (Live B) Tally
  unfolding try_get_frame observe
  measure_loop zero fetch_fuel deadline timeout_ms t c = (err exhausted, c)
  measure_loop (suc fuel) fetch_fuel deadline timeout_ms t c =
      let again =
        (try_get_frame fetch_fuel (min timeout_ms 100) >>= λ found c'.
        measure_loop fuel fetch_fuel deadline timeout_ms
          (observe (record { before = now B c; after = now B c'; frame = found }) t) c')
          c in
      if ltb (now B c) deadline then again else (ok t, c)

  -- `measure`: what it has counted, and the time that it took.
  unfoldable pub measure : ℕ → ℕ → ℕ → ℕ → Action (Live B) (Tally × ℕ)
  unfolding measure_loop
  measure fuel fetch_fuel duration_ms timeout_ms = do
    started ← gets (now B)
    t ← measure_loop fuel fetch_fuel (started + duration_ms) timeout_ms empty_tally
    ended ← gets (now B)
    pure (t, ended - started)
