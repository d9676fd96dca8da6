-- ===== src/Native/Measured.antt =====
-- src/crsdkpy/backend/native.py: what a backend remembers of its sessions beside their handles,
-- the last live-view frame and the measured capabilities. A session is its number.
use cr_sdkpy.Base.{
  ℕ, ◌+◌, ◌-◌, Bool, true, false, not, none, some, List, [], ◌∷◌, ltb, ◌==◌, if◌then◌else◌,
  contains, select, nat_identity,
}
use cr_sdkpy.Base.Dict.{Dict, lookup, insert, erase}
use cr_sdkpy.Enums.{SessionMode}

-- `FrameSequencer`
pub record FrameSequencer : Type 0 where
  pub last : Dict ℕ ℕ
  pub skipped : Dict ℕ ℕ

abbrev pub empty_sequencer : FrameSequencer
empty_sequencer = record { last = []; skipped = [] }

abbrev pub skipped_of : ℕ → FrameSequencer → ℕ
skipped_of id s = elim (lookup id s.skipped) [ some n ↦ n | none ↦ 0 ]

-- `FrameSequencer.accept`
unfoldable pub accept : ℕ → ℕ → FrameSequencer → Bool × FrameSequencer
accept id frame_number s = elim (lookup id s.last) [
  | none ↦ (true, record s { last = insert id frame_number s.last })
  | some previous ↦ if frame_number == previous then (false, s) else (
    true,
    record {
      last = insert id frame_number s.last;
      skipped =
          if ltb (previous + 1) frame_number
          then insert id (skipped_of id s + frame_number - previous - 1) s.skipped
          else s.skipped;
    },
  )
]

-- `FrameSequencer.forget`
unfoldable pub forget_frames : ℕ → FrameSequencer → FrameSequencer
forget_frames id s = record { last = erase id s.last; skipped = erase id s.skipped }

-- `MeasuredCapabilities`
pub record MeasuredCapabilities : Type 0 where
  pub live_views : Dict ℕ Bool
  pub videos : Dict ℕ Bool
  pub postview_configuration_refused : List ℕ
  pub postview_delivered : List ℕ

abbrev pub nothing_measured : MeasuredCapabilities
nothing_measured = record {
  live_views = [];
  videos = [];
  postview_configuration_refused = [];
  postview_delivered = [];
}

-- `set.add` and `set.discard`
abbrev pub add : ℕ → List ℕ → List ℕ
add id ids = if contains id ids then ids else id ∷ ids

abbrev pub discard : ℕ → List ℕ → List ℕ
discard id ids = select (λ j. not (j == id)) ids

-- Whether `live_view` knows already that the session has it.
abbrev pub knows_live_view : ℕ → MeasuredCapabilities → Bool
knows_live_view id m = elim (lookup id m.live_views) [ some b ↦ b | none ↦ false ]

-- `live_view` behind the probe: only a positive answer is remembered.
unfoldable pub note_live_view : ℕ → Bool → MeasuredCapabilities → MeasuredCapabilities
note_live_view id usable m =
    if usable then record m { live_views = insert id true m.live_views } else m

-- `video` behind the probe: either answer is remembered.
unfoldable pub note_video : ℕ → Bool → MeasuredCapabilities → MeasuredCapabilities
note_video id b m = record m { videos = insert id b m.videos }

-- `MeasuredCapabilities.forget`
unfoldable pub forget_measured : ℕ → MeasuredCapabilities → MeasuredCapabilities
forget_measured id m = record {
  live_views = erase id m.live_views;
  videos = erase id m.videos;
  postview_configuration_refused = discard id m.postview_configuration_refused;
  postview_delivered = discard id m.postview_delivered;
}

-- `CONTENT_MODES`, and the one answer of `_content_capabilities` for its three names.
unfoldable pub has_content : SessionMode → Bool
has_content SessionMode.remote_transfer = true
has_content SessionMode.remote = false
has_content SessionMode.contents_transfer = false
