-- ===== src/Jpeg/Agreement.antt =====
-- The two walks of src/crsdkpy/_jpeg.py agree: where the walk over the segments meets a frame
-- header, `jpeg_dimensions` reads that one.
use cr_sdkpy.Base.{
  ℕ, zero, suc, ◌+◌, ◌≤◌, ◌<◌, ◌≡◌, refl, sym, ◌∙◌, inl, inr, true, false, Option, none, some, List,
  [], ◌∷◌, min, arith, ltb, Bool-cases, length, if◌then◌else◌,
}
use cr_sdkpy.Jpeg.{
  Found, skip_to, standalone, segment, stop, look, frame_at, is_sof, is_standalone, sos, Segment,
  scan_marker, walk_dimensions, jpeg_dimensions, walk_segments, jpeg_segments, prepend, yield_found,
  read_found,
}
use cr_sdkpy.Jpeg.Bounds.{Progress, look-Progress}

-- The first region with the marker of a frame header.
abbrev pub first_frame : List Segment → Option Segment
first_frame [] = none
first_frame (s ∷ rest) = if is_sof s.marker then some s else first_frame rest

abbrev pub first_frame_of : Option (List Segment) → Option Segment
first_frame_of none = none
first_frame_of (some segments) = first_frame segments

is_sof-standalone : (marker : ℕ) → is_standalone marker ≡ true → is_sof marker ≡ false
unfolding is_sof is_standalone
is_sof-standalone marker h = ground arith

is_sof-sos : is_sof sos ≡ false
unfolding is_sof
is_sof-sos = refl

is_sof-scan : is_sof scan_marker ≡ false
unfolding is_sof
is_sof-scan = refl

look_standalone :
    (bytes : List ℕ) (offset marker next : ℕ)
    → look bytes offset ≡ standalone marker next
    → is_sof marker ≡ false
unfolding look
look_standalone bytes offset marker next h = ground (arith, is_sof-standalone marker)

first_frame-prepend :
    (s : Segment) (r : Option (List Segment))
    → is_sof s.marker ≡ false
    → first_frame_of (prepend s r) ≡ first_frame_of r
first_frame-prepend s none h = refl
first_frame-prepend s (some rest) h = rw h

first_frame-prepend_self :
    (s : Segment) (r : Option (List Segment)) {t : Segment}
    → is_sof s.marker ≡ true
    → first_frame_of (prepend s r) ≡ some t
    → s ≡ t
first_frame-prepend_self s none h e = cc
first_frame-prepend_self s (some rest) h e = ground arith

walk_segments_past :
    (fuel : ℕ) (bytes : List ℕ) (offset : ℕ)
    → length bytes ≤ offset
    → first_frame_of (walk_segments fuel bytes offset) ≡ none
unfolding walk_segments
walk_segments_past zero bytes offset past = refl
walk_segments_past (suc fuel) bytes offset past = ground arith

walk_dimensions_past :
    (fuel : ℕ) (bytes : List ℕ) (offset : ℕ) {s : Segment}
    → first_frame_of (walk_segments fuel bytes offset) ≡ some s
    → offset < length bytes
walk_dimensions_past fuel bytes offset h = grind (arith, walk_segments_past fuel bytes offset)

module _ (fuel : ℕ) (bytes : List ℕ) (s : Segment) where
  abbrev AgreesAt : ℕ → Type 0
  AgreesAt n =
      first_frame_of (walk_segments fuel bytes n) ≡ some s
      → walk_dimensions fuel bytes n ≡ some (frame_at bytes (s.start + 2))

  found-agree :
      (offset : ℕ) (found : Found)
      → Progress offset (length bytes) found
      → ((marker next : ℕ) → found ≡ standalone marker next → is_sof marker ≡ false)
      → ((n : ℕ) → AgreesAt n)
      → first_frame_of (yield_found bytes offset (walk_segments fuel bytes) found) ≡ some s
      → read_found bytes (walk_dimensions fuel bytes) found ≡ some (frame_at bytes (s.start + 2))
  unfolding yield_found read_found
  found-agree offset (skip_to next) p plain later e = later next e
  found-agree offset (standalone marker next) p plain later e = later next (
      sym (
        first_frame-prepend (record { marker = marker; start = offset; end = next })
          (walk_segments fuel bytes next) (plain marker next refl))
      ∙ e)
  found-agree offset (segment marker start size) p plain later e =
      let end = min (start + size) (length bytes) in
      let here : Segment = record { marker = marker; start = offset; end = end } in
      let rest = walk_segments fuel bytes end in
      ground (
        arith,
        is_sof-sos,
        is_sof-scan,
        first_frame-prepend here rest,
        first_frame-prepend_self here rest {t = s},
        walk_dimensions_past fuel bytes end {s = s},
        later (start + size),
      )
  found-agree offset stop p plain later e = cc

walk-agree : (fuel : ℕ) (bytes : List ℕ) (s : Segment) (offset : ℕ) → AgreesAt fuel bytes s offset
unfolding walk_segments walk_dimensions
walk-agree zero bytes s offset e = cc
walk-agree (suc fuel) bytes s offset e = elim (Bool-cases (ltb (offset + 1) (length bytes))) [
  | inl more ↦
      rw (more, walk_dimensions)
        (found-agree fuel bytes s offset (look bytes offset) (look-Progress bytes offset)
          (λ marker next. look_standalone bytes offset marker next) (walk-agree fuel bytes s)
          (rw (more, walk_segments) at e))
  | inr done ↦ absurd (ground arith)
]

-- Where the segments of the data hold a frame header, `jpeg_dimensions` reads the first one.
pub jpeg_dimensions-agree :
    (bytes : List ℕ) (segments : List Segment) (s : Segment)
    → jpeg_segments bytes ≡ some segments
    → first_frame segments ≡ some s
    → jpeg_dimensions bytes ≡ some (frame_at bytes (s.start + 2))
unfolding jpeg_segments jpeg_dimensions
jpeg_dimensions-agree bytes segments s e f = ground (arith, walk-agree (length bytes) bytes s 2)
