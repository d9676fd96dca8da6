-- ===== src/Jpeg.antt =====
-- src/crsdkpy/_jpeg.py: the signature test, the walk to the frame header and the walk over the
-- segments. Bytes are a list of numbers. Each walk recurs on fuel; `none` is the answer of a
-- walk that has run out, and the length of the data is enough fuel.
pub mod Bounds
pub mod Agreement
pub mod Tests
use cr_sdkpy.Base.{
  ℕ, zero, suc, ◌+◌, ◌-◌, min, Bool, true, false, not, ◌&&◌, ◌||◌, Option, none, some, List, [],
  ◌∷◌, ltb, leb, ◌==◌, if◌then◌else◌, length, get_or, drop, elem,
}
use cr_sdkpy.Base.Bytes.{from_be16}

-- `JPEG_MAGIC`
abbrev pub jpeg_magic : List ℕ
jpeg_magic = 0xFF ∷ 0xD8 ∷ []

-- `_EOI`
abbrev pub eoi : List ℕ
eoi = 0xFF ∷ 0xD9 ∷ []

-- `_SOF_MARKERS`
abbrev pub sof_markers : List ℕ
sof_markers =
    0xC0 ∷ 0xC1 ∷ 0xC2 ∷ 0xC3 ∷ 0xC5 ∷ 0xC6 ∷ 0xC7 ∷ 0xC9 ∷ 0xCA ∷ 0xCB ∷ 0xCD ∷ 0xCE ∷ 0xCF ∷ []

-- `marker in _SOF_MARKERS`
unfoldable pub is_sof : ℕ → Bool
is_sof marker = elem marker sof_markers

-- `marker in _STANDALONE`: 0x01, 0xD8, 0xD9 and the range from 0xD0 up to 0xD8.
unfoldable pub is_standalone : ℕ → Bool
is_standalone marker =
    marker == 0x01 || marker == 0xD8 || marker == 0xD9 || (leb 0xD0 marker && ltb marker 0xD8)

-- `data[offset]`, where the code has checked the offset.
abbrev pub byte_at : List ℕ → ℕ → ℕ
byte_at bytes offset = get_or bytes offset 0

-- `struct.unpack_from(">H", data, offset)`
abbrev pub be16_at : List ℕ → ℕ → ℕ
be16_at bytes offset = from_be16 (byte_at bytes offset) (byte_at bytes (offset + 1))

-- `data[:2] == JPEG_MAGIC`
abbrev pub has_magic : List ℕ → Bool
has_magic (a ∷ b ∷ _) = a == 0xFF && b == 0xD8
has_magic _ = false

unfoldable pub is_jpeg : List ℕ → Bool
is_jpeg bytes = leb 2 (length bytes) && has_magic bytes

-- What one round of the walk finds at an offset: padding or a marker to step over, a segment
-- with a length field (at the offset behind its two marker bytes), or the end of the walk.
pub data Found : Type 0 where
  skip_to : ℕ → Found
  standalone : ℕ → ℕ → Found
  segment : ℕ → ℕ → ℕ → Found
  stop : Found

-- The part of the loop body that `jpeg_dimensions` and `jpeg_segments` have in common.
unfoldable pub look : List ℕ → ℕ → Found
look bytes offset =
    let marker = byte_at bytes (offset + 1) in
    let segment_length = be16_at bytes (offset + 2) in
    if not (byte_at bytes offset == 0xFF)
    then skip_to (offset + 1)
    else if marker == 0xFF
    then skip_to (offset + 1)
    else if is_standalone marker
    then standalone marker (offset + 2)
    else if ltb (length bytes) (offset + 2 + 2)
    then stop
    else if ltb segment_length 2
    then stop
    else segment marker (offset + 2) segment_length

-- The frame header at an offset: precision, height, width.
unfoldable pub frame_at : List ℕ → ℕ → Option (ℕ × ℕ)
frame_at bytes offset =
    let height = be16_at bytes (offset + 3) in
    let width = be16_at bytes (offset + 3 + 2) in
    if ltb (length bytes) (offset + 7)
    then none
    else if width == 0 || height == 0
    then none
    else some (width, height)

-- What one round of `jpeg_dimensions` does; `rest` is the loop from a later offset.
unfoldable pub read_found : List ℕ → (ℕ → Option (Option (ℕ × ℕ))) → Found → Option (Option (ℕ × ℕ))
read_found bytes rest (skip_to next) = rest next
read_found bytes rest (standalone marker next) = rest next
read_found bytes rest (segment marker start size) =
    if is_sof marker then some (frame_at bytes start) else rest (start + size)
read_found bytes rest stop = some none

-- The loop of `jpeg_dimensions`.
unfoldable pub walk_dimensions : ℕ → List ℕ → ℕ → Option (Option (ℕ × ℕ))
unfolding read_found
walk_dimensions zero bytes offset = none
walk_dimensions (suc fuel) bytes offset = elim (ltb (offset + 1) (length bytes)) [
  | false ↦ some none
  | true ↦ read_found bytes (walk_dimensions fuel bytes) (look bytes offset)
]

unfoldable pub jpeg_dimensions : List ℕ → Option (Option (ℕ × ℕ))
jpeg_dimensions bytes = if is_jpeg bytes then walk_dimensions (length bytes) bytes 2 else some none

-- `SCAN_MARKER`
abbrev pub scan_marker : ℕ
scan_marker = 0x100

-- `_SOS`
abbrev pub sos : ℕ
sos = 0xDA

pub record Segment : Type 0 where
  pub marker : ℕ
  pub start : ℕ
  pub end : ℕ

-- `Segment.is_scan`
unfoldable pub is_scan : Segment → Bool
is_scan s = s.marker == scan_marker

-- `Segment.is_metadata`
unfoldable pub is_metadata : Segment → Bool
is_metadata s = (leb 0xE0 s.marker && leb s.marker 0xEF) || s.marker == 0xFE

-- `Segment.length`
unfoldable pub segment_length : Segment → ℕ
segment_length s = s.end - s.start

abbrev prepend : Segment → Option (List Segment) → Option (List Segment)
prepend s none = none
prepend s (some rest) = some (s ∷ rest)

-- What one round of `jpeg_segments` yields; `rest` is the loop from a later offset.
unfoldable pub yield_found :
    List ℕ → ℕ → (ℕ → Option (List Segment)) → Found → Option (List Segment)
yield_found bytes offset rest (skip_to next) = rest next
yield_found bytes offset rest (standalone marker next) =
    prepend (record { marker = marker; start = offset; end = next }) (rest next)
yield_found bytes offset rest (segment marker start size) =
    let end = min (start + size) (length bytes) in
    let here : Segment = record { marker = marker; start = offset; end = end } in
    let scan : Segment = record { marker = scan_marker; start = end; end = length bytes } in
    if marker == sos then some (here ∷ scan ∷ []) else prepend here (rest end)
yield_found bytes offset rest stop = some []

-- The loop of `jpeg_segments`; what it yields is collected.
unfoldable pub walk_segments : ℕ → List ℕ → ℕ → Option (List Segment)
unfolding yield_found
walk_segments zero bytes offset = none
walk_segments (suc fuel) bytes offset = elim (ltb (offset + 1) (length bytes)) [
  | false ↦ some []
  | true ↦ yield_found bytes offset (walk_segments fuel bytes) (look bytes offset)
]

unfoldable pub jpeg_segments : List ℕ → Option (List Segment)
jpeg_segments bytes = if is_jpeg bytes then walk_segments (length bytes) bytes 2 else some []

-- `data[-2:] == _EOI`
abbrev pub ends_with_eoi : List ℕ → Bool
ends_with_eoi (a ∷ b ∷ []) = a == 0xFF && b == 0xD9
ends_with_eoi (a ∷ rest) = ends_with_eoi rest
ends_with_eoi [] = false

unfoldable pub looks_complete : List ℕ → Bool
unfolding is_jpeg
looks_complete bytes = is_jpeg bytes && leb 4 (length bytes) && ends_with_eoi bytes
