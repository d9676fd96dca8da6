-- ===== src/Jpeg/Bounds.antt =====
-- The walks of src/crsdkpy/_jpeg.py end, and the regions they report lie in order within the
-- data.
use cr_sdkpy.Base.{
  ℕ, zero, suc, ◌+◌, ◌≤◌, ◌<◌, ◌≡◌, refl, ◌≢◌, ◌⊎◌, inl, inr, true, Option, none, some, List, [],
  ◌∷◌, arith, ltb, ltb→lt, ◌==◌, Bool-cases, length,
}
use cr_sdkpy.Jpeg.{
  Found, skip_to, standalone, segment, stop, look, is_jpeg, sos, scan_marker, Segment,
  walk_dimensions, jpeg_dimensions, walk_segments, jpeg_segments, prepend, yield_found,
}

-- What each answer of `look` says of the offsets.
abbrev pub Progress : ℕ → ℕ → Found → Type 0
Progress offset size (skip_to next) = next ≡ offset + 1
Progress offset size (standalone marker next) = next ≡ offset + 2
Progress offset size (segment marker start n) = (start ≡ offset + 2) × (2 ≤ n) × (offset + 4 ≤ size)
Progress offset size stop = Unit {0}

pub look-Progress :
    (bytes : List ℕ) (offset : ℕ) → Progress offset (length bytes) (look bytes offset)
unfolding look
look-Progress bytes offset = ground arith

walk_dimensions-ne-none :
    (fuel : ℕ) (bytes : List ℕ) (offset : ℕ)
    → 0 < fuel
    → length bytes < offset + fuel
    → walk_dimensions fuel bytes offset ≢ none
unfolding walk_dimensions
walk_dimensions-ne-none zero bytes offset pos enough = absurd (omega arith)
walk_dimensions-ne-none (suc fuel) bytes offset pos enough =
    grind (arith, look-Progress bytes offset, λ (n : ℕ). walk_dimensions-ne-none fuel bytes n)

walk_segments-ne-none :
    (fuel : ℕ) (bytes : List ℕ) (offset : ℕ)
    → 0 < fuel
    → length bytes < offset + fuel
    → walk_segments fuel bytes offset ≢ none
unfolding walk_segments
walk_segments-ne-none zero bytes offset pos enough = absurd (omega arith)
walk_segments-ne-none (suc fuel) bytes offset pos enough =
    grind (arith, look-Progress bytes offset, λ (n : ℕ). walk_segments-ne-none fuel bytes n)

-- The search for the frame header ends on every input, with the length of the data as fuel.
pub jpeg_dimensions-ne-none : (bytes : List ℕ) → jpeg_dimensions bytes ≢ none
unfolding jpeg_dimensions is_jpeg
jpeg_dimensions-ne-none bytes = ground (arith, walk_dimensions-ne-none (length bytes) bytes 2)

-- The regions follow one another from `from` on and end at `size` at most; each holds its two
-- marker bytes, unless it is picture data, which reaches to the end.
abbrev pub InOrder : ℕ → ℕ → List Segment → Type 0
InOrder from size [] = Unit {0}
InOrder from size (s ∷ rest) =
    (from ≤ s.start)
    × (s.end ≤ size)
    × ((s.start + 2 ≤ s.end) ⊎ ((s.marker ≡ scan_marker) × (s.start ≤ s.end) × (s.end ≡ size)))
    × InOrder s.end size rest

abbrev pub IsInOrder : ℕ → ℕ → Option (List Segment) → Type 0
IsInOrder from size none = ⊥
IsInOrder from size (some segments) = InOrder from size segments

InOrder-weaken :
    (low high size : ℕ) (segments : List Segment)
    → low ≤ high
    → InOrder high size segments
    → InOrder low size segments
InOrder-weaken low high size [] le h = tt
InOrder-weaken low high size (s ∷ rest) le h = (omega arith, h.1, h.2, h.3)

IsInOrder-weaken :
    (low high size : ℕ) (r : Option (List Segment))
    → low ≤ high
    → IsInOrder high size r
    → IsInOrder low size r
IsInOrder-weaken low high size none le h = h
IsInOrder-weaken low high size (some segments) le h = InOrder-weaken low high size segments le h

IsInOrder-prepend :
    (from size : ℕ) (s : Segment) (r : Option (List Segment))
    → from ≤ s.start
    → s.start + 2 ≤ s.end
    → s.end ≤ size
    → IsInOrder s.end size r
    → IsInOrder from size (prepend s r)
IsInOrder-prepend from size s none a b c h = h
IsInOrder-prepend from size s (some rest) a b c h = (a, c, inl b, h)

module _ (fuel : ℕ) (bytes : List ℕ) (offset : ℕ) where
  abbrev Later : Type 0
  Later = (n : ℕ) → offset < n → IsInOrder n (length bytes) (walk_segments fuel bytes n)

  yield_found-IsInOrder :
      (found : Found)
      → offset + 1 < length bytes
      → Progress offset (length bytes) found
      → Later
      → IsInOrder offset (length bytes) (yield_found bytes offset (walk_segments fuel bytes) found)
  unfolding yield_found
  yield_found-IsInOrder (skip_to next) more p later =
      IsInOrder-weaken offset next (length bytes) _ (omega arith) (later next (omega arith))
  yield_found-IsInOrder (standalone marker next) more p later =
      IsInOrder-prepend offset (length bytes) _ _ (omega arith) (omega arith) (omega arith)
        (later next (omega arith))
  yield_found-IsInOrder (segment marker start size) more p later =
      elim (Bool-cases (marker == sos)) [
        | inl scan ↦ rw scan (
          omega arith,
          omega arith,
          inl (omega arith),
          (omega arith, omega arith, inr (refl, omega arith, refl), tt),
        )
        | inr other ↦ rw other (
            IsInOrder-prepend offset (length bytes) _ _ (omega arith) (omega arith) (omega arith)
              (later _ (omega arith)))
      ]
  yield_found-IsInOrder stop more p later = tt

walk_segments-IsInOrder :
    (fuel : ℕ) (bytes : List ℕ) (offset : ℕ)
    → 0 < fuel
    → length bytes < offset + fuel
    → IsInOrder offset (length bytes) (walk_segments fuel bytes offset)
unfolding walk_segments
walk_segments-IsInOrder zero bytes offset pos enough = absurd (omega arith)
walk_segments-IsInOrder (suc fuel) bytes offset pos enough =
    elim (Bool-cases (ltb (offset + 1) (length bytes))) [
      | inl more ↦
          rw (more, walk_segments)
            (yield_found-IsInOrder fuel bytes offset (look bytes offset) (ltb→lt _ _ more)
              (look-Progress bytes offset)
              (λ n after.
                walk_segments-IsInOrder fuel bytes n (omega (arith, ltb→lt _ _ more))
                  (omega arith)))
      | inr done ↦ rw (done, walk_segments) tt
    ]

pub is_jpeg-length : (bytes : List ℕ) → is_jpeg bytes ≡ true → 2 ≤ length bytes
unfolding is_jpeg
is_jpeg-length bytes h = ground arith

-- `jpeg_segments` ends on every input, and the regions that it yields lie one after another
-- between the signature and the end of the data, each with its two marker bytes, only the
-- picture data with none; that region reaches to the end.
pub jpeg_segments-IsInOrder : (bytes : List ℕ) → IsInOrder 2 (length bytes) (jpeg_segments bytes)
unfolding jpeg_segments
jpeg_segments-IsInOrder bytes = elim (Bool-cases (is_jpeg bytes)) [
  | inl signed ↦
      let two = is_jpeg-length bytes signed in
      rw signed (walk_segments-IsInOrder (length bytes) bytes 2 (omega arith) (omega arith))
  | inr other ↦ rw other tt
]
