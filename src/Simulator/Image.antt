-- ===== src/Simulator/Image.antt =====
-- `_synth_image` of src/crsdkpy/simulator/backend.py, and what the JPEG parser reads in what it
-- makes. The random generator is an argument: `draw i` is its i-th byte for the seed.
use cr_sdkpy.Base.{
  ℕ, zero, suc, ◌+◌, ◌-◌, ◌/◌, ◌%◌, ◌<◌, ◌≡◌, refl, true, ◌&&◌, Option, none, some, List, [], ◌∷◌,
  ◌++◌, append_assoc, min, max, arith, ltb, ◌==◌, if◌then◌else◌, length, length-append,
  length-replicate, replicate, drop,
}
use cr_sdkpy.Jpeg.{
  jpeg_magic, eoi, jpeg_dimensions, walk_dimensions, look, frame_at, is_jpeg, is_sof, is_standalone,
  looks_complete, ends_with_eoi,
}

-- `bytes(rnd.getrandbits(8) for _ in range(n))`, from the i-th draw on.
pub draws : (ℕ → ℕ) → ℕ → ℕ → List ℕ
draws draw zero i = []
draws draw (suc n) i = draw i ∷ draws draw n (i + 1)

-- `struct.pack(">H", n)`, where `n` has passed the range check of `struct`.
abbrev be16_bytes : ℕ → List ℕ
be16_bytes n = (n / 256) ∷ (n % 256) ∷ []

-- Start of image, and the frame header of one component at 8 bits.
abbrev sof_header : ℕ → ℕ → List ℕ
sof_header width height =
    jpeg_magic
    ++ (0xFF
        ∷ 0xC0
        ∷ (be16_bytes 11
            ++ (8 ∷ (be16_bytes height ++ (be16_bytes width ++ (1 ∷ 1 ∷ 0x11 ∷ 0 ∷ []))))))

-- `none` is the error of `struct.pack` on a size of more than 16 bits.
abbrev header : ℕ → ℕ → Option (List ℕ)
header width height =
    if ltb 0 width && ltb 0 height
    then (if ltb width 65536 && ltb height 65536 then some (sof_header width height) else none)
    else some jpeg_magic

abbrev nonzero_or : ℕ → ℕ → ℕ
nonzero_or n d = if n == 0 then d else n

-- Everything behind the header.
unfoldable pub image_body : (ℕ → ℕ) → ℕ → List ℕ
unfolding draws
image_body draw body_length =
    let count = min 48 body_length in
    let body = draws draw count 0 in
    let filler = replicate (body_length - length body) (nonzero_or (draw count) 0x5A) in
    body ++ (filler ++ eoi)

abbrev with_body : (ℕ → ℕ) → ℕ → Option (List ℕ) → Option (List ℕ)
with_body draw size none = none
with_body draw size (some head) = some (head ++ image_body draw (size - length head - 2))

unfoldable pub synth_image : (ℕ → ℕ) → ℕ → ℕ → ℕ → Option (List ℕ)
synth_image draw size width height = with_body draw (max 32 size) (header width height)

length-draws : (draw : ℕ → ℕ) (n i : ℕ) → length (draws draw n i) ≡ n
unfolding draws
length-draws draw zero i = refl
length-draws draw (suc n) i = omega (arith, length-draws draw n (i + 1))

length-image_body : (draw : ℕ → ℕ) (n : ℕ) → length (image_body draw n) ≡ n + 2
unfolding image_body
length-image_body draw n =
    let body = draws draw (min 48 n) 0 in
    let filler = replicate (n - length body) (nonzero_or (draw (min 48 n)) 0x5A) in
    omega (
      arith,
      length-append body (filler ++ eoi),
      length-append filler eoi,
      length-draws draw (min 48 n) 0,
      length-replicate (n - length body) (nonzero_or (draw (min 48 n)) 0x5A),
    )

ends_with_eoi-append : (xs : List ℕ) → ends_with_eoi (xs ++ eoi) ≡ true
ends_with_eoi-append [] = refl
ends_with_eoi-append (x ∷ []) = refl
ends_with_eoi-append (x ∷ y ∷ []) = refl
ends_with_eoi-append (x ∷ y ∷ z ∷ xs) = ends_with_eoi-append (y ∷ z ∷ xs)

looks_complete-append :
    (xs ys zs : List ℕ) → looks_complete (jpeg_magic ++ (xs ++ (ys ++ (zs ++ eoi)))) ≡ true
unfolding looks_complete
looks_complete-append xs ys zs =
    let tail = xs ++ (ys ++ zs) in
    let regroup : xs ++ (ys ++ (zs ++ eoi)) ≡ tail ++ eoi = simp append_assoc in
    rw regroup (ground (arith, ends_with_eoi-append (0xFF ∷ 0xD8 ∷ tail), length-append tail eoi))

looks_complete-image_body :
    (head : List ℕ) (draw : ℕ → ℕ) (n : ℕ)
    → looks_complete (jpeg_magic ++ (head ++ image_body draw n)) ≡ true
unfolding image_body
looks_complete-image_body head draw n = looks_complete-append head (draws draw (min 48 n) 0) _

jpeg_dimensions-header :
    (width height : ℕ) (rest : List ℕ)
    → 0 < width
    → width < 65536
    → 0 < height
    → height < 65536
    → jpeg_dimensions (sof_header width height ++ rest) ≡ some (some (width, height))
unfolding jpeg_dimensions walk_dimensions look frame_at is_jpeg is_sof is_standalone
jpeg_dimensions-header width height rest a b c d = ground arith

-- The image has the size asked for (32 bytes at least), looks complete, and its header reads
-- back as the geometry asked for.
pub synth_image_reads_back :
    (draw : ℕ → ℕ) (size width height : ℕ)
    → 0 < width
    → width < 65536
    → 0 < height
    → height < 65536
    → (image : List ℕ) × (synth_image draw size width height ≡ some image)
      × (length image ≡ max 32 size)
      × (looks_complete image ≡ true)
      × (jpeg_dimensions image ≡ some (some (width, height)))
unfolding synth_image looks_complete
synth_image_reads_back draw size width height a b c d = (
  sof_header width height ++ image_body draw (max 32 size - 15 - 2),
  ground arith,
  omega (arith, length-image_body draw (max 32 size - 15 - 2)),
  looks_complete-image_body (drop 2 (sof_header width height)) draw _,
  jpeg_dimensions-header width height _ a b c d,
)
