-- ===== src/Ipc/Shrinks.antt =====
-- src/crsdkpy/backend/_ipc.py: every frame that is read leaves fewer bytes in the stream.
use cr_sdkpy.Base.{
  ℕ, ◌+◌, ◌-◌, ◌≤◌, ◌<◌, ◌≡◌, refl, Bool, true, false, ◌&&◌, Option, none, some, List, [], ◌∷◌,
  ◌++◌, arith, ltb, ◌==◌, if◌then◌else◌, length, length-append, length-drop, drop, join, ok, err,
  ◌>>=◌,
}
use cr_sdkpy.Ipc.{
  Stream, Wire, read_loop, at_eof, read_exact, read_payload, read_body, read_frame, Frame, Header,
  decode,
}

abbrev pub bytes_left : Stream → ℕ
bytes_left chunks = length (join chunks)

-- What a read leaves: no more than there was, and less by `n` where it returned bytes.
abbrev Leaves : ℕ → Stream → Wire (Option (List ℕ) × Stream) → Type 0
Leaves n chunks (err e) = Unit {0}
Leaves n chunks (ok (none, rest)) = bytes_left rest ≤ bytes_left chunks
Leaves n chunks (ok (some bytes, rest)) = bytes_left rest + n ≤ bytes_left chunks

either {ℓ} :
    {A : Type ℓ} (Q : A → Type 0) (b : Bool) (x y : A)
    → (b ≡ true → Q x)
    → (b ≡ false → Q y)
    → Q (if b then x else y)
either Q true x y hx hy = hx refl
either Q false x y hx hy = hy refl

at_eof-Leaves :
    (allow_eof : Bool) (count remaining : ℕ) (chunks : Stream)
    → Leaves remaining chunks (at_eof allow_eof count remaining)
unfolding at_eof
at_eof-Leaves allow_eof count remaining chunks =
    either (Leaves remaining chunks) (allow_eof && remaining == count) _ _ (λ _. omega arith)
      (λ _. tt)

behind-Leaves :
    (n : ℕ) (chunk : List ℕ) (chunks : Stream) (r : Wire (Option (List ℕ) × Stream))
    → length chunk ≤ n
    → Leaves (n - length chunk) chunks r
    → Leaves n (chunk ∷ chunks) r
behind-Leaves n chunk chunks (err e) h l = tt
behind-Leaves n chunk chunks (ok (none, rest)) h l =
    omega (arith, length-append chunk (join chunks), l)
behind-Leaves n chunk chunks (ok (some bytes, rest)) h l =
    omega (arith, length-append chunk (join chunks), l)

read_loop-Leaves :
    (allow_eof : Bool) (count n : ℕ) (acc : List ℕ) (chunks : Stream)
    → Leaves n chunks (read_loop allow_eof count n acc chunks)
unfolding read_loop
read_loop-Leaves allow_eof count n acc [] =
    either (Leaves n []) (n == 0) _ _ (λ h. ground arith) (λ _. at_eof-Leaves allow_eof count n [])
read_loop-Leaves allow_eof count n acc (chunk ∷ chunks) =
    either (Leaves n (chunk ∷ chunks)) (n == 0) _ _ (λ h. ground arith)
      (λ _.
        either (Leaves n (chunk ∷ chunks)) (length chunk == 0) _ _
          (λ _. at_eof-Leaves allow_eof count n (chunk ∷ chunks))
          (λ _.
            either (Leaves n (chunk ∷ chunks)) (ltb n (length chunk)) _ _
              (λ h.
                let e = length-append chunk (join chunks) in
                let e' = length-append (drop n chunk) (join chunks) in
                let d = length-drop n chunk in ground arith)
              (λ h.
                behind-Leaves n chunk chunks _ (ground arith)
                  (read_loop-Leaves allow_eof count (n - length chunk) (acc ++ chunk) chunks))))

-- A payload leaves no more than there was.
abbrev Kept : {A : Type 0} → Stream → Wire (A × Stream) → Type 0
Kept chunks (err e) = Unit {0}
Kept chunks (ok (a, rest)) = bytes_left rest ≤ bytes_left chunks

bytes-Kept :
    (n : ℕ) (chunks : Stream) (r : Wire (Option (List ℕ) × Stream))
    → Leaves n chunks r
    → Kept chunks (r >>= λ x. ok (elim (x.0) [ some bytes ↦ bytes | none ↦ [] ], x.1))
bytes-Kept n chunks (err e) l = tt
bytes-Kept n chunks (ok (none, rest)) l = l
bytes-Kept n chunks (ok (some bytes, rest)) l = omega (arith, l)

read_payload-Kept : (n : ℕ) (chunks : Stream) → Kept chunks (read_payload n chunks)
unfolding read_payload read_exact
read_payload-Kept n chunks =
    either (Kept chunks) (n == 0) _ _ (λ _. omega arith)
      (λ _. bytes-Kept n chunks _ (read_loop-Leaves false n n [] chunks))

then-Kept :
    {A B : Type 0} (chunks : Stream) (x : Wire (A × Stream)) (f : A → Stream → Wire (B × Stream))
    → Kept chunks x
    → ((a : A) (rest : Stream) → Kept rest (f a rest))
    → Kept chunks (x >>= λ r. f r.0 r.1)
then-Kept chunks (err e) f k h = tt
then-Kept chunks (ok (a, rest)) f k h = carry chunks rest (f a rest) k (h a rest)
  where
    carry :
        {B : Type 0} (chunks rest : Stream) (y : Wire (B × Stream))
        → bytes_left rest ≤ bytes_left chunks
        → Kept rest y
        → Kept chunks y
    carry chunks rest (err e) k l = tt
    carry chunks rest (ok (b, more)) k l = omega (arith, k, l)

read_body-Kept :
    (header_bytes : List ℕ) (chunks : Stream) → Kept chunks (read_body header_bytes chunks)
unfolding read_body
read_body-Kept header_bytes chunks = with_header (decode header_bytes)
  where
    with_header :
        (r : Wire Header)
        → Kept {A = Option Frame} chunks (
            r >>= λ header. read_payload header.meta_len chunks >>= λ m.
            read_payload header.blob_len m.1 >>= λ b. ok (
              some (record {
                message_type = header.message_type;
                request_id = header.request_id;
                meta = m.0;
                blob = b.0;
              }),
              b.1,
            ))
    with_header (err e) = tt
    with_header (ok header) =
        then-Kept chunks (read_payload header.meta_len chunks) _
          (read_payload-Kept header.meta_len chunks)
          (λ meta chunks'.
            then-Kept chunks' (read_payload header.blob_len chunks') _
              (read_payload-Kept header.blob_len chunks') (λ blob chunks''. omega arith))

-- A frame that is read leaves fewer bytes than there were.
abbrev pub Shrinks : Stream → Wire (Option Frame × Stream) → Type 0
Shrinks chunks (err e) = Unit {0}
Shrinks chunks (ok (none, rest)) = Unit {0}
Shrinks chunks (ok (some frame, rest)) = bytes_left rest < bytes_left chunks

pub read_frame-Shrinks : (chunks : Stream) → Shrinks chunks (read_frame chunks)
unfolding read_frame read_exact
read_frame-Shrinks chunks =
    behind_header (read_loop true 24 24 [] chunks) (read_loop-Leaves true 24 24 [] chunks)
  where
    body :
        (bytes : List ℕ) (rest : Stream) (r : Wire (Option Frame × Stream))
        → bytes_left rest + 24 ≤ bytes_left chunks
        → Kept rest r
        → Shrinks chunks r
    body bytes rest (err e) l k = tt
    body bytes rest (ok (none, more)) l k = tt
    body bytes rest (ok (some frame, more)) l k = omega (arith, l, k)

    behind_header :
        (x : Wire (Option (List ℕ) × Stream))
        → Leaves 24 chunks x
        → Shrinks chunks (
            x >>= λ h. elim (h.0) as (λ _. Wire (Option Frame × Stream)) [
              | none ↦ ok (none, h.1)
              | some bytes ↦ read_body bytes h.1
            ])
    behind_header (err e) l = tt
    behind_header (ok (none, rest)) l = tt
    behind_header (ok (some bytes, rest)) l =
        body bytes rest (read_body bytes rest) l (read_body-Kept bytes rest)
