-- ===== src/Ipc/Reading.antt =====
-- `_read_exact` of src/crsdkpy/backend/_ipc.py against a plain view of a stream: the bytes that
-- are left in it, however they are cut into chunks.
use cr_sdkpy.Base.{
  ℕ, zero, suc, ◌+◌, ◌-◌, ◌≤◌, ◌<◌, ◌≡◌, refl, ◌∙◌, ap, Bool, false, ◌&&◌, none, some, List, [],
  ◌∷◌, ◌++◌, append_assoc, append-nil, arith, ltb, ◌==◌, if◌then◌else◌, length, length-append, take,
  drop, All, join, take-append_le, drop-append_le, take-append_add, drop-append_add, ok, err,
}
use cr_sdkpy.Ipc.{Stream, truncated, read_loop, at_eof, read_exact, read_payload}

-- No `read` returns an empty chunk before the end of the stream.
abbrev pub IsFlowing : Stream → Type 0
IsFlowing = All (λ chunk. 0 < length chunk)

-- The stream behind its first `n` bytes.
pub skip : ℕ → Stream → Stream
skip n [] = []
skip n (chunk ∷ chunks) =
    if n == 0
    then chunk ∷ chunks
    else if ltb n (length chunk)
    then drop n chunk ∷ chunks
    else skip (n - length chunk) chunks

take-append_sub :
    (n : ℕ) (xs ys : List ℕ) → length xs ≤ n → take n (xs ++ ys) ≡ xs ++ take (n - length xs) ys
take-append_sub n xs ys h =
    let e : n ≡ length xs + (n - length xs) = omega arith in
    ap (λ k. take k (xs ++ ys)) e ∙ take-append_add (n - length xs) xs ys

drop-append_sub :
    (n : ℕ) (xs ys : List ℕ) → length xs ≤ n → drop n (xs ++ ys) ≡ drop (n - length xs) ys
drop-append_sub n xs ys h =
    let e : n ≡ length xs + (n - length xs) = omega arith in
    ap (λ k. drop k (xs ++ ys)) e ∙ drop-append_add (n - length xs) xs ys

read_loop_enough :
    (allow_eof : Bool) (count n : ℕ) (acc : List ℕ) (chunks : Stream)
    → IsFlowing chunks
    → n ≤ length (join chunks)
    → read_loop allow_eof count n acc chunks
      ≡ ok (some (acc ++ take n (join chunks)), skip n chunks)
unfolding read_loop skip
read_loop_enough allow_eof count n acc [] flow h = ground (arith, append-nil acc)
read_loop_enough allow_eof count n acc (chunk ∷ chunks) flow h = ground (
  arith,
  append-nil acc,
  length-append chunk (join chunks),
  take-append_le n chunk (join chunks),
  take-append_sub n chunk (join chunks),
  append_assoc acc chunk (take (n - length chunk) (join chunks)),
  read_loop_enough allow_eof count (n - length chunk) (acc ++ chunk) chunks flow.1,
)

read_loop_short :
    (allow_eof : Bool) (count n : ℕ) (acc : List ℕ) (chunks : Stream)
    → IsFlowing chunks
    → length (join chunks) < n
    → read_loop allow_eof count n acc chunks ≡ at_eof allow_eof count (n - length (join chunks))
unfolding read_loop
read_loop_short allow_eof count n acc [] flow h = ground arith
read_loop_short allow_eof count n acc (chunk ∷ chunks) flow h = ground (
  arith,
  length-append chunk (join chunks),
  read_loop_short allow_eof count (n - length chunk) (acc ++ chunk) chunks flow.1,
)

pub join-skip :
    (n : ℕ) (chunks : Stream)
    → n ≤ length (join chunks)
    → join (skip n chunks) ≡ drop n (join chunks)
unfolding skip
join-skip n [] h = ground arith
join-skip n (chunk ∷ chunks) h = ground (
  arith,
  length-append chunk (join chunks),
  drop-append_le n chunk (join chunks),
  drop-append_sub n chunk (join chunks),
  join-skip (n - length chunk) chunks,
)

length-drop_pos : (n : ℕ) (xs : List ℕ) → n < length xs → 0 < length (drop n xs)
length-drop_pos zero xs h = h
length-drop_pos (suc n) [] h = elim h [ ]
length-drop_pos (suc n) (x ∷ xs) h = length-drop_pos n xs (omega arith)

pub skip-IsFlowing : (n : ℕ) (chunks : Stream) → IsFlowing chunks → IsFlowing (skip n chunks)
unfolding skip
skip-IsFlowing n [] flow = tt
skip-IsFlowing n (chunk ∷ chunks) flow =
    ground (arith, length-drop_pos n chunk, skip-IsFlowing (n - length chunk) chunks flow.1)

-- From a stream with enough bytes left, `_read_exact` returns the next `count` of them and
-- leaves the rest, however the stream is cut into chunks.
pub read_exact_enough :
    (allow_eof : Bool) (count : ℕ) (chunks : Stream)
    → IsFlowing chunks
    → count ≤ length (join chunks)
    → read_exact allow_eof count chunks ≡ ok (some (take count (join chunks)), skip count chunks)
unfolding read_exact
read_exact_enough allow_eof count chunks flow h =
    read_loop_enough allow_eof count count [] chunks flow h

-- From a stream with too few bytes left it fails, and names the bytes wanted and received; only
-- where nothing at all is left, and the caller allows for that, it reports a clean end.
pub read_exact_short :
    (allow_eof : Bool) (count : ℕ) (chunks : Stream)
    → IsFlowing chunks
    → length (join chunks) < count
    → read_exact allow_eof count chunks ≡ (
        if allow_eof && length (join chunks) == 0
        then ok (none, [])
        else err (truncated count (length (join chunks))))
unfolding read_exact at_eof
read_exact_short allow_eof count chunks flow h =
    ground (arith, read_loop_short allow_eof count count [] chunks flow)

skip-zero : (chunks : Stream) → skip 0 chunks ≡ chunks
unfolding skip
skip-zero [] = refl
skip-zero (chunk ∷ chunks) = refl

pub read_payload_enough :
    (n : ℕ) (chunks : Stream)
    → IsFlowing chunks
    → n ≤ length (join chunks)
    → read_payload n chunks ≡ ok (take n (join chunks), skip n chunks)
unfolding read_payload
read_payload_enough n chunks flow h =
    ground (arith, skip-zero chunks, read_exact_enough false n chunks)

pub read_payload_short :
    (n : ℕ) (chunks : Stream)
    → IsFlowing chunks
    → length (join chunks) < n
    → read_payload n chunks ≡ err (truncated n (length (join chunks)))
unfolding read_payload
read_payload_short n chunks flow h = ground (arith, read_exact_short false n chunks)
