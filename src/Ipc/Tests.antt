-- ===== src/Ipc/Tests.antt =====
-- Concrete frames of src/crsdkpy/backend/_ipc.py.
use cr_sdkpy.Base.{
  ℕ, ◌<◌, true, ◌&&◌, none, some, List, [], ◌∷◌, ◌++◌, ◌==◌, if◌then◌else◌, length, join, take, ok,
  err, ◌≡◌, refl, arith,
}
use cr_sdkpy.Ipc.{Stream, truncated, encode, pack_header, read_exact, read_frame}
use cr_sdkpy.Ipc.Reading.{skip, read_exact_enough, read_exact_short}
use cr_sdkpy.Ipc.RoundTrip.{read_frame-encode}
use cr_sdkpy.Ipc.Truncation.{read_frame_truncated}

-- A message of the type 1 and the id 2.
abbrev message : List ℕ
message = pack_header 1 2 1 2 ++ (7 ∷ 8 ∷ 9 ∷ [])

message_accepted : encode 1 2 (7 ∷ []) (8 ∷ 9 ∷ []) ≡ ok message
unfolding encode
message_accepted = refl

read_frame_example :
    (left : Stream) × (read_frame (message ∷ (5 ∷ []) ∷ [])
      ≡ ok (
        some (record { message_type = 1; request_id = 2; meta = 7 ∷ []; blob = 8 ∷ 9 ∷ [] }),
        left,
      ))
    × (join left ≡ 5 ∷ [])
read_frame_example =
    read_frame-encode 1 2 (7 ∷ []) (8 ∷ 9 ∷ []) message (5 ∷ []) (message ∷ (5 ∷ []) ∷ [])
      message_accepted (omega arith, (omega arith, tt)) refl

-- The message without its last two bytes, in two chunks.
abbrev cut_message : Stream
cut_message = pack_header 1 2 1 2 ∷ (7 ∷ []) ∷ []

read_frame_truncated_example :
    (wanted got : ℕ) × (got < wanted) × (read_frame cut_message ≡ err (truncated wanted got))
read_frame_truncated_example =
    read_frame_truncated 1 2 (7 ∷ []) (8 ∷ 9 ∷ []) message (8 ∷ 9 ∷ []) cut_message message_accepted
      (omega arith, (omega arith, tt)) refl (omega arith) (omega arith)

abbrev one_byte : Stream
one_byte = (1 ∷ []) ∷ []

read_exact_short_example : read_exact true 3 one_byte ≡ (
    if true && length (join one_byte) == 0
    then ok (none, [])
    else err (truncated 3 (length (join one_byte))))
read_exact_short_example = read_exact_short true 3 one_byte (omega arith, tt) (omega arith)

read_exact_enough_example :
    read_exact true 3 ((1 ∷ []) ∷ (2 ∷ 3 ∷ 4 ∷ []) ∷ [])
    ≡ ok (
      some (take 3 (join ((1 ∷ []) ∷ (2 ∷ 3 ∷ 4 ∷ []) ∷ []))),
      skip 3 ((1 ∷ []) ∷ (2 ∷ 3 ∷ 4 ∷ []) ∷ []),
    )
read_exact_enough_example =
    read_exact_enough true 3 ((1 ∷ []) ∷ (2 ∷ 3 ∷ 4 ∷ []) ∷ []) (omega arith, (omega arith, tt))
      (omega arith)
