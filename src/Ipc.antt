-- ===== src/Ipc.antt =====
-- src/crsdkpy/backend/_ipc.py: the frames between the library and its host process.
-- A pipe is the list of the chunks that its `read` calls will return, the end of the stream
-- behind the last one; how the bytes are cut into chunks is open. Bytes are numbers.
pub mod Reading
pub mod RoundTrip
pub mod Truncation
pub mod Shrinks
pub mod Tests
use cr_sdkpy.Base.{
  ℕ, zero, suc, ◌+◌, ◌-◌, ◌*◌, ◌/◌, ◌^◌, min, Bool, true, false, not, ◌&&◌, ◌||◌, Option, none,
  some, List, [], ◌∷◌, ◌++◌, ltb, ◌==◌, if◌then◌else◌, length, take, drop, Result, ok, err, ◌>>=◌,
  ◌>>◌, raise_if,
}
use cr_sdkpy.Base.Bytes.{le_bytes, from_le}
use cr_sdkpy.Base.Int.{ℤ, signed64}

-- `MAGIC`, `VERSION_MAJOR`, `VERSION_MINOR`, `MAX_META`, `MAX_BLOB`
abbrev pub magic : ℕ
magic = 0x43525059

abbrev pub version_major : ℕ
version_major = 1

abbrev pub version_minor : ℕ
version_minor = 0

abbrev pub max_meta : ℕ
max_meta = 65536

abbrev pub max_blob : ℕ
max_blob = 67108864

abbrev pub header_size : ℕ
header_size = 24

-- The reasons of a `ProtocolError`, and `struct.error` on a number that its field cannot hold.
pub data WireError : Type 0 where
  meta_too_large blob_too_large : ℕ → WireError
  pack_range : WireError
  header_length bad_magic bad_version : ℕ → WireError
  implausible_size : ℕ → ℕ → WireError
  -- the bytes wanted, and those received
  truncated : ℕ → ℕ → WireError
  payload_too_short : ℕ → WireError
  blob_too_short : ℕ → ℕ → WireError

abbrev pub Wire : Type 0 → Type 0
Wire = Result WireError

-- `_HEADER.pack(...)`, of `struct.Struct("<IHHIIII")`.
abbrev pub pack_header : ℕ → ℕ → ℕ → ℕ → List ℕ
pack_header message_type request_id meta_len blob_len =
    le_bytes 4 magic
    ++ (le_bytes 2 version_major
        ++ (le_bytes 2 message_type
            ++ (le_bytes 4 request_id
                ++ (le_bytes 4 meta_len ++ (le_bytes 4 blob_len ++ le_bytes 4 0)))))

unfoldable pub encode : ℕ → ℕ → List ℕ → List ℕ → Wire (List ℕ)
encode message_type request_id meta blob = do
  raise_if (ltb max_meta (length meta)) (meta_too_large (length meta))
  raise_if (ltb max_blob (length blob)) (blob_too_large (length blob))
  raise_if (not (ltb message_type 65536 && ltb request_id 4294967296)) pack_range
  ok (pack_header message_type request_id (length meta) (length blob) ++ (meta ++ blob))

pub record Header : Type 0 where
  pub message_type : ℕ
  pub request_id : ℕ
  pub meta_len : ℕ
  pub blob_len : ℕ

-- One little-endian field of `width` bytes at `offset`.
abbrev pub field_at : List ℕ → ℕ → ℕ → ℕ
field_at bytes offset width = from_le (take width (drop offset bytes))

unfoldable pub decode : List ℕ → Wire Header
decode bytes = do
  raise_if (not (length bytes == header_size)) (header_length (length bytes))
  let meta_len = field_at bytes 12 4
  let blob_len = field_at bytes 16 4
  raise_if (not (field_at bytes 0 4 == magic)) (bad_magic (field_at bytes 0 4))
  raise_if (not (field_at bytes 4 2 == version_major)) (bad_version (field_at bytes 4 2))
  raise_if (ltb max_meta meta_len || ltb max_blob blob_len) (implausible_size meta_len blob_len)
  ok (record {
    message_type = field_at bytes 6 2;
    request_id = field_at bytes 8 4;
    meta_len = meta_len;
    blob_len = blob_len;
  })

abbrev pub Stream : Type 0
Stream = List (List ℕ)

-- What `read` reports at the end of the stream, after `count - remaining` bytes.
unfoldable pub at_eof : Bool → ℕ → ℕ → Wire (Option (List ℕ) × Stream)
at_eof allow_eof count remaining =
    if allow_eof && remaining == count
    then ok (none, [])
    else err (truncated count (count - remaining))

-- The loop of `_read_exact`: `chunks` holds what has been read. A `read` returns all of the next
-- chunk, or as much of it as is asked for; an empty chunk is the end of the stream.
unfoldable pub read_loop : Bool → ℕ → ℕ → List ℕ → Stream → Wire (Option (List ℕ) × Stream)
read_loop allow_eof count remaining acc [] =
    if remaining == 0 then ok (some acc, []) else at_eof allow_eof count remaining
read_loop allow_eof count remaining acc (chunk ∷ chunks) =
    if remaining == 0
    then ok (some acc, chunk ∷ chunks)
    else if length chunk == 0
    then at_eof allow_eof count remaining
    else if ltb remaining (length chunk)
    then ok (some (acc ++ take remaining chunk), drop remaining chunk ∷ chunks)
    else read_loop allow_eof count (remaining - length chunk) (acc ++ chunk) chunks

-- `_read_exact`
unfoldable pub read_exact : Bool → ℕ → Stream → Wire (Option (List ℕ) × Stream)
unfolding read_loop at_eof
read_exact allow_eof count chunks = read_loop allow_eof count count [] chunks

-- `_read_exact(stream, n) if n else b""`
unfoldable pub read_payload : ℕ → Stream → Wire (List ℕ × Stream)
read_payload n chunks =
    if n == 0
    then ok ([], chunks)
    else (read_exact false n chunks >>= λ r.
        ok (elim (r.0) [ some bytes ↦ bytes | none ↦ [] ], r.1))

pub record Frame : Type 0 where
  pub message_type : ℕ
  pub request_id : ℕ
  pub meta : List ℕ
  pub blob : List ℕ

-- The rest of `read_frame`, behind the header's bytes.
unfoldable pub read_body : List ℕ → Stream → Wire (Option Frame × Stream)
read_body header_bytes chunks = do
  header ← decode header_bytes
  (meta, chunks') ← read_payload header.meta_len chunks
  (blob, chunks'') ← read_payload header.blob_len chunks'
  ok (
    some (record {
      message_type = header.message_type;
      request_id = header.request_id;
      meta = meta;
      blob = blob;
    }),
    chunks'',
  )

unfoldable pub read_frame : Stream → Wire (Option Frame × Stream)
read_frame chunks = do
  (header_bytes, chunks') ← read_exact true header_size chunks
  elim header_bytes [ none ↦ ok (none, chunks') | some bytes ↦ read_body bytes chunks' ]

-- `from_bytes`, for a structure of `size` bytes: its bytes.
unfoldable pub from_bytes : ℕ → List ℕ → Wire (List ℕ)
from_bytes size bytes = do
  raise_if (ltb (length bytes) size) (payload_too_short (length bytes))
  ok (take size bytes)

-- The items of `unpack_array`, from the front of the blob on.
unfoldable pub split_items : ℕ → ℕ → List ℕ → Wire (List (List ℕ))
unfolding from_bytes
split_items size zero blob = ok []
split_items size (suc count) blob = do
  item ← from_bytes size (take size blob)
  items ← split_items size count (drop size blob)
  ok (item ∷ items)

unfoldable pub unpack_array : ℕ → List ℕ → ℕ → Wire (List (List ℕ))
unfolding split_items
unpack_array size blob count = do
  raise_if (not (count == 0) && ltb (length blob) (size * count))
      (blob_too_short (length blob) (size * count))
  split_items size count blob

-- `struct.unpack_from(f"<{usable}q", blob)`
unfoldable pub unpack_words : ℕ → List ℕ → List ℤ
unpack_words zero blob = []
unpack_words (suc count) blob = signed64 (from_le (take 8 blob)) ∷ unpack_words count (drop 8 blob)

unfoldable pub unpack_int64_array : List ℕ → ℕ → List ℤ
unfolding unpack_words
unpack_int64_array blob count = unpack_words (min count (length blob / 8)) blob
