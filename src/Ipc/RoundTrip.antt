-- ===== src/Ipc/RoundTrip.antt =====
-- What `encode` of src/crsdkpy/backend/_ipc.py writes, `read_frame` reads, and a frame that is
-- cut short is never taken for a clean end.
use cr_sdkpy.Base.{
  ℕ, ◌≤◌, ◌<◌, ◌≡◌, ◌∙◌, ap, true, some, List, ◌++◌, append_assoc, arith, length, length-append,
  take, drop, join, take-append, drop-append, ok,
}
use cr_sdkpy.Base.Bytes.{from_le-le_bytes}
use cr_sdkpy.Ipc.{
  Stream, encode, decode, pack_header, read_body, read_frame, read_exact, read_payload, header_size,
  max_meta, max_blob,
}
use cr_sdkpy.Ipc.Reading.{
  IsFlowing, skip, skip-IsFlowing, join-skip, read_exact_enough, read_payload_enough,
}

pub decode-pack_header :
    (message_type request_id meta_len blob_len : ℕ)
    → message_type < 65536
    → request_id < 4294967296
    → meta_len ≤ max_meta
    → blob_len ≤ max_blob
    → decode (pack_header message_type request_id meta_len blob_len)
      ≡ ok (record {
        message_type = message_type;
        request_id = request_id;
        meta_len = meta_len;
        blob_len = blob_len;
      })
unfolding decode
decode-pack_header t r m b ht hr hm hb = ground (
  arith,
  from_le-le_bytes 2 t (omega arith),
  from_le-le_bytes 4 r (omega arith),
  from_le-le_bytes 4 m (omega arith),
  from_le-le_bytes 4 b (omega arith),
)

-- The parts of a message that `encode` accepts.
pub record Encoded (t r : ℕ) (meta blob frame : List ℕ) : Type 0 where
  pub type_range : t < 65536
  pub id_range : r < 4294967296
  pub meta_range : length meta ≤ max_meta
  pub blob_range : length blob ≤ max_blob
  pub layout : frame ≡ pack_header t r (length meta) (length blob) ++ (meta ++ blob)

pub encode-Encoded :
    (t r : ℕ) (meta blob frame : List ℕ)
    → encode t r meta blob ≡ ok frame
    → Encoded t r meta blob frame
unfolding encode
encode-Encoded t r meta blob frame e = ground arith

-- The stream behind a frame with payloads of these sizes.
pub behind : ℕ → ℕ → Stream → Stream
behind meta_len blob_len chunks = skip blob_len (skip meta_len (skip header_size chunks))

module _ {t r : ℕ} {meta blob frame : List ℕ} (e : Encoded t r meta blob frame) (chunks : Stream)
    (rest : List ℕ) (flow : IsFlowing chunks) (sent : join chunks ≡ frame ++ rest) where
  abbrev header_bytes : List ℕ
  header_bytes = pack_header t r (length meta) (length blob)

  bytes_left : join chunks ≡ header_bytes ++ (meta ++ (blob ++ rest))
  bytes_left = rw (sent, e.layout) (simp append_assoc)

  after_header : join (skip header_size chunks) ≡ meta ++ (blob ++ rest)
  after_header =
      join-skip header_size chunks (rw bytes_left (omega arith)) ∙ ap (drop header_size) bytes_left

  after_meta : join (skip (length meta) (skip header_size chunks)) ≡ blob ++ rest
  after_meta =
      join-skip (length meta) (skip header_size chunks)
        (rw after_header (omega (arith, length-append meta (blob ++ rest))))
      ∙ ap (drop (length meta)) after_header
      ∙ drop-append meta (blob ++ rest)

  pub after_frame : join (behind (length meta) (length blob) chunks) ≡ rest
  unfolding behind
  after_frame =
      join-skip (length blob) (skip (length meta) (skip header_size chunks))
        (rw after_meta (omega (arith, length-append blob rest)))
      ∙ ap (drop (length blob)) after_meta
      ∙ drop-append blob rest

  take_meta : take (length meta) (join (skip header_size chunks)) ≡ meta
  take_meta = ap (take (length meta)) after_header ∙ take-append meta (blob ++ rest)

  take_blob : take (length blob) (join (skip (length meta) (skip header_size chunks))) ≡ blob
  take_blob = ap (take (length blob)) after_meta ∙ take-append blob rest

  flow_header : IsFlowing (skip header_size chunks)
  flow_header = skip-IsFlowing header_size chunks flow

  read_header : read_exact true header_size chunks ≡ ok (some header_bytes, skip header_size chunks)
  read_header =
      read_exact_enough true header_size chunks flow (rw bytes_left (omega arith))
      ∙ ap (λ xs. ok (some (take header_size xs), skip header_size chunks)) bytes_left

  read_meta :
      read_payload (length meta) (skip header_size chunks)
      ≡ ok (meta, skip (length meta) (skip header_size chunks))
  read_meta =
      read_payload_enough (length meta) (skip header_size chunks) flow_header
        (rw after_header (omega (arith, length-append meta (blob ++ rest))))
      ∙ ap (λ xs. ok (xs, skip (length meta) (skip header_size chunks))) take_meta

  read_blob :
      read_payload (length blob) (skip (length meta) (skip header_size chunks))
      ≡ ok (blob, behind (length meta) (length blob) chunks)
  unfolding behind
  read_blob =
      read_payload_enough (length blob) (skip (length meta) (skip header_size chunks))
        (skip-IsFlowing (length meta) (skip header_size chunks) flow_header)
        (rw after_meta (omega (arith, length-append blob rest)))
      ∙ ap (λ xs. ok (xs, behind (length meta) (length blob) chunks)) take_blob

  pub read_frame-Encoded :
      read_frame chunks
      ≡ ok (
        some (record { message_type = t; request_id = r; meta = meta; blob = blob }),
        behind (length meta) (length blob) chunks,
      )
  unfolding read_frame read_body
  read_frame-Encoded = ground (
    arith,
    read_header,
    decode-pack_header t r (length meta) (length blob) e.type_range e.id_range e.meta_range
        e.blob_range,
    read_meta,
    read_blob,
  )

-- What `encode` accepts, `read_frame` reads back, with the type, the id and both payloads as they
-- were, from any stream that begins with the frame, however it is cut into chunks; and it leaves
-- the bytes behind the frame.
pub read_frame-encode :
    (t r : ℕ) (meta blob frame rest : List ℕ) (chunks : Stream)
    → encode t r meta blob ≡ ok frame
    → IsFlowing chunks
    → join chunks ≡ frame ++ rest
    → (left : Stream) × (read_frame chunks
        ≡ ok (some (record { message_type = t; request_id = r; meta = meta; blob = blob }), left))
      × (join left ≡ rest)
read_frame-encode t r meta blob frame rest chunks accepted flow sent =
    let e = encode-Encoded t r meta blob frame accepted in
    (
      behind (length meta) (length blob) chunks,
      read_frame-Encoded e chunks rest flow sent,
      after_frame e chunks rest flow sent,
    )
