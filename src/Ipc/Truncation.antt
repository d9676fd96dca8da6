-- ===== src/Ipc/Truncation.antt =====
-- A stream that ends within a frame: `read_frame` of src/crsdkpy/backend/_ipc.py raises, and
-- never takes it for a clean end or for a frame.
use cr_sdkpy.Base.{
  ℕ, ◌≤◌, ◌<◌, ◌≡◌, refl, sym, ◌∙◌, ap, inl, inr, true, none, some, List, [], ◌++◌, arith, ltb,
  ltb→lt, Bool-cases, length, length-append, take, drop, join, take-append, drop-append,
  take-append_le, drop-append_le, ok, err,
}
use cr_sdkpy.Ipc.{
  Stream, truncated, encode, decode, pack_header, read_body, read_frame, read_exact, read_payload,
  header_size,
}
use cr_sdkpy.Ipc.Reading.{
  IsFlowing, skip, skip-IsFlowing, join-skip, read_exact_enough, read_exact_short,
  read_payload_enough, read_payload_short,
}
use cr_sdkpy.Ipc.RoundTrip.{Encoded, encode-Encoded, decode-pack_header}

-- The first part of a text that has lost its end.
module _ (xs lost ys zs : List ℕ) (cut : xs ++ lost ≡ ys ++ zs)
    (reaches : length ys ≤ length xs) where
  take_part : take (length ys) xs ≡ ys
  take_part =
      sym (take-append_le (length ys) xs lost reaches)
      ∙ ap (take (length ys)) cut
      ∙ take-append ys zs

  drop_part : drop (length ys) xs ++ lost ≡ zs
  drop_part =
      sym (drop-append_le (length ys) xs lost reaches)
      ∙ ap (drop (length ys)) cut
      ∙ drop-append ys zs

module _ {t r : ℕ} {meta blob frame : List ℕ} (e : Encoded t r meta blob frame) (chunks : Stream)
    (lost : List ℕ) (flow : IsFlowing chunks) (cut : join chunks ++ lost ≡ frame)
    (short : 0 < length lost) where
  abbrev header_bytes : List ℕ
  header_bytes = pack_header t r (length meta) (length blob)

  abbrev Fails : Type 0
  Fails = (wanted got : ℕ) × (got < wanted) × (read_frame chunks ≡ err (truncated wanted got))

  module _ (whole_header : header_size ≤ length (join chunks)) where
    cut_header : join chunks ++ lost ≡ header_bytes ++ (meta ++ blob)
    cut_header = cut ∙ e.layout

    abbrev behind_header : Stream
    behind_header = skip header_size chunks

    header_read : read_exact true header_size chunks ≡ ok (some header_bytes, behind_header)
    header_read =
        read_exact_enough true header_size chunks flow whole_header
        ∙ ap (λ xs. ok (some xs, behind_header))
            (take_part (join chunks) lost header_bytes (meta ++ blob) cut_header whole_header)

    header_decoded :
        decode header_bytes
        ≡ ok (record {
          message_type = t;
          request_id = r;
          meta_len = length meta;
          blob_len = length blob;
        })
    header_decoded =
        decode-pack_header t r (length meta) (length blob) e.type_range e.id_range e.meta_range
          e.blob_range

    cut_meta : join behind_header ++ lost ≡ meta ++ blob
    cut_meta =
        ap (λ xs. xs ++ lost) (join-skip header_size chunks whole_header)
        ∙ drop_part (join chunks) lost header_bytes (meta ++ blob) cut_header whole_header

    flow_header : IsFlowing behind_header
    flow_header = skip-IsFlowing header_size chunks flow

    fails_in_meta : length (join behind_header) < length meta → Fails
    unfolding read_frame read_body
    fails_in_meta h = (
      length meta,
      length (join behind_header),
      h,
      ground (
        arith,
        header_read,
        header_decoded,
        read_payload_short (length meta) behind_header flow_header,
      ),
    )

    module _ (whole_meta : length meta ≤ length (join behind_header)) where
      abbrev behind_meta : Stream
      behind_meta = skip (length meta) behind_header

      meta_read : read_payload (length meta) behind_header ≡ ok (meta, behind_meta)
      meta_read =
          read_payload_enough (length meta) behind_header flow_header whole_meta
          ∙ ap (λ xs. ok (xs, behind_meta))
              (take_part (join behind_header) lost meta blob cut_meta whole_meta)

      cut_blob : join behind_meta ++ lost ≡ blob
      cut_blob =
          ap (λ xs. xs ++ lost) (join-skip (length meta) behind_header whole_meta)
          ∙ drop_part (join behind_header) lost meta blob cut_meta whole_meta

      blob_short : length (join behind_meta) < length blob
      blob_short = omega (arith, ap length cut_blob, length-append (join behind_meta) lost)

      fails_in_blob : Fails
      unfolding read_frame read_body
      fails_in_blob = (
        length blob,
        length (join behind_meta),
        blob_short,
        ground (
          arith,
          header_read,
          header_decoded,
          meta_read,
          read_payload_short (length blob) behind_meta
              (skip-IsFlowing (length meta) behind_header flow_header) blob_short,
        ),
      )

    fails_behind_header : Fails
    fails_behind_header = elim (Bool-cases (ltb (length (join behind_header)) (length meta))) [
      | inl in_meta ↦ fails_in_meta (ltb→lt _ _ in_meta)
      | inr in_blob ↦ fails_in_blob (ground arith)
    ]

  ends_in_header :
      0 < length (join chunks)
      → length (join chunks) < header_size
      → read_frame chunks ≡ err (truncated header_size (length (join chunks)))
  unfolding read_frame
  ends_in_header some_read h = ground (arith, read_exact_short true header_size chunks flow h)

  pub truncated_frame_fails : 0 < length (join chunks) → Fails
  truncated_frame_fails some_read = elim (Bool-cases (ltb (length (join chunks)) header_size)) [
    | inl in_header ↦ (
      header_size,
      length (join chunks),
      ltb→lt _ _ in_header,
      ends_in_header some_read (ltb→lt _ _ in_header),
    )
    | inr beyond ↦ fails_behind_header (ground arith)
  ]

-- A stream that holds the beginning of a frame, at least one byte of it and not all, makes
-- `read_frame` raise the truncation error, with fewer bytes received than wanted.
pub read_frame_truncated :
    (t r : ℕ) (meta blob frame lost : List ℕ) (chunks : Stream)
    → encode t r meta blob ≡ ok frame
    → IsFlowing chunks
    → join chunks ++ lost ≡ frame
    → 0 < length lost
    → 0 < length (join chunks)
    → (wanted got : ℕ) × (got < wanted) × (read_frame chunks ≡ err (truncated wanted got))
read_frame_truncated t r meta blob frame lost chunks accepted flow cut short some_read =
    truncated_frame_fails (encode-Encoded t r meta blob frame accepted) chunks lost flow cut short
      some_read

-- A stream that holds nothing is a clean end.
pub read_frame_eof : read_frame [] ≡ ok (none, [])
unfolding read_frame read_exact
read_frame_eof = refl
