-- ===== src/Recorder/Closing.antt =====
-- The file is completed (pyxcp/recorder/reco.py: _write_header and close).
use pyxcp.Prelude.{
  ℕ, ◌+◌, ◌-◌, ◌≤◌, ◌≡◌, refl, sym, ap, ◌∙◌, true, List, [], ◌++◌, append-nil, length,
  length-append, take, All, replicate, arith,
}
use pyxcp.Prelude.Struct.{
  Field, Fields, bytes_of, length-bytes_of, pack_fields, pack_fields-bytes_of,
}
use pyxcp.Recorder.Writer.{
  XcpFrame, LogWriter, done, proceed, magic, file_header, overwrite, set_header, write_header,
  truncate, finish,
}
use pyxcp.Recorder.Overwrite.{overwrite-front, set-done, take-past}
use pyxcp.Recorder.Content.{total_length, all_frames, body, compressed_length, length-body, Holds}
use pyxcp.Recorder.Filling.{Room, Fits, Kept}

module _ (compress : List ℕ → List ℕ) (size : ℕ) where
  -- The fields of the file header for the containers.
  abbrev pub summary : List (List XcpFrame) → List Field
  summary cs =
      file_header (length cs) (length (all_frames cs)) (compressed_length compress cs)
        (total_length (all_frames cs))

  -- A complete file, with what is left after the last container.
  abbrev pub complete : List (List XcpFrame) → List ℕ → List ℕ
  complete cs tail = (magic ++ bytes_of (summary cs)) ++ (body compress cs ++ tail)

  -- A writer that closed a file with these frames.
  pub record Saved (w : LogWriter) (seen : List XcpFrame) : Type 0 where
    pub stored : List (List XcpFrame)
    pub tail : List ℕ
    pub file : w.mapping ≡ complete stored tail
    pub closed : w.is_closed ≡ true
    pub fit : All (Fits compress size) stored
    pub fields : Fields (summary stored)
    pub order : all_frames stored ≡ seen

  -- Its header and containers fit a file with room.
  summary-Fields :
      (w : LogWriter) (cs : List (List XcpFrame))
      → Room size (all_frames cs)
      → Kept compress size w cs []
      → Fields (summary cs)
  summary-Fields w cs room k =
      let r = room.0 in
      let top = room.1 in
      let small = k.small in
      let l = length-body compress cs in
      (
        omega arith,
        (
          omega arith,
          (omega arith, (omega arith, (omega arith, (omega arith, (omega arith, tt))))),
        ),
      )

  write_header-complete :
      (w : LogWriter) (cs : List (List XcpFrame)) (h : Holds compress size w cs [])
      → Fields (summary cs)
      → 50 + length (body compress cs) ≤ size
      → write_header compress w ≡ done (record w { mapping = complete cs h.rest })
  unfolding write_header
  write_header-complete w cs h fields room =
      let hdr = magic ++ bytes_of (summary cs) in
      let l : length hdr ≡ 38 =
        omega (arith, length-append magic (bytes_of (summary cs)), length-bytes_of (summary cs)) in
      ap (λ o. set_header compress o w)
        (ap
            (λ n. pack_fields (
              file_header n w.total_record_count w.total_size_compressed w.total_size_uncompressed))
            h.containers
          ∙ ap
              (λ n.
                pack_fields
                  (file_header (length cs) n w.total_size_compressed w.total_size_uncompressed))
              h.records
          ∙ ap
              (λ n.
                pack_fields
                  (file_header (length cs) (length (all_frames cs)) n w.total_size_uncompressed))
              h.stored
          ∙ ap
              (λ n. pack_fields (
                file_header (length cs) (length (all_frames cs)) (compressed_length compress cs) n))
              h.uncompressed
          ∙ pack_fields-bytes_of (summary cs) fields)
      ∙ set-done 0 hdr w (omega (arith, l, h.file_size))
      ∙ ap (λ f. done (record w { mapping = f }))
          (ap (overwrite 0 hdr) h.file
            ∙ overwrite-front hdr h.front (body compress cs ++ h.rest) (l ∙ sym h.front_size))

  truncate-complete :
      (w : LogWriter) (cs : List (List XcpFrame)) (h : Holds compress size w cs [])
      → 50 + length (body compress cs) ≤ size
      → truncate compress w.current_offset (complete cs h.rest) ≡ complete cs (take 12 h.rest)
  unfolding truncate
  truncate-complete w cs h room =
      let hdr = magic ++ bytes_of (summary cs) in
      let l : length hdr ≡ 38 =
        omega (arith, length-append magic (bytes_of (summary cs)), length-bytes_of (summary cs)) in
      let whole : length w.mapping ≡ 38 + length (body compress cs) + length h.rest =
        ap length h.file
        ∙ omega (
          arith,
          length-append h.front (body compress cs ++ h.rest),
          length-append (body compress cs) h.rest,
          h.front_size,
        ) in
      let none_missing : w.current_offset - length (complete cs h.rest) ≡ 0 = omega (
        arith,
        h.data_offset,
        h.file_size,
        whole,
        l,
        length-append hdr (body compress cs ++ h.rest),
        length-append (body compress cs) h.rest,
      ) in
      let at : w.current_offset ≡ length hdr + (length (body compress cs) + 12) =
        omega (arith, l, h.data_offset) in
      ap (λ n. take w.current_offset (complete cs h.rest) ++ replicate n 0) none_missing
      ∙ append-nil (take w.current_offset (complete cs h.rest))
      ∙ ap (λ n. take n (complete cs h.rest)) at
      ∙ take-past hdr (body compress cs ++ h.rest) (length (body compress cs) + 12)
      ∙ ap (λ xs. hdr ++ xs) (take-past (body compress cs) h.rest 12)

  abbrev closing : LogWriter → LogWriter
  closing w = record w { mapping = truncate compress w.current_offset w.mapping; is_closed = true }

  -- The last steps, when the writer keeps nothing.
  pub end-Saved :
      (w : LogWriter) (cs : List (List XcpFrame))
      → Room size (all_frames cs)
      → Kept compress size w cs []
      → (w' : LogWriter) × (proceed (finish compress) (write_header compress w) ≡ done w')
        × Saved w' (all_frames cs)
  unfolding finish
  end-Saved w cs room k =
      let h = k.holds in
      let r = room.0 in
      let small = k.small in
      let fits : 50 + length (body compress cs) ≤ size = omega arith in
      let fields = summary-Fields w cs room k in
      let w1 = record w { mapping = complete cs h.rest } in
      (
        closing w1,
        ap (proceed (finish compress)) (write_header-complete w cs h fields fits),
        record {
          stored = cs;
          tail = take 12 h.rest;
          file = truncate-complete w cs h fits;
          closed = refl;
          fit = k.fit;
          fields = fields;
          order = refl;
        },
      )
