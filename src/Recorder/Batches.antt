-- ===== src/Recorder/Batches.antt =====
-- Frames are kept and stored in containers (pyxcp/recorder/reco.py: add_xcp_frames,
-- _compress_framez).
use pyxcp.Prelude.{
  ℕ, ◌+◌, ◌≤◌, ◌≡◌, sym, ap, ◌∙◌, some, List, [], ◌∷◌, ◌++◌, append_assoc, length, length-append,
  drop, arith,
}
use pyxcp.Prelude.Struct.{length-bytes_of, pack_fields}
use pyxcp.Recorder.Writer.{
  XcpFrame, LogWriter, done, proceed, container_header, join, overwrite, set, next_container,
  store_container, compress_framez,
}
use pyxcp.Recorder.Overwrite.{length-overwrite, overwrite-past, overwrite-two, set-done}
use pyxcp.Recorder.Content.{
  items, total_length, length-items, compressed, header_of, body, body-append, Holds,
}

module _ (compress : List ℕ → List ℕ) (size : ℕ) where
  -- Where the data of a container goes, and its header before it.
  stored_file :
      (front rest : List ℕ) (cs : List (List XcpFrame)) (fs : List XcpFrame)
      → 12 + length (compressed compress fs) ≤ length rest
      → overwrite (length (front ++ body compress cs)) (header_of compress fs) (
          overwrite
            (length (front ++ body compress cs) + 12)
            (compressed compress fs)
            ((front ++ body compress cs) ++ rest))
        ≡ front
          ++ (body compress (cs ++ (fs ∷ [])) ++ drop (12 + length (compressed compress fs)) rest)
  stored_file front rest cs fs h =
      let p = front ++ body compress cs in
      let hdr = header_of compress fs in
      let d = compressed compress fs in
      let r = drop (12 + length d) rest in
      let l : length hdr ≡ 12 =
        length-bytes_of (container_header (length fs) (length d) (total_length fs)) in
      let z : length p ≡ length p + 0 = omega arith in
      ap (overwrite (length p) hdr) (overwrite-past p d rest 12)
      ∙ ap (λ n. overwrite n hdr (p ++ overwrite 12 d rest)) z
      ∙ overwrite-past p hdr (overwrite 12 d rest) 0
      ∙ ap (λ n. p ++ overwrite 0 hdr (overwrite n d rest)) (sym l)
      ∙ ap (λ xs. p ++ xs) (overwrite-two hdr d rest (omega (arith, l, h)))
      ∙ ap (λ n. p ++ (hdr ++ (d ++ drop (n + length d) rest))) l
      ∙ append_assoc front (body compress cs) (hdr ++ (d ++ r))
      ∙ ap (λ xs. front ++ (body compress cs ++ xs)) (sym (append_assoc hdr d r))
      ∙ ap (λ xs. front ++ xs) (sym (append_assoc (body compress cs) (hdr ++ d) r))
      ∙ ap (λ xs. front ++ (xs ++ r)) (sym (body-append compress cs fs))

  -- The call with what the writer holds.
  pub compress_framez-Holds :
      (w : LogWriter) (cs : List (List XcpFrame)) (fs : List XcpFrame)
      → Holds compress size w cs fs
      → compress_framez compress w
        ≡ store_container compress
            (compressed compress fs)
            (pack_fields
              (container_header (length fs) (length (compressed compress fs)) (total_length fs)))
            w
  unfolding compress_framez
  compress_framez-Holds w cs fs h =
      ap
        (λ s.
          store_container compress (compress (join s))
            (pack_fields (
              container_header (length s) (length (compress (join s)))
                w.container_size_uncompressed))
            w)
        h.storage
      ∙ ap
          (λ n.
            store_container compress (compressed compress fs)
              (pack_fields
                (container_header (length (items fs)) (length (compressed compress fs)) n))
              w)
          h.storage_size
      ∙ ap
          (λ n.
            store_container compress (compressed compress fs)
              (pack_fields (container_header n (length (compressed compress fs)) (total_length fs)))
              w)
          (length-items fs)

  abbrev pub stored_mapping : LogWriter → List XcpFrame → List ℕ
  stored_mapping w fs =
      overwrite w.container_header_offset (header_of compress fs)
        (overwrite w.current_offset (compressed compress fs) w.mapping)

  pub store_container-done :
      (w : LogWriter) (cs : List (List XcpFrame)) (fs : List XcpFrame)
      → Holds compress size w cs fs
      → 50 + length (body compress cs) + length (compressed compress fs) ≤ size
      → store_container compress (compressed compress fs) (some (header_of compress fs)) w
        ≡ done (
            next_container compress
              (length (compressed compress fs))
              (record w { mapping = stored_mapping w fs }))
  store_container-done w cs fs h room =
      let d = compressed compress fs in
      let hdr = header_of compress fs in
      let l : length hdr ≡ 12 =
        length-bytes_of (container_header (length fs) (length d) (total_length fs)) in
      let w1 = record w { mapping = overwrite w.current_offset d w.mapping } in
      let e1 = set-done w.current_offset d w (omega (arith, h.data_offset, h.file_size, room)) in
      let len =
        length-overwrite w.current_offset d w.mapping
          (omega (arith, h.data_offset, h.file_size, room)) in
      let e2 =
        set-done w.container_header_offset hdr w1
          (omega (arith, h.header_offset, h.file_size, len, l, room)) in
      ap
        (λ o.
          proceed (λ w'. done (next_container compress (length d) w'))
            (proceed (set w.container_header_offset hdr) o))
        e1
      ∙ ap (proceed (λ w'. done (next_container compress (length d) w'))) e2

  pub length-stored_mapping :
      (w : LogWriter) (cs : List (List XcpFrame)) (fs : List XcpFrame)
      → Holds compress size w cs fs
      → 50 + length (body compress cs) + length (compressed compress fs) ≤ size
      → length (stored_mapping w fs) ≡ size
  length-stored_mapping w cs fs h room =
      let d = compressed compress fs in
      let hdr = header_of compress fs in
      let l : length hdr ≡ 12 =
        length-bytes_of (container_header (length fs) (length d) (total_length fs)) in
      let len =
        length-overwrite w.current_offset d w.mapping
          (omega (arith, h.data_offset, h.file_size, room)) in
      length-overwrite w.container_header_offset hdr (overwrite w.current_offset d w.mapping)
        (omega (arith, h.header_offset, h.file_size, len, l, room))
      ∙ len
      ∙ h.file_size

  pub stored_mapping-file :
      (w : LogWriter) (cs : List (List XcpFrame)) (fs : List XcpFrame)
      (h : Holds compress size w cs fs)
      → 50 + length (body compress cs) + length (compressed compress fs) ≤ size
      → stored_mapping w fs
        ≡ h.front
          ++ (body compress (cs ++ (fs ∷ [])) ++ drop (12 + length (compressed compress fs)) h.rest)
  stored_mapping-file w cs fs h room =
      let p = h.front ++ body compress cs in
      let n : length p ≡ 38 + length (body compress cs) =
        omega (arith, length-append h.front (body compress cs), h.front_size) in
      let whole : length w.mapping ≡ length p + length h.rest =
        ap length h.file
        ∙ omega (
          arith,
          length-append h.front (body compress cs ++ h.rest),
          length-append (body compress cs) h.rest,
          length-append h.front (body compress cs),
        ) in
      ap
        (λ f.
          overwrite w.container_header_offset (header_of compress fs)
            (overwrite w.current_offset (compressed compress fs) f))
        (h.file ∙ sym (append_assoc h.front (body compress cs) h.rest))
      ∙ ap
          (λ a.
            overwrite a (header_of compress fs)
              (overwrite w.current_offset (compressed compress fs) (p ++ h.rest)))
          (h.header_offset ∙ sym n)
      ∙ ap
          (λ a.
            overwrite (length p) (header_of compress fs)
              (overwrite a (compressed compress fs) (p ++ h.rest)))
          (omega (arith, h.data_offset, n))
      ∙ stored_file h.front h.rest cs fs (omega (arith, whole, h.file_size, n, room))
