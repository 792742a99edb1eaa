-- ===== src/Recorder/Filling.antt =====
-- A writer fills its file with containers while there is room (pyxcp/recorder/reco.py:
-- _compress_framez).
use pyxcp.Prelude.{
  ℕ, ◌+◌, ◌*◌, ◌/◌, ◌≤◌, ◌<◌, ◌^◌, ◌≡◌, refl, ap, ◌∙◌, some, List, [], ◌∷◌, ◌++◌, length,
  length-append, drop, All, arith,
}
use pyxcp.Prelude.Struct.{length-bytes_of, pack_fields, pack_fields-bytes_of}
use pyxcp.Recorder.Writer.{
  XcpFrame, LogWriter, done, container_header, join, next_container, store_container,
  compress_framez,
}
use pyxcp.Recorder.Content.{
  items, total_length, length-join, length-items, total_length-append, all_frames,
  all_frames-append, compressed, header_of, body, body-append, compressed_length-append, Holds,
}
use pyxcp.Recorder.Batches.{
  stored_mapping, stored_mapping-file, length-stored_mapping, store_container-done,
  compress_framez-Holds,
}

-- The bound that LZ4 states for the block format, with the four bytes of the stored size.
abbrev pub Bounded : (List ℕ → List ℕ) → Type 0
Bounded compress = (xs : List ℕ) → length (compress xs) ≤ length xs + length xs / 255 + 20

-- The file has room for the frames, in whatever containers, and its size fits a field of 32 bits.
abbrev pub Room : ℕ → List XcpFrame → Type 0
Room size fs =
    (50 + (total_length fs + total_length fs / 255 + 32 * length fs) ≤ size) × (size < 256 ^ 4)

module _ (compress : List ℕ → List ℕ) (size : ℕ) where
  -- The numbers of a container fit its header.
  abbrev pub Fits : List XcpFrame → Type 0
  Fits fs =
      (length fs < 256 ^ 4)
      × (length (compressed compress fs) < 256 ^ 4)
      × (total_length fs < 256 ^ 4)

  -- What the writer holds, in no more bytes than the frames may take.
  pub record Kept (w : LogWriter) (cs : List (List XcpFrame)) (fs : List XcpFrame) : Type 0 where
    pub holds : Holds compress size w cs fs
    pub fit : All Fits cs
    pub small :
        length (body compress cs)
        ≤ total_length (all_frames cs)
          + total_length (all_frames cs) / 255
          + 32 * length (all_frames cs)

  pub header_of-Fits :
      (fs : List XcpFrame)
      → Fits fs
      → pack_fields
          (container_header (length fs) (length (compressed compress fs)) (total_length fs))
        ≡ some (header_of compress fs)
  header_of-Fits fs f =
      pack_fields-bytes_of
        (container_header (length fs) (length (compressed compress fs)) (total_length fs))
        (f.0, (f.1, (f.2, tt)))

  All-snoc :
      (cs : List (List XcpFrame)) (fs : List XcpFrame)
      → All Fits cs
      → Fits fs
      → All Fits (cs ++ (fs ∷ []))
  All-snoc [] fs h f = (f, tt)
  All-snoc (c ∷ cs) fs h f = (h.0, All-snoc cs fs h.1 f)

  length-body-append :
      (cs : List (List XcpFrame)) (fs : List XcpFrame)
      → length (body compress (cs ++ (fs ∷ [])))
        ≡ length (body compress cs) + 12 + length (compressed compress fs)
  length-body-append cs fs =
      ap length (body-append compress cs fs)
      ∙ omega (
        arith,
        length-append (body compress cs) (header_of compress fs ++ compressed compress fs),
        length-append (header_of compress fs) (compressed compress fs),
        length-bytes_of
            (container_header (length fs) (length (compressed compress fs)) (total_length fs)),
      )

  length-all_frames-append :
      (cs : List (List XcpFrame)) (fs : List XcpFrame)
      → length (all_frames (cs ++ (fs ∷ []))) ≡ length (all_frames cs) + length fs
  length-all_frames-append cs fs =
      ap length (all_frames-append cs fs) ∙ length-append (all_frames cs) fs

  total_length-all_frames-append :
      (cs : List (List XcpFrame)) (fs : List XcpFrame)
      → total_length (all_frames (cs ++ (fs ∷ []))) ≡ total_length (all_frames cs) + total_length fs
  total_length-all_frames-append cs fs =
      ap total_length (all_frames-append cs fs) ∙ total_length-append (all_frames cs) fs

  next_container-Holds :
      (w : LogWriter) (cs : List (List XcpFrame)) (fs : List XcpFrame)
      → Holds compress size w cs fs
      → 50 + length (body compress cs) + length (compressed compress fs) ≤ size
      → Holds compress size
          (next_container compress
            (length (compressed compress fs))
            (record w { mapping = stored_mapping compress size w fs }))
          (cs ++ (fs ∷ []))
          []
  next_container-Holds w cs fs h room =
      let d = compressed compress fs in
      let l = length-body-append cs fs in
      record {
        front = h.front;
        rest = drop (12 + length d) h.rest;
        file = stored_mapping-file compress size w cs fs h room;
        front_size = h.front_size;
        blank = h.blank;
        file_size = length-stored_mapping compress size w cs fs h room;
        header_offset = omega (arith, h.data_offset, l);
        data_offset = omega (arith, h.data_offset, l);
        storage = refl;
        storage_size = refl;
        records = omega (
          arith,
          h.records,
          ap length h.storage,
          length-items fs,
          length-all_frames-append cs fs,
        );
        containers = omega (arith, h.containers, length-append cs (fs ∷ []));
        uncompressed =
            omega (arith, h.uncompressed, h.storage_size, total_length-all_frames-append cs fs);
        stored = omega (arith, h.stored, compressed_length-append compress cs fs);
        unclosed = h.unclosed;
      }

  -- What the writer keeps still fits.
  enough-next :
      (w : LogWriter) (cs : List (List XcpFrame)) (fs : List XcpFrame)
      → Bounded compress
      → Room size (all_frames cs ++ fs)
      → 1 ≤ length fs
      → Kept w cs fs
      → (50 + length (body compress cs) + length (compressed compress fs) ≤ size) × Fits fs
  enough-next w cs fs bound room some_frame k =
      let b = bound (join (items fs)) in
      let j = length-join fs in
      let t = total_length-append (all_frames cs) fs in
      let n = length-append (all_frames cs) fs in
      let s : length (compressed compress fs) ≤ total_length fs + total_length fs / 255 + 20 =
        omega (arith, b, j) in
      let small = k.small in
      let r = room.0 in
      let top = room.1 in
      let fits : 50 + length (body compress cs) + length (compressed compress fs) ≤ size =
        omega arith in
      (fits, (omega arith, omega arith, omega arith))

  next_container-Kept :
      (w : LogWriter) (cs : List (List XcpFrame)) (fs : List XcpFrame)
      → Bounded compress
      → Room size (all_frames cs ++ fs)
      → 1 ≤ length fs
      → Kept w cs fs
      → Kept
          (next_container compress
            (length (compressed compress fs))
            (record w { mapping = stored_mapping compress size w fs }))
          (cs ++ (fs ∷ []))
          []
  next_container-Kept w cs fs bound room some_frame k =
      let next = enough-next w cs fs bound room some_frame k in
      let b = bound (join (items fs)) in
      let small = k.small in
      record {
        holds = next_container-Holds w cs fs k.holds next.0;
        fit = All-snoc cs fs k.fit next.1;
        small = omega (
          arith,
          b,
          small,
          length-join fs,
          length-body-append cs fs,
          length-all_frames-append cs fs,
          total_length-all_frames-append cs fs,
        );
      }

  -- With room, a container is stored and the writer keeps no frame.
  pub compress_framez-Kept :
      (w : LogWriter) (cs : List (List XcpFrame)) (fs : List XcpFrame)
      → Bounded compress
      → Room size (all_frames cs ++ fs)
      → 1 ≤ length fs
      → Kept w cs fs
      → (w' : LogWriter) × (compress_framez compress w ≡ done w') × Kept w' (cs ++ (fs ∷ [])) []
  compress_framez-Kept w cs fs bound room some_frame k =
      let next = enough-next w cs fs bound room some_frame k in
      (
        next_container compress (length (compressed compress fs))
            (record w { mapping = stored_mapping compress size w fs }),
        compress_framez-Holds compress size w cs fs k.holds
            ∙ ap (λ o. store_container compress (compressed compress fs) o w)
                (header_of-Fits fs next.1)
            ∙ store_container-done compress size w cs fs k.holds next.0,
        next_container-Kept w cs fs bound room some_frame k,
      )
