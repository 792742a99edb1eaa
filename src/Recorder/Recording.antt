-- ===== src/Recorder/Recording.antt =====
-- A recording as a whole: what was written is what is read (pyxcp/recorder/reco.py).
use pyxcp.Prelude.{
  ℕ, ◌≡◌, refl, sym, ap, ◌∙◌, Option, some, List, [], ◌∷◌, ◌++◌, length, length-append, take, drop,
  All, arith,
}
use mathlib.Core.Path.{subst}
use pyxcp.Prelude.Struct.{Fields, bytes_of, length-bytes_of, unpack_fields, unpack_fields-bytes_of}
use pyxcp.Recorder.Writer.{XcpFrame, LogWriter, done, magic, new_writer, write_all}
use pyxcp.Recorder.Reader.{opened, with_file_header, frames_of, frames, open_reader, read_file}
use pyxcp.Recorder.Content.{InRange, all_frames, body}
use pyxcp.Recorder.Filling.{Bounded, Room, Fits}
use pyxcp.Recorder.Closing.{summary, complete}
use pyxcp.Recorder.Saving.{new_writer-Grown, write_all-Saved}
use pyxcp.Recorder.Reading.{recorded_all, all_of, get_bytes-between, read_containers-body}

module _ (compress : List ℕ → List ℕ) (decompress : List ℕ → Option (List ℕ)) where
  -- The header of a complete file is accepted.
  open_reader-complete :
      (cs : List (List XcpFrame)) (tail : List ℕ)
      → Fields (summary compress 0 cs)
      → open_reader (complete compress 0 cs tail) ≡ opened (length cs)
  unfolding open_reader
  open_reader-complete cs tail h =
      let fields = summary compress 0 cs in
      let hdr = magic ++ bytes_of fields in
      let l : length hdr ≡ 38 =
        omega (arith, length-append magic (bytes_of fields), length-bytes_of fields) in
      ap
        (λ xs.
          with_file_header (take 16 xs)
            (unpack_fields (2 ∷ 2 ∷ 2 ∷ 4 ∷ 4 ∷ 4 ∷ 4 ∷ []) (drop 16 xs)))
        (get_bytes-between (complete compress 0 cs tail) [] hdr (body compress cs ++ tail) 0 38 refl
          refl (sym l))
      ∙ ap (with_file_header magic) (unpack_fields-bytes_of fields h)

  read_file-complete :
      (size : ℕ) (cs : List (List XcpFrame)) (tail : List ℕ)
      → ((xs : List ℕ) → decompress (compress xs) ≡ some xs)
      → All InRange (all_frames cs)
      → All (Fits compress size) cs
      → Fields (summary compress 0 cs)
      → read_file decompress (complete compress 0 cs tail) ≡ all_of (recorded_all (all_frames cs))
  unfolding read_file frames
  read_file-complete size cs tail law h fit fields =
      let hdr = magic ++ bytes_of (summary compress 0 cs) in
      let l : 38 ≡ length hdr = omega (
        arith,
        length-append magic (bytes_of (summary compress 0 cs)),
        length-bytes_of (summary compress 0 cs),
      ) in
      ap (frames_of decompress (complete compress 0 cs tail)) (open_reader-complete cs tail fields)
      ∙ read_containers-body compress size decompress (complete compress 0 cs tail) hdr tail 38 cs
          law refl l h fit

  -- Frames are written without an exception into a new file that has room for them, whatever the
  -- size of a chunk and in however many calls, and the file that is closed then yields exactly
  -- these frames in their order, and no exception. Required are a compressor that keeps to the
  -- stated bound and whose results are decompressed to what they were, and that counters have 16
  -- bits; time stamps are doubles, by their 64 bits.
  pub read_file-write_all :
      (size chunk_size : ℕ) (batches : List (List XcpFrame))
      → Bounded compress
      → ((xs : List ℕ) → decompress (compress xs) ≡ some xs)
      → All InRange (all_frames batches)
      → Room size (all_frames batches)
      → (w : LogWriter) × (write_all compress batches (new_writer size chunk_size) ≡ done w)
        × (read_file decompress w.mapping ≡ all_of (recorded_all (all_frames batches)))
  read_file-write_all size chunk_size batches bound law h room =
      let r = room.0 in
      let run =
        write_all-Saved compress size batches (new_writer size chunk_size) [] bound h room
          (new_writer-Grown compress size chunk_size (omega arith)) in
      let s = run.2 in
      (
        run.0,
        run.1,
        ap (read_file decompress) s.file
            ∙ read_file-complete size s.stored s.tail law
                (subst (λ fs. All InRange fs) (sym s.order) h) s.fit s.fields
            ∙ ap (λ fs. all_of (recorded_all fs)) s.order,
      )
