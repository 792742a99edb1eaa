-- ===== src/Recorder/Overflow.antt =====
-- A recording that outgrows its file (pyxcp/recorder/reco.py: set, close).
use pyxcp.Prelude.{
  ℕ, zero, suc, ◌+◌, ◌-◌, ◌*◌, ◌≤◌, ◌<◌, ◌^◌, ◌≡◌, refl, sym, ap, ◌∙◌, Bool, true, false, Option,
  none, some, List, [], ◌∷◌, ◌++◌, append_assoc, append-nil, length, length-append, take, drop,
  replicate, All, leb, lt→not_leb, if◌then◌else◌, arith,
}
use pyxcp.Prelude.Struct.{
  Fields, values, bytes_of, length-bytes_of, unpack_fields, unpack_fields-bytes_of,
}
use pyxcp.Recorder.Writer.{
  XcpFrame, LogWriter, done, capacity_exceeded, proceed, set, next_container, store_container,
  compress_framez, flush_rest, finish, write_header, close,
}
use pyxcp.Recorder.Reader.{parse_error, with_file_header, open_reader}
use pyxcp.Recorder.Content.{compressed, header_of, body, Holds}
use pyxcp.Recorder.Batches.{compress_framez-Holds}
use pyxcp.Recorder.Filling.{Fits, header_of-Fits}
use pyxcp.Recorder.Reading.{get_bytes-between}

-- An assignment past the end raises.
set-full :
    (a : ℕ) (d : List ℕ) (w : LogWriter)
    → 1 ≤ length d
    → length w.mapping < a + length d
    → set a d w ≡ capacity_exceeded w
unfolding set
set-full a [] w h full = let no : ⊥ = omega arith in elim no [ ]
set-full a (b ∷ bs) w h full =
    rw (lt→not_leb (length w.mapping) (a + length (b ∷ bs)) full, if◌then◌else◌)

module _ (compress : List ℕ → List ℕ) where
  compress_framez-full :
      (size : ℕ) (w : LogWriter) (cs : List (List XcpFrame)) (fs : List XcpFrame)
      → Holds compress size w cs fs
      → Fits compress size fs
      → size < 50 + length (body compress cs) + length (compressed compress fs)
      → 50 + length (body compress cs) ≤ size
      → compress_framez compress w ≡ capacity_exceeded w
  compress_framez-full size w cs fs h fit full inside =
      compress_framez-Holds compress size w cs fs h
      ∙ ap (λ o. store_container compress (compressed compress fs) o w)
          (header_of-Fits compress size fs fit)
      ∙ ap
          (λ o.
            proceed (λ w'. done (next_container compress (length (compressed compress fs)) w'))
              (proceed (set w.container_header_offset (header_of compress fs)) o))
          (set-full w.current_offset (compressed compress fs) w (omega arith)
            (omega (arith, h.data_offset, h.file_size)))

  -- A container that does not fit any more is not stored, and closing the file raises: the file
  -- stays without a header, and the reader refuses it with all containers that it holds.
  pub close-full :
      (size : ℕ) (w : LogWriter) (cs : List (List XcpFrame)) (f : XcpFrame) (fs : List XcpFrame)
      → Holds compress size w cs (f ∷ fs)
      → Fits compress size (f ∷ fs)
      → size < 50 + length (body compress cs) + length (compressed compress (f ∷ fs))
      → 50 + length (body compress cs) ≤ size
      → (close compress w ≡ capacity_exceeded w) × (open_reader w.mapping ≡ parse_error)
  unfolding close open_reader unpack_fields pyxcp.Prelude.Struct.cut
  close-full size w cs f fs h fit full inside = (
    ap
          (λ b.
            if b
            then done w
            else proceed (finish compress)
                (proceed (write_header compress) (flush_rest compress w.intermediate_storage w)))
          h.unclosed
        ∙ ap
            (λ s.
              proceed (finish compress) (proceed (write_header compress) (flush_rest compress s w)))
            h.storage
        ∙ ap (λ o. proceed (finish compress) (proceed (write_header compress) o))
            (compress_framez-full size w cs (f ∷ fs) h fit full inside),
    ap
        (λ xs.
          with_file_header (take 16 xs)
            (unpack_fields (2 ∷ 2 ∷ 2 ∷ 4 ∷ 4 ∷ 4 ∷ 4 ∷ []) (drop 16 xs)))
        (get_bytes-between w.mapping [] h.front (body compress cs ++ h.rest) 0 38 h.file refl
            (sym h.front_size)
          ∙ h.blank),
  )
