-- ===== src/Recorder/Tests.antt =====
-- Recordings of a few frames.
use pyxcp.Prelude.{
  ℕ, ◌+◌, ◌≤◌, ◌<◌, ◌≡◌, refl, Option, some, none, List, [], ◌∷◌, ◌++◌, length, replicate, arith,
}
use pyxcp.Recorder.Writer.{
  XcpFrame, LogWriter, done, capacity_exceeded, new_writer, add_item, close, write_all,
}
use pyxcp.Recorder.Reader.{open_reader, parse_error, read_file}
use pyxcp.Recorder.Content.{item, all_frames, Holds}
use pyxcp.Recorder.Reading.{recorded_all, all_of}
use pyxcp.Recorder.Recording.{read_file-write_all}
use pyxcp.Recorder.Overflow.{close-full}

-- A compressor that keeps the bytes, with a mark.
abbrev mark : List ℕ → List ℕ
mark bytes = 7 ∷ bytes

abbrev unmark : List ℕ → Option (List ℕ)
unmark [] = none
unmark (b ∷ bs) = some bs

abbrev first : XcpFrame
first = record { counter = 1; timestamp = record { bits = 100 }; raw_data = 1 ∷ 2 ∷ 3 ∷ [] }

abbrev second : XcpFrame
second = record { counter = 65535; timestamp = record { bits = 200 }; raw_data = 4 ∷ [] }

abbrev third : XcpFrame
third = record { counter = 0; timestamp = record { bits = 300 }; raw_data = [] }

abbrev batches : List (List XcpFrame)
batches = (first ∷ second ∷ []) ∷ [] ∷ (third ∷ []) ∷ []

read_file-write_all_example :
    (w : LogWriter) × (write_all mark batches (new_writer 300 20) ≡ done w)
    × (read_file unmark w.mapping ≡ all_of (recorded_all (all_frames batches)))
read_file-write_all_example =
    read_file-write_all mark unmark 300 20 batches (λ xs. omega arith) (λ xs. refl)
      ((omega arith, omega arith), ((omega arith, omega arith), ((omega arith, omega arith), tt)))
      (omega arith, omega arith)

abbrev filling : LogWriter
filling = add_item mark (new_writer 60 1000) (item first)

filling-Holds : Holds mark 60 filling [] (first ∷ [])
unfolding new_writer pyxcp.Prelude.Bytes.digits_of
filling-Holds = record {
  front = replicate 38 0;
  rest = replicate 22 0;
  file = refl;
  front_size = refl;
  blank = refl;
  file_size = refl;
  header_offset = refl;
  data_offset = refl;
  storage = refl;
  storage_size = refl;
  records = refl;
  containers = refl;
  uncompressed = refl;
  stored = refl;
  unclosed = refl;
}

close-full_example :
    (close mark filling ≡ capacity_exceeded filling) × (open_reader filling.mapping ≡ parse_error)
unfolding pyxcp.Prelude.Bytes.digits_of
close-full_example =
    close-full mark 60 filling [] first [] filling-Holds (omega arith, omega arith, omega arith)
      (omega arith) (omega arith)
