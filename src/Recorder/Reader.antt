-- ===== src/Recorder/Reader.antt =====
-- The reader (pyxcp/recorder/reco.py: XcpLogFileReader).
use pyxcp.Prelude.{
  ℕ, zero, suc, ◌+◌, Bool, true, false, ◌&&◌, Option, none, some, List, [], ◌∷◌, ◌++◌, length, take,
  drop, ◌==◌, if◌then◌else◌,
}
use pyxcp.Prelude.Struct.{unpack_fields}
use pyxcp.Recorder.Writer.{Double, magic, file_header_size, container_header_size, daq_record_size}

pub record DaqRecord : Type 0 where
  pub category : ℕ
  pub counter : ℕ
  pub timestamp : Double
  pub payload : List ℕ

-- The records that an iteration yields, and whether it comes to its end without an exception.
pub record Yielded : Type 0 where
  pub records : List DaqRecord
  pub finished : Bool

abbrev pub damaged : Yielded
damaged = record { records = []; finished = false }

abbrev pub yield_first : DaqRecord → Yielded → Yielded
yield_first r y = record { records = r ∷ y.records; finished = y.finished }

-- One iteration after another.
abbrev pub yield_from : Yielded → Yielded → Yielded
yield_from a b =
    if a.finished then record { records = a.records ++ b.records; finished = b.finished } else a

-- `get`: a slice of the file.
abbrev pub get_bytes : List ℕ → ℕ → ℕ → List ℕ
get_bytes file address length = take length (drop address file)

-- The four fields of a record and the three of a container header; without them, unpacking raised.
abbrev pub with_record : (ℕ → ℕ → ℕ → ℕ → Yielded) → Option (List ℕ) → Yielded
with_record next (some (category ∷ counter ∷ timestamp ∷ frame_length ∷ [])) =
    next category counter timestamp frame_length
with_record next fields = damaged

abbrev pub with_header : (ℕ → ℕ → ℕ → Yielded) → Option (List ℕ) → Yielded
with_header next (some (record_count ∷ size_compressed ∷ size_uncompressed ∷ [])) =
    next record_count size_compressed size_uncompressed
with_header next fields = damaged

abbrev pub with_data : (List ℕ → Yielded) → Option (List ℕ) → Yielded
with_data next (some bytes) = next bytes
with_data next none = damaged

-- The loop over the records of a container; a payload that is cut off at the end is taken as it
-- is.
unfoldable pub read_records : List ℕ → ℕ → ℕ → Yielded
read_records bytes frame_offset zero = record { records = []; finished = true }
read_records bytes frame_offset (suc n) =
    with_record
      (λ category counter timestamp frame_length.
        yield_first
          (record {
            category = category;
            counter = counter;
            timestamp = record { bits = timestamp };
            payload = get_bytes bytes (frame_offset + daq_record_size) frame_length;
          })
          (read_records bytes
            (frame_offset
              + daq_record_size
              + length (get_bytes bytes (frame_offset + daq_record_size) frame_length))
            n))
      (unpack_fields (1 ∷ 2 ∷ 8 ∷ 4 ∷ []) (get_bytes bytes frame_offset daq_record_size))

module _ (decompress : List ℕ → Option (List ℕ)) where
  -- The loop over the containers.
  unfoldable pub read_containers : List ℕ → ℕ → ℕ → Yielded
  unfolding read_records
  read_containers file offset zero = record { records = []; finished = true }
  read_containers file offset (suc n) =
      with_header
        (λ record_count size_compressed size_uncompressed.
          with_data
            (λ bytes.
              yield_from (read_records bytes 0 record_count)
                (read_containers file (offset + container_header_size + size_compressed) n))
            (decompress (get_bytes file (offset + container_header_size) size_compressed)))
        (unpack_fields (4 ∷ 4 ∷ 4 ∷ []) (get_bytes file offset container_header_size))

  -- `frames`
  unfoldable pub frames : List ℕ → ℕ → Yielded
  unfolding read_containers
  frames file num_containers = read_containers file file_header_size num_containers

abbrev pub bytes_equal : List ℕ → List ℕ → Bool
bytes_equal [] [] = true
bytes_equal [] (y ∷ ys) = false
bytes_equal (x ∷ xs) [] = false
bytes_equal (x ∷ xs) (y ∷ ys) = (x == y) && bytes_equal xs ys

-- A reader, or the exceptions of `__init__`.
pub data Opened : Type 0 where
  opened : ℕ → Opened
  header_error : Opened
  parse_error : Opened

abbrev pub with_file_header : List ℕ → Option (List ℕ) → Opened
with_file_header m (some (size ∷ version ∷ options ∷ num_containers ∷ counters)) =
    if bytes_equal m magic then opened num_containers else parse_error
with_file_header m fields = header_error

-- `__init__`, for an existing file: the number of containers is what the iteration reads later.
unfoldable pub open_reader : List ℕ → Opened
open_reader file =
    with_file_header (take 16 (get_bytes file 0 file_header_size))
      (unpack_fields (2 ∷ 2 ∷ 2 ∷ 4 ∷ 4 ∷ 4 ∷ 4 ∷ []) (drop 16 (get_bytes file 0 file_header_size)))

abbrev pub frames_of : (List ℕ → Option (List ℕ)) → List ℕ → Opened → Yielded
frames_of decompress file (opened n) = frames decompress file n
frames_of decompress file header_error = damaged
frames_of decompress file parse_error = damaged

-- The frames of a file that is opened.
unfoldable pub read_file : (List ℕ → Option (List ℕ)) → List ℕ → Yielded
unfolding open_reader frames
read_file decompress file = frames_of decompress file (open_reader file)
