-- ===== src/Recorder/Writer.antt =====
-- The writer (pyxcp/recorder/reco.py: XcpLogFileWriter).
use pyxcp.Prelude.{
  ℕ, ◌+◌, ◌-◌, ◌*◌, Bool, true, false, Option, none, some, List, [], ◌∷◌, ◌++◌, length, replicate,
  take, drop, leb, ltb, if◌then◌else◌,
}
use pyxcp.Prelude.Struct.{Field, pack_fields}

-- A number in double precision, by the 64 bits that `d` of struct packs. An integer that a caller
-- passes is rounded to a double before.
pub record Double : Type 0 where
  pub bits : ℕ

-- One of the frames that are recorded.
pub record XcpFrame : Type 0 where
  pub counter : ℕ
  pub timestamp : Double
  pub raw_data : List ℕ

-- The attributes that change, and the mapped file.
pub record LogWriter : Type 0 where
  pub mapping : List ℕ
  pub container_header_offset : ℕ
  pub current_offset : ℕ
  pub total_size_uncompressed : ℕ
  pub total_size_compressed : ℕ
  pub container_size_uncompressed : ℕ
  pub total_record_count : ℕ
  pub num_containers : ℕ
  pub intermediate_storage : List (List ℕ)
  pub chunk_size : ℕ
  pub is_closed : Bool

-- What an operation leaves, or the state in which it raises.
pub data Written : Type 0 where
  done : LogWriter → Written
  struct_error : LogWriter → Written
  capacity_exceeded : LogWriter → Written

abbrev pub proceed : (LogWriter → Written) → Written → Written
proceed next (done w) = next w
proceed next (struct_error w) = struct_error w
proceed next (capacity_exceeded w) = capacity_exceeded w

-- `MAGIC`: the bytes of "ASAMINT::XCP_RAW".
abbrev pub magic : List ℕ
magic = 65 ∷ 83 ∷ 65 ∷ 77 ∷ 73 ∷ 78 ∷ 84 ∷ 58 ∷ 58 ∷ 88 ∷ 67 ∷ 80 ∷ 95 ∷ 82 ∷ 65 ∷ 87 ∷ []

-- `FILE_HEADER_STRUCT.size`, `CONTAINER_HEADER_STRUCT.size` and `DAQ_RECORD_STRUCT.size`
abbrev pub file_header_size : ℕ
file_header_size = 38

abbrev pub container_header_size : ℕ
container_header_size = 12

abbrev pub daq_record_size : ℕ
daq_record_size = 15

abbrev pub field : ℕ → ℕ → Field
field size value = record { size = size; value = value }

-- The fields after the magic.
abbrev pub file_header : ℕ → ℕ → ℕ → ℕ → List Field
file_header num_containers record_count size_compressed size_uncompressed =
    field 2 file_header_size
    ∷ field 2 0x0100
    ∷ field 2 0x0000
    ∷ field 4 num_containers
    ∷ field 4 record_count
    ∷ field 4 size_compressed
    ∷ field 4 size_uncompressed
    ∷ []

abbrev pub container_header : ℕ → ℕ → ℕ → List Field
container_header record_count size_compressed size_uncompressed =
    field 4 record_count ∷ field 4 size_compressed ∷ field 4 size_uncompressed ∷ []

abbrev pub daq_record : ℕ → ℕ → ℕ → ℕ → List Field
daq_record category counter timestamp length =
    field 1 category ∷ field 2 counter ∷ field 8 timestamp ∷ field 4 length ∷ []

abbrev pub join : List (List ℕ) → List ℕ
join [] = []
join (x ∷ xs) = x ++ join xs

-- The mapped file after an assignment to a slice.
unfoldable pub overwrite : ℕ → List ℕ → List ℕ → List ℕ
overwrite address bytes file = take address file ++ (bytes ++ drop (address + length bytes) file)

-- `set`: the assignment raises when the slice is cut off at the end of the file, unless nothing
-- is written.
unfoldable pub set : ℕ → List ℕ → LogWriter → Written
set address [] w = done w
set address (b ∷ bs) w =
    if leb (address + length (b ∷ bs)) (length w.mapping)
    then done (record w { mapping = overwrite address (b ∷ bs) w.mapping })
    else capacity_exceeded w

-- `__init__`, for a file of so many bytes.
unfoldable pub new_writer : ℕ → ℕ → LogWriter
new_writer file_size chunk_size = record {
  mapping = replicate file_size 0;
  container_header_offset = file_header_size;
  current_offset = file_header_size + container_header_size;
  total_size_uncompressed = 0;
  total_size_compressed = 0;
  container_size_uncompressed = 0;
  total_record_count = 0;
  num_containers = 0;
  intermediate_storage = [];
  chunk_size = chunk_size;
  is_closed = false;
}

unfoldable pub open_writer : ℕ → ℕ → LogWriter
open_writer prealloc chunk_size = new_writer (1024 * 1024 * prealloc) (chunk_size * 1024)

module _ (compress : List ℕ → List ℕ) where
  -- The counters after a container of so many bytes was stored.
  abbrev pub next_container : ℕ → LogWriter → LogWriter
  next_container size w = record w {
    container_header_offset = w.current_offset + size;
    current_offset = w.current_offset + size + container_header_size;
    intermediate_storage = [];
    total_record_count = w.total_record_count + length w.intermediate_storage;
    num_containers = w.num_containers + 1;
    total_size_uncompressed = w.total_size_uncompressed + w.container_size_uncompressed;
    total_size_compressed = w.total_size_compressed + size;
    container_size_uncompressed = 0;
  }

  abbrev pub store_container : List ℕ → Option (List ℕ) → LogWriter → Written
  store_container compressed_data none w = struct_error w
  store_container compressed_data (some hdr) w =
      proceed (λ w'. done (next_container (length compressed_data) w'))
        (proceed (set w.container_header_offset hdr) (set w.current_offset compressed_data w))

  -- `_compress_framez`
  unfoldable pub compress_framez : LogWriter → Written
  unfolding set
  compress_framez w =
      let compressed_data = compress (join w.intermediate_storage) in
      store_container compressed_data
        (pack_fields (
          container_header (length w.intermediate_storage) (length compressed_data)
            w.container_size_uncompressed))
        w

  abbrev pub add_item : LogWriter → List ℕ → LogWriter
  add_item w item = record w {
    intermediate_storage = w.intermediate_storage ++ (item ∷ []);
    container_size_uncompressed = w.container_size_uncompressed + length item;
  }

  unfoldable pub flush_full : LogWriter → Written
  unfolding compress_framez
  flush_full w =
      if ltb w.chunk_size w.container_size_uncompressed then compress_framez w else done w

  abbrev pub store_item : List ℕ → Option (List ℕ) → LogWriter → Written
  store_item raw_data none w = struct_error w
  store_item raw_data (some hdr) w = flush_full (add_item w (hdr ++ raw_data))

  -- The body of the loop of `add_xcp_frames`.
  unfoldable pub add_frame : XcpFrame → LogWriter → Written
  unfolding flush_full
  add_frame f w =
      store_item f.raw_data
        (pack_fields (daq_record 1 f.counter f.timestamp.bits (length f.raw_data))) w

  unfoldable pub add_xcp_frames : List XcpFrame → LogWriter → Written
  unfolding add_frame
  add_xcp_frames [] w = done w
  add_xcp_frames (f ∷ fs) w = proceed (add_xcp_frames fs) (add_frame f w)

  abbrev pub flush_rest : List (List ℕ) → LogWriter → Written
  flush_rest [] w = done w
  flush_rest (x ∷ xs) w = compress_framez w

  abbrev pub set_header : Option (List ℕ) → LogWriter → Written
  set_header none w = struct_error w
  set_header (some hdr) w = set 0 (magic ++ hdr) w

  -- `_write_header`, with the counters of the writer.
  unfoldable pub write_header : LogWriter → Written
  unfolding set
  write_header w =
      set_header
        (pack_fields (
          file_header w.num_containers w.total_record_count w.total_size_compressed
            w.total_size_uncompressed))
        w

  -- `truncate` cuts the file, or adds zeros.
  unfoldable pub truncate : ℕ → List ℕ → List ℕ
  truncate n file = take n file ++ replicate (n - length file) 0

  unfoldable pub finish : LogWriter → Written
  unfolding truncate
  finish w = done (record w { mapping = truncate w.current_offset w.mapping; is_closed = true })

  -- `close`
  unfoldable pub close : LogWriter → Written
  unfolding compress_framez write_header finish
  close w =
      if w.is_closed
      then done w
      else proceed finish (proceed write_header (flush_rest w.intermediate_storage w))

  -- `add_xcp_frames` for one list after another, and `close`.
  unfoldable pub write_all : List (List XcpFrame) → LogWriter → Written
  unfolding add_xcp_frames close
  write_all [] w = close w
  write_all (fs ∷ rest) w = proceed (write_all rest) (add_xcp_frames fs w)
