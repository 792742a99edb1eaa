-- ===== src/Recorder/Content.antt =====
-- What a file holds: the containers one after another, each with its header (pyxcp/recorder/reco.py:
-- the layout that XcpLogFileWriter writes).
use pyxcp.Prelude.{
  ℕ, suc, ◌+◌, ◌*◌, ◌<◌, ◌^◌, ◌≡◌, refl, sym, ap, ◌∙◌, false, List, [], ◌∷◌, ◌++◌, replicate,
  append_assoc, append-nil, length, length-append, arith,
}
use pyxcp.Prelude.Struct.{bytes_of, length-bytes_of}
use pyxcp.Recorder.Writer.{XcpFrame, LogWriter, container_header, daq_record, join}

-- The bytes of a frame.
abbrev pub item : XcpFrame → List ℕ
item f = bytes_of (daq_record 1 f.counter f.timestamp.bits (length f.raw_data)) ++ f.raw_data

abbrev pub items : List XcpFrame → List (List ℕ)
items [] = []
items (f ∷ fs) = item f ∷ items fs

-- A frame whose numbers fit their fields.
abbrev pub InRange : XcpFrame → Type 0
InRange f = (f.counter < 256 ^ 2) × (f.timestamp.bits < 256 ^ 8)

abbrev pub total_length : List XcpFrame → ℕ
total_length [] = 0
total_length (f ∷ fs) = 15 + length f.raw_data + total_length fs

pub length-item : (f : XcpFrame) → length (item f) ≡ 15 + length f.raw_data
length-item f = omega (
  arith,
  length-append (bytes_of (daq_record 1 f.counter f.timestamp.bits (length f.raw_data))) f.raw_data,
  length-bytes_of (daq_record 1 f.counter f.timestamp.bits (length f.raw_data)),
)

pub length-join : (fs : List XcpFrame) → length (join (items fs)) ≡ total_length fs
length-join [] = refl
length-join (f ∷ fs) =
    omega (arith, length-append (item f) (join (items fs)), length-item f, length-join fs)

pub length-items : (fs : List XcpFrame) → length (items fs) ≡ length fs
length-items [] = refl
length-items (f ∷ fs) = ap suc (length-items fs)

pub items-append : (fs gs : List XcpFrame) → items (fs ++ gs) ≡ items fs ++ items gs
items-append [] gs = refl
items-append (f ∷ fs) gs = ap (λ xs. item f ∷ xs) (items-append fs gs)

pub total_length-append :
    (fs gs : List XcpFrame) → total_length (fs ++ gs) ≡ total_length fs + total_length gs
total_length-append [] gs = omega arith
total_length-append (f ∷ fs) gs = omega (arith, total_length-append fs gs)

-- All frames of the containers.
abbrev pub all_frames : List (List XcpFrame) → List XcpFrame
all_frames [] = []
all_frames (fs ∷ cs) = fs ++ all_frames cs

pub all_frames-append :
    (cs : List (List XcpFrame)) (fs : List XcpFrame)
    → all_frames (cs ++ (fs ∷ [])) ≡ all_frames cs ++ fs
all_frames-append [] fs = append-nil fs
all_frames-append (c ∷ cs) fs =
    ap (λ xs. c ++ xs) (all_frames-append cs fs) ∙ sym (append_assoc c (all_frames cs) fs)

module _ (compress : List ℕ → List ℕ) where
  abbrev pub compressed : List XcpFrame → List ℕ
  compressed fs = compress (join (items fs))

  abbrev pub header_of : List XcpFrame → List ℕ
  header_of fs = bytes_of (container_header (length fs) (length (compressed fs)) (total_length fs))

  -- The containers as they stand in the file.
  abbrev pub body : List (List XcpFrame) → List ℕ
  body [] = []
  body (fs ∷ cs) = header_of fs ++ (compressed fs ++ body cs)

  abbrev pub compressed_length : List (List XcpFrame) → ℕ
  compressed_length [] = 0
  compressed_length (fs ∷ cs) = length (compressed fs) + compressed_length cs

  pub body-append :
      (cs : List (List XcpFrame)) (fs : List XcpFrame)
      → body (cs ++ (fs ∷ [])) ≡ body cs ++ (header_of fs ++ compressed fs)
  body-append [] fs = ap (λ xs. header_of fs ++ xs) (append-nil (compressed fs))
  body-append (c ∷ cs) fs =
      ap (λ xs. header_of c ++ (compressed c ++ xs)) (body-append cs fs)
      ∙ ap (λ xs. header_of c ++ xs)
          (sym (append_assoc (compressed c) (body cs) (header_of fs ++ compressed fs)))
      ∙ sym (append_assoc (header_of c) (compressed c ++ body cs) (header_of fs ++ compressed fs))

  pub compressed_length-append :
      (cs : List (List XcpFrame)) (fs : List XcpFrame)
      → compressed_length (cs ++ (fs ∷ [])) ≡ compressed_length cs + length (compressed fs)
  compressed_length-append [] fs = omega arith
  compressed_length-append (c ∷ cs) fs = omega (arith, compressed_length-append cs fs)

  pub length-body :
      (cs : List (List XcpFrame)) → length (body cs) ≡ compressed_length cs + 12 * length cs
  length-body [] = refl
  length-body (fs ∷ cs) = omega (
    arith,
    length-append (header_of fs) (compressed fs ++ body cs),
    length-append (compressed fs) (body cs),
    length-bytes_of (container_header (length fs) (length (compressed fs)) (total_length fs)),
    length-body cs,
  )

  -- The state of a writer that stored the containers `cs` and keeps the frames `fs`.
  pub record Holds (size : ℕ) (w : LogWriter) (cs : List (List XcpFrame)) (fs : List XcpFrame)
      : Type 0 where
    pub front : List ℕ
    pub rest : List ℕ
    pub file : w.mapping ≡ front ++ (body cs ++ rest)
    pub front_size : length front ≡ 38
    pub blank : front ≡ replicate 38 0
    pub file_size : length w.mapping ≡ size
    pub header_offset : w.container_header_offset ≡ 38 + length (body cs)
    pub data_offset : w.current_offset ≡ 50 + length (body cs)
    pub storage : w.intermediate_storage ≡ items fs
    pub storage_size : w.container_size_uncompressed ≡ total_length fs
    pub records : w.total_record_count ≡ length (all_frames cs)
    pub containers : w.num_containers ≡ length cs
    pub uncompressed : w.total_size_uncompressed ≡ total_length (all_frames cs)
    pub stored : w.total_size_compressed ≡ compressed_length cs
    pub unclosed : w.is_closed ≡ false
