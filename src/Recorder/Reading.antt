-- ===== src/Recorder/Reading.antt =====
-- What the reader makes of a complete file (pyxcp/recorder/reco.py: XcpLogFileReader).
use pyxcp.Prelude.{
  ℕ, ◌+◌, ◌<◌, ◌^◌, ◌≡◌, refl, sym, ap, ◌∙◌, true, Option, some, List, [], ◌∷◌, ◌++◌, append_assoc,
  length, length-append, take, All, take-length-append, drop-length-append, arith,
}
use pyxcp.Prelude.Struct.{bytes_of, length-bytes_of, unpack_fields, unpack_fields-bytes_of}
use pyxcp.Recorder.Writer.{XcpFrame, container_header, daq_record, join}
use pyxcp.Recorder.Reader.{
  DaqRecord, Yielded, yield_first, yield_from, get_bytes, with_record, with_header, with_data,
  read_records, read_containers,
}
use pyxcp.Recorder.Content.{items, InRange, total_length, all_frames, compressed, header_of, body}
use pyxcp.Recorder.Filling.{Fits}
use pyxcp.Recorder.Saving.{All-left, All-right}

-- What the reader yields for a frame.
abbrev pub recorded : XcpFrame → DaqRecord
recorded f = record {
  category = 1;
  counter = f.counter;
  timestamp = f.timestamp;
  payload = f.raw_data;
}

abbrev pub recorded_all : List XcpFrame → List DaqRecord
recorded_all [] = []
recorded_all (f ∷ fs) = recorded f ∷ recorded_all fs

abbrev pub all_of : List DaqRecord → Yielded
all_of rs = record { records = rs; finished = true }

recorded_all-append :
    (fs gs : List XcpFrame) → recorded_all fs ++ recorded_all gs ≡ recorded_all (fs ++ gs)
recorded_all-append [] gs = refl
recorded_all-append (f ∷ fs) gs = ap (λ rs. recorded f ∷ rs) (recorded_all-append fs gs)

-- A slice that lies between two other parts.
pub get_bytes-between :
    (file a b c : List ℕ) (n k : ℕ)
    → file ≡ a ++ (b ++ c)
    → n ≡ length a
    → k ≡ length b
    → get_bytes file n k ≡ b
get_bytes-between file a b c n k e at size =
    ap (λ f. get_bytes f n k) e
    ∙ ap (λ i. get_bytes (a ++ (b ++ c)) i k) at
    ∙ ap (λ xs. take k xs) (drop-length-append a (b ++ c))
    ∙ ap (λ i. take i (b ++ c)) size
    ∙ take-length-append b c

read_records-items :
    (bytes pre : List ℕ) (offset : ℕ) (fs : List XcpFrame)
    → bytes ≡ pre ++ join (items fs)
    → offset ≡ length pre
    → All InRange fs
    → total_length fs < 256 ^ 4
    → read_records bytes offset (length fs) ≡ all_of (recorded_all fs)
unfolding read_records
read_records-items bytes pre offset [] e at h small = refl
read_records-items bytes pre offset (f ∷ fs) e at h small =
    let fields = daq_record 1 f.counter f.timestamp.bits (length f.raw_data) in
    let hdr = bytes_of fields in
    let l : length hdr ≡ 15 = length-bytes_of fields in
    let more = join (items fs) in
    let whole : bytes ≡ pre ++ (hdr ++ (f.raw_data ++ more)) =
      e ∙ ap (λ xs. pre ++ xs) (append_assoc hdr f.raw_data more) in
    let whole2 : bytes ≡ (pre ++ hdr) ++ (f.raw_data ++ more) =
      whole ∙ sym (append_assoc pre hdr (f.raw_data ++ more)) in
    let whole3 : bytes ≡ ((pre ++ hdr) ++ f.raw_data) ++ more =
      whole2 ∙ sym (append_assoc (pre ++ hdr) f.raw_data more) in
    let two : offset + 15 ≡ length (pre ++ hdr) = omega (arith, at, l, length-append pre hdr) in
    let long : length f.raw_data < 256 ^ 4 = omega arith in
    let next = λ (category counter timestamp frame_length : ℕ).
      yield_first
        (record {
          category = category;
          counter = counter;
          timestamp = record { bits = timestamp };
          payload = get_bytes bytes (offset + 15) frame_length;
        })
        (read_records bytes (offset + 15 + length (get_bytes bytes (offset + 15) frame_length))
          (length fs)) in
    ap (λ bs. with_record next (unpack_fields (1 ∷ 2 ∷ 8 ∷ 4 ∷ []) bs))
      (get_bytes-between bytes pre hdr (f.raw_data ++ more) offset 15 whole at (sym l))
    ∙ ap (with_record next)
        (unpack_fields-bytes_of fields (omega arith, (h.0.0, (h.0.1, (long, tt)))))
    ∙ ap
        (λ p.
          yield_first
            (record { category = 1; counter = f.counter; timestamp = f.timestamp; payload = p })
            (read_records bytes (offset + 15 + length p) (length fs)))
        (get_bytes-between bytes (pre ++ hdr) f.raw_data more (offset + 15) (length f.raw_data)
          whole2 two refl)
    ∙ ap (yield_first (recorded f)) (
        read_records-items bytes ((pre ++ hdr) ++ f.raw_data) (offset + 15 + length f.raw_data) fs
          whole3 (omega (arith, two, length-append (pre ++ hdr) f.raw_data)) h.1 (omega arith))

module _ (compress : List ℕ → List ℕ) (size : ℕ) (decompress : List ℕ → Option (List ℕ)) where
  -- The containers are read one after another.
  pub read_containers-body :
      (file pre tail : List ℕ) (offset : ℕ) (cs : List (List XcpFrame))
      → ((xs : List ℕ) → decompress (compress xs) ≡ some xs)
      → file ≡ pre ++ (body compress cs ++ tail)
      → offset ≡ length pre
      → All InRange (all_frames cs)
      → All (Fits compress size) cs
      → read_containers decompress file offset (length cs) ≡ all_of (recorded_all (all_frames cs))
  unfolding read_containers
  read_containers-body file pre tail offset [] law e at h fit = refl
  read_containers-body file pre tail offset (c ∷ cs) law e at h fit =
      let d = compressed compress c in
      let fields = container_header (length c) (length d) (total_length c) in
      let hdr = header_of compress c in
      let l : length hdr ≡ 12 = length-bytes_of fields in
      let more = body compress cs ++ tail in
      let whole : file ≡ pre ++ (hdr ++ (d ++ more)) =
        e
        ∙ ap (λ xs. pre ++ xs)
            (append_assoc hdr (d ++ body compress cs) tail
              ∙ ap (λ xs. hdr ++ xs) (append_assoc d (body compress cs) tail)) in
      let whole2 : file ≡ (pre ++ hdr) ++ (d ++ more) =
        whole ∙ sym (append_assoc pre hdr (d ++ more)) in
      let whole3 : file ≡ ((pre ++ hdr) ++ d) ++ more =
        whole2 ∙ sym (append_assoc (pre ++ hdr) d more) in
      let two : offset + 12 ≡ length (pre ++ hdr) = omega (arith, at, l, length-append pre hdr) in
      let later = λ (n : ℕ). read_containers decompress file (offset + 12 + n) (length cs) in
      let next = λ (record_count size_compressed size_uncompressed : ℕ).
        with_data (λ bytes. yield_from (read_records bytes 0 record_count) (later size_compressed))
          (decompress (get_bytes file (offset + 12) size_compressed)) in
      let inner =
        λ (bytes : List ℕ). yield_from (read_records bytes 0 (length c)) (later (length d)) in
      ap (λ bs. with_header next (unpack_fields (4 ∷ 4 ∷ 4 ∷ []) bs))
        (get_bytes-between file pre hdr (d ++ more) offset 12 whole at (sym l))
      ∙ ap (with_header next) (unpack_fields-bytes_of fields (fit.0.0, (fit.0.1, (fit.0.2, tt))))
      ∙ ap (λ bs. with_data inner (decompress bs))
          (get_bytes-between file (pre ++ hdr) d more (offset + 12) (length d) whole2 two refl)
      ∙ ap (with_data inner) (law (join (items c)))
      ∙ ap (λ y. yield_from y (later (length d)))
          (read_records-items (join (items c)) [] 0 c refl refl
            (All-left InRange c (all_frames cs) h) fit.0.2)
      ∙ ap (yield_from (all_of (recorded_all c))) (
          read_containers-body file ((pre ++ hdr) ++ d) tail (offset + 12 + length d) cs law whole3
            (omega (arith, two, length-append (pre ++ hdr) d))
            (All-right InRange c (all_frames cs) h) fit.1)
      ∙ ap all_of (recorded_all-append c (all_frames cs))
