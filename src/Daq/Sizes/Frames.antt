-- ===== src/Daq/Sizes/Frames.antt =====
-- The frames of a DAQ list fit the transfer objects (pyxcp/daq_stim/__init__.py:
-- DaqProcessor.setup; pyxcp/daq_stim/optimize).
use mathlib.Core.List.{Perm}
use mathlib.Core.Path.{subst}
use pyxcp.Prelude.{
  le→not_ltb, ℕ, ◌+◌, ◌-◌, ◌≤◌, ◌<◌, ◌≡◌, refl, Bool, true, false, not, ◌&&◌, ◌||◌, some, List, [],
  ◌∷◌, All, Bool-cases, inl, inr, if◌then◌else◌, arith,
}
use pyxcp.Prelude.Sort.{sort, All-sort}
use pyxcp.Optimize.BinPacking.{
  Bin, packed, new_bin, not_shorter, place, place_all, first_fit_decreasing,
}
use pyxcp.Optimize.BinPacking.Capacity.{total, Sized, AreExact}
use pyxcp.Optimize.BinPacking.Items.{contents, Packs, first_fit_decreasing-Packs}
use pyxcp.Optimize.Blocks.{McObject, Section, make_continuous_blocks}
use pyxcp.Optimize.Blocks.Bound.{Fits, make_continuous_blocks-Fits}
use pyxcp.Daq.Sizes.{
  IdField, idf_abs_odt_number, idf_rel_odt_number_abs_daq_list_number_byte,
  idf_rel_odt_number_abs_daq_list_number_word, idf_rel_odt_number_abs_daq_list_number_word_aligned,
  daq_id_field_size, DaqInfo, ts_size, ts_fixed, selectable_timestamps, overhead, capacity,
  max_entry_size, switch_pid_off, max_odt_container_size, max_odt_container_size_first,
  container_first, optimise, daq_timestamp_size,
}

abbrev length_of : Section → ℕ
length_of s = s.length

module _ (i : DaqInfo) where
  -- What goes before the payload of a frame; with PID_OFF, the identification byte is not sent.
  abbrev pub header_bytes : ℕ
  header_bytes = overhead i - (if switch_pid_off i then 1 else 0)

  -- The time stamp of the first frame.
  abbrev pub stamp_bytes : Bool → ℕ
  stamp_bytes enable_timestamps =
      if ts_fixed i || (selectable_timestamps i && enable_timestamps) then ts_size i else 0

  abbrev pub FrameFits : ℕ → Bin Section → Type 0
  FrameFits stamp b = header_bytes + stamp + total (λ s. s.length) b.entries ≤ i.max_dto

  -- The first frame carries the time stamp.
  abbrev pub FramesFit : Bool → List (Bin Section) → Type 0
  FramesFit enable_timestamps [] = Unit
  FramesFit enable_timestamps (b ∷ bs) =
      FrameFits (stamp_bytes enable_timestamps) b × All (FrameFits 0) bs

later_sum :
    (w : Bool) (o d : ℕ)
    → 1 ≤ o
    → o ≤ d
    → (o - (if w then 1 else 0)) + (if w then d - o + 1 else d - o) ≤ d
later_sum true o d p h = omega arith
later_sum false o d p h = omega arith

first_sum :
    (s f e w : Bool) (t o d : ℕ)
    → 1 ≤ o
    → o + (if s then t else 0) ≤ d
    → (o - (if w then 1 else 0))
        + (if (s && f) || ((s && not f) && e) then (if s then t else 0) else 0)
        + (if s && not f
            then (if e
                then (if w then d - o + 1 else d - o) - (if s then t else 0)
                else (if w then d - o + 1 else d - o))
            else (if s && f
                then (if w then d - o + 1 else d - o) - (if s then t else 0)
                else (if w then d - o + 1 else d - o)))
      ≤ d
first_sum true true e true t o d p h = omega arith
first_sum true true e false t o d p h = omega arith
first_sum true false true true t o d p h = omega arith
first_sum true false true false t o d p h = omega arith
first_sum true false false true t o d p h = omega arith
first_sum true false false false t o d p h = omega arith
first_sum false f e true t o d p h = omega arith
first_sum false f e false t o d p h = omega arith

id_field_pos : (f : IdField) → 1 ≤ daq_id_field_size f
unfolding daq_id_field_size
id_field_pos idf_abs_odt_number = omega arith
id_field_pos idf_rel_odt_number_abs_daq_list_number_byte = omega arith
id_field_pos idf_rel_odt_number_abs_daq_list_number_word = omega arith
id_field_pos idf_rel_odt_number_abs_daq_list_number_word_aligned = omega arith

-- Items that fit an empty bin are packed.
place_all-packed :
    (n : ℕ) (items : List Section) (bs : List (Bin Section))
    → All (λ s. s.length ≤ n) items
    → (bins : List (Bin Section)) × (place_all length_of n items bs ≡ packed bins)
unfolding place_all
place_all-packed n [] bs a = (bs, refl)
place_all-packed n (x ∷ xs) bs a =
    let rest = place_all-packed n xs (place length_of n x bs) a.1 in
    (rest.0, rw (le→not_ltb n x.length a.0, if◌then◌else◌) rest.1)

first_fit_decreasing-packed :
    (n c : ℕ) (items : List Section)
    → All (λ s. s.length ≤ n) items
    → (bins : List (Bin Section)) × (first_fit_decreasing length_of items n (some c) ≡ packed bins)
unfolding first_fit_decreasing
first_fit_decreasing-packed n c items a =
    place_all-packed n (sort (not_shorter length_of) items) (new_bin c ∷ [])
      (All-sort (not_shorter length_of) _ items a)

All-weaken : (m n : ℕ) (xs : List Section) → m ≤ n → All (Fits m) xs → All (Fits n) xs
All-weaken m n [] h a = tt
All-weaken m n (x ∷ xs) h a = (omega (arith, a.0), All-weaken m n xs h a.1)

module _ (i : DaqInfo) (room : overhead i + ts_size i ≤ i.max_dto) where
  overhead_pos : 1 ≤ overhead i
  unfolding overhead
  overhead_pos = omega (arith, id_field_pos i.identification_field)

  later-fits : header_bytes i + max_odt_container_size i ≤ i.max_dto
  unfolding max_odt_container_size capacity
  later-fits = later_sum (switch_pid_off i) (overhead i) i.max_dto overhead_pos (omega arith)

  first-fits : (e : Bool) → header_bytes i + stamp_bytes i e + container_first i e ≤ i.max_dto
  unfolding container_first max_odt_container_size max_odt_container_size_first ts_size ts_fixed
      selectable_timestamps capacity
  first-fits e =
      first_sum i.timestamp_supported i.timestamp_fixed e (switch_pid_off i)
        (daq_timestamp_size i.timestamp_size) (overhead i) i.max_dto overhead_pos room

  entry-fits : max_entry_size i ≤ max_odt_container_size i
  unfolding max_entry_size max_odt_container_size
  entry-fits = elim (Bool-cases (switch_pid_off i)) [
    | inl e ↦ rw (e, if◌then◌else◌) (omega arith)
    | inr e ↦ rw (e, if◌then◌else◌) (omega arith)
  ]

  frame-fits :
      (stamp n : ℕ) (b : Bin Section)
      → header_bytes i + stamp + n ≤ i.max_dto
      → Sized length_of n b
      → FrameFits i stamp b
  frame-fits stamp n b h s = omega (arith, h, s.0, s.1)

  each_frame-fits :
      (bs : List (Bin Section))
      → All (Sized length_of (max_odt_container_size i)) bs
      → All (FrameFits i 0) bs
  each_frame-fits [] a = tt
  each_frame-fits (b ∷ bs) a =
      (frame-fits 0 _ b (omega (arith, later-fits)) a.0, each_frame-fits bs a.1)

  exact-fit :
      (e : Bool) (bs : List (Bin Section))
      → AreExact length_of (container_first i e) (max_odt_container_size i) bs
      → FramesFit i e bs
  exact-fit e [] a = tt
  exact-fit e (b ∷ bs) a = (frame-fits _ _ b (first-fits e) a.0, each_frame-fits bs a.1)

  -- When the header and a time stamp fit the transfer object and no measurement is longer than an
  -- entry may be, the list is laid out: each section of continuous memory is an entry of one
  -- transfer object, and each frame fits MAX_DTO, with its header, and the first one with its
  -- time stamp.
  pub optimise-FramesFit :
      (e : Bool) (ms : List McObject)
      → 0 < max_entry_size i
      → All (λ m. m.length ≤ max_entry_size i) ms
      → (bins : List (Bin Section)) × (optimise i e ms ≡ packed bins)
        × Perm
            (contents bins)
            (make_continuous_blocks ms (some (max_entry_size i)) (some (max_entry_size i)))
        × FramesFit i e bins
  unfolding optimise
  optimise-FramesFit e ms o a =
      let n = max_entry_size i in
      let sections = make_continuous_blocks ms (some n) (some n) in
      let small = make_continuous_blocks-Fits ms n n (some n) o o (omega arith) a in
      let (bins, p) =
        first_fit_decreasing-packed (max_odt_container_size i) (container_first i e) sections
          (All-weaken n (max_odt_container_size i) sections entry-fits small) in
      let q =
        first_fit_decreasing-Packs length_of sections (max_odt_container_size i)
          (some (container_first i e)) in
      let r =
        subst (Packs length_of (container_first i e) (max_odt_container_size i) sections) p q in
      (bins, p, r.1, exact-fit e bins r.0)
