-- ===== src/Recorder/Adding.antt =====
-- Frames are added while there is room (pyxcp/recorder/reco.py: add_xcp_frames).
use pyxcp.Prelude.{
  ℕ, ◌≤◌, ◌<◌, ◌^◌, ◌≡◌, refl, sym, ap, ◌∙◌, inl, inr, some, List, [], ◌∷◌, ◌++◌, append_assoc,
  append-nil, length, length-append, All, ltb, Bool-cases, if◌then◌else◌, arith,
}
use mathlib.Core.Path.{subst}
use pyxcp.Prelude.Struct.{bytes_of, pack_fields, pack_fields-bytes_of}
use pyxcp.Recorder.Writer.{
  XcpFrame, LogWriter, done, proceed, daq_record, compress_framez, add_item, flush_full, store_item,
  add_frame, add_xcp_frames,
}
use pyxcp.Recorder.Content.{
  item, InRange, length-item, items-append, total_length-append, all_frames, all_frames-append,
}
use pyxcp.Recorder.Filling.{Bounded, Room, Kept, compress_framez-Kept}

module _ (compress : List ℕ → List ℕ) (size : ℕ) where
  -- The writer has the frames that it was given, stored in containers or kept, in their order.
  pub record Grown (w : LogWriter) (seen : List XcpFrame) : Type 0 where
    pub stored : List (List XcpFrame)
    pub kept : List XcpFrame
    pub state : Kept compress size w stored kept
    pub order : all_frames stored ++ kept ≡ seen

  add_item-Kept :
      (w : LogWriter) (cs : List (List XcpFrame)) (fs : List XcpFrame) (f : XcpFrame)
      → Kept compress size w cs fs
      → Kept compress size (add_item compress w (item f)) cs (fs ++ (f ∷ []))
  add_item-Kept w cs fs f k =
      let h = k.holds in
      record {
        holds = record {
          front = h.front;
          rest = h.rest;
          file = h.file;
          front_size = h.front_size;
          blank = h.blank;
          file_size = h.file_size;
          header_offset = h.header_offset;
          data_offset = h.data_offset;
          storage = ap (λ xs. xs ++ (item f ∷ [])) h.storage ∙ sym (items-append fs (f ∷ []));
          storage_size =
              omega (arith, h.storage_size, length-item f, total_length-append fs (f ∷ []));
          records = h.records;
          containers = h.containers;
          uncompressed = h.uncompressed;
          stored = h.stored;
          unclosed = h.unclosed;
        };
        fit = k.fit;
        small = k.small;
      }

  -- The container is closed when it is large enough, or the frame is kept.
  flush_full-Grown :
      (w : LogWriter) (cs : List (List XcpFrame)) (fs : List XcpFrame)
      → Bounded compress
      → Room size (all_frames cs ++ fs)
      → 1 ≤ length fs
      → Kept compress size w cs fs
      → (w' : LogWriter) × (flush_full compress w ≡ done w') × Grown w' (all_frames cs ++ fs)
  unfolding flush_full
  flush_full-Grown w cs fs bound room some_frame k =
      elim (Bool-cases (ltb w.chunk_size w.container_size_uncompressed)) [
        | inl t ↦
            let next = compress_framez-Kept compress size w cs fs bound room some_frame k in
            (
              next.0,
              ap (λ b. if b then compress_framez compress w else done w) t ∙ next.1,
              record {
                stored = cs ++ (fs ∷ []);
                kept = [];
                state = next.2;
                order = append-nil (all_frames (cs ++ (fs ∷ []))) ∙ all_frames-append cs fs;
              },
            )
        | inr f ↦ (
          w,
          ap (λ b. if b then compress_framez compress w else done w) f,
          record { stored = cs; kept = fs; state = k; order = refl },
        )
      ]

  daq_record-InRange :
      (f : XcpFrame)
      → InRange f
      → length f.raw_data < 256 ^ 4
      → pack_fields (daq_record 1 f.counter f.timestamp.bits (length f.raw_data))
        ≡ some (bytes_of (daq_record 1 f.counter f.timestamp.bits (length f.raw_data)))
  daq_record-InRange f h l =
      pack_fields-bytes_of (daq_record 1 f.counter f.timestamp.bits (length f.raw_data))
        (omega arith, (h.0, (h.1, (l, tt))))

  add_frame-Grown :
      (f : XcpFrame) (w : LogWriter) (seen : List XcpFrame)
      → Bounded compress
      → InRange f
      → Room size (seen ++ (f ∷ []))
      → Grown w seen
      → (w' : LogWriter) × (add_frame compress f w ≡ done w') × Grown w' (seen ++ (f ∷ []))
  unfolding add_frame
  add_frame-Grown f w seen bound h room g =
      let top = room.1 in
      let r = room.0 in
      let long : length f.raw_data < 256 ^ 4 = omega (arith, total_length-append seen (f ∷ [])) in
      let order : all_frames g.stored ++ (g.kept ++ (f ∷ [])) ≡ seen ++ (f ∷ []) =
        sym (append_assoc (all_frames g.stored) g.kept (f ∷ []))
        ∙ ap (λ xs. xs ++ (f ∷ [])) g.order in
      let next =
        flush_full-Grown (add_item compress w (item f)) g.stored (g.kept ++ (f ∷ [])) bound
          (subst (λ xs. Room size xs) (sym order) room)
          (omega (arith, length-append g.kept (f ∷ [])))
          (add_item-Kept w g.stored g.kept f g.state) in
      (
        next.0,
        ap (λ o. store_item compress f.raw_data o w) (daq_record-InRange f h long) ∙ next.1,
        subst (λ xs. Grown next.0 xs) order next.2,
      )

  pub shorter-Room : (seen more : List XcpFrame) → Room size (seen ++ more) → Room size seen
  shorter-Room seen more room =
      let r = room.0 in
      (omega (arith, total_length-append seen more, length-append seen more), room.1)

  -- All frames of the list are added.
  pub add_xcp_frames-Grown :
      (new : List XcpFrame) (w : LogWriter) (seen : List XcpFrame)
      → Bounded compress
      → All InRange new
      → Room size (seen ++ new)
      → Grown w seen
      → (w' : LogWriter) × (add_xcp_frames compress new w ≡ done w') × Grown w' (seen ++ new)
  unfolding add_xcp_frames
  add_xcp_frames-Grown [] w seen bound h room g =
      (w, refl, subst (λ xs. Grown w xs) (sym (append-nil seen)) g)
  add_xcp_frames-Grown (f ∷ new) w seen bound h room g =
      let order : (seen ++ (f ∷ [])) ++ new ≡ seen ++ (f ∷ new) = append_assoc seen (f ∷ []) new in
      let room' = subst (λ xs. Room size xs) (sym order) room in
      let first =
        add_frame-Grown f w seen bound h.0 (shorter-Room (seen ++ (f ∷ [])) new room') g in
      let next = add_xcp_frames-Grown new first.0 (seen ++ (f ∷ [])) bound h.1 room' first.2 in
      (
        next.0,
        ap (λ o. proceed (add_xcp_frames compress new) o) first.1 ∙ next.1,
        subst (λ xs. Grown next.0 xs) order next.2,
      )
