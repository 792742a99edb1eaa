-- ===== src/Recorder/Saving.antt =====
-- A writer from its first frame to the complete file (pyxcp/recorder/reco.py: XcpLogFileWriter).
use pyxcp.Prelude.{
  ℕ, zero, suc, ◌+◌, ◌-◌, ◌≤◌, ◌≡◌, refl, sym, ap, ◌∙◌, List, [], ◌∷◌, ◌++◌, append_assoc,
  append-nil, length, All, replicate, length-replicate, if◌then◌else◌, arith,
}
use mathlib.Core.Path.{subst}
use pyxcp.Recorder.Writer.{
  XcpFrame, LogWriter, done, proceed, flush_rest, new_writer, write_header, finish, close,
  write_all,
}
use pyxcp.Recorder.Content.{InRange, length-items, all_frames, all_frames-append}
use pyxcp.Recorder.Filling.{Bounded, Room, Kept, compress_framez-Kept}
use pyxcp.Recorder.Adding.{Grown, shorter-Room, add_xcp_frames-Grown}
use pyxcp.Recorder.Closing.{Saved, end-Saved}

module _ {A : Type 0} (P : A → Type 0) where
  pub All-left : (xs ys : List A) → All P (xs ++ ys) → All P xs
  All-left [] ys h = tt
  All-left (x ∷ xs) ys h = (h.0, All-left xs ys h.1)

  pub All-right : (xs ys : List A) → All P (xs ++ ys) → All P ys
  All-right [] ys h = h
  All-right (x ∷ xs) ys h = All-right xs ys h.1

replicate-add :
    {A : Type 0} (n m : ℕ) (x : A) → replicate (n + m) x ≡ replicate n x ++ replicate m x
replicate-add zero m x = let e : 0 + m ≡ m = omega arith in ap (λ n. replicate n x) e
replicate-add (suc n) m x =
    let e : suc n + m ≡ suc (n + m) = omega arith in
    ap (λ k. replicate k x) e ∙ ap (λ xs. x ∷ xs) (replicate-add n m x)

module _ (compress : List ℕ → List ℕ) (size : ℕ) where
  -- What is still kept becomes the last container.
  flush_rest-Kept :
      (w : LogWriter) (cs : List (List XcpFrame)) (fs : List XcpFrame)
      → Bounded compress
      → Room size (all_frames cs ++ fs)
      → Kept compress size w cs fs
      → (w' : LogWriter) × (flush_rest compress w.intermediate_storage w ≡ done w')
        × Grown compress size w' (all_frames cs ++ fs)
        × (w'.intermediate_storage ≡ [])
  flush_rest-Kept w cs [] bound room k = (
    w,
    ap (λ s. flush_rest compress s w) k.holds.storage,
    record { stored = cs; kept = []; state = k; order = refl },
    k.holds.storage,
  )
  flush_rest-Kept w cs (f ∷ fs) bound room k =
      let next = compress_framez-Kept compress size w cs (f ∷ fs) bound room (omega arith) k in
      (
        next.0,
        ap (λ s. flush_rest compress s w) k.holds.storage ∙ next.1,
        record {
          stored = cs ++ ((f ∷ fs) ∷ []);
          kept = [];
          state = next.2;
          order = append-nil (all_frames (cs ++ ((f ∷ fs) ∷ []))) ∙ all_frames-append cs (f ∷ fs);
        },
        next.2.holds.storage,
      )

  finish-Saved :
      (w : LogWriter) (cs : List (List XcpFrame)) (fs seen : List XcpFrame)
      → Room size seen
      → Kept compress size w cs fs
      → all_frames cs ++ fs ≡ seen
      → w.intermediate_storage ≡ []
      → (w' : LogWriter) × (proceed (finish compress) (write_header compress w) ≡ done w')
        × Saved compress size w' seen
  finish-Saved w cs [] seen room k order e =
      let all : all_frames cs ≡ seen = sym (append-nil (all_frames cs)) ∙ order in
      let last = end-Saved compress size w cs (subst (λ xs. Room size xs) (sym all) room) k in
      (last.0, last.1, subst (λ xs. Saved compress size last.0 xs) all last.2)
  finish-Saved w cs (f ∷ fs) seen room k order e =
      let none_kept : ⊥ = omega (arith, ap length (sym k.holds.storage ∙ e), length-items fs) in
      elim none_kept [ ]

  close-Saved :
      (w : LogWriter) (seen : List XcpFrame)
      → Bounded compress
      → Room size seen
      → Grown compress size w seen
      → (w' : LogWriter) × (close compress w ≡ done w') × Saved compress size w' seen
  unfolding close
  close-Saved w seen bound room g =
      let rest =
        flush_rest-Kept w g.stored g.kept bound (subst (λ xs. Room size xs) (sym g.order) room)
          g.state in
      let last =
        finish-Saved rest.0 rest.2.stored rest.2.kept seen room rest.2.state
          (rest.2.order ∙ g.order) rest.3 in
      (
        last.0,
        ap
              (λ b.
                if b
                then done w
                else proceed (finish compress) (
                    proceed (write_header compress) (flush_rest compress w.intermediate_storage w)))
              g.state.holds.unclosed
            ∙ ap (λ o. proceed (finish compress) (proceed (write_header compress) o)) rest.1
            ∙ last.1,
        last.2,
      )

  -- One list of frames after another, and the end.
  pub write_all-Saved :
      (batches : List (List XcpFrame)) (w : LogWriter) (seen : List XcpFrame)
      → Bounded compress
      → All InRange (all_frames batches)
      → Room size (seen ++ all_frames batches)
      → Grown compress size w seen
      → (w' : LogWriter) × (write_all compress batches w ≡ done w')
        × Saved compress size w' (seen ++ all_frames batches)
  unfolding write_all
  write_all-Saved [] w seen bound h room g =
      let e = append-nil seen in
      let last = close-Saved w seen bound (subst (λ xs. Room size xs) e room) g in
      (last.0, last.1, subst (λ xs. Saved compress size last.0 xs) (sym e) last.2)
  write_all-Saved (fs ∷ batches) w seen bound h room g =
      let order = append_assoc seen fs (all_frames batches) in
      let room' = subst (λ xs. Room size xs) (sym order) room in
      let first =
        add_xcp_frames-Grown compress size fs w seen bound
          (All-left InRange fs (all_frames batches) h)
          (shorter-Room compress size (seen ++ fs) (all_frames batches) room') g in
      let next =
        write_all-Saved batches first.0 (seen ++ fs) bound
          (All-right InRange fs (all_frames batches) h) room' first.2 in
      (
        next.0,
        ap (proceed (write_all compress batches)) first.1 ∙ next.1,
        subst (λ xs. Saved compress size next.0 xs) order next.2,
      )

  -- A new writer of a file that holds a header.
  pub new_writer-Grown :
      (chunk_size : ℕ) → 50 ≤ size → Grown compress size (new_writer size chunk_size) []
  unfolding new_writer
  new_writer-Grown chunk_size h =
      let e : size ≡ 38 + (size - 38) = omega arith in
      record {
        stored = [];
        kept = [];
        state = record {
          holds = record {
            front = replicate 38 0;
            rest = replicate (size - 38) 0;
            file = ap (λ n. replicate n 0) e ∙ replicate-add 38 (size - 38) 0;
            front_size = refl;
            blank = refl;
            file_size = length-replicate size 0;
            header_offset = refl;
            data_offset = refl;
            storage = refl;
            storage_size = refl;
            records = refl;
            containers = refl;
            uncompressed = refl;
            stored = refl;
            unclosed = refl;
          };
          fit = tt;
          small = omega arith;
        };
        order = refl;
      }
