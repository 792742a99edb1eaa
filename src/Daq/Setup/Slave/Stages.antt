-- ===== src/Daq/Setup/Slave/Stages.antt =====
-- The stages of a configuration at the slave (pyxcp/daq_stim/__init__.py: DaqProcessor.setup).

use pyxcp.Prelude.{
  ℕ, suc, ◌+◌, ◌-◌, ◌≤◌, ◌<◌, ◌≡◌, sym, ap, ◌∙◌, Option, none, some, List, [], ◌∷◌, ◌++◌,
  append_assoc, append-nil, length, le→leb, lt→ltb, if◌then◌else◌, arith,
}
use pyxcp.Prelude.Runs.{run, run-through, run-first}
use pyxcp.Optimize.BinPacking.{Bin}
use pyxcp.Optimize.Blocks.{Section}
use pyxcp.Daq.Setup.{
  Command, Layout, alloc_odt, alloc_odts, alloc_odt_entry, odt_entries, alloc_odt_entries,
  write_entries, write_odt, set_daq_ptr, write_odts, write_daqs,
}
use pyxcp.Daq.Setup.Slave.{
  OdtCount, EntryCount, Pointer, Written, State, odt_count, entry_count, step,
}
use pyxcp.Daq.Setup.Slave.Tables.{
  odt_table, entry_table, entry_tables, written_entries, written_odts, written_lists, CountsOdts,
  CountsEntries, CountsAll,
}

abbrev pub at : State → List OdtCount → List EntryCount → Option Pointer → List Written → State
at s os es p w = record s { odt_counts = os; entry_counts = es; pointer = p; written = w }

module _ (s : State) where
  step-alloc_odt :
      (os : List OdtCount) (i n : ℕ)
      → s.min_daq ≤ i
      → i < s.min_daq + s.count
      → step (alloc_odt i n) (at s os [] none [])
        ≡ some (at s (os ++ (record { daq = i; odts = n } ∷ [])) [] none [])
  unfolding step
  step-alloc_odt os i n h k =
      rw (le→leb s.min_daq i h, lt→ltb i (s.min_daq + s.count) k, if◌then◌else◌)

  pub alloc_odts-run :
      (i : ℕ) (ls : List Layout) (os : List OdtCount)
      → s.min_daq ≤ i
      → i + length ls ≤ s.min_daq + s.count
      → run step (alloc_odts i ls) (at s os [] none [])
        ≡ some (at s (os ++ odt_table i ls) [] none [])
  unfolding alloc_odts run
  alloc_odts-run i [] os h k = ap (λ xs. some (at s xs [] none [])) (sym (append-nil os))
  alloc_odts-run i (none ∷ ls) os h k = alloc_odts-run (suc i) ls os (omega arith) (omega arith)
  alloc_odts-run i (some bins ∷ ls) os h k =
      let o : OdtCount = record { daq = i; odts = length bins } in
      run-first step (alloc_odt i (length bins)) (alloc_odts (suc i) ls) _ _
        (step-alloc_odt os i (length bins) h (omega arith))
      ∙ alloc_odts-run (suc i) ls (os ++ (o ∷ [])) (omega arith) (omega arith)
      ∙ ap (λ xs. some (at s xs [] none [])) (append_assoc os (o ∷ []) (odt_table (suc i) ls))

  step-alloc_odt_entry :
      (os : List OdtCount) (es : List EntryCount) (i j n : ℕ)
      → j < odt_count i os
      → step (alloc_odt_entry i j n) (at s os es none [])
        ≡ some (at s os (es ++ (record { daq = i; odt = j; entries = n } ∷ [])) none [])
  unfolding step
  step-alloc_odt_entry os es i j n h = rw (lt→ltb j (odt_count i os) h, if◌then◌else◌)

  odt_entries-run :
      (os : List OdtCount) (es : List EntryCount) (i j : ℕ) (bs : List (Bin Section))
      → j + length bs ≤ odt_count i os
      → run step (odt_entries i j bs) (at s os es none [])
        ≡ some (at s os (es ++ entry_table i j bs) none [])
  unfolding odt_entries run
  odt_entries-run os es i j [] h = ap (λ xs. some (at s os xs none [])) (sym (append-nil es))
  odt_entries-run os es i j (b ∷ bs) h =
      let e : EntryCount = record { daq = i; odt = j; entries = length b.entries } in
      run-first step (alloc_odt_entry i j (length b.entries)) (odt_entries i (suc j) bs) _ _
        (step-alloc_odt_entry os es i j (length b.entries) (omega arith))
      ∙ odt_entries-run os (es ++ (e ∷ [])) i (suc j) bs (omega arith)
      ∙ ap (λ xs. some (at s os xs none [])) (append_assoc es (e ∷ []) (entry_table i (suc j) bs))

  pub alloc_odt_entries-run :
      (os : List OdtCount) (es : List EntryCount) (i : ℕ) (ls : List Layout)
      → CountsOdts os i ls
      → run step (alloc_odt_entries i ls) (at s os es none [])
        ≡ some (at s os (es ++ entry_tables i ls) none [])
  unfolding alloc_odt_entries run
  alloc_odt_entries-run os es i [] c = ap (λ xs. some (at s os xs none [])) (sym (append-nil es))
  alloc_odt_entries-run os es i (none ∷ ls) c = alloc_odt_entries-run os es (suc i) ls c
  alloc_odt_entries-run os es i (some bins ∷ ls) c =
      run-through step (odt_entries i 0 bins) (alloc_odt_entries (suc i) ls) _ _
        (odt_entries-run os es i 0 bins (omega (arith, c.0)))
      ∙ alloc_odt_entries-run os (es ++ entry_table i 0 bins) (suc i) ls c.1
      ∙ ap (λ xs. some (at s os xs none []))
          (append_assoc es (entry_table i 0 bins) (entry_tables (suc i) ls))

  -- Writing, from any pointer.
  abbrev pub After :
      List OdtCount
      → List EntryCount
      → List Command
      → Option Pointer
      → List Written
      → List Written
      → Type 0
  After os es cs p w v =
      (q : Option Pointer) × (run step cs (at s os es p w) ≡ some (at s os es q (w ++ v)))

  write_entries-run :
      (os : List OdtCount) (es : List EntryCount) (i j k : ℕ) (xs : List Section) (w : List Written)
      → After os es
          (write_entries xs)
          (some (record { daq = i; odt = j; entry = k; left = length xs }))
          w
          (written_entries i j k xs)
  unfolding write_entries run step
  write_entries-run os es i j k [] w = (
    _,
    ap (λ v. some (at s os es (some (record { daq = i; odt = j; entry = k; left = 0 })) v))
        (sym (append-nil w)),
  )
  write_entries-run os es i j k (x ∷ xs) w =
      let v : Written = record { daq = i; odt = j; entry = k; content = x } in
      let (q, e) = write_entries-run os es i j (suc k) xs (w ++ (v ∷ [])) in
      (
        q,
        e
            ∙ ap (λ u. some (at s os es q u))
                (append_assoc w (v ∷ []) (written_entries i j (suc k) xs)),
      )

  step-set_daq_ptr :
      (os : List OdtCount) (es : List EntryCount) (i j n : ℕ) (p : Option Pointer)
      (w : List Written)
      → entry_count i j es ≡ suc n
      → step (set_daq_ptr i j 0) (at s os es p w)
        ≡ some (at s os es (some (record { daq = i; odt = j; entry = 0; left = suc n })) w)
  unfolding step
  step-set_daq_ptr os es i j n p w e =
      let d : suc n - 0 ≡ suc n = omega arith in
      rw (e, lt→ltb 0 (suc n) (omega arith), if◌then◌else◌)
        (ap (λ m. some (at s os es (some (record { daq = i; odt = j; entry = 0; left = m })) w)) d)

  write_odt-run :
      (os : List OdtCount) (es : List EntryCount) (i j : ℕ) (xs : List Section) (p : Option Pointer)
      (w : List Written)
      → entry_count i j es ≡ length xs
      → After os es (write_odt i j xs) p w (written_entries i j 0 xs)
  write_odt-run os es i j [] p w c =
      unfold run in (p, ap (λ v. some (at s os es p v)) (sym (append-nil w)))
  write_odt-run os es i j (x ∷ xs) p w c =
      let (q, e) = write_entries-run os es i j 0 (x ∷ xs) w in
      (
        q,
        run-first step (set_daq_ptr i j 0) (write_entries (x ∷ xs)) _ _
              (step-set_daq_ptr os es i j (length xs) p w c)
            ∙ e,
      )

  -- One sequence of writes after another.
  sequence_writes :
      (os : List OdtCount) (es : List EntryCount) (cs ds : List Command) (p : Option Pointer)
      (w v u : List Written)
      → After os es cs p w v
      → ((q : Option Pointer) → After os es ds q (w ++ v) u)
      → After os es (cs ++ ds) p w (v ++ u)
  sequence_writes os es cs ds p w v u (q, e) f =
      let (r, g) = f q in
      (r, run-through step cs ds _ _ e ∙ g ∙ ap (λ x. some (at s os es r x)) (append_assoc w v u))

  write_odts-run :
      (os : List OdtCount) (es : List EntryCount) (i j : ℕ) (bs : List (Bin Section))
      (p : Option Pointer) (w : List Written)
      → CountsEntries es i j bs
      → After os es (write_odts i j bs) p w (written_odts i j bs)
  unfolding write_odts
  write_odts-run os es i j [] p w c =
      unfold run in (p, ap (λ v. some (at s os es p v)) (sym (append-nil w)))
  write_odts-run os es i j (b ∷ bs) p w c =
      sequence_writes os es (write_odt i j b.entries) (write_odts i (suc j) bs) p w
        (written_entries i j 0 b.entries) (written_odts i (suc j) bs)
        (write_odt-run os es i j b.entries p w c.0) (λ q. write_odts-run os es i (suc j) bs q _ c.1)

  pub write_daqs-run :
      (os : List OdtCount) (es : List EntryCount) (i : ℕ) (ls : List Layout) (p : Option Pointer)
      (w : List Written)
      → CountsAll es i ls
      → After os es (write_daqs i ls) p w (written_lists i ls)
  unfolding write_daqs
  write_daqs-run os es i [] p w c =
      unfold run in (p, ap (λ v. some (at s os es p v)) (sym (append-nil w)))
  write_daqs-run os es i (none ∷ ls) p w c = write_daqs-run os es (suc i) ls p w c
  write_daqs-run os es i (some bins ∷ ls) p w c =
      sequence_writes os es (write_odts i 0 bins) (write_daqs (suc i) ls) p w
        (written_odts i 0 bins) (written_lists (suc i) ls) (write_odts-run os es i 0 bins p w c.0)
        (λ q. write_daqs-run os es (suc i) ls q _ c.1)
