-- ===== src/Daq/Setup/Slave.antt =====
-- What the protocol asks of a dynamic configuration: a slave that allocates DAQ lists, transfer
-- objects and entries in this order, within what was allocated before, and that takes writes from
-- a pointer on which goes up by itself.
pub mod Tables
pub mod Stages
pub mod Configured
use pyxcp.Prelude.{
  ℕ, zero, suc, ◌+◌, ◌-◌, Bool, true, false, ◌&&◌, Option, none, some, List, [], ◌∷◌, ◌++◌, leb,
  ltb, ◌==◌, if◌then◌else◌,
}
use pyxcp.Prelude.Runs
use pyxcp.Optimize.Blocks.{Section}
use pyxcp.Daq.Setup.{
  Command, free_daq, alloc_daq, alloc_odt, alloc_odt_entry, set_daq_ptr, write_daq,
  set_daq_list_mode, set_daq_packed_mode, start_stop_daq_list,
}

-- The number of transfer objects of a list.
pub record OdtCount : Type 0 where
  pub daq : ℕ
  pub odts : ℕ

-- The number of entries of a transfer object.
pub record EntryCount : Type 0 where
  pub daq : ℕ
  pub odt : ℕ
  pub entries : ℕ

-- The entry that is written next, and how many follow in its transfer object.
pub record Pointer : Type 0 where
  pub daq : ℕ
  pub odt : ℕ
  pub entry : ℕ
  pub left : ℕ

pub record Written : Type 0 where
  pub daq : ℕ
  pub odt : ℕ
  pub entry : ℕ
  pub content : Section

-- The first list that can be configured, the number of lists, what is allocated, the pointer
-- once it was set, and the writes.
pub record State : Type 0 where
  pub min_daq : ℕ
  pub count : ℕ
  pub odt_counts : List OdtCount
  pub entry_counts : List EntryCount
  pub pointer : Option Pointer
  pub written : List Written

abbrev pub odt_count : ℕ → List OdtCount → ℕ
odt_count i [] = 0
odt_count i (o ∷ os) = if o.daq == i then o.odts else odt_count i os

abbrev pub entry_count : ℕ → ℕ → List EntryCount → ℕ
entry_count i j [] = 0
entry_count i j (e ∷ es) = if (e.daq == i) && (e.odt == j) then e.entries else entry_count i j es

abbrev pub none_yet : List EntryCount → Bool
none_yet [] = true
none_yet (e ∷ es) = false

abbrev pub is_unset : Option Pointer → Bool
is_unset none = true
is_unset (some p) = false

abbrev pub write_left : Section → State → Pointer → ℕ → Option State
write_left x s p zero = none
write_left x s p (suc n) = some (record s {
  pointer = some (record p { entry = suc p.entry; left = n });
  written = s.written ++ (record { daq = p.daq; odt = p.odt; entry = p.entry; content = x } ∷ []);
})

abbrev pub write_at : Section → State → Option Pointer → Option State
write_at x s none = none
write_at x s (some p) = write_left x s p p.left

abbrev pub in_range : ℕ → State → Bool
in_range i s = leb s.min_daq i && ltb i (s.min_daq + s.count)

-- One command; none is a sequence error, or a number that is out of range.
unfoldable pub step : Command → State → Option State
step free_daq s =
    some (record s { count = 0; odt_counts = []; entry_counts = []; pointer = none; written = [] })
step (alloc_daq n) s = if s.count == 0 then some (record s { count = n }) else none
step (alloc_odt i n) s =
    if none_yet s.entry_counts && in_range i s
    then some (record s { odt_counts = s.odt_counts ++ (record { daq = i; odts = n } ∷ []) })
    else none
step (alloc_odt_entry i j n) s =
    if is_unset s.pointer && ltb j (odt_count i s.odt_counts)
    then some (record s {
      entry_counts = s.entry_counts ++ (record { daq = i; odt = j; entries = n } ∷ []);
    })
    else none
step (set_daq_ptr i j k) s =
    if ltb k (entry_count i j s.entry_counts)
    then some (record s {
      pointer =
          some (record { daq = i; odt = j; entry = k; left = entry_count i j s.entry_counts - k });
    })
    else none
step (write_daq bit x) s = write_at x s s.pointer
step (set_daq_list_mode n mode event prescaler priority) s = if in_range n s then some s else none
step (set_daq_packed_mode n p) s = if in_range n s then some s else none
step (start_stop_daq_list mode n) s = if in_range n s then some s else none
