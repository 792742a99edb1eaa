-- ===== src/Daq/Setup.antt =====
-- The commands that configure the slave (pyxcp/daq_stim/__init__.py: DaqProcessor.setup).
pub mod Slave
use pyxcp.Prelude.{
  ℕ, zero, suc, ◌+◌, Bool, true, false, ◌&&◌, ◌||◌, bit_or, Option, none, some, List, [], ◌∷◌, ◌++◌,
  length, if◌then◌else◌,
}
use pyxcp.Optimize.BinPacking.{Bin, Packing, packed, too_large}
use pyxcp.Optimize.Blocks.{McObject, Section}
use pyxcp.Daq.Sizes.{DaqInfo, ts_fixed, selectable_timestamps, switch_pid_off, optimise}

-- The arguments of `setDaqPackedMode` for a list that asks for it.
pub record PackedMode : Type 0 where
  pub mode : ℕ
  pub timestamp_mode : ℕ
  pub sample_count : ℕ

-- A list of the user; a predefined one has no measurements.
pub record DaqList : Type 0 where
  pub measurements : Option (List McObject)
  pub enable_timestamps : Bool
  pub stim : Bool
  pub event_num : ℕ
  pub prescaler : ℕ
  pub priority : ℕ
  pub packed_mode : Option PackedMode

-- The commands of the master.
pub data Command : Type 0 where
  free_daq : Command
  alloc_daq : ℕ → Command
  alloc_odt : ℕ → ℕ → Command
  alloc_odt_entry : ℕ → ℕ → ℕ → Command
  set_daq_ptr : ℕ → ℕ → ℕ → Command
  write_daq : ℕ → Section → Command
  set_daq_list_mode : ℕ → ℕ → ℕ → ℕ → ℕ → Command
  set_daq_packed_mode : ℕ → PackedMode → Command
  start_stop_daq_list : ℕ → ℕ → Command

-- The layout of a list: none for a predefined one.
abbrev pub Layout : Type 0
Layout = Option (List (Bin Section))

abbrev pub add_layout : Packing Section → Option (List Layout) → Option (List Layout)
add_layout (packed bins) (some rest) = some (some bins ∷ rest)
add_layout (packed bins) none = none
add_layout (too_large x) rest = none

abbrev pub skip_layout : Option (List Layout) → Option (List Layout)
skip_layout none = none
skip_layout (some rest) = some (none ∷ rest)

abbrev pub layout_of :
    DaqInfo → Bool → Option (List McObject) → Option (List Layout) → Option (List Layout)
layout_of i enable none rest = skip_layout rest
layout_of i enable (some ms) rest = add_layout (optimise i enable ms) rest

-- The loop of the optimisation; none is the ValueError of the packing.
unfoldable pub layouts : DaqInfo → List DaqList → Option (List Layout)
layouts i [] = some []
layouts i (l ∷ ls) = layout_of i l.enable_timestamps l.measurements (layouts i ls)

abbrev pub odts_of : ℕ → Layout → List Command
odts_of i none = []
odts_of i (some bins) = alloc_odt i (length bins) ∷ []

-- `allocOdt` of each list, which are numbered from `i`.
unfoldable pub alloc_odts : ℕ → List Layout → List Command
alloc_odts i [] = []
alloc_odts i (l ∷ ls) = odts_of i l ++ alloc_odts (suc i) ls

-- `allocOdtEntry` of each transfer object of a list, which are numbered from `j`.
unfoldable pub odt_entries : ℕ → ℕ → List (Bin Section) → List Command
odt_entries i j [] = []
odt_entries i j (b ∷ bs) = alloc_odt_entry i j (length b.entries) ∷ odt_entries i (suc j) bs

abbrev pub entries_of : ℕ → Layout → List Command
entries_of i none = []
entries_of i (some bins) = odt_entries i 0 bins

unfoldable pub alloc_odt_entries : ℕ → List Layout → List Command
alloc_odt_entries i [] = []
alloc_odt_entries i (l ∷ ls) = entries_of i l ++ alloc_odt_entries (suc i) ls

-- `writeDaq(0xFF, entry.length, entry.ext, entry.address)`
unfoldable pub write_entries : List Section → List Command
write_entries [] = []
write_entries (x ∷ xs) = write_daq 0xFF x ∷ write_entries xs

-- A transfer object without entries is left out.
abbrev pub write_odt : ℕ → ℕ → List Section → List Command
write_odt i j [] = []
write_odt i j (x ∷ xs) = set_daq_ptr i j 0 ∷ write_entries (x ∷ xs)

unfoldable pub write_odts : ℕ → ℕ → List (Bin Section) → List Command
write_odts i j [] = []
write_odts i j (b ∷ bs) = write_odt i j b.entries ++ write_odts i (suc j) bs

abbrev pub writes_of : ℕ → Layout → List Command
writes_of i none = []
writes_of i (some bins) = write_odts i 0 bins

unfoldable pub write_daqs : ℕ → List Layout → List Command
write_daqs i [] = []
write_daqs i (l ∷ ls) = writes_of i l ++ write_daqs (suc i) ls

-- The dynamic configuration, of lists that are numbered from `min_daq`.
unfoldable pub allocate : ℕ → List Layout → List Command
allocate min_daq ls =
    free_daq ∷ alloc_daq (length ls) ∷ alloc_odts min_daq ls
    ++ (alloc_odt_entries min_daq ls ++ write_daqs min_daq ls)

-- The mode byte of a list.
unfoldable pub mode_of : DaqInfo → DaqList → ℕ
mode_of i l =
    let stamped =
      if i.timestamp_supported && (ts_fixed i || (selectable_timestamps i && l.enable_timestamps))
      then 0x10
      else 0x00 in
    let stim = if l.stim then bit_or stamped 0x02 else stamped in
    if switch_pid_off i then bit_or stim 0x20 else stim

-- The commands that were sent, and whether an exception ended the sequence.
pub record Sent : Type 0 where
  pub commands : List Command
  pub raised : Bool

abbrev pub after : List Command → Sent → Sent
after cs r = record r { commands = cs ++ r.commands }

-- The start of a list, before the lists behind it. For a packed list, the time of its event is
-- asked for before that with `getEventChannelInfo`, a method that the master does not have: an
-- AttributeError.
unfoldable pub start_list : ℕ → Option PackedMode → Sent → Sent
start_list n none rest = after (start_stop_daq_list 0x02 n ∷ []) rest
start_list n (some p) rest = record { commands = set_daq_packed_mode n p ∷ []; raised = true }

-- The loop that arms the lists.
unfoldable pub arm : DaqInfo → ℕ → List DaqList → Sent
unfolding start_list
arm i n [] = record { commands = []; raised = false }
arm i n (l ∷ ls) =
    after (set_daq_list_mode n (mode_of i l) l.event_num l.prescaler l.priority ∷ [])
      (start_list n l.packed_mode (arm i (suc n) ls))

abbrev pub all_commands : DaqInfo → ℕ → List DaqList → Option (List Layout) → Option Sent
all_commands i min_daq ls none = none
all_commands i min_daq ls (some xs) = some (after (allocate min_daq xs) (arm i min_daq ls))

-- `setup` for a slave with dynamic configuration; none is the ValueError, before any command.
unfoldable pub setup_dynamic : DaqInfo → ℕ → List DaqList → Option Sent
setup_dynamic i min_daq ls = all_commands i min_daq ls (layouts i ls)

abbrev pub is_predefined : Option (List McObject) → Bool
is_predefined none = true
is_predefined (some ms) = false

-- `all(self.is_predefined)`
unfoldable pub all_predefined : List DaqList → Bool
all_predefined [] = true
all_predefined (l ∷ ls) = is_predefined l.measurements && all_predefined ls

-- `setup` for a slave with static configuration: its lists are numbered from 0, and none is the
-- TypeError for a list with measurements.
unfoldable pub setup_static : DaqInfo → List DaqList → Option Sent
setup_static i ls = if all_predefined ls then some (arm i 0 ls) else none
