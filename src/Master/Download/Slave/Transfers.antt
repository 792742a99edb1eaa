-- ===== src/Master/Download/Slave/Transfers.antt =====
-- push and flash_program in master block mode (pyxcp/master/master.py: _generalized_downloader).
use mathlib.Core.Path.{subst}
use pyxcp.Prelude.{
  sym, All, ℕ, ◌-◌, ◌%◌, ◌<◌, ◌≡◌, ap, ◌∙◌, true, some, List, [], length, if◌then◌else◌, arith,
}
use pyxcp.Master.Download.{Kind, sends}
use pyxcp.Master.Download.Slave.{State, step}
use pyxcp.Prelude.Runs.{run, run-first}
use pyxcp.Master.Download.{
  Limits, max_payload_of, master_block_mode, normal_mode, generalized_downloader, set_mta,
}
use pyxcp.Master.Download.Slave.Steps.{at}
use pyxcp.Master.Download.Slave.Sizes.{OnWire, master_block_mode-OnWire}
use pyxcp.Master.Download.Slave.Blocks.{Cuts, master_block_mode-run}

-- The state after SET_MTA.
abbrev pub moved : State → ℕ → ℕ → State
moved s address ext = record s { address = address; address_ext = ext }

step-set_mta :
    (s : State) (address ext : ℕ)
    → s.unread ≡ 0
    → step (set_mta address ext) s ≡ some (at (moved s address ext) [] 0)
unfolding step
step-set_mta s address ext e =
    ap
      (λ n.
        some (record s {
          address = address;
          address_ext = ext;
          written = [];
          missing = 0;
          unread = n;
        }))
      e

generalized_downloader-at :
    (kind : Kind) (block_max_cto : ℕ) (l : Limits) (address ext : ℕ) (bytes : List ℕ) (s : State)
    → l.master_block ≡ true
    → 2 < block_max_cto
    → 0 < max_payload_of l
    → Cuts (block_max_cto - 2) (max_payload_of l)
    → Cuts (block_max_cto - 2) (length bytes % max_payload_of l)
    → s.unread ≡ 0
    → run step (generalized_downloader kind block_max_cto l address ext bytes) s
      ≡ some (at (moved s address ext) bytes 0)
unfolding generalized_downloader
generalized_downloader-at kind c l address ext bytes s b o p full last e =
    run-first step _ _ s _ (step-set_mta s address ext e)
    ∙ ap
        (λ x.
          run step
            (sends (
              if x
              then master_block_mode kind (c - 2) (max_payload_of l) bytes
              else normal_mode kind (c - 2) (max_payload_of l) bytes))
            (at (moved s address ext) [] 0))
        b
    ∙ (master_block_mode-run kind (c - 2) (max_payload_of l) bytes (omega arith) full
        (moved s address ext) [] p last)

-- In master block mode, with packets cut by the MAX_CTO of the limits, the slave accepts a transfer
-- whole: afterwards it has written exactly the data from the given address on, no block is open and
-- no response is left unread. Each packet has at most MAX_CTO - 2 bytes of data, and the size it
-- announces fits one byte and MAX_BS packets. The packets hold at least a byte, and neither a full
-- block nor the last one ends in the second packet without filling it.
pub generalized_downloader-run :
    (kind : Kind) (l : Limits) (address ext : ℕ) (bytes : List ℕ) (s : State)
    → l.master_block ≡ true
    → 2 < l.max_cto
    → 0 < max_payload_of l
    → Cuts (l.max_cto - 2) (max_payload_of l)
    → Cuts (l.max_cto - 2) (length bytes % max_payload_of l)
    → s.unread ≡ 0
    → (run step (generalized_downloader kind l.max_cto l address ext bytes) s
        ≡ some (at (moved s address ext) bytes 0))
      × All (OnWire l) (generalized_downloader kind l.max_cto l address ext bytes)
unfolding generalized_downloader
generalized_downloader-run kind l address ext bytes s b o p full last e = (
  generalized_downloader-at kind l.max_cto l address ext bytes s b o p full last e,
  (
    tt,
    subst
        (λ x. All (OnWire l) (
          sends (
            if x
            then master_block_mode kind (l.max_cto - 2) (max_payload_of l) bytes
            else normal_mode kind (l.max_cto - 2) (max_payload_of l) bytes)))
        (sym b) (master_block_mode-OnWire kind l bytes b o p),
  ),
)
