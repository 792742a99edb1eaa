-- ===== src/Master/Download.antt =====
-- From the master to the slave: push and flash_program with the loops below them
-- (pyxcp/master/master.py: Master._generalized_downloader). Addresses and sizes are numbers; MAX_CTO
-- is at least 3, so that a packet carries data. Progress callbacks and delays are left out.
pub mod Slave
use pyxcp.Prelude.{
  ℕ, zero, suc, ◌+◌, ◌-◌, ◌*◌, ◌/◌, ◌%◌, min, Bool, true, false, Option, none, some, List, [], ◌∷◌,
  ◌++◌, length, take, drop, ◌==◌, if◌then◌else◌,
}

-- The commands that carry data.
pub data Service : Type 0 where
  start_download : Service
  continue_download : Service
  start_program : Service
  continue_program : Service

-- A command for the transport: `request` waits for a response, `block_request` does not.
pub record Request : Type 0 where
  pub awaits : Bool
  pub service : Service
  pub size : ℕ
  pub payload : List ℕ

-- `download(data, block_mode_length, last)`
unfoldable pub download : List ℕ → Option ℕ → Bool → Request
download bytes none last = record {
  awaits = true;
  service = start_download;
  size = length bytes;
  payload = bytes;
}
download bytes (some n) true = record {
  awaits = true;
  service = start_download;
  size = length bytes;
  payload = bytes;
}
download bytes (some n) false = record {
  awaits = false;
  service = start_download;
  size = n;
  payload = bytes;
}

-- `downloadNext(data, remaining_block_length, last)`
unfoldable pub download_next : List ℕ → ℕ → Bool → Request
download_next bytes n last = record {
  awaits = last;
  service = continue_download;
  size = n;
  payload = bytes;
}

-- `program(data, block_length, last)`
unfoldable pub program : List ℕ → ℕ → Bool → Request
program bytes n last = record { awaits = last; service = start_program; size = n; payload = bytes }

-- `programNext(data, remaining_block_length, last)`
unfoldable pub program_next : List ℕ → ℕ → Bool → Request
program_next bytes n last = record {
  awaits = last;
  service = continue_program;
  size = n;
  payload = bytes;
}

-- The pair of functions that the loops are given.
pub data Kind : Type 0 where
  downloading : Kind
  programming : Kind

unfoldable pub dl_func : Kind → List ℕ → ℕ → Bool → Request
dl_func downloading bytes n last = download bytes (some n) last
dl_func programming bytes n last = program bytes n last

unfoldable pub dl_next_func : Kind → List ℕ → ℕ → Bool → Request
dl_next_func downloading bytes n last = download_next bytes n last
dl_next_func programming bytes n last = program_next bytes n last

-- `_block_downloader`, for packets of `max_packet_size` bytes.
module _ (kind : Kind) (max_packet_size : ℕ) (bytes : List ℕ) where
  -- The call of one round; the first round opens the block with its whole length.
  unfoldable pub full_packet : ℕ → ℕ → ℕ → Request
  full_packet zero offset remaining_block_size =
      dl_func kind (take max_packet_size (drop offset bytes)) (length bytes)
        (remaining_block_size - max_packet_size == 0)
  full_packet (suc i) offset remaining_block_size =
      dl_next_func kind (take max_packet_size (drop offset bytes)) remaining_block_size
        (remaining_block_size - max_packet_size == 0)

  -- `for index in packets`, with the rounds to go.
  unfoldable pub full_packets : ℕ → ℕ → ℕ → ℕ → List Request
  full_packets zero index offset remaining_block_size = []
  full_packets (suc rounds) index offset remaining_block_size =
      full_packet index offset remaining_block_size
      ∷ full_packets rounds (suc index) (offset + max_packet_size)
          (remaining_block_size - max_packet_size)

  -- `if index == 0`, where `index` is that of the last round, or 0 if there was none.
  unfoldable pub partial_packet : ℕ → List ℕ → ℕ → Request
  partial_packet zero packet remaining = dl_func kind packet remaining true
  partial_packet (suc i) packet remaining = dl_next_func kind packet remaining true

  unfoldable pub partial_packets : ℕ → ℕ → List Request
  partial_packets packets remaining =
      if remaining == 0
      then []
      else partial_packet (packets - 1) (take remaining (drop (packets * max_packet_size) bytes))
          remaining
        ∷ []

  unfoldable pub block_downloader : List Request
  block_downloader =
      let packets = length bytes / max_packet_size in
      full_packets packets 0 0 (length bytes)
      ++ partial_packets packets (length bytes % max_packet_size)

module _ (kind : Kind) (max_packet_size max_payload : ℕ) (bytes : List ℕ) where
  -- `for _ in blocks`
  unfoldable pub full_blocks : ℕ → ℕ → List Request
  full_blocks zero offset = []
  full_blocks (suc rounds) offset =
      block_downloader kind max_packet_size (take max_payload (drop offset bytes))
      ++ full_blocks rounds (offset + max_payload)

  -- `_download_master_block_mode`
  unfoldable pub master_block_mode : List Request
  master_block_mode =
      let blocks = length bytes / max_payload in
      let remaining_block_size = length bytes % max_payload in
      full_blocks blocks 0
      ++ (if remaining_block_size == 0
          then []
          else block_downloader kind max_packet_size
              (take remaining_block_size (drop (blocks * max_payload) bytes)))

  -- `for _ in chunks`
  unfoldable pub full_chunks : ℕ → ℕ → List Request
  full_chunks zero offset = []
  full_chunks (suc rounds) offset =
      dl_func kind (take max_payload (drop offset bytes)) max_payload false
      ∷ full_chunks rounds (offset + max_payload)

  -- `_download_normal_mode`
  unfoldable pub normal_mode : List Request
  normal_mode =
      let chunks = length bytes / max_payload in
      let remaining = length bytes % max_payload in
      full_chunks chunks 0
      ++ (if remaining == 0
          then []
          else dl_func kind (take remaining (drop (chunks * max_payload) bytes)) remaining true
            ∷ [])

-- What the master does: set the transfer address, or send.
pub data Call : Type 0 where
  set_mta : ℕ → ℕ → Call
  send : Request → Call

abbrev pub sends : List Request → List Call
sends [] = []
sends (r ∷ rs) = send r ∷ sends rs

-- The slave's properties that the transfer reads.
pub record Limits : Type 0 where
  pub max_cto : ℕ
  pub max_bs : ℕ
  pub master_block : Bool

-- `max_payload`
unfoldable pub max_payload_of : Limits → ℕ
max_payload_of l = if l.master_block then min (l.max_bs * (l.max_cto - 2)) 255 else l.max_cto - 2

-- `_generalized_downloader`, with the limits of the service and the MAX_CTO by which
-- `_block_downloader` cuts packets.
unfoldable pub generalized_downloader : Kind → ℕ → Limits → ℕ → ℕ → List ℕ → List Call
generalized_downloader kind block_max_cto l address address_ext bytes =
    set_mta address address_ext
    ∷ sends (
        if l.master_block
        then master_block_mode kind (block_max_cto - 2) (max_payload_of l) bytes
        else normal_mode kind (block_max_cto - 2) (max_payload_of l) bytes)

-- `push`
unfoldable pub push_data : Limits → ℕ → ℕ → List ℕ → List Call
push_data l address address_ext bytes =
    generalized_downloader downloading l.max_cto l address address_ext bytes

-- `flash_program`, with the limits of the programming service beside the general ones.
unfoldable pub flash_program : Limits → Limits → ℕ → List ℕ → List Call
flash_program general pgm address bytes =
    generalized_downloader programming general.max_cto pgm address 0x00 bytes
