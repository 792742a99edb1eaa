-- ===== src/Master/Tests.antt =====
-- Transfers to a slave with 8-byte packets.
use pyxcp.Prelude.{
  All, false, zero, suc, ◌+◌, ◌++◌, ap, ◌∙◌, length, take, take_all, append-nil, ℕ, ◌≡◌, refl, true,
  some, none, List, [], ◌∷◌, inl, inr, arith,
}
use pyxcp.Transport.{Frame}
use pyxcp.Transport.Waiting.{drain}
use pyxcp.Transport.Blocks.{payloads, Short}
use pyxcp.Master.Fetch.{
  fetched, waiting_on, max_payload_size, payload_size, fetch_rest, fetch_chunks, fetch_all, fetch,
}
use pyxcp.Master.Fetch.Reading.{region}
use pyxcp.Master.Fetch.Upload.{
  Line, raises, take_response, collect, receive_block, receive_rest, finish_upload, upload,
}
use pyxcp.Master.Fetch.Upload.Answers.{Slave, fetch-upload}
use pyxcp.Master.Download.{
  downloading, download, download_next, program, program_next, dl_func, dl_next_func, full_packet,
  full_packets, partial_packet, partial_packets, block_downloader, full_blocks, master_block_mode,
  full_chunks, normal_mode, sends, Limits, max_payload_of, generalized_downloader, push_data,
  flash_program,
}
use pyxcp.Master.Download.Slave.{State, expected, exchange, answered, accept_packet, step}
use pyxcp.Prelude.Runs.{run}
use pyxcp.Master.Download.Slave.Steps.{at}
use pyxcp.Master.Download.Slave.Sizes.{OnWire}
use pyxcp.Master.Download.Slave.Transfers.{moved, generalized_downloader-run}
use pyxcp.Master.Download.Slave.Reopened.{block_downloader-refused}

abbrev connected : State
connected = record { address = 0; address_ext = 0; written = []; missing = 0; unread = 0 }

-- Blocks of three packets.
abbrev can_slave : Limits
can_slave = record { max_cto = 8; max_bs = 3; master_block = true }

abbrev bytes : List ℕ
bytes = 1 ∷ 2 ∷ 3 ∷ 4 ∷ 5 ∷ 6 ∷ 7 ∷ 8 ∷ 9 ∷ []

abbrev image : List ℕ
image =
    1 ∷ 2 ∷ 3 ∷ 4 ∷ 5 ∷ 6 ∷ 7 ∷ 8 ∷ 9 ∷ 10 ∷ 11 ∷ 12 ∷ 13 ∷ 14 ∷ 15 ∷ 16 ∷ 17 ∷ 18 ∷ 19 ∷ 20 ∷ []

transfers : Unit {0}
unfolding download download_next program program_next dl_func dl_next_func full_packet full_packets
    partial_packet partial_packets block_downloader full_blocks master_block_mode full_chunks
    normal_mode max_payload_of generalized_downloader push_data flash_program expected exchange
    answered accept_packet step run
transfers = tt

push-image :
    run step (push_data can_slave 0x1000 0 image) connected
    ≡ some (record { address = 0x1000; address_ext = 0; written = image; missing = 0; unread = 0 })
unfolding transfers
push-image = refl

-- Packets of 4 bytes in programming mode, cut by the general 8 bytes.
flash_program-bytes :
    run step
      (flash_program can_slave
        (record { max_cto = 6; max_bs = 2; master_block = true })
        0x1000
        bytes)
      connected
    ≡ none
unfolding transfers
flash_program-bytes = refl

generalized_downloader-run_example :
    (run step (generalized_downloader downloading 8 can_slave 0x1000 0 image) connected
      ≡ some (at (moved connected 0x1000 0) image 0))
    × All (OnWire can_slave) (generalized_downloader downloading 8 can_slave 0x1000 0 image)
unfolding max_payload_of
generalized_downloader-run_example =
    generalized_downloader-run downloading can_slave 0x1000 0 image connected refl (omega arith)
      (omega arith) (inr (omega arith)) (inl (omega arith)) refl

block_downloader-refused_example :
    run step (sends (block_downloader downloading 6 bytes)) (at connected [] 0) ≡ none
block_downloader-refused_example =
    block_downloader-refused downloading 6 bytes connected [] (omega arith) (omega arith)

-- The memory whose byte at each address is the address, in packets of any length.
abbrev answers_of : ℕ → ℕ → List Frame
answers_of a n = (0xFF ∷ region (λ x. x) a n) ∷ []

length-region : (a n : ℕ) → length (region (λ x. x) a n) ≡ n
length-region a zero = refl
length-region a (suc n) = ap suc (length-region (suc a) n)

one_packet : (a n : ℕ) → region (λ x. x) a n ++ payloads [] ≡ region (λ x. x) a n
unfolding payloads
one_packet a n = append-nil (region (λ x. x) a n)

abbrev identity_slave : Slave true 8 answers_of
identity_slave = record {
  content = λ x. x;
  first = λ a n. 0xFF ∷ region (λ x. x) a n;
  others = λ a n. [];
  answers = λ a n o. refl;
  positive = λ a n o. unfold raises in refl;
  carries = λ a n o.
      ap (take n) (one_packet a n)
      ∙ take_all n (region (λ x. x) a n) (omega (arith, length-region a n));
  suffices = λ a n o. omega (arith, length-region a n, ap length (one_packet a n));
  needed = λ a n o. unfold Short in tt;
  alone = λ a n o c l. refl;
}

abbrev line : Line
line = record { address = 0x10; unread = [] }

fetching : Unit {0}
unfolding drain raises take_response collect receive_block receive_rest finish_upload upload
    max_payload_size payload_size fetch_rest fetch_chunks fetch_all fetch
fetching = tt

-- The slave sends 3 packets for 16 bytes, the last of which has a byte too many.
abbrev padded : ℕ → ℕ → List Frame
padded a n =
    (0xFF ∷ 1 ∷ 2 ∷ 3 ∷ 4 ∷ 5 ∷ 6 ∷ 7 ∷ [])
    ∷ (0xFF ∷ 8 ∷ 9 ∷ 10 ∷ 11 ∷ 12 ∷ 13 ∷ 14 ∷ [])
    ∷ (0xFF ∷ 15 ∷ 16 ∷ 0 ∷ [])
    ∷ []

fetch-padded :
    fetch (upload true 8 1 padded) true 8 16 none line
    ≡ fetched
        (1 ∷ 2 ∷ 3 ∷ 4 ∷ 5 ∷ 6 ∷ 7 ∷ 8 ∷ 9 ∷ 10 ∷ 11 ∷ 12 ∷ 13 ∷ 14 ∷ 15 ∷ 16 ∷ [])
        (record { address = 0x20; unread = [] })
unfolding fetching
fetch-padded = refl

-- With elements of two bytes, half of the data is dropped.
fetch-words :
    fetch (upload true 8 2 (λ a n. (0xFF ∷ 1 ∷ 2 ∷ 3 ∷ 4 ∷ []) ∷ [])) true 8 2 none line
    ≡ fetched (1 ∷ 2 ∷ []) (record { address = 0x12; unread = [] })
unfolding fetching
fetch-words = refl

-- On CAN, an answer that stays short makes the loop wait without end.
upload-short :
    upload true 8 1 (λ a n. (0xFF ∷ 1 ∷ []) ∷ []) 2 line
    ≡ waiting_on (record { address = 0x12; unread = [] })
unfolding fetching
upload-short = refl

fetch-upload_example :
    (s' : Line) × (fetch (upload true 8 1 answers_of) false 8 20 none line
      ≡ fetched (region (λ x. x) 0x10 20) s')
    × (s'.address ≡ 0x10 + 20)
fetch-upload_example =
    fetch-upload true 8 answers_of identity_slave false 20 none line refl (omega arith) tt
