-- ===== src/Master/Fetch.antt =====
-- From the slave to the master: fetch (pyxcp/master/master.py: Master.fetch).
pub mod Reading
pub mod Upload
use pyxcp.Prelude.{
  ℕ, zero, suc, ◌-◌, ◌/◌, ◌%◌, Bool, Option, none, some, List, [], ◌∷◌, ◌++◌, take, ltb, min, ◌==◌,
  if◌then◌else◌,
}

-- What `upload` gives: bytes, an exception, or nothing, when its loop waits without end.
pub data Uploaded (S : Type 0) : Type 0 where
  uploaded : List ℕ → S → Uploaded S
  failed : S → Uploaded S
  waiting_on : S → Uploaded S

pub data Fetched (S : Type 0) : Type 0 where
  fetched : List ℕ → S → Fetched S
  fetch_failed : S → Fetched S
  fetch_waiting : S → Fetched S
  value_error : Fetched S

-- `max_payload`
unfoldable pub max_payload_size : Bool → ℕ → ℕ
max_payload_size slave_block_mode max_cto = if slave_block_mode then 255 else max_cto - 1

-- `payload`, for a limit that is none or at least 8.
unfoldable pub payload_size : Option ℕ → ℕ → ℕ
payload_size none max_payload = max_payload
payload_size (some limit) max_payload = min limit max_payload

-- The master, the transport and the slave are a state that `upload` changes.
module _ {S : Type 0} (upload : ℕ → S → Uploaded S) where
  abbrev pub extended : ℕ → List ℕ → (List ℕ → S → Fetched S) → Uploaded S → Fetched S
  extended size result next (uploaded bytes s) = next (result ++ take size bytes) s
  extended size result next (failed s) = fetch_failed s
  extended size result next (waiting_on s) = fetch_waiting s

  -- `if remaining`
  unfoldable pub fetch_rest : ℕ → List ℕ → S → Fetched S
  fetch_rest zero result s = fetched result s
  fetch_rest (suc n) result s = extended (suc n) result fetched (upload (suc n) s)

  -- `for _ in chunks`, and what comes after it.
  unfoldable pub fetch_chunks : ℕ → ℕ → ℕ → List ℕ → S → Fetched S
  fetch_chunks chunk_size remaining zero result s = fetch_rest remaining result s
  fetch_chunks chunk_size remaining (suc rounds) result s =
      extended chunk_size result (fetch_chunks chunk_size remaining rounds) (upload chunk_size s)

  unfoldable pub fetch_all : ℕ → ℕ → S → Fetched S
  fetch_all chunk_size length s =
      fetch_chunks chunk_size (length % chunk_size) (length / chunk_size) [] s

  unfoldable pub fetch : Bool → ℕ → ℕ → Option ℕ → S → Fetched S
  fetch slave_block_mode max_cto length none s =
      fetch_all (payload_size none (max_payload_size slave_block_mode max_cto)) length s
  fetch slave_block_mode max_cto length (some limit) s =
      if ltb limit 8
      then value_error
      else fetch_all (payload_size (some limit) (max_payload_size slave_block_mode max_cto)) length
          s
