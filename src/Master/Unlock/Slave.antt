-- ===== src/Master/Unlock/Slave.antt =====
-- An abstract slave that hands out a seed in parts and takes a key in parts, as the protocol
-- prescribes for GET_SEED and UNLOCK (pyxcp/master/master.py: getSeed, unlock).
use pyxcp.Prelude.{
  ℕ, ◌-◌, ◌&&◌, Option, none, some, List, [], ◌∷◌, ◌++◌, length, take, drop, leb, ◌==◌,
  if◌then◌else◌,
}
use pyxcp.Master.Unlock.{Protection, Requests}

-- The part of the seed that was not asked for, the number of bytes of the key that are to come,
-- which is none before the first part, and the bytes of the key that came.
pub record SeedSlave : Type 0 where
  pub left : List ℕ
  pub awaited : Option ℕ
  pub received : List ℕ

-- The number that a part has to announce.
abbrev pub announced : ℕ → Option ℕ → ℕ
announced remaining none = remaining
announced remaining (some n) = n

module _ (seed : List ℕ) (max_payload : ℕ) (status : Protection) where
  -- A part of the seed, after the number of bytes that remain with it.
  abbrev pub answer_seed : ℕ → ℕ → SeedSlave → Option (List ℕ) × SeedSlave
  answer_seed first resource w =
      if first == 0
      then (
        some (length seed ∷ take max_payload seed),
        record { left = drop max_payload seed; awaited = none; received = [] },
      )
      else (
        some (length w.left ∷ take max_payload w.left),
        record w { left = drop max_payload w.left },
      )

  -- A part of the key is taken when it announces what is to come and fits a packet.
  abbrev pub take_key : ℕ → List ℕ → SeedSlave → Option Protection × SeedSlave
  take_key remaining key w =
      if (remaining == announced remaining w.awaited)
        && (leb (length key) max_payload && leb (length key) remaining)
      then (
        some status,
        record w { awaited = some (remaining - length key); received = w.received ++ key },
      )
      else (none, w)

  abbrev pub seed_slave : Requests SeedSlave
  seed_slave = record {
    get_seed = answer_seed;
    unlock = take_key;
    get_status = λ w. (some status, w);
  }
