-- ===== src/Master/Unlock/Tests.antt =====
-- Unlocking over CAN with packets of 8 bytes.
use pyxcp.Prelude.{ℕ, ◌≡◌, refl, true, false, Option, none, some, List, [], ◌∷◌, arith}
use pyxcp.Master.Unlock.{
  daq, calpag, Protection, UnlockSession, gives, fails, terminated, any_large, type_error,
  value_error, runtime_error, get_seed, unlock, remaining_seed, send_key, unlock_resource,
}
use pyxcp.Master.Unlock.Conditional.{
  get_current_protection_status, unlock_names, cond_unlock, all_resources,
}
use pyxcp.Master.Unlock.Slave.{SeedSlave, seed_slave}
use pyxcp.Master.Unlock.KeyParts.{AreBytes, Arrived}
use pyxcp.Master.Unlock.SeedParts.{first_asked, session}
use pyxcp.Master.Unlock.Arrival.{cond_unlock-Arrived}

abbrev locked : Protection
locked = record { dbg = false; pgm = false; stim = false; daq = true; calpag = false }

abbrev open_daq : Protection
open_daq = record { dbg = false; pgm = false; stim = false; daq = false; calpag = false }

abbrev quiet : SeedSlave
quiet = record { left = []; awaited = none; received = [] }

abbrev start : UnlockSession SeedSlave
start = record { current_protection_status = some locked; slave = quiet }

-- A key that is the seed behind the number of the resource.
abbrev key_of : ℕ → List ℕ → Option (List ℕ)
key_of resource seed = some (resource ∷ seed)

abbrev short_seed : List ℕ
short_seed = 1 ∷ 2 ∷ 3 ∷ 4 ∷ 5 ∷ 6 ∷ 7 ∷ 8 ∷ []

abbrev long_seed : List ℕ
long_seed = 1 ∷ 2 ∷ 3 ∷ 4 ∷ 5 ∷ 6 ∷ 7 ∷ 8 ∷ 9 ∷ 10 ∷ 11 ∷ 12 ∷ 13 ∷ []

abbrev after_key : List ℕ → List ℕ → UnlockSession SeedSlave
after_key left key = record {
  current_protection_status = some open_daq;
  slave = record { left = left; awaited = some 0; received = key };
}

cond_unlock-short :
    cond_unlock (seed_slave short_seed 6 open_daq) (some key_of) true 8 9 (some daq ∷ []) start
    ≡ gives tt (after_key [] (4 ∷ short_seed))
unfolding cond_unlock get_current_protection_status unlock_names unlock_resource get_seed
    remaining_seed send_key unlock any_large
cond_unlock-short = refl

-- The last byte of the seed stays with the slave.
cond_unlock-long :
    cond_unlock (seed_slave long_seed 6 open_daq) (some key_of) true 8 9 (some daq ∷ []) start
    ≡ gives tt (after_key (13 ∷ []) (4 ∷ 1 ∷ 2 ∷ 3 ∷ 4 ∷ 5 ∷ 6 ∷ 7 ∷ 8 ∷ 9 ∷ 10 ∷ 11 ∷ 12 ∷ []))
unfolding cond_unlock get_current_protection_status unlock_names unlock_resource get_seed
    remaining_seed send_key unlock any_large
cond_unlock-long = refl

-- Off CAN, a resource that is not locked any more has no seed to make a list of.
cond_unlock-no_seed :
    cond_unlock (seed_slave [] 6 open_daq) (some key_of) false 8 9 (some daq ∷ []) start
    ≡ fails type_error start
unfolding cond_unlock get_current_protection_status unlock_names unlock_resource get_seed
    remaining_seed send_key unlock any_large
cond_unlock-no_seed = refl

cond_unlock-no_key :
    cond_unlock (seed_slave short_seed 6 open_daq) none true 8 9 (some daq ∷ []) start
    ≡ fails runtime_error start
unfolding cond_unlock get_current_protection_status
cond_unlock-no_key = refl

-- A resource that is not protected is skipped; a name that is not known ends the loop.
cond_unlock-unknown :
    cond_unlock
      (seed_slave short_seed 6 open_daq)
      (some key_of)
      true
      8
      9
      (some calpag ∷ none ∷ [])
      start
    ≡ fails value_error start
unfolding cond_unlock get_current_protection_status unlock_names
cond_unlock-unknown = refl

all_resources-two : all_resources true true false false ≡ some calpag ∷ some daq ∷ []
unfolding all_resources
all_resources-two = refl

nine_bytes : AreBytes (4 ∷ short_seed)
nine_bytes = (
  omega arith,
  (
    omega arith,
    (
      omega arith,
      (omega arith, (omega arith, (omega arith, (omega arith, (omega arith, (omega arith, tt)))))),
    ),
  ),
)

-- A key of 256 bytes ends the program.
unlock-terminated : unlock (seed_slave short_seed 6 open_daq) 256 [] start ≡ terminated start
unfolding unlock any_large
unlock-terminated = refl

cond_unlock-Arrived_example :
    Arrived short_seed 6 open_daq
      (session short_seed 6 open_daq (some locked) (first_asked short_seed 6 open_daq))
      (4 ∷ short_seed)
      (cond_unlock (seed_slave short_seed 6 open_daq) (some key_of) true 8 9 (some daq ∷ []) start)
cond_unlock-Arrived_example =
    cond_unlock-Arrived short_seed 6 open_daq key_of 8 8 daq locked start (4 ∷ short_seed) refl
      (omega arith) (omega arith) refl refl (omega arith) refl (omega arith) nine_bytes
