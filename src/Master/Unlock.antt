-- ===== src/Master/Unlock.antt =====
-- Unlocking with seed and key (pyxcp/master/master.py: getSeed, unlock, and the loops of
-- cond_unlock for one resource). The requests
-- to the slave and the algorithm that makes a key from a seed are parameters.
pub mod Conditional
pub mod Slave
pub mod KeyParts
pub mod SeedParts
pub mod Arrival
mod Tests
use pyxcp.Prelude.{
  ℕ, zero, suc, ◌+◌, ◌-◌, Bool, true, false, ◌||◌, ◌&&◌, Option, none, some, List, [], ◌∷◌, ◌++◌,
  length, take, drop, leb, ltb, ◌==◌, if◌then◌else◌,
}

pub record Protection : Type 0 where
  pub dbg : Bool
  pub pgm : Bool
  pub stim : Bool
  pub daq : Bool
  pub calpag : Bool

pub data Resource : Type 0 where
  dbg : Resource
  pgm : Resource
  stim : Resource
  daq : Resource
  calpag : Resource

-- `RESOURCE_VALUES`
abbrev pub resource_value : Resource → ℕ
resource_value dbg = 32
resource_value pgm = 16
resource_value stim = 8
resource_value daq = 4
resource_value calpag = 1

abbrev pub is_protected : Protection → Resource → Bool
is_protected p dbg = p.dbg
is_protected p pgm = p.pgm
is_protected p stim = p.stim
is_protected p daq = p.daq
is_protected p calpag = p.calpag

abbrev pub unprotected : Protection
unprotected = record { dbg = false; pgm = false; stim = false; daq = false; calpag = false }

abbrev pub any_protected : Protection → Bool
any_protected p = p.dbg || (p.pgm || (p.stim || (p.daq || p.calpag)))

-- The response to GET_SEED; the seed is none when the structure has no seed.
pub record GetSeedResponse : Type 0 where
  pub length : ℕ
  pub seed : Option (List ℕ)

-- The requests: a response or none for an exception, and the slave after it.
pub record Requests (S : Type 0) : Type 0 where
  pub get_seed : ℕ → ℕ → S → Option (List ℕ) × S
  pub unlock : ℕ → List ℕ → S → Option Protection × S
  pub get_status : S → Option Protection × S

-- The last known status, and the slave.
pub record UnlockSession (S : Type 0) : Type 0 where
  pub current_protection_status : Option Protection
  pub slave : S

pub data UnlockError : Type 0 where
  runtime_error : UnlockError
  value_error : UnlockError
  type_error : UnlockError
  response_error : UnlockError
  seed_n_key_error : UnlockError

-- What a step returns or raises; `looping` stands for a loop that is not over yet, and `terminated`
-- for the end of the program by a C++ exception that nothing catches.
pub data Attempt (S A : Type 0) : Type 0 where
  gives : A → UnlockSession S → Attempt S A
  fails : UnlockError → UnlockSession S → Attempt S A
  looping : UnlockSession S → Attempt S A
  terminated : UnlockSession S → Attempt S A

abbrev pub followed_by :
    {S A B : Type 0} → (A → UnlockSession S → Attempt S B) → Attempt S A → Attempt S B
followed_by next (gives a s) = next a s
followed_by next (fails e s) = fails e s
followed_by next (looping s) = looping s
followed_by next (terminated s) = terminated s

-- An argument of a request that is no byte: `set_send_buffer`, which is noexcept, fails to cast it
-- (pyxcp/cpp_ext/framing.hpp), so that the program is terminated before the request is sent.
unfoldable pub any_large : List ℕ → Bool
any_large [] = false
any_large (x ∷ xs) = ltb 255 x || any_large xs

module _ {S : Type 0} (requests : Requests S) where
  -- `getSeed` on CAN, where the seed may be in several parts.
  abbrev pub seed_on_can : List ℕ → Option GetSeedResponse
  seed_on_can [] = none
  seed_on_can (size ∷ seed) = some (record {
    length = size;
    seed = some (if ltb size (length seed) then take size seed else seed);
  })

  -- The structure: as many bytes as the length says, and no seed for 0.
  abbrev pub seed_elsewhere : List ℕ → Option GetSeedResponse
  seed_elsewhere [] = none
  seed_elsewhere (size ∷ rest) =
      if size == 0
      then some (record { length = size; seed = none })
      else if leb size (length rest)
      then some (record { length = size; seed = some (take size rest) })
      else none

  abbrev pub reply_of : UnlockSession S → S → Option GetSeedResponse → Attempt S GetSeedResponse
  reply_of s slave none = fails response_error (record s { slave = slave })
  reply_of s slave (some reply) = gives reply (record s { slave = slave })

  abbrev pub parse_seed : Bool → UnlockSession S → Option (List ℕ) × S → Attempt S GetSeedResponse
  parse_seed on_can s (none, slave) = fails response_error (record s { slave = slave })
  parse_seed on_can s (some response, slave) =
      reply_of s slave (if on_can then seed_on_can response else seed_elsewhere response)

  unfoldable pub get_seed : Bool → ℕ → ℕ → UnlockSession S → Attempt S GetSeedResponse
  get_seed on_can first resource s = parse_seed on_can s (requests.get_seed first resource s.slave)

  abbrev pub status_set : Option Protection × S → UnlockSession S → Attempt S Unit
  status_set (none, slave) s = fails response_error (record s { slave = slave })
  status_set (some status, slave) s =
      gives tt (record { current_protection_status = some status; slave = slave })

  unfoldable pub unlock : ℕ → List ℕ → UnlockSession S → Attempt S Unit
  unfolding any_large
  unlock length key s =
      if any_large (length ∷ key)
      then terminated s
      else status_set (requests.unlock length key s.slave) s

  -- `list(result.seed)`, which raises when there is none.
  abbrev pub with_seed :
      {A : Type 0}
      → (List ℕ → UnlockSession S → Attempt S A)
      → Option (List ℕ)
      → UnlockSession S
      → Attempt S A
  with_seed next none s = fails type_error s
  with_seed next (some seed) s = next seed s

  -- The loop that asks for the remaining parts.
  unfoldable pub remaining_seed : Bool → ℕ → ℕ → ℕ → List ℕ → UnlockSession S → Attempt S (List ℕ)
  unfolding get_seed
  remaining_seed on_can resource rounds zero seed s = gives seed s
  remaining_seed on_can resource zero (suc n) seed s = looping s
  remaining_seed on_can resource (suc rounds) (suc n) seed s =
      followed_by
        (λ reply s'.
          with_seed
            (λ part s''.
              remaining_seed on_can resource rounds (suc n - reply.length) (seed ++ part) s'')
            reply.seed s')
        (get_seed on_can 1 resource s)

  -- The loop that sends the key.
  unfoldable pub send_key : ℕ → ℕ → ℕ → List ℕ → UnlockSession S → Attempt S Unit
  unfolding unlock
  send_key max_payload rounds remaining [] s = gives tt s
  send_key max_payload zero remaining (k ∷ ks) s = looping s
  send_key max_payload (suc rounds) remaining (k ∷ ks) s =
      followed_by
        (λ u s'.
          send_key max_payload rounds (remaining - length (take max_payload (k ∷ ks)))
            (drop max_payload (k ∷ ks)) s')
        (unlock remaining (take max_payload (k ∷ ks)) s)

  -- The result of the function or of the DLL; without a key the DLL did not acknowledge.
  abbrev pub use_key : ℕ → Option (List ℕ) → UnlockSession S → Attempt S Unit
  use_key max_payload none s = fails seed_n_key_error s
  use_key max_payload (some key) s = send_key max_payload (length key) (length key) key s

  -- The body of the loop over the resources, for one that is protected.
  unfoldable pub unlock_resource :
      (ℕ → List ℕ → Option (List ℕ)) → Bool → ℕ → ℕ → ℕ → UnlockSession S → Attempt S Unit
  unfolding get_seed remaining_seed send_key
  unlock_resource get_key on_can max_payload rounds resource s =
      followed_by
        (λ reply s1.
          with_seed
            (λ part s2.
              if reply.length == 0
              then gives tt s2
              else followed_by (λ seed s3. use_key max_payload (get_key resource seed) s3)
                  (if ltb max_payload reply.length
                    then remaining_seed on_can resource rounds (reply.length - length part) part s2
                    else gives part s2))
            reply.seed s1)
        (get_seed on_can 0 resource s)
