-- ===== src/Master/Unlock/Conditional.antt =====
-- Unlocking the resources that are locked (pyxcp/master/master.py: getCurrentProtectionStatus,
-- cond_unlock).
use pyxcp.Prelude.{
  ℕ, ◌-◌, Bool, true, false, ◌&&◌, Option, none, some, List, [], ◌∷◌, if◌then◌else◌,
}
use pyxcp.Master.Unlock.{
  Protection, Resource, resource_value, is_protected, unprotected, any_protected, Requests,
  UnlockSession, Attempt, gives, fails, runtime_error, value_error, daq, pgm, stim, calpag,
  followed_by, unlock_resource,
}

module _ {S : Type 0} (requests : Requests S) where
  abbrev pub status_from : UnlockSession S → Option Protection × S → Attempt S Protection
  status_from s (none, slave) = gives unprotected (record s { slave = slave })
  status_from s (some status, slave) =
      gives status (record { current_protection_status = some status; slave = slave })

  abbrev pub known_status : Option Protection → UnlockSession S → Attempt S Protection
  known_status (some status) s = gives status s
  known_status none s = status_from s (requests.get_status s.slave)

  -- `getCurrentProtectionStatus`
  unfoldable pub get_current_protection_status : UnlockSession S → Attempt S Protection
  get_current_protection_status s = known_status s.current_protection_status s

  -- The loop over the names, where none is a name that is not known.
  unfoldable pub unlock_names :
      (ℕ → UnlockSession S → Attempt S Unit)
      → Protection
      → List (Option Resource)
      → UnlockSession S
      → Attempt S Unit
  unlock_names unlock_one status [] s = gives tt s
  unlock_names unlock_one status (none ∷ names) s = fails value_error s
  unlock_names unlock_one status (some r ∷ names) s =
      let rest = unlock_names unlock_one status names in
      if is_protected status r
      then followed_by (λ u s'. rest s') (unlock_one (resource_value r) s)
      else rest s

  -- Without a function or DLL, when no resource is protected: nothing is called.
  abbrev pub unlock_one :
      Option (ℕ → List ℕ → Option (List ℕ)) → Bool → ℕ → ℕ → ℕ → UnlockSession S → Attempt S Unit
  unlock_one none on_can max_payload rounds resource s = gives tt s
  unlock_one (some get_key) on_can max_payload rounds resource s =
      unlock_resource requests get_key on_can max_payload rounds resource s

  abbrev pub is_missing : {A : Type 0} → Option A → Bool
  is_missing none = true
  is_missing (some a) = false

  -- `cond_unlock`, for given names; MAX_CTO is the greatest length of a packet.
  unfoldable pub cond_unlock :
      Option (ℕ → List ℕ → Option (List ℕ))
      → Bool
      → ℕ
      → ℕ
      → List (Option Resource)
      → UnlockSession S
      → Attempt S Unit
  unfolding get_current_protection_status unlock_names unlock_resource
  cond_unlock get_key on_can max_cto rounds names s =
      followed_by
        (λ status s'.
          if any_protected status && is_missing get_key
          then fails runtime_error s'
          else unlock_names (unlock_one get_key on_can (max_cto - 2) rounds) status names s')
        (get_current_protection_status s)

-- The names without an argument: every resource that is supported.
abbrev pub add_resource : Bool → Resource → List (Option Resource) → List (Option Resource)
add_resource supported r names = if supported then some r ∷ names else names

unfoldable pub all_resources : Bool → Bool → Bool → Bool → List (Option Resource)
all_resources supports_calpag supports_daq supports_stim supports_pgm =
    add_resource supports_calpag calpag (
      add_resource supports_daq daq
        (add_resource supports_stim stim (add_resource supports_pgm pgm [])))
