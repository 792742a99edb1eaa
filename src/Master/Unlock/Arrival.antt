-- ===== src/Master/Unlock/Arrival.antt =====
-- From the first request to the key in the slave (pyxcp/master/master.py: cond_unlock).
use pyxcp.Prelude.{
  ℕ, suc, ◌-◌, ◌*◌, ◌≤◌, ◌≡◌, refl, sym, ap, ◌∙◌, Bool, true, false, ◌&&◌, Option, some, List, [],
  ◌∷◌, ◌++◌, length, take, ltb, ◌==◌, ne→not_==, if◌then◌else◌, arith,
}
use pyxcp.Master.Unlock.{
  Resource, is_protected, resource_value, any_protected, fails, runtime_error, Protection,
  GetSeedResponse, UnlockSession, gives, followed_by, with_seed, remaining_seed, use_key,
  unlock_resource,
}
use pyxcp.Master.Unlock.Conditional.{
  known_status, get_current_protection_status, unlock_names, unlock_one, is_missing, cond_unlock,
}
use pyxcp.Master.Unlock.Slave.{SeedSlave, announced, seed_slave}
use pyxcp.Master.Unlock.KeyParts.{AreBytes, Arrived, send_key-Arrived}
use pyxcp.Master.Unlock.SeedParts.{first_asked, session, remaining_seed-Collected, get_seed-first}

and-false : (b : Bool) → (b && false) ≡ false
and-false true = refl
and-false false = refl

module _ (seed : List ℕ) (max_payload : ℕ) (status : Protection) where
  unlock_resource-Arrived :
      (get_key : ℕ → List ℕ → Option (List ℕ)) (resource rounds : ℕ) (s : UnlockSession SeedSlave)
      (key : List ℕ)
      → 1 ≤ max_payload
      → 1 ≤ length seed
      → get_key resource (take (2 * max_payload) seed) ≡ some key
      → length key ≤ 255
      → AreBytes key
      → Arrived seed max_payload status
          (session seed max_payload status s.current_protection_status
            (first_asked seed max_payload status))
          key
          (unlock_resource
            (seed_slave seed max_payload status)
            get_key
            true
            max_payload
            (suc rounds)
            resource
            s)
  unfolding unlock_resource
  unlock_resource-Arrived get_key resource rounds s key big some_seed k short bytes =
      let requests = seed_slave seed max_payload status in
      let known = s.current_protection_status in
      let col = remaining_seed-Collected seed max_payload status resource rounds known in
      let send = λ (xs : List ℕ) (s3 : UnlockSession SeedSlave).
        use_key requests max_payload (get_key resource xs) s3 in
      let seed_of = λ (n : ℕ) (part : List ℕ) (s2 : UnlockSession SeedSlave).
        if ltb max_payload n
        then remaining_seed requests true resource (suc rounds) (n - length part) part s2
        else gives part s2 in
      let next = λ (r : GetSeedResponse) (s1 : UnlockSession SeedSlave).
        with_seed requests
          (λ part s2.
            if r.length == 0 then gives tt s2 else followed_by send (seed_of r.length part s2))
          r.seed s1 in
      let not_empty = ne→not_== (length seed) 0 (λ q. omega (arith, q)) in
      let sent =
        send_key-Arrived seed max_payload status (length key) key
          (session seed max_payload status known col.0) big (omega arith)
          (ap (announced (length key)) col.2) short bytes in
      (
        sent.0,
        ap (followed_by next) (get_seed-first seed max_payload status resource s)
            ∙ ap
                (λ b.
                  if b
                  then gives tt
                      (session seed max_payload status known (first_asked seed max_payload status))
                  else followed_by send (
                      seed_of (length seed) (take max_payload seed) (
                        session seed max_payload status known
                          (first_asked seed max_payload status))))
                not_empty
            ∙ ap (followed_by send) col.1
            ∙ ap (λ o. use_key requests max_payload o (session seed max_payload status known col.0))
                k
            ∙ sent.1,
        sent.2 ∙ ap (λ xs. xs ++ key) col.3,
        sent.3,
      )

  -- A slave with a protected resource, of which the status is known and which is asked for over CAN,
  -- gets the complete key that the function makes from the first two parts of the seed. That is
  -- the whole seed when it fits two packets; of a longer one the rest is left out. Required are a
  -- seed of 1 to 255 bytes, room for a byte in a packet behind its first two, and a function that
  -- gives a key of at most 255 bytes: the lengths of both are sent as one byte.
  pub cond_unlock-Arrived :
      (get_key : ℕ → List ℕ → Option (List ℕ)) (max_cto rounds : ℕ) (r : Resource) (p : Protection)
      (s : UnlockSession SeedSlave) (key : List ℕ)
      → max_payload ≡ max_cto - 2
      → 1 ≤ max_payload
      → 1 ≤ length seed
      → s.current_protection_status ≡ some p
      → is_protected p r ≡ true
      → length seed ≤ 255
      → get_key (resource_value r) (take (2 * max_payload) seed) ≡ some key
      → length key ≤ 255
      → AreBytes key
      → Arrived seed max_payload status
          (session seed max_payload status s.current_protection_status
            (first_asked seed max_payload status))
          key
          (cond_unlock
            (seed_slave seed max_payload status)
            (some get_key)
            true
            max_cto
            (suc rounds)
            (some r ∷ [])
            s)
  unfolding cond_unlock get_current_protection_status unlock_names
  cond_unlock-Arrived get_key max_cto rounds r p s key m big some_seed known protected _ k short
        bytes =
      let requests = seed_slave seed max_payload status in
      let one =
        unlock_resource-Arrived get_key (resource_value r) rounds s key big some_seed k short
          bytes in
      let unlock = unlock_one requests (some get_key) true in
      let finish = λ (u : Unit) (s' : UnlockSession SeedSlave). gives tt s' in
      let names = unlock_names requests (unlock (max_cto - 2) (suc rounds)) p (some r ∷ []) in
      let guarded = λ (q : Protection) (s' : UnlockSession SeedSlave).
        if any_protected q && is_missing requests (some get_key)
        then fails runtime_error s'
        else unlock_names requests (unlock (max_cto - 2) (suc rounds)) q (some r ∷ []) s' in
      (
        one.0,
        ap (λ o. followed_by guarded (known_status requests o s)) known
            ∙ ap (λ b. if b then fails runtime_error s else names s) (and-false (any_protected p))
            ∙ ap
                (λ b.
                  if b
                  then followed_by finish (unlock (max_cto - 2) (suc rounds) (resource_value r) s)
                  else gives tt s)
                protected
            ∙ ap (λ n. followed_by finish (unlock n (suc rounds) (resource_value r) s)) (sym m)
            ∙ ap (followed_by finish) one.1,
        one.2,
        one.3,
      )
