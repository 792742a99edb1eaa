-- ===== src/Master/Unlock/KeyParts.antt =====
-- The key reaches the slave (pyxcp/master/master.py: cond_unlock, the loop that sends it).
use pyxcp.Prelude.{
  ℕ, zero, suc, ◌-◌, ◌≤◌, ◌≡◌, refl, sym, ap, ◌∙◌, true, false, All, le→not_ltb, ◌&&◌, none, some,
  List, [], ◌∷◌, ◌++◌, append_assoc, append-nil, length, length-take, length-drop, take, drop,
  take-append-drop, leb, le→leb, ◌==◌, ==_refl, if◌then◌else◌, arith,
}
use pyxcp.Master.Unlock.{
  Protection, UnlockSession, Attempt, gives, terminated, followed_by, any_large, status_set, unlock,
  send_key,
}
use pyxcp.Master.Unlock.Slave.{SeedSlave, announced, take_key, seed_slave}

-- Numbers that fit a byte.
abbrev pub AreBytes : List ℕ → Type 0
AreBytes xs = All (λ b. b ≤ 255) xs

any_large-AreBytes : (xs : List ℕ) → AreBytes xs → any_large xs ≡ false
unfolding any_large
any_large-AreBytes [] a = refl
any_large-AreBytes (x ∷ xs) a = rw (le→not_ltb 255 x a.0, any_large-AreBytes xs a.1) refl

take-AreBytes : (n : ℕ) (xs : List ℕ) → AreBytes xs → AreBytes (take n xs)
take-AreBytes zero xs a = tt
take-AreBytes (suc n) [] a = tt
take-AreBytes (suc n) (x ∷ xs) a = (a.0, take-AreBytes n xs a.1)

drop-AreBytes : (n : ℕ) (xs : List ℕ) → AreBytes xs → AreBytes (drop n xs)
drop-AreBytes zero xs a = a
drop-AreBytes (suc n) [] a = tt
drop-AreBytes (suc n) (x ∷ xs) a = drop-AreBytes n xs a.1

module _ (seed : List ℕ) (max_payload : ℕ) (status : Protection) where
  -- The session after a part of the key.
  abbrev part_taken : ℕ → List ℕ → UnlockSession SeedSlave → UnlockSession SeedSlave
  part_taken remaining key s = record {
    current_protection_status = some status;
    slave = record {
      left = s.slave.left;
      awaited = some (remaining - length key);
      received = s.slave.received ++ key;
    };
  }

  unlock-part :
      (remaining : ℕ) (key : List ℕ) (s : UnlockSession SeedSlave)
      → announced remaining s.slave.awaited ≡ remaining
      → length key ≤ max_payload
      → length key ≤ remaining
      → AreBytes (remaining ∷ key)
      → unlock (seed_slave seed max_payload status) remaining key s
        ≡ gives tt (part_taken remaining key s)
  unfolding unlock
  unlock-part remaining key s e h k bytes =
      let c : ((remaining == announced remaining s.slave.awaited)
            && (leb (length key) max_payload && leb (length key) remaining))
          ≡ true =
        rw
          (e, ==_refl remaining, le→leb (length key) max_payload h, le→leb (length key) remaining k)
          refl in
      ap
        (λ b.
          if b
          then terminated s
          else status_set (seed_slave seed max_payload status)
              (take_key seed max_payload status remaining key s.slave) s)
        (any_large-AreBytes (remaining ∷ key) bytes)
      ∙ ap
          (λ b.
            status_set (seed_slave seed max_payload status)
              (if b
                then (
                  some status,
                  record {
                    left = s.slave.left;
                    awaited = some (remaining - length key);
                    received = s.slave.received ++ key;
                  },
                )
                else (none, s.slave))
              s)
          c

  -- All of a key arrives in its order, and the slave waits for no more of it.
  abbrev pub Arrived : UnlockSession SeedSlave → List ℕ → Attempt SeedSlave Unit → Type 0
  Arrived s key o =
      (s' : UnlockSession SeedSlave) × (o ≡ gives tt s')
      × (s'.slave.received ≡ s.slave.received ++ key)
      × (announced 0 s'.slave.awaited ≡ 0)

  pub send_key-Arrived :
      (rounds : ℕ) (key : List ℕ) (s : UnlockSession SeedSlave)
      → 1 ≤ max_payload
      → length key ≤ rounds
      → announced (length key) s.slave.awaited ≡ length key
      → length key ≤ 255
      → AreBytes key
      → Arrived s key
          (send_key (seed_slave seed max_payload status) max_payload rounds (length key) key s)
  unfolding send_key
  send_key-Arrived rounds [] s big enough e short bytes =
      (s, refl, sym (append-nil s.slave.received), e)
  send_key-Arrived zero (k ∷ ks) s big enough e short bytes =
      let no : ⊥ = omega arith in elim no [ ]
  send_key-Arrived (suc rounds) (k ∷ ks) s big enough e short bytes =
      let key = k ∷ ks in
      let t = take max_payload key in
      let d = drop max_payload key in
      let lt = length-take max_payload key in
      let ld = length-drop max_payload key in
      let s1 = part_taken (length key) t s in
      let n : length key - length t ≡ length d = omega (arith, lt, ld) in
      let rest =
        send_key-Arrived rounds d s1 big (omega (arith, ld)) n (omega (arith, ld, short))
          (drop-AreBytes max_payload key bytes) in
      (
        rest.0,
        ap
              (followed_by (λ u s'.
                send_key (seed_slave seed max_payload status) max_payload rounds
                  (length key - length t) d s'))
              (unlock-part (length key) t s e (omega (arith, lt)) (omega (arith, lt))
                (short, take-AreBytes max_payload key bytes))
            ∙ ap (λ m. send_key (seed_slave seed max_payload status) max_payload rounds m d s1) n
            ∙ rest.1,
        rest.2
            ∙ append_assoc s.slave.received t d
            ∙ ap (λ xs. s.slave.received ++ xs) (take-append-drop max_payload key),
        rest.3,
      )
