-- ===== src/Master/Unlock/SeedParts.antt =====
-- The seed that is collected (pyxcp/master/master.py: getSeed and its loop in cond_unlock).
use pyxcp.Prelude.{
  ℕ, zero, suc, ◌+◌, ◌-◌, ◌*◌, ◌≤◌, ◌≡◌, refl, sym, ap, ◌∙◌, inl, inr, true, Bool-cases, Option,
  none, some, List, [], ◌++◌, length, length-take, length-drop, take, drop, take-add, take_all, ltb,
  le→not_ltb, ltb→lt, not_ltb→le, if◌then◌else◌, arith,
}
use pyxcp.Master.Unlock.{
  Protection, GetSeedResponse, UnlockSession, Attempt, gives, followed_by, with_seed, get_seed,
  remaining_seed,
}
use pyxcp.Master.Unlock.Slave.{SeedSlave, seed_slave}

module _ (seed : List ℕ) (max_payload : ℕ) (status : Protection) where
  -- A part of the seed is taken as it comes.
  part-kept :
      (xs : List ℕ)
      → (if ltb (length xs) (length (take max_payload xs))
          then take (length xs) (take max_payload xs)
          else take max_payload xs)
        ≡ take max_payload xs
  part-kept xs =
      rw
        (
          le→not_ltb (length xs) (length (take max_payload xs))
              (omega (arith, length-take max_payload xs)),
          if◌then◌else◌,
        )
        refl

  abbrev pub reply : List ℕ → GetSeedResponse
  reply xs = record { length = length xs; seed = some (take max_payload xs) }

  -- The slave after the first part, and after another one.
  abbrev pub first_asked : SeedSlave
  first_asked = record { left = drop max_payload seed; awaited = none; received = [] }

  abbrev pub session : Option Protection → SeedSlave → UnlockSession SeedSlave
  session known w = record { current_protection_status = known; slave = w }

  pub get_seed-first :
      (resource : ℕ) (s : UnlockSession SeedSlave)
      → get_seed (seed_slave seed max_payload status) true 0 resource s
        ≡ gives (reply seed) (session s.current_protection_status first_asked)
  unfolding get_seed
  get_seed-first resource s =
      ap
        (λ part.
          gives (record { length = length seed; seed = some part })
            (session s.current_protection_status first_asked))
        (part-kept seed)

  second_asked : SeedSlave
  second_asked = record {
    left = drop max_payload (drop max_payload seed);
    awaited = none;
    received = [];
  }

  get_seed-second :
      (resource : ℕ) (known : Option Protection)
      → get_seed (seed_slave seed max_payload status) true 1 resource (session known first_asked)
        ≡ gives (reply (drop max_payload seed)) (session known second_asked)
  unfolding get_seed second_asked
  get_seed-second resource known =
      ap
        (λ part.
          gives (record { length = length (drop max_payload seed); seed = some part })
            (session known second_asked))
        (part-kept (drop max_payload seed))

  remaining_seed-once :
      (resource rounds n : ℕ) (known : Option Protection)
      → n ≡ length (drop max_payload seed)
      → 1 ≤ n
      → remaining_seed
          (seed_slave seed max_payload status)
          true
          resource
          (suc rounds)
          n
          (take max_payload seed)
          (session known first_asked)
        ≡ gives (take (2 * max_payload) seed) (session known second_asked)
  unfolding remaining_seed
  remaining_seed-once resource rounds zero known e h = let no : ⊥ = omega arith in elim no [ ]
  remaining_seed-once resource rounds (suc n) known e h =
      let requests = seed_slave seed max_payload status in
      let next = λ (r : GetSeedResponse) (s' : UnlockSession SeedSlave).
        with_seed requests
          (λ part s''.
            remaining_seed requests true resource rounds (suc n - r.length)
              (take max_payload seed ++ part) s'')
          r.seed s' in
      let over : suc n - length (drop max_payload seed) ≡ 0 = omega (arith, e) in
      let twice : max_payload + max_payload ≡ 2 * max_payload = omega arith in
      ap (followed_by next) (get_seed-second resource known)
      ∙ ap
          (λ m.
            remaining_seed requests true resource rounds m
              (take max_payload seed ++ take max_payload (drop max_payload seed))
              (session known second_asked))
          over
      ∙ ap (λ xs. gives xs (session known second_asked))
          (sym (take-add max_payload max_payload seed))
      ∙ ap (λ m. gives (take m seed) (session known second_asked)) twice

  abbrev pub Collected : Option Protection → Attempt SeedSlave (List ℕ) → Type 0
  Collected known o =
      (w : SeedSlave) × (o ≡ gives (take (2 * max_payload) seed) (session known w))
      × (w.awaited ≡ none)
      × (w.received ≡ [])

  pub remaining_seed-Collected :
      (resource rounds : ℕ) (known : Option Protection)
      → Collected known (
          if ltb max_payload (length seed)
          then remaining_seed
              (seed_slave seed max_payload status)
              true
              resource
              (suc rounds)
              (length seed - length (take max_payload seed))
              (take max_payload seed)
              (session known first_asked)
          else gives (take max_payload seed) (session known first_asked))
  unfolding second_asked
  remaining_seed-Collected resource rounds known =
      elim (Bool-cases (ltb max_payload (length seed))) [
        | inl e ↦
            let p = ltb→lt max_payload (length seed) e in
            let n : length seed - length (take max_payload seed) ≡ length (drop max_payload seed) =
              omega (arith, length-take max_payload seed, length-drop max_payload seed) in
            rw (e, if◌then◌else◌)
              (
                second_asked,
                remaining_seed-once resource rounds (length seed - length (take max_payload seed))
                    known n (omega (arith, p, length-take max_payload seed)),
                refl,
                refl,
              )
        | inr e ↦
            let p = not_ltb→le max_payload (length seed) e in
            rw (e, if◌then◌else◌)
              (
                first_asked,
                ap (λ xs. gives xs (session known first_asked))
                    (take_all max_payload seed p
                      ∙ sym (take_all (2 * max_payload) seed (omega arith))),
                refl,
                refl,
              )
      ]
