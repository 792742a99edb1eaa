-- ===== src/Master/Download/Slave/Packets.antt =====
-- The packets of one block are accepted and written (pyxcp/master/master.py: _block_downloader).
use pyxcp.Prelude.{
  ℕ, zero, suc, ◌+◌, ◌-◌, ◌*◌, ◌≤◌, ◌<◌, ◌≡◌, refl, sym, ap, ◌∙◌, inl, inr, true, false, some, List,
  [], ◌∷◌, ◌++◌, append_assoc, append-nil, length, length-take, length-drop, take, drop, drop-drop,
  take-add, take_all, take-append-drop, ◌==◌, ==_iff, Bool-cases, if◌then◌else◌, arith,
}
use pyxcp.Master.Download.{
  Request, Kind, dl_func, dl_next_func, sends, full_packet, full_packets, partial_packet,
  partial_packets,
}
use pyxcp.Master.Download.Slave.{State, step}
use pyxcp.Prelude.Runs.{run, run-first}
use pyxcp.Master.Download.Slave.Steps.{at, step-dl_func, step-dl_next_func, run-sends}

pub nil-of_length : (xs w : List ℕ) → length xs ≡ 0 → w ++ xs ≡ w
nil-of_length [] w e = append-nil w
nil-of_length (x ∷ xs) w e = absurd (omega arith)

pos_of_ne : (n : ℕ) → (n == 0) ≡ false → 0 < n
pos_of_ne zero e = absurd (cc e)
pos_of_ne (suc n) e = omega arith

pub at-eq : (s : State) (v w : List ℕ) (k n : ℕ) → v ≡ w → k ≡ n → some (at s v k) ≡ some (at s w n)
at-eq s v w k n e f = ap (λ x. some (at s x k)) e ∙ ap (λ x. some (at s w x)) f

-- What the first packet and the packets after it write is written in one go.
pub take-suc :
    (m k offset : ℕ) (w bytes : List ℕ)
    → (w ++ take m (drop offset bytes)) ++ take (k * m) (drop (offset + m) bytes)
      ≡ w ++ take (suc k * m) (drop offset bytes)
take-suc m k offset w bytes =
    let more : m + k * m ≡ suc k * m = grind arith in
    let xs = drop offset bytes in
    append_assoc w (take m xs) (take (k * m) (drop (offset + m) bytes))
    ∙ ap (λ ys. w ++ (take m xs ++ take (k * m) ys)) (sym (drop-drop m offset bytes))
    ∙ ap (λ ys. w ++ ys) (sym (take-add m (k * m) xs))
    ∙ ap (λ n. w ++ take n xs) more

module _ (kind : Kind) (m : ℕ) (bytes : List ℕ) (positive : 0 < m) (s : State) where
  -- The packets after the first, as long as they are full.
  full_packets-later :
      (rounds i offset rest : ℕ) (w : List ℕ)
      → length (drop offset bytes) ≡ rest
      → rounds * m ≤ rest
      → run step (sends (full_packets kind m bytes rounds (suc i) offset rest)) (at s w rest)
        ≡ some (at s (w ++ take (rounds * m) (drop offset bytes)) (rest - rounds * m))
  unfolding full_packets full_packet run
  full_packets-later zero i offset rest w e h =
      let none_left : 0 ≡ 0 * m = omega arith in
      at-eq s w _ rest _ (sym (append-nil w) ∙ ap (λ n. w ++ take n (drop offset bytes)) none_left)
        (omega arith)
  full_packets-later (suc k) i offset rest w e h =
      let more : suc k * m ≡ m + k * m = grind arith in
      let p = take m (drop offset bytes) in
      let len : length p ≡ m = omega (arith, length-take m (drop offset bytes), h, more, e) in
      let last : (rest - m == 0) ≡ (rest - length p == 0) = ap (λ n. rest - n == 0) (sym len) in
      let left : length (drop (offset + m) bytes) ≡ rest - m =
        ap length (sym (drop-drop m offset bytes))
        ∙ length-drop m (drop offset bytes)
        ∙ ap (λ n. n - m) e in
      run-first step _ _ _ _ (
        step-dl_next_func kind s w p rest _ (omega (arith, h, more)) (omega (arith, len, h, more))
          last)
      ∙ ap
          (λ n.
            run step (sends (full_packets kind m bytes k (suc (suc i)) (offset + m) (rest - m)))
              (at s (w ++ p) (rest - n)))
          len
      ∙ full_packets-later k (suc i) (offset + m) (rest - m) (w ++ p) left (omega (arith, h, more))
      ∙ at-eq s _ _ _ _ (take-suc m k offset w bytes) (omega (arith, more))

  -- The packet for the rest of a block, after `packets` full ones.
  partial_packets-none : (packets : ℕ) → partial_packets kind m bytes packets 0 ≡ []
  unfolding partial_packets
  partial_packets-none packets = refl

  partial_packets-one :
      (n : ℕ)
      → (n == 0) ≡ false
      → length bytes ≡ n
      → partial_packets kind m bytes 0 n ≡ dl_func kind bytes n true ∷ []
  unfolding partial_packets partial_packet
  partial_packets-one n e l =
      let start : 0 * m ≡ 0 = omega arith in
      let whole : take n (drop (0 * m) bytes) ≡ bytes =
        ap (λ k. take n (drop k bytes)) start ∙ take_all n bytes (omega (arith, l)) in
      rw (e, if◌then◌else◌) (ap (λ xs. dl_func kind xs n true ∷ []) whole)

  partial_packets-later :
      (k n : ℕ)
      → (n == 0) ≡ false
      → length (drop (suc (suc k) * m) bytes) ≡ n
      → partial_packets kind m bytes (suc (suc k)) n
        ≡ dl_next_func kind (drop (suc (suc k) * m) bytes) n true ∷ []
  unfolding partial_packets partial_packet
  partial_packets-later k n e l =
      let index : suc (suc k) - 1 ≡ suc k = omega arith in
      let whole = take_all n (drop (suc (suc k) * m) bytes) (omega (arith, l)) in
      rw (e, if◌then◌else◌, index) (ap (λ xs. dl_next_func kind xs n true ∷ []) whole)

  partial-first :
      (n : ℕ) (w : List ℕ)
      → length bytes ≡ n
      → run step (sends (partial_packets kind m bytes 0 n)) (at s w 0) ≡ some (at s (w ++ bytes) 0)
  unfolding run
  partial-first n w l = elim (Bool-cases (n == 0)) [
    | inl e ↦
        let none_left : n ≡ 0 = (==_iff n 0).0 e in
        ap (λ k. run step (sends (partial_packets kind m bytes 0 k)) (at s w 0)) none_left
        ∙ ap (λ rs. run step (sends rs) (at s w 0)) (partial_packets-none 0)
        ∙ at-eq s _ _ 0 0 (sym (nil-of_length bytes w (l ∙ none_left))) refl
    | inr e ↦
        let last : true ≡ (n - length bytes == 0) = sym ((==_iff _ _).1 (omega (arith, l))) in
        ap (λ rs. run step (sends rs) (at s w 0)) (partial_packets-one n e l)
        ∙ run-first step _ [] _ _ (step-dl_func kind s w bytes n true (omega (arith, l)) last)
        ∙ at-eq s _ _ _ 0 refl (omega (arith, l))
  ]

  partial-later :
      (k n : ℕ) (w : List ℕ)
      → length (drop (suc (suc k) * m) bytes) ≡ n
      → run step (sends (partial_packets kind m bytes (suc (suc k)) n)) (at s w n)
        ≡ some (at s (w ++ drop (suc (suc k) * m) bytes) 0)
  unfolding run
  partial-later k n w l =
      let rest = drop (suc (suc k) * m) bytes in
      elim (Bool-cases (n == 0)) [
        | inl e ↦
            let none_left : n ≡ 0 = (==_iff n 0).0 e in
            ap (λ j. run step (sends (partial_packets kind m bytes (suc (suc k)) j)) (at s w n))
              none_left
            ∙ ap (λ rs. run step (sends rs) (at s w n)) (partial_packets-none (suc (suc k)))
            ∙ at-eq s _ _ _ 0 (sym (nil-of_length rest w (l ∙ none_left))) none_left
        | inr e ↦
            let last : true ≡ (n - length rest == 0) = sym ((==_iff _ _).1 (omega (arith, l))) in
            ap (λ rs. run step (sends rs) (at s w n)) (partial_packets-later k n e l)
            ∙ run-first step _ [] _ _
                (step-dl_next_func kind s w rest n true (pos_of_ne n e) (omega (arith, l)) last)
            ∙ at-eq s _ _ _ 0 refl (omega (arith, l))
      ]

  first_packet :
      (w : List ℕ)
      → m ≤ length bytes
      → (rs : List Request)
      → run step (sends (full_packet kind m bytes 0 0 (length bytes) ∷ rs)) (at s w 0)
        ≡ run step (sends rs) (at s (w ++ take m bytes) (length bytes - m))
  unfolding full_packet
  first_packet w h rs =
      let len : length (take m bytes) ≡ m = omega (arith, length-take m bytes) in
      let last : (length bytes - m == 0) ≡ (length bytes - length (take m bytes) == 0) =
        ap (λ n. length bytes - n == 0) (sym len) in
      run-first step _ _ _ _
        (step-dl_func kind s w (take m bytes) (length bytes) _ (omega (arith, len)) last)
      ∙ ap (λ n. run step (sends rs) (at s (w ++ take m bytes) (length bytes - n))) len

  -- The packets of a block whose length is `packets * m + remaining`.
  pub packets-run :
      (packets remaining : ℕ) (w : List ℕ)
      → length bytes ≡ packets * m + remaining
      → (packets ≡ 1 → remaining ≡ 0)
      → run step
          (sends (
            full_packets kind m bytes packets 0 0 (length bytes)
            ++ partial_packets kind m bytes packets remaining))
          (at s w 0)
        ≡ some (at s (w ++ bytes) 0)
  unfolding full_packets run
  packets-run zero remaining w e h = partial-first remaining w (omega (arith, e))
  packets-run (suc zero) remaining w e h =
      let none_left : remaining ≡ 0 = h refl in
      let single : 1 * m ≡ m = omega arith in
      let len : length bytes ≡ m = omega (arith, e, none_left, single) in
      first_packet w (omega (arith, len)) (partial_packets kind m bytes 1 remaining)
      ∙ ap
          (λ k.
            run step (sends (partial_packets kind m bytes 1 k))
              (at s (w ++ take m bytes) (length bytes - m)))
          none_left
      ∙ ap (λ rs. run step (sends rs) (at s (w ++ take m bytes) (length bytes - m)))
          (partial_packets-none 1)
      ∙ at-eq s _ _ _ 0 (ap (λ xs. w ++ xs) (take_all m bytes (omega (arith, len))))
          (omega (arith, len))
  packets-run (suc (suc k)) remaining w e h =
      let more : suc (suc k) * m ≡ m + suc k * m = grind arith in
      let long : m ≤ length bytes = omega (arith, e, more) in
      let w1 = w ++ take m bytes in
      let w2 = w1 ++ take (suc k * m) (drop (0 + m) bytes) in
      let n1 = length bytes - m in
      let left : length (drop (0 + m) bytes) ≡ n1 = length-drop (0 + m) bytes ∙ omega arith in
      let n2 : n1 - suc k * m ≡ remaining = omega (arith, e, more) in
      let rest : length (drop (suc (suc k) * m) bytes) ≡ remaining =
        length-drop (suc (suc k) * m) bytes ∙ omega (arith, e) in
      first_packet w long (
        full_packets kind m bytes (suc k) 1 (0 + m) n1
        ++ partial_packets kind m bytes (suc (suc k)) remaining)
      ∙ run-sends (full_packets kind m bytes (suc k) 1 (0 + m) n1) _ _ _
          (full_packets-later (suc k) 0 (0 + m) n1 w1 left (omega (arith, e, more)))
      ∙ ap
          (λ n. run step (sends (partial_packets kind m bytes (suc (suc k)) remaining)) (at s w2 n))
          n2
      ∙ partial-later k remaining w2 rest
      ∙ at-eq s _ _ 0 0
          (ap (λ ys. ys ++ drop (suc (suc k) * m) bytes) (take-suc m (suc k) 0 w bytes)
            ∙ append_assoc w _ _
            ∙ ap (λ ys. w ++ ys) (take-append-drop (suc (suc k) * m) bytes))
          refl
