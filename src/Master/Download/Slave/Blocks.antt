-- ===== src/Master/Download/Slave/Blocks.antt =====
-- Blocks are accepted and written as a whole (pyxcp/master/master.py: _block_downloader,
-- _download_master_block_mode).
use mathlib.Core.Path.{subst}
use pyxcp.Prelude.{
  ℕ, zero, suc, ◌+◌, ◌-◌, ◌*◌, ◌/◌, ◌%◌, ◌≤◌, ◌<◌, ◌≡◌, refl, sym, ap, ◌∙◌, ◌⊎◌, inl, inr, some,
  List, [], ◌++◌, append_assoc, append-nil, length, length-take, length-drop, take, drop, drop-drop,
  take_all, take-append-drop, ◌==◌, ==_iff, Bool-cases, if◌then◌else◌, arith,
}
use pyxcp.Master.Download.{Kind, sends, block_downloader}
use pyxcp.Master.Download.Slave.{State, step}
use pyxcp.Prelude.Runs.{run}
use native.Mathlib.Nat.{div-add-mod', mod-lt}
use pyxcp.Master.Download.{full_blocks, master_block_mode}
use pyxcp.Master.Download.Slave.Steps.{at, run-sends}
use pyxcp.Master.Download.Slave.Packets.{take-suc, at-eq, nil-of_length, packets-run}

-- The lengths of the blocks that are sent well: one packet, or at least two full ones.
abbrev pub Cuts : ℕ → ℕ → Type 0
Cuts m n = (n ≤ m) ⊎ (m + m ≤ n)

single_packet : (m n r : ℕ) → n ≡ 1 * m + r → r < m → Cuts m n → r ≡ 0
single_packet m n r e h (inl c) = omega (arith, e)
single_packet m n r e h (inr c) = absurd (omega (arith, e))

-- A block is accepted and written, and its response is read.
pub block_downloader-run :
    (kind : Kind) (m : ℕ) (bytes : List ℕ) (s : State) (w : List ℕ)
    → 0 < m
    → Cuts m (length bytes)
    → run step (sends (block_downloader kind m bytes)) (at s w 0) ≡ some (at s (w ++ bytes) 0)
unfolding block_downloader
block_downloader-run kind m bytes s w o c =
    let e : length bytes ≡ length bytes / m * m + length bytes % m =
      sym (div-add-mod' (length bytes) m) in
    packets-run kind m bytes o s (length bytes / m) (length bytes % m) w e (λ one.
      single_packet m (length bytes) (length bytes % m) (e ∙ ap (λ n. n * m + length bytes % m) one)
        (mod-lt (length bytes) o) c)

module _ (kind : Kind) (m k : ℕ) (bytes : List ℕ) (positive : 0 < m) (cuts : Cuts m k)
    (s : State) where
  full_blocks-run :
      (rounds offset : ℕ) (w : List ℕ)
      → rounds * k ≤ length (drop offset bytes)
      → run step (sends (full_blocks kind m k bytes rounds offset)) (at s w 0)
        ≡ some (at s (w ++ take (rounds * k) (drop offset bytes)) 0)
  unfolding full_blocks run
  full_blocks-run zero offset w h =
      let none_left : 0 ≡ 0 * k = omega arith in
      at-eq s w _ 0 0 (sym (append-nil w) ∙ ap (λ n. w ++ take n (drop offset bytes)) none_left)
        refl
  full_blocks-run (suc rounds) offset w h =
      let more : suc rounds * k ≡ k + rounds * k = grind arith in
      let block = take k (drop offset bytes) in
      let len : length block ≡ k = omega (arith, length-take k (drop offset bytes), h, more) in
      let left : length (drop (offset + k) bytes) ≡ length (drop offset bytes) - k =
        ap length (sym (drop-drop k offset bytes)) ∙ length-drop k (drop offset bytes) in
      let c : Cuts m (length block) = subst (Cuts m) (sym len) cuts in
      run-sends (block_downloader kind m block) _ _ _
        (block_downloader-run kind m block s w positive c)
      ∙ full_blocks-run rounds (offset + k) (w ++ block) (omega (arith, left, h, more))
      ∙ at-eq s _ _ 0 0 (take-suc k rounds offset w bytes) refl

  -- The last block, if one is left.
  last_block-run :
      (r : ℕ) (rest w : List ℕ)
      → length rest ≡ r
      → Cuts m r
      → run step (sends (if r == 0 then [] else block_downloader kind m rest)) (at s w 0)
        ≡ some (at s (w ++ rest) 0)
  unfolding run
  last_block-run r rest w l c = elim (Bool-cases (r == 0)) [
    | inl e ↦
        rw (e, if◌then◌else◌)
          (at-eq s _ _ 0 0 (sym (nil-of_length rest w (l ∙ (==_iff r 0).0 e))) refl)
    | inr e ↦
        rw (e, if◌then◌else◌)
          (block_downloader-run kind m rest s w positive (subst (Cuts m) (sym l) c))
  ]

  -- The whole transfer in master block mode.
  pub master_block_mode-run :
      (w : List ℕ)
      → 0 < k
      → Cuts m (length bytes % k)
      → run step (sends (master_block_mode kind m k bytes)) (at s w 0) ≡ some (at s (w ++ bytes) 0)
  unfolding master_block_mode
  master_block_mode-run w o c =
      let n = length bytes / k in
      let r = length bytes % k in
      let e : length bytes ≡ n * k + r = sym (div-add-mod' (length bytes) k) in
      let rest = drop (n * k) bytes in
      let len : length rest ≡ r = length-drop (n * k) bytes ∙ omega (arith, e) in
      let all : take r rest ≡ rest = take_all r rest (omega (arith, len)) in
      run-sends (full_blocks kind m k bytes n 0) _ _ _ (full_blocks-run n 0 w (omega (arith, e)))
      ∙ last_block-run r (take r rest) (w ++ take (n * k) bytes) (ap length all ∙ len) c
      ∙ at-eq s _ _ 0 0
          (ap (λ ys. (w ++ take (n * k) bytes) ++ ys) all
            ∙ append_assoc w _ _
            ∙ ap (λ ys. w ++ ys) (take-append-drop (n * k) bytes))
          refl
