-- ===== src/Master/Download/Slave/Reopened.antt =====
-- The blocks that are sent wrong (pyxcp/master/master.py: _block_downloader).
use pyxcp.Prelude.{
  ℕ, zero, suc, ◌+◌, ◌-◌, ◌*◌, ◌/◌, ◌%◌, ◌<◌, ◌≡◌, refl, sym, ap, ◌∙◌, inl, inr, true, false, none,
  List, [], ◌∷◌, ◌++◌, length, length-take, length-drop, take, drop, take_all, ◌==◌, ==_iff,
  Bool-cases, if◌then◌else◌, arith,
}
use pyxcp.Master.Download.{
  Kind, downloading, programming, dl_func, download, program, send, sends, full_packet,
  full_packets, partial_packet, partial_packets, block_downloader,
}
use pyxcp.Master.Download.Slave.{State, expected, accept_packet, step}
use pyxcp.Prelude.Runs.{run, go_on, run-first}
use native.Mathlib.Nat.{div-add-mod', mod-lt}
use native.Mathlib.Nat.{div-add-mod', mod-lt}
use pyxcp.Master.Download.Slave.Steps.{at, step-dl_func}

quotient_one : (n m r len : ℕ) → len ≡ n * m + r → r < m → m < len → len < m + m → n ≡ 1
quotient_one zero m r len e h k l = absurd (omega (arith, e))
quotient_one (suc zero) m r len e h k l = refl
quotient_one (suc (suc n)) m r len e h k l =
    let more : suc (suc n) * m ≡ m + (m + n * m) = grind arith in absurd (omega (arith, e, more))

ne_of_pos : (n : ℕ) → 0 < n → (n == 0) ≡ false
ne_of_pos zero h = absurd (omega arith)
ne_of_pos (suc n) h = elim (Bool-cases (suc n == 0)) [
  | inl e ↦ absurd (omega (arith, (==_iff (suc n) 0).0 e))
  | inr e ↦ e
]

module _ (kind : Kind) (m : ℕ) (bytes : List ℕ) (longer : m < length bytes) where
  abbrev rest : ℕ
  rest = length bytes - m

  one_and_rest :
      full_packets kind m bytes 1 0 0 (length bytes) ++ partial_packets kind m bytes 1 rest
      ≡ dl_func kind (take m bytes) (length bytes) false
        ∷ dl_func kind (drop m bytes) rest true
        ∷ []
  unfolding full_packets full_packet partial_packets partial_packet
  one_and_rest =
      let ne : (rest == 0) ≡ false = ne_of_pos rest (omega (arith, longer)) in
      let start : 1 * m ≡ m = omega arith in
      let whole : take rest (drop (1 * m) bytes) ≡ drop m bytes =
        ap (λ k. take rest (drop k bytes)) start
        ∙ take_all rest (drop m bytes) (omega (arith, length-drop m bytes)) in
      rw (ne, if◌then◌else◌)
        (ap
          (λ xs. dl_func kind (take m bytes) (length bytes) false ∷ dl_func kind xs rest true ∷ [])
          whole)

  -- A block that ends in its second packet without filling it: both packets open a block.
  block_downloader-two :
      length bytes < m + m
      → block_downloader kind m bytes
        ≡ dl_func kind (take m bytes) (length bytes) false
          ∷ dl_func kind (drop m bytes) rest true
          ∷ []
  unfolding block_downloader
  block_downloader-two k =
      let n = length bytes / m in
      let r = length bytes % m in
      let e : length bytes ≡ n * m + r = sym (div-add-mod' (length bytes) m) in
      let one : n ≡ 1 =
        quotient_one n m r (length bytes) e (mod-lt (length bytes) (omega arith)) longer k in
      let single : n * m ≡ m = ap (λ i. i * m) one ∙ omega arith in
      ap (λ i. full_packets kind m bytes i 0 0 (length bytes) ++ partial_packets kind m bytes i r)
        one
      ∙ ap (λ i. full_packets kind m bytes 1 0 0 (length bytes) ++ partial_packets kind m bytes 1 i)
          (omega (arith, e, single))
      ∙ one_and_rest

opened_twice :
    (kind : Kind) (p : List ℕ) (n k : ℕ) (s : State) (w : List ℕ)
    → 0 < n
    → step (send (dl_func kind p k true)) (at s w n) ≡ none
unfolding step expected accept_packet dl_func download program
opened_twice downloading p n k s w o = rw (ne_of_pos n o, if◌then◌else◌)
opened_twice programming p n k s w o = rw (ne_of_pos n o, if◌then◌else◌)

-- A block that is longer than one packet and shorter than two is refused by the slave, which
-- waits for the rest of the block and gets a command that opens another one.
pub block_downloader-refused :
    (kind : Kind) (m : ℕ) (bytes : List ℕ) (s : State) (w : List ℕ)
    → m < length bytes
    → length bytes < m + m
    → run step (sends (block_downloader kind m bytes)) (at s w 0) ≡ none
unfolding run
block_downloader-refused kind m bytes s w h k =
    let p = take m bytes in
    let len : length p ≡ m = omega (arith, length-take m bytes) in
    let last : false ≡ (length bytes - length p == 0) =
      sym (ne_of_pos (length bytes - length p) (omega (arith, len))) in
    ap (λ rs. run step (sends rs) (at s w 0)) (block_downloader-two kind m bytes h k)
    ∙ run-first step _ (send (dl_func kind (drop m bytes) (length bytes - m) true) ∷ []) _ _
        (step-dl_func kind s w p (length bytes) false (omega (arith, len)) last)
    ∙ ap (go_on (run step [])) (
        opened_twice kind (drop m bytes) (length bytes - length p) (length bytes - m) s (w ++ p)
          (omega (arith, len)))
