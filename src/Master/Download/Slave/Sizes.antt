-- ===== src/Master/Download/Slave/Sizes.antt =====
-- The sizes of the packets and blocks that push and flash_program send in master block mode
-- (pyxcp/master/master.py: _generalized_downloader): MAX_CTO, MAX_BS and the byte for the size.
use pyxcp.Prelude.{
  ℕ, zero, suc, ◌+◌, ◌-◌, ◌*◌, ◌/◌, ◌%◌, ◌≤◌, ◌<◌, ◌≡◌, Bool, true, false, List, [], ◌∷◌, ◌++◌, All,
  length, take, drop, length-take, length-drop, min, ◌==◌, Bool-cases, inl, inr, if◌then◌else◌,
  arith,
}
use pyxcp.Master.Download.{
  Kind, downloading, programming, Request, dl_func, dl_next_func, full_packet, full_packets,
  partial_packet, partial_packets, block_downloader, full_blocks, master_block_mode, Call, set_mta,
  send, sends, Limits, max_payload_of,
}

All-append : {A : Type 0} (P : A → Type 0) (xs ys : List A) → All P xs → All P ys → All P (xs ++ ys)
All-append P [] ys a b = b
All-append P (x ∷ xs) ys a b = (a.0, All-append P xs ys a.1 b)

-- A packet of at most `p` bytes that announces at most `q`.
abbrev pub Small : ℕ → ℕ → Request → Type 0
Small p q r = (length r.payload ≤ p) × (r.size ≤ q)

-- What a slave of these limits can take: the data fit behind the two bytes of the command and the
-- size, the size fits its byte, and MAX_BS packets hold what is announced.
abbrev pub OnWire : Limits → Call → Type 0
OnWire l (set_mta address ext) = Unit
OnWire l (send r) =
    (length r.payload ≤ l.max_cto - 2) × (r.size ≤ 255) × (r.size ≤ l.max_bs * (l.max_cto - 2))

module _ (kind : Kind) (p q : ℕ) where
  dl_func-Small :
      (bytes : List ℕ) (n : ℕ) (last : Bool)
      → length bytes ≤ p
      → length bytes ≤ q
      → n ≤ q
      → Small p q (dl_func kind bytes n last)
  unfolding dl_func pyxcp.Master.Download.download pyxcp.Master.Download.program
  dl_func-Small bytes n last a b c = by_kind kind last
    where
      by_kind : (k : Kind) (l : Bool) → Small p q (dl_func k bytes n l)
      by_kind downloading true = (a, b)
      by_kind downloading false = (a, c)
      by_kind programming l = (a, c)

  dl_next_func-Small :
      (bytes : List ℕ) (n : ℕ) (last : Bool)
      → length bytes ≤ p
      → n ≤ q
      → Small p q (dl_next_func kind bytes n last)
  unfolding dl_next_func pyxcp.Master.Download.download_next pyxcp.Master.Download.program_next
  dl_next_func-Small bytes n last a c = by_kind kind
    where
      by_kind : (k : Kind) → Small p q (dl_next_func k bytes n last)
      by_kind downloading = (a, c)
      by_kind programming = (a, c)

  module _ (bytes : List ℕ) (small : length bytes ≤ q) where
    cut :
        (n offset : ℕ)
        → (length (take n (drop offset bytes)) ≤ n) × (length (take n (drop offset bytes)) ≤ q)
    cut n offset =
        let e = length-take n (drop offset bytes) in
        let d = length-drop offset bytes in (omega (arith, e), omega (arith, e, d, small))

    full_packets-Small :
        (rounds index offset remaining : ℕ)
        → remaining ≤ q
        → All (Small p q) (full_packets kind p bytes rounds index offset remaining)
    unfolding full_packets full_packet
    full_packets-Small zero index offset remaining r = tt
    full_packets-Small (suc rounds) zero offset remaining r = (
      dl_func-Small _ _ _ (cut p offset).0 (cut p offset).1 small,
      full_packets-Small rounds 1 (offset + p) (remaining - p) (omega arith),
    )
    full_packets-Small (suc rounds) (suc i) offset remaining r = (
      dl_next_func-Small _ _ _ (cut p offset).0 r,
      full_packets-Small rounds (suc (suc i)) (offset + p) (remaining - p) (omega arith),
    )

    partial_packet-Small :
        (index offset n : ℕ)
        → n ≤ p
        → n ≤ q
        → Small p q (partial_packet kind p bytes index (take n (drop offset bytes)) n)
    unfolding partial_packet
    partial_packet-Small zero offset n a b =
        dl_func-Small _ n true (omega (arith, (cut n offset).0)) (cut n offset).1 b
    partial_packet-Small (suc i) offset n a b =
        dl_next_func-Small _ n true (omega (arith, (cut n offset).0)) b

    partial_packets-Small :
        (packets n : ℕ) → n ≤ p → n ≤ q → All (Small p q) (partial_packets kind p bytes packets n)
    unfolding partial_packets
    partial_packets-Small packets n a b = elim (Bool-cases (n == 0)) [
      | inl e ↦ rw (e, if◌then◌else◌) tt
      | inr e ↦ rw (e, if◌then◌else◌) (partial_packet-Small (packets - 1) (packets * p) n a b, tt)
    ]

    block_downloader-Small : 0 < p → All (Small p q) (block_downloader kind p bytes)
    unfolding block_downloader
    block_downloader-Small z =
        All-append (Small p q) _ _ (full_packets-Small (length bytes / p) 0 0 (length bytes) small)
          (partial_packets-Small (length bytes / p) (length bytes % p) (omega (arith, z))
            (omega (arith, z, small)))

  full_blocks-Small :
      (bytes : List ℕ) (rounds offset : ℕ)
      → 0 < p
      → All (Small p q) (full_blocks kind p q bytes rounds offset)
  unfolding full_blocks
  full_blocks-Small bytes zero offset z = tt
  full_blocks-Small bytes (suc rounds) offset z =
      All-append (Small p q) _ _
        (block_downloader-Small (take q (drop offset bytes))
          (omega (arith, length-take q (drop offset bytes))) z)
        (full_blocks-Small bytes rounds (offset + q) z)

  master_block_mode-Small :
      (bytes : List ℕ) → 0 < p → 0 < q → All (Small p q) (master_block_mode kind p q bytes)
  unfolding master_block_mode
  master_block_mode-Small bytes z y =
      All-append (Small p q) _ _ (full_blocks-Small bytes (length bytes / q) 0 z)
        (elim (Bool-cases (length bytes % q == 0)) [
          | inl e ↦ rw (e, if◌then◌else◌) tt
          | inr e ↦
              rw (e, if◌then◌else◌)
                (block_downloader-Small _
                  (omega
                    (arith, length-take (length bytes % q) (drop (length bytes / q * q) bytes), y))
                  z)
        ])

sends-OnWire :
    (l : Limits) (q : ℕ) (rs : List Request)
    → q ≤ 255
    → q ≤ l.max_bs * (l.max_cto - 2)
    → All (Small (l.max_cto - 2) q) rs
    → All (OnWire l) (sends rs)
sends-OnWire l q [] a b s = tt
sends-OnWire l q (r ∷ rs) a b s =
    ((s.0.0, omega (arith, s.0.1), omega (arith, s.0.1)), sends-OnWire l q rs a b s.1)

pub master_block_mode-OnWire :
    (kind : Kind) (l : Limits) (bytes : List ℕ)
    → l.master_block ≡ true
    → 2 < l.max_cto
    → 0 < max_payload_of l
    → All (OnWire l) (sends (master_block_mode kind (l.max_cto - 2) (max_payload_of l) bytes))
master_block_mode-OnWire kind l bytes m z y =
    let e : max_payload_of l ≡ min (l.max_bs * (l.max_cto - 2)) 255 =
      unfold max_payload_of in rw (m, if◌then◌else◌) in
    sends-OnWire l (max_payload_of l) _ (omega (arith, e)) (omega (arith, e))
      (master_block_mode-Small kind (l.max_cto - 2) (max_payload_of l) bytes (omega arith) y)
