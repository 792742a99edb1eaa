-- ===== src/Transport/Blocks.antt =====
-- What block_receive gives (pyxcp/transport/base.py: block_receive).
use pyxcp.Prelude.{
  false, ap, true, sym, append-nil, ◌<◌, ℕ, ◌+◌, ◌≤◌, ◌≡◌, refl, ◌∙◌, List, [], ◌∷◌, ◌++◌,
  append_assoc, Bool-cases, inl, inr, length, length-append, drop, leb, leb→le, le→leb,
  if◌then◌else◌, arith,
}
use pyxcp.Transport.{Frame, Transport}
use pyxcp.Transport.Waiting.{Wake, Waited, got, drain, block_receive}

-- The payload of the packets: all but their first bytes.
unfoldable pub payloads : List Frame → Frame
payloads [] = []
payloads (x ∷ xs) = drop 1 x ++ payloads xs

-- Every packet was taken while the block was still short.
unfoldable pub Short : ℕ → Frame → List Frame → Type 0
Short required block [] = Unit
Short required block (x ∷ xs) = (length block < required) × Short required (block ++ drop 1 x) xs

-- The packets `ts` are taken from the queue and joined to the block, none of them needlessly;
-- with enough payload the block is long enough.
abbrev Taken : ℕ → Frame → List Frame → Frame × List Frame → Type 0
Taken required block queue r =
    (ts : List Frame) × (queue ≡ ts ++ r.1)
    × (r.0 ≡ block ++ payloads ts)
    × Short required block ts
    × (required ≤ length block + length (payloads queue) → required ≤ length r.0)

drain-Taken :
    (required : ℕ) (block : Frame) (queue : List Frame)
    → Taken required block queue (drain required block queue)
unfolding drain payloads Short
drain-Taken required block [] = ([], refl, sym (append-nil block), tt, λ e. omega arith)
drain-Taken required block (x ∷ xs) = elim (Bool-cases (leb required (length block))) [
  | inl e ↦ rw (e, if◌then◌else◌) ([], refl, sym (append-nil block), tt, λ n. leb→le _ _ e)
  | inr e ↦
      let (ts, from, joined, short, enough) = drain-Taken required (block ++ drop 1 x) xs in
      let no : required ≤ length block → true ≡ false = λ p. sym (le→leb _ _ p) ∙ e in
      rw (e, if◌then◌else◌)
        (
          x ∷ ts,
          ap (λ q. x ∷ q) from,
          joined ∙ append_assoc block (drop 1 x) (payloads ts),
          (grind (arith, no), short),
          λ n. enough (
              omega
                (arith, n, length-append block (drop 1 x), length-append (drop 1 x) (payloads xs))),
        )
]

abbrev pub Received : ℕ → Transport → Waited Frame → Type 0
Received required s o =
    (ts queue : List Frame) × (s.res_queue ≡ ts ++ queue)
    × (o ≡ got (payloads ts) (record s { res_queue = queue }))
    × (required ≤ length (payloads ts))
    × Short required [] ts

drained :
    (required : ℕ) (s : Transport) (o : Waited Frame)
    → required ≤ length (payloads s.res_queue)
    → (leb required (length (drain required [] s.res_queue).0) ≡ true
        → o
          ≡ got
              (drain required [] s.res_queue).0
              (record s { res_queue = (drain required [] s.res_queue).1 }))
    → Received required s o
drained required s o p e =
    let (ts, from, joined, short, enough) = drain-Taken required [] s.res_queue in
    let r = drain required [] s.res_queue in
    let long : required ≤ length r.0 = enough (omega (arith, p)) in
    (
      ts,
      r.1,
      from,
      e (le→leb required (length r.0) long) ∙ ap (λ b. got b (record s { res_queue = r.1 })) joined,
      omega (arith, long, ap length joined),
      short,
    )

-- When the queue holds enough bytes, block_receive does not wait: it takes packets from the
-- front while the block is shorter than required, gives their payloads in order, which reach the
-- required length, and leaves the other packets in the queue.
pub block_receive-Received :
    (h : Frame → Transport → Transport) (timeout required : ℕ) (ws : List Wake) (start : ℕ)
    (s : Transport)
    → required ≤ length (payloads s.res_queue)
    → Received required s (block_receive h timeout required ws start [] s)
unfolding block_receive
block_receive-Received h timeout required [] start s p =
    drained required s _ p (λ e. rw (e, if◌then◌else◌))
block_receive-Received h timeout required (w ∷ ws) start s p =
    drained required s _ p (λ e. rw (e, if◌then◌else◌))
