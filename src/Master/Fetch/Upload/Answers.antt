-- ===== src/Master/Fetch/Upload/Answers.antt =====
-- An upload from a slave that answers well gives its memory (pyxcp/master/master.py:
-- Master.upload).
use mathlib.Core.Path.{subst}
use pyxcp.Prelude.{
  lt→not_leb, not_ltb→le, ℕ, zero, suc, ◌+◌, ◌-◌, ◌*◌, ◌≤◌, ◌<◌, ◌≡◌, refl, sym, ap, ◌∙◌, Bool,
  true, false, min, Option, List, [], ◌∷◌, ◌++◌, append_assoc, append-nil, length, length-append,
  length-take, take, take_all, drop, leb, ltb, le→leb, Bool-cases, inl, inr, if◌then◌else◌, arith,
}
use pyxcp.Transport.{Frame}
use pyxcp.Transport.Waiting.{drain}
use pyxcp.Transport.Blocks.{payloads, Short}
use pyxcp.Master.Fetch.{Uploaded, uploaded, failed, waiting_on, fetched, fetch}
use pyxcp.Master.Fetch.Reading.{Memory, region, Allowed, fetch-Fetches}
use pyxcp.Master.Fetch.Upload.{
  Line, raises, take_response, collect, receive_block, receive_rest, go_on_with, finish_upload,
  upload,
}

-- A slave whose answers carry its memory: positive responses, of which none comes needlessly, and
-- a single one for what fits a packet, except on CAN.
pub record Slave (is_can : Bool) (max_cto : ℕ) (answer : ℕ → ℕ → List Frame) : Type 0 where
  pub content : ℕ → ℕ
  pub first : ℕ → ℕ → Frame
  pub others : ℕ → ℕ → List Frame
  pub answers : (a n : ℕ) → 0 < n → answer a n ≡ first a n ∷ others a n
  pub positive : (a n : ℕ) → 0 < n → raises (first a n) ≡ false
  pub carries :
      (a n : ℕ) → 0 < n → take n (drop 1 (first a n) ++ payloads (others a n)) ≡ region content a n
  pub suffices : (a n : ℕ) → 0 < n → n ≤ length (drop 1 (first a n) ++ payloads (others a n))
  pub needed : (a n : ℕ) → 0 < n → Short n (drop 1 (first a n)) (others a n)
  pub alone : (a n : ℕ) → 0 < n → is_can ≡ false → n ≤ max_cto - 1 → others a n ≡ []

drain-all :
    (n : ℕ) (block : Frame) (fs : List Frame)
    → Short n block fs
    → drain n block fs ≡ (block ++ payloads fs, [])
unfolding drain payloads Short
drain-all n block [] h = ap (λ b. (b, [])) (sym (append-nil block))
drain-all n block (x ∷ xs) h =
    rw (lt→not_leb (length block) n h.0, if◌then◌else◌)
      (drain-all n (block ++ drop 1 x) xs h.1
        ∙ ap (λ b. (b, [])) (append_assoc block (drop 1 x) (payloads xs)))

Short-shift :
    (n : ℕ) (r b : Frame) (fs : List Frame) → Short n (r ++ b) fs → Short (n - length r) b fs
unfolding Short
Short-shift n r b [] h = tt
Short-shift n r b (x ∷ xs) h = (
  omega (arith, h.0, length-append r b),
  Short-shift n r (b ++ drop 1 x) xs (subst (λ p. Short n p xs) (append_assoc r b (drop 1 x)) h.1),
)

take-join : (n : ℕ) (r ys : Frame) → length r ≤ n → r ++ take (n - length r) ys ≡ take n (r ++ ys)
take-join n [] ys h = let e : n - 0 ≡ n = omega arith in ap (λ k. take k ys) e
take-join zero (x ∷ r) ys h = absurd (omega arith)
take-join (suc n) (x ∷ r) ys h =
    let e : suc n - length (x ∷ r) ≡ n - length r = omega arith in
    ap (λ k. x ∷ r ++ take k ys) e ∙ ap (λ zs. x ∷ zs) (take-join n r ys (omega arith))

-- On CAN, the loop stops with the bytes asked for.
collect-all :
    (n : ℕ) (r : Frame) (fs : List Frame)
    → length r ≤ n
    → Short n r fs
    → collect n r fs ≡ (take n (r ++ payloads fs), [])
unfolding collect payloads Short
collect-all n r [] l h = ap (λ b. (b, [])) (sym (take_all n r l) ∙ ap (take n) (sym (append-nil r)))
collect-all n r (x ∷ []) l h =
    rw (lt→not_leb (length r) n h.0, if◌then◌else◌)
      (ap (λ b. (b, []))
        (take-join n r (drop 1 x) l ∙ ap (λ p. take n (r ++ p)) (sym (append-nil (drop 1 x)))))
collect-all n r (x ∷ y ∷ ys) l h =
    let whole : take (n - length r) (drop 1 x) ≡ drop 1 x =
      take_all (n - length r) (drop 1 x) (omega (arith, h.1.0, length-append r (drop 1 x))) in
    rw (lt→not_leb (length r) n h.0, if◌then◌else◌)
      (ap (λ p. collect n (r ++ p) (y ∷ ys)) whole
        ∙ collect-all n (r ++ drop 1 x) (y ∷ ys) (omega (arith, h.1.0)) h.1
        ∙ ap (λ b. (take n b, [])) (append_assoc r (drop 1 x) (payloads (y ∷ ys))))

Collected : ℕ → Frame → List Frame → Type 0
Collected n r fs =
    (b : Frame) × (collect n r fs ≡ (b, []))
    × (n ≤ length b)
    × (take n b ≡ take n (r ++ payloads fs))

collect-Collected :
    (n : ℕ) (r : Frame) (fs : List Frame)
    → Short n r fs
    → n ≤ length (r ++ payloads fs)
    → Collected n r fs
unfolding Collected
collect-Collected n r [] h l =
    let e : r ++ payloads [] ≡ r = unfold payloads in append-nil r in
    (r, unfold collect in refl, omega (arith, l, ap length e), ap (take n) (sym e))
collect-Collected n r (x ∷ xs) h l =
    let short : length r < n = (unfold Short in h.0) in
    let b = take n (r ++ payloads (x ∷ xs)) in
    let e : length b ≡ min n (length (r ++ payloads (x ∷ xs))) =
      length-take n (r ++ payloads (x ∷ xs)) in
    (
      b,
      collect-all n r (x ∷ xs) (omega arith) h,
      omega (arith, e, l),
      take_all n b (omega (arith, e)),
    )

abbrev bytes_of : Uploaded Line → Frame
bytes_of (uploaded b s) = b
bytes_of (failed s) = []
bytes_of (waiting_on s) = []

module _ (is_can : Bool) (max_cto : ℕ) (answer : ℕ → ℕ → List Frame)
    (m : Slave is_can max_cto answer) where
  abbrev after_upload : ℕ → Line → Line
  after_upload n s = record s { address = s.address + n; unread = [] }

  Done : ℕ → Line → Uploaded Line → Type 0
  Done n s o =
      (r : Frame) × (o ≡ uploaded r (after_upload n s)) × (take n r ≡ region m.content s.address n)

  -- The response is the first packet of the answer.
  take_response-first :
      (n : ℕ) (s : Line)
      → s.unread ≡ []
      → 0 < n
      → take_response (s.unread ++ answer s.address n) (record s { address = s.address + n })
        ≡ uploaded
            (drop 1 (m.first s.address n))
            (record s { address = s.address + n; unread = m.others s.address n })
  unfolding take_response
  take_response-first n s e o =
      ap (λ q. take_response (q ++ answer s.address n) (record s { address = s.address + n })) e
      ∙ ap (λ q. take_response q (record s { address = s.address + n })) (m.answers s.address n o)
      ∙ rw (m.positive s.address n o, if◌then◌else◌)

  module _ (n : ℕ) (s : Line) (o : 0 < n) where
    abbrev head : Frame
    head = drop 1 (m.first s.address n)

    abbrev tail : List Frame
    tail = m.others s.address n

    abbrev answered : Line
    answered = record s { address = s.address + n; unread = tail }

    receive_block-Done : Done n s (receive_block n head answered)
    unfolding receive_block Done
    receive_block-Done =
        let short : Short (n - length head) [] tail =
          Short-shift n head [] tail
            (subst (λ p. Short n p tail) (sym (append-nil head)) (m.needed s.address n o)) in
        let all = drain-all (n - length head) [] tail short in
        let enough : leb (n - length head) (length (payloads tail)) ≡ true =
          le→leb _ _
            (omega (arith, m.suffices s.address n o, length-append head (payloads tail))) in
        (head ++ payloads tail, rw (all, enough, if◌then◌else◌), m.carries s.address n o)

    receive_rest-Done : Done n s (receive_rest n head answered)
    unfolding receive_rest Done Collected
    receive_rest-Done =
        let (b, e, l, t) =
          collect-Collected n head tail (m.needed s.address n o) (m.suffices s.address n o) in
        (b, rw (e, le→leb n (length b) l, if◌then◌else◌), t ∙ m.carries s.address n o)

    single-Done : is_can ≡ false → n ≤ max_cto - 1 → Done n s (uploaded head answered)
    unfolding Done
    single-Done c l =
        let e = m.alone s.address n o c l in
        let none_more : head ++ payloads tail ≡ head =
          ap (λ fs. head ++ payloads fs) e ∙ (unfold payloads in append-nil head) in
        (
          head,
          ap (λ fs. uploaded head (record s { address = s.address + n; unread = fs })) e,
          ap (take n) (sym none_more) ∙ m.carries s.address n o,
        )

    finish_upload-Done : Done n s (finish_upload is_can max_cto n head answered)
    unfolding finish_upload
    finish_upload-Done = elim (Bool-cases (ltb (max_cto - 1) n)) [
      | inl e ↦ rw (e, if◌then◌else◌) receive_block-Done
      | inr e ↦ elim (Bool-cases is_can) [
        | inl c ↦ rw (e, if◌then◌else◌, c) receive_rest-Done
        | inr c ↦ rw (e, if◌then◌else◌, c) (single-Done c (not_ltb→le (max_cto - 1) n e))
      ]
    ]

    upload-Done : s.unread ≡ [] → Done n s (upload is_can max_cto 1 answer n s)
    unfolding upload
    upload-Done e =
        let one : n * 1 ≡ n = omega arith in
        subst (Done n s)
          (sym (
            ap (go_on_with (finish_upload is_can max_cto (n * 1))) (take_response-first n s e o)
            ∙ ap (λ k. finish_upload is_can max_cto k head answered) one))
          finish_upload-Done

  -- Such a slave is a memory, whose uploads the fetching of data can build on.
  memory_of : Memory (upload is_can max_cto 1 answer)
  unfolding Done
  memory_of = record {
    content = m.content;
    address = λ s. s.address;
    Ready = λ s. s.unread ≡ [];
    response = λ n s. bytes_of (upload is_can max_cto 1 answer n s);
    next = after_upload;
    uploads = λ n s y o.
        let (r, e, t) = upload-Done n s o y in
        e ∙ ap (λ u. uploaded (bytes_of u) (after_upload n s)) (sym e);
    reads = λ n s y o. let (r, e, t) = upload-Done n s o y in ap (λ u. take n (bytes_of u)) e ∙ t;
    advances = λ n s. refl;
    stays = λ n s y o. refl;
  }

  -- Fetching so many bytes from such a slave gives exactly the bytes of its memory at the transfer
  -- address, which goes up by their number, on any transport, whatever block mode and limit,
  -- provided that no response is unread at first, that a limit is at least 8, MAX_CTO at least 2
  -- and an element one byte.
  pub fetch-upload :
      (b : Bool) (n : ℕ) (limit : Option ℕ) (s : Line)
      → s.unread ≡ []
      → 1 < max_cto
      → Allowed limit
      → (s' : Line) × (fetch (upload is_can max_cto 1 answer) b max_cto n limit s
          ≡ fetched (region m.content s.address n) s')
        × (s'.address ≡ s.address + n)
  unfolding memory_of
  fetch-upload b n limit s y o h =
      fetch-Fetches (upload is_can max_cto 1 answer) memory_of b max_cto n limit s y o h
