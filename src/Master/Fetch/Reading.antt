-- ===== src/Master/Fetch/Reading.antt =====
-- Fetching reads the memory of the slave (pyxcp/master/master.py: Master.fetch).
use native.Mathlib.Nat.{div-add-mod'}
use pyxcp.Prelude.{
  le→not_ltb, ℕ, zero, suc, ◌+◌, ◌*◌, ◌/◌, ◌%◌, ◌≤◌, ◌<◌, ◌≡◌, sym, ap, ◌∙◌, Bool, true, false, min,
  Option, none, some, List, [], ◌∷◌, ◌++◌, append_assoc, append-nil, take, if◌then◌else◌, arith,
}
use pyxcp.Master.Fetch.{
  Uploaded, uploaded, Fetched, fetched, max_payload_size, payload_size, extended, fetch_rest,
  fetch_chunks, fetch_all, fetch,
}

-- So many bytes of a memory from an address on.
abbrev pub region : (ℕ → ℕ) → ℕ → ℕ → List ℕ
region content a zero = []
region content a (suc n) = content a ∷ region content (suc a) n

region-add :
    (content : ℕ → ℕ) (m n a : ℕ)
    → region content a (m + n) ≡ region content a m ++ region content (a + m) n
region-add content zero n a =
    let e : 0 + n ≡ n = omega arith in
    let d : a ≡ a + 0 = omega arith in ap (region content a) e ∙ ap (λ b. region content b n) d
region-add content (suc m) n a =
    let e : suc m + n ≡ suc (m + n) = omega arith in
    let d : suc a + m ≡ a + suc m = omega arith in
    ap (region content a) e
    ∙ ap (λ xs. content a ∷ xs) (region-add content m n (suc a))
    ∙ ap (λ b. content a ∷ region content (suc a) m ++ region content b n) d

-- A slave with elements of one byte: what it uploads starts with the bytes at the transfer
-- address, which goes up by their number; anything may follow them. An upload needs a state that
-- is ready, and leaves one.
pub record Memory {S : Type 0} (upload : ℕ → S → Uploaded S) : Type 1 where
  pub content : ℕ → ℕ
  pub address : S → ℕ
  pub Ready : S → Type 0
  pub response : ℕ → S → List ℕ
  pub next : ℕ → S → S
  pub uploads : (n : ℕ) (s : S) → Ready s → 0 < n → upload n s ≡ uploaded (response n s) (next n s)
  pub reads :
      (n : ℕ) (s : S) → Ready s → 0 < n → take n (response n s) ≡ region content (address s) n
  pub advances : (n : ℕ) (s : S) → address (next n s) ≡ address s + n
  pub stays : (n : ℕ) (s : S) → Ready s → 0 < n → Ready (next n s)

abbrev pub Allowed : Option ℕ → Type 0
Allowed none = Unit
Allowed (some limit) = 8 ≤ limit

module _ {S : Type 0} (upload : ℕ → S → Uploaded S) (m : Memory upload) where
  -- What is fetched from a state on: the bytes, after what was there before.
  abbrev pub Fetches : Fetched S → List ℕ → ℕ → S → Type 0
  Fetches r before n s =
      (s' : S) × (r ≡ fetched (before ++ region m.content (m.address s) n) s')
      × (m.address s' ≡ m.address s + n)

  fetch_rest-reads :
      (n : ℕ) (before : List ℕ) (s : S)
      → m.Ready s
      → Fetches (fetch_rest upload n before s) before n s
  unfolding fetch_rest
  fetch_rest-reads zero before s y =
      (s, ap (λ xs. fetched xs s) (sym (append-nil before)), omega arith)
  fetch_rest-reads (suc n) before s y = (
    m.next (suc n) s,
    ap (extended upload (suc n) before fetched) (m.uploads (suc n) s y (omega arith))
        ∙ ap (λ xs. fetched (before ++ xs) (m.next (suc n) s)) (m.reads (suc n) s y (omega arith)),
    m.advances (suc n) s,
  )

  fetch_chunks-reads :
      (c r rounds : ℕ) (before : List ℕ) (s : S)
      → m.Ready s
      → 0 < c
      → Fetches (fetch_chunks upload c r rounds before s) before (rounds * c + r) s
  unfolding fetch_chunks
  fetch_chunks-reads c r zero before s y o =
      let (s', e, f) = fetch_rest-reads r before s y in
      let d : r ≡ 0 * c + r = omega arith in
      (
        s',
        e ∙ ap (λ n. fetched (before ++ region m.content (m.address s) n) s') d,
        omega (arith, f),
      )
  fetch_chunks-reads c r (suc k) before s y o =
      let mem = m.content in
      let a = m.address s in
      let here = region mem a c in
      let (s', e, f) = fetch_chunks-reads c r k (before ++ here) (m.next c s) (m.stays c s y o) o in
      let more : suc k * c + r ≡ c + (k * c + r) = grind arith in
      (
        s',
        ap (extended upload c before (fetch_chunks upload c r k)) (m.uploads c s y o)
            ∙ ap (λ xs. fetch_chunks upload c r k (before ++ xs) (m.next c s)) (m.reads c s y o)
            ∙ e
            ∙ ap (λ b. fetched ((before ++ here) ++ region mem b (k * c + r)) s') (m.advances c s)
            ∙ ap (λ xs. fetched xs s')
                (append_assoc before here _
                  ∙ ap (λ xs. before ++ xs) (sym (region-add mem c (k * c + r) a))
                  ∙ ap (λ n. before ++ region mem a n) (sym more)),
        omega (arith, f, m.advances c s, more),
      )

  fetch_all-reads : (c n : ℕ) (s : S) → m.Ready s → 0 < c → Fetches (fetch_all upload c n s) [] n s
  unfolding fetch_all
  fetch_all-reads c n s y o =
      let (s', e, f) = fetch_chunks-reads c (n % c) (n / c) [] s y o in
      let d : n / c * c + n % c ≡ n = div-add-mod' n c in
      (s', e ∙ ap (λ k. fetched (region m.content (m.address s) k) s') d, omega (arith, f, d))

  payload_pos : (b : Bool) (max_cto : ℕ) → 1 < max_cto → 0 < max_payload_size b max_cto
  unfolding max_payload_size
  payload_pos true max_cto o = omega arith
  payload_pos false max_cto o = omega arith

  -- Fetching so many bytes gives exactly the bytes at the transfer address, which goes up by their
  -- number, whatever block mode and limit, provided that a limit is at least 8 and MAX_CTO at
  -- least 2; what a response has beyond the bytes asked for is dropped.
  pub fetch-Fetches :
      (b : Bool) (max_cto n : ℕ) (limit : Option ℕ) (s : S)
      → m.Ready s
      → 1 < max_cto
      → Allowed limit
      → Fetches (fetch upload b max_cto n limit s) [] n s
  unfolding fetch payload_size
  fetch-Fetches b max_cto n none s y o h =
      fetch_all-reads (max_payload_size b max_cto) n s y (payload_pos b max_cto o)
  fetch-Fetches b max_cto n (some limit) s y o h =
      let p = payload_pos b max_cto o in
      rw (le→not_ltb limit 8 h, if◌then◌else◌)
        (fetch_all-reads (min limit (max_payload_size b max_cto)) n s y (omega (arith, p, h)))
