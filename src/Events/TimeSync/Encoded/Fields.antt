-- ===== src/Events/TimeSync/Encoded/Fields.antt =====
-- The fields of the extended format, written out, and their readers (pyxcp/events.py:
-- TimeSyncEvent.parse).
use pyxcp.Prelude.{
  le→not_ltb, ℕ, ◌+◌, ◌^◌, ◌<◌, ◌≡◌, refl, sym, ap, ◌∙◌, Bool, true, false, Option, none, some,
  List, [], ◌∷◌, ◌++◌, append_assoc, append-nil, length, length-append, take, drop-length-append,
  take-length-append, get_elem?, ltb, if◌then◌else◌, arith,
}
use pyxcp.Prelude.Bytes.{Endian, pack, unpack, unpack-pack, length-pack}
use pyxcp.Events.TimeSync.{
  ClockFormat, not_present, dword, dlong, reserved_format, slice, read_at, read_timestamp,
  read_cluster,
}

-- The bytes of a clock, its value, and the values that the format holds.
abbrev pub clock_bytes : Endian → ClockFormat → ℕ → List ℕ
clock_bytes order not_present v = []
clock_bytes order dword v = pack order 4 v
clock_bytes order dlong v = pack order 8 v
clock_bytes order reserved_format v = []

abbrev pub clock_value : ClockFormat → ℕ → Option ℕ
clock_value not_present v = none
clock_value dword v = some v
clock_value dlong v = some v
clock_value reserved_format v = none

abbrev pub Holds : ClockFormat → ℕ → Type 0
Holds not_present v = Unit
Holds dword v = v < 256 ^ 4
Holds dlong v = v < 256 ^ 8
Holds reserved_format v = Unit

abbrev pub cluster_bytes : Endian → Bool → ℕ → ℕ → List ℕ
cluster_bytes order true id counter = pack order 2 id ++ (counter ∷ [])
cluster_bytes order false id counter = []

abbrev pub when_present : Bool → ℕ → Option ℕ
when_present true x = some x
when_present false x = none

abbrev pub state_bytes : Option ℕ → List ℕ
state_bytes none = []
state_bytes (some x) = x ∷ []

slice-append :
    (pre xs post : List ℕ) (n : ℕ) → length xs ≡ n → slice (pre ++ (xs ++ post)) (length pre) n ≡ xs
slice-append pre xs post n e =
    ap (take n) (drop-length-append pre (xs ++ post))
    ∙ ap (λ k. take k (xs ++ post)) (sym e)
    ∙ take-length-append xs post

-- A clock is read behind any bytes.
read-number :
    (order : Endian) (pre post : List ℕ) (n v : ℕ)
    → v < 256 ^ n
    → unpack order n (slice (pre ++ (pack order n v ++ post)) (length pre) n) ≡ some v
read-number order pre post n v h =
    ap (unpack order n) (slice-append pre (pack order n v) post n (length-pack order n v))
    ∙ unpack-pack order n v h

fits :
    (order : Endian) (pre post : List ℕ) (n v : ℕ)
    → ltb (length (pre ++ (pack order n v ++ post))) (length pre + n) ≡ false
fits order pre post n v = le→not_ltb _ _ (
    omega (
      arith,
      length-append pre (pack order n v ++ post),
      length-append (pack order n v) post,
      length-pack order n v,
    ))

after : (order : Endian) (pre : List ℕ) (n v : ℕ) → length pre + n ≡ length (pre ++ pack order n v)
after order pre n v = omega (arith, length-append pre (pack order n v), length-pack order n v)

pub read_timestamp-clock :
    (order : Endian) (pre post : List ℕ) (f : ClockFormat) (v : ℕ)
    → Holds f v
    → read_timestamp order (pre ++ (clock_bytes order f v ++ post)) f (length pre)
      ≡ some (record { value = clock_value f v; offset = length (pre ++ clock_bytes order f v) })
unfolding read_timestamp
read_timestamp-clock order pre post not_present v h =
    ap (λ xs. some (record { value = none; offset = length xs })) (sym (append-nil pre))
read_timestamp-clock order pre post dword v h =
    rw (fits order pre post 4 v, if◌then◌else◌, read-number order pre post 4 v h)
      (ap (λ n. read_at n v) (after order pre 4 v))
read_timestamp-clock order pre post dlong v h =
    rw (fits order pre post 8 v, if◌then◌else◌, read-number order pre post 8 v h)
      (ap (λ n. read_at n v) (after order pre 8 v))
read_timestamp-clock order pre post reserved_format v h =
    ap (λ xs. some (record { value = none; offset = length xs })) (sym (append-nil pre))

get_elem?-length : (xs ys : List ℕ) (x : ℕ) → get_elem? (xs ++ (x ∷ ys)) (length xs) ≡ some x
get_elem?-length [] ys x = refl
get_elem?-length (y ∷ xs) ys x = get_elem?-length xs ys x

pub get_elem?-state : (xs : List ℕ) (o : Option ℕ) → get_elem? (xs ++ state_bytes o) (length xs) ≡ o
get_elem?-state [] none = refl
get_elem?-state [] (some x) = refl
get_elem?-state (y ∷ xs) o = get_elem?-state xs o

get_elem?-counter :
    (order : Endian) (pre post : List ℕ) (id counter : ℕ)
    → get_elem? (pre ++ (pack order 2 id ++ (counter ∷ post))) (length pre + 2) ≡ some counter
get_elem?-counter order pre post id counter =
    ap (get_elem? (pre ++ (pack order 2 id ++ (counter ∷ post)))) (after order pre 2 id)
    ∙ ap (λ p. get_elem? p (length (pre ++ pack order 2 id)))
        (sym (append_assoc pre (pack order 2 id) (counter ∷ post)))
    ∙ get_elem?-length (pre ++ pack order 2 id) post counter

cluster-fits :
    (order : Endian) (pre post : List ℕ) (id counter : ℕ)
    → ltb (length (pre ++ (pack order 2 id ++ (counter ∷ post)))) (length pre + 3) ≡ false
cluster-fits order pre post id counter = le→not_ltb _ _ (
    omega (
      arith,
      length-append pre (pack order 2 id ++ (counter ∷ post)),
      length-append (pack order 2 id) (counter ∷ post),
      length-pack order 2 id,
    ))

after_cluster :
    (order : Endian) (pre : List ℕ) (id counter : ℕ)
    → length pre + 3 ≡ length (pre ++ (pack order 2 id ++ (counter ∷ [])))
after_cluster order pre id counter = omega (
  arith,
  length-append pre (pack order 2 id ++ (counter ∷ [])),
  length-append (pack order 2 id) (counter ∷ []),
  length-pack order 2 id,
)

pub read_cluster-bytes :
    (order : Endian) (pre post : List ℕ) (b : Bool) (id counter : ℕ)
    → id < 256 ^ 2
    → read_cluster order (pre ++ (cluster_bytes order b id counter ++ post)) b (length pre)
      ≡ some (
        record {
          value = when_present b id;
          offset = length (pre ++ cluster_bytes order b id counter);
        },
        when_present b counter,
      )
unfolding read_cluster
read_cluster-bytes order pre post true id counter h =
    ap (λ p. read_cluster order (pre ++ p) true (length pre))
      (append_assoc (pack order 2 id) (counter ∷ []) post)
    ∙ rw
        (
          cluster-fits order pre post id counter,
          if◌then◌else◌,
          read-number order pre (counter ∷ post) 2 id h,
          get_elem?-counter order pre post id counter,
        )
        (ap (λ n. some (record { value = some id; offset = n }, some counter))
          (after_cluster order pre id counter))
read_cluster-bytes order pre post false id counter h =
    ap (λ xs. some (record { value = none; offset = length xs }, none)) (sym (append-nil pre))
