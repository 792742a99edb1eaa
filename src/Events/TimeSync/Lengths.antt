-- ===== src/Events/TimeSync/Lengths.antt =====
-- The extended packets that are too short (pyxcp/events.py: TimeSyncEvent.parse).
use pyxcp.Prelude.{
  le→not_ltb, ℕ, ◌+◌, ◌≤◌, ◌<◌, ◌≡◌, ◌↔◌, refl, ap, ◌⊎◌, inl, inr, Bool, true, false, Option, none,
  some, List, length, length-take, length-drop, drop, get_elem?, ltb, lt→ltb, ltb→lt, ==_refl,
  Bool-cases, if◌then◌else◌, arith,
}
use pyxcp.Prelude.Bytes.{Endian, unpack, from_bytes}
use pyxcp.Events.TimeSync.{
  ClockFormat, not_present, dword, dlong, reserved_format, TriggerInfo, PayloadFormat,
  TimeSyncEvent, slice, Read, read_timestamp, read_cluster, parse_extended,
}
use pyxcp.Events.TimeSync.Encoded.{parse_extended-reads}

abbrev pub width : ClockFormat → ℕ
width not_present = 0
width dword = 4
width dlong = 8
width reserved_format = 0

abbrev pub cluster_width : Bool → ℕ
cluster_width true = 3
cluster_width false = 0

-- The length that the format asks for.
abbrev pub needed : PayloadFormat → ℕ
needed f =
    4
    + width f.xcp_slave_fmt
    + width f.grandmaster_fmt
    + width f.ecu_fmt
    + cluster_width f.cluster_identifier

unpack-slice :
    (order : Endian) (packet : List ℕ) (o n : ℕ)
    → o + n ≤ length packet
    → unpack order n (slice packet o n) ≡ some (from_bytes order (slice packet o n))
unfolding unpack
unpack-slice order packet o n h =
    let e : length (slice packet o n) ≡ n =
      omega (arith, length-take n (drop o packet), length-drop o packet) in
    rw (e, ==_refl n, if◌then◌else◌)

abbrev read : Option ℕ → ℕ → Read
read v o = record { value = v; offset = o }

moved : (v : Option ℕ) (o : ℕ) → some (read v o) ≡ some (read v (o + 0))
moved v o = ap (λ k. some (read v k)) (omega arith)

fits_or_short : (a b : ℕ) → (b ≤ a) ⊎ (a < b)
fits_or_short a b = elim (Bool-cases (ltb a b)) [
  | inl e ↦ inr (ltb→lt a b e)
  | inr e ↦ inl (ground arith)
]

module _ (order : Endian) (packet : List ℕ) where
  read_timestamp-enough :
      (f : ClockFormat) (o : ℕ)
      → o + width f ≤ length packet
      → (v : Option ℕ) × (read_timestamp order packet f o ≡ some (read v (o + width f)))
  unfolding read_timestamp
  read_timestamp-enough not_present o h = (none, moved none o)
  read_timestamp-enough dword o h = (
    some (from_bytes order (slice packet o 4)),
    rw (le→not_ltb (length packet) (o + 4) h, if◌then◌else◌, unpack-slice order packet o 4 h),
  )
  read_timestamp-enough dlong o h = (
    some (from_bytes order (slice packet o 8)),
    rw (le→not_ltb (length packet) (o + 8) h, if◌then◌else◌, unpack-slice order packet o 8 h),
  )
  read_timestamp-enough reserved_format o h = (none, moved none o)

  read_timestamp-short :
      (f : ClockFormat) (o : ℕ)
      → o ≤ length packet
      → length packet < o + width f
      → read_timestamp order packet f o ≡ none
  unfolding read_timestamp
  read_timestamp-short not_present o b h = absurd (omega arith)
  read_timestamp-short dword o b h = rw (lt→ltb (length packet) (o + 4) h, if◌then◌else◌)
  read_timestamp-short dlong o b h = rw (lt→ltb (length packet) (o + 8) h, if◌then◌else◌)
  read_timestamp-short reserved_format o b h = absurd (omega arith)

  read_cluster-enough :
      (b : Bool) (o : ℕ)
      → o + cluster_width b ≤ length packet
      → (r : Read × Option ℕ) × (read_cluster order packet b o ≡ some r)
  unfolding read_cluster
  read_cluster-enough true o h = (
    (read (some (from_bytes order (slice packet o 2))) (o + 3), get_elem? packet (o + 2)),
    rw (
      le→not_ltb (length packet) (o + 3) h,
      if◌then◌else◌,
      unpack-slice order packet o 2 (omega arith),
    ),
  )
  read_cluster-enough false o h = ((read none o, none), refl)

  read_cluster-short :
      (b : Bool) (o : ℕ)
      → o ≤ length packet
      → length packet < o + cluster_width b
      → read_cluster order packet b o ≡ none
  unfolding read_cluster
  read_cluster-short true o b h = rw (lt→ltb (length packet) (o + 3) h, if◌then◌else◌)
  read_cluster-short false o b h = absurd (omega arith)

  -- Sequences of readers of which one fails.
  first-none :
      (t : TriggerInfo) (f : PayloadFormat)
      → read_timestamp order packet f.xcp_slave_fmt 4 ≡ none
      → parse_extended order packet t f ≡ none
  unfolding parse_extended
  first-none t f e = rw e

  second-none :
      (t : TriggerInfo) (f : PayloadFormat) (a : Read)
      → read_timestamp order packet f.xcp_slave_fmt 4 ≡ some a
      → read_timestamp order packet f.grandmaster_fmt a.offset ≡ none
      → parse_extended order packet t f ≡ none
  unfolding parse_extended
  second-none t f a e1 e2 = rw (e1, e2)

  third-none :
      (t : TriggerInfo) (f : PayloadFormat) (a b : Read)
      → read_timestamp order packet f.xcp_slave_fmt 4 ≡ some a
      → read_timestamp order packet f.grandmaster_fmt a.offset ≡ some b
      → read_timestamp order packet f.ecu_fmt b.offset ≡ none
      → parse_extended order packet t f ≡ none
  unfolding parse_extended
  third-none t f a b e1 e2 e3 = rw (e1, e2, e3)

  fourth-none :
      (t : TriggerInfo) (f : PayloadFormat) (a b c : Read)
      → read_timestamp order packet f.xcp_slave_fmt 4 ≡ some a
      → read_timestamp order packet f.grandmaster_fmt a.offset ≡ some b
      → read_timestamp order packet f.ecu_fmt b.offset ≡ some c
      → read_cluster order packet f.cluster_identifier c.offset ≡ none
      → parse_extended order packet t f ≡ none
  unfolding parse_extended
  fourth-none t f a b c e1 e2 e3 e4 = rw (e1, e2, e3, e4)

  parse_extended-short :
      (t : TriggerInfo) (f : PayloadFormat)
      → 4 ≤ length packet
      → length packet < needed f
      → parse_extended order packet t f ≡ none
  parse_extended-short t f h k =
      let w1 = width f.xcp_slave_fmt in
      let w2 = width f.grandmaster_fmt in
      let w3 = width f.ecu_fmt in
      elim (fits_or_short (length packet) (4 + w1)) [
        | inr s1 ↦ first-none t f (read_timestamp-short f.xcp_slave_fmt 4 h s1)
        | inl g1 ↦
            let r1 = read_timestamp-enough f.xcp_slave_fmt 4 g1 in
            elim (fits_or_short (length packet) (4 + w1 + w2)) [
              | inr s2 ↦
                  second-none t f _ r1.1 (read_timestamp-short f.grandmaster_fmt (4 + w1) g1 s2)
              | inl g2 ↦
                  let r2 = read_timestamp-enough f.grandmaster_fmt (4 + w1) g2 in
                  elim (fits_or_short (length packet) (4 + w1 + w2 + w3)) [
                    | inr s3 ↦
                        third-none t f _ _ r1.1 r2.1
                          (read_timestamp-short f.ecu_fmt (4 + w1 + w2) g2 s3)
                    | inl g3 ↦
                        fourth-none t f _ _ _ r1.1 r2.1
                          (read_timestamp-enough f.ecu_fmt (4 + w1 + w2) g3).1
                          (read_cluster-short f.cluster_identifier (4 + w1 + w2 + w3) g3 k)
                  ]
            ]
      ]

  parse_extended-enough :
      (t : TriggerInfo) (f : PayloadFormat)
      → needed f ≤ length packet
      → (e : TimeSyncEvent) × (parse_extended order packet t f ≡ some e)
  parse_extended-enough t f h =
      let w1 = width f.xcp_slave_fmt in
      let w2 = width f.grandmaster_fmt in
      let w3 = width f.ecu_fmt in
      let r1 = read_timestamp-enough f.xcp_slave_fmt 4 (omega arith) in
      let r2 = read_timestamp-enough f.grandmaster_fmt (4 + w1) (omega arith) in
      let r3 = read_timestamp-enough f.ecu_fmt (4 + w1 + w2) (omega arith) in
      let r4 = read_cluster-enough f.cluster_identifier (4 + w1 + w2 + w3) h in
      (_, parse_extended-reads order packet t f _ _ _ r4.0 r1.1 r2.1 r3.1 r4.1)

  -- An extended packet is refused exactly if it is shorter than its format asks for.
  pub parse_extended-none :
      (t : TriggerInfo) (f : PayloadFormat)
      → 4 ≤ length packet
      → (parse_extended order packet t f ≡ none) ↔ (length packet < needed f)
  parse_extended-none t f h = (
    (λ e. elim (fits_or_short (length packet) (needed f)) [
      | inr s ↦ s
      | inl g ↦ absurd (cc (e, (parse_extended-enough t f g).1))
    ]),
    parse_extended-short t f h,
  )
