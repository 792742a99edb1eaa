-- ===== src/Daq/Setup/Slave/Tables.antt =====
-- The tables of the slave after a configuration (pyxcp/daq_stim/__init__.py:
-- DaqProcessor.setup).
use mathlib.Core.Path.{subst}
use pyxcp.Prelude.{
  lt→not_==, ℕ, suc, ◌<◌, ◌≡◌, refl, ◌⊎◌, inl, inr, false, ◌&&◌, none, some, List, [], ◌∷◌, ◌++◌,
  append_assoc, length, All, ◌==◌, ==_refl, if◌then◌else◌, arith,
}
use pyxcp.Optimize.BinPacking.{Bin}
use pyxcp.Optimize.Blocks.{Section}
use pyxcp.Daq.Setup.{Layout}
use pyxcp.Daq.Setup.Slave.{OdtCount, EntryCount, Written, odt_count, entry_count}

abbrev pub odt_table : ℕ → List Layout → List OdtCount
odt_table i [] = []
odt_table i (none ∷ ls) = odt_table (suc i) ls
odt_table i (some bins ∷ ls) = record { daq = i; odts = length bins } ∷ odt_table (suc i) ls

abbrev pub entry_table : ℕ → ℕ → List (Bin Section) → List EntryCount
entry_table i j [] = []
entry_table i j (b ∷ bs) =
    record { daq = i; odt = j; entries = length b.entries } ∷ entry_table i (suc j) bs

abbrev pub entry_tables : ℕ → List Layout → List EntryCount
entry_tables i [] = []
entry_tables i (none ∷ ls) = entry_tables (suc i) ls
entry_tables i (some bins ∷ ls) = entry_table i 0 bins ++ entry_tables (suc i) ls

abbrev pub written_entries : ℕ → ℕ → ℕ → List Section → List Written
written_entries i j k [] = []
written_entries i j k (x ∷ xs) =
    record { daq = i; odt = j; entry = k; content = x } ∷ written_entries i j (suc k) xs

abbrev pub written_odts : ℕ → ℕ → List (Bin Section) → List Written
written_odts i j [] = []
written_odts i j (b ∷ bs) = written_entries i j 0 b.entries ++ written_odts i (suc j) bs

-- Each entry of each list at its place.
abbrev pub written_lists : ℕ → List Layout → List Written
written_lists i [] = []
written_lists i (none ∷ ls) = written_lists (suc i) ls
written_lists i (some bins ∷ ls) = written_odts i 0 bins ++ written_lists (suc i) ls

-- A table that counts the transfer objects of the lists.
abbrev pub CountsOdts : List OdtCount → ℕ → List Layout → Type 0
CountsOdts os i [] = Unit
CountsOdts os i (none ∷ ls) = CountsOdts os (suc i) ls
CountsOdts os i (some bins ∷ ls) = (odt_count i os ≡ length bins) × CountsOdts os (suc i) ls

-- A table that counts the entries of the transfer objects.
abbrev pub CountsEntries : List EntryCount → ℕ → ℕ → List (Bin Section) → Type 0
CountsEntries es i j [] = Unit
CountsEntries es i j (b ∷ bs) =
    (entry_count i j es ≡ length b.entries) × CountsEntries es i (suc j) bs

abbrev pub CountsAll : List EntryCount → ℕ → List Layout → Type 0
CountsAll es i [] = Unit
CountsAll es i (none ∷ ls) = CountsAll es (suc i) ls
CountsAll es i (some bins ∷ ls) = CountsEntries es i 0 bins × CountsAll es (suc i) ls

odt_count-append :
    (pre post : List OdtCount) (i n : ℕ)
    → All (λ o. o.daq < i) pre
    → odt_count i (pre ++ (record { daq = i; odts = n } ∷ post)) ≡ n
odt_count-append [] post i n a = rw (==_refl i, if◌then◌else◌)
odt_count-append (o ∷ pre) post i n a =
    rw (lt→not_== o.daq i a.0, if◌then◌else◌) (odt_count-append pre post i n a.1)

before-suc : (i : ℕ) (os : List OdtCount) → All (λ o. o.daq < i) os → All (λ o. o.daq < suc i) os
before-suc i [] a = tt
before-suc i (o ∷ os) a = (omega (arith, a.0), before-suc i os a.1)

before-append :
    (i n : ℕ) (os : List OdtCount)
    → All (λ o. o.daq < i) os
    → All (λ o. o.daq < suc i) (os ++ (record { daq = i; odts = n } ∷ []))
before-append i n [] a = (omega arith, tt)
before-append i n (o ∷ os) a = (omega (arith, a.0), before-append i n os a.1)

pub odt_table-CountsOdts :
    (i : ℕ) (ls : List Layout) (pre : List OdtCount)
    → All (λ o. o.daq < i) pre
    → CountsOdts (pre ++ odt_table i ls) i ls
odt_table-CountsOdts i [] pre a = tt
odt_table-CountsOdts i (none ∷ ls) pre a = odt_table-CountsOdts (suc i) ls pre (before-suc i pre a)
odt_table-CountsOdts i (some bins ∷ ls) pre a =
    let o : OdtCount = record { daq = i; odts = length bins } in
    (
      odt_count-append pre (odt_table (suc i) ls) i (length bins) a,
      subst (λ os. CountsOdts os (suc i) ls) (append_assoc pre (o ∷ []) (odt_table (suc i) ls))
          (odt_table-CountsOdts (suc i) ls (pre ++ (o ∷ [])) (before-append i (length bins) pre a)),
    )

-- In the order of lists and transfer objects.
abbrev Before : ℕ → ℕ → EntryCount → Type 0
Before i j e = (e.daq < i) ⊎ ((e.daq ≡ i) × (e.odt < j))

other : (i j : ℕ) (e : EntryCount) → Before i j e → ((e.daq == i) && (e.odt == j)) ≡ false
other i j e (inl h) = rw (lt→not_== e.daq i h)
other i j e (inr (p, h)) = rw (p, ==_refl i, lt→not_== e.odt j h)

entry_count-append :
    (pre post : List EntryCount) (i j n : ℕ)
    → All (Before i j) pre
    → entry_count i j (pre ++ (record { daq = i; odt = j; entries = n } ∷ post)) ≡ n
entry_count-append [] post i j n a = rw (==_refl i, ==_refl j, if◌then◌else◌)
entry_count-append (e ∷ pre) post i j n a =
    rw (other i j e a.0, if◌then◌else◌) (entry_count-append pre post i j n a.1)

All-join : {A : Type 0} (P : A → Type 0) (xs ys : List A) → All P xs → All P ys → All P (xs ++ ys)
All-join P [] ys a b = b
All-join P (x ∷ xs) ys a b = (a.0, All-join P xs ys a.1 b)

All-imp :
    {A : Type 0} (P Q : A → Type 0) (xs : List A) → ((x : A) → P x → Q x) → All P xs → All Q xs
All-imp P Q [] f a = tt
All-imp P Q (x ∷ xs) f a = (f x a.0, All-imp P Q xs f a.1)

Before-next : (i j : ℕ) (e : EntryCount) → Before i j e → Before i (suc j) e
Before-next i j e (inl h) = inl h
Before-next i j e (inr (p, h)) = inr (p, omega arith)

Before-later : (i j : ℕ) (e : EntryCount) → Before i j e → Before (suc i) 0 e
Before-later i j e (inl h) = inl (omega arith)
Before-later i j e (inr (p, h)) = inl (omega (arith, p))

entry_table-Before :
    (i j : ℕ) (bs : List (Bin Section)) → All (Before (suc i) 0) (entry_table i j bs)
entry_table-Before i j [] = tt
entry_table-Before i j (b ∷ bs) = (inl (omega arith), entry_table-Before i (suc j) bs)

entry_table-CountsEntries :
    (i j : ℕ) (bs : List (Bin Section)) (pre post : List EntryCount)
    → All (Before i j) pre
    → CountsEntries (pre ++ (entry_table i j bs ++ post)) i j bs
entry_table-CountsEntries i j [] pre post a = tt
entry_table-CountsEntries i j (b ∷ bs) pre post a =
    let e : EntryCount = record { daq = i; odt = j; entries = length b.entries } in
    let here : Before i (suc j) e = inr (refl, omega arith) in
    (
      entry_count-append pre (entry_table i (suc j) bs ++ post) i j (length b.entries) a,
      subst (λ es. CountsEntries es i (suc j) bs)
          (append_assoc pre (e ∷ []) (entry_table i (suc j) bs ++ post))
          (entry_table-CountsEntries i (suc j) bs (pre ++ (e ∷ [])) post (
            All-join (Before i (suc j)) pre (e ∷ [])
              (All-imp (Before i j) (Before i (suc j)) pre (Before-next i j) a) (here, tt))),
    )

pub entry_tables-CountsAll :
    (i : ℕ) (ls : List Layout) (pre : List EntryCount)
    → All (Before i 0) pre
    → CountsAll (pre ++ entry_tables i ls) i ls
entry_tables-CountsAll i [] pre a = tt
entry_tables-CountsAll i (none ∷ ls) pre a =
    entry_tables-CountsAll (suc i) ls pre
      (All-imp (Before i 0) (Before (suc i) 0) pre (Before-later i 0) a)
entry_tables-CountsAll i (some bins ∷ ls) pre a = (
  entry_table-CountsEntries i 0 bins pre (entry_tables (suc i) ls) a,
  subst (λ es. CountsAll es (suc i) ls)
      (append_assoc pre (entry_table i 0 bins) (entry_tables (suc i) ls))
      (entry_tables-CountsAll (suc i) ls (pre ++ entry_table i 0 bins) (
        All-join (Before (suc i) 0) pre (entry_table i 0 bins)
          (All-imp (Before i 0) (Before (suc i) 0) pre (Before-later i 0) a)
          (entry_table-Before i 0 bins))),
)
