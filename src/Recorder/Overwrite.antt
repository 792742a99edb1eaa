-- ===== src/Recorder/Overwrite.antt =====
-- Assignments to slices of the mapped file (pyxcp/recorder/reco.py: XcpLogFileWriter.set).
use pyxcp.Prelude.{
  ℕ, suc, ◌+◌, ◌≤◌, ◌≡◌, sym, ap, ◌∙◌, List, [], ◌∷◌, ◌++◌, append_assoc, length, length-append,
  length-take, length-drop, take, drop, take-append-drop, le→leb, if◌then◌else◌, arith,
}
use pyxcp.Recorder.Writer.{LogWriter, done, overwrite, set}

pub length-overwrite :
    (a : ℕ) (d f : List ℕ) → a + length d ≤ length f → length (overwrite a d f) ≡ length f
unfolding overwrite
length-overwrite a d f h = omega (
  arith,
  length-append (take a f) (d ++ drop (a + length d) f),
  length-append d (drop (a + length d) f),
  length-take a f,
  length-drop (a + length d) f,
)

pub take-past : (a b : List ℕ) (k : ℕ) → take (length a + k) (a ++ b) ≡ a ++ take k b
take-past [] b k = let e : 0 + k ≡ k = omega arith in ap (λ n. take n b) e
take-past (x ∷ a) b k =
    let e : suc (length a) + k ≡ suc (length a + k) = omega arith in
    ap (λ n. take n (x ∷ a ++ b)) e ∙ ap (λ xs. x ∷ xs) (take-past a b k)

pub drop-past : (a b : List ℕ) (k : ℕ) → drop (length a + k) (a ++ b) ≡ drop k b
drop-past [] b k = let e : 0 + k ≡ k = omega arith in ap (λ n. drop n b) e
drop-past (x ∷ a) b k =
    let e : suc (length a) + k ≡ suc (length a + k) = omega arith in
    ap (λ n. drop n (x ∷ a ++ b)) e ∙ drop-past a b k

-- What lies before the address stays.
pub overwrite-past :
    (a d b : List ℕ) (k : ℕ) → overwrite (length a + k) d (a ++ b) ≡ a ++ overwrite k d b
unfolding overwrite
overwrite-past a d b k =
    let e : length a + k + length d ≡ length a + (k + length d) = omega arith in
    ap (λ xs. xs ++ (d ++ drop (length a + k + length d) (a ++ b))) (take-past a b k)
    ∙ ap (λ n. (a ++ take k b) ++ (d ++ drop n (a ++ b))) e
    ∙ ap (λ xs. (a ++ take k b) ++ (d ++ xs)) (drop-past a b (k + length d))
    ∙ append_assoc a (take k b) (d ++ drop (k + length d) b)

-- A header of `k` bytes is written in front of the data.
pub overwrite-two :
    (h d r : List ℕ)
    → length h + length d ≤ length r
    → overwrite 0 h (overwrite (length h) d r) ≡ h ++ (d ++ drop (length h + length d) r)
unfolding overwrite
overwrite-two h d r l =
    let e : 0 + length h ≡ length (take (length h) r) + 0 =
      omega (arith, length-take (length h) r) in
    ap (λ n. h ++ drop n (take (length h) r ++ (d ++ drop (length h + length d) r))) e
    ∙ ap (λ xs. h ++ xs) (drop-past (take (length h) r) (d ++ drop (length h + length d) r) 0)

pub overwrite-front : (h a b : List ℕ) → length h ≡ length a → overwrite 0 h (a ++ b) ≡ h ++ b
unfolding overwrite
overwrite-front h a b e =
    let f : 0 + length h ≡ length a + 0 = omega (arith, e) in
    ap (λ n. h ++ drop n (a ++ b)) f ∙ ap (λ xs. h ++ xs) (drop-past a b 0)

-- Within the file, `set` does not raise.
pub set-done :
    (a : ℕ) (d : List ℕ) (w : LogWriter)
    → a + length d ≤ length w.mapping
    → set a d w ≡ done (record w { mapping = overwrite a d w.mapping })
unfolding set overwrite
set-done a [] w h =
    let e : a + 0 ≡ a = omega arith in
    ap (λ f. done (record w { mapping = f }))
      (sym (take-append-drop a w.mapping) ∙ ap (λ n. take a w.mapping ++ drop n w.mapping) (sym e))
set-done a (b ∷ bs) w h = rw (le→leb (a + length (b ∷ bs)) (length w.mapping) h, if◌then◌else◌)
