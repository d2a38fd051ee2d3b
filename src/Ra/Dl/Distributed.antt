-- ===== src/Ra/Dl/Distributed.antt =====
-- Distributed virtual resource blocks at gap 1 are mapped into the cell, no two to the same block.
use vbbu.Prelude.{
  ℕ, zero, suc, ◌+◌, ◌≤◌, ◌<◌, ◌≡◌, ◌≢◌, inl, inr, refl, sym, ap, ◌∙◌, Bool-cases, ==_iff, List, [],
  ◌∷◌, Bool, true, false, ltb, ◌==◌, ◌&&◌, not, arith,
}
use vbbu.Prelude.Check.{all_below, all_below_sound, check_range}
use vbbu.Ra.Types.{ng1}
use vbbu.Ra.Type2.{type2_n_vrb_dl, type2_ngap, type0_p}
use vbbu.Ra.Dl.{Spread, spread, tilde_odd, tilde_even, past_gap}

-- The values of a function below a bound, and whether they are distinct.
unfoldable images : (ℕ → ℕ) → ℕ → List ℕ
images f zero = []
images f (suc n) = f n ∷ images f n

unfoldable absent : ℕ → List ℕ → Bool
absent x [] = true
absent x (y ∷ ys) = not (x == y) && absent x ys

unfoldable distinct : List ℕ → Bool
distinct [] = true
distinct (x ∷ xs) = absent x xs && distinct xs

absent-images : (f : ℕ → ℕ) (n x w : ℕ) → absent x (images f n) ≡ true → w < n → x ≢ f w
unfolding images absent
absent-images f zero x w h lt = absurd (omega arith)
absent-images f (suc n) x w h lt = elim (Bool-cases (w == n)) [
  | inl last ↦
      let e : f w ≡ f n = ap f ((==_iff w n).0 last) in
      let apart : (x == f n) ≡ false = ground arith in λ p. absurd (ground (arith, p, e, apart))
  | inr before ↦ absent-images f n x w (ground arith) (ground arith)
]

distinct-images : (f : ℕ → ℕ) (n v w : ℕ) → distinct (images f n) ≡ true → w < v → v < n → f v ≢ f w
unfolding images distinct
distinct-images f zero v w h lt up = absurd (omega arith)
distinct-images f (suc n) v w h lt up = elim (Bool-cases (v == n)) [
  | inl last ↦
      let e : f v ≡ f n = ap f ((==_iff v n).0 last) in
      let apart = absent-images f n (f n) w (ground arith) (ground (arith, last)) in
      λ p. apart (sym e ∙ p)
  | inr before ↦ distinct-images f n v w (ground arith) lt (ground (arith, before))
]

abbrev slot0 : Spread → ℕ → ℕ
slot0 s v = past_gap s (tilde_odd s v)

abbrev slot1 : Spread → ℕ → ℕ
slot1 s v = past_gap s (tilde_even s v)

abbrev vrb_inside : Spread → ℕ → ℕ → Bool
vrb_inside s n v = ltb (slot0 s v) n && ltb (slot1 s v) n

abbrev cell_inside : ℕ → Spread → Bool
cell_inside n s =
    s.tilde == type2_n_vrb_dl n true
    && all_below s.tilde (vrb_inside s n)
    && distinct (images (slot0 s) s.tilde)
    && distinct (images (slot1 s) s.tilde)

inside_table : all_below 109 (λ k. cell_inside (k + 2) (spread ng1 (k + 2))) ≡ true
unfolding all_below spread type2_n_vrb_dl type2_ngap type0_p tilde_odd tilde_even past_gap images
    absent distinct
inside_table = refl

-- For a cell of 2 to 110 resource blocks and gap 1, each virtual block below `N_tilde_vrb` has in
-- each of the two slots a physical block of the cell, and two virtual blocks have different ones.
pub distributed-inside :
    (n v : ℕ)
    → 2 ≤ n
    → n ≤ 110
    → v < type2_n_vrb_dl n true
    → (past_gap (spread ng1 n) (tilde_odd (spread ng1 n) v) < n)
      × (past_gap (spread ng1 n) (tilde_even (spread ng1 n) v) < n)
      × ((w : ℕ)
          → w < v
          → (past_gap (spread ng1 n) (tilde_odd (spread ng1 n) v)
              ≢ past_gap (spread ng1 n) (tilde_odd (spread ng1 n) w))
            × (past_gap (spread ng1 n) (tilde_even (spread ng1 n) v)
                ≢ past_gap (spread ng1 n) (tilde_even (spread ng1 n) w)))
distributed-inside n v lo hi below =
    let s : Spread = spread ng1 n in
    let cell =
      check_range 2 109 (λ m. cell_inside m (spread ng1 m)) n inside_table lo (omega arith) in
    let size : s.tilde ≡ type2_n_vrb_dl n true = ground (arith, cell) in
    let up : v < s.tilde = omega (arith, size) in
    let inside = all_below_sound s.tilde (vrb_inside s n) v (ground (arith, cell)) up in
    (
      ground (arith, inside),
      ground (arith, inside),
      λ w lt. (
        distinct-images (slot0 s) s.tilde v w (ground (arith, cell)) lt up,
        distinct-images (slot1 s) s.tilde v w (ground (arith, cell)) lt up,
      ),
    )
