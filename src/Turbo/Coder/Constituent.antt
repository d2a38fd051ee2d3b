-- ===== src/Turbo/Coder/Constituent.antt =====
-- One constituent encoder as a machine that reads bits, and what `srslte_tcod_encode` writes in
-- terms of two of them.
use vbbu.Prelude.{ℕ, ◌≡◌, refl, ap, List, [], ◌∷◌, ◌++◌, get_or}
use vbbu.Turbo.Coder.{Regs, shift}

-- The outputs for a list of bits, and the registers behind them.
unfoldable pub run : List ℕ → Regs → List ℕ × Regs
run [] r = ([], r)
run (b ∷ bits) r = let next = shift b r in let rest = run bits next.1 in (next.0 ∷ rest.0, rest.1)

pub run-append :
    (xs ys : List ℕ) (r : Regs)
    → run (xs ++ ys) r ≡ ((run xs r).0 ++ (run ys (run xs r).1).0, (run ys (run xs r).1).1)
unfolding run
run-append [] ys r = refl
run-append (x ∷ xs) ys r =
    ap (λ (p : List ℕ × Regs). ((shift x r).0 ∷ p.0, p.1)) (run-append xs ys (shift x r).1)

-- The elements at the places 3 * i + j.
unfoldable pub column : ℕ → List ℕ → List ℕ
column j [] = []
column j (x ∷ []) = []
column j (x ∷ y ∷ []) = []
column j (x ∷ y ∷ z ∷ xs) = get_or (x ∷ y ∷ z ∷ []) j 0 ∷ column j xs
