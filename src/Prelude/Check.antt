-- ===== src/Prelude/Check.antt =====
-- A statement about every number below a bound, checked by evaluation.
use Prim.Native.Nat.{ℕ, zero, suc, ◌+◌, ◌-◌, ◌<◌, ◌≤◌}
use mathlib.Core.Path.{◌≡◌}
use mathlib.Core.Bool.{Bool, true, ◌&&◌}
use native.Mathlib.Omega.{arith}

unfoldable pub all_below : ℕ → (ℕ → Bool) → Bool
all_below zero test = true
all_below (suc bound) test = all_below bound test && test bound

pub all_below_sound :
    (bound : ℕ) (test : ℕ → Bool) (k : ℕ) → all_below bound test ≡ true → k < bound → test k ≡ true
unfolding all_below
all_below_sound zero test k checked inside = absurd (omega arith)
all_below_sound (suc bound) test k checked inside = ground (arith, all_below_sound bound test k)

-- The same for the numbers from `lo` on.
pub check_range :
    (lo n : ℕ) (p : ℕ → Bool) (x : ℕ)
    → all_below n (λ k. p (k + lo)) ≡ true
    → lo ≤ x
    → x < n + lo
    → p x ≡ true
check_range lo n p x h low high =
    let e : x - lo + lo ≡ x = omega arith in
    rw e at (all_below_sound n (λ k. p (k + lo)) (x - lo) h (omega arith))

-- The same for all pairs.
unfoldable pub all_pairs : ℕ → ℕ → (ℕ → ℕ → Bool) → Bool
all_pairs n m test = all_below n (λ a. all_below m (test a))

pub all_pairs_sound :
    (n m : ℕ) (test : ℕ → ℕ → Bool) (a b : ℕ)
    → all_pairs n m test ≡ true
    → a < n
    → b < m
    → test a b ≡ true
unfolding all_pairs
all_pairs_sound n m test a b checked ha hb =
    all_below_sound m (test a) b (all_below_sound n (λ a. all_below m (test a)) a checked ha) hb
