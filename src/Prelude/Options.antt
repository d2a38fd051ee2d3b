-- ===== src/Prelude/Options.antt =====
-- Chains of reads that can fail, and the equality test on lists of numbers.
use Prim.Native.Nat.{ℕ}
use mathlib.Core.Path.{◌≡◌, refl, ap₂}
use mathlib.Core.Bool.{Bool, true, false, ◌&&◌}
use mathlib.Core.Option.{Option, none, some}
use mathlib.Core.List.{List, [], ◌∷◌}
use native.Mathlib.Omega.{arith}
use vbbu.Prelude.Tests.{◌==◌, ==_iff}

infixl 5 ◌>>=◌
abbrev pub ◌>>=◌ {ℓ κ} : {A : Type ℓ} {B : Type κ} → Option A → (A → Option B) → Option B
none >>= f = none
some a >>= f = f a

pub >>=-eq-some {ℓ κ} :
    {A : Type ℓ} {B : Type κ} (m : Option A) (f : A → Option B) {b : B}
    → (m >>= f) ≡ some b
    → (a : A) × (m ≡ some a) × (f a ≡ some b)
>>=-eq-some none f h = cc
>>=-eq-some (some a) f h = (a, refl, h)

abbrev pub all_equal : List ℕ → List ℕ → Bool
all_equal [] [] = true
all_equal [] (y ∷ ys) = false
all_equal (x ∷ xs) [] = false
all_equal (x ∷ xs) (y ∷ ys) = (x == y) && all_equal xs ys

pub all_equal_sound : (xs ys : List ℕ) → all_equal xs ys ≡ true → xs ≡ ys
all_equal_sound [] [] h = refl
all_equal_sound [] (y ∷ ys) h = cc
all_equal_sound (x ∷ xs) [] h = cc
all_equal_sound (x ∷ xs) (y ∷ ys) h =
    ap₂ ◌∷◌ ((==_iff x y).0 (ground arith)) (all_equal_sound xs ys (ground arith))
