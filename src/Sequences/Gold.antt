-- ===== src/Sequences/Gold.antt =====
-- The arrays of srslte/lib/common/sequence.c against the shift registers of 36.211 section 7.2.
use mathlib.Core.Path.{subst}
use native.Mathlib.Decide.{dec_lt}
use vbbu.Prelude.{
  ℕ, zero, suc, ◌+◌, ◌/◌, ◌%◌, ◌^◌, ◌≤◌, ◌<◌, ◌≡◌, refl, sym, ap, ◌∙◌, bit_and, false, List, get_or,
  set, replicate, length, length-set, length-replicate, get_or-replicate, get_or-set,
  get_or-set_other, arith, ◌==◌, if◌then◌else◌,
}
use vbbu.Prelude.Bits.{bit_and-one}
use vbbu.Sequences.{
  next_x1, next_x2, fill_loop, seed_loop, array1, array2, sum_loop, set_lte_pr, nc,
}

-- A shift register of 31 cells: each cell takes the next one's value, and the last the sum of its taps.
unfoldable pub shifted : ((ℕ → ℕ) → ℕ) → (ℕ → ℕ) → ℕ → ℕ
shifted feedback x i = if i == 30 then feedback x else x (i + 1)

unfoldable pub register : ((ℕ → ℕ) → ℕ) → (ℕ → ℕ) → ℕ → ℕ → ℕ
register feedback x zero = x
register feedback x (suc n) = shifted feedback (register feedback x n)

-- The bit that leaves the register after `n` shifts.
pub output : ((ℕ → ℕ) → ℕ) → (ℕ → ℕ) → ℕ → ℕ
output feedback x n = register feedback x n 0

pub feedback1 : (ℕ → ℕ) → ℕ
feedback1 x = (x 3 + x 0) % 2

pub feedback2 : (ℕ → ℕ) → ℕ
feedback2 x = (x 3 + x 2 + x 1 + x 0) % 2

pub start1 : ℕ → ℕ
start1 i = if i == 0 then 1 else 0

pub start2 : ℕ → ℕ → ℕ
start2 seed i = seed / 2 ^ i % 2

register-output :
    (f : (ℕ → ℕ) → ℕ) (x : ℕ → ℕ) (i n : ℕ) → i < 31 → register f x n i ≡ output f x (n + i)
unfolding register shifted output
register-output f x zero n h = let e : n + 0 ≡ n = omega arith in rw e refl
register-output f x (suc i) n h =
    let other : (i == 30) ≡ false = ground arith in
    let same : suc n + i ≡ n + suc i = omega arith in
    let one : i + 1 ≡ suc i = omega arith in
    let here : register f x n (suc i) ≡ register f x (suc n) i =
      rw other (ap (register f x n) (sym one)) in
    here ∙ register-output f x i (suc n) (omega arith) ∙ ap (output f x) same

register-last : (f : (ℕ → ℕ) → ℕ) (x : ℕ → ℕ) (n : ℕ) → output f x (n + 31) ≡ f (register f x n)
unfolding register shifted
register-last f x n =
    let e : suc n + 30 ≡ n + 31 = omega arith in
    ap (output f x) (sym e) ∙ sym (register-output f x 30 (suc n) (omega arith))

-- The entries of an array before index `k` are those of a function.
Agrees : ℕ → List ℕ → (ℕ → ℕ) → Type 0
Agrees k x f = (i : ℕ) → i < k → get_or x i 0 ≡ f i

set-Agrees :
    (k : ℕ) (x : List ℕ) (f : ℕ → ℕ) (v : ℕ)
    → k < length x
    → Agrees k x f
    → v ≡ f k
    → Agrees (k + 1) (set x k v) f
unfolding Agrees
set-Agrees k x f v h a e i hi = elim (dec_lt i k) [
  | yes below ↦ get_or-set_other x k i v 0 (λ p. absurd (omega arith)) ∙ a i below
  | no last ↦ let same : i ≡ k = omega arith in rw same (get_or-set x k v 0 h ∙ e)
]

module _ (next : (ℕ → ℕ) → ℕ) (f : ℕ → ℕ)
    (step : (n : ℕ) (g : ℕ → ℕ) → ((i : ℕ) → i < 31 → g i ≡ f (n + i)) → next g ≡ f (n + 31)) where
  fill_loop-Agrees :
      (k n : ℕ) (x : List ℕ)
      → n + k + 31 ≤ length x
      → Agrees (n + 31) x f
      → Agrees (n + k + 31) (fill_loop next k n x) f
  unfolding fill_loop Agrees
  fill_loop-Agrees zero n x h a = let e : n + 0 + 31 ≡ n + 31 = omega arith in rw e a
  fill_loop-Agrees (suc k) n x h a =
      let v : ℕ = next (λ i. get_or x (n + i) 0) in
      let y : List ℕ = set x (n + 31) v in
      let e : n + 31 + 1 ≡ n + 1 + 31 = omega arith in
      let e' : n + 1 + k + 31 ≡ n + suc k + 31 = omega arith in
      let stored : Agrees (n + 1 + 31) y f =
        subst (λ t. Agrees t y f) e
          (set-Agrees (n + 31) x f v (omega arith) a
            (step n (λ i. get_or x (n + i) 0) (λ i hi. a (n + i) (omega arith)))) in
      subst (λ t. Agrees t (fill_loop next k (n + 1) y) f) e'
        (fill_loop-Agrees k (n + 1) y (omega (arith, length-set x (n + 31) v)) stored)

seed_loop-Agrees :
    (seed k n : ℕ) (x : List ℕ)
    → n + k ≤ length x
    → Agrees n x (start2 seed)
    → Agrees (n + k) (seed_loop seed k n x) (start2 seed)
unfolding seed_loop start2
seed_loop-Agrees seed zero n x h a = let e : n + 0 ≡ n = omega arith in rw e a
seed_loop-Agrees seed (suc k) n x h a =
    let v : ℕ = bit_and (seed / 2 ^ n) 1 in
    let e : n + 1 + k ≡ n + suc k = omega arith in
    subst (λ t. Agrees t (seed_loop seed k (n + 1) (set x n v)) (start2 seed)) e
      (seed_loop-Agrees seed k (n + 1) (set x n v) (omega (arith, length-set x n v))
        (set-Agrees n x (start2 seed) v (omega arith) a (bit_and-one (seed / 2 ^ n))))

length-seed_loop : (seed k n : ℕ) (x : List ℕ) → length (seed_loop seed k n x) ≡ length x
unfolding seed_loop
length-seed_loop seed zero n x = refl
length-seed_loop seed (suc k) n x =
    length-seed_loop seed k (n + 1) (set x n (bit_and (seed / 2 ^ n) 1))
    ∙ length-set x n (bit_and (seed / 2 ^ n) 1)

next_x1-output :
    (n : ℕ) (g : ℕ → ℕ)
    → ((i : ℕ) → i < 31 → g i ≡ output feedback1 start1 (n + i))
    → next_x1 g ≡ output feedback1 start1 (n + 31)
unfolding next_x1 feedback1
next_x1-output n g h =
    let at : (i : ℕ) → i < 31 → g i ≡ register feedback1 start1 n i =
      λ i hi. h i hi ∙ sym (register-output feedback1 start1 i n hi) in
    rw (register-last feedback1 start1 n) (
      rw (at 3 (omega arith), at 0 (omega arith))
        (bit_and-one (register feedback1 start1 n 3 + register feedback1 start1 n 0)))

next_x2-output :
    (seed n : ℕ) (g : ℕ → ℕ)
    → ((i : ℕ) → i < 31 → g i ≡ output feedback2 (start2 seed) (n + i))
    → next_x2 g ≡ output feedback2 (start2 seed) (n + 31)
unfolding next_x2 feedback2
next_x2-output seed n g h =
    let r : ℕ → ℕ = register feedback2 (start2 seed) n in
    let at : (i : ℕ) → i < 31 → g i ≡ r i =
      λ i hi. h i hi ∙ sym (register-output feedback2 (start2 seed) i n hi) in
    rw (register-last feedback2 (start2 seed) n) (
      rw (at 3 (omega arith), at 2 (omega arith), at 1 (omega arith), at 0 (omega arith))
        (bit_and-one (r 3 + r 2 + r 1 + r 0)))

register-start : (f : (ℕ → ℕ) → ℕ) (x : ℕ → ℕ) (i : ℕ) → i < 31 → x i ≡ output f x i
unfolding register
register-start f x i h =
    let e : 0 + i ≡ i = omega arith in register-output f x i 0 h ∙ ap (output f x) e

set-start1 : (k i : ℕ) → 0 < k → get_or (set (replicate k 0) 0 1) i 0 ≡ start1 i
unfolding start1
set-start1 k zero h = get_or-set (replicate k 0) 0 1 0 (omega (arith, length-replicate {A = ℕ} k 0))
set-start1 k (suc i) h =
    let other : (suc i == 0) ≡ false = ground arith in
    rw other (
      get_or-set_other (replicate k 0) 0 (suc i) 1 0 (λ p. absurd (omega arith))
      ∙ get_or-replicate k (suc i) 0)

array1-Agrees : (len : ℕ) → Agrees (0 + (nc + len) + 31) (array1 len) (output feedback1 start1)
unfolding array1 Agrees
array1-Agrees len =
    let x : List ℕ = replicate (nc + len + 31) 0 in
    let size : length x ≡ nc + len + 31 = length-replicate (nc + len + 31) 0 in
    fill_loop-Agrees next_x1 (output feedback1 start1) next_x1-output (nc + len) 0 (set x 0 1)
      (omega (arith, length-set x 0 1, size))
      (λ i hi. set-start1 (nc + len + 31) i (omega arith) ∙ register-start feedback1 start1 i hi)

array2-Agrees :
    (len seed : ℕ) → Agrees (0 + (nc + len) + 31) (array2 len seed) (output feedback2 (start2 seed))
unfolding array2 Agrees
array2-Agrees len seed =
    let x : List ℕ = replicate (nc + len + 31) 0 in
    let size : length x ≡ nc + len + 31 = length-replicate (nc + len + 31) 0 in
    fill_loop-Agrees next_x2 (output feedback2 (start2 seed)) (next_x2-output seed) (nc + len) 0
      (seed_loop seed 31 0 x) (omega (arith, length-seed_loop seed 31 0 x, size))
      (λ i hi.
        seed_loop-Agrees seed 31 0 x (omega (arith, size)) (λ j hj. absurd (omega arith)) i hi
        ∙ register-start feedback2 (start2 seed) i hi)

length-sum_loop : (x1 x2 : List ℕ) (k n : ℕ) → length (sum_loop x1 x2 k n) ≡ k
unfolding sum_loop
length-sum_loop x1 x2 zero n = refl
length-sum_loop x1 x2 (suc k) n = ap suc (length-sum_loop x1 x2 k (n + 1))

get_or-sum_loop :
    (x1 x2 : List ℕ) (k n i : ℕ)
    → i < k
    → get_or (sum_loop x1 x2 k n) i 0 ≡ (get_or x1 (n + i + nc) 0 + get_or x2 (n + i + nc) 0) % 2
unfolding sum_loop
get_or-sum_loop x1 x2 zero n i h = absurd (omega arith)
get_or-sum_loop x1 x2 (suc k) n zero h =
    let e : n + 0 ≡ n = omega arith in
    rw e (bit_and-one (get_or x1 (n + nc) 0 + get_or x2 (n + nc) 0))
get_or-sum_loop x1 x2 (suc k) n (suc i) h =
    let e : n + 1 + i ≡ n + suc i = omega arith in
    rw⁻¹ e (get_or-sum_loop x1 x2 k (n + 1) i (omega arith))

-- The sequence of a seed has the length asked for, and its bit `n` is the sum modulo 2 of the bits that leave
-- two shift registers of 31 cells after `n + 1600` shifts, the first started with a one, the second with the seed.
pub set_lte_pr-registers :
    (len seed : ℕ)
    → (length (set_lte_pr len seed) ≡ len)
      × ((n : ℕ)
          → n < len
          → get_or (set_lte_pr len seed) n 0
            ≡ (output feedback1 start1 (n + 1600) + output feedback2 (start2 seed) (n + 1600)) % 2)
unfolding set_lte_pr Agrees
set_lte_pr-registers len seed = (
  length-sum_loop (array1 len) (array2 len seed) len 0,
  λ n h.
      let a : get_or (array1 len) (n + 1600) 0 ≡ output feedback1 start1 (n + 1600) =
        array1-Agrees len (n + 1600) (omega arith) in
      let b : get_or (array2 len seed) (n + 1600) 0 ≡ output feedback2 (start2 seed) (n + 1600) =
        array2-Agrees len seed (n + 1600) (omega arith) in
      let e : 0 + n + 1600 ≡ n + 1600 = omega arith in
      let c = rw e at (get_or-sum_loop (array1 len) (array2 len seed) len 0 n h) in
      c
      ∙ (ap (λ t. (t + get_or (array2 len seed) (n + 1600) 0) % 2) a
          ∙ ap (λ t. (output feedback1 start1 (n + 1600) + t) % 2) b),
)
