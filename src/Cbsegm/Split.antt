-- ===== src/Cbsegm/Split.antt =====
-- The arithmetic of the segmentation: the numbers of blocks, of blocks of either size, and of filler
-- bits.
use native.Mathlib.Nat.{mul-le-mul, mod-add-div, mod-lt}
use vbbu.Prelude.{
  ℕ, ◌+◌, ◌-◌, ◌*◌, ◌/◌, ◌%◌, ◌^◌, ◌≤◌, ◌<◌, ◌≡◌, ◌≢◌, refl, ap, ◌∙◌, arith, u32, sub32, ap₂,
}
use vbbu.Cbsegm.{blocks, with_crc}

-- `c` blocks of `k1` and `k2` bits, `q` of them of the smaller size.
smaller_fewer : (c k2 d q m : ℕ) → c * k2 < m → q * d + m ≤ c * (k2 + d) → q < c
smaller_fewer c k2 d q m over total = grind arith

mixed_sum : (e q k2 d : ℕ) → e * (k2 + d) + q * k2 + q * d ≡ (e + q) * (k2 + d)
mixed_sum e q k2 d = grind arith

-- The largest block needed, when `m` bits go to `c` blocks.
abbrev pub need : ℕ → ℕ → ℕ
need m c = (m - 1) / c + 1

pub need_bounds :
    (m c : ℕ)
    → 1 ≤ c
    → 1 ≤ m
    → m ≤ 6144 * c
    → (m ≤ c * need m c) × (c * (need m c - 1) < m) × (need m c ≤ 6144)
need_bounds m c pos some_bits total =
    let q : ℕ = (m - 1) / c in
    let parts : (m - 1) % c + c * q ≡ m - 1 = mod-add-div (m - 1) c in
    let rest : (m - 1) % c < c = mod-lt (m - 1) pos in
    let back : q + 1 - 1 ≡ q = omega arith in
    (grind arith, rw back (omega (arith, parts, some_bits)), grind arith)

pub blocks_bounds :
    (b : ℕ)
    → 25 ≤ b
    → b < 2 ^ 23
    → (1 ≤ blocks b)
      × (blocks b ≤ 1371)
      × (1 ≤ with_crc b)
      × (with_crc b ≤ 6144 * blocks b)
      × (with_crc b < 2 ^ 24)
unfolding blocks with_crc
blocks_bounds b lo hi = ground arith

pub many_blocks :
    (b : ℕ)
    → b < 2 ^ 23
    → blocks b ≢ 1
    → (6144 < b) × (with_crc b ≡ b + 24 * blocks b) × (41 * blocks b < with_crc b)
unfolding blocks with_crc
many_blocks b hi many = ground arith

pub one_block : (b : ℕ) → blocks b ≡ 1 → (b ≤ 6144) × (with_crc b ≡ b)
unfolding blocks with_crc
one_block b one = ground arith

product_below : (c k1 : ℕ) → c ≤ 1371 → k1 ≤ 6144 → c * k1 ≤ 8423424
product_below c k1 hc hk = mul-le-mul hc hk

exact_sub : (a b : ℕ) → a < 2 ^ 32 → b ≤ a → sub32 a b ≡ a - b
exact_sub a b small le = omega arith

-- `q` blocks of `k2` bits and the others of `k1` bits hold `m` bits and a rest.
counts :
    (c k1 k2 d m : ℕ)
    → k1 ≡ k2 + d
    → 1 ≤ d
    → c * k2 < m
    → m ≤ c * k1
    → (q : ℕ) × (r : ℕ) × ((c * k1 - m) / d ≡ q)
      × (q < c)
      × ((c - q) * k1 + q * k2 ≡ m + r)
      × (r < d)
counts c k1 k2 d m apart pos over total =
    let q : ℕ = (c * k1 - m) / d in
    let r : ℕ = (c * k1 - m) % d in
    let parts : r + d * q ≡ c * k1 - m = mod-add-div (c * k1 - m) d in
    let same : c * k1 ≡ c * (k2 + d) = ap (λ (x : ℕ). c * x) apart in
    let same' : (c - q) * k1 ≡ (c - q) * (k2 + d) = ap (λ (x : ℕ). (c - q) * x) apart in
    let fewer : q < c = smaller_fewer c k2 d q m over (grind arith) in
    let whole : (c - q + q) * (k2 + d) ≡ c * (k2 + d) =
      let e : c - q + q ≡ c = omega arith in ap (λ (x : ℕ). x * (k2 + d)) e in
    let mixed = mixed_sum (c - q) q k2 d in
    (q, r, refl, fewer, grind arith, mod-lt (c * k1 - m) pos)

pub many_counts :
    (c k1 k2 m : ℕ)
    → c ≤ 1371
    → k1 ≤ 6144
    → k2 < k1
    → c * k2 < m
    → m ≤ c * k1
    → (q : ℕ) × (r : ℕ) × (sub32 (u32 (c * k1)) m / sub32 k1 k2 ≡ q)
      × (sub32 c q + q ≡ c)
      × (1 ≤ sub32 c q)
      × (sub32 c q * k1 + q * k2 ≡ m + r)
      × (k2 + r < k1)
      × (sub32 (u32 (sub32 c q * k1 + q * k2)) m ≡ r)
many_counts c k1 k2 m hc hk lt over total =
    let (q, r, quot, fewer, sum, rest) =
      counts c k1 k2 (k1 - k2) m (omega arith) (omega arith) over total in
    let small = product_below c k1 hc hk in
    let e1 : sub32 (u32 (c * k1)) m ≡ c * k1 - m = omega arith in
    let e2 : sub32 k1 k2 ≡ k1 - k2 = omega arith in
    let e3 : sub32 c q ≡ c - q = omega arith in
    let sum' : sub32 c q * k1 + q * k2 ≡ m + r = rw e3 sum in
    (
      q,
      r,
      ap₂ (λ (x y : ℕ). x / y) e1 e2 ∙ quot,
      omega arith,
      omega arith,
      sum',
      omega arith,
      omega arith,
    )
