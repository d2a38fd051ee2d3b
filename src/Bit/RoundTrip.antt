-- ===== src/Bit/RoundTrip.antt =====
-- Reading back what `srslte_bit_unpack` wrote, for words of any width.
use native.Mathlib.Nat.{pow-le-pow_right, one-le-pow, mod-eq_of_lt, zero-add}
use vbbu.Prelude.{
  ℕ, zero, suc, ◌+◌, ◌*◌, ◌/◌, ◌%◌, ◌^◌, ◌≤◌, ◌<◌, ◌≡◌, refl, ap, ◌∙◌, bit_and, bit_or, some, List,
  ◌++◌, length, arith, ◌<<<◌, ◌>>>◌,
}
use vbbu.Prelude.Bits.{bit_and-one, bit_or_disjoint, two-pow, mod-two-pow_suc, div-two-pow_suc}
use vbbu.Bit.{pack_loop, pack, pack_l, unpack}

pub length-unpack : (v n : ℕ) → length (unpack v n) ≡ n
unfolding unpack
length-unpack v zero = refl
length-unpack v (suc n) = ap suc (length-unpack v n)

-- The top digit of the `k + 1` low digits, and the others.
pub top_digit : (k v : ℕ) → v % 2 ^ suc k ≡ v / 2 ^ k % 2 * 2 ^ k + v % 2 ^ k
top_digit zero v = omega arith
top_digit (suc k) v = omega (
  arith,
  mod-two-pow_suc (suc k) v,
  mod-two-pow_suc k v,
  top_digit k (v / 2),
  two-pow k,
  div-two-pow_suc k v,
  ap (λ (t : ℕ). v / 2 ^ suc k % 2 * t) (two-pow k),
  ap (λ (t : ℕ). t % 2 * 2 ^ k) (div-two-pow_suc k v),
)

digit-le : (d p : ℕ) → d < 2 → d * p ≤ p
digit-le zero p h = omega arith
digit-le (suc zero) p h = omega arith
digit-le (suc (suc d)) p h = absurd (omega arith)

-- One more digit appended to an accumulator, as `|` of a shifted bit.
append_digit :
    (w k q v : ℕ)
    → suc k ≤ w
    → bit_or (q * 2 ^ suc k) (bit_and (v >>> k) 1 <<< k % 2 ^ w) ≡ (2 * q + v / 2 ^ k % 2) * 2 ^ k
append_digit w k q v h = rw (bit_and-one (v / 2 ^ k)) (
    rw (mod-eq_of_lt {n = d * 2 ^ k} {m = 2 ^ w} fits_word) (
      omega (arith, bit_or_disjoint (suc k) q (d * 2 ^ k) fits, ap (λ (t : ℕ). q * t) (two-pow k))))
  where
    d : ℕ
    d = v / 2 ^ k % 2

    fits : d * 2 ^ k < 2 ^ suc k
    fits = omega (arith, digit-le d (2 ^ k) (omega arith), two-pow k, one-le-pow k 2)

    fits_word : d * 2 ^ k < 2 ^ w
    fits_word = omega (arith, fits, pow-le-pow_right {n = 2} (omega arith) h)

-- Reading `k` bits appends the `k` low digits of the value to what has been read.
pack_loop-unpack :
    (w k q v : ℕ) (rest : List ℕ)
    → k ≤ w
    → pack_loop w k (q * 2 ^ k) (unpack v k ++ rest) ≡ some (q * 2 ^ k + v % 2 ^ k, rest)
unfolding pack_loop unpack
pack_loop-unpack w zero q v rest h = ap (λ (t : ℕ). some (t, rest)) (omega arith)
pack_loop-unpack w (suc k) q v rest h = rw (append_digit w k q v h) (
    pack_loop-unpack w k (2 * q + v / 2 ^ k % 2) v rest (omega arith)
    ∙ ap (λ (t : ℕ). some (t, rest))
        (omega (arith, top_digit k v, ap (λ (t : ℕ). q * t) (two-pow k))))

-- For up to 32 bits, `srslte_bit_pack` reads from what `srslte_bit_unpack` wrote the low bits of
-- the value, and moves the pointer behind them.
pub pack-unpack :
    (n v : ℕ) (rest : List ℕ) → n ≤ 32 → pack n (unpack v n ++ rest) ≡ some (v % 2 ^ n, rest)
unfolding pack
pack-unpack n v rest h =
    let e : 0 * 2 ^ n ≡ 0 = omega arith in
    rw zero-add at (rw e at (pack_loop-unpack 32 n 0 v rest h))

-- For up to 64 bits, `srslte_bit_pack_l` reads from what `srslte_bit_unpack_l` wrote the low bits of
-- the value, and moves the pointer behind them.
pack_l-unpack :
    (n v : ℕ) (rest : List ℕ) → n ≤ 64 → pack_l n (unpack v n ++ rest) ≡ some (v % 2 ^ n, rest)
unfolding pack_l
pack_l-unpack n v rest h =
    let e : 0 * 2 ^ n ≡ 0 = omega arith in
    rw zero-add at (rw e at (pack_loop-unpack 64 n 0 v rest h))
