-- ===== src/Ra/Ul/Hopping.antt =====
-- Type 1 frequency hopping stays inside the band and can be undone.
use vbbu.Prelude.{
  ℕ, ◌+◌, ◌-◌, ◌*◌, ◌/◌, ◌%◌, ◌≤◌, ◌<◌, ◌≡◌, ◌∙◌, ltb, if◌then◌else◌, arith, Bool-cases, inl, inr,
  ltb→lt, ltb→ge,
}
use native.Mathlib.Nat.{mod-eq_of_lt, mod-eq-sub-mod}
use vbbu.Ra.Ul.{second_slot, hop_quart, hop_quart_neg, hop_half}

-- Modulo once around.
wrap : (x n : ℕ) → 1 ≤ n → x < 2 * n → x % n ≡ (if ltb x n then x else x - n)
wrap x n pos lt = elim (Bool-cases (ltb x n)) [
  | inl once ↦ rw once (mod-eq_of_lt (ltb→lt x n once))
  | inr more ↦
      let over : n ≤ x = ltb→ge x n more in
      let back : x - n < n = omega arith in rw more (mod-eq-sub-mod over ∙ mod-eq_of_lt back)
]

-- For a band of 1 to 110 resource blocks and a first block inside it, each of the three ways of
-- hopping leads to a block inside the band, and hopping back by a quarter undoes hopping by a
-- quarter.
pub second_slot-inside :
    (n start : ℕ)
    → 1 ≤ n
    → n ≤ 110
    → start < n
    → (second_slot hop_quart n start < n)
      × (second_slot hop_quart_neg n start < n)
      × (second_slot hop_half n start < n)
      × (second_slot hop_quart_neg n (second_slot hop_quart n start) ≡ start)
unfolding second_slot
second_slot-inside n start pos small inside =
    let a = wrap (n / 4 + start) n pos (omega arith) in
    let b = wrap (n / 2 + start) n pos (omega arith) in ground (arith, a, b)
