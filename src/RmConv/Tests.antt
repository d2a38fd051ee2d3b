-- ===== src/RmConv/Tests.antt =====
-- Rate matching at concrete values, for srslte/lib/fec/rm_conv.c.
use vbbu.Prelude.{
  ℕ, zero, suc, ◌*◌, ◌/◌, ◌<◌, ◌≡◌, some, List, [], ◌∷◌, map, get_or, length, arith, success,
}
use vbbu.RmConv.{rm_conv_tx, rm_conv_rx}
use vbbu.RmConv.Ends.{rm_conv_tx-ends}
use vbbu.RmConv.Integers.{ℤ, pos, integers, llr, Says, readable}
use vbbu.RmConv.RoundTrip.{rm_conv_rx-rm_conv_tx}

abbrev six : List ℕ
six = 1 ∷ 0 ∷ 1 ∷ 1 ∷ 0 ∷ 0 ∷ []

six_bits : (i : ℕ) → get_or six i 0 < 2
six_bits zero = omega arith
six_bits (suc zero) = omega arith
six_bits (suc (suc zero)) = omega arith
six_bits (suc (suc (suc zero))) = omega arith
six_bits (suc (suc (suc (suc zero)))) = omega arith
six_bits (suc (suc (suc (suc (suc zero))))) = omega arith
six_bits (suc (suc (suc (suc (suc (suc i)))))) = omega arith

rm_conv_tx-ends_example :
    (out : List ℕ) × (rm_conv_tx six 6 72 ≡ some (success, out)) × (length out ≡ 72)
rm_conv_tx-ends_example =
    rm_conv_tx-ends six 6 72 (omega arith) (omega arith)
      (λ i. λ e. absurd (omega (arith, six_bits i, e)))

-- Each bit is sent twice.
rm_conv_rx-rm_conv_tx_example :
    (out : List ℕ) × (rm_conv_tx six 6 12 ≡ some (success, out))
    × (length out ≡ 12)
    × (values : List ℤ) × (rm_conv_rx integers (map llr out) 6 ≡ some (success, values))
    × (length values ≡ 3 * (6 / 3))
    × ((i : ℕ) → i < 3 * (6 / 3) → Says (get_or six i 0) (get_or values i (pos 0)))
rm_conv_rx-rm_conv_tx_example =
    rm_conv_rx-rm_conv_tx integers llr Says readable six 6 12 (omega arith) (omega arith) six_bits
      (omega arith)
