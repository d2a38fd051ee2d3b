-- ===== src/Convcoder/Tests.antt =====
-- The convolutional coder at concrete values, for srslte/lib/fec/convcoder.c.
use vbbu.Prelude.{
  ℕ, zero, suc, ◌+◌, ◌*◌, ◌/◌, ◌%◌, ◌^◌, ◌<◌, ◌≡◌, refl, bit_and, true, some, List, [], ◌∷◌, get_or,
  length, arith,
}
use vbbu.Convcoder.{Convcoder, encode, encode_loop, outputs, push, preload, start}
use vbbu.Convcoder.Register.{taps}
use vbbu.Convcoder.Cyclic.{encode-taps}

-- The parity of the seven bits that the generators of the channels read.
parity : ℕ → ℕ
parity x = (x + x / 2 + x / 4 + x / 8 + x / 16 + x / 32 + x / 64) % 2

abbrev tail_biting : Convcoder
tail_biting = record { rate = 3; k = 7; poly = 0x6d ∷ 0x4f ∷ 0x57 ∷ []; tail_biting = true }

abbrev frame : List ℕ
frame = 1 ∷ 0 ∷ 0 ∷ 0 ∷ 0 ∷ 0 ∷ 0 ∷ 0 ∷ 0 ∷ []

-- A single one shows the bits of the generators.
encode_run :
    encode parity tail_biting frame 9
    ≡ some (
        1 ∷ 1 ∷ 1 ∷ 0 ∷ 1 ∷ 1 ∷ 1 ∷ 1 ∷ 1 ∷ 1 ∷ 1 ∷ 0 ∷ 0 ∷ 0 ∷ 1 ∷ 1 ∷ 0 ∷ 0 ∷ 1 ∷ 1 ∷ 1 ∷ 0 ∷ 0
        ∷ 0 ∷ 0 ∷ 0 ∷ 0 ∷ [])
unfolding encode encode_loop outputs push preload start parity
encode_run = refl

generators : (l : ℕ) → l < 3 → get_or (0x6d ∷ 0x4f ∷ 0x57 ∷ []) l 0 < 2 ^ suc 6
generators zero h = omega arith
generators (suc zero) h = omega arith
generators (suc (suc zero)) h = omega arith
generators (suc (suc (suc l))) h = absurd (omega arith)

encode-taps_example :
    (out : List ℕ) × (encode parity tail_biting frame 9 ≡ some out)
    × (length out ≡ 9 * 3)
    × ((i l : ℕ)
        → i < 9
        → l < 3
        → get_or out (i * 3 + l) 0
          ≡ parity (bit_and (taps frame 9 7 i) (get_or (0x6d ∷ 0x4f ∷ 0x57 ∷ []) l 0)))
encode-taps_example =
    encode-taps parity tail_biting frame 9 6 refl (omega arith) generators refl (omega arith)
      (omega arith)
