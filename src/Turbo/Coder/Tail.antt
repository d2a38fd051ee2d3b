-- ===== src/Turbo/Coder/Tail.antt =====
-- The tail bits, which bring both constituent encoders back to the zero state, and where
-- `srslte_tcod_encode_lut` puts them.
use vbbu.Prelude.{
  ℕ, ◌<◌, ◌≡◌, refl, Bool, true, false, ◌&&◌, Option, none, some, List, [], ◌∷◌, ◌++◌, ltb, arith,
  ◌<<<◌, u8,
}
use vbbu.Prelude.Check.{all_below, all_below_sound, all_pairs, all_pairs_sound}
use vbbu.Prelude.Options.{all_equal, all_equal_sound}
use vbbu.Bit.{unpack, pack, pack_loop}
use vbbu.Turbo.Coder.{Regs, shift, nof_regs, tail_loop, regs_of, tail_nibble}
use vbbu.Turbo.Coder.Constituent.{column}

-- The twelve tail bits of the two encoders.
abbrev pub tails : Regs → Regs → List ℕ
tails r s = (tail_loop nof_regs r).0 ++ (tail_loop nof_regs s).0

nibble_ok : List ℕ → ℕ → Option ℕ → Bool
nibble_ok tail j none = false
nibble_ok tail j (some x) =
    ltb x 16
    && all_equal (unpack x 4) (column j tail)
    && all_equal (unpack (u8 (x <<< 4)) 8) (column j tail ++ (0 ∷ 0 ∷ 0 ∷ 0 ∷ []))

-- The nibble of one column, for all states of the two encoders.
tail_ok : ℕ → ℕ → ℕ → Bool
tail_ok j state0 state1 =
    let tail = tails (regs_of state0) (regs_of state1) in nibble_ok tail j (tail_nibble tail j)

tails_ok : all_below 3 (λ j. all_pairs 8 8 (tail_ok j)) ≡ true
unfolding all_below all_pairs tail_ok nibble_ok tail_nibble tail_loop shift column pack pack_loop
    unpack
tails_ok = refl

pub record IsNibble (tail : List ℕ) (j x : ℕ) : Type 0 where
  pub small : x < 16
  pub bits : unpack x 4 ≡ column j tail
  pub padded : unpack (u8 (x <<< 4)) 8 ≡ column j tail ++ (0 ∷ 0 ∷ 0 ∷ 0 ∷ [])

IsNibble-of_ok :
    (tail : List ℕ) (j : ℕ) (o : Option ℕ)
    → nibble_ok tail j o ≡ true
    → (x : ℕ) × (o ≡ some x) × IsNibble tail j x
unfolding nibble_ok
IsNibble-of_ok tail j none h = cc
IsNibble-of_ok tail j (some x) h = (
  x,
  refl,
  record {
    small = ground arith;
    bits = all_equal_sound _ _ (ground arith);
    padded = all_equal_sound _ _ (ground arith);
  },
)

pub nibble :
    (state0 state1 j : ℕ)
    → state0 < 8
    → state1 < 8
    → j < 3
    → (x : ℕ) × (tail_nibble (tails (regs_of state0) (regs_of state1)) j ≡ some x)
      × IsNibble (tails (regs_of state0) (regs_of state1)) j x
unfolding tail_ok
nibble state0 state1 j h h' hj = IsNibble-of_ok _ j _ (
    all_pairs_sound 8 8 (tail_ok j) state0 state1
      (all_below_sound 3 (λ j. all_pairs 8 8 (tail_ok j)) j tails_ok hj) h h')
