-- ===== src/Turbo/Coder/Lut.antt =====
-- The tables of `srslte_tcod_gentable` against the constituent encoder that reads single bits.
use vbbu.Prelude.{
  ℕ, ◌%◌, ◌<◌, ◌≡◌, refl, ap, Bool, true, ◌&&◌, List, [], ◌∷◌, ◌++◌, ltb, ◌==◌, arith,
}
use vbbu.Prelude.Check.{all_below, all_pairs, all_pairs_sound}
use vbbu.Prelude.Options.{all_equal, all_equal_sound}
use vbbu.Bit.{unpack}
use vbbu.Bit.Octets.{bits_of, AllBytes}
use vbbu.Turbo.Coder.{Regs, shift, regs_of, lut_loop, lut_output, lut_next_state, lut_parity}
use vbbu.Turbo.Coder.Constituent.{run, run-append}

regs_equal : Regs → Regs → Bool
regs_equal r s = (r.reg_0 == s.reg_0) && (r.reg_1 == s.reg_1) && (r.reg_2 == s.reg_2)

regs_equal_sound : (r s : Regs) → regs_equal r s ≡ true → r ≡ s
unfolding regs_equal
regs_equal_sound r s h =
    let e0 : r.reg_0 ≡ s.reg_0 = ground arith in
    let e1 : r.reg_1 ≡ s.reg_1 = ground arith in
    let e2 : r.reg_2 ≡ s.reg_2 = ground arith in
    λ i. record { reg_0 = e0 i; reg_1 = e1 i; reg_2 = e2 i }

-- The entries for one state and one byte.
entry_ok : ℕ → ℕ → Bool
entry_ok state b =
    let coded = run (unpack b 8) (regs_of state) in
    all_equal (unpack (lut_output state b) 8) coded.0
    && regs_equal (regs_of (lut_next_state state b % 8)) coded.1
    && ltb (lut_output state b) 256

entries_ok : all_pairs 8 256 entry_ok ≡ true
unfolding all_pairs all_below entry_ok regs_equal run unpack lut_output lut_next_state lut_loop
    shift
entries_ok = refl

pub record IsEntry (state b : ℕ) : Type 0 where
  pub outputs : unpack (lut_output state b) 8 ≡ (run (unpack b 8) (regs_of state)).0
  pub registers : regs_of (lut_next_state state b % 8) ≡ (run (unpack b 8) (regs_of state)).1
  pub output_small : lut_output state b < 256

IsEntry-of_ok : (state b : ℕ) → entry_ok state b ≡ true → IsEntry state b
unfolding entry_ok
IsEntry-of_ok state b h = record {
  outputs = all_equal_sound _ _ (ground arith);
  registers = regs_equal_sound _ _ (ground arith);
  output_small = ground arith;
}

pub entry : (state b : ℕ) → state < 8 → b < 256 → IsEntry state b
entry state b hs hb =
    IsEntry-of_ok state b (all_pairs_sound 8 256 entry_ok state b entries_ok hs hb)

-- `lut_parity` writes the bits of the encoder that reads the bits of the input one by one.
pub lut_parity-run :
    (bytes : List ℕ) (state : ℕ)
    → state < 8
    → AllBytes bytes
    → (bits_of (lut_parity bytes state).0 ≡ (run (bits_of bytes) (regs_of state)).0)
      × (regs_of (lut_parity bytes state).1 ≡ (run (bits_of bytes) (regs_of state)).1)
      × ((lut_parity bytes state).1 < 8)
unfolding lut_parity bits_of run
lut_parity-run [] state hs small = (refl, refl, hs)
lut_parity-run (b ∷ bytes) state hs small =
    let e = entry state b hs small.0 in
    let next = lut_next_state state b % 8 in
    let (outputs, registers, bound) = lut_parity-run bytes next (omega arith) small.1 in
    rw (run-append (unpack b 8) (bits_of bytes) (regs_of state)) (
      rw (← e.registers, ← e.outputs)
        (ap (λ (t : List ℕ). unpack (lut_output state b) 8 ++ t) outputs, registers, bound))
