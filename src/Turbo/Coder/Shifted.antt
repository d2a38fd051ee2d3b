-- ===== src/Turbo/Coder/Shifted.antt =====
-- The second loop of `srslte_tcod_encode_lut`, whose parity bytes start in the middle of a byte.
use vbbu.Prelude.{
  ℕ, suc, ◌*◌, ◌%◌, ◌<◌, ◌≡◌, refl, sym, ap, ◌∙◌, Bool, true, ◌&&◌, List, [], ◌∷◌, ◌++◌, length,
  ltb, ◌==◌, arith, bit_and, bit_or, ◌<<<◌, ◌>>>◌, u8, append_assoc, append-nil,
}
use vbbu.Prelude.Check.{all_below, all_pairs, all_pairs_sound}
use vbbu.Prelude.Options.{all_equal, all_equal_sound}
use vbbu.Bit.{unpack}
use vbbu.Bit.Octets.{bits_of, AllBytes}
use vbbu.Turbo.Coder.{regs_of, lut_output, lut_next_state, lut_parity_shifted}
use vbbu.Turbo.Coder.Constituent.{run, run-append}
use vbbu.Turbo.Coder.Lut.{IsEntry, entry}

-- An output byte is split over two bytes of the array.
nibbles_ok : ℕ → ℕ → Bool
nibbles_ok c out =
    let low = bit_and out 0xf in
    all_equal (unpack (bit_or (c * 16) (bit_and out 0xf0 >>> 4)) 8 ++ unpack low 4)
      (unpack c 4 ++ unpack out 8)
    && (u8 (low <<< 4) == low * 16)
    && ltb low 16

all_nibbles_ok : all_pairs 16 256 nibbles_ok ≡ true
unfolding all_pairs all_below nibbles_ok unpack
all_nibbles_ok = refl

record IsSplit (c out : ℕ) : Type 0 where
  halves :
      unpack (bit_or (c * 16) (bit_and out 0xf0 >>> 4)) 8 ++ unpack (bit_and out 0xf) 4
      ≡ unpack c 4 ++ unpack out 8
  moved : u8 (bit_and out 0xf <<< 4) ≡ bit_and out 0xf * 16
  low_small : bit_and out 0xf < 16

IsSplit-of_ok : (c out : ℕ) → nibbles_ok c out ≡ true → IsSplit c out
unfolding nibbles_ok
IsSplit-of_ok c out h = record {
  halves = all_equal_sound _ _ (ground arith);
  moved = ground arith;
  low_small = ground arith;
}

nibbles : (c out : ℕ) → c < 16 → out < 256 → IsSplit c out
nibbles c out hc ho =
    IsSplit-of_ok c out (all_pairs_sound 16 256 nibbles_ok c out all_nibbles_ok hc ho)

-- What the loop leaves: all its bytes but the last, and the upper half of the last, are the bits of
-- `c` and the bits of the encoder that reads bit by bit.
pub record IsSecondParity (bytes : List ℕ) (state c : ℕ) : Type 0 where
  pub front : List ℕ
  pub last : ℕ
  pub bytes_eq : (lut_parity_shifted bytes state (c * 16)).0 ≡ front ++ (last * 16 ∷ [])
  pub last_small : last < 16
  pub front_length : length front ≡ length bytes
  pub bits_eq :
      bits_of front ++ unpack last 4 ≡ unpack c 4 ++ (run (bits_of bytes) (regs_of state)).0
  pub registers :
      regs_of (lut_parity_shifted bytes state (c * 16)).1 ≡ (run (bits_of bytes) (regs_of state)).1
  pub state_small : (lut_parity_shifted bytes state (c * 16)).1 < 8

-- One byte more in front.
second_step :
    (b : ℕ) (bytes : List ℕ) (state c : ℕ)
    → c < 16
    → IsEntry state b
    → IsSecondParity bytes (lut_next_state state b % 8) (bit_and (lut_output state b) 0xf)
    → IsSecondParity (b ∷ bytes) state c
unfolding lut_parity_shifted bits_of
second_step b bytes state c hc e s = record {
  front = bit_or (c * 16) (bit_and (lut_output state b) 0xf0 >>> 4) ∷ s.front;
  last = s.last;
  bytes_eq = rw sp.moved (ap (λ (t : List ℕ). high ∷ t) s.bytes_eq);
  last_small = s.last_small;
  front_length = ap suc s.front_length;
  bits_eq = rw (run-append (unpack b 8) (bits_of bytes) (regs_of state)) (
      rw (← e.registers, ← e.outputs)
        (append_assoc (unpack high 8) (bits_of s.front) (unpack s.last 4)
          ∙ ap (λ (t : List ℕ). unpack high 8 ++ t) s.bits_eq
          ∙ sym (append_assoc (unpack high 8) (unpack low 4) rest)
          ∙ ap (λ (t : List ℕ). t ++ rest) sp.halves
          ∙ append_assoc (unpack c 4) (unpack out 8) rest));
  registers =
      rw (run-append (unpack b 8) (bits_of bytes) (regs_of state))
        (rw (← e.registers) (rw sp.moved s.registers));
  state_small = rw sp.moved s.state_small;
}
  where
    out : ℕ
    out = lut_output state b

    low : ℕ
    low = bit_and out 0xf

    high : ℕ
    high = bit_or (c * 16) (bit_and out 0xf0 >>> 4)

    rest : List ℕ
    rest = (run (bits_of bytes) (regs_of (lut_next_state state b % 8))).0

    sp : IsSplit c out
    sp = nibbles c out hc e.output_small

pub lut_parity_shifted-IsSecondParity :
    (bytes : List ℕ) (state c : ℕ)
    → state < 8
    → c < 16
    → AllBytes bytes
    → IsSecondParity bytes state c
unfolding lut_parity_shifted bits_of run
lut_parity_shifted-IsSecondParity [] state c hs hc small = record {
  front = [];
  last = c;
  bytes_eq = refl;
  last_small = hc;
  front_length = refl;
  bits_eq = sym (append-nil (unpack c 4));
  registers = refl;
  state_small = hs;
}
lut_parity_shifted-IsSecondParity (b ∷ bytes) state c hs hc small =
    let e = entry state b hs small.0 in
    second_step b bytes state c hc e (
      lut_parity_shifted-IsSecondParity bytes (lut_next_state state b % 8)
        (bit_and (lut_output state b) 0xf) (omega arith)
        (nibbles c (lut_output state b) hc e.output_small).low_small small.1)
