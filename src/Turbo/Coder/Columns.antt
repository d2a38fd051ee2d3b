-- ===== src/Turbo/Coder/Columns.antt =====
-- What `srslte_tcod_encode` writes, column by column: the input, and the outputs of the two
-- constituent encoders.
use vbbu.Prelude.{
  ℕ, zero, suc, ◌+◌, ◌≤◌, ◌<◌, ◌≡◌, refl, ap, some, List, [], ◌∷◌, ◌++◌, get_or, length, arith,
  ◌==◌, false,
}
use vbbu.Bit.Interleave.Picks.{picks, get_elem?_found}
use vbbu.Turbo.Coder.{Regs, shift, tx_null, encode_loop}
use vbbu.Turbo.Coder.Constituent.{run, column}

-- `n` elements from `i` on.
unfoldable pub slice : List ℕ → ℕ → ℕ → List ℕ
slice xs i zero = []
slice xs i (suc n) = get_or xs i 0 ∷ slice xs (i + 1) n

-- `n` bits that are picked by the interleaver, in an input of bits.
pub record CanCode (input per : List ℕ) (n : ℕ) : Type 0 where
  pub input_room : n ≤ length input
  pub per_room : n ≤ length per
  pub inside : (i : ℕ) → i < n → get_or per i 0 < length input
  pub bits : (i : ℕ) → get_or input i 0 < 2

not_null : (x : ℕ) → x < 2 → (x == tx_null) ≡ false
not_null x h = ground arith

module _ (input per : List ℕ) (k : ℕ) (c : CanCode input per k) where
  -- What `n` rounds of the loop write, and the registers behind them.
  pub record IsCoded (n i : ℕ) (reg1 reg2 : Regs) : Type 0 where
    pub out : List ℕ
    pub loop_eq :
        encode_loop input per n i reg1 reg2
        ≡ some (out, (run (slice input i n) reg1).1, (run (picks input per i n) reg2).1)
    pub systematic : (tail : List ℕ) → column 0 (out ++ tail) ≡ slice input i n ++ column 0 tail
    pub first :
        (tail : List ℕ) → column 1 (out ++ tail) ≡ (run (slice input i n) reg1).0 ++ column 1 tail
    pub second :
        (tail : List ℕ)
        → column 2 (out ++ tail) ≡ (run (picks input per i n) reg2).0 ++ column 2 tail

  round_IsCoded :
      (n i : ℕ) (reg1 reg2 : Regs)
      → i < k
      → IsCoded n
          (i + 1)
          (shift (get_or input i 0) reg1).1
          (shift (get_or input (get_or per i 0) 0) reg2).1
      → IsCoded (suc n) i reg1 reg2
  unfolding encode_loop run column slice picks
  round_IsCoded n i reg1 reg2 h r =
      let x = get_or input i 0 in
      let p = get_or per i 0 in
      let y = get_or input p 0 in
      let one = shift x reg1 in
      let two = shift y reg2 in
      record {
        out = x ∷ one.0 ∷ two.0 ∷ r.out;
        loop_eq = rw (get_elem?_found input i (omega (arith, c.input_room))) (
            rw (get_elem?_found per i (omega (arith, c.per_room))) (
              rw (get_elem?_found input p (c.inside i h))
                (rw (not_null x (c.bits i)) (rw (not_null y (c.bits p)) (rw r.loop_eq refl)))));
        systematic = λ tail. ap (λ (t : List ℕ). x ∷ t) (r.systematic tail);
        first = λ tail. ap (λ (t : List ℕ). one.0 ∷ t) (r.first tail);
        second = λ tail. ap (λ (t : List ℕ). two.0 ∷ t) (r.second tail);
      }

  pub encode_loop-IsCoded : (n i : ℕ) (reg1 reg2 : Regs) → i + n ≤ k → IsCoded n i reg1 reg2
  unfolding encode_loop run column slice picks
  encode_loop-IsCoded zero i reg1 reg2 h = record {
    out = [];
    loop_eq = refl;
    systematic = λ tail. refl;
    first = λ tail. refl;
    second = λ tail. refl;
  }
  encode_loop-IsCoded (suc n) i reg1 reg2 h =
      round_IsCoded n i reg1 reg2 (omega arith) (encode_loop-IsCoded n (i + 1) _ _ (omega arith))
