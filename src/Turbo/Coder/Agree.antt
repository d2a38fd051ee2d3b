-- ===== src/Turbo/Coder/Agree.antt =====
-- `srslte_tcod_encode_lut`, which works on bytes with tables, against `srslte_tcod_encode`, which
-- works on bits.
use vbbu.Prelude.{
  ℕ, suc, ◌+◌, ◌*◌, ◌/◌, ◌≡◌, refl, sym, ap, ap₂, ◌∙◌, some, List, [], ◌∷◌, ◌++◌, length, take,
  drop, length-append, append_assoc, append-nil, arith, get_or-get_elem?, get_elem?-append_at,
  ge→ltb,
}
use vbbu.Bit.Octets.{bits_of, AllBytes, bits_of-append, length-bits_of, bits_of-bit}
use vbbu.Bit.{unpack}
use vbbu.Bit.Interleave.{bit_interleave}
use vbbu.Bit.Interleave.Picks.{picks, Stays}
use vbbu.Turbo.Coder.{
  Regs, cleared, regs_of, prefix, encode_loop, encode_lut_size, lut_parity, lut_parity_shifted,
  lut_tails,
}
use vbbu.Turbo.Coder.Constituent.{run, column}
use vbbu.Turbo.Coder.Lut.{lut_parity-run}
use vbbu.Turbo.Coder.Shifted.{lut_parity_shifted-IsSecondParity}
use vbbu.Turbo.Coder.Tail.{tails}
use vbbu.Turbo.Coder.Merge.{IsTailed, lut_tails-IsTailed}
use vbbu.Turbo.Coder.Columns.{slice, CanCode, IsCoded, encode_loop-IsCoded}

take-append : (xs ys : List ℕ) → take (length xs) (xs ++ ys) ≡ xs
take-append [] ys = refl
take-append (x ∷ xs) ys = ap (λ (t : List ℕ). x ∷ t) (take-append xs ys)

prefix-append : (n : ℕ) (xs ys : List ℕ) → length xs ≡ n → prefix n (xs ++ ys) ≡ some xs
prefix-append n xs ys e =
    rw (ge→ltb (length (xs ++ ys)) n (omega (arith, length-append xs ys)))
      (ap (λ (t : List ℕ). some t) (rw e at (take-append xs ys)))

prefix_whole : (n : ℕ) (xs : List ℕ) → length xs ≡ n → prefix n xs ≡ some xs
prefix_whole n xs e = rw (append-nil xs) at (prefix-append n xs [] e)

slice_from :
    (before xs : List ℕ) (i : ℕ) → length before ≡ i → slice (before ++ xs) i (length xs) ≡ xs
unfolding slice
slice_from before [] i e = refl
slice_from before (x ∷ xs) i e =
    ap₂ ◌∷◌ (get_or-get_elem? (before ++ (x ∷ xs)) i x 0 (get_elem?-append_at before x xs i e)) (
      rw (append_assoc before (x ∷ []) xs) at (
        slice_from (before ++ (x ∷ [])) xs (i + 1)
          (omega (arith, length-append before (x ∷ []), e))))

slice_all : (xs : List ℕ) → slice xs 0 (length xs) ≡ xs
slice_all xs = slice_from [] xs 0 refl

-- The input that `srslte_tcod_encode` can code: the bits of the bytes.
CanCode-of_Stays :
    (bytes per : List ℕ) (n : ℕ)
    → length bytes ≡ n
    → Stays bytes per (n * 8)
    → CanCode (bits_of bytes) per (n * 8)
CanCode-of_Stays bytes per n e s = record {
  input_room = omega (arith, length-bits_of bytes);
  per_room = s.entries;
  inside = λ i h. omega (arith, length-bits_of bytes, s.inside i h);
  bits = bits_of-bit bytes;
}

-- What the two encoders write for one block: `srslte_tcod_encode` the bits `out`, three for each
-- bit of the block and twelve tail bits, and `srslte_tcod_encode_lut` the byte `systematic` behind
-- its input and the bytes `parity`.
pub record Agree (bytes temp per : List ℕ) (n : ℕ) : Type 0 where
  pub coded : List ℕ
  pub reg1 : Regs
  pub reg2 : Regs
  pub systematic : ℕ
  pub parity : List ℕ
  pub loop_eq : encode_loop (bits_of bytes) per (n * 8) 0 cleared cleared ≡ some (coded, reg1, reg2)
  pub lut_eq : encode_lut_size temp per bytes (n * 8) ≡ some (3 * (n * 8) + 12, systematic, parity)
  pub same_systematic :
      column 0 (coded ++ tails reg1 reg2) ++ (0 ∷ 0 ∷ 0 ∷ 0 ∷ [])
      ≡ bits_of (bytes ++ (systematic ∷ []))
  pub same_parity :
      column 1 (coded ++ tails reg1 reg2) ++ column 2 (coded ++ tails reg1 reg2) ≡ bits_of parity

length-lut_parity : (bytes : List ℕ) (state : ℕ) → length (lut_parity bytes state).0 ≡ length bytes
unfolding lut_parity
length-lut_parity [] state = refl
length-lut_parity (b ∷ bytes) state = ap suc (length-lut_parity bytes _)

regroup : (a b c d : List ℕ) → (a ++ b) ++ (c ++ d) ≡ a ++ ((b ++ c) ++ d)
regroup a b c d = append_assoc a b (c ++ d) ∙ ap (λ (t : List ℕ). a ++ t) (sym (append_assoc b c d))

module _ (bytes temp per : List ℕ) (n c : ℕ) (outs : List ℕ) where
  abbrev bits : List ℕ
  bits = bits_of bytes

  abbrev picked : List ℕ
  picked = picks bits per 0 (n * 8)

  abbrev reg1 : Regs
  reg1 = (run bits cleared).1

  abbrev reg2 : Regs
  reg2 = (run picked cleared).1

  abbrev first : List ℕ × ℕ
  first = lut_parity bytes 0

  abbrev second : List ℕ × ℕ
  second = lut_parity_shifted (c ∷ outs) 0 0

  -- The tails, in terms of the encoders that read bits.
  tailed :
      length bytes ≡ n
      → AllBytes bytes
      → length (c ∷ outs) ≡ n
      → AllBytes (c ∷ outs)
      → bits_of (c ∷ outs) ≡ picked
      → IsTailed first.0
          (tails reg1 reg2)
          (run picked cleared).0
          (lut_tails first.0 second.0 first.1 second.1 n)
  tailed hb small ho small' e =
      let (outputs, registers, bound) = lut_parity-run bytes 0 (omega arith) small in
      let s = lut_parity_shifted-IsSecondParity (c ∷ outs) 0 0 (omega arith) (omega arith) small' in
      let t =
        lut_tails-IsTailed first.0 n c outs first.1 0 (omega (arith, length-lut_parity bytes 0)) ho
          bound (omega arith) small' in
      let in_bits : regs_of second.1 ≡ reg2 = rw e at s.registers in
      rw registers at (rw in_bits at (rw e at t))

  pub Agree-of :
      length bytes ≡ n
      → AllBytes bytes
      → length (c ∷ outs) ≡ n
      → AllBytes (c ∷ outs)
      → bits_of (c ∷ outs) ≡ picked
      → Stays bytes per (n * 8)
      → bit_interleave bytes temp per (n * 8) ≡ some ((c ∷ outs) ++ drop n temp)
      → Agree bytes temp per n
  unfolding encode_lut_size bits_of
  Agree-of hb small ho small' e stays interleaved = record {
    coded = code.out;
    reg1 = reg1;
    reg2 = reg2;
    systematic = t.systematic;
    parity = t.parity;
    loop_eq = rw all at code.loop_eq;
    lut_eq = rw whole (
        rw (prefix_whole n bytes hb) (
          rw interleaved
            (rw (prefix-append n (c ∷ outs) (drop n temp) ho) (rw t.written_eq refl))));
    same_systematic =
        ap (λ (xs : List ℕ). xs ++ zeros) (rw all at (code.systematic tail))
        ∙ append_assoc bits (column 0 tail) zeros
        ∙ ap (λ (xs : List ℕ). bits ++ xs)
            (sym t.systematic_bits ∙ sym (append-nil (unpack t.systematic 8)))
        ∙ sym (bits_of-append bytes (t.systematic ∷ []));
    same_parity =
        ap₂ ◌++◌ (rw all at (code.first tail)) (code.second tail)
        ∙ regroup (run bits cleared).0 (column 1 tail) (run picked cleared).0 (column 2 tail)
        ∙ ap (λ (xs : List ℕ). xs ++ ((column 1 tail ++ (run picked cleared).0) ++ column 2 tail))
            (sym (lut_parity-run bytes 0 (omega arith) small).0)
        ∙ sym t.parity_bits;
  }
    where
      t :
          IsTailed first.0
            (tails reg1 reg2)
            (run picked cleared).0
            (lut_tails first.0 second.0 first.1 second.1 n)
      t = tailed hb small ho small' e

      code :
          IsCoded bits per (n * 8) (CanCode-of_Stays bytes per n hb stays) (n * 8) 0 cleared cleared
      code =
          encode_loop-IsCoded bits per (n * 8) (CanCode-of_Stays bytes per n hb stays) (n * 8) 0
            cleared cleared (omega arith)

      count : length bits ≡ n * 8
      count = omega (arith, length-bits_of bytes)

      all : slice bits 0 (n * 8) ≡ bits
      all = rw count at (slice_all bits)

      whole : n * 8 / 8 ≡ n
      whole = omega arith

      tail : List ℕ
      tail = tails reg1 reg2

      zeros : List ℕ
      zeros = 0 ∷ 0 ∷ 0 ∷ 0 ∷ []
