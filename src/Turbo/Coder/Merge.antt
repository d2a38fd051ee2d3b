-- ===== src/Turbo/Coder/Merge.antt =====
-- Where the last steps of `srslte_tcod_encode_lut` put the tail bits: in front of the second parity
-- part, and behind it.
use vbbu.Prelude.{
  ℕ, zero, suc, ◌*◌, ◌<◌, ◌≡◌, refl, sym, ap, ap₂, ◌∙◌, Bool, true, Option, some, List, [], ◌∷◌,
  ◌++◌, length, ◌==◌, arith, bit_and, bit_or, ◌<<<◌, ◌>>>◌, u8, ==_iff, length-append, append_assoc,
  append-nil,
}
use vbbu.Prelude.Check.{all_below, all_pairs, all_pairs_sound}
use vbbu.Prelude.Options.{all_equal, all_equal_sound}
use vbbu.Bit.{unpack}
use vbbu.Bit.Octets.{bits_of, AllBytes, bits_of-append}
use vbbu.Turbo.Coder.{regs_of, tail_nibble, or_at, lut_output, lut_tails, lut_parity_shifted}
use vbbu.Turbo.Coder.Constituent.{column, run}
use vbbu.Turbo.Coder.Lut.{entry}
use vbbu.Turbo.Coder.Tail.{tails, nibble, IsNibble}
use vbbu.Turbo.Coder.Shifted.{IsSecondParity, lut_parity_shifted-IsSecondParity}

-- An element of an array is changed by `|=`.
or_at-append :
    (xs : List ℕ) (y : ℕ) (ys : List ℕ) (v n : ℕ)
    → length xs ≡ n
    → or_at (xs ++ (y ∷ ys)) n v ≡ xs ++ (bit_or y v ∷ ys)
or_at-append [] y ys v zero e = refl
or_at-append [] y ys v (suc n) e = absurd (omega arith)
or_at-append (x ∷ xs) y ys v zero e = absurd (omega arith)
or_at-append (x ∷ xs) y ys v (suc n) e =
    ap (λ (t : List ℕ). x ∷ t) (or_at-append xs y ys v n (omega arith))

merge_ok : ℕ → ℕ → Bool
merge_ok x out =
    bit_or (bit_or 0 (bit_and out 0xf0 >>> 4)) (u8 (x <<< 4))
    == bit_or (x * 16) (bit_and out 0xf0 >>> 4)

merges_ok : all_pairs 16 256 merge_ok ≡ true
unfolding all_pairs all_below merge_ok
merges_ok = refl

last_ok : ℕ → ℕ → Bool
last_ok c x = all_equal (unpack (bit_or (c * 16) (bit_and x 0xf)) 8) (unpack c 4 ++ unpack x 4)

lasts_ok : all_pairs 16 16 last_ok ≡ true
unfolding all_pairs all_below last_ok unpack
lasts_ok = refl

-- The byte at the border of the two parts.
first_cell :
    (x out : ℕ)
    → x < 16
    → out < 256
    → bit_or (bit_or 0 (bit_and out 0xf0 >>> 4)) (u8 (x <<< 4))
      ≡ bit_or (x * 16) (bit_and out 0xf0 >>> 4)
unfolding merge_ok
first_cell x out hx ho = (==_iff _ _).0 (all_pairs_sound 16 256 merge_ok x out merges_ok hx ho)

last_cell :
    (c x : ℕ)
    → c < 16
    → x < 16
    → unpack (bit_or (c * 16) (bit_and x 0xf)) 8 ≡ unpack c 4 ++ unpack x 4
unfolding last_ok
last_cell c x hc hx = all_equal_sound _ _ (all_pairs_sound 16 16 last_ok c x lasts_ok hc hx)

-- What the second loop leaves when the tail bits `x` of the first are put in front of it.
merge_first :
    (b : ℕ) (bytes : List ℕ) (state x : ℕ)
    → x < 16
    → lut_output state b < 256
    → or_at (lut_parity_shifted (b ∷ bytes) state 0).0 0 (u8 (x <<< 4))
      ≡ (lut_parity_shifted (b ∷ bytes) state (x * 16)).0
unfolding lut_parity_shifted
merge_first b bytes state x hx ho = rw (first_cell x (lut_output state b) hx ho) refl

module _ (first : List ℕ) (n b : ℕ) (bytes : List ℕ) (state : ℕ) where
  -- The byte at the end of the first parity part is the first of the second.
  border :
      (x : ℕ)
      → length first ≡ n
      → x < 16
      → lut_output state b < 256
      → (s : IsSecondParity (b ∷ bytes) state x)
      → or_at (first ++ (lut_parity_shifted (b ∷ bytes) state 0).0) n (u8 (x <<< 4))
        ≡ first ++ (s.front ++ (s.last * 16 ∷ []))
  unfolding lut_parity_shifted
  border x e small ho s =
      or_at-append first _ _ _ n e
      ∙ ap (λ (t : List ℕ). first ++ t) (merge_first b bytes state x small ho ∙ s.bytes_eq)

  last_merged :
      (x w : ℕ)
      → length first ≡ n
      → length (b ∷ bytes) ≡ n
      → (s : IsSecondParity (b ∷ bytes) state x)
      → or_at (first ++ (s.front ++ (s.last * 16 ∷ []))) (2 * n) w
        ≡ (first ++ s.front) ++ (bit_or (s.last * 16) w ∷ [])
  last_merged x w e e' s =
      ap (λ (t : List ℕ). or_at t (2 * n) w) (sym (append_assoc first s.front (s.last * 16 ∷ [])))
      ∙ or_at-append (first ++ s.front) (s.last * 16) [] w (2 * n)
          (omega (arith, length-append first s.front, s.front_length))

  -- The bits of the array with both nibbles in their places.
  merged_bits :
      (x1 x2 : ℕ)
      → x2 < 16
      → (s : IsSecondParity (b ∷ bytes) state x1)
      → bits_of ((first ++ s.front) ++ (bit_or (s.last * 16) (bit_and x2 0xf) ∷ []))
        ≡ bits_of first
          ++ ((unpack x1 4 ++ (run (bits_of (b ∷ bytes)) (regs_of state)).0) ++ unpack x2 4)
  unfolding bits_of
  merged_bits x1 x2 small s =
      let c = bit_or (s.last * 16) (bit_and x2 0xf) in
      bits_of-append (first ++ s.front) (c ∷ [])
      ∙ ap₂ ◌++◌ (bits_of-append first s.front)
          (append-nil (unpack c 8) ∙ last_cell s.last x2 s.last_small small)
      ∙ append_assoc (bits_of first) (bits_of s.front) (unpack s.last 4 ++ unpack x2 4)
      ∙ ap (λ (t : List ℕ). bits_of first ++ t)
          (sym (append_assoc (bits_of s.front) (unpack s.last 4) (unpack x2 4))
            ∙ ap (λ (t : List ℕ). t ++ unpack x2 4) s.bits_eq)

-- What `lut_tails` leaves, `tail` being the twelve tail bits and `second` the bits of the second
-- encoder.
pub record IsTailed (first tail second : List ℕ) (written : Option (ℕ × List ℕ)) : Type 0 where
  pub systematic : ℕ
  pub parity : List ℕ
  pub written_eq : written ≡ some (systematic, parity)
  pub systematic_bits : unpack systematic 8 ≡ column 0 tail ++ (0 ∷ 0 ∷ 0 ∷ 0 ∷ [])
  pub parity_bits : bits_of parity ≡ bits_of first ++ ((column 1 tail ++ second) ++ column 2 tail)

lut_tails-nibbles :
    (first second : List ℕ) (state0 state1 n x0 x1 x2 : ℕ)
    → let tail = tails (regs_of state0) (regs_of state1) in
      tail_nibble tail 0 ≡ some x0
      → tail_nibble tail 1 ≡ some x1
      → tail_nibble tail 2 ≡ some x2
      → lut_tails first second state0 state1 n
        ≡ some (
          u8 (x0 <<< 4),
          or_at (or_at (first ++ second) n (u8 (x1 <<< 4))) (2 * n) (bit_and x2 0xf),
        )
unfolding lut_tails
lut_tails-nibbles first second state0 state1 n x0 x1 x2 e0 e1 e2 = rw e0 (rw e1 (rw e2 refl))

module _ (first : List ℕ) (n b : ℕ) (bytes : List ℕ) (state0 state : ℕ) where
  abbrev second : List ℕ × ℕ
  second = lut_parity_shifted (b ∷ bytes) state 0

  abbrev tail : List ℕ
  tail = tails (regs_of state0) (regs_of second.1)

  placed :
      (x0 x1 x2 : ℕ)
      → tail_nibble tail 0 ≡ some x0
      → tail_nibble tail 1 ≡ some x1
      → tail_nibble tail 2 ≡ some x2
      → IsNibble tail 0 x0
      → IsNibble tail 1 x1
      → IsNibble tail 2 x2
      → length first ≡ n
      → length (b ∷ bytes) ≡ n
      → lut_output state b < 256
      → IsSecondParity (b ∷ bytes) state x1
      → IsTailed first tail
          (run (bits_of (b ∷ bytes)) (regs_of state)).0
          (lut_tails first second.0 state0 second.1 n)
  placed x0 x1 x2 e0 e1 e2 n0 n1 n2 hf hb ho s = record {
    systematic = u8 (x0 <<< 4);
    parity = (first ++ s.front) ++ (bit_or (s.last * 16) (bit_and x2 0xf) ∷ []);
    written_eq =
        lut_tails-nibbles first second.0 state0 second.1 n x0 x1 x2 e0 e1 e2
        ∙ ap (λ (t : List ℕ). some (u8 (x0 <<< 4), t))
            (ap (λ (t : List ℕ). or_at t (2 * n) (bit_and x2 0xf))
                (border first n b bytes state x1 hf n1.small ho s)
              ∙ last_merged first n b bytes state x1 (bit_and x2 0xf) hf hb s);
    systematic_bits = n0.padded;
    parity_bits = rw (← n1.bits, ← n2.bits) (merged_bits first n b bytes state x1 x2 n2.small s);
  }

  -- The tail bits of the first encoder end the first part of `parity`, and those of the second the
  -- second part.
  pub lut_tails-IsTailed :
      length first ≡ n
      → length (b ∷ bytes) ≡ n
      → state0 < 8
      → state < 8
      → AllBytes (b ∷ bytes)
      → IsTailed first tail
          (run (bits_of (b ∷ bytes)) (regs_of state)).0
          (lut_tails first second.0 state0 second.1 n)
  lut_tails-IsTailed hf hb h0 h small =
      let zero_cell = lut_parity_shifted-IsSecondParity (b ∷ bytes) state 0 h (omega arith) small in
      let h1 = zero_cell.state_small in
      let (x0, e0, n0) = nibble state0 second.1 0 h0 h1 (omega arith) in
      let (x1, e1, n1) = nibble state0 second.1 1 h0 h1 (omega arith) in
      let (x2, e2, n2) = nibble state0 second.1 2 h0 h1 (omega arith) in
      placed x0 x1 x2 e0 e1 e2 n0 n1 n2 hf hb (entry state b h small.0).output_small
        (lut_parity_shifted-IsSecondParity (b ∷ bytes) state x1 h n1.small small)
