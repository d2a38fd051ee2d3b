-- ===== src/Bit/Interleave/Whole.antt =====
-- `srslte_bit_interleave` of a whole number of bytes.
use native.Mathlib.Nat.{add-zero, zero-add, suc-add}
use vbbu.Prelude.{
  ℕ, zero, suc, ◌+◌, ◌-◌, ◌*◌, ◌/◌, ◌%◌, ◌^◌, ◌≤◌, ◌<◌, ◌≡◌, refl, sym, ap, ap₂, ◌∙◌, some, List,
  [], ◌∷◌, ◌++◌, length, get_or, append_assoc, arith, length-append, u32, sub32, drop, append-nil,
  get_elem?-append_at, set-append_at,
}
use vbbu.Bit.{unpack}
use vbbu.Bit.Octets.{bits_of, AllBytes}
use vbbu.Bit.Interleave.{
  update, gather, bytes_loop, bits_loop, bit_interleave, bit_interleave_w_offset,
}
use vbbu.Bit.Interleave.Picks.{picks, Stays, byte-picks}

update-append :
    (xs : List ℕ) (y : ℕ) (ys : List ℕ) (n : ℕ) (f : ℕ → ℕ)
    → length xs ≡ n
    → update (xs ++ (y ∷ ys)) n f ≡ some (xs ++ (f y ∷ ys))
unfolding update
update-append xs y ys n f e =
    rw (get_elem?-append_at xs y ys n e)
      (ap (λ (t : List ℕ). some t) (set-append_at xs y (f y) ys n e))

picks-append :
    (bits interleaver : List ℕ) (from m n : ℕ)
    → picks bits interleaver from (m + n)
      ≡ picks bits interleaver from m ++ picks bits interleaver (from + m) n
unfolding picks
picks-append bits interleaver from zero n = rw (zero-add n) (rw (add-zero from) refl)
picks-append bits interleaver from (suc m) n =
    let e : from + 1 + m ≡ from + suc m = omega arith in
    rw (suc-add m n) (
      ap (λ (t : List ℕ). get_or bits (get_or interleaver from 0) 0 ∷ t)
        (rw e at (picks-append bits interleaver (from + 1) m n)))

module _ (input interleaver : List ℕ) (nof_bits : ℕ) (s : Stays input interleaver nof_bits)
    (small : AllBytes input) (word : nof_bits < 2 ^ 32) where
  -- What `n` rounds leave in the part `ys` of the output at which they start.
  record IsInterleaved (i n : ℕ) (xs ys : List ℕ) : Type 0 where
    outs : List ℕ
    outs_length : length outs ≡ n
    outs_small : AllBytes outs
    left : bytes_loop input interleaver 0 i n (xs ++ ys) ≡ some ((xs ++ outs) ++ drop n ys)
    outs_bits : bits_of outs ≡ picks (bits_of input) interleaver (i * 8) (n * 8)

  one_byte :
      (i n : ℕ) (xs : List ℕ) (y : ℕ) (ys : List ℕ) (out : ℕ)
      → length xs ≡ i
      → i * 8 + 8 ≤ nof_bits
      → gather input interleaver (i * 8) 0 8 0 ≡ some out
      → unpack out 8 ≡ picks (bits_of input) interleaver (i * 8) 8
      → out < 256
      → IsInterleaved (i + 1) n (xs ++ (out ∷ [])) ys
      → IsInterleaved i (suc n) xs (y ∷ ys)
  unfolding bytes_loop bits_of
  one_byte i n xs y ys out e inside found bits bound r =
      let index : sub32 (u32 (i * 8)) 0 ≡ i * 8 = omega arith in
      let count : 8 + n * 8 ≡ suc n * 8 = omega arith in
      let next : i * 8 + 8 ≡ (i + 1) * 8 = omega arith in
      record {
        outs = out ∷ r.outs;
        outs_length = ap suc r.outs_length;
        outs_small = (bound, r.outs_small);
        left = rw index (
            rw found (
              rw (update-append xs y ys i (λ _. out) e) (
                rw (append_assoc xs (out ∷ []) ys) at
                  (rw (append_assoc xs (out ∷ []) r.outs) at r.left))));
        outs_bits =
            ap₂ ◌++◌ bits r.outs_bits
            ∙ sym (
                rw count at
                  (rw next at (picks-append (bits_of input) interleaver (i * 8) 8 (n * 8))));
      }

  bytes_loop-IsInterleaved :
      (n i : ℕ) (xs ys : List ℕ)
      → length xs ≡ i
      → n ≤ length ys
      → (i + n) * 8 ≤ nof_bits
      → IsInterleaved i n xs ys
  unfolding bytes_loop bits_of picks
  bytes_loop-IsInterleaved zero i xs ys e room inside = record {
    outs = [];
    outs_length = refl;
    outs_small = tt;
    left = ap (λ (t : List ℕ). some (t ++ ys)) (sym (append-nil xs));
    outs_bits = refl;
  }
  bytes_loop-IsInterleaved (suc n) i xs [] e room inside = absurd (omega arith)
  bytes_loop-IsInterleaved (suc n) i xs (y ∷ ys) e room inside =
      let (out, found, bits, bound) =
        byte-picks input interleaver nof_bits s small (i * 8) (omega arith) word in
      one_byte i n xs y ys out e (omega arith) found bits bound (
        bytes_loop-IsInterleaved n (i + 1) (xs ++ (out ∷ [])) ys
          (omega (arith, length-append xs (out ∷ []), e)) (omega arith) (omega arith))

-- With room for the output, `srslte_bit_interleave` of `n` bytes leaves the bits that the
-- interleaver picks, in its order, in the first `n` bytes, and does not touch the others.
pub bit_interleave-picks :
    (input output interleaver : List ℕ) (n : ℕ)
    → Stays input interleaver (n * 8)
    → AllBytes input
    → n * 8 < 2 ^ 32
    → n ≤ length output
    → (outs : List ℕ) × (length outs ≡ n)
      × AllBytes outs
      × (bit_interleave input output interleaver (n * 8) ≡ some (outs ++ drop n output))
      × (bits_of outs ≡ picks (bits_of input) interleaver 0 (n * 8))
unfolding bit_interleave bit_interleave_w_offset bits_loop
bit_interleave-picks input output interleaver n s small word room =
    let r =
      bytes_loop-IsInterleaved input interleaver (n * 8) s small word n 0 [] output refl room
        (omega arith) in
    let whole : n * 8 / 8 ≡ n = omega arith in
    let start : n - 0 ≡ n = omega arith in
    let rest : n * 8 % 8 ≡ 0 = omega arith in
    (
      r.outs,
      r.outs_length,
      r.outs_small,
      rw whole (rw rest (rw start (rw r.left refl))),
      r.outs_bits,
    )
