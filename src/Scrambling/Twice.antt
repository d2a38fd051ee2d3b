-- ===== src/Scrambling/Twice.antt =====
-- The word-wise and the byte-wise loop do the same, and doing it twice undoes it.
use vbbu.Prelude.{
  ℕ, zero, suc, ◌+◌, ◌%◌, ◌≤◌, ◌≡◌, refl, sym, ap, ap₂, ◌∙◌, some, List, [], ◌∷◌, drop, length,
  length-drop, arith, Bool-cases, inl, inr, ◌==◌,
}
use vbbu.Prelude.Bits.{bit_xor_cancel}
use vbbu.Bit.Octets.{AllBytes}
use vbbu.Sequences.{Sequence}
use vbbu.Scrambling.{scrambling_b, scrambling_b_word, scrambling_b_offset}
use vbbu.Scrambling.Word.{
  xors, scrambling_b-xors, scrambling_b_word-xors, bit_xor-byte, AllBytes-drop,
}

-- `scrambling_b_word` does to an array of bytes what `scrambling_b` does, if neither array is shorter
-- than the length that is passed.
pub scrambling_b_word-scrambling_b :
    (c bytes : List ℕ) (len : ℕ)
    → len ≤ length c
    → len ≤ length bytes
    → AllBytes c
    → AllBytes bytes
    → scrambling_b_word c bytes len ≡ scrambling_b c bytes len
scrambling_b_word-scrambling_b c bytes len h h' s s' =
    scrambling_b_word-xors c bytes len h h' s s' ∙ sym (scrambling_b-xors c bytes len h h')

length-xors :
    (n : ℕ) (c bytes : List ℕ)
    → n ≤ length c
    → n ≤ length bytes
    → length (xors n c bytes) ≡ length bytes
unfolding xors
length-xors zero c bytes h h' = refl
length-xors (suc n) [] bytes h h' = absurd (omega arith)
length-xors (suc n) (x ∷ c) [] h h' = refl
length-xors (suc n) (x ∷ c) (b ∷ bytes) h h' =
    ap suc (length-xors n c bytes (omega arith) (omega arith))

AllBytes-xors : (n : ℕ) (c bytes : List ℕ) → AllBytes c → AllBytes bytes → AllBytes (xors n c bytes)
unfolding xors
AllBytes-xors zero c bytes s s' = s'
AllBytes-xors (suc n) [] bytes s s' = s'
AllBytes-xors (suc n) (x ∷ c) [] s s' = tt
AllBytes-xors (suc n) (x ∷ c) (b ∷ bytes) s s' =
    (bit_xor-byte b x s'.0 s.0, AllBytes-xors n c bytes s.1 s'.1)

xors_cancel : (n : ℕ) (c bytes : List ℕ) → n ≤ length bytes → xors n c (xors n c bytes) ≡ bytes
unfolding xors
xors_cancel zero c bytes h = refl
xors_cancel (suc n) [] bytes h = refl
xors_cancel (suc n) (x ∷ c) [] h = absurd (omega arith)
xors_cancel (suc n) (x ∷ c) (b ∷ bytes) h =
    ap₂ ◌∷◌ (bit_xor_cancel b x) (xors_cancel n c bytes (omega arith))

scrambling_b_offset-xors :
    (s : Sequence) (bytes : List ℕ) (offset len : ℕ)
    → offset + len ≤ length s.c
    → len ≤ length bytes
    → AllBytes s.c
    → AllBytes bytes
    → scrambling_b_offset s bytes offset len ≡ some (xors len (drop offset s.c) bytes)
unfolding scrambling_b_offset
scrambling_b_offset-xors s bytes offset len h h' small small' =
    elim (Bool-cases (offset % 8 == 0)) [
      | inl e ↦ rw e (
          scrambling_b_word-xors (drop offset s.c) bytes len room h'
            (AllBytes-drop offset s.c small) small')
      | inr e ↦ rw e (scrambling_b-xors (drop offset s.c) bytes len room h')
    ]
  where
    room : len ≤ length (drop offset s.c)
    room = omega (arith, length-drop offset s.c)

-- `srslte_scrambling_b_offset`, aligned or not, changes an array of bytes back when it is called a
-- second time with the same part of the sequence, if the sequence and the array reach that far.
pub scrambling_b_offset-twice :
    (s : Sequence) (bytes : List ℕ) (offset len : ℕ)
    → offset + len ≤ length s.c
    → len ≤ length bytes
    → AllBytes s.c
    → AllBytes bytes
    → (scrambled : List ℕ) × (scrambling_b_offset s bytes offset len ≡ some scrambled)
      × (length scrambled ≡ length bytes)
      × (scrambling_b_offset s scrambled offset len ≡ some bytes)
scrambling_b_offset-twice s bytes offset len h h' small small' =
    let c = drop offset s.c in
    let room : len ≤ length c = omega (arith, length-drop offset s.c) in
    let kept = length-xors len c bytes room h' in
    (
      xors len c bytes,
      scrambling_b_offset-xors s bytes offset len h h' small small',
      kept,
      scrambling_b_offset-xors s (xors len c bytes) offset len h (omega arith) small
            (AllBytes-xors len c bytes (AllBytes-drop offset s.c small) small')
          ∙ ap (λ (t : List ℕ). some t) (xors_cancel len c bytes h'),
    )
