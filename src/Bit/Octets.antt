-- ===== src/Bit/Octets.antt =====
-- An array of bytes read as an array of bits, the top bit of each byte first: what the functions of
-- srslte/lib/utils/bit.c that work on packed bits compute with.
use native.Mathlib.Nat.{zero-add, suc-add}
use vbbu.Prelude.{
  ℕ, zero, suc, ◌+◌, ◌-◌, ◌*◌, ◌/◌, ◌%◌, ◌^◌, ◌≤◌, ◌<◌, ◌≡◌, refl, sym, ap, ◌∙◌, List, [], ◌∷◌,
  ◌++◌, length, get_or, append_assoc, arith, length-append, Bool-cases, inl, inr, ltb, ltb→lt,
  ltb→ge, get_or-append_left,
}
use vbbu.Prelude.Bits.{bit_and-one}
use vbbu.Bit.{unpack}
use vbbu.Bit.RoundTrip.{length-unpack}

-- The bits of an array of bytes.
unfoldable pub bits_of : List ℕ → List ℕ
bits_of [] = []
bits_of (b ∷ bytes) = unpack b 8 ++ bits_of bytes

-- Every element fits in a byte.
abbrev pub AllBytes : List ℕ → Type 0
AllBytes [] = Unit
AllBytes (b ∷ bytes) = (b < 256) × AllBytes bytes

pub bits_of-append : (xs ys : List ℕ) → bits_of (xs ++ ys) ≡ bits_of xs ++ bits_of ys
unfolding bits_of
bits_of-append [] ys = refl
bits_of-append (x ∷ xs) ys =
    ap (λ (t : List ℕ). unpack x 8 ++ t) (bits_of-append xs ys)
    ∙ sym (append_assoc (unpack x 8) (bits_of xs) (bits_of ys))

pub length-bits_of : (xs : List ℕ) → length (bits_of xs) ≡ 8 * length xs
unfolding bits_of
length-bits_of [] = omega arith
length-bits_of (x ∷ xs) =
    omega (arith, length-append (unpack x 8) (bits_of xs), length-unpack x 8, length-bits_of xs)

get_or-append_right :
    (xs ys : List ℕ) (i n d : ℕ) → length xs ≡ n → get_or (xs ++ ys) (n + i) d ≡ get_or ys i d
get_or-append_right [] ys i zero d e = rw (zero-add i) refl
get_or-append_right [] ys i (suc n) d e = absurd (omega arith)
get_or-append_right (x ∷ xs) ys i zero d e = absurd (omega arith)
get_or-append_right (x ∷ xs) ys i (suc n) d e =
    rw (suc-add n i) (get_or-append_right xs ys i n d (omega arith))

get_or_past : (xs : List ℕ) (i : ℕ) → length xs ≤ i → get_or xs i 0 ≡ 0
get_or_past [] i h = refl
get_or_past (x ∷ xs) zero h = absurd (omega arith)
get_or_past (x ∷ xs) (suc i) h = get_or_past xs i (omega arith)

pub AllBytes-get_or : (xs : List ℕ) (i : ℕ) → AllBytes xs → get_or xs i 0 < 256
AllBytes-get_or [] i h = omega arith
AllBytes-get_or (x ∷ xs) zero h = h.0
AllBytes-get_or (x ∷ xs) (suc i) h = AllBytes-get_or xs i h.1

-- The bit at a place, from its byte.
pub get_or-bits_of :
    (xs : List ℕ) (p : ℕ)
    → p < 8 * length xs
    → get_or (bits_of xs) p 0 ≡ get_or (unpack (get_or xs (p / 8) 0) 8) (p % 8) 0
unfolding bits_of
get_or-bits_of [] p h = absurd (omega arith)
get_or-bits_of (x ∷ xs) p h = elim (Bool-cases (ltb p 8)) [
  | inl t ↦
      let low = ltb→lt p 8 t in
      let e : p / 8 ≡ 0 = omega arith in
      let e' : p % 8 ≡ p = omega arith in
      rw e (
        rw e' (get_or-append_left (unpack x 8) (bits_of xs) p 0 (omega (arith, length-unpack x 8))))
  | inr t ↦
      let high = ltb→ge p 8 t in
      let e : p / 8 ≡ suc ((p - 8) / 8) = omega arith in
      let e' : p % 8 ≡ (p - 8) % 8 = omega arith in
      let back : 8 + (p - 8) ≡ p = omega arith in
      rw e (
        rw e' (
          rw back at (get_or-append_right (unpack x 8) (bits_of xs) (p - 8) 8 0 (length-unpack x 8))
          ∙ get_or-bits_of xs (p - 8) (omega arith)))
]

unpack-bit : (v n i : ℕ) → get_or (unpack v n) i 0 < 2
unfolding unpack
unpack-bit v zero i = omega arith
unpack-bit v (suc n) zero = omega (arith, bit_and-one (v / 2 ^ n))
unpack-bit v (suc n) (suc i) = unpack-bit v n i

pub bits_of-bit : (xs : List ℕ) (i : ℕ) → get_or (bits_of xs) i 0 < 2
bits_of-bit xs i = elim (Bool-cases (ltb i (8 * length xs))) [
  | inl t ↦ rw (get_or-bits_of xs i (ltb→lt _ _ t)) (unpack-bit _ 8 (i % 8))
  | inr t ↦
      rw (get_or_past (bits_of xs) i (omega (arith, length-bits_of xs, ltb→ge i (8 * length xs) t)))
        (omega arith)
]
