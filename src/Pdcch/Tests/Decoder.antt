-- ===== src/Pdcch/Tests/Decoder.antt =====
-- A search by hard decisions for the code of srslte/lib/phch/pdcch.c: the generators have
-- (1 + D) g0 + g1 + (1 + D) g2 = 1, so each bit is a sum of five coded ones.
use vbbu.Prelude.{
  ℕ, zero, suc, ◌+◌, ◌-◌, ◌*◌, ◌/◌, ◌%◌, ◌^◌, ◌≤◌, ◌<◌, ◌≡◌, refl, sym, ap, ◌∙◌, bit_and, Bool,
  true, Option, none, some, List, [], ◌∷◌, get_or, length, concat_from, length-concat_from,
  get_or-concat_from, ◌==◌, ==_iff, leb, ltb, Bool-cases, inl, inr, if◌then◌else◌, arith,
}
use vbbu.Prelude.Check.{all_below, all_pairs, all_pairs_sound}
use vbbu.Prelude.Bits.{two-pow}
use vbbu.Convcoder.Window.{window, window-ext, window-mod}
use vbbu.RmConv.Integers.{ℤ, pos, negsuc, Says}
use vbbu.Viterbi.{Port, quant_entry}
use vbbu.Viterbi.Path.{IsHeard, IsViterbi}
use vbbu.Pdcch.Chain.{IsLoud}

-- The parity of the seven bits that the generators read.
pub parity : ℕ → ℕ
parity x = (x + x / 2 + x / 4 + x / 8 + x / 16 + x / 32 + x / 64) % 2

pub parity-lt : (x : ℕ) → parity x < 2
unfolding parity
parity-lt x = omega arith

-- The integer part of 127.5 + 16 v, where `none` is a negative one.
pub scaled : ℤ → Option ℕ
scaled (pos n) = some (127 + 16 * n)
scaled (negsuc n) = if leb (n + 1) 8 then some (127 - 16 * (n + 1)) else none

scaled-zero : (v : ℤ) → Says 0 v → quant_entry (scaled v) ≤ 111
unfolding scaled Says quant_entry
scaled-zero (pos n) s = absurd s
scaled-zero (negsuc n) s = elim (Bool-cases (leb (n + 1) 8)) [
  | inl small ↦ rw small (ground arith)
  | inr large ↦ rw large (omega arith)
]

scaled-one : (v : ℤ) → Says 1 v → 143 ≤ quant_entry (scaled v)
unfolding scaled Says quant_entry
scaled-one (pos n) s = ground arith
scaled-one (negsuc n) s = absurd s

pub scaled-IsLoud : IsLoud Says scaled
scaled-IsLoud = record { zero_heard = scaled-zero; one_heard = scaled-one }

hard : ℕ → ℕ
hard s = if ltb 127 s then 1 else 0

hard-IsHeard : (b s : ℕ) → b < 2 → IsHeard b s → hard s ≡ b
unfolding hard IsHeard
hard-IsHeard zero s h e = ground arith
hard-IsHeard (suc zero) s h e = ground arith
hard-IsHeard (suc (suc b)) s h e = absurd (omega arith)

-- The sum of the five coded bits.
recover : (ℕ → ℕ) → ℕ → ℕ → ℕ
recover c i p = (c (i * 3 + 0) + c (i * 3 + 1) + c (i * 3 + 2) + c (p * 3 + 0) + c (p * 3 + 2)) % 2

-- The bits are found from the symbols alone, which are kept.
pub search : List ℕ → ℕ → List ℕ
search symbols n = concat_from n 0 (λ i. recover (λ j. hard (get_or symbols j 0)) i (i - 1) ∷ [])

abbrev pub port : Port (List ℕ)
port = record {
  create = λ poly len. [];
  init = λ p s. [];
  update = λ p symbols n. (symbols, 0);
  chainback = λ p n s. search p n;
}

y : ℕ → ℕ → ℕ
y g x = parity (bit_and x g)

sum_test : ℕ → ℕ → Bool
sum_test x e =
    (y 0x6d x + y 0x4f x + y 0x57 x + y 0x6d (x / 2 + 64 * e) + y 0x57 (x / 2 + 64 * e)) % 2
    == x % 2

sum_table : all_pairs 128 2 sum_test ≡ true
unfolding all_pairs all_below sum_test y parity
sum_table = refl

window-lt : (f : ℕ → ℕ) (n : ℕ) → ((t : ℕ) → f t < 2) → window f n < 2 ^ n
unfolding window
window-lt f zero h = omega arith
window-lt f (suc n) h = omega (arith, h 0, window-lt (λ t. f (suc t)) n (λ t. h (suc t)), two-pow n)

sum-lem :
    (x x' : ℕ)
    → x < 128
    → x' < 128
    → x / 2 ≡ x' % 64
    → (y 0x6d x + y 0x4f x + y 0x57 x + y 0x6d x' + y 0x57 x') % 2 ≡ x % 2
unfolding sum_test
sum-lem x x' h h' e =
    let back : x / 2 + 64 * (x' / 64) ≡ x' = omega arith in
    let found = all_pairs_sound 128 2 sum_test x (x' / 64) sum_table h (omega arith) in
    rw back at ((==_iff _ _).0 found)

module _ (c : ℕ → ℕ) (c-lt : (t : ℕ) → c t < 2) (symbols : List ℕ) (steps : ℕ)
    (heard : (j l : ℕ)
      → j < steps
      → l < 3
      → IsHeard
          (parity (bit_and (window (λ t. c (j + 6 - t)) 7) (get_or (0x6d ∷ 0x4f ∷ 0x57 ∷ []) l 0)))
          (get_or symbols (j * 3 + l) 0)) where
  x : ℕ → ℕ
  x j = window (λ t. c (j + 6 - t)) 7

  x-lt : (j : ℕ) → x j < 128
  unfolding x
  x-lt j = window-lt (λ t. c (j + 6 - t)) 7 (λ t. c-lt (j + 6 - t))

  h : ℕ → ℕ
  h j = hard (get_or symbols j 0)

  h-code :
      (j l : ℕ) → j < steps → l < 3 → h (j * 3 + l) ≡ y (get_or (0x6d ∷ 0x4f ∷ 0x57 ∷ []) l 0) (x j)
  unfolding h y x
  h-code j l hj hl =
      hard-IsHeard
        (parity (bit_and (window (λ t. c (j + 6 - t)) 7) (get_or (0x6d ∷ 0x4f ∷ 0x57 ∷ []) l 0)))
        (get_or symbols (j * 3 + l) 0)
        (parity-lt (bit_and (window (λ t. c (j + 6 - t)) 7) (get_or (0x6d ∷ 0x4f ∷ 0x57 ∷ []) l 0)))
        (heard j l hj hl)

  x-half : (j : ℕ) → x (suc j) / 2 ≡ x j % 64
  unfolding x
  x-half j =
      let f : ℕ → ℕ = λ t. c (suc j + 6 - suc t) in
      let g : ℕ → ℕ = λ t. c (j + 6 - t) in
      let half : window (λ t. c (suc j + 6 - t)) 7 / 2 ≡ window f 6 =
        unfold window in omega (arith, c-lt (suc j + 6 - 0)) in
      half
      ∙ window-ext f g 6 (λ t ht. ap c (omega arith))
      ∙ sym (window-mod g 6 (λ t. c-lt (j + 6 - t)))

  x-odd : (j : ℕ) → x j % 2 ≡ c (j + 6)
  unfolding x
  x-odd j =
      let low : window (λ t. c (j + 6 - t)) 7 % 2 ≡ c (j + 6 - 0) =
        unfold window in omega (arith, c-lt (j + 6 - 0)) in
      low ∙ ap c (omega arith)

  recovered : (i : ℕ) → suc i < steps → recover h (suc i) i ≡ c (suc i + 6)
  unfolding recover
  recovered i hi =
      rw
        (
          h-code (suc i) 0 hi (omega arith),
          h-code (suc i) 1 hi (omega arith),
          h-code (suc i) 2 hi (omega arith),
          h-code i 0 (omega arith) (omega arith),
          h-code i 2 (omega arith) (omega arith),
        )
        (sum-lem (x (suc i)) (x i) (x-lt (suc i)) (x-lt i) (x-half i) ∙ x-odd (suc i))

  get_or-search : (i : ℕ) → suc i < steps → get_or (search symbols steps) (suc i) 0 ≡ c (suc i + 6)
  unfolding search
  get_or-search i hi =
      let f : ℕ → List ℕ = λ i. recover (λ j. hard (get_or symbols j 0)) i (i - 1) ∷ [] in
      let e : suc i * 1 + 0 ≡ suc i = omega arith in
      let e' : 0 + suc i ≡ suc i = omega arith in
      let back : suc i - 1 ≡ i = omega arith in
      ap (λ t. get_or (concat_from steps 0 f) t 0) (sym e)
      ∙ get_or-concat_from f 1 (λ i. refl) steps 0 (suc i) 0 0 hi (omega arith)
      ∙ ap (λ t. get_or (f t) 0 0) e'
      ∙ ap (λ t. recover (λ j. hard (get_or symbols j 0)) (suc i) t) back
      ∙ (unfold h in recovered i hi)

length-search : (symbols : List ℕ) (n : ℕ) → length (search symbols n) ≡ n
unfolding search
length-search symbols n =
    length-concat_from (λ i. recover (λ j. hard (get_or symbols j 0)) i (i - 1) ∷ []) 1 (λ i. refl)
      n 0
    ∙ omega arith

port-follows :
    (c : ℕ → ℕ) (symbols : List ℕ) (steps i : ℕ)
    → ((t : ℕ) → c t < 2)
    → ((j l : ℕ)
        → j < steps
        → l < 3
        → IsHeard
            (parity
              (bit_and (window (λ t. c (j + 6 - t)) 7) (get_or (0x6d ∷ 0x4f ∷ 0x57 ∷ []) l 0)))
            (get_or symbols (j * 3 + l) 0))
    → 1 ≤ i
    → i + 1 < steps
    → get_or (search symbols steps) i 0 ≡ c (i + 6)
port-follows c symbols steps zero bits heard low high = absurd (omega arith)
port-follows c symbols steps (suc i) bits heard low high =
    get_or-search c bits symbols steps heard i (omega arith)

abbrev pub Kept : List ℕ → Type 0
Kept p = p ≡ p

pub port-IsViterbi : IsViterbi port Kept parity (0x6d ∷ 0x4f ∷ 0x57 ∷ []) (3 * 144) 1
port-IsViterbi = record {
  created = refl;
  kept = λ p s symbols n made. refl;
  writes = λ p n s made room. length-search p n;
  follows = λ p c symbols steps i made bits room heard low high.
      port-follows c symbols steps i bits heard low high;
}
