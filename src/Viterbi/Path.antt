-- ===== src/Viterbi/Path.antt =====
-- Three copies of a frame that was coded with tail biting are one path through the trellis: what
-- srslte_viterbi_decode_f of srslte/lib/fec/viterbi.c relies on.
use native.Mathlib.Nat.{mod-eq_of_lt, mod-lt, mul-add-mod_self_left, div-add-mod}
use vbbu.Prelude.{
  ℕ, zero, suc, ◌+◌, ◌-◌, ◌*◌, ◌/◌, ◌%◌, ◌≤◌, ◌<◌, ◌≡◌, sym, ap, ◌∙◌, bit_and, Option, none, List,
  [], take, get_or, append-nil, take-append, get_or-take, length, length-take, get_or-concat_from,
  arith,
}
use vbbu.Convcoder.Window.{window, window-ext}
use vbbu.Convcoder.Register.{cyclic, taps}
use vbbu.Viterbi.{Port, repeated}

-- A quantised symbol speaks clearly for a bit: it is 16 or more from the middle of its range.
unfoldable pub IsHeard : ℕ → ℕ → Type 0
IsHeard zero s = s ≤ 111
IsHeard (suc b) s = (143 ≤ s) × (s ≤ 255)

pub take-all {ℓ} : {A : Type ℓ} (xs : List A) (n : ℕ) → length xs ≡ n → take n xs ≡ xs
take-all xs n h = ap (λ t. take n t) (sym (append-nil xs)) ∙ take-append xs [] n h

-- What is relied on of viterbi37_port.c, for structures with room for `len` steps: they stay usable,
-- chainback writes as many bits as it is told, and for symbols that speak clearly for the coded bits
-- of a path `c` from any state, the bits written are those of the path but for `depth` at either end.
-- The six bits that are in the register at first are `c 0` to `c 5`.
pub record IsViterbi {ℓ} {P : Type ℓ} (port : Port P) (Made : P → Type 0) (parity : ℕ → ℕ)
    (poly : List ℕ) (len depth : ℕ) : Type ℓ where
  pub created : Made (port.create poly len)
  pub kept :
      (p : P) (s : Option ℕ) (symbols : List ℕ) (n : ℕ)
      → Made p
      → Made ((port.update (port.init p s) symbols n).0)
  pub writes : (p : P) (n s : ℕ) → Made p → n ≤ len → length (port.chainback p n s) ≡ n
  pub follows :
      (p : P) (c : ℕ → ℕ) (symbols : List ℕ) (steps i : ℕ)
      → Made p
      → ((t : ℕ) → c t < 2)
      → steps ≤ len
      → ((j l : ℕ)
          → j < steps
          → l < 3
          → IsHeard
              (parity (bit_and (window (λ t. c (j + 6 - t)) 7) (get_or poly l 0)))
              (get_or symbols (j * 3 + l) 0))
      → depth ≤ i
      → i + depth < steps
      → get_or
          (port.chainback
            (port.update (port.init p none) symbols steps).0
            steps
            (port.update (port.init p none) symbols steps).1)
          i
          0
        ≡ c (i + 6)

-- The bits of a frame that repeats, from six before its start on.
pub path : List ℕ → ℕ → ℕ → ℕ
path word n t = cyclic word n (t + n - 6)

pub path-lt : (word : List ℕ) (n t : ℕ) → path word n t < 2
unfolding path cyclic
path-lt word n t = omega arith

pub path-taps :
    (word : List ℕ) (n j : ℕ)
    → 7 ≤ n
    → window (λ t. path word n (j + 6 - t)) 7 ≡ taps word n 7 (j % n)
unfolding path taps cyclic
path-taps word n j long =
    window-ext (λ t. path word n (j + 6 - t)) (λ t. cyclic word n (j % n + n - t)) 7
      (λ t ht.
        let parts : j ≡ n * (j / n) + j % n = sym (div-add-mod j n) in
        let whole : j + 6 - t + n - 6 ≡ n * (j / n) + (j % n + n - t) = omega (arith, parts) in
        ap (λ u. get_or word u 0 % 2)
          (ap (λ (u : ℕ). u % n) whole ∙ mul-add-mod_self_left n (j / n) (j % n + n - t)))

pub path-round :
    (word : List ℕ) (n i : ℕ) → 7 ≤ n → i < n → path word n (n + i + 6) ≡ get_or word i 0 % 2
unfolding path cyclic
path-round word n i long h =
    let e : n + i + 6 + n - 6 ≡ n * 2 + i = omega arith in
    ap (λ u. get_or word u 0 % 2)
      (ap (λ (u : ℕ). u % n) e ∙ mul-add-mod_self_left n 2 i ∙ mod-eq_of_lt h)

length-repeated :
    (xs : List ℕ) (n : ℕ) → length xs ≡ 3 * n → (i : ℕ) → length (take (3 * n) xs) ≡ 3 * n
length-repeated xs n size i = omega (arith, length-take (3 * n) xs, size)

-- Each of the copies has the symbols of the frame.
pub get_or-repeated :
    (xs : List ℕ) (n j l : ℕ)
    → length xs ≡ 3 * n
    → j < 3 * n
    → l < 3
    → 0 < n
    → get_or (repeated xs n) (j * 3 + l) 0 ≡ get_or xs (j % n * 3 + l) 0
unfolding repeated
get_or-repeated xs n j l size hj hl some_bits =
    let f : ℕ → List ℕ = λ i. take (3 * n) xs in
    let parts : j ≡ n * (j / n) + j % n = sym (div-add-mod j n) in
    let low : j % n < n = mod-lt j {m = n} some_bits in
    let few : j / n < 3 = grind arith in
    let place : j * 3 + l ≡ j / n * (3 * n) + (j % n * 3 + l) = grind (arith, parts) in
    rw place (
      get_or-concat_from f (3 * n) (length-repeated xs n size) 3 0 (j / n) (j % n * 3 + l) 0 few
        (omega arith)
      ∙ get_or-take (3 * n) (j % n * 3 + l) xs 0 (omega arith))
