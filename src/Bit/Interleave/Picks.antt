-- ===== src/Bit/Interleave/Picks.antt =====
-- `srslte_bit_interleave` on whole bytes picks the bits of the input in the order that the
-- interleaver gives.
use native.Mathlib.Nat.{add-zero}
use vbbu.Prelude.{
  ℕ, zero, suc, ◌+◌, ◌*◌, ◌/◌, ◌%◌, ◌^◌, ◌≤◌, ◌<◌, ◌≡◌, refl, sym, ap, ap₂, ◌∙◌, Bool, true, false,
  not, ◌&&◌, some, List, [], ◌∷◌, length, get_or, get_elem?, arith, bit_and, bit_or, if◌then◌else◌,
  ltb, ◌==◌, ==_iff, u32, bool_byte, map,
}
use vbbu.Prelude.Check.{all_below, all_pairs, all_pairs_sound}
use vbbu.Prelude.Options.{all_equal, all_equal_sound}
use vbbu.Bit.{unpack}
use vbbu.Bit.Octets.{bits_of, AllBytes, AllBytes-get_or, get_or-bits_of}
use vbbu.Bit.Interleave.{mask, tapped, gather}

-- The bits that the interleaver picks, `n` of them from its entry `from` on.
unfoldable pub picks : List ℕ → List ℕ → ℕ → ℕ → List ℕ
picks bits interleaver from zero = []
picks bits interleaver from (suc n) =
    get_or bits (get_or interleaver from 0) 0 ∷ picks bits interleaver (from + 1) n

-- The interleaver stays inside the input for its first `n` entries.
pub record Stays (input interleaver : List ℕ) (n : ℕ) : Type 0 where
  pub entries : n ≤ length interleaver
  pub inside : (i : ℕ) → i < n → get_or interleaver i 0 < 8 * length input

mask_ok : ℕ → ℕ → Bool
mask_ok b k = bool_byte (not (bit_and b (mask k) == 0)) == get_or (unpack b 8) k 0

masks_ok : all_pairs 256 8 mask_ok ≡ true
unfolding all_pairs all_below mask_ok unpack
masks_ok = refl

mask-unpack :
    (b k : ℕ)
    → b < 256
    → k < 8
    → bool_byte (not (bit_and b (mask k) == 0)) ≡ get_or (unpack b 8) k 0
unfolding mask_ok
mask-unpack b k hb hk = (==_iff _ _).0 (all_pairs_sound 256 8 mask_ok b k masks_ok hb hk)

pub get_elem?_found : (xs : List ℕ) (i : ℕ) → i < length xs → get_elem? xs i ≡ some (get_or xs i 0)
get_elem?_found [] i h = absurd (omega arith)
get_elem?_found (x ∷ xs) zero h = refl
get_elem?_found (x ∷ xs) (suc i) h = get_elem?_found xs i (omega arith)

-- The byte that a list of truth values makes, from bit `k` on.
or_taps : ℕ → List Bool → ℕ → ℕ
or_taps k [] acc = acc
or_taps k (on ∷ ts) acc = or_taps (k + 1) ts (bit_or acc (if on then mask k else 0))

-- A test of all lists of `n` truth values.
all_taps : ℕ → (List Bool → Bool) → Bool
all_taps zero test = test []
all_taps (suc n) test = all_taps n (λ ts. test (true ∷ ts)) && all_taps n (λ ts. test (false ∷ ts))

all_taps_sound :
    (n : ℕ) (test : List Bool → Bool) (ts : List Bool)
    → all_taps n test ≡ true
    → length ts ≡ n
    → test ts ≡ true
unfolding all_taps
all_taps_sound zero test [] h e = h
all_taps_sound zero test (t ∷ ts) h e = absurd (omega arith)
all_taps_sound (suc n) test [] h e = absurd (omega arith)
all_taps_sound (suc n) test (true ∷ ts) h e =
    all_taps_sound n (λ ts. test (true ∷ ts)) ts (ground arith) (omega arith)
all_taps_sound (suc n) test (false ∷ ts) h e =
    all_taps_sound n (λ ts. test (false ∷ ts)) ts (ground arith) (omega arith)

taps_ok : List Bool → Bool
taps_ok ts = all_equal (unpack (or_taps 0 ts 0) 8) (map bool_byte ts) && ltb (or_taps 0 ts 0) 256

all_taps_ok : all_taps 8 taps_ok ≡ true
unfolding all_taps taps_ok or_taps unpack
all_taps_ok = refl

or_taps-unpack :
    (ts : List Bool)
    → length ts ≡ 8
    → (unpack (or_taps 0 ts 0) 8 ≡ map bool_byte ts) × (or_taps 0 ts 0 < 256)
unfolding taps_ok
or_taps-unpack ts e = split (all_taps_sound 8 taps_ok ts all_taps_ok e)
  where
    split :
        taps_ok ts ≡ true → (unpack (or_taps 0 ts 0) 8 ≡ map bool_byte ts) × (or_taps 0 ts 0 < 256)
    split h = (all_equal_sound _ _ (ground arith), ground arith)

module _ (input interleaver : List ℕ) (nof_bits : ℕ) (s : Stays input interleaver nof_bits)
    (small : AllBytes input) where
  tapped-pick :
      (i : ℕ)
      → i < nof_bits
      → (on : Bool) × (tapped input interleaver i ≡ some on)
        × (bool_byte on ≡ get_or (bits_of input) (get_or interleaver i 0) 0)
  unfolding tapped
  tapped-pick i h =
      let p = get_or interleaver i 0 in
      let inside = s.inside i h in
      let b = get_or input (p / 8) 0 in
      (
        not (bit_and b (mask (p % 8)) == 0),
        rw (get_elem?_found interleaver i (omega (arith, s.entries)))
            (rw (get_elem?_found input (p / 8) (omega arith)) refl),
        mask-unpack b (p % 8) (AllBytes-get_or input (p / 8) small) (omega arith)
            ∙ sym (get_or-bits_of input p inside),
      )

  -- A chain of `n` taps gives the picked bits, as truth values.
  gather-picks :
      (from k n acc : ℕ)
      → from + k + n ≤ nof_bits
      → nof_bits < 2 ^ 32
      → (ts : List Bool) × (length ts ≡ n)
        × (gather input interleaver from k n acc ≡ some (or_taps k ts acc))
        × (map bool_byte ts ≡ picks (bits_of input) interleaver (from + k) n)
  unfolding gather or_taps picks
  gather-picks from k zero acc inside word = ([], refl, refl, refl)
  gather-picks from k (suc n) acc inside word =
      let (on, found, picked) = tapped-pick (from + k) (omega arith) in
      let (ts, size, chain, bits) =
        gather-picks from (k + 1) n (bit_or acc (if on then mask k else 0)) (omega arith) word in
      let e : u32 (from + k) ≡ from + k = omega arith in
      let e' : from + (k + 1) ≡ from + k + 1 = omega arith in
      (on ∷ ts, ap suc size, rw e (rw found chain), ap₂ ◌∷◌ picked (rw e' at bits))

  pub byte-picks :
      (from : ℕ)
      → from + 8 ≤ nof_bits
      → nof_bits < 2 ^ 32
      → (out : ℕ) × (gather input interleaver from 0 8 0 ≡ some out)
        × (unpack out 8 ≡ picks (bits_of input) interleaver from 8)
        × (out < 256)
  byte-picks from inside word =
      let (ts, size, chain, bits) = gather-picks from 0 8 0 (omega arith) word in
      let (unpacked, bound) = or_taps-unpack ts size in
      (or_taps 0 ts 0, chain, unpacked ∙ rw (add-zero from) at bits, bound)
