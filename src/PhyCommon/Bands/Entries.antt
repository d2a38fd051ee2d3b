-- ===== src/PhyCommon/Bands/Entries.antt =====
-- The channels that srslte_band_get_fd_band of srslte/lib/common/phy_common.c lists.
use vbbu.Prelude.{
  ℕ, zero, suc, ◌+◌, ◌-◌, ◌≤◌, ◌<◌, min, ◌≡◌, Bool, true, ◌&&◌, Option, none, some, List, [], ◌∷◌,
  length, ltb, ==_iff, sub32, refl, get_elem?, arith, ap, ap₂, ◌∙◌,
}
use vbbu.PhyCommon.Bands.{
  Band, Earfcn, lte_bands, get_fd, find_band, earfcn_loop, end_of, start_of, get_fd_band,
}

-- The entry of one channel of a band.
abbrev pub entry : Band → ℕ → Earfcn
entry b id = record { id = id; fd = get_fd b id }

-- Every band ends below a bound.
unfoldable all_end_below : ℕ → List Band → Bool
all_end_below bound [] = true
all_end_below bound (b ∷ bands) = ltb b.earfcn_max bound && all_end_below bound bands

find_band-below :
    (bound : ℕ) (bands : List Band) (band : ℕ) {b : Band}
    → all_end_below bound bands ≡ true
    → find_band bands band ≡ some b
    → (b.band ≡ band) × (b.earfcn_max < bound)
unfolding find_band all_end_below
find_band-below bound [] band h found = cc
find_band-below bound (c ∷ bands) band {b = b} h found =
    ground (arith, find_band-below bound bands band {b = b}, ==_iff c.band band)

lte_bands-below : all_end_below 9920 lte_bands ≡ true
unfolding all_end_below lte_bands
lte_bands-below = refl

pub length-earfcn_loop : (b : Band) (start n j : ℕ) → length (earfcn_loop b start n j) ≡ n
unfolding earfcn_loop
length-earfcn_loop b start zero j = refl
length-earfcn_loop b start (suc n) j = ap suc (length-earfcn_loop b start n (j + 1))

get_elem?-earfcn_loop :
    (b : Band) (start n j k : ℕ)
    → k < n
    → get_elem? (earfcn_loop b start n j) k ≡ some (entry b (start + j + k))
unfolding earfcn_loop
get_elem?-earfcn_loop b start zero j k inside = absurd (omega arith)
get_elem?-earfcn_loop b start (suc n) j zero inside = ap (λ i. some (entry b i)) (omega arith)
get_elem?-earfcn_loop b start (suc n) j (suc k) inside =
    let e : start + (j + 1) + k ≡ start + j + suc k = omega arith in
    rw e at (get_elem?-earfcn_loop b start n (j + 1) k (omega arith))

end_of-within : (b : Band) (to : Option ℕ) {end : ℕ} → end_of b to ≡ some end → end ≤ b.earfcn_max
unfolding end_of
end_of-within b none h = ground arith
end_of-within b (some to) h = ground arith

start_of-within :
    (b : Band) (from : Option ℕ) {start : ℕ}
    → start_of b from ≡ some start
    → b.earfcn_offset ≤ start
unfolding start_of
start_of-within b none h = ground arith
start_of-within b (some from) h = ground arith

-- A call whose bounds are known runs the loop.
pub get_fd_band-run :
    (band max : ℕ) (from to : Option ℕ) {b : Band} {start end : ℕ}
    → find_band lte_bands band ≡ some b
    → start_of b from ≡ some start
    → end_of b to ≡ some end
    → get_fd_band band from to max ≡ some (earfcn_loop b start (min (sub32 end start) max) 0)
unfolding get_fd_band
get_fd_band-run band max from to found first last = simp (found, first, last)

get_fd-inside :
    (b : Band) (id : ℕ) → b.earfcn_offset ≤ id → get_fd b id ≡ b.fd_low + (id - b.earfcn_offset)
unfolding get_fd
get_fd-inside b id h = ground arith

-- A call with bounds in order lists the channels from the first on, in steps of one, each with its
-- frequency, as many as fit and one fewer than the bounds enclose: the last one is never listed.
-- All of them are channels of the band that was asked for.
pub get_fd_band-entries :
    (band max j : ℕ) (from to : Option ℕ) {b : Band} {start end : ℕ}
    → find_band lte_bands band ≡ some b
    → start_of b from ≡ some start
    → end_of b to ≡ some end
    → start ≤ end
    → j < min (end - start) max
    → (found : List Earfcn) × (get_fd_band band from to max ≡ some found)
      × (length found ≡ min (end - start) max)
      × (get_elem? found j
          ≡ some (record { id = start + j; fd = b.fd_low + (start + j - b.earfcn_offset) }))
      × (b.band ≡ band)
      × (b.earfcn_offset ≤ start + j)
      × (start + j < b.earfcn_max)
get_fd_band-entries band max j from to {b = b} {start = start} {end = end} row first last order
      inside =
    let (number, below) = find_band-below 9920 lte_bands band {b = b} lte_bands-below row in
    let past = end_of-within b to last in
    let above = start_of-within b from first in
    let n : sub32 end start ≡ end - start = omega arith in
    let here : start + 0 + j ≡ start + j = omega arith in
    let fd = get_fd-inside b (start + j) (omega arith) in
    (
      earfcn_loop b start (min (end - start) max) 0,
      rw n at (get_fd_band-run band max from to row first last),
      length-earfcn_loop b start (min (end - start) max) 0,
      get_elem?-earfcn_loop b start (min (end - start) max) 0 j inside
          ∙ ap some (ap₂ (λ id fd. record { id = id; fd = fd }) here (ap (get_fd b) here ∙ fd)),
      number,
      omega arith,
      omega arith,
    )
