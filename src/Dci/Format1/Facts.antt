-- ===== src/Dci/Format1/Facts.antt =====
-- The lengths of the fields of format 1, checked at each number of resource blocks.
use vbbu.Prelude.{
  ℕ, ◌+◌, ◌≤◌, ◌<◌, ◌≡◌, refl, ◌&&◌, ◌||◌, true, Bool, arith, ltb, leb, if◌then◌else◌,
}
use vbbu.Prelude.Check.{all_below, check_range}
use vbbu.Ra.Type2.{type0_p, log2_p}
use vbbu.Dci.Size.{format1, format_sizeof_lut}
use vbbu.Dci.Format1.{alloc_size, vrb_size}

abbrev alloc_test : ℕ → Bool
alloc_test n =
    leb (alloc_size n) 28
    && leb (log2_p (type0_p n)) 2
    && leb (vrb_size n) 28
    && (leb n 10 || leb (log2_p (type0_p n) + 1 + vrb_size n) (alloc_size n))

alloc_table : all_below 110 (λ k. alloc_test (k + 1)) ≡ true
unfolding all_below alloc_size vrb_size log2_p type0_p
alloc_table = refl

-- The bitmaps are at most 28 bits long, and those of type 1 fill the room of type 0.
pub alloc_bounds :
    (n : ℕ)
    → 1 ≤ n
    → n ≤ 110
    → (alloc_size n ≤ 28)
      × (log2_p (type0_p n) ≤ 2)
      × (vrb_size n ≤ 28)
      × (10 < n → log2_p (type0_p n) + 1 + vrb_size n ≤ alloc_size n)
alloc_bounds n lo hi = ground (arith, check_range 1 110 alloc_test n alloc_table)

abbrev fields_test : ℕ → Bool
fields_test n =
    leb (alloc_size n + (if ltb 10 n then 1 else 0) + 13) (format_sizeof_lut format1 n)
    && leb (format_sizeof_lut format1 n) 128

fields_table : all_below 100 (λ k. fields_test (k + 1)) ≡ true
unfolding all_below alloc_size type0_p format_sizeof_lut
fields_table = refl

-- The fields fit into the size of the table, and that into the buffer.
pub format1_fits :
    (n : ℕ)
    → 1 ≤ n
    → n ≤ 100
    → (alloc_size n + (if ltb 10 n then 1 else 0) + 13 ≤ format_sizeof_lut format1 n)
      × (format_sizeof_lut format1 n ≤ 128)
format1_fits n lo hi = ground (arith, check_range 1 100 fields_test n fields_table)
