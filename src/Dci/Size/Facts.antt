-- ===== src/Dci/Size/Facts.antt =====
-- Facts about the sizes, checked at each number of resource blocks.
use vbbu.Prelude.{ℕ, ◌+◌, ◌^◌, ◌≤◌, ◌≡◌, refl, ◌&&◌, true, Bool, arith, leb, ◌==◌}
use vbbu.Prelude.Check.{all_below, check_range}
use vbbu.Ra.Type2.{type2_to_riv}
use vbbu.Dci.Size.{
  riv_nbits, format0, format1, format1a, format1c, format_sizeof_lut, format_sizeof, format0_sizeof,
  format1_sizeof, format1a_sizeof, format1c_sizeof,
}

abbrev nbits_test : ℕ → Bool
nbits_test n = leb 2 (riv_nbits n) && leb (riv_nbits n) 13

nbits_table : all_below 108 (λ k. nbits_test (k + 3)) ≡ true
unfolding all_below riv_nbits
nbits_table = refl

pub riv_nbits_bounds : (n : ℕ) → 3 ≤ n → n ≤ 110 → (2 ≤ riv_nbits n) × (riv_nbits n ≤ 13)
riv_nbits_bounds n lo hi = ground (arith, check_range 3 108 nbits_test n nbits_table)

abbrev lut_test : ℕ → Bool
lut_test n =
    format_sizeof_lut format0 n == format0_sizeof n
    && format_sizeof_lut format1 n == format1_sizeof n
    && format_sizeof_lut format1a n == format1a_sizeof n
    && format_sizeof_lut format1c n == format1c_sizeof n

lut_table : all_below 100 (λ k. lut_test (k + 1)) ≡ true
unfolding all_below format_sizeof_lut format0_sizeof format1_sizeof format1c_sizeof
lut_table = refl

-- For each number of resource blocks from 1 to 100, the entries of `dci_sz_table` for formats 0, 1,
-- 1A and 1C are the sizes that `srslte_dci_format_sizeof` computes, whatever the number of ports.
pub format_sizeof_lut-eq-format_sizeof :
    (n ports : ℕ)
    → 1 ≤ n
    → n ≤ 100
    → (format_sizeof_lut format0 n ≡ format_sizeof format0 n ports)
      × (format_sizeof_lut format1 n ≡ format_sizeof format1 n ports)
      × (format_sizeof_lut format1a n ≡ format_sizeof format1a n ports)
      × (format_sizeof_lut format1c n ≡ format_sizeof format1c n ports)
unfolding format_sizeof
format_sizeof_lut-eq-format_sizeof n ports lo hi =
    ground (arith, check_range 1 100 lut_test n lut_table)

-- The fields of formats 0 and 1A fit into the sizes of the table, and those into the buffer.
abbrev fields_test : ℕ → Bool
fields_test n =
    leb (riv_nbits n + 14) (format_sizeof_lut format0 n)
    && leb (riv_nbits n + 15) (format_sizeof_lut format1a n)
    && leb (format_sizeof_lut format0 n) 128
    && leb (format_sizeof_lut format1a n) 128

fields_table : all_below 100 (λ k. fields_test (k + 1)) ≡ true
unfolding all_below riv_nbits format_sizeof_lut
fields_table = refl

pub fields_fit :
    (n : ℕ)
    → 1 ≤ n
    → n ≤ 100
    → (riv_nbits n + 14 ≤ format_sizeof_lut format0 n)
      × (riv_nbits n + 15 ≤ format_sizeof_lut format1a n)
      × (format_sizeof_lut format0 n ≤ 128)
      × (format_sizeof_lut format1a n ≤ 128)
fields_fit n lo hi = ground (arith, check_range 1 100 fields_test n fields_table)

-- In a cell of 15 resource blocks the value of a run of 8 blocks that starts at block 0 to 6 needs
-- more bits than a RIV has.
riv_nbits_overflow : (rb : ℕ) → rb ≤ 6 → 2 ^ riv_nbits 15 ≤ type2_to_riv 8 rb 15
unfolding riv_nbits type2_to_riv
riv_nbits_overflow rb h = ground arith
