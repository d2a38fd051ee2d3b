-- ===== src/Dci/Size.antt =====
-- The payload sizes of srslte/lib/phch/dci.c. The single precision expressions
-- `ceilf (log2f (...))` and `ceilf ((float) n / P)` are exact for the numbers of resource blocks
-- that a cell can have (at most 110), and are written as integer functions.
pub mod Facts
use vbbu.Prelude.{
  ℕ, zero, suc, ◌+◌, ◌-◌, ◌*◌, ◌/◌, ◌^◌, Bool, true, false, ◌||◌, Option, none, some, List, [], ◌∷◌,
  ltb, leb, ◌==◌, if◌then◌else◌, get_elem?, ceil_div,
}
use vbbu.Ra.Type2.{type0_p, type2_n_vrb_dl, type2_n_rb_step, log2_p}
use vbbu.Dci.SizeTable.{Row, dci_sz_table}

-- The least `i` from `k` on with `x ≤ 2 ^ i`, if one is found within the fuel.
unfoldable pub log2_from : ℕ → ℕ → ℕ → ℕ
log2_from zero k x = k
log2_from (suc fuel) k x = let rest = log2_from fuel (k + 1) x in if leb x (2 ^ k) then k else rest

-- `ceilf (log2f (x))` of a positive uint32_t
unfoldable pub ceil_log2 : ℕ → ℕ
unfolding log2_from
ceil_log2 x = log2_from 32 0 x

-- `riv_nbits`
unfoldable pub riv_nbits : ℕ → ℕ
unfolding ceil_log2
riv_nbits nof_prb = ceil_log2 (nof_prb * (nof_prb + 1) / 2)

-- `ambiguous_sizes` and `is_ambiguous_size`
abbrev pub ambiguous_sizes : List ℕ
ambiguous_sizes = 12 ∷ 14 ∷ 16 ∷ 20 ∷ 24 ∷ 26 ∷ 32 ∷ 40 ∷ 44 ∷ 56 ∷ []

unfoldable pub is_member : ℕ → List ℕ → Bool
is_member n [] = false
is_member n (x ∷ xs) = n == x || is_member n xs

unfoldable pub is_ambiguous_size : ℕ → Bool
unfolding is_member
is_ambiguous_size size = is_member size ambiguous_sizes

-- `while (test (n)) n++`, with fuel.
unfoldable pub raise_while : ℕ → (ℕ → Bool) → ℕ → ℕ
raise_while zero test n = n
raise_while (suc fuel) test n =
    let rest = raise_while fuel test (n + 1) in if test n then rest else n

-- No two ambiguous sizes are neighbours, and format 1 avoids two sizes more: 8 rounds are enough
-- (`Size.Facts`).
abbrev pub size_fuel : ℕ
size_fuel = 8

-- `dci_format0_sizeof_`
unfoldable pub format0_sizeof_raw : ℕ → ℕ
unfolding riv_nbits
format0_sizeof_raw nof_prb = 1 + 1 + riv_nbits nof_prb + 5 + 1 + 2 + 3 + 1

-- `dci_format1a_sizeof`
unfoldable pub format1a_sizeof : ℕ → ℕ
unfolding riv_nbits format0_sizeof_raw raise_while is_ambiguous_size
format1a_sizeof nof_prb =
    let n = 1 + 1 + riv_nbits nof_prb + 5 + 3 + 1 + 2 + 2 in
    let n' = raise_while size_fuel (λ k. ltb k (format0_sizeof_raw nof_prb)) n in
    if is_ambiguous_size n' then n' + 1 else n'

-- `dci_format0_sizeof`
unfoldable pub format0_sizeof : ℕ → ℕ
unfolding format0_sizeof_raw format1a_sizeof raise_while
format0_sizeof nof_prb =
    raise_while size_fuel (λ k. ltb k (format1a_sizeof nof_prb)) (format0_sizeof_raw nof_prb)

-- `dci_format1_sizeof`
unfoldable pub format1_sizeof : ℕ → ℕ
unfolding format0_sizeof format1a_sizeof raise_while is_ambiguous_size type0_p
format1_sizeof nof_prb =
    let n = ceil_div nof_prb (type0_p nof_prb) + 5 + 3 + 1 + 2 + 2 in
    let n' = if ltb 10 nof_prb then n + 1 else n in
    raise_while size_fuel
      (λ k. k == format0_sizeof nof_prb || k == format1a_sizeof nof_prb || is_ambiguous_size k) n'

-- `dci_format1c_sizeof`
unfoldable pub format1c_sizeof : ℕ → ℕ
unfolding riv_nbits type2_n_vrb_dl type2_n_rb_step
format1c_sizeof nof_prb =
    let n = riv_nbits (type2_n_vrb_dl nof_prb true / type2_n_rb_step nof_prb) + 5 in
    if leb 50 nof_prb then n + 1 else n

-- `tpmi_bits`
unfoldable pub tpmi_bits : ℕ → ℕ
tpmi_bits nof_ports = if leb nof_ports 2 then 2 else 4

-- `dci_format1b_sizeof`
unfoldable pub format1b_sizeof : ℕ → ℕ → ℕ
unfolding format1a_sizeof tpmi_bits raise_while is_ambiguous_size
format1b_sizeof nof_prb nof_ports =
    raise_while size_fuel is_ambiguous_size (format1a_sizeof nof_prb - 1 + tpmi_bits nof_ports + 1)

-- `dci_format1d_sizeof`
unfoldable pub format1d_sizeof : ℕ → ℕ → ℕ
unfolding format1b_sizeof
format1d_sizeof nof_prb nof_ports = format1b_sizeof nof_prb nof_ports

-- `precoding_bits_f2`
unfoldable pub precoding_bits_f2 : ℕ → ℕ
precoding_bits_f2 nof_ports = if leb nof_ports 2 then 3 else 6

-- `precoding_bits_f2a`
unfoldable pub precoding_bits_f2a : ℕ → ℕ
precoding_bits_f2a nof_ports = if leb nof_ports 2 then 0 else 2

-- The body that `dci_format2_sizeof`, `dci_format2a_sizeof` and `dci_format2b_sizeof` share, with
-- the number of bits for precoding information.
unfoldable pub format2x_sizeof : ℕ → ℕ → ℕ
unfolding raise_while is_ambiguous_size type0_p
format2x_sizeof nof_prb precoding_bits =
    let n = ceil_div nof_prb (type0_p nof_prb) + 2 + 3 + 1 + 2 * (5 + 1 + 2) + precoding_bits in
    raise_while size_fuel is_ambiguous_size (if ltb 10 nof_prb then n + 1 else n)

-- `srslte_dci_format_t`; `nof_formats` is `SRSLTE_DCI_NOF_FORMATS`
pub data Format : Type 0 where
  format0 format1 format1a format1c format1b format1d format2 format2a format2b nof_formats : Format

-- `srslte_dci_format_sizeof`
unfoldable pub format_sizeof : Format → ℕ → ℕ → ℕ
format_sizeof format0 nof_prb nof_ports = format0_sizeof nof_prb
format_sizeof format1 nof_prb nof_ports = format1_sizeof nof_prb
format_sizeof format1a nof_prb nof_ports = format1a_sizeof nof_prb
format_sizeof format1c nof_prb nof_ports = format1c_sizeof nof_prb
format_sizeof format1b nof_prb nof_ports = format1b_sizeof nof_prb nof_ports
format_sizeof format1d nof_prb nof_ports = format1d_sizeof nof_prb nof_ports
format_sizeof format2 nof_prb nof_ports = format2x_sizeof nof_prb (precoding_bits_f2 nof_ports)
format_sizeof format2a nof_prb nof_ports = format2x_sizeof nof_prb (precoding_bits_f2a nof_ports)
format_sizeof format2b nof_prb nof_ports = format2x_sizeof nof_prb 0
format_sizeof nof_formats nof_prb nof_ports = 0

-- The column of `dci_sz_table` that the table has for a format below 4.
unfoldable pub size_column : Format → Row → ℕ
size_column format0 row = row.0
size_column format1 row = row.1
size_column format1a row = row.2
size_column format1c row = row.3
size_column _ row = 0

-- `srslte_dci_format_sizeof_lut`
unfoldable pub format_sizeof_lut : Format → ℕ → ℕ
unfolding size_column dci_sz_table
format_sizeof_lut format nof_prb = elim (get_elem? dci_sz_table nof_prb) [
  | none ↦ 0
  | some row ↦ size_column format row
]
