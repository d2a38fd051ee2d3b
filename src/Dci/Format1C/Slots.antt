-- ===== src/Dci/Format1C/Slots.antt =====
-- The slots of a format 1C message for a run of whole steps, and reading them.
use vbbu.Prelude.{
  ℕ, ◌+◌, ◌*◌, ◌/◌, ◌%◌, ◌^◌, ◌≤◌, ◌<◌, ◌≡◌, refl, ap, none, some, List, ◌++◌, length,
  length-append, drop, arith, true, Bool, u32, leb, ◌==◌, ◌&&◌, if◌then◌else◌, Bool-cases, inl, inr,
  ◌⊎◌, sym,
}
use mathlib.Core.Path.{subst}
use vbbu.Prelude.Check.{all_below, check_range}
use vbbu.Bit.{◌>>=◌}
use vbbu.Ra.Types.{DlDci, type2, Type2, ng1, dist}
use vbbu.Ra.Type2.{type2_to_riv, type2_from_riv, type2_n_rb_step, type2_n_vrb_dl}
use vbbu.Ra.Riv.{from_riv-to_riv}
use vbbu.Dci.Size.{format1c, format_sizeof_lut, riv_nbits}
use vbbu.Dci.Msg.{Slot, bits}
use vbbu.Dci.Msg.Facts.{filled, pack-bits, pack-bits_last, length-bits}
use vbbu.Dci.Format1C.{
  n_vrb_p, n_vrb_dl, gap_slots, format1c_riv, format1c_slots, format1c_accepts, old_type2, read_gap,
  format1c_fields,
}

-- The lengths at gap 1, checked at each number of resource blocks.
abbrev pub gap_bits : ℕ → ℕ
gap_bits n = if leb 50 n then 1 else 0

abbrev size_test : ℕ → Bool
size_test n =
    leb (n_vrb_p 0 n) 110
    && leb (riv_nbits (n_vrb_p 0 n)) 13
    && gap_bits n + riv_nbits (n_vrb_p 0 n) + 5 == format_sizeof_lut format1c n

size_table : all_below 100 (λ k. size_test (k + 1)) ≡ true
unfolding all_below riv_nbits n_vrb_p type2_n_rb_step n_vrb_dl type2_n_vrb_dl format_sizeof_lut
size_table = refl

pub size_facts :
    (n : ℕ)
    → 1 ≤ n
    → n ≤ 100
    → (n_vrb_p 0 n ≤ 110)
      × (riv_nbits (n_vrb_p 0 n) ≤ 13)
      × (gap_bits n + riv_nbits (n_vrb_p 0 n) + 5 ≡ format_sizeof_lut format1c n)
size_facts n lo hi = ground (arith, check_range 1 100 size_test n size_table)

-- The conditions under which a run of blocks can be sent: gap 1, whole steps, and a RIV that fits.
pub record IsRun (a : Type2) (nof_prb : ℕ) : Type 0 where
  pub distributed : a.mode ≡ dist
  pub gap_one : a.n_gap ≡ ng1
  pub some_block : 1 ≤ a.l_crb
  pub whole_length : a.l_crb % type2_n_rb_step nof_prb ≡ 0
  pub whole_start : a.rb_start % type2_n_rb_step nof_prb ≡ 0
  pub inside : a.rb_start + a.l_crb ≤ n_vrb_p ng1 nof_prb * type2_n_rb_step nof_prb
  pub riv_fits : format1c_riv a nof_prb < 2 ^ riv_nbits (n_vrb_p ng1 nof_prb)

-- What a receiver that starts from `old` has after the message.
unfoldable pub received : DlDci → Type2 → DlDci → ℕ → DlDci
received d a old nof_prb = record old {
  alloc = type2 (record (old_type2 old.alloc) {
    riv = format1c_riv a nof_prb;
    l_crb = a.l_crb;
    rb_start = a.rb_start;
    n_gap = ng1;
    mode = dist;
  });
  mcs_idx = d.mcs_idx;
  rv_idx = none;
  nof_tb = 1;
  dci_is_1c = true;
}

-- A run of whole steps lies inside the virtual blocks, and multiplying gives it back.
abbrev InSteps : ℕ → ℕ → ℕ → ℕ → Type 0
InSteps s l rb n =
    (1 ≤ l / s) × (rb / s + l / s ≤ n) × (u32 (l / s * s) ≡ l) × (u32 (rb / s * s) ≡ rb)

abbrev WholeSteps : ℕ → ℕ → ℕ → ℕ → Type 0
WholeSteps s l rb n = (1 ≤ l) × (l % s ≡ 0) × (rb % s ≡ 0) × (rb + l ≤ n * s) × (n ≤ 110)

steps_of_two : (l rb n : ℕ) → WholeSteps 2 l rb n → InSteps 2 l rb n
steps_of_two l rb n h = omega arith

steps_of_four : (l rb n : ℕ) → WholeSteps 4 l rb n → InSteps 4 l rb n
steps_of_four l rb n h = omega arith

step_cases : (n : ℕ) → (type2_n_rb_step n ≡ 2) ⊎ (type2_n_rb_step n ≡ 4)
unfolding type2_n_rb_step
step_cases n = ground arith

in_steps : (s l rb n : ℕ) → (s ≡ 2) ⊎ (s ≡ 4) → WholeSteps s l rb n → InSteps s l rb n
in_steps s l rb n (inl e) =
    subst (λ t. WholeSteps t l rb n → InSteps t l rb n) (sym e) (steps_of_two l rb n)
in_steps s l rb n (inr e) =
    subst (λ t. WholeSteps t l rb n → InSteps t l rb n) (sym e) (steps_of_four l rb n)

read_gap-slots :
    (old_gap gap n : ℕ) (t : List Slot) (bytes rest : List ℕ)
    → gap ≡ ng1
    → old_gap ≡ ng1
    → (bytes' : List ℕ) × (read_gap old_gap n (filled (gap_slots gap n ++ t) bytes ++ rest)
        ≡ some (ng1, filled t bytes' ++ rest))
unfolding read_gap gap_slots filled
read_gap-slots old_gap gap n t bytes rest e e' = elim (Bool-cases (leb 50 n)) [
  | inl large ↦ (drop 1 bytes, rw large (rw e refl))
  | inr small ↦ (bytes, rw small (rw e' refl))
]

module _ (d : DlDci) (a : Type2) (old : DlDci) (n : ℕ) (lo : 1 ≤ n) (hi : n ≤ 100) (v : IsRun a n)
    (mcs_fits : d.mcs_idx < 32) where
  abbrev step : ℕ
  step = type2_n_rb_step n

  abbrev blocks : ℕ
  blocks = n_vrb_p ng1 n

  run-InSteps : InSteps step a.l_crb a.rb_start blocks
  run-InSteps =
      in_steps step a.l_crb a.rb_start blocks (step_cases n)
        (v.some_block, v.whole_length, v.whole_start, v.inside, (size_facts n lo hi).0)

  -- Decoding the RIV gives the run in steps.
  decoded_run :
      type2_from_riv (format1c_riv a n) blocks blocks ≡ (a.l_crb / step, a.rb_start / step)
  decoded_run =
      let (some_step, fits, same_length, same_start) = run-InSteps in
      let riv : format1c_riv a n ≡ type2_to_riv (a.l_crb / step) (a.rb_start / step) blocks =
        riv_of_run in
      rw riv (
        from_riv-to_riv (a.l_crb / step) (a.rb_start / step) blocks blocks (size_facts n lo hi).0
          (omega arith) some_step fits (inr (omega arith)))
    where
      riv_of_run : format1c_riv a n ≡ type2_to_riv (a.l_crb / step) (a.rb_start / step) blocks
      riv_of_run = unfold format1c_riv in rw v.gap_one (ground arith)

  format1c_slots-gap :
      format1c_slots d a n
      ≡ gap_slots a.n_gap n ++ (bits (format1c_riv a n) (riv_nbits blocks) ++ bits d.mcs_idx 5)
  unfolding format1c_slots
  format1c_slots-gap =
      ap
        (λ (g : ℕ).
          gap_slots a.n_gap n
          ++ (bits (format1c_riv a n) (riv_nbits (n_vrb_p g n)) ++ bits d.mcs_idx 5))
        v.gap_one

  pub format1c_fields-slots :
      (bytes rest : List ℕ)
      → (old_type2 old.alloc).n_gap ≡ ng1
      → (rest' : List ℕ) × (format1c_fields old n (filled (format1c_slots d a n) bytes ++ rest)
          ≡ some ((received d a old n, gap_bits n + riv_nbits blocks + 5), rest'))
  unfolding format1c_fields received
  format1c_fields-slots bytes rest fresh =
      let (some_step, fits, same_length, same_start) = run-InSteps in
      let facts = size_facts n lo hi in
      let (b1, e1) =
        read_gap-slots (old_type2 old.alloc).n_gap a.n_gap n
          (bits (format1c_riv a n) (riv_nbits blocks) ++ bits d.mcs_idx 5) bytes rest v.gap_one
          fresh in
      let (b2, e2) =
        pack-bits (format1c_riv a n) (riv_nbits blocks) (bits d.mcs_idx 5) b1 rest
          (omega (arith, facts.1)) v.riv_fits in
      let e3 = pack-bits_last d.mcs_idx 5 b2 rest (omega arith) mcs_fits in
      (
        rest,
        rw format1c_slots-gap (
            rw (e1, ◌>>=◌)
              (rw (e2, ◌>>=◌)
                (rw decoded_run (rw (e3, ◌>>=◌) (rw (same_length, same_start) refl))))),
      )

  pub length-format1c_slots : length (format1c_slots d a n) ≡ format_sizeof_lut format1c n
  length-format1c_slots = rw format1c_slots-gap (
      omega (
        arith,
        length-append (gap_slots a.n_gap n)
            (bits (format1c_riv a n) (riv_nbits blocks) ++ bits d.mcs_idx 5),
        length-append (bits (format1c_riv a n) (riv_nbits blocks)) (bits d.mcs_idx 5),
        length-bits (format1c_riv a n) (riv_nbits blocks),
        length-bits d.mcs_idx 5,
        length-gap_slots,
        (size_facts n lo hi).2,
      ))
    where
      length-gap_slots : length (gap_slots a.n_gap n) ≡ gap_bits n
      length-gap_slots = unfold gap_slots in ground arith

  -- The guards of the packer pass.
  pub accepted : format1c_accepts a n ≡ true
  unfolding format1c_accepts
  accepted = rw v.gap_one (ground arith)
