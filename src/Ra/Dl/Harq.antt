-- ===== src/Ra/Dl/Harq.antt =====
-- The memory of the downlink HARQ processes: a retransmission has the size of the first transmission.
use native.Mathlib.Nat.{mod-lt}
use vbbu.Prelude.{
  ℕ, ◌+◌, ◌-◌, ◌%◌, ◌≤◌, ◌<◌, ◌≡◌, refl, ap, true, false, Option, none, some, length, get_or, set,
  get_or-set, ltb, ◌==◌, arith, success, Bool-cases, inl, inr,
}
use vbbu.Prelude.Check.{all_below, all_below_sound, check_range}
use vbbu.Ra.Types.{DlDci, Mod, qpsk, qam16, qam64}
use vbbu.Ra.Grant.{Mcs, Last, mod_bits_x_symbol}
use vbbu.Ra.Tbs.{tbs_from_idx, table_entry}
use vbbu.Ra.Dl.Scheme.{
  DlGrant, dl_mcs_table, dl_fill_ra_mcs, first_block, second_block, orders, dl_dci_to_grant_mcs,
  word_of,
}

positive_table : all_below 110 (λ k. all_below 27 (λ i. ltb 0 (table_entry i (k + 1)))) ≡ true
unfolding all_below table_entry
positive_table = refl

entry_positive : (i n : ℕ) → i < 27 → 1 ≤ n → n ≤ 110 → 0 < table_entry i n
entry_positive i n small lo hi =
    let row =
      check_range 1 110 (λ m. all_below 27 (λ i. ltb 0 (table_entry i m))) n positive_table lo
        (omega arith) in
    let e = all_below_sound 27 (λ i. ltb 0 (table_entry i n)) i row small in ground (arith, e)

entry_found : (i n : ℕ) → i < 27 → 1 ≤ n → n ≤ 110 → tbs_from_idx i n ≡ some (table_entry i n)
unfolding tbs_from_idx
entry_found i n small lo hi = ground arith

-- The index of a new transmission.
new_index :
    (idx : ℕ) (m : Mod)
    → idx ≤ 28
    → (m' : Mod) × (i : ℕ) × (dl_mcs_table idx m ≡ (m', some i)) × (i < 27)
unfolding dl_mcs_table
new_index idx m low = elim (Bool-cases (ltb idx 10)) [
  | inl a ↦ (qpsk, idx, ground (arith, a), ground (arith, a))
  | inr a ↦ elim (Bool-cases (ltb idx 17)) [
    | inl b ↦ (qam16, idx - 1, ground (arith, a, b), ground (arith, b))
    | inr b ↦ (qam64, idx - 2, ground (arith, a, b, low), omega arith)
  ]
]

old_index :
    (idx : ℕ) (m : Mod) → 29 ≤ idx → idx ≤ 31 → (m' : Mod) × (dl_mcs_table idx m ≡ (m', none))
unfolding dl_mcs_table
old_index idx m low high = elim (Bool-cases (idx == 29)) [
  | inl a ↦ (qpsk, ground (arith, a))
  | inr a ↦ elim (Bool-cases (idx == 30)) [
    | inl b ↦ (qam16, ground (arith, b))
    | inr b ↦ (qam64, ground (arith, a, b, low, high))
  ]
]

fill_new :
    (mcs : Mcs) (n : ℕ)
    → mcs.idx ≤ 28
    → 1 ≤ n
    → n ≤ 110
    → (m : Mod) × (tbs : ℕ) × (0 < tbs)
      × (dl_fill_ra_mcs mcs n ≡ (some tbs, record mcs { modulation = m; tbs = tbs }))
unfolding dl_fill_ra_mcs
fill_new mcs n low lo hi =
    let (m, i, e, small) = new_index mcs.idx mcs.modulation low in
    let t : ℕ = table_entry i n in
    let found = entry_found i n small lo hi in
    (
      m,
      t,
      entry_positive i n small lo hi,
      rw (e, dl_fill_ra_mcs)
          (rw (found, dl_fill_ra_mcs)
            (ap (λ (x : Mod × Option ℕ). (some t, record mcs { modulation = x.0; tbs = t })) e)),
    )

fill_old :
    (mcs : Mcs) (n : ℕ)
    → 29 ≤ mcs.idx
    → mcs.idx ≤ 31
    → (m : Mod) × (dl_fill_ra_mcs mcs n ≡ (some 0, record mcs { modulation = m }))
unfolding dl_fill_ra_mcs
fill_old mcs n low high =
    let (m, e) = old_index mcs.idx mcs.modulation low high in
    (
      m,
      rw (e, dl_fill_ra_mcs)
          (ap (λ (x : Mod × Option ℕ). (some 0, record mcs { modulation = x.0 })) e),
    )

-- Both blocks, when there is one.
one_block :
    (last last' : Last) (dci : DlDci) (g g' : DlGrant) (tbs : ℕ)
    → (dci.nof_tb == 2) ≡ false
    → first_block last dci g ≡ (some tbs, last', g')
    → dl_dci_to_grant_mcs last dci g true
      ≡ (success, last', record g' { qm = mod_bits_x_symbol g'.mcs.modulation })
unfolding dl_dci_to_grant_mcs second_block orders
one_block last last' dci g g' tbs one e = rw e (rw one (rw one refl))

first_new :
    (last : Last) (dci : DlDci) (g : DlGrant) (mcs : Mcs) (tbs : ℕ)
    → 0 < tbs
    → dl_fill_ra_mcs (record (g.mcs) { idx = dci.mcs_idx }) g.nof_prb ≡ (some tbs, mcs)
    → first_block last dci g ≡ (
      some tbs,
      record last { dl_tbs = set last.dl_tbs (dci.harq_process % 8) tbs },
      record g { mcs = mcs },
    )
unfolding first_block word_of
first_new last dci g mcs tbs pos e =
    let nonzero : (tbs == 0) ≡ false = ground arith in rw (e, first_block) (rw nonzero refl)

first_old :
    (last : Last) (dci : DlDci) (g : DlGrant) (mcs : Mcs)
    → dl_fill_ra_mcs (record (g.mcs) { idx = dci.mcs_idx }) g.nof_prb ≡ (some 0, mcs)
    → first_block last dci g ≡ (
      some 0,
      last,
      record g { mcs = record mcs { tbs = get_or last.dl_tbs (dci.harq_process % 8) 0 } },
    )
unfolding first_block word_of
first_old last dci g mcs e = rw (e, first_block) refl

-- From a memory of 8 processes, for a C-RNTI and one transport block, a grant with a scheme of up
-- to 28 on 1 to 110 resource blocks succeeds, and a later grant for the same HARQ process with a
-- scheme of 29 to 31 succeeds with the same transport block size, whatever its blocks, and leaves
-- the memory as it is.
pub dl_dci_to_grant_mcs-again :
    (last : Last) (dci dci' : DlDci) (g g' : DlGrant)
    → length last.dl_tbs ≡ 8
    → dci.nof_tb ≡ 1
    → dci'.nof_tb ≡ 1
    → dci.mcs_idx ≤ 28
    → 29 ≤ dci'.mcs_idx
    → dci'.mcs_idx ≤ 31
    → dci'.harq_process % 8 ≡ dci.harq_process % 8
    → 1 ≤ g.nof_prb
    → g.nof_prb ≤ 110
    → (last' : Last) × (h : DlGrant) × (h' : DlGrant) × (dl_dci_to_grant_mcs last dci g true
        ≡ (success, last', h))
      × (dl_dci_to_grant_mcs last' dci' g' true ≡ (success, last', h'))
      × (h'.mcs.tbs ≡ h.mcs.tbs)
dl_dci_to_grant_mcs-again last dci dci' g g' eight one one' low high top same lo hi =
    let (m, tbs, pos, e) = fill_new (record (g.mcs) { idx = dci.mcs_idx }) g.nof_prb low lo hi in
    let (m', e') = fill_old (record (g'.mcs) { idx = dci'.mcs_idx }) g'.nof_prb high top in
    let place : dci'.harq_process % 8 < 8 = mod-lt (dci'.harq_process) (omega arith) in
    let last' : Last = record last { dl_tbs = set last.dl_tbs (dci.harq_process % 8) tbs } in
    (
      last',
      _,
      _,
      one_block last last' dci g _ tbs (ground arith) (first_new last dci g _ tbs pos e),
      one_block last' last' dci' g' _ 0 (ground arith) (first_old last' dci' g' _ e'),
      rw⁻¹ same
          (get_or-set last.dl_tbs (dci'.harq_process % 8) tbs 0 (omega (arith, place, eight))),
    )
