-- ===== src/Ra/Ul/Harq.antt =====
-- The memory of the uplink HARQ processes: a retransmission repeats the transport block.
use native.Mathlib.Nat.{mod-lt}
use vbbu.Prelude.{
  ℕ, ◌-◌, ◌*◌, ◌%◌, ◌≤◌, ◌<◌, ◌≡◌, refl, ap, ◌∙◌, true, false, some, length, get_or, set,
  get_or-set, leb, ◌==◌, ◌&&◌, arith, u32, success,
}
use vbbu.Ra.Types.{UlDci, Mod, bpsk}
use vbbu.Ra.Grant.{Last, mod_bits_x_symbol, nre}
use vbbu.Ra.Tbs.{tbs_from_idx, table_entry}
use vbbu.Ra.Ul.{
  UlGrant, ul_mcs_table, store_tbs, ul_dci_to_grant_mcs, ul_rest, ul_dci_to_grant,
  ul_prb_allocation,
}

-- The memory has a place for each of the 8 processes.
pub record IsLast (last : Last) : Type 0 where
  pub eight_mods : length last.mods ≡ 8
  pub eight_idx : length last.ul_tbs_idx ≡ 8

-- What is left in the memory by a first transmission.
unfoldable pub remembered : Last → ℕ → ℕ → Last
remembered last mcs_idx pid = record last {
  ul_tbs_idx = set last.ul_tbs_idx pid (ul_mcs_table mcs_idx).1;
  mods = set last.mods pid (ul_mcs_table mcs_idx).0;
}

table_idx_small : (mcs_idx : ℕ) → mcs_idx ≤ 28 → (ul_mcs_table mcs_idx).1 < 27
unfolding ul_mcs_table
table_idx_small mcs_idx h = ground arith

tbs_found : (idx l : ℕ) → idx < 27 → 1 ≤ l → l ≤ 110 → tbs_from_idx idx l ≡ some (table_entry idx l)
unfolding tbs_from_idx
tbs_found idx l h lo hi = ground arith

first_mcs :
    (last : Last) (dci : UlDci) (grant : UlGrant) (pid tbs : ℕ)
    → dci.mcs_idx ≤ 28
    → tbs_from_idx (ul_mcs_table dci.mcs_idx).1 grant.l_prb ≡ some tbs
    → ul_dci_to_grant_mcs last dci grant pid ≡ (
      success,
      remembered last dci.mcs_idx (pid % 8),
      dci,
      record grant {
        mcs = record (grant.mcs) { modulation = (ul_mcs_table dci.mcs_idx).0; tbs = tbs };
      },
    )
unfolding ul_dci_to_grant_mcs remembered store_tbs
first_mcs last dci grant pid tbs low e =
    let b : leb dci.mcs_idx 28 ≡ true = ground arith in rw b (rw e refl)

again_mcs :
    (last : Last) (dci : UlDci) (grant : UlGrant) (pid idx tbs : ℕ) (m : Mod)
    → 28 < dci.mcs_idx
    → dci.cqi_request ≡ false
    → get_or last.ul_tbs_idx (pid % 8) 0 ≡ idx
    → get_or last.mods (pid % 8) bpsk ≡ m
    → tbs_from_idx idx grant.l_prb ≡ some tbs
    → ul_dci_to_grant_mcs last dci grant pid ≡ (
      success,
      last,
      record dci { rv_idx = dci.mcs_idx - 28 },
      record grant { mcs = record (grant.mcs) { modulation = m; tbs = tbs } },
    )
unfolding ul_dci_to_grant_mcs store_tbs
again_mcs last dci grant pid idx tbs m high quiet e1 e2 e3 =
    let b : leb dci.mcs_idx 28 ≡ false = ground arith in
    let c : (dci.mcs_idx == 29 && dci.cqi_request && leb grant.l_prb 4) ≡ false = ground arith in
    rw b (rw c (rw e1 (rw e2 (rw e3 refl))))

ul_steps :
    (last last' : Last) (dci dci' : UlDci) (g : UlGrant) (n ho pid : ℕ)
    → ul_dci_to_grant_mcs last dci (ul_prb_allocation dci ho n) pid ≡ (success, last', dci', g)
    → ul_dci_to_grant last dci n ho pid ≡ (
      success,
      last',
      dci',
      record g {
        mcs = record (g.mcs) { idx = dci'.mcs_idx };
        m_sc = u32 (g.l_prb * nre);
        m_sc_init = u32 (g.l_prb * nre);
        qm = mod_bits_x_symbol g.mcs.modulation;
      },
    )
unfolding ul_dci_to_grant ul_rest
ul_steps last last' dci dci' g n ho pid e = rw e refl

allocated : (dci : UlDci) (ho n : ℕ) → (ul_prb_allocation dci ho n).l_prb ≡ dci.type2_alloc.l_crb
unfolding ul_prb_allocation
allocated dci ho n = refl

-- From a memory of 8 processes, an uplink grant with a scheme of up to 28 on 1 to 110 resource
-- blocks succeeds, and a later grant for the same HARQ process and as many blocks, with a scheme
-- above 28 and without a CQI request, succeeds with the same transport block size and modulation,
-- whatever its other fields: its scheme gives the redundancy version, and the memory stays.
pub ul_dci_to_grant-again :
    (last : Last) (dci dci' : UlDci) (n n' ho ho' pid pid' : ℕ)
    → IsLast last
    → dci.mcs_idx ≤ 28
    → 28 < dci'.mcs_idx
    → dci'.cqi_request ≡ false
    → pid' % 8 ≡ pid % 8
    → 1 ≤ dci.type2_alloc.l_crb
    → dci.type2_alloc.l_crb ≤ 110
    → dci'.type2_alloc.l_crb ≡ dci.type2_alloc.l_crb
    → (last' : Last) × (g : UlGrant) × (g' : UlGrant) × (ul_dci_to_grant last dci n ho pid
        ≡ (success, last', dci, g))
      × (ul_dci_to_grant last' dci' n' ho' pid'
          ≡ (success, last', record dci' { rv_idx = dci'.mcs_idx - 28 }, g'))
      × (g'.mcs.tbs ≡ g.mcs.tbs)
      × (g'.mcs.modulation ≡ g.mcs.modulation)
      × (g'.qm ≡ g.qm)
unfolding remembered
ul_dci_to_grant-again last dci dci' n n' ho ho' pid pid' v low high quiet same lo hi equal =
    let idx : ℕ = (ul_mcs_table dci.mcs_idx).1 in
    let m : Mod = (ul_mcs_table dci.mcs_idx).0 in
    let l : ℕ = dci.type2_alloc.l_crb in
    let tbs : ℕ = table_entry idx l in
    let found = tbs_found idx l (table_idx_small dci.mcs_idx low) lo hi in
    let place : pid' % 8 < 8 = mod-lt pid' (omega arith) in
    let last' : Last = remembered last dci.mcs_idx (pid % 8) in
    let e1 =
      first_mcs last dci (ul_prb_allocation dci ho n) pid tbs low
        (ap (tbs_from_idx idx) (allocated dci ho n) ∙ found) in
    let e2 =
      again_mcs last' dci' (ul_prb_allocation dci' ho' n') pid' idx tbs m high quiet
        (rw⁻¹ same
          (get_or-set last.ul_tbs_idx (pid' % 8) idx 0 (omega (arith, place, v.eight_idx))))
        (rw⁻¹ same (get_or-set last.mods (pid' % 8) m bpsk (omega (arith, place, v.eight_mods))))
        (ap (tbs_from_idx idx) (allocated dci' ho' n' ∙ equal) ∙ found) in
    (
      last',
      _,
      _,
      ul_steps last last' dci dci _ n ho pid e1,
      ul_steps last' last' dci' _ _ n' ho' pid' e2,
      refl,
      refl,
      refl,
    )
