-- ===== src/Ra/Tbs/Search.antt =====
-- The lookups in the tables of transport block sizes.
use vbbu.Prelude.{
  ℕ, zero, suc, ◌+◌, ◌≤◌, ◌<◌, ◌≡◌, some, leb, arith, Bool-cases, inl, inr, leb→le, leb→gt, ◌∙◌,
}
use mathlib.Core.Path.{subst}
use native.Mathlib.Decide.{dec_lt}
use vbbu.Ra.Tbs.{table_entry, row_search, tbs_to_table_idx, max_prb}

-- The least index whose entry for `n` resource blocks is no less than `tbs`.
pub record IsLeast (i tbs n : ℕ) : Type 0 where
  pub inside : i < 27
  pub enough : tbs ≤ table_entry i n
  pub less : (k : ℕ) → k < i → table_entry k n < tbs

-- All entries up to an index and the next one.
less_next :
    (idx tbs n : ℕ)
    → ((k : ℕ) → k < suc idx → table_entry k n < tbs)
    → table_entry (suc idx) n < tbs
    → (k : ℕ) → k < suc (suc idx)
    → table_entry k n < tbs
less_next idx tbs n below next k h = elim (dec_lt k (suc idx)) [
  | yes before ↦ below k before
  | no here ↦ let e : suc idx ≡ k = omega arith in subst (λ t. table_entry t n < tbs) e next
]

search_here :
    (k idx tbs n : ℕ)
    → table_entry idx n < tbs
    → tbs ≤ table_entry (idx + 1) n
    → row_search (suc k) idx tbs n ≡ some (idx + 1)
unfolding row_search
search_here k idx tbs n low high = ground arith

search_later :
    (k idx tbs n : ℕ)
    → table_entry (idx + 1) n < tbs
    → row_search (suc k) idx tbs n ≡ row_search k (suc idx) tbs n
unfolding row_search
search_later k idx tbs n low = ground arith

found :
    (k idx tbs n : ℕ)
    → suc idx < 27
    → ((j : ℕ) → j < suc idx → table_entry j n < tbs)
    → tbs ≤ table_entry (idx + 1) n
    → (i : ℕ) × (row_search (suc k) idx tbs n ≡ some i) × IsLeast i tbs n
found k idx tbs n short below high = (
  idx + 1,
  search_here k idx tbs n (below idx (omega arith)) high,
  record { inside = omega arith; enough = high; less = λ j h. below j (omega arith) },
)

-- A value that lies above the entries up to one index, and not above a later one.
row_search-IsLeast :
    (k idx tbs n : ℕ)
    → suc k + idx < 27
    → ((j : ℕ) → j < suc idx → table_entry j n < tbs)
    → tbs ≤ table_entry (suc k + idx) n
    → (i : ℕ) × (row_search (suc k) idx tbs n ≡ some i) × IsLeast i tbs n
row_search-IsLeast zero idx tbs n short below above =
    let next : suc zero + idx ≡ idx + 1 = omega arith in
    let high : tbs ≤ table_entry (idx + 1) n = rw next at above in
    found zero idx tbs n (omega arith) below high
row_search-IsLeast (suc k) idx tbs n short below above =
    elim (Bool-cases (leb tbs (table_entry (idx + 1) n))) [
      | inl here ↦
          found (suc k) idx tbs n (omega arith) below (leb→le tbs (table_entry (idx + 1) n) here)
      | inr later ↦
          let past = leb→gt tbs (table_entry (idx + 1) n) later in
          let next : idx + 1 ≡ suc idx = omega arith in
          let shift : suc (suc k) + idx ≡ suc k + suc idx = omega arith in
          let r =
            row_search-IsLeast k (suc idx) tbs n (omega arith)
              (less_next idx tbs n below (rw next at past)) (rw shift at above) in
          (r.0, search_later (suc k) idx tbs n past ∙ r.1, r.2)
    ]

-- For each number of resource blocks from 1 to 110, and each size that is no less than the first entry
-- of the table for it and less than the last, the lookup succeeds, and finds the least index whose entry
-- is no less than the size.
pub tbs_to_table_idx-IsLeast :
    (tbs n : ℕ)
    → 1 ≤ n
    → n ≤ max_prb
    → table_entry 0 n ≤ tbs
    → tbs < table_entry 26 n
    → (i : ℕ) × (tbs_to_table_idx tbs n ≡ some i) × IsLeast i tbs n
unfolding tbs_to_table_idx
tbs_to_table_idx-IsLeast tbs n lo hi first last = elim (Bool-cases (leb tbs (table_entry 0 n))) [
  | inl low ↦ (
    0,
    ground (arith, low),
    record { inside = omega arith; enough = leb→le _ _ low; less = λ k h. absurd (omega arith) },
  )
  | inr more ↦
      let above = leb→gt tbs (table_entry 0 n) more in
      let r =
        row_search-IsLeast 25 0 tbs n (omega arith)
          (λ j h. let e : 0 ≡ j = omega arith in subst (λ t. table_entry t n < tbs) e above)
          (omega arith) in
      (r.0, ground (arith, more, r.1), r.2)
]
