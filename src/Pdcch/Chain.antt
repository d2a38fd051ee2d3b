-- ===== src/Pdcch/Chain.antt =====
-- A message of srslte_pdcch_dci_encode, received without noise, is what srslte_pdcch_dci_decode gives.
use vbbu.Prelude.{ℕ, ◌≤◌, Option, some, some}
use vbbu.Crc.{Crc}
use vbbu.Viterbi.{Viterbi, quant_entry}

-- What is relied on of the quantisation: a soft value that speaks for a bit gives a symbol that does.
pub record IsLoud {ℓ} {A : Type ℓ} (Says : ℕ → A → Type 0) (scaled : A → Option ℕ) : Type ℓ where
  pub zero_heard : (v : A) → Says 0 v → quant_entry (scaled v) ≤ 111
  pub one_heard : (v : A) → Says 1 v → 143 ≤ quant_entry (scaled v)
