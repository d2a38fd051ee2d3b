-- ===== src/Sequences/Tests.antt =====
-- Sequences at concrete values, for srslte/lib/common/sequence.c and srslte/lib/phch/sequences.c.
use vbbu.Prelude.{ℕ, ◌+◌, ◌%◌, ◌≡◌, ◌<◌, refl, get_or, length}
use vbbu.Sequences.{set_lte_pr, pdsch_seed}
use vbbu.Sequences.Gold.{output, feedback1, feedback2, start1, start2, set_lte_pr-registers}

-- RNTI 1, codeword 1, slot 3 and cell 2.
pdsch_seed_run : pdsch_seed 1 1 3 2 ≡ 16384 + 8192 + 512 + 2
unfolding pdsch_seed
pdsch_seed_run = refl

set_lte_pr-registers_example :
    (length (set_lte_pr 12 77) ≡ 12)
    × ((n : ℕ)
        → n < 12
        → get_or (set_lte_pr 12 77) n 0
          ≡ (output feedback1 start1 (n + 1600) + output feedback2 (start2 77) (n + 1600)) % 2)
set_lte_pr-registers_example = set_lte_pr-registers 12 77
