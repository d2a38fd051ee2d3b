-- ===== src/Prelude/Results.antt =====
-- Return codes.

-- `SRSLTE_SUCCESS` and `SRSLTE_ERROR`
pub data Status : Type 0 where
  success error : Status
