-- ===== src/Dci/Dispatch/MessageType.antt =====
-- The format of a message is found from its size and its first bit.
use vbbu.Prelude.{ℕ, ◌+◌, ◌≤◌, ◌≡◌, ◌≢◌, refl, Bool, true, some, get_or, ◌==◌, ◌&&◌, not, arith}
use vbbu.Prelude.Check.{all_below, check_range}
use vbbu.Dci.Size.{format0, format1, format1a, format1c, format_sizeof_lut}
use vbbu.Dci.Msg.{Msg}
use vbbu.Dci.Dispatch.{pusch_sched, pdsch_sched, msg_get_type, mrnti}

abbrev apart : ℕ → Bool
apart n =
    format_sizeof_lut format0 n == format_sizeof_lut format1a n
    && not (format_sizeof_lut format1 n == format_sizeof_lut format1a n)
    && not (format_sizeof_lut format1c n == format_sizeof_lut format1a n)
    && not (format_sizeof_lut format1c n == format_sizeof_lut format1 n)

apart_table : all_below 100 (λ k. apart (k + 1)) ≡ true
unfolding all_below format_sizeof_lut
apart_table = refl

-- For a cell of 1 to 100 resource blocks, a message of the size of format 1 is taken for a format 1,
-- one of the size of format 1A for a format 0 or a format 1A by its first byte, and one of the size
-- of format 1C, for another RNTI than the M-RNTI, for a format 1C.
pub msg_get_type-format :
    (msg : Msg) (n rnti : ℕ)
    → 1 ≤ n
    → n ≤ 100
    → (msg.nof_bits ≡ format_sizeof_lut format1 n
        → msg_get_type msg n rnti ≡ some (pdsch_sched, format1))
      × (msg.nof_bits ≡ format_sizeof_lut format1a n
          → get_or msg.bytes 0 0 ≡ 0
          → msg_get_type msg n rnti ≡ some (pusch_sched, format0))
      × (msg.nof_bits ≡ format_sizeof_lut format1a n
          → get_or msg.bytes 0 0 ≢ 0
          → msg_get_type msg n rnti ≡ some (pdsch_sched, format1a))
      × (msg.nof_bits ≡ format_sizeof_lut format1c n
          → rnti ≢ mrnti
          → msg_get_type msg n rnti ≡ some (pdsch_sched, format1c))
unfolding msg_get_type
msg_get_type-format msg n rnti lo hi =
    let e = check_range 1 100 apart n apart_table lo (omega arith) in
    (
      λ p. ground (arith, e, p),
      λ p q. ground (arith, e, p, q),
      λ p q. ground (arith, e, p, q),
      λ p q. ground (arith, e, p, q),
    )
