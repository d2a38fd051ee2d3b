-- ===== src/Lib.antt =====
-- Verification of the baseband library srsLTE (srslte/ in this repository): the downlink control
-- information, the allocation of resources, bit packing, checksums, code block segmentation, the turbo
-- coder, the convolutional coder and its rate matching, sequences, scrambling, layer mapping, channel quality reports and the synchronisation of the UE.
--
-- The program. A DCI message tells a receiver of its grant. srslte/lib/phch/dci.c packs and unpacks
-- the messages, srslte/lib/phch/ra.c turns the unpacked fields into a grant: resource blocks,
-- modulation and transport block size. A transport block, with the checksum of srslte/lib/fec/crc.c
-- behind it, is cut into code blocks by
-- srslte/lib/fec/cbsegm.c, which srslte/lib/fec/turbocoder.c codes with the interleaver of
-- srslte/lib/fec/tc_interl_lte.c, and is scrambled by srslte/lib/scrambling/scrambling.c. A DCI message gets a checksum under
-- its RNTI, is coded by srslte/lib/fec/convcoder.c, and srslte/lib/fec/rm_conv.c fits it to its place in the
-- control channel, srslte/lib/phch/pdcch.c. The bits of a
-- message are packed by srslte/lib/utils/bit.c. srslte/lib/phch/cqi.c packs the reports of a UE, and
-- srslte/lib/ue/ue_sync.c keeps it in step with the frames of its cell.
--
-- The files. `Bit` models srslte/lib/utils/bit.c from srslte_bit_unpack_vector on: a pointer that
-- moves over a buffer is a reader on the list of bytes behind it, and a read past the end is `none`.
-- `Ra.Types` has the structures of srslte/include/srslte/phch/ra.h, with the union of allocations as
-- a sum. `Ra.Type2` has the resource indication value (RIV, srslte_ra_type2_to_riv and
-- srslte_ra_type2_from_riv) and the gaps, `Ra.Riv` and `Ra.Gap` their properties. `Ra.Tbs` has
-- srslte/lib/phch/tbs_tables.h and its lookups. `Ra.Grant` is the memory of the HARQ processes
-- (last_mod, last_ul_tbs_idx, last_dl_tbs), which each grant takes and returns; `Ra.Ul` is
-- srslte_ra_ul_dci_to_grant, `Ra.Dl` the resource blocks of the downlink, `Ra.Dl.Scheme`
-- srslte_ra_dl_dci_to_grant and `Ra.Dl.Elements` srslte_ra_dl_grant_nof_re. `Cbsegm` is
-- srslte/lib/fec/cbsegm.c. `Dci.Size` and `Dci.SizeTable` are the sizes of dci.c and
-- srslte/lib/phch/dci_sz_table.h, `Dci.Msg` the message buffer: a packing function is the list of its
-- stores, in order, where `none` is a byte that the pointer passes over. `Dci.Format0`, `Dci.Format1`,
-- `Dci.Format1A` (with 1B and 1D), `Dci.Format1C` and `Dci.Format2` are the formats, `Dci.Rar` the
-- random access response grant and `Dci.Dispatch` the entry points.
--
-- `Bit.Interleave` is the interleaving of packed bits, and `Bit.Octets` reads bytes as bits.
-- `Crc` is crc.c: each checksum
-- sets the register to 0, so the record has no register; an array is the list of its bytes or bits.
-- `Turbo.Interleaver` is tc_interl_lte.c: the tables forward and reverse are lists that a store changes
-- in place. `Turbo.Coder` has both encoders of turbocoder.c: a constituent encoder is its three registers
-- and `shift`, srslte_tcod_encode is `encode`, and srslte_tcod_encode_lut is `encode_lut`, whose tables
-- tcod_lut_output and tcod_lut_next_state are functions. `Convcoder` is
-- srslte/lib/fec/convcoder.c, `RmConv` srslte/lib/fec/rm_conv.c, where `Soft` is the type of the soft values: the
-- receivers for float and int16_t are one definition. `Pdcch` has the search spaces of srslte/lib/phch/pdcch.c, and
-- srslte_pdcch_dci_encode and srslte_pdcch_dci_decode, which join `Crc`, `Convcoder`, `RmConv` and `Viterbi`.
-- `Viterbi` is srslte/lib/fec/viterbi.c in the build without SSE, with srslte_vec_quant_fuc of srslte/lib/utils/vector.c. Parameters
-- are the parity of a word (parity.h) and the search through the trellis (viterbi37_port.c), which are copies of another
-- library, and the products in floating point. What a statement relies on of the search is the record `IsViterbi`: it finds the
-- path that clear symbols speak for, but for some bits at either end.
-- `PhyCommon` is srslte/lib/common/phy_common.c: `use_standard_rates` is an argument, and frequencies are
-- counted in tenths of a MHz, so that they are exact.
-- `Sequences` is srslte/lib/common/sequence.c with the seeds of srslte/lib/phch/sequences.c. `Turbo.Gentable` is the rest of
-- srslte_tcod_gentable, and `Turbo.Encode` compares the encoders. `Scrambling` is the part of
-- scrambling.c that works on bits; a word is loaded with its first byte lowest. `Layermap` is
-- srslte/lib/mimo/layermap.c, for symbols of any type. `Cqi` is cqi.c.
-- `UeSync` is ue_sync.c: the record `Sync` holds the fields that steer the state machine, `zerocopy` is
-- srslte_ue_sync_zerocopy, and a `Frame` holds what the receive callback and the correlators of
-- srslte/lib/sync/sync.c answer during one call; `UeSync.Run` has the calls in any order. A module
-- `Tests` has concrete runs.
--
-- Numbers. A uint32_t is a natural number; operations that can wrap reduce it (`u32`, `sub32`). The
-- single precision ceilings are exact for the numbers of resource blocks, at most 110, and for
-- transport blocks below 2 ^ 23 bits, and are integer functions here; the statements keep to these
-- bounds. The bits that a field loses are counted with truncated subtraction, `riv_nbits n - k`, which
-- agrees with the source from 3 resource blocks on. The size lookup has entries up to 100 resource
-- blocks, which the statements on messages keep to.
--
-- Fuel. The loops that raise a size have 8 rounds, which is enough for each size from 1 to 100
-- resource blocks: the table, which has no fuel, agrees. The logarithm has 32 rounds, one for each bit of
-- a word, and the bit count 33 tests, which its theorem shows to suffice. The loops of the other parts
-- recur on the number of rounds that are left. Bit collection and its undoing have a lap over the buffer
-- for each bit as fuel.
--
-- Not modelled: printing, null pointer checks, failing allocations, the format names as strings, the
-- floating point sampling offsets of the synchronisation, and the parts of the library that process
-- samples.
pub mod Prelude
pub mod Bit
pub mod Ra
pub mod Crc
pub mod Cbsegm
pub mod Turbo
pub mod Sequences
pub mod PhyCommon
pub mod Convcoder
pub mod RmConv
pub mod Scrambling
pub mod Layermap
pub mod Cqi
pub mod UeSync
pub mod Dci
pub mod Viterbi
pub mod Pdcch
