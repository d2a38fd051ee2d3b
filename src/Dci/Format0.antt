-- ===== src/Dci/Format0.antt =====
-- Format 0 of srslte/lib/phch/dci.c, the uplink grant. The bit counts are uint32_t differences
-- that do not wrap from 3 resource blocks on; a cell has at least 6.
pub mod RoundTrip
use vbbu.Prelude.{
  ℕ, ◌+◌, ◌-◌, ◌*◌, ◌/◌, ◌^◌, Bool, true, false, Option, none, some, List, [], ◌∷◌, ◌++◌, length,
  bit_and, bit_or, ◌<<<◌, ◌>>>◌, ltb, leb, ◌==◌, if◌then◌else◌, bool_byte, is_set, not,
}
use vbbu.Bit.{Reader, pure, ◌>>=◌, ◌>>◌, next, pack}
use vbbu.Ra.Types.{Type2, UlDci, FreqHop, disabled, hop}
use vbbu.Ra.Type2.{type2_to_riv, type2_from_riv}
use vbbu.Dci.Size.{riv_nbits, Format, format0, format_sizeof_lut}
use vbbu.Dci.Msg.{Msg, Slot, Status, success, error, bits, pad, store, run}

-- The choice between the run and the raw value that all packers make.
unfoldable pub riv_of : Type2 → ℕ → ℕ
riv_of a nof_prb = if a.l_crb == 0 then a.riv else type2_to_riv a.l_crb a.rb_start nof_prb

-- `n_ul_hop` and the bits that are written for it.
unfoldable pub n_ul_hop : FreqHop → ℕ → ℕ
n_ul_hop disabled nof_prb = 0
n_ul_hop (hop fl) nof_prb = if ltb nof_prb 50 then 1 else 2

unfoldable pub hop_slots : FreqHop → ℕ → List Slot
hop_slots disabled nof_prb = some 0 ∷ []
hop_slots (hop fl) nof_prb =
    if ltb nof_prb 50
    then some 1 ∷ some (bit_and fl 1) ∷ []
    else some 1 ∷ some (bit_and fl 2 >>> 1) ∷ some (bit_and fl 1) ∷ []

-- The slots that `dci_format0_pack` fills before the padding.
unfoldable pub format0_slots : UlDci → ℕ → List Slot
format0_slots d nof_prb =
    some 0
    ∷ (hop_slots d.freq_hop_fl nof_prb
        ++ (bits (riv_of d.type2_alloc nof_prb) (riv_nbits nof_prb - n_ul_hop d.freq_hop_fl nof_prb)
            ++ (bits d.mcs_idx 5
                ++ (some (bool_byte d.ndi)
                    ∷ some 0
                    ∷ some 0
                    ∷ some 0
                    ∷ some 0
                    ∷ some 0
                    ∷ some (bool_byte d.cqi_request)
                    ∷ []))))

-- `dci_format0_pack`
unfoldable pub format0_pack : UlDci → Msg → ℕ → Option (Status × Msg)
format0_pack d msg nof_prb =
    store success (pad (format_sizeof_lut format0 nof_prb) (format0_slots d nof_prb)) msg

-- The frequency hopping flag as it is read.
unfoldable pub read_hop : ℕ → Reader (FreqHop × ℕ)
read_hop nof_prb = do
  flag ← next
  if flag == 0
      then pure (disabled, 0)
      else if ltb nof_prb 50
      then (do b ← next; pure (hop b, 1))
      else (do b0 ← next; b1 ← next; pure (hop (bit_or (b0 <<< 1) b1), 2))

-- The fields behind the differentiation bit.
unfoldable pub format0_fields : UlDci → ℕ → Reader UlDci
format0_fields d nof_prb = do
  (fl, n) ← read_hop nof_prb
  riv ← pack (riv_nbits nof_prb - n)
  let (l, rb) = type2_from_riv riv nof_prb nof_prb
  mcs ← pack 5
  ndi ← next
  tpc ← pack 2
  dmrs ← pack 3
  cqi ← next
  pure (record d {
    freq_hop_fl = fl;
    type2_alloc = record d.type2_alloc { riv = riv; l_crb = l; rb_start = rb };
    mcs_idx = mcs;
    ndi = is_set ndi;
    tpc_pusch = tpc;
    n_dmrs = dmrs;
    cqi_request = is_set cqi;
  })

-- `dci_format0_unpack`
unfoldable pub format0_unpack : Msg → UlDci → ℕ → Option (Status × UlDci)
format0_unpack msg d nof_prb =
    if not (msg.nof_bits == format_sizeof_lut format0 nof_prb)
    then some (error, d)
    else run
        (do
          first ← next
          if not (first == 0)
              then pure (error, d)
              else (do d' ← format0_fields d nof_prb; pure (success, d')))
        msg
