-- ===== src/Dci/Format1.antt =====
-- Format 1 of srslte/lib/phch/dci.c, a downlink grant with resource allocation type 0 or 1.
pub mod Facts
pub mod RoundTrip
use vbbu.Prelude.{
  ℕ, ◌+◌, ◌-◌, ◌^◌, Bool, true, false, Option, none, some, List, [], ◌∷◌, ◌++◌, length, ltb, leb,
  ◌==◌, if◌then◌else◌, bool_byte, is_set, not, ceil_div,
}
use vbbu.Bit.{Reader, pure, ◌>>=◌, ◌>>◌, next, pack}
use vbbu.Ra.Types.{DlDci, Alloc, type0, type1, type2, other}
use vbbu.Ra.Type2.{type0_p, log2_p}
use vbbu.Dci.Size.{Format, format1, format_sizeof_lut}
use vbbu.Dci.Msg.{Msg, Slot, Status, success, error, bits, pad, store, run}

-- `alloc_type` as it is stored.
unfoldable pub alloc_type : Alloc → ℕ
alloc_type (type0 rbg_bitmask) = 0
alloc_type (type1 vrb_bitmask rbg_subset shift) = 1
alloc_type (type2 a) = 2
alloc_type (other t) = t

-- The number of resource block groups, and the bits of the bitmap of type 1.
unfoldable pub alloc_size : ℕ → ℕ
alloc_size nof_prb = ceil_div nof_prb (type0_p nof_prb)

unfoldable pub vrb_size : ℕ → ℕ
vrb_size nof_prb = alloc_size nof_prb - log2_p (type0_p nof_prb) - 1

-- `rv_idx` converted to uint32_t
unfoldable pub rv_word : Option ℕ → ℕ
rv_word none = 2 ^ 32 - 1
rv_word (some rv) = rv

-- The fields of `dci_format1_pack` behind the resource allocation.
unfoldable pub format1_tail : DlDci → List Slot
format1_tail d =
    bits d.mcs_idx 5
    ++ (bits d.harq_process 3
        ++ (some (bool_byte d.ndi) ∷ (bits (rv_word d.rv_idx) 2 ++ (some 0 ∷ some 0 ∷ []))))

-- The resource allocation and what follows it; `none` is the default case of the switch.
unfoldable pub format1_body : DlDci → Alloc → ℕ → Option (List Slot)
format1_body d (type0 rbg_bitmask) nof_prb =
    some (bits rbg_bitmask (alloc_size nof_prb) ++ format1_tail d)
format1_body d (type1 vrb_bitmask rbg_subset shift) nof_prb = some (
    bits rbg_subset (log2_p (type0_p nof_prb))
    ++ (some (bool_byte shift) ∷ (bits vrb_bitmask (vrb_size nof_prb) ++ format1_tail d)))
format1_body d (type2 a) nof_prb = none
format1_body d (other t) nof_prb = none

-- The differentiation of the allocation type, which small bandwidths do without.
unfoldable pub format1_head : DlDci → ℕ → List Slot
format1_head d nof_prb = if ltb 10 nof_prb then some (alloc_type d.alloc) ∷ [] else []

-- `dci_format1_pack`
unfoldable pub format1_pack : DlDci → Msg → ℕ → Option (Status × Msg)
format1_pack d msg nof_prb = elim (format1_body d d.alloc nof_prb) [
  | none ↦ store error (format1_head d nof_prb) msg
  | some body ↦
      store success (pad (format_sizeof_lut format1 nof_prb) (format1_head d nof_prb ++ body)) msg
]

-- The resource allocation of the given type; `none` is the default case of the switch.
unfoldable pub read_alloc : ℕ → ℕ → Reader (Option Alloc)
read_alloc type nof_prb =
    if type == 0
    then (do mask ← pack (alloc_size nof_prb); pure (some (type0 mask)))
    else if type == 1
    then (do
      subset ← pack (log2_p (type0_p nof_prb))
      shift ← next
      mask ← pack (vrb_size nof_prb)
      pure (some (type1 mask subset (is_set shift))))
    else pure none

-- The fields behind the resource allocation. The two bits of the TPC command are not read.
unfoldable pub format1_fields : DlDci → Alloc → Reader DlDci
format1_fields d alloc = do
  mcs ← pack 5
  harq ← pack 3
  ndi ← next
  rv ← pack 2
  pure (record d {
    alloc = alloc;
    mcs_idx = mcs;
    harq_process = harq;
    ndi = is_set ndi;
    rv_idx = some rv;
    nof_tb = 1;
  })

-- The type that is read, or type 0 for a small bandwidth.
unfoldable pub read_type : ℕ → Reader ℕ
read_type nof_prb = if ltb 10 nof_prb then next else pure 0

-- `dci_format1_unpack`. On the default case `alloc_type` has been stored.
unfoldable pub format1_unpack : Msg → DlDci → ℕ → Option (Status × DlDci)
format1_unpack msg d nof_prb =
    if not (msg.nof_bits == format_sizeof_lut format1 nof_prb)
    then some (error, d)
    else run
        (do
          type ← read_type nof_prb
          found ← read_alloc type nof_prb
          elim found [
            | none ↦ pure (error, record d { alloc = other type })
            | some alloc ↦ do d' ← format1_fields d alloc; pure (success, d')
          ])
        msg
