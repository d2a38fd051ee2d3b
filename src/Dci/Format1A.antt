-- ===== src/Dci/Format1A.antt =====
-- Format 1A of srslte/lib/phch/dci.c, the compact downlink grant, and formats 1B and 1D, which
-- share its resource allocation.
pub mod Order
pub mod Slots
pub mod RoundTrip
use vbbu.Prelude.{
  ℕ, zero, suc, ◌+◌, ◌-◌, ◌^◌, Bool, true, false, Option, none, some, List, [], ◌∷◌, ◌++◌, length,
  ltb, leb, ◌==◌, ◌&&◌, if◌then◌else◌, bool_byte, is_set, not, drop, sub32,
}
use vbbu.Bit.{Reader, pure, ◌>>=◌, ◌>>◌, next, pack}
use vbbu.Ra.Types.{DlDci, Alloc, type0, type1, type2, other, Type2, ng1, loc, dist}
use vbbu.Ra.Type2.{type2_to_riv, type2_from_riv, type2_n_vrb_dl}
use vbbu.Dci.Size.{Format, format1a, format_sizeof_lut, riv_nbits, tpmi_bits}
use vbbu.Dci.Msg.{Msg, Slot, Status, success, error, bits, pad, store, run}
use vbbu.Dci.Format0.{riv_of}
use vbbu.Dci.Format1.{rv_word}
use vbbu.Dci.Format1C.{n_vrb_dl, old_type2, Packed, with_dci}

-- The guard of `dci_format1As_pack` on the length of the run.
unfoldable pub length_allowed : Type2 → ℕ → Bool → Bool
length_allowed a nof_prb crc_is_crnti =
    if a.mode == loc
    then leb a.l_crb nof_prb
    else leb a.l_crb (if crc_is_crnti && ltb 50 nof_prb then 16 else n_vrb_dl a.n_gap nof_prb)

-- Whether the message has a gap bit in front of the RIV.
unfoldable pub has_gap : ℕ → ℕ → Bool → Bool
has_gap mode nof_prb crc_is_crnti = crc_is_crnti && mode == dist && leb 50 nof_prb

unfoldable pub gap_slots : Type2 → ℕ → Bool → List Slot
gap_slots a nof_prb crc_is_crnti =
    if has_gap a.mode nof_prb crc_is_crnti then some a.n_gap ∷ [] else []

-- The slot behind the HARQ process.
unfoldable pub ndi_slot : DlDci → Type2 → ℕ → Bool → Slot
ndi_slot d a nof_prb true = if leb 50 nof_prb && a.mode == dist then some a.n_gap else none
ndi_slot d a nof_prb false = some (bool_byte d.ndi)

-- The two slots of the TPC command.
unfoldable pub tpc_slots : Type2 → Bool → List Slot
tpc_slots a true = some 0 ∷ some 0 ∷ []
tpc_slots a false = none ∷ some a.n_prb1a ∷ []

-- The slots behind the mode.
unfoldable pub format1a_body : DlDci → Type2 → ℕ → Bool → List Slot
format1a_body d a nof_prb crc_is_crnti =
    gap_slots a nof_prb crc_is_crnti
    ++ (bits (riv_of a nof_prb)
          (riv_nbits nof_prb - (if has_gap a.mode nof_prb crc_is_crnti then 1 else 0))
        ++ (bits d.mcs_idx 5
            ++ (bits d.harq_process 3
                ++ (ndi_slot d a nof_prb crc_is_crnti
                    ∷ (bits (rv_word d.rv_idx) 2 ++ tpc_slots a crc_is_crnti)))))

-- `dci_format1As_pack` for an allocation of type 2.
unfoldable pub format1a_pack_run : DlDci → Type2 → Msg → ℕ → Bool → Packed
format1a_pack_run d a msg nof_prb crc_is_crnti =
    let d' : DlDci = record d { dci_is_1a = true } in
    let head : List Slot = some 1 ∷ some a.mode ∷ [] in
    if length_allowed a nof_prb crc_is_crnti
    then with_dci d' (
        store success
          (pad (format_sizeof_lut format1a nof_prb)
            (head ++ format1a_body d a nof_prb crc_is_crnti))
          msg)
    else with_dci d' (store error head msg)

-- `dci_format1As_pack`
unfoldable pub format1a_pack : DlDci → Msg → ℕ → Bool → Packed
format1a_pack d msg nof_prb crc_is_crnti = elim d.alloc [
  | type2 a ↦ format1a_pack_run d a msg nof_prb crc_is_crnti
  | _ ↦ with_dci d (store error (some 1 ∷ []) msg)
]

-- `while (k < n && y[...] == b)`: how many of the next `n` bytes are `b`, up to the first that is
-- not. `none` is a read past the end.
unfoldable pub run_length : ℕ → ℕ → List ℕ → Option ℕ
run_length b zero bytes = some 0
run_length b (suc n) [] = none
run_length b (suc n) (x ∷ bytes) = elim (x == b) [
  | true ↦ elim (run_length b n bytes) [ none ↦ none | some k ↦ some (suc k) ]
  | false ↦ some 0
]

-- Whether the message is a random access order: `bytes` are those from the mode on.
unfoldable pub is_order : Msg → ℕ → List ℕ → Option Bool
is_order msg nof_prb [] = none
is_order msg nof_prb (mode ∷ bytes) =
    if not (mode == 0)
    then some false
    else let nof_bits = riv_nbits nof_prb in
      elim (run_length 1 nof_bits bytes) [
        | none ↦ none
        | some i ↦
            if not (i == nof_bits)
            then some false
            else let start = 1 + 10 + nof_bits in
              elim (run_length 0 (sub32 msg.nof_bits 1 - start) (drop start (mode ∷ bytes))) [
                | none ↦ none
                | some k ↦ some (start + k == sub32 msg.nof_bits 1)
              ]
      ]

-- `y++` with no read
abbrev pub skip : Reader (Unit {0})
skip bytes = some (tt, drop 1 bytes)

-- The allocation of type 2 as formats 1A, 1B and 1D read it, over the members `old`; formats 1B
-- and 1D are for a C-RNTI.
unfoldable pub read_type2 : Type2 → ℕ → Bool → Reader Type2
read_type2 old nof_prb crc_is_crnti = do
  mode ← next
  n_gap ← (if has_gap mode nof_prb crc_is_crnti then next else pure ng1)
  let nb_gap = if has_gap mode nof_prb crc_is_crnti then 1 else 0
  let nof_vrb = if mode == loc then nof_prb else n_vrb_dl n_gap nof_prb
  riv ← pack (riv_nbits nof_prb - nb_gap)
  let (l, rb) = type2_from_riv riv nof_prb nof_vrb
  pure (record old { riv = riv; l_crb = l; rb_start = rb; n_gap = n_gap; mode = mode })

-- The byte behind the HARQ process of format 1A: the gap, and the new data indicator.
unfoldable pub read_ndi : Bool → Type2 → ℕ → Bool → Reader (Bool × Type2)
read_ndi ndi a nof_prb true = do b ← next; pure (is_set b, a)
read_ndi ndi a nof_prb false =
    if leb 50 nof_prb && a.mode == dist
    then (do b ← next; pure (ndi, record a { n_gap = b }))
    else (do skip; pure (ndi, a))

-- The two bytes of the TPC command of format 1A.
unfoldable pub read_tpc : Type2 → Bool → Reader Type2
read_tpc a true = do skip; skip; pure a
read_tpc a false = do skip; b ← next; pure (record a { n_prb1a = b })

-- The fields of format 1A from the mode on.
unfoldable pub format1a_fields : DlDci → ℕ → Bool → Reader DlDci
format1a_fields d nof_prb crc_is_crnti = do
  a ← read_type2 (old_type2 d.alloc) nof_prb crc_is_crnti
  mcs ← pack 5
  harq ← pack 3
  (ndi, a') ← read_ndi d.ndi a nof_prb crc_is_crnti
  rv ← pack 2
  a'' ← read_tpc a' crc_is_crnti
  pure (record d {
    alloc = type2 a'';
    mcs_idx = mcs;
    harq_process = harq;
    ndi = ndi;
    rv_idx = some rv;
    nof_tb = 1;
    dci_is_1a = true;
  })

-- `dci_format1As_unpack` behind the differentiation bit.
unfoldable pub format1a_rest : Msg → DlDci → ℕ → Bool → List ℕ → Option (Status × DlDci)
format1a_rest msg d nof_prb crc_is_crnti bytes = elim (is_order msg nof_prb bytes) [
  | none ↦ none
  | some true ↦ some (error, record d { dci_is_1a = true })
  | some false ↦ elim (format1a_fields d nof_prb crc_is_crnti bytes) [
    | none ↦ none
    | some (d', rest) ↦ some (success, d')
  ]
]

-- `dci_format1As_unpack`
unfoldable pub format1a_unpack : Msg → DlDci → ℕ → Bool → Option (Status × DlDci)
format1a_unpack msg d nof_prb crc_is_crnti =
    if not (msg.nof_bits == format_sizeof_lut format1a nof_prb)
    then some (error, d)
    else elim (next msg.bytes) [
      | none ↦ none
      | some (first, bytes) ↦
          if not (first == 1)
          then some (error, d)
          else format1a_rest msg d nof_prb crc_is_crnti bytes
    ]

-- The fields that formats 1B and 1D share; the TPC command is passed over.
unfoldable pub format1bd_fields : DlDci → ℕ → ℕ → Reader (DlDci × Bool)
format1bd_fields d nof_prb nof_ports = do
  a ← read_type2 (old_type2 d.alloc) nof_prb true
  mcs ← pack 5
  harq ← pack 3
  ndi ← next
  rv ← pack 2
  skip
  skip
  pinfo ← pack (tpmi_bits nof_ports)
  flag ← next
  pure (
    record d {
      alloc = type2 a;
      mcs_idx = mcs;
      harq_process = harq;
      ndi = is_set ndi;
      rv_idx = some rv;
      pinfo = pinfo;
      nof_tb = 1;
    },
    is_set flag,
  )

-- `dci_format1b_unpack`: the last flag confirms the precoding.
unfoldable pub format1b_unpack : Msg → DlDci → ℕ → ℕ → Option (Status × DlDci)
format1b_unpack msg d nof_prb nof_ports =
    run
      (do
        (d', flag) ← format1bd_fields d nof_prb nof_ports
        pure (success, record d' { pconf = flag }))
      msg

-- `dci_format1d_unpack`: the last flag is the power offset.
unfoldable pub format1d_unpack : Msg → DlDci → ℕ → ℕ → Option (Status × DlDci)
format1d_unpack msg d nof_prb nof_ports =
    run
      (do
        (d', flag) ← format1bd_fields d nof_prb nof_ports
        pure (success, record d' { power_offset = flag }))
      msg
