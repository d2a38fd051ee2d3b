-- ===== src/Dci/Format1C.antt =====
-- Format 1C of srslte/lib/phch/dci.c, for very compact downlink grants.
pub mod Slots
pub mod RoundTrip
use vbbu.Prelude.{
  ℕ, ◌+◌, ◌-◌, ◌*◌, ◌/◌, ◌%◌, ◌^◌, Bool, true, false, Option, none, some, List, [], ◌∷◌, ◌++◌,
  length, ltb, leb, ◌==◌, if◌then◌else◌, not, u32,
}
use vbbu.Bit.{Reader, pure, ◌>>=◌, ◌>>◌, next, pack}
use vbbu.Ra.Types.{DlDci, Alloc, type0, type1, type2, other, Type2, ng1, dist}
use vbbu.Ra.Type2.{type2_to_riv, type2_from_riv, type2_n_vrb_dl, type2_n_rb_step}
use vbbu.Dci.Size.{Format, format1c, format_sizeof_lut, riv_nbits}
use vbbu.Dci.Msg.{Msg, Slot, Status, success, error, bits, store, run}

-- `N_vrb_dl` for a gap selection
unfoldable pub n_vrb_dl : ℕ → ℕ → ℕ
n_vrb_dl n_gap nof_prb = type2_n_vrb_dl nof_prb (n_gap == ng1)

-- The number of steps that the virtual blocks make.
unfoldable pub n_vrb_p : ℕ → ℕ → ℕ
n_vrb_p n_gap nof_prb = n_vrb_dl n_gap nof_prb / type2_n_rb_step nof_prb

-- The gap bit, which small bandwidths do without.
unfoldable pub gap_slots : ℕ → ℕ → List Slot
gap_slots n_gap nof_prb = if leb 50 nof_prb then some n_gap ∷ [] else []

-- The RIV, in steps.
unfoldable pub format1c_riv : Type2 → ℕ → ℕ
format1c_riv a nof_prb =
    let n_step = type2_n_rb_step nof_prb in
    if a.l_crb == 0
    then a.riv
    else type2_to_riv (a.l_crb / n_step) (a.rb_start / n_step) (n_vrb_p a.n_gap nof_prb)

unfoldable pub format1c_slots : DlDci → Type2 → ℕ → List Slot
format1c_slots d a nof_prb =
    gap_slots a.n_gap nof_prb
    ++ (bits (format1c_riv a nof_prb) (riv_nbits (n_vrb_p a.n_gap nof_prb)) ++ bits d.mcs_idx 5)

-- The guards on the run of blocks: all of them pass.
unfoldable pub format1c_accepts : Type2 → ℕ → Bool
format1c_accepts a nof_prb =
    let n_step = type2_n_rb_step nof_prb in
    if ltb (n_vrb_p a.n_gap nof_prb * n_step) a.l_crb
    then false
    else if not (a.l_crb % n_step == 0)
    then false
    else if not (a.rb_start % n_step == 0)
    then false
    else true

-- The result of a packing function: the grant, which it may have changed, and the message.
abbrev pub Packed : Type 0
Packed = Option (Status × DlDci × Msg)

abbrev pub with_dci : DlDci → Option (Status × Msg) → Packed
with_dci d none = none
with_dci d (some (s, msg)) = some (s, d, msg)

-- `dci_format1Cs_pack` for an allocation of type 2. There is no padding.
unfoldable pub format1c_pack_run : DlDci → Type2 → Msg → ℕ → Packed
format1c_pack_run d a msg nof_prb =
    if not (a.mode == dist)
    then with_dci d (store error [] msg)
    else let d' : DlDci = record d { dci_is_1c = true } in
      if format1c_accepts a nof_prb
      then with_dci d' (store success (format1c_slots d a nof_prb) msg)
      else with_dci d' (store error (gap_slots a.n_gap nof_prb) msg)

-- `dci_format1Cs_pack`
unfoldable pub format1c_pack : DlDci → Msg → ℕ → Packed
format1c_pack d msg nof_prb = elim d.alloc [
  | type2 a ↦ format1c_pack_run d a msg nof_prb
  | _ ↦ with_dci d (store error [] msg)
]

-- The members of `type2_alloc` that an unpacking function starts from; those of another member of
-- the union are taken as zero, as they are after the `bzero` of `srslte_dci_msg_to_dl_grant`.
unfoldable pub old_type2 : Alloc → Type2
old_type2 (type2 a) = a
old_type2 (type0 m) = record { riv = 0; l_crb = 0; rb_start = 0; n_prb1a = 0; n_gap = 0; mode = 0 }
old_type2 (type1 m s b) = record {
  riv = 0;
  l_crb = 0;
  rb_start = 0;
  n_prb1a = 0;
  n_gap = 0;
  mode = 0;
}
old_type2 (other t) = record { riv = 0; l_crb = 0; rb_start = 0; n_prb1a = 0; n_gap = 0; mode = 0 }

unfoldable pub read_gap : ℕ → ℕ → Reader ℕ
read_gap old_gap nof_prb = if leb 50 nof_prb then next else pure old_gap

-- The bytes read, and the number of bits.
unfoldable pub format1c_fields : DlDci → ℕ → Reader (DlDci × ℕ)
format1c_fields d nof_prb =
    let old = old_type2 d.alloc in
    let n_step = type2_n_rb_step nof_prb in
    (do
      n_gap ← read_gap old.n_gap nof_prb
      let n_p = n_vrb_p n_gap nof_prb
      riv ← pack (riv_nbits n_p)
      let (l, rb) = type2_from_riv riv n_p n_p
      mcs ← pack 5
      let a = record old {
        riv = riv;
        l_crb = u32 (l * n_step);
        rb_start = u32 (rb * n_step);
        n_gap = n_gap;
        mode = dist;
      }
      pure (
        record d { alloc = type2 a; mcs_idx = mcs; rv_idx = none; nof_tb = 1; dci_is_1c = true },
        (if leb 50 nof_prb then 1 else 0) + riv_nbits n_p + 5,
      ))

-- `dci_format1Cs_unpack`, which also stores the number of bits read into the message.
unfoldable pub format1c_unpack : Msg → DlDci → ℕ → Packed
format1c_unpack msg d nof_prb =
    if not (msg.nof_bits == format_sizeof_lut format1c nof_prb)
    then some (error, d, msg)
    else elim (format1c_fields d nof_prb msg.bytes) [
      | none ↦ none
      | some ((d', n), rest) ↦ some (success, d', record msg { nof_bits = n })
    ]
