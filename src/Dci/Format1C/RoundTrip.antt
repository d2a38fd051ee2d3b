-- ===== src/Dci/Format1C/RoundTrip.antt =====
-- Unpacking a format 1C message gives back the grant that was packed.
use vbbu.Prelude.{
  ℕ, ◌+◌, ◌≤◌, ◌<◌, ◌≡◌, refl, ap, ◌∙◌, some, List, ◌++◌, length, drop, arith, true, ==_iff,
}
use vbbu.Ra.Types.{DlDci, type2, Type2, ng1, dist}
use vbbu.Dci.Size.{format1c, format_sizeof_lut, riv_nbits}
use vbbu.Dci.Msg.{Msg, Slot, success, store, max_bits}
use vbbu.Dci.Msg.Facts.{filled, store-success}
use vbbu.Dci.Format1C.{
  n_vrb_p, format1c_slots, format1c_accepts, format1c_pack_run, format1c_pack, old_type2,
  format1c_fields, format1c_unpack,
}
use vbbu.Dci.Format1C.Slots.{
  IsRun, received, gap_bits, size_facts, length-format1c_slots, format1c_fields-slots, accepted,
}

pack_type2 :
    (d : DlDci) (a : Type2) (msg : Msg) (n : ℕ)
    → d.alloc ≡ type2 a
    → format1c_pack d msg n ≡ format1c_pack_run d a msg n
unfolding format1c_pack
pack_type2 d a msg n e = ground arith

pack_accepted :
    (d : DlDci) (a : Type2) (msg msg' : Msg) (n : ℕ)
    → a.mode ≡ dist
    → format1c_accepts a n ≡ true
    → store success (format1c_slots d a n) msg ≡ some (success, msg')
    → format1c_pack_run d a msg n ≡ some (success, record d { dci_is_1c = true }, msg')
unfolding format1c_pack_run
pack_accepted d a msg msg' n e ok stored = rw ((==_iff a.mode dist).1 e) (rw ok (rw stored refl))

unpack_fields :
    (msg : Msg) (old new : DlDci) (n k : ℕ) (rest : List ℕ)
    → msg.nof_bits ≡ format_sizeof_lut format1c n
    → format1c_fields old n msg.bytes ≡ some ((new, k), rest)
    → format1c_unpack msg old n ≡ some (success, new, record msg { nof_bits = k })
unfolding format1c_unpack
unpack_fields msg old new n k rest size fields = rw ((==_iff _ _).1 size) (rw fields refl)

-- For a cell of 6 to 100 resource blocks and a buffer of 128 bytes or more, packing a distributed
-- run at gap 1 of whole steps inside the virtual blocks, whose value and scheme fit in their
-- bits, succeeds with a message of the size of format 1C, and unpacking that message gives a
-- receiver whose gap selection is gap 1 the grant, and leaves the message as it is.
pub format1c_unpack-format1c_pack :
    (d old : DlDci) (a : Type2) (msg : Msg) (n : ℕ)
    → d.alloc ≡ type2 a
    → 6 ≤ n
    → n ≤ 100
    → max_bits ≤ length msg.bytes
    → IsRun a n
    → d.mcs_idx < 32
    → (old_type2 old.alloc).n_gap ≡ ng1
    → (msg' : Msg) × (format1c_pack d msg n ≡ some (success, record d { dci_is_1c = true }, msg'))
      × (msg'.nof_bits ≡ format_sizeof_lut format1c n)
      × (format1c_unpack msg' old n ≡ some (success, received d a old n, msg'))
format1c_unpack-format1c_pack d old a msg n is_run lo hi room v mcs_fits fresh =
    let one : 1 ≤ n = omega arith in
    let slots : List Slot = format1c_slots d a n in
    let size = length-format1c_slots d a old n one hi v mcs_fits in
    let facts = size_facts n one hi in
    let rest : List ℕ = drop (length slots) msg.bytes in
    let msg' : Msg = record msg {
      bytes = filled slots msg.bytes ++ rest;
      nof_bits = length slots;
    } in
    let stored = store-success slots msg (ground (arith, size, facts)) in
    let (rest', fields) = format1c_fields-slots d a old n one hi v mcs_fits msg.bytes rest fresh in
    let same : gap_bits n + riv_nbits (n_vrb_p ng1 n) + 5 ≡ length slots =
      omega (arith, size, facts.2) in
    (
      msg',
      pack_type2 d a msg n is_run
          ∙ pack_accepted d a msg msg' n v.distributed (accepted d a old n one hi v mcs_fits)
              stored,
      size,
      unpack_fields msg' old (received d a old n) n _ rest' size fields
          ∙ ap (λ (k : ℕ). some (success, received d a old n, record msg' { nof_bits = k })) same,
    )
