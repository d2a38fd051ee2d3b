-- ===== src/Dci/Format1A/Order.antt =====
-- The test of `dci_format1As_unpack` for a random access order, and the new data indicator.
use vbbu.Prelude.{
  ℕ, zero, suc, ◌+◌, ◌*◌, ◌/◌, ◌%◌, ◌^◌, ◌<◌, ◌≡◌, refl, ap, ◌∙◌, Option, none, some, List, ◌∷◌,
  ◌++◌, append_assoc, arith, true, false, bit_and, ◌>>>◌, ◌==◌, Bool-cases, inl, inr, ==_iff,
}
use native.Mathlib.Nat.{mod-eq_of_lt}
use vbbu.Prelude.Bits.{bit_and-one, two-pow}
use vbbu.Bit.{unpack}
use vbbu.Bit.RoundTrip.{top_digit}
use vbbu.Ra.Types.{DlDci, Alloc, Type2, type0, type1, type2, other}
use vbbu.Dci.Size.{riv_nbits}
use vbbu.Dci.Msg.{Msg, Slot, Status, bits}
use vbbu.Dci.Msg.Facts.{filled, filled-bits}
use vbbu.Dci.Format1C.{Packed, with_dci}
use vbbu.Dci.Format1A.{
  run_length, is_order, format1a_pack, format1a_pack_run, format1a_body, ndi_slot, length_allowed,
}

-- A value that is not all ones has a zero among its bits.
run_length-unpack :
    (n v : ℕ) (rest : List ℕ)
    → v % 2 ^ n + 1 < 2 ^ n
    → (k : ℕ) × (run_length 1 n (unpack v n ++ rest) ≡ some k) × (k < n)
unfolding run_length unpack
run_length-unpack zero v rest h = absurd (omega arith)
run_length-unpack (suc n) v rest h = elim (Bool-cases (bit_and (v >>> n) 1 == 1)) [
  | inl one ↦
      let digit : v / 2 ^ n % 2 ≡ 1 = omega (arith, bit_and-one (v / 2 ^ n), (==_iff _ _).0 one) in
      let top : v / 2 ^ n % 2 * 2 ^ n ≡ 2 ^ n = ap (λ (t : ℕ). t * 2 ^ n) digit ∙ omega arith in
      let (k, e, l) = run_length-unpack n v rest (omega (arith, top_digit n v, top, two-pow n)) in
      (suc k, rw (one, run_length) (rw (e, run_length) refl), omega arith)
  | inr clear ↦ (0, rw (clear, run_length) refl, omega arith)
]

-- The message of a grant whose RIV is not all ones is no random access order.
pub is_order-bits :
    (msg : Msg) (n mode v : ℕ) (t : List Slot) (bytes rest : List ℕ)
    → v + 1 < 2 ^ riv_nbits n
    → is_order msg n (mode ∷ (filled (bits v (riv_nbits n) ++ t) bytes ++ rest)) ≡ some false
unfolding is_order
is_order-bits msg n mode v t bytes rest h = elim (Bool-cases (mode == 0)) [
  | inl local ↦
      let (bytes', e) = filled-bits v (riv_nbits n) t bytes in
      let (k, runs, short) =
        run_length-unpack (riv_nbits n) v (filled t bytes' ++ rest)
          (omega (arith, mod-eq_of_lt {n = v} {m = 2 ^ riv_nbits n} (omega arith))) in
      let joined =
        ap (λ l. l ++ rest) e ∙ append_assoc (unpack v (riv_nbits n)) (filled t bytes') rest in
      rw local (rw joined (rw runs (ground arith)))
  | inr remote ↦ rw remote refl
]

-- What is sent: the status and the message.
unfoldable pub sent : Packed → Option (Status × Msg)
sent none = none
sent (some (s, d, msg)) = some (s, msg)

sent-with_dci : (d : DlDci) (r : Option (Status × Msg)) → sent (with_dci d r) ≡ r
unfolding sent
sent-with_dci d none = refl
sent-with_dci d (some r) = refl

module _ (d d' : DlDci) (msg : Msg) (n : ℕ) where
  sent_run :
      (a : Type2)
      → format1a_body d a n true ≡ format1a_body d' a n true
      → sent (format1a_pack_run d a msg n true) ≡ sent (format1a_pack_run d' a msg n true)
  unfolding format1a_pack_run
  sent_run a same = elim (Bool-cases (length_allowed a n true)) [
    | inl fits ↦ rw fits (simp (sent-with_dci, same))
    | inr long ↦ rw long (simp sent-with_dci)
  ]

  sent_alloc :
      (x : Alloc)
      → d.alloc ≡ x
      → d'.alloc ≡ x
      → ((a : Type2) → format1a_body d a n true ≡ format1a_body d' a n true)
      → sent (format1a_pack d msg n true) ≡ sent (format1a_pack d' msg n true)
  unfolding format1a_pack
  sent_alloc (type0 m) e e' same =
      rw (e, format1a_pack) (rw (e', format1a_pack) (simp sent-with_dci))
  sent_alloc (type1 m s b) e e' same =
      rw (e, format1a_pack) (rw (e', format1a_pack) (simp sent-with_dci))
  sent_alloc (type2 a) e e' same =
      rw (e, format1a_pack) (rw (e', format1a_pack) (sent_run a (same a)))
  sent_alloc (other t) e e' same =
      rw (e, format1a_pack) (rw (e', format1a_pack) (simp sent-with_dci))

-- For a C-RNTI the packer does not send the new data indicator: two grants that differ in nothing
-- else are sent as the same message.
ndi_not_sent :
    (d : DlDci) (msg : Msg) (n : ℕ)
    → sent (format1a_pack (record d { ndi = true }) msg n true)
      ≡ sent (format1a_pack (record d { ndi = false }) msg n true)
unfolding format1a_body ndi_slot
ndi_not_sent d msg n =
    sent_alloc (record d { ndi = true }) (record d { ndi = false }) msg n d.alloc refl refl
      (λ a. refl)
