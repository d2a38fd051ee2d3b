-- ===== src/Cqi/Period.antt =====
-- When periodic reports are sent.
use native.Mathlib.Nat.{mod-eq_of_lt, add-zero, add-mod-mod, mul-mod_right}
use vbbu.Prelude.{
  ℕ, ◌+◌, ◌-◌, ◌*◌, ◌/◌, ◌%◌, ◌^◌, ◌≤◌, ◌<◌, ◌≡◌, ◌↔◌, refl, sym, ◌∙◌, Option, none, some, Bool,
  true, ◌&&◌, ltb, leb, ltb→lt, ltb→ge, Bool-cases, inl, inr, if◌then◌else◌, ==_iff, sub32, arith,
  ap,
}
use vbbu.Prelude.Check.{all_below, all_below_sound}
use vbbu.Cqi.{period, cqi_send}

abbrev fits : Option (ℕ × ℕ) → Bool
fits none = true
fits (some (n_p, n_offset)) = ltb n_offset n_p && leb n_p 160

periods_ok : all_below 542 (λ i. fits (period i)) ≡ true
unfolding all_below period
periods_ok = refl

-- The offset is below the period, and the period at most 160 subframes.
period-fits :
    (i n_p n_offset : ℕ)
    → i < 542
    → period i ≡ some (n_p, n_offset)
    → (n_offset < n_p) × (n_p ≤ 160)
period-fits i n_p n_offset h e =
    let ok = rw e at (all_below_sound 542 (λ i. fits (period i)) i periods_ok h) in ground arith

same_remainder :
    (n_p n_offset tti : ℕ)
    → n_offset < n_p
    → n_offset ≤ tti
    → ((tti - n_offset) % n_p ≡ 0) ↔ (tti % n_p ≡ n_offset)
same_remainder n_p n_offset tti h le = (
  λ e.
      rw e at (sym (rw back at (add-mod-mod n_offset (tti - n_offset) n_p)))
      ∙ (ap (λ (t : ℕ). t % n_p) (add-zero n_offset) ∙ mod-eq_of_lt h),
  λ e.
      let multiple : tti - n_offset ≡ n_p * (tti / n_p) = omega arith in
      rw multiple (mul-mod_right n_p (tti / n_p)),
)
  where
    back : n_offset + (tti - n_offset) ≡ tti
    back = omega arith

-- From the first offset on, an index with a period sends a report exactly in the subframes whose
-- number leaves the offset as remainder by the period; the offset is below the period, and the period
-- at most 160 subframes.
cqi_send-later :
    (i tti n_p n_offset : ℕ)
    → i < 542
    → period i ≡ some (n_p, n_offset)
    → n_offset ≤ tti
    → tti < 2 ^ 32
    → (cqi_send i tti ≡ true) ↔ (tti % n_p ≡ n_offset)
unfolding cqi_send
cqi_send-later i tti n_p n_offset h e le word =
    let (small, short) = period-fits i n_p n_offset h e in
    let plain : sub32 tti n_offset ≡ tti - n_offset = omega arith in
    rw (e, cqi_send)
      (rw plain (
        λ t. (same_remainder n_p n_offset tti small le).0 ((==_iff _ 0).0 t),
        λ t. (==_iff _ 0).1 ((same_remainder n_p n_offset tti small le).1 t),
      ))

-- Before the offset the difference is 2 ^ 32 too large.
cqi_send-early :
    (i tti n_p n_offset : ℕ)
    → i < 542
    → period i ≡ some (n_p, n_offset)
    → tti < n_offset
    → (cqi_send i tti ≡ true) ↔ ((tti + 2 ^ 32) % n_p ≡ n_offset)
unfolding cqi_send
cqi_send-early i tti n_p n_offset h e before =
    let (small, short) = period-fits i n_p n_offset h e in
    let wrapped : sub32 tti n_offset ≡ tti + 2 ^ 32 - n_offset = omega arith in
    let same = same_remainder n_p n_offset (tti + 2 ^ 32) small (omega arith) in
    rw (e, cqi_send) (rw wrapped (λ t. same.0 ((==_iff _ 0).0 t), λ t. (==_iff _ 0).1 (same.1 t)))

-- The subframe number that the difference stands for: 2 ^ 32 larger before the offset.
unfoldable pub counted : ℕ → ℕ → ℕ
counted tti n_offset = if ltb tti n_offset then tti + 2 ^ 32 else tti

-- For each index with a period and each subframe, a report is sent exactly if the number of the subframe
-- leaves the offset as remainder by the period, where 2 ^ 32 is added to a number that lies before the
-- offset. The offset is below the period, and the period at most 160 subframes.
pub cqi_send-period :
    (i tti n_p n_offset : ℕ)
    → i < 542
    → period i ≡ some (n_p, n_offset)
    → tti < 2 ^ 32
    → ((cqi_send i tti ≡ true) ↔ (counted tti n_offset % n_p ≡ n_offset))
      × (n_offset < n_p)
      × (n_p ≤ 160)
unfolding counted
cqi_send-period i tti n_p n_offset h e word =
    let (small, short) = period-fits i n_p n_offset h e in
    elim (Bool-cases (ltb tti n_offset)) [
      | inl before ↦
          rw before
            (cqi_send-early i tti n_p n_offset h e (ltb→lt tti n_offset before), small, short)
      | inr later ↦
          rw later
            (cqi_send-later i tti n_p n_offset h e (ltb→ge tti n_offset later) word, small, short)
    ]
