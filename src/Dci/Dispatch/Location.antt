-- ===== src/Dci/Dispatch/Location.antt =====
-- The place of a message in the control channel, srslte/lib/phch/dci.c.
use vbbu.Prelude.{
  ℕ, ◌≤◌, ◌≡◌, ◌↔◌, Bool, true, leb, ◌&&◌, if◌then◌else◌, arith, Status, success, error,
}

-- `srslte_dci_location_t`
pub record Location : Type 0 where
  pub l : ℕ
  pub ncce : ℕ

-- `srslte_dci_location_set`; the aggregation level is stored before the position is looked at.
unfoldable pub location_set : Location → ℕ → ℕ → Status × Location
location_set c l ncce =
    if leb l 3
    then (if leb ncce 87
        then (success, record c { l = l; ncce = ncce })
        else (error, record c { l = l }))
    else (error, c)

-- `srslte_dci_location_isvalid`
unfoldable pub location_isvalid : Location → Bool
location_isvalid c = leb c.l 3 && leb c.ncce 87

-- Setting a location succeeds exactly where both values are in range, and then stores them; from a
-- valid location it leaves a valid one in either case.
location_set-isvalid :
    (c : Location) (l ncce : ℕ)
    → (((location_set c l ncce).0 ≡ success) ↔ ((l ≤ 3) × (ncce ≤ 87)))
      × ((location_set c l ncce).0 ≡ success
          → (location_set c l ncce).1 ≡ record { l = l; ncce = ncce })
      × (location_isvalid c ≡ true → location_isvalid (location_set c l ncce).1 ≡ true)
unfolding location_set location_isvalid
location_set-isvalid c l ncce = (ground arith, ground arith, ground arith)
