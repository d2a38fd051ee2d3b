-- ===== src/Pdcch/Locations.antt =====
-- The candidates of the search spaces of srslte/lib/phch/pdcch.c.
use mathlib.Core.Path.{subst}
use vbbu.Prelude.{
  ℕ, zero, suc, ◌+◌, ◌*◌, ◌/◌, ◌%◌, ◌^◌, ◌≤◌, ◌<◌, ◌≡◌, inl, inr, min, Bool-cases, List, [], ◌∷◌,
  ◌++◌, length, ltb, ltb→lt, if◌then◌else◌, arith,
}
use vbbu.Dci.Dispatch.Location.{Location}
use vbbu.Pdcch.{yk_loop, ue_locations_ncce, common_level, common_locations_ncce}
use vbbu.Pdcch.Candidates.{IsSearchSpace}
use vbbu.Pdcch.UeSpace.{
  IsSpace, place, later, lower, stored, start_space, search_space, ue_levels-IsSpace,
}

common_stored :
    (nof_cce max_candidates l i : ℕ) (c : List Location)
    → l ≤ 3
    → i < nof_cce / 2 ^ l
    → IsSpace nof_cce max_candidates 0 l i c
    → IsSpace nof_cce max_candidates 0 l (i + 1) (
        if ltb (length c) max_candidates
        then c ++ (record { l = l; ncce = 2 ^ l * (i % (nof_cce / 2 ^ l)) } ∷ [])
        else c)
unfolding place
common_stored nof_cce max_candidates l i c hl hi s =
    elim (Bool-cases (ltb (length c) max_candidates)) [
      | inl free ↦
          let e : 0 + i ≡ i = omega arith in
          rw free (
            subst
              (λ t.
                IsSpace nof_cce max_candidates 0 l (i + 1)
                  (c ++ (record { l = l; ncce = 2 ^ l * (t % (nof_cce / 2 ^ l)) } ∷ [])))
              e
              (stored nof_cce max_candidates 0 l i c hl hi (ltb→lt (length c) max_candidates free)
                s))
      | inr full ↦ rw full (later nof_cce max_candidates 0 s)
    ]

common_level-IsSpace :
    (nof_cce max_candidates l n i : ℕ) (c : List Location)
    → l ≤ 3
    → i + n ≤ nof_cce / 2 ^ l
    → IsSpace nof_cce max_candidates 0 l i c
    → IsSpace nof_cce max_candidates 0 l (i + n) (common_level nof_cce max_candidates l n i c)
unfolding common_level
common_level-IsSpace nof_cce max_candidates l zero i c hl h s =
    let e : i + 0 ≡ i = omega arith in rw e s
common_level-IsSpace nof_cce max_candidates l (suc n) i c hl h s =
    let e : i + 1 + n ≡ i + suc n = omega arith in
    let x : Location = record { l = l; ncce = 2 ^ l * (i % (nof_cce / 2 ^ l)) } in
    let c' : List Location = if ltb (length c) max_candidates then c ++ (x ∷ []) else c in
    subst
      (λ t.
        IsSpace nof_cce max_candidates 0 l t (common_level nof_cce max_candidates l n (i + 1) c'))
      e
      (common_level-IsSpace nof_cce max_candidates l n (i + 1) c' hl (omega arith)
        (common_stored nof_cce max_candidates l i c hl (omega arith) s))

-- For any channel, any room for candidates, any subframe and any RNTI, both search spaces hold no more candidates than
-- there is room for; each begins at a multiple of its size and ends inside the channel, and none stands twice.
pub locations-IsSearchSpace :
    (nof_cce max_candidates nsubframe rnti : ℕ)
    → IsSearchSpace nof_cce max_candidates (ue_locations_ncce nof_cce max_candidates nsubframe rnti)
      × IsSearchSpace nof_cce max_candidates (common_locations_ncce nof_cce max_candidates)
unfolding ue_locations_ncce common_locations_ncce
locations-IsSearchSpace nof_cce max_candidates nsubframe rnti =
    let y : ℕ = yk_loop (nsubframe + 1) rnti in
    let ue =
      ue_levels-IsSpace nof_cce max_candidates y 4 0 [] (omega arith)
        (start_space nof_cce max_candidates y) in
    let top =
      common_level-IsSpace nof_cce max_candidates 3 (min nof_cce 16 / 2 ^ 3) 0 [] (omega arith)
        (omega arith)
        (lower nof_cce max_candidates 0 3 0 [] (start_space nof_cce max_candidates 0)) in
    let both =
      common_level-IsSpace nof_cce max_candidates 2 (min nof_cce 16 / 2 ^ 2) 0
        (common_level nof_cce max_candidates 3 (min nof_cce 16 / 2 ^ 3) 0 []) (omega arith)
        (omega arith)
        (lower nof_cce max_candidates 0 2 (0 + min nof_cce 16 / 2 ^ 3)
          (common_level nof_cce max_candidates 3 (min nof_cce 16 / 2 ^ 3) 0 []) top) in
    (search_space nof_cce max_candidates y ue.1, search_space nof_cce max_candidates 0 both)
