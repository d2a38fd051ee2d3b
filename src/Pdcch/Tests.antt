-- ===== src/Pdcch/Tests.antt =====
-- The control channel at concrete values, for srslte/lib/phch/pdcch.c.
mod Decoder
use vbbu.Prelude.{ℕ, ◌+◌, ◌*◌, ◌≤◌, ◌≡◌, refl, Bool, true, Option, none, List, [], ◌∷◌}
use vbbu.RmConv.Integers.{ℤ}
use vbbu.Dci.Dispatch.Location.{Location}
use vbbu.Pdcch.{
  yk_loop, ue_store, ue_level, ue_levels, ue_locations_ncce, common_level, common_locations_ncce,
}
use vbbu.Viterbi.{Viterbi, decode_f}
use vbbu.Pdcch.Candidates.{IsSearchSpace}
use vbbu.Pdcch.Locations.{locations-IsSearchSpace}
use vbbu.Pdcch.Tests.Decoder.{scaled, port}

abbrev at : ℕ → ℕ → Location
at l ncce = record { l = l; ncce = ncce }

-- Six places of the common search space of 20 elements.
common_run : common_locations_ncce 20 6 ≡ at 3 0 ∷ at 3 8 ∷ at 2 0 ∷ at 2 4 ∷ at 2 8 ∷ at 2 12 ∷ []
unfolding common_locations_ncce common_level
common_run = refl

-- RNTI 1 in subframe 0: Y is 39827.
ue_run : ue_locations_ncce 8 4 0 1 ≡ at 2 4 ∷ at 2 0 ∷ at 1 6 ∷ at 1 0 ∷ []
unfolding ue_locations_ncce ue_levels ue_level ue_store yk_loop
ue_run = refl

abbrev order : List ℕ
order = 1 ∷ 0 ∷ 1 ∷ 1 ∷ []

-- The decoder as it is set up.
decoder : Viterbi (List ℕ)
decoder = record { ptr = []; r = 3; k = 7; framebits = 144; tail_biting = true }

-- A longer frame is refused, and the array stays as it is.
decode_f_long : decode_f port scaled decoder [] (5 ∷ []) 145 ≡ (none, 5 ∷ [], decoder)
unfolding decode_f decoder
decode_f_long = refl

locations-IsSearchSpace_example :
    IsSearchSpace 25 16 (ue_locations_ncce 25 16 3 0x1234)
    × IsSearchSpace 25 16 (common_locations_ncce 25 16)
locations-IsSearchSpace_example = locations-IsSearchSpace 25 16 3 0x1234
