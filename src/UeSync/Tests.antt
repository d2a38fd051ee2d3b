-- ===== src/UeSync/Tests.antt =====
-- The synchronisation of the UE at concrete values, for srslte/lib/ue/ue_sync.c.
use vbbu.Prelude.{ℕ, zero, suc, ◌≤◌, ◌≡◌, refl, true, false, arith, [], ◌∷◌, take, replicate, inr}
use vbbu.UeSync.{
  Sync, Frame, find, track, found, nofound, zerocopy, zerocopy_find, find_peak_ok, start_track,
  reset,
}
use vbbu.UeSync.Run.{run, frame, here, next}
use vbbu.UeSync.Invariant.{Inv, Reach-Inv}
use vbbu.UeSync.Acquire.{IsFinding, IsFound, AllFound, run-track}
use vbbu.UeSync.Lose.{IsTracking, AllMissed, run-find}

-- Four peaks are wanted before tracking starts, and a call reads half a frame.
abbrev initial : Sync
initial = record {
  file_mode = false;
  state = find;
  frame_ok_cnt = 0;
  frame_no_cnt = 0;
  frame_total_cnt = 0;
  frame_find_cnt = 0;
  nof_avg_find_frames = 4;
  peak_idx = 0;
  sf_idx = 0;
  nof_recv_sf = 5;
  fft_size = 128;
  sf_len = 1920;
  max_offset = 32;
  decode_sss_on_track = true;
}

abbrev good : Frame
good = record {
  received = true;
  has_samples = true;
  result = found;
  peak = 960;
  sss_detected = true;
  sync_sf_idx = 0;
  received_again = true;
}

abbrev missed : Frame
missed = record good { result = nofound }

-- After three peaks the state is still SF_FIND, and after the fourth it is SF_TRACK.
run_found :
    ((run initial (good ∷ good ∷ good ∷ [])).state ≡ find)
    × ((run initial (good ∷ good ∷ good ∷ good ∷ [])).state ≡ track)
unfolding run zerocopy zerocopy_find find_peak_ok start_track
run_found = (refl, refl)

abbrev tracking : Sync
tracking = record initial { state = track; sf_idx = 5 }

Reach-Inv_example : Inv (zerocopy (reset initial) good).1
Reach-Inv_example = Reach-Inv initial _ (next here (frame (reset initial) good))

good-IsFound : IsFound good
good-IsFound = record { received = refl; peak_found = refl; received_again = refl }

four_found : AllFound (good ∷ good ∷ good ∷ good ∷ [])
unfolding AllFound
four_found = (good-IsFound, (good-IsFound, (good-IsFound, (good-IsFound, tt))))

initial-IsFinding : IsFinding initial
initial-IsFinding = record {
  mode = refl;
  state_eq = refl;
  counted = omega arith;
  word = omega arith;
}

run-track_example :
    (n : ℕ) × (n ≤ 4) × ((run initial (take n (good ∷ good ∷ good ∷ good ∷ []))).state ≡ track)
run-track_example =
    run-track initial (good ∷ good ∷ good ∷ good ∷ []) initial-IsFinding four_found (omega arith)

missed_all : (n : ℕ) → AllMissed (replicate n missed)
unfolding AllMissed
missed_all zero = tt
missed_all (suc n) = (record { received = refl; no_peak = refl }, missed_all n)

tracking-IsTracking : IsTracking tracking
tracking-IsTracking = record {
  mode = refl;
  state_eq = refl;
  few = omega arith;
  index = omega arith;
  step = inr (refl, refl);
}

run-find_example : (n : ℕ) × (n ≤ 20) × ((run tracking (take n (replicate 20 missed))).state ≡ find)
run-find_example =
    run-find tracking (replicate 20 missed) tracking-IsTracking (missed_all 20) (omega arith)
