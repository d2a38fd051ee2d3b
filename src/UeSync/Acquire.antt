-- ===== src/UeSync/Acquire.antt =====
-- How calls in SF_FIND lead to SF_TRACK.
use vbbu.Prelude.{
  ℕ, suc, ◌+◌, ◌-◌, ◌^◌, ◌≤◌, ◌<◌, ◌≡◌, true, false, arith, List, [], ◌∷◌, length, take, inl, inr,
  ◌⊎◌,
}
use vbbu.UeSync.{
  find, track, found, Sync, Frame, zerocopy, find_peak_ok, start_track, zerocopy_find,
}
use vbbu.UeSync.Run.{run}

-- A frame in which the peak is found, and in which every reception succeeds.
pub record IsFound (f : Frame) : Type 0 where
  pub received : f.received ≡ true
  pub peak_found : f.result ≡ found
  pub received_again : f.received_again ≡ true

unfoldable pub AllFound : List Frame → Type 0
AllFound [] = Unit
AllFound (f ∷ fs) = IsFound f × AllFound fs

-- Looking for the frame timing, with the peaks counted so far fewer than are wanted.
pub record IsFinding (q : Sync) : Type 0 where
  pub mode : q.file_mode ≡ false
  pub state_eq : q.state ≡ find
  pub counted : q.frame_find_cnt < q.nof_avg_find_frames
  pub word : q.nof_avg_find_frames < 2 ^ 32

zerocopy-find_peak_ok :
    (q : Sync) (f : Frame)
    → IsFinding q
    → IsFound f
    → zerocopy q f ≡ find_peak_ok (record q { peak_idx = f.peak }) f
unfolding zerocopy zerocopy_find
zerocopy-find_peak_ok q f i h = ground (arith, i.mode, i.state_eq, h.received, h.peak_found)

find_peak_ok-found :
    (q : Sync) (f : Frame)
    → IsFinding q
    → f.received_again ≡ true
    → let q' = (find_peak_ok q f).1 in
      (q'.state ≡ track)
      ⊎ ((q'.file_mode ≡ false)
          × (q'.state ≡ find)
          × (q'.frame_find_cnt ≡ q.frame_find_cnt + 1)
          × (q'.frame_find_cnt < q'.nof_avg_find_frames)
          × (q'.nof_avg_find_frames ≡ q.nof_avg_find_frames))
unfolding find_peak_ok start_track
find_peak_ok-found q f i h = ground (arith, i.mode, i.state_eq, i.counted, i.word)

-- One call, in terms of the distance to the wanted number of peaks.
found_step :
    (q : Sync) (f : Frame)
    → IsFinding q
    → IsFound f
    → let q' = (zerocopy q f).1 in
      (q'.state ≡ track)
      ⊎ (IsFinding q'
          × (q'.nof_avg_find_frames - q'.frame_find_cnt
              ≡ q.nof_avg_find_frames - q.frame_find_cnt - 1))
found_step q f i h =
    rw (zerocopy-find_peak_ok q f i h)
      (elim (find_peak_ok-found (record q { peak_idx = f.peak }) f i' h.received_again) [
        | inl e ↦ inl e
        | inr (mode, state_eq, count, below, same) ↦ inr (
          record {
            mode = mode;
            state_eq = state_eq;
            counted = below;
            word = omega (arith, i.word);
          },
          omega arith,
        )
      ])
  where
    i' : IsFinding (record q { peak_idx = f.peak })
    i' = record { mode = i.mode; state_eq = i.state_eq; counted = i.counted; word = i.word }

-- While peaks are found and receptions succeed, SF_FIND leads to SF_TRACK within as many calls of
-- `srslte_ue_sync_zerocopy` as peaks are still wanted.
pub run-track :
    (q : Sync) (fs : List Frame)
    → IsFinding q
    → AllFound fs
    → q.nof_avg_find_frames - q.frame_find_cnt ≤ length fs
    → (n : ℕ) × (n ≤ q.nof_avg_find_frames - q.frame_find_cnt) × ((run q (take n fs)).state ≡ track)
unfolding run AllFound
run-track q [] i all enough = absurd (omega (arith, i.counted))
run-track q (f ∷ fs) i (h, all) enough = elim (found_step q f i h) [
  | inl e ↦ (1, omega (arith, i.counted), e)
  | inr (i', nearer) ↦
      let (n, bound, e) = run-track (zerocopy q f).1 fs i' all (omega (arith, i.counted)) in
      (suc n, omega (arith, i.counted), e)
]
