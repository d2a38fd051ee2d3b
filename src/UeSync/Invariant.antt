-- ===== src/UeSync/Invariant.antt =====
-- What holds of every state that calls can reach.
use vbbu.Prelude.{
  ◌+◌, ◌%◌, ◌≤◌, ◌<◌, ◌≡◌, refl, Bool, true, false, arith, if◌then◌else◌, ◌==◌, ◌⊎◌, inl, inr,
  Bool-cases, u32, ◌||◌,
}
use vbbu.UeSync.{
  SfState, find, track, SyncFind, sync_error, nofound, found, found_nospace, Ret, failed,
  unsynchronized, synchronized, Sync, Frame, start_track, find_peak_ok, count_lost, track_peak_ok,
  track_peak_no, end_track, track_pss, zerocopy_track, zerocopy_find, zerocopy_file, zerocopy,
  by_state, reset,
}
use vbbu.UeSync.Run.{frame, restart, Reach, here, next}

-- Fewer than four frames in a row are lost while tracking, and never more than four; in file mode
-- the subframe index is one of the ten.
pub record Inv (q : Sync) : Type 0 where
  pub tracking : (q.state ≡ find) ⊎ (q.frame_no_cnt < 4)
  pub lost : q.frame_no_cnt ≤ 4
  pub in_file : (q.file_mode ≡ false) ⊎ (q.sf_idx < 10)

-- A pair of a return value and a state that keeps the counters in their bounds.
abbrev Keeps : Ret × Sync → Type 0
Keeps p =
    (p.1.file_mode ≡ false) × ((p.1.state ≡ find) ⊎ (p.1.frame_no_cnt < 4)) × (p.1.frame_no_cnt ≤ 4)

find_peak_ok-Keeps :
    (q : Sync) (f : Frame)
    → q.file_mode ≡ false
    → q.state ≡ find
    → q.frame_no_cnt ≤ 4
    → Keeps (find_peak_ok q f)
unfolding find_peak_ok start_track
find_peak_ok-Keeps q f m s h = ground arith

count_lost-Keeps :
    (q : Sync) → q.file_mode ≡ false → q.frame_no_cnt < 4 → Keeps (synchronized, count_lost q)
unfolding count_lost
count_lost-Keeps q m h = ground arith

track_peak_ok-Keeps :
    (q : Sync) (f : Frame) → q.file_mode ≡ false → q.frame_no_cnt < 4 → Keeps (track_peak_ok q f)
unfolding track_peak_ok
track_peak_ok-Keeps q f m h = ground (arith, count_lost-Keeps q m h)

track_peak_no-Keeps :
    (q : Sync) → q.file_mode ≡ false → q.frame_no_cnt < 4 → Keeps (track_peak_no q)
unfolding track_peak_no
track_peak_no-Keeps q m h = ground arith

end_track-Keeps : (p : Ret × Sync) → Keeps p → Keeps (end_track p)
unfolding end_track
end_track-Keeps (failed, q) k = (k.0, inl refl, k.2)
end_track-Keeps (unsynchronized, q) k = k
end_track-Keeps (synchronized, q) k = k

track_pss-Keeps :
    (q : Sync) (f : Frame) (found_peak : SyncFind)
    → q.file_mode ≡ false
    → q.frame_no_cnt < 4
    → Keeps (track_pss q f found_peak)
unfolding track_pss
track_pss-Keeps q f sync_error m h = (m, inr h, omega arith)
track_pss-Keeps q f nofound m h = end_track-Keeps (track_peak_no q) (track_peak_no-Keeps q m h)
track_pss-Keeps q f found m h = end_track-Keeps (track_peak_ok q f) (track_peak_ok-Keeps q f m h)
track_pss-Keeps q f found_nospace m h =
    end_track-Keeps (unsynchronized, record q { state = find }) (m, inl refl, omega arith)

zerocopy_track-Keeps :
    (q : Sync) (f : Frame) → q.file_mode ≡ false → q.frame_no_cnt < 4 → Keeps (zerocopy_track q f)
unfolding zerocopy_track
zerocopy_track-Keeps q f m h =
    let q' = record q { sf_idx = u32 (q.sf_idx + q.nof_recv_sf) % 10 } in
    elim (Bool-cases ((q'.sf_idx == 0) || (q'.sf_idx == 5))) [
      | inl e ↦ rw e (track_pss-Keeps q' f f.result m h)
      | inr e ↦ rw e (m, inr h, omega arith)
    ]

zerocopy_find-Keeps :
    (q : Sync) (f : Frame) (found_peak : SyncFind)
    → q.file_mode ≡ false
    → q.state ≡ find
    → q.frame_no_cnt ≤ 4
    → Keeps (zerocopy_find q f found_peak)
unfolding zerocopy_find
zerocopy_find-Keeps q f sync_error m s h = (m, inl s, h)
zerocopy_find-Keeps q f nofound m s h = (m, inl s, h)
zerocopy_find-Keeps q f found m s h = find_peak_ok-Keeps (record q { peak_idx = f.peak }) f m s h
zerocopy_find-Keeps q f found_nospace m s h = (m, inl s, h)

by_state-Keeps :
    (q : Sync) (f : Frame) (state : SfState)
    → q.state ≡ state
    → q.file_mode ≡ false
    → Inv q
    → Keeps (by_state state (zerocopy_find q f f.result) (zerocopy_track q f))
by_state-Keeps q f find s m v = zerocopy_find-Keeps q f f.result m s v.lost
by_state-Keeps q f track s m v = zerocopy_track-Keeps q f m (ground (arith, v.tracking))

zerocopy_file-Inv : (q : Sync) (f : Frame) → q.file_mode ≡ true → Inv q → Inv (zerocopy_file q f).1
unfolding zerocopy_file
zerocopy_file-Inv q f m v = record {
  tracking = ground (arith, v.tracking);
  lost = ground (arith, v.lost);
  in_file = inr (ground (arith, v.in_file));
}

Inv-of_Keeps : (p : Ret × Sync) → Keeps p → Inv p.1
Inv-of_Keeps p k = record { tracking = k.1; lost = k.2; in_file = inl k.0 }

-- A property of both branches, with the test's answer.
pub branch :
    (P : Ret × Sync → Type 0) (b : Bool) (x y : Ret × Sync)
    → (b ≡ true → P x)
    → (b ≡ false → P y)
    → P (if b then x else y)
branch P true x y left right = left refl
branch P false x y left right = right refl

zerocopy-Inv : (q : Sync) (f : Frame) → Inv q → Inv (zerocopy q f).1
unfolding zerocopy
zerocopy-Inv q f v =
    branch (λ p. Inv p.1) q.file_mode _ _ (λ m. zerocopy_file-Inv q f m v)
      λ m.
        branch (λ p. Inv p.1) f.received _ _
          (λ _.
            Inv-of_Keeps (by_state q.state (zerocopy_find q f f.result) (zerocopy_track q f))
              (by_state-Keeps q f q.state refl m v))
          (λ _. v)

reset-Inv : (q : Sync) → Inv (reset q)
unfolding reset
reset-Inv q = record { tracking = inl refl; lost = omega arith; in_file = file q.file_mode }
  where
    file : (b : Bool) → (b ≡ false) ⊎ ((if b then 9 else q.sf_idx) < 10)
    file true = inr (omega arith)
    file false = inl refl

-- Whatever the receiver and the correlators answer, in every state that calls of
-- `srslte_ue_sync_zerocopy` and `srslte_ue_sync_reset` can lead to from a reset, fewer than four
-- frames in a row are lost if the state is SF_TRACK, never more than four, and in file mode the
-- subframe index is below 10.
pub Reach-Inv : (q r : Sync) → Reach (reset q) r → Inv r
Reach-Inv q r here = reset-Inv q
Reach-Inv q r (next before (frame s f)) = zerocopy-Inv s f (Reach-Inv q s before)
Reach-Inv q r (next before (restart s)) = reset-Inv s
