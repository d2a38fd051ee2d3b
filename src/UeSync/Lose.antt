-- ===== src/UeSync/Lose.antt =====
-- How calls in SF_TRACK lead back to SF_FIND.
use vbbu.Prelude.{
  ℕ, suc, ◌+◌, ◌-◌, ◌*◌, ◌%◌, ◌≤◌, ◌<◌, ◌≡◌, ap, true, false, ◌||◌, arith, List, [], ◌∷◌, length,
  take, Bool-cases, inl, inr, ◌⊎◌, u32, ◌==◌,
}
use vbbu.UeSync.{
  find, track, nofound, Sync, Frame, zerocopy, zerocopy_track, track_pss, track_peak_no, end_track,
}
use vbbu.UeSync.Run.{run}

-- A frame that is received and shows no peak.
pub record IsMissed (f : Frame) : Type 0 where
  pub received : f.received ≡ true
  pub no_peak : f.result ≡ nofound

unfoldable pub AllMissed : List Frame → Type 0
AllMissed [] = Unit
AllMissed (f ∷ fs) = IsMissed f × AllMissed fs

-- Tracking with a call for each subframe, or for each half frame at its first subframe: the two
-- settings of `srslte_ue_sync_init`.
pub record IsTracking (q : Sync) : Type 0 where
  pub mode : q.file_mode ≡ false
  pub state_eq : q.state ≡ track
  pub few : q.frame_no_cnt < 4
  pub index : q.sf_idx ≤ 10
  pub step : (q.nof_recv_sf ≡ 1) ⊎ ((q.nof_recv_sf ≡ 5) × (q.sf_idx % 5 ≡ 0))

-- The calls that are left until the fourth frame without a peak, for calls per subframe.
abbrev pub calls_left : Sync → ℕ
calls_left q = 5 * (4 - q.frame_no_cnt) - q.sf_idx % 5

zerocopy-track :
    (q : Sync) (f : Frame)
    → q.file_mode ≡ false
    → q.state ≡ track
    → IsMissed f
    → zerocopy q f ≡ zerocopy_track q f
unfolding zerocopy
zerocopy-track q f m s h = ground (arith, m, s, h.received)

index_after_one :
    (sf : ℕ) → sf ≤ 10 → ((sf + 1) % 10 ≡ 0) ⊎ ((sf + 1) % 10 ≡ 5) ⊎ (sf % 5 < (sf + 1) % 10 % 5)
index_after_one sf h = ground arith

index_after_five :
    (sf : ℕ)
    → sf ≤ 10
    → sf % 5 ≡ 0
    → ((sf + 5) % 10 ≡ 0) ⊎ ((sf + 5) % 10 ≡ 5) ⊎ (sf % 5 < (sf + 5) % 10 % 5)
index_after_five sf h whole = ground arith

-- The subframe index of the next call.
next_index :
    (sf n : ℕ)
    → sf ≤ 10
    → (n ≡ 1) ⊎ ((n ≡ 5) × (sf % 5 ≡ 0))
    → let sf' = u32 (sf + n) % 10 in
      (sf' ≤ 10)
      × ((n ≡ 1) ⊎ ((n ≡ 5) × (sf' % 5 ≡ 0)))
      × ((sf' ≡ 0) ⊎ (sf' ≡ 5) ⊎ (sf % 5 < sf' % 5))
next_index sf n h (inl e) =
    let near : u32 (sf + n) ≡ sf + 1 = omega arith in
    rw near (omega arith, inl e, index_after_one sf h)
next_index sf n h (inr (e, whole)) =
    let near : u32 (sf + n) ≡ sf + 5 = omega arith in
    rw near (omega arith, inr (e, omega arith), index_after_five sf h whole)

-- A missed peak, at the first subframe of a half frame.
missed_peak :
    (q : Sync)
    → q.file_mode ≡ false
    → q.state ≡ track
    → q.frame_no_cnt < 4
    → let q' = (end_track (track_peak_no q)).1 in
      (q'.state ≡ find)
      ⊎ ((q'.file_mode ≡ false)
          × (q'.state ≡ track)
          × (q'.frame_no_cnt ≡ q.frame_no_cnt + 1)
          × (q'.frame_no_cnt < 4)
          × (q'.sf_idx ≡ q.sf_idx)
          × (q'.nof_recv_sf ≡ q.nof_recv_sf))
unfolding track_peak_no end_track
missed_peak q m s h = ground arith

closer :
    (a b n : ℕ)
    → n < 4
    → ((b == 0) || (b == 5)) ≡ false
    → (b ≡ 0) ⊎ (b ≡ 5) ⊎ (a % 5 < b % 5)
    → 5 * (4 - n) - b % 5 < 5 * (4 - n) - a % 5
closer a b n h e near = ground arith

-- The call behind a missed peak, in terms of what `track_peak_no` leaves.
after_peak :
    (q q' : Sync)
    → q.frame_no_cnt < 4
    → (q.nof_recv_sf ≡ 1) ⊎ ((q.nof_recv_sf ≡ 5) × (q'.sf_idx % 5 ≡ 0))
    → q'.sf_idx ≤ 10
    → let p = (end_track (track_peak_no q')).1 in
      (p.state ≡ find)
        ⊎ ((p.file_mode ≡ false)
            × (p.state ≡ track)
            × (p.frame_no_cnt ≡ q.frame_no_cnt + 1)
            × (p.frame_no_cnt < 4)
            × (p.sf_idx ≡ q'.sf_idx)
            × (p.nof_recv_sf ≡ q.nof_recv_sf))
      → (p.state ≡ find) ⊎ (IsTracking p × (calls_left p < calls_left q))
after_peak q q' few same small (inl e) = inl e
after_peak q q' few same small (inr (mode, state_eq, count, below, index, step)) = inr (
  record {
    mode = mode;
    state_eq = state_eq;
    few = below;
    index = omega arith;
    step = rw (index, step) same;
  },
  omega arith,
)

missed_step :
    (q : Sync) (f : Frame)
    → IsTracking q
    → f.result ≡ nofound
    → let q' = (zerocopy_track q f).1 in
      (q'.state ≡ find) ⊎ (IsTracking q' × (calls_left q' < calls_left q))
unfolding zerocopy_track track_pss
missed_step q f t h =
    let q' = record q { sf_idx = u32 (q.sf_idx + q.nof_recv_sf) % 10 } in
    let (small, same, near) = next_index q.sf_idx q.nof_recv_sf t.index t.step in
    elim (Bool-cases ((q'.sf_idx == 0) || (q'.sf_idx == 5))) [
      | inl e ↦ rw e (
          rw (ap (track_pss q' f) h)
            (after_peak q q' t.few same small (missed_peak q' t.mode t.state_eq t.few)))
      | inr e ↦ rw e (
          inr (
            record {
              mode = t.mode;
              state_eq = t.state_eq;
              few = t.few;
              index = small;
              step = same;
            },
            closer q.sf_idx (u32 (q.sf_idx + q.nof_recv_sf) % 10) q.frame_no_cnt t.few e near,
          ))
    ]

-- While frames are received and show no peak, SF_TRACK leads back to SF_FIND within the calls that
-- are left, five for each half frame that may still be lost.
pub run-find :
    (q : Sync) (fs : List Frame)
    → IsTracking q
    → AllMissed fs
    → calls_left q ≤ length fs
    → (n : ℕ) × (n ≤ calls_left q) × ((run q (take n fs)).state ≡ find)
unfolding run AllMissed
run-find q [] t all enough = absurd (omega (arith, t.few))
run-find q (f ∷ fs) t (h, all) enough =
    let called = zerocopy-track q f t.mode t.state_eq h in
    elim (rw (← called) at (missed_step q f t h.no_peak)) [
      | inl e ↦ (1, omega (arith, t.few), e)
      | inr (t', nearer) ↦
          let (n, bound, e) = run-find (zerocopy q f).1 fs t' all (omega arith) in
          (suc n, omega arith, e)
    ]
