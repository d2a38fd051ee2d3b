-- ===== src/UeSync.antt =====
-- The state machine of srslte/lib/ue/ue_sync.c that finds the frame timing and tracks it. What the
-- receive callback and the correlators answer during one call is a `Frame`. The sampling time offsets,
-- which are floating point, appear only in the answer of the second reception.
pub mod Run
pub mod Invariant
pub mod Acquire
pub mod Lose
mod Tests
use vbbu.Prelude.{
  ℕ, ◌+◌, ◌-◌, ◌*◌, ◌/◌, ◌%◌, ◌^◌, Bool, true, false, not, ◌&&◌, ◌||◌, ltb, leb, ◌==◌,
  if◌then◌else◌, u32,
}

-- `srslte_ue_sync_state_t`
pub data SfState : Type 0 where
  find track : SfState

-- `srslte_sync_find_ret_t`
pub data SyncFind : Type 0 where
  sync_error nofound found found_nospace : SyncFind

-- The return value: -1, 0 or 1.
pub data Ret : Type 0 where
  failed unsynchronized synchronized : Ret

-- `srslte_ue_sync_t`, without the buffers and the floating-point fields.
pub record Sync : Type 0 where
  pub file_mode : Bool
  pub state : SfState
  pub frame_ok_cnt : ℕ
  pub frame_no_cnt : ℕ
  pub frame_total_cnt : ℕ
  pub frame_find_cnt : ℕ
  pub nof_avg_find_frames : ℕ
  pub peak_idx : ℕ
  pub sf_idx : ℕ
  pub nof_recv_sf : ℕ
  pub fft_size : ℕ
  pub sf_len : ℕ
  pub max_offset : ℕ
  pub decode_sss_on_track : Bool

-- What happens outside during one call of `srslte_ue_sync_zerocopy`: whether the samples of the
-- frame come (in file mode, whether both reads succeed), whether the first read of a file finds
-- samples, the answers of `srslte_sync_find`, `srslte_sync_sss_detected` and
-- `srslte_sync_get_sf_idx`, and whether the second reception of the call, if there is one, succeeds.
pub record Frame : Type 0 where
  pub received : Bool
  pub has_samples : Bool
  pub result : SyncFind
  pub peak : ℕ
  pub sss_detected : Bool
  pub sync_sf_idx : ℕ
  pub received_again : Bool

-- `TRACK_MAX_LOST`
abbrev pub track_max_lost : ℕ
track_max_lost = 4

-- `Goto Tracking state`
unfoldable pub start_track : Sync → Sync
start_track q = record q {
  frame_ok_cnt = 0;
  frame_no_cnt = 0;
  frame_total_cnt = 0;
  frame_find_cnt = 0;
  state = track;
}

-- `find_peak_ok`
unfoldable pub find_peak_ok : Sync → Frame → Ret × Sync
find_peak_ok q f =
    let expected = if f.sss_detected then u32 (f.sync_sf_idx + q.nof_recv_sf) else q.sf_idx in
    let counted = record q { sf_idx = expected; frame_find_cnt = u32 (q.frame_find_cnt + 1) } in
    if leb counted.nof_avg_find_frames counted.frame_find_cnt
      || ltb counted.peak_idx (u32 (2 * counted.fft_size))
    then if f.received_again then (unsynchronized, start_track counted) else (failed, counted)
    else (unsynchronized, counted)

-- `frame_no_cnt++`, and back to FIND after too many.
unfoldable pub count_lost : Sync → Sync
count_lost q =
    let q' = record q { frame_no_cnt = u32 (q.frame_no_cnt + 1) } in
    if leb track_max_lost q'.frame_no_cnt then record q' { state = find } else q'

-- `track_peak_ok`: 1, or -1 when the samples that are to be discarded do not come.
unfoldable pub track_peak_ok : Sync → Frame → Ret × Sync
track_peak_ok q f =
    let checked =
      if not (q.sf_idx == f.sync_sf_idx) && q.decode_sss_on_track && f.sss_detected
      then count_lost q
      else record q { frame_no_cnt = 0 } in
    if f.received_again
    then (
      synchronized,
      record checked {
        peak_idx = u32 (q.sf_len / 2 + f.peak + 2 * 2 ^ 32 - q.max_offset / 2 - q.fft_size);
        frame_ok_cnt = (checked.frame_ok_cnt + 1) % 2 ^ 64;
      },
    )
    else (failed, checked)

-- `track_peak_no`
unfoldable pub track_peak_no : Sync → Ret × Sync
track_peak_no q =
    let q' = record q { frame_no_cnt = u32 (q.frame_no_cnt + 1) } in
    if leb track_max_lost q'.frame_no_cnt
    then (unsynchronized, record q' { state = find })
    else (synchronized, q')

-- The end of the tracking of a PSS: a failure there is not reported, and leads back to FIND.
unfoldable pub end_track : Ret × Sync → Ret × Sync
end_track (failed, q) = (unsynchronized, record q { state = find })
end_track (unsynchronized, q) =
    (unsynchronized, record q { frame_total_cnt = u32 (q.frame_total_cnt + 1) })
end_track (synchronized, q) =
    (synchronized, record q { frame_total_cnt = u32 (q.frame_total_cnt + 1) })

-- The `switch` on the correlation in tracking.
unfoldable pub track_pss : Sync → Frame → SyncFind → Ret × Sync
track_pss q f sync_error = (failed, q)
track_pss q f found = end_track (track_peak_ok q f)
track_pss q f found_nospace = end_track (unsynchronized, record q { state = find })
track_pss q f nofound = end_track (track_peak_no q)

-- `case SF_TRACK`
unfoldable pub zerocopy_track : Sync → Frame → Ret × Sync
zerocopy_track q f =
    let q' = record q { sf_idx = u32 (q.sf_idx + q.nof_recv_sf) % 10 } in
    if (q'.sf_idx == 0) || (q'.sf_idx == 5) then track_pss q' f f.result else (synchronized, q')

-- `case SF_FIND`; `srslte_sync_find` stores the position of the peak.
unfoldable pub zerocopy_find : Sync → Frame → SyncFind → Ret × Sync
zerocopy_find q f sync_error = (failed, record q { peak_idx = f.peak })
zerocopy_find q f found = find_peak_ok (record q { peak_idx = f.peak }) f
zerocopy_find q f found_nospace = (unsynchronized, record q { peak_idx = f.peak })
zerocopy_find q f nofound = (unsynchronized, record q { peak_idx = f.peak })

-- `srslte_ue_sync_zerocopy` in file mode.
unfoldable pub zerocopy_file : Sync → Frame → Ret × Sync
zerocopy_file q f =
    let start = if f.has_samples then q.sf_idx else 9 in
    let next = u32 (start + 1) in
    if f.received
    then (synchronized, record q { sf_idx = if next == 10 then 0 else next })
    else (failed, record q { sf_idx = start })

abbrev by_state : SfState → Ret × Sync → Ret × Sync → Ret × Sync
by_state find finding tracking = finding
by_state track finding tracking = tracking

-- `srslte_ue_sync_zerocopy`, for pointers that are not NULL.
unfoldable pub zerocopy : Sync → Frame → Ret × Sync
zerocopy q f =
    if q.file_mode
    then zerocopy_file q f
    else if f.received
    then by_state q.state (zerocopy_find q f f.result) (zerocopy_track q f)
    else (failed, q)

-- `srslte_ue_sync_reset`
unfoldable pub reset : Sync → Sync
reset q = record q {
  sf_idx = if q.file_mode then 9 else q.sf_idx;
  state = find;
  frame_ok_cnt = 0;
  frame_no_cnt = 0;
  frame_total_cnt = 0;
  frame_find_cnt = 0;
}
