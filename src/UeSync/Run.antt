-- ===== src/UeSync/Run.antt =====
-- Calls of `srslte_ue_sync_zerocopy` and `srslte_ue_sync_reset` in any order.
use vbbu.Prelude.{List, [], ◌∷◌}
use vbbu.UeSync.{Sync, Frame, zerocopy, reset}

-- One call.
pub data Step : Sync → Sync → Type 0 where
  frame : (q : Sync) (f : Frame) → Step q (zerocopy q f).1
  restart : (q : Sync) → Step q (reset q)

-- The states that calls can lead to.
pub data Reach (start : Sync) : Sync → Type 0 where
  here : Reach start start
  next : {q r : Sync} → Reach start q → Step q r → Reach start r

-- The state behind the calls for a list of frames.
unfoldable pub run : Sync → List Frame → Sync
run q [] = q
run q (f ∷ fs) = run (zerocopy q f).1 fs
