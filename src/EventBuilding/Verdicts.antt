-- ===== src/EventBuilding/Verdicts.antt =====
-- eventBuilding/L2Builder.cpp: the branch of `processL2` that runs the L2 trigger, cut at the verdict,
-- for the proofs.
use na62_farm.Base.{Bool, not, ◌&&◌}
use na62_farm.Base.Words.{u8}
use na62_farm.EventBuilding.Library.{Event, Call, Library, Config}
use na62_farm.EventBuilding.State.{M, ◌>>=◌, ◌>>◌, pure, call, ask, when}
use na62_farm.EventBuilding.L2Builder.{measure_l2_processing}

-- The verdict is whether the event is written.
unfoldable pub before_verdict : Library → Config → Event → M Bool
before_verdict lib config e = do
  word ← ask (λ h. u8 (lib.l2_trigger h e))
  call (Call.l2_compute e)
  call (Call.update_l2_statistics e word)
  call (Call.set_l2_processed e word)
  when config.measure_time (measure_l2_processing lib config e)
  waits ← ask (λ h. lib.is_waiting_for_non_z_suppressed h e)
  accepted ← ask (λ h. lib.is_l2_accepted h e)
  pure (not waits && accepted)
