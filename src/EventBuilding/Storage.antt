-- ===== src/EventBuilding/Storage.antt =====
-- eventBuilding/StorageHandler.cpp: `SendEvent`.
use na62_farm.Base.{ℕ, ◌*◌, [], ◌∷◌, ◌++◌}
use na62_farm.EventBuilding.Library.{Event, Call, Library}
use na62_farm.EventBuilding.State.{M, ◌>>=◌, ◌>>◌, pure, call, ask, modify}

-- The serialized event is queued for the storage thread, and its length in bytes is returned, for
-- events of fewer than 2^31 bytes.
unfoldable pub send_event : Library → Event → M ℕ
send_event lib e = do
  data_hdr ← ask (λ h. lib.serialized h e)
  call (Call.serialize_event e)
  modify (λ s. record s { data_queue = s.data_queue ++ data_hdr ∷ [] })
  pure (data_hdr.words * 4)
