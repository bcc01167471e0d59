-- ===== src/EventBuilding/Justified.antt =====
-- eventBuilding/ and SharedMemory/QueueReceiver.cpp: why an event is written, and why its LKr data
-- is requested.
pub mod Levels
pub mod Runs
use na62_farm.Base.{
  ℕ, ◌/◌, ◌<◌, ◌≢◌, Bool, true, false, ◌&&◌, List, [], ◌∷◌, ◌≡◌, ◌⊎◌, refl, inr, ◌==◌,
  if◌then◌else◌,
}
use na62_farm.EventBuilding.Library.{Event, Call, Library, Config}
use na62_farm.EventBuilding.State.{State, M, choose}
use na62_farm.EventBuilding.L2Builder
use na62_farm.EventBuilding.L1Builder

-- The trigger word that an event got last from L1, with that of L0 in its low byte.
abbrev pub last_l1_word : Event → List Call → ℕ
last_l1_word e [] = 0
last_l1_word e (Call.set_l1_processed x w ∷ h) = if x == e then w else last_l1_word e h
last_l1_word e (_ ∷ h) = last_l1_word e h

-- An event may be written after some calls if L2 has accepted it and waits for no more data, or L2 is
-- switched off.
abbrev pub MayWrite : Library → Config → List Call → Event → Type 0
MayWrite lib config h e =
    (config.is_l2_active ≡ false)
    ⊎ ((lib.is_l2_accepted h e ≡ true) × (lib.is_waiting_for_non_z_suppressed h e ≡ false))

-- Its LKr data may be requested if L1 has accepted it and there are sources of such data.
abbrev pub MayRequest : Config → List Call → Event → Type 0
MayRequest config h e = (0 < last_l1_word e h / 256) × (config.expected_l1_packets ≢ 0)

-- So it was for every event that was written or whose data was requested, but that an event may be
-- written which is dropped by the next call.
abbrev pub IsJustified : Library → Config → List Call → Type 0
IsJustified lib config [] = Unit
IsJustified lib config (Call.serialize_event e ∷ h) =
    MayWrite lib config h e × IsJustified lib config h
IsJustified lib config (Call.request_l1_data e b ∷ h) =
    MayRequest config h e
    × (b ≡ lib.is_request_zero_suppressed h e && config.request_z_suppressed_lkr_data)
    × IsJustified lib config h
IsJustified lib config (Call.update_missing_events_stats e ∷ Call.serialize_event x ∷ h) =
    ((x ≡ e) ⊎ MayWrite lib config h x) × IsJustified lib config h
IsJustified lib config (_ ∷ h) = IsJustified lib config h

module _ (lib : Library) (config : Config) where
  abbrev pub Keeps : M Unit → Type 0
  Keeps m = (s : State) → IsJustified lib config s.calls → IsJustified lib config (m s).1.calls

  pub choose-IsJustified :
      (b : Bool) (m n : M Unit) (s : State)
      → (b ≡ true → IsJustified lib config (m s).1.calls)
      → (b ≡ false → IsJustified lib config (n s).1.calls)
      → IsJustified lib config (choose b m n s).1.calls
  choose-IsJustified true m n s h k = h refl
  choose-IsJustified false m n s h k = k refl

  -- Dropping an event does not need that it was written before.
  pub dropped-IsJustified :
      (e : Event) (h : List Call)
      → IsJustified lib config h
      → IsJustified lib config (Call.update_missing_events_stats e ∷ h)
  dropped-IsJustified e [] k = tt
  dropped-IsJustified e (Call.serialize_event x ∷ h) k = (inr k.0, k.1)
  dropped-IsJustified e (_ ∷ h) k = k
