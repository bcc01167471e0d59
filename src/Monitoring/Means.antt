-- ===== src/Monitoring/Means.antt =====
-- monitoring/MonitorConnector.cpp: the mean times, against the times that eventBuilding/ has measured.
use na62_farm.Base.{ℕ, ◌+◌, List, [], ◌∷◌}
use na62_farm.EventBuilding.State.{Timing, add_time}

-- The times of several events, measured one after the other.
abbrev pub add_times : List ℕ → Timing → Timing
add_times [] t = t
add_times (x ∷ l) t = add_times l (add_time x t)

abbrev pub total : List ℕ → ℕ
total [] = 0
total (x ∷ l) = x + total l
