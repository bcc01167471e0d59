-- ===== src/Examples/Forwarded.antt =====
-- straws/StrawReceiver.cpp at one frame, and socket/PcapDump.cpp at two task processors.
use na62_farm.Base.{ℕ, ◌≡◌, refl, [], ◌∷◌, arith}
use na62_farm.Base.Words.{u16}
use na62_farm.Base.Decimal.{digits, to_string}
use na62_farm.Straws.{Straws, forward_frame}
use na62_farm.Straws.Forwarded.{IsForwarded, forward_frame-IsForwarded}
use na62_farm.Dumps.{short_to_string, filename, open_dump, task_processor_dump}
use na62_farm.Dumps.Names.{task_processor_dump-apart}
use na62_farm.Examples.Data.{header, whole_frame}

abbrev straws : Straws
straws = record { push_sockets = 5 ∷ 6 ∷ []; destroyed = []; sent = []; deleted = [] }

forward_frame-IsForwarded_example :
    IsForwarded header whole_frame 3 straws (forward_frame header whole_frame 3 straws)
forward_frame-IsForwarded_example =
    forward_frame-IsForwarded header whole_frame 3 straws (omega arith) (omega arith) (omega arith)
      (omega arith) (omega arith)

same_name : (task_processor_dump 1512 3).filename ≡ (task_processor_dump 1512 65539).filename
unfolding task_processor_dump open_dump filename short_to_string to_string digits
same_name = refl

task_processor_dump-apart_example : (◌≡◌ {A = ℕ} 1512 1512) × (u16 3 ≡ u16 65539)
task_processor_dump-apart_example = task_processor_dump-apart 1512 1512 3 65539 same_name
