-- ===== src/Examples/Frames.antt =====
-- socket/HandleFrameTask.cpp at a datagram of the L0TP, a fragment and an ARP request.
use na62_farm.Base.{
  ◌+◌, ◌≤◌, ◌≡◌, ◌↔◌, refl, Bool, true, false, Option, none, some, List, [], ◌∷◌, arith,
}
use na62_farm.Frame.{Container}
use na62_farm.FrameTasks.State.{Farm, choose, and_then, with_value, modify, finish, on_builders}
use na62_farm.FrameTasks.Process.{
  check_frame, udp_data_length, process_frame, process_datagram, process_l0, process_arp_request,
  invent, invent_blocks, execute,
}
use na62_farm.FrameTasks.Checks.{payload-in-frame}
use na62_farm.FrameTasks.Disposal.{EndsOnce, process_frame-EndsOnce, process_frame-arp_leaks}
use na62_farm.Examples.Data.{header, whole_frame, arp_frame, library, config, network, farm}

accepted : check_frame (header whole_frame.data_bytes) 44 ≡ true
unfolding check_frame
accepted = refl

payload-in-frame_example : (8 ≤ 10) ↔ (42 + udp_data_length (header whole_frame.data_bytes) ≤ 44)
payload-in-frame_example =
    payload-in-frame (header whole_frame.data_bytes) 44 refl (omega arith) accepted

process_frame-EndsOnce_example :
    EndsOnce network library config 3 whole_frame farm
      (process_frame network library config 3 whole_frame farm)
process_frame-EndsOnce_example =
    process_frame-EndsOnce network library config 3 whole_frame farm refl

process_frame-arp_leaks_example :
    (t : Farm) × (process_frame network library config 3 arp_frame farm ≡ some t) × (t.freed ≡ [])
process_frame-arp_leaks_example =
    process_frame-arp_leaks network library config 3 arp_frame farm refl

abbrev frames : List (Container × Bool)
frames = (whole_frame, false) ∷ (arp_frame, false) ∷ (whole_frame, true) ∷ []

abbrev or_farm : Option Farm → Farm
or_farm none = farm
or_farm (some s) = s

final : Farm
final = or_farm (execute network library config 3 frames farm)

frames_handled : execute network library config 3 frames farm ≡ some final
unfolding final execute process_frame process_datagram process_l0 invent_blocks invent choose
    and_then with_value modify finish on_builders check_frame process_arp_request
frames_handled = refl
