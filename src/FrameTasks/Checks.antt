-- ===== src/FrameTasks/Checks.antt =====
-- socket/HandleFrameTask.cpp: what `checkFrame` lets pass, and where the payload of a frame lies.
use na62_farm.Base.{ℕ, ◌+◌, ◌^◌, ◌≤◌, ◌<◌, ◌↔◌, ◌≡◌, true, false, arith}
use na62_farm.Frame.{Header}
use na62_farm.FrameTasks.Process.{check_frame, udp_data_length}

-- `checkFrame` accepts a whole datagram exactly when the frame has the bytes that the IP header
-- and the UDP header announce: the ethernet header with `tot_len` bytes, and with an IP header
-- and `udp.len` bytes.
pub check_frame_iff :
    (h : Header) (length : ℕ)
    → h.is_fragment ≡ false
    → (check_frame h length ≡ true) ↔ ((14 + h.tot_len ≤ length) × (34 + h.udp_len ≤ length))
unfolding check_frame
check_frame_iff h length whole = (ground arith, ground arith)

-- The payload of a whole datagram that `checkFrame` accepted, `UdpDataLength` bytes after the
-- headers, lies inside the frame exactly when `udp.len` is at least the size of the UDP header:
-- the code does not test this, and a smaller value wraps around.
pub payload-in-frame :
    (h : Header) (length : ℕ)
    → h.is_fragment ≡ false
    → length < 2 ^ 16
    → check_frame h length ≡ true
    → (8 ≤ h.udp_len) ↔ (42 + udp_data_length h ≤ length)
unfolding check_frame
payload-in-frame h length whole small accepted = (ground arith, ground arith)
