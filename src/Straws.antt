-- ===== src/Straws.antt =====
-- straws/StrawReceiver.cpp: the forwarding of data of the Straws to sockets. Its calls in
-- na62-farm.cpp and socket/HandleFrameTask.cpp, and the macros of its options, are commented out.
pub mod Forwarded
use na62_farm.Base.{
  ℕ, zero, suc, ◌+◌, ◌/◌, ◌%◌, Bool, true, false, ◌||◌, Option, none, some, List, [], ◌∷◌, ◌++◌,
  ◌==◌, ◌-◌, ltb, length, get_elem?, take, drop, if◌then◌else◌,
}
use na62_farm.Base.Words.{u32, u64}
use na62_farm.Base.Decimal.{to_string}
use na62_farm.Frame.{Container, Header, udp_hdr_size}

-- One part of a message of ZeroMQ: `more` is ZMQ_SNDMORE.
pub record MessagePart : Type 0 where
  pub socket : ℕ
  pub bytes : List ℕ
  pub more : Bool

-- `pushSockets_`; the sockets that were destroyed, what was sent, newest first, and the buffers that
-- were deleted.
pub record Straws : Type 0 where
  pub push_sockets : List ℕ
  pub destroyed : List ℕ
  pub sent : List MessagePart
  pub deleted : List Container

-- An exception of `connect` leaves `initialize`; `overrun` is a copy outside of a buffer, and
-- `no_socket` the remainder by zero.
pub data Result : Type 0 where
  done thrown overrun no_socket : Result

-- `getZmqAddresses`: "tcp://", the host, a colon and the port, for each of the hosts
unfoldable pub get_zmq_addresses : ℕ → List (List ℕ) → List (List ℕ)
get_zmq_addresses port [] = []
get_zmq_addresses port (host ∷ l) =
    (116 ∷ 99 ∷ 112 ∷ 58 ∷ 47 ∷ 47 ∷ host ++ 58 ∷ to_string port) ∷ get_zmq_addresses port l

-- The loop of `initialize` over the addresses; `connect` is GenerateSocket with `connect`, and throws
-- or gives a socket.
unfoldable pub connect_straws : (List ℕ → Option ℕ) → List (List ℕ) → Straws → Result × Straws
connect_straws connect [] s = (Result.done, s)
connect_straws connect (address ∷ l) s =
    let rest = λ (socket : ℕ).
      connect_straws connect l (record s { push_sockets = s.push_sockets ++ socket ∷ [] }) in
    elim (connect address) [ none ↦ (Result.thrown, s) | some socket ↦ rest socket ]

unfoldable pub initialize_straws :
    (List ℕ → Option ℕ) → ℕ → List (List ℕ) → Straws → Result × Straws
initialize_straws connect port hosts = connect_straws connect (get_zmq_addresses port hosts)

unfoldable pub on_shut_down : Straws → Straws
on_shut_down s = record s { push_sockets = []; destroyed = s.destroyed ++ s.push_sockets }

-- The bytes of a number in memory, the low one first.
unfoldable pub le_bytes : ℕ → ℕ → List ℕ
le_bytes zero n = []
le_bytes (suc k) n = (n % 256) ∷ le_bytes k (n / 256)

-- `data.length - sizeof(UDP_HDR) + 8`, a `uint`
unfoldable pub send_data_length : Container → ℕ
send_data_length c = u32 (u64 (c.length + 18446744073709551616 - udp_hdr_size) + 8)

-- The two copies of four bytes need eight bytes of `sendData`, and the third reads `sendDataLength`
-- - 8 bytes of the frame.
unfoldable pub is_overrun : Container → Bool
is_overrun c =
    ltb (send_data_length c) 8
    || ltb (length c.data_bytes) (udp_hdr_size + (send_data_length c - 8))

-- `sendData`, once it is filled
unfoldable pub send_data : (List ℕ → Header) → Container → List ℕ
send_data header c =
    le_bytes 4 (send_data_length c)
    ++ (le_bytes 4 (header c.data_bytes).saddr
        ++ take (send_data_length c - 8) (drop udp_hdr_size c.data_bytes))

-- `pushSockets_[burstID % pushSockets_.size()]`
unfoldable pub socket_of : ℕ → List ℕ → Option ℕ
socket_of burst_id sockets =
    if length sockets == 0 then none else get_elem? sockets (burst_id % length sockets)

-- `socket->send` and `sendMessage`
unfoldable pub send_parts : ℕ → List ℕ → Option ℕ → Straws → Result × Straws
send_parts burst_id bytes none s = (Result.no_socket, s)
send_parts burst_id bytes (some socket) s = (
  Result.done,
  record s {
    sent =
        record { socket = socket; bytes = bytes; more = false }
        ∷ record { socket = socket; bytes = le_bytes 4 burst_id; more = true }
        ∷ s.sent;
  },
)

unfoldable pub forward_frame : (List ℕ → Header) → Container → ℕ → Straws → Result × Straws
forward_frame header c burst_id s =
    if is_overrun c
    then (Result.overrun, s)
    else send_parts burst_id (send_data header c) (socket_of burst_id s.push_sockets)
        (record s { deleted = c ∷ s.deleted })
