-- ===== src/Straws/Forwarded.antt =====
-- straws/StrawReceiver.cpp: what a receiver of the forwarded data gets.
use native.Mathlib.Nat.{pow-suc}
use na62_farm.Base.{
  ℕ, zero, suc, ◌+◌, ◌-◌, ◌*◌, ◌/◌, ◌%◌, ◌^◌, ◌≤◌, ◌<◌, ◌≡◌, refl, ap, ◌∙◌, true, false, some, List,
  [], ◌∷◌, ◌++◌, length, get_elem?, take, drop, arith,
}
use na62_farm.Frame.{Container, Header, udp_hdr_size}
use na62_farm.Straws.{
  Straws, Result, le_bytes, send_data_length, is_overrun, send_data, socket_of, send_parts,
  forward_frame,
}

-- A number read from the first bytes in memory.
abbrev pub le_value : ℕ → List ℕ → ℕ
le_value zero l = 0
le_value (suc k) [] = 0
le_value (suc k) (b ∷ l) = b + 256 * le_value k l

-- The length, the address and the payload, as a receiver reads them.
abbrev pub read_data : List ℕ → ℕ × ℕ × List ℕ
read_data l = (le_value 4 l, le_value 4 (drop 4 l), drop 8 l)

le_value-le_bytes : (k n : ℕ) (l : List ℕ) → n < 256 ^ k → le_value k (le_bytes k n ++ l) ≡ n
unfolding le_bytes
le_value-le_bytes zero n l h = ground arith
le_value-le_bytes (suc k) n l h =
    omega (arith, le_value-le_bytes k (n / 256) l (omega (arith, pow-suc 256 k)))

drop-le_bytes : (k n : ℕ) (l : List ℕ) → drop k (le_bytes k n ++ l) ≡ l
unfolding le_bytes
drop-le_bytes zero n l = refl
drop-le_bytes (suc k) n l = drop-le_bytes k (n / 256) l

get_elem?-some : (l : List ℕ) (i : ℕ) → i < length l → (x : ℕ) × (get_elem? l i ≡ some x)
get_elem?-some [] i h = absurd (omega arith)
get_elem?-some (x ∷ l) zero h = (x, refl)
get_elem?-some (x ∷ l) (suc i) h = get_elem?-some l i (omega arith)

socket_of-some :
    (burst_id : ℕ) (l : List ℕ) {socket : ℕ}
    → 0 < length l
    → get_elem? l (burst_id % length l) ≡ some socket
    → socket_of burst_id l ≡ some socket
unfolding socket_of
socket_of-some burst_id l h e = ground arith

abbrev pub IsForwarded : (List ℕ → Header) → Container → ℕ → Straws → Result × Straws → Type 0
IsForwarded header c burst_id s (result, t) =
    (result ≡ Result.done)
    × (t.deleted ≡ c ∷ s.deleted)
    × (t.push_sockets ≡ s.push_sockets)
    × (socket : ℕ) × (bytes : List ℕ) × (get_elem? s.push_sockets (burst_id % length s.push_sockets)
        ≡ some socket)
    × (t.sent
        ≡ record { socket = socket; bytes = bytes; more = false }
          ∷ record { socket = socket; bytes = le_bytes 4 burst_id; more = true }
          ∷ s.sent)
    × (read_data bytes ≡ (
      c.length - 34,
      (header c.data_bytes).saddr,
      take (c.length - udp_hdr_size) (drop udp_hdr_size c.data_bytes),
    ))

module _ (c : Container) (whole : udp_hdr_size ≤ c.length) (small : c.length < 2 ^ 32) where
  send_data_length-eq : send_data_length c ≡ c.length - 34
  unfolding send_data_length
  send_data_length-eq = omega arith

  not_overrun : c.length ≤ length c.data_bytes → is_overrun c ≡ false
  unfolding is_overrun
  not_overrun there = ground (arith, send_data_length-eq)

  read_data-send_data :
      (header : List ℕ → Header)
      → (header c.data_bytes).saddr < 2 ^ 32
      → read_data (send_data header c) ≡ (
        c.length - 34,
        (header c.data_bytes).saddr,
        take (c.length - udp_hdr_size) (drop udp_hdr_size c.data_bytes),
      )
  unfolding send_data le_bytes
  read_data-send_data header address =
      let payload_length : send_data_length c - 8 ≡ c.length - udp_hdr_size =
        omega (arith, send_data_length-eq) in
      let payload = take (send_data_length c - 8) (drop udp_hdr_size c.data_bytes) in
      let saddr = (header c.data_bytes).saddr in
      let n = send_data_length c in
      let first =
        le_value-le_bytes 4 n (le_bytes 4 saddr ++ payload) (omega (arith, send_data_length-eq)) in
      let second = le_value-le_bytes 4 saddr payload address in
      let third =
        drop-le_bytes 4 saddr payload
        ∙ ap (λ (k : ℕ). take k (drop udp_hdr_size c.data_bytes)) payload_length in
      λ i. ((first ∙ send_data_length-eq) i, second i, third i)

-- A frame with all its headers, whose bytes are there, is always forwarded if there is a socket: to
-- the one that its burst chooses, as the id of the burst and one more part. A receiver reads from
-- that part its length, the address of the sender and the bytes of the frame behind the headers. The
-- buffer of the frame is deleted once, and the sockets stay.
pub forward_frame-IsForwarded :
    (header : List ℕ → Header) (c : Container) (burst_id : ℕ) (s : Straws)
    → udp_hdr_size ≤ c.length
    → c.length ≤ length c.data_bytes
    → c.length < 2 ^ 32
    → (header c.data_bytes).saddr < 2 ^ 32
    → 0 < length s.push_sockets
    → IsForwarded header c burst_id s (forward_frame header c burst_id s)
unfolding forward_frame send_parts
forward_frame-IsForwarded header c burst_id s whole there small address some_socket =
    let (socket, e) =
      get_elem?-some s.push_sockets (burst_id % length s.push_sockets) (ground arith) in
    let chosen = socket_of-some burst_id s.push_sockets some_socket e in
    rw (not_overrun c whole small there, chosen, forward_frame)
      (
        refl,
        refl,
        refl,
        socket,
        send_data header c,
        e,
        refl,
        read_data-send_data c whole small header address,
      )
