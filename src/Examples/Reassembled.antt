-- ===== src/Examples/Reassembled.antt =====
-- socket/FragmentStore.h at two fragments that arrive in the wrong order.
use mathlib.Core.List.Permᴰ
use na62_farm.Base.{some, ℕ, ◌≡◌, ◌≢◌, refl, true, List, [], ◌∷◌, ◌++◌, Perm, arith}
use na62_farm.Base.Maps.{get}
use na62_farm.Frame.{Container}
use na62_farm.Fragments.Slots.{slot_of, fragments_at, empty_store, generate_fragment_id}
use na62_farm.Fragments.Reassembly.{waiting, assembled}
use na62_farm.Fragments.Add.{add_fragment, frag_id_of}
use na62_farm.Fragments.Datagram.{Chain}
use na62_farm.Fragments.Invariant.{empty_store-IsSettled}
use na62_farm.Fragments.Ownership.{owned_at, add_fragment-owned}
use na62_farm.Fragments.RoundTrip.{add_all, reassembly}
use na62_farm.Fragments.View.{
  view, decide, receive_fragment, AllFit, receive_fragments, add_fragments,
}
use na62_farm.Fragments.Refined.{add_fragments-view}
use na62_farm.FrameTasks.Process.{execute}
use na62_farm.FrameTasks.Datagrams.{unflushed, completed, execute-reassembles}
use na62_farm.Examples.Data.{header, first_piece, second_piece, network, library, config, farm}

abbrev pieces : List Container
pieces = first_piece ∷ second_piece ∷ []

abbrev arrivals : List Container
arrivals = second_piece ∷ first_piece ∷ []

abbrev key : ℕ
key = 65537

abbrev datagram : Container
datagram = record { data_bytes = first_piece.data_bytes ++ 0 ∷ []; length = 37; owned = true }

pieces-Chain : Chain header 0 pieces
pieces-Chain = (
  record {
    starts = refl;
    not_empty = omega arith;
    fits = omega arith;
    all_bytes = refl;
    no_padding = refl;
  },
  refl,
  (
    record {
      starts = refl;
      not_empty = omega arith;
      fits = omega arith;
      all_bytes = refl;
      no_padding = refl;
    },
    refl,
  ),
)

arrivals_pieces : Permᴰ.Permᴰ arrivals pieces
arrivals_pieces = Permᴰ.swap refl refl

empty_at_key : fragments_at (slot_of key) key empty_store ≡ []
unfolding fragments_at empty_store get
empty_at_key = refl

key_first : frag_id_of header first_piece ≡ key
unfolding generate_fragment_id
key_first = refl

key_second : frag_id_of header second_piece ≡ key
unfolding generate_fragment_id
key_second = refl

reassembly_example :
    ((add_all header arrivals empty_store).0 ≡ waiting ∷ assembled datagram ∷ [])
    × (fragments_at (slot_of key) key (add_all header arrivals empty_store).1 ≡ [])
reassembly_example =
    reassembly header key pieces arrivals empty_store pieces-Chain (key_first, (key_second, tt))
      (omega arith) arrivals_pieces empty_at_key

add_fragment-owned_example :
    Perm
      (owned_at
        (slot_of (frag_id_of header first_piece))
        (frag_id_of header first_piece)
        (add_fragment header first_piece (add_fragment header second_piece empty_store).1).1)
      (owned_at
          (slot_of (frag_id_of header first_piece))
          (frag_id_of header first_piece)
          (add_fragment header second_piece empty_store).1
        ++ first_piece ∷ [])
add_fragment-owned_example =
    add_fragment-owned header first_piece (add_fragment header second_piece empty_store).1

other_key : frag_id_of header second_piece ≢ 4
other_key = rw key_second (omega arith)

execute-reassembles_example :
    execute network library config 3 (unflushed arrivals) farm
    ≡ some (completed network library config 3 datagram arrivals farm)
execute-reassembles_example =
    execute-reassembles network library config 3 key pieces second_piece (first_piece ∷ []) farm
      pieces-Chain (key_first, (key_second, tt)) (omega arith)
      (
        record { is_ip = refl; is_udp = refl; addressed = refl; is_part = refl },
        (record { is_ip = refl; is_udp = refl; addressed = refl; is_part = refl }, tt),
      )
      arrivals_pieces empty_at_key

payloads_fit : AllFit header (view empty_store) arrivals
unfolding receive_fragment decide empty_store fragments_at get generate_fragment_id
payloads_fit =
    (((omega arith, tt), omega arith), (((omega arith, (omega arith, tt)), omega arith), tt))

add_fragments-view_example :
    ((add_fragments header arrivals empty_store).0
      ≡ (receive_fragments header arrivals (view empty_store)).0)
    × (view (add_fragments header arrivals empty_store).1
        ≡ (receive_fragments header arrivals (view empty_store)).1)
add_fragments-view_example =
    add_fragments-view header arrivals empty_store (empty_store-IsSettled header) payloads_fit
