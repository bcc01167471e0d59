-- ===== src/Fragments/Ids.antt =====
-- socket/FragmentStore.h: `generateFragmentID`, the key under which a fragment is filed.
use na62_farm.Base.{ℕ, ◌+◌, ◌*◌, ◌%◌, ◌^◌, ◌<◌, ◌≡◌, arith}
use na62_farm.Base.Words.{bit_or-shifted}
use na62_farm.Fragments.Slots.{generate_fragment_id}

generate_fragment_id_sum :
    (src_ip frag_id : ℕ)
    → src_ip < 2 ^ 32
    → frag_id < 2 ^ 16
    → generate_fragment_id src_ip frag_id ≡ frag_id + src_ip * 65536
unfolding generate_fragment_id
generate_fragment_id_sum src_ip frag_id a b =
    let e : (src_ip * 2 ^ 16) % 18446744073709551616 ≡ src_ip * 2 ^ 16 = omega arith in
    rw e (bit_or-shifted 16 frag_id src_ip b)

-- Two datagrams share a key only if they agree in the source address and in the IP identification,
-- for every 32-bit address and 16-bit identification.
pub generate_fragment_id_injective :
    (src_ip frag_id src_ip' frag_id' : ℕ)
    → src_ip < 2 ^ 32
    → frag_id < 2 ^ 16
    → src_ip' < 2 ^ 32
    → frag_id' < 2 ^ 16
    → generate_fragment_id src_ip frag_id ≡ generate_fragment_id src_ip' frag_id'
    → (src_ip ≡ src_ip') × (frag_id ≡ frag_id')
generate_fragment_id_injective a b a' b' ha hb ha' hb' e =
    omega (arith, generate_fragment_id_sum a b ha hb, generate_fragment_id_sum a' b' ha' hb')
