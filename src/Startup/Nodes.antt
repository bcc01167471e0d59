-- ===== src/Startup/Nodes.antt =====
-- na62-farm.cpp: the position of the own node in the farm, and the cores of the packet handlers.
use na62_farm.Base.{
  ℕ, zero, suc, ◌+◌, ◌*◌, ◌^◌, ◌≤◌, ◌<◌, ◌≡◌, ◌≢◌, ◌↔◌, ◌⊎◌, inl, inr, refl, sym, ap, subst, Bool,
  true, false, some, some_inj, List, [], ◌∷◌, length, get_elem?, arith, Bool-cases,
}
use na62_farm.Startup.{
  Environment, no_node, find_node, logical_node_id, cpu_mask, cores_per_socket,
  number_of_task_processors,
}

module _ {Name : Type 0} (same : Name → Name → Bool)
    (same_iff : (a b : Name) → (same a b ≡ true) ↔ (a ≡ b)) where
  -- The name is not among the first `n` of the list.
  abbrev pub IsAbsentBefore : Name → List Name → ℕ → Type 0
  IsAbsentBefore my_ip nodes n = (m : ℕ) → m < n → get_elem? nodes m ≢ some my_ip

  -- A position is that of the first node with the name.
  abbrev pub IsFirst : Name → List Name → ℕ → Type 0
  IsFirst my_ip nodes j = (get_elem? nodes j ≡ some my_ip) × IsAbsentBefore my_ip nodes j

  IsAbsentBefore-suc :
      (my_ip node : Name) (nodes : List Name) (n : ℕ)
      → same my_ip node ≡ false
      → IsAbsentBefore my_ip nodes n
      → IsAbsentBefore my_ip (node ∷ nodes) (suc n)
  IsAbsentBefore-suc my_ip node nodes n apart absent zero inside e =
      let f : same my_ip node ≡ true = (same_iff my_ip node).1 (sym (some_inj e)) in absurd (cc)
  IsAbsentBefore-suc my_ip node nodes n apart absent (suc m) inside e =
      absent m (omega (arith, inside)) e

  find_node-IsFirst :
      (my_ip : Name) (nodes : List Name) (i : ℕ)
      → i + length nodes < 2 ^ 32
      → ((j : ℕ) × (find_node same my_ip nodes i ≡ i + j)
          × (j < length nodes)
          × IsFirst my_ip nodes j)
        ⊎ ((find_node same my_ip nodes i ≡ no_node) × IsAbsentBefore my_ip nodes (length nodes))
  unfolding find_node
  find_node-IsFirst my_ip [] i small = inr (refl, λ m inside. absurd (omega (arith, inside)))
  find_node-IsFirst my_ip (node ∷ nodes) i small = elim (Bool-cases (same my_ip node)) [
    | inl e ↦ inl (
      0,
      rw e (omega (arith, small)),
      omega arith,
      (ap some (sym ((same_iff my_ip node).0 e)), λ m inside. absurd (omega (arith, inside))),
    )
    | inr e ↦ elim (find_node-IsFirst my_ip nodes (i + 1) (omega (arith, small))) [
      | inl (j, f, inside, (found, absent)) ↦ inl (
        suc j,
        rw e (omega (arith, f)),
        omega (arith, inside),
        (found, IsAbsentBefore-suc my_ip node nodes j e absent),
      )
      | inr (f, absent) ↦ inr (rw e f, IsAbsentBefore-suc my_ip node nodes (length nodes) e absent)
    ]
  ]

  -- The logical id of a node is the position of the first entry of the list of nodes that is its
  -- address, and 2^32 - 1 when no entry is, for fewer than 2^32 nodes and a comparison that
  -- tells whether two strings are equal.
  pub logical_node_id-IsFirst :
      (env : Environment Name)
      → length env.nodes < 2 ^ 32
      → ((logical_node_id same env < length env.nodes)
          × IsFirst env.my_ip env.nodes (logical_node_id same env))
        ⊎ ((logical_node_id same env ≡ no_node)
            × IsAbsentBefore env.my_ip env.nodes (length env.nodes))
  unfolding logical_node_id
  logical_node_id-IsFirst env small =
      elim (find_node-IsFirst env.my_ip env.nodes 0 (omega (arith, small))) [
        | inl (j, f, inside, first) ↦
            let e : j ≡ find_node same env.my_ip env.nodes 0 = omega (arith, f) in
            inl (
              subst (λ r. (r < length env.nodes) × IsFirst env.my_ip env.nodes r) e (inside, first))
        | inr absent ↦ inr absent
      ]

-- As long as there are at most as many packet handlers as twice the cores of a socket, each is pinned
-- to a processor that exists, and no two to the same.
pub cpu_mask-apart :
    (hardware_concurrency i j : ℕ)
    → hardware_concurrency < 2 ^ 32
    → i < 2 * cores_per_socket hardware_concurrency
    → j < 2 * cores_per_socket hardware_concurrency
    → (cpu_mask hardware_concurrency i < hardware_concurrency)
      × (cpu_mask hardware_concurrency i ≡ cpu_mask hardware_concurrency j → i ≡ j)
unfolding cpu_mask
cpu_mask-apart c i j small a b = (ground (arith, small, a), λ e. ground (arith, small, a, b, e))

-- `main` starts one thread for each processor, as packet handlers and task processors, as long as
-- there are no more network queues than processors; with more of them the difference wraps around,
-- and `main` goes on to start more than 2^32 - 2^16 task processors, for fewer than 2^16 queues.
pub number_of_task_processors-adds_up :
    (hardware_concurrency queues : ℕ)
    → hardware_concurrency < 2 ^ 16
    → queues < 2 ^ 16
    → (queues ≤ hardware_concurrency
        → queues + number_of_task_processors hardware_concurrency queues ≡ hardware_concurrency)
      × (hardware_concurrency < queues
          → 2 ^ 32 < number_of_task_processors hardware_concurrency queues + 2 ^ 16)
unfolding number_of_task_processors
number_of_task_processors-adds_up c q small few =
    (λ h. omega (arith, small, few, h), λ h. omega (arith, small, few, h))
