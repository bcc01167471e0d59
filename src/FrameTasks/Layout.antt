-- ===== src/FrameTasks/Layout.antt =====
-- socket/HandleFrameTask.cpp: the layout of the blocks made up for L1, L2 and NSTD.
use na62_farm.Base.{ℕ, ◌+◌, ◌*◌, ◌/◌, ◌%◌, ◌^◌, ◌≤◌, ◌≡◌, some, get_elem?}
use na62_farm.FrameTasks.Network.{Mep, Block, Network}

-- Each event of the block at an index lies behind the headers, inside the buffer, and from the end of
-- the event before it on; it starts with the eight bytes of the fragment of the same index, but for
-- the low half of the first word, which is the length of the event.
abbrev pub HoldsEvent : ℕ → Mep → ℕ → Block → Type 0
HoldsEvent n mep i block =
    (position : ℕ) × (w : ℕ) × (get_elem? block.events i
      ≡ some (position, w, (mep.fragment i).first_words.1))
    × (position ≡ 42 + 8 + i * n)
    × (position + n ≤ block.allocated)
    × (w % 2 ^ 16 ≡ n)
    × (w / 2 ^ 16 ≡ (mep.fragment i).first_words.0 / 2 ^ 16)
