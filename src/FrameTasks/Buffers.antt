-- ===== src/FrameTasks/Buffers.antt =====
-- socket/HandleFrameTask.cpp: the actions that free and dump no buffer.
use na62_farm.Base.{ℕ, Bool, true, false, Option, none, some, ◌≡◌, ◌∙◌, refl, ◌==◌}
use na62_farm.Frame.{Container, Header}
use na62_farm.EventBuilding.Library.{Library, Config}
use na62_farm.EventBuilding.State.{M}
use na62_farm.FrameTasks.Network.{Mep, Block, Network}
use na62_farm.FrameTasks.State.{
  Farm, Outcome, Action, finish, and_then, unless_thrown, choose, modify, with_value, on_builders,
}
use na62_farm.FrameTasks.Process.{invent, invent_blocks, process_l0}

-- No buffer was freed, dumped or put into the store.
pub record Untouched (s t : Farm) : Type 0 where
  pub store_kept : t.store ≡ s.store
  pub freed_kept : t.freed ≡ s.freed
  pub dumped_kept : t.dumped ≡ s.dumped

Untouched-trans : {s t u : Farm} → Untouched s t → Untouched t u → Untouched s u
Untouched-trans h k = record {
  store_kept = k.store_kept ∙ h.store_kept;
  freed_kept = k.freed_kept ∙ h.freed_kept;
  dumped_kept = k.dumped_kept ∙ h.dumped_kept;
}

pub Untouched-refl : (s : Farm) → Untouched s s
Untouched-refl s = record { store_kept = refl; freed_kept = refl; dumped_kept = refl }

abbrev pub Leaves : Action → Type 0
Leaves m = (s : Farm) → Untouched s (m s).1

choose-Leaves : (b : Bool) (m n : Action) → Leaves m → Leaves n → Leaves (choose b m n)
unfolding choose
choose-Leaves true m n k l = k
choose-Leaves false m n k l = l

unless_thrown-Leaves :
    (s : Farm) (t : Outcome × Farm) (n : Action)
    → Leaves n
    → Untouched s t.1
    → Untouched s (unless_thrown t n).1
unless_thrown-Leaves s (Outcome.finished, t) n k h = Untouched-trans h (k t)
unless_thrown-Leaves s (Outcome.thrown, t) n k h = h

pub and_then-Leaves : (m n : Action) → Leaves m → Leaves n → Leaves (and_then m n)
unfolding and_then
and_then-Leaves m n k l s = unless_thrown-Leaves s (m s) n l (k s)

pub with_value-Leaves :
    {A : Type 0} (o : Option A) (m : A → Action)
    → ((a : A) → Leaves (m a))
    → Leaves (with_value o m)
unfolding with_value
with_value-Leaves none m k s = Untouched-refl s
with_value-Leaves (some a) m k s = k a s

pub on_builders-Leaves : (m : M Unit) → Leaves (on_builders m)
unfolding on_builders
on_builders-Leaves m s = record { store_kept = refl; freed_kept = refl; dumped_kept = refl }

pub modify-Leaves : (f : Farm → Farm) → ((s : Farm) → Untouched s (f s)) → Leaves (modify f)
unfolding modify
modify-Leaves f k = k

finish-Leaves : Leaves finish
unfolding finish
finish-Leaves = Untouched-refl

module _ (net : Network) (lib : Library) (config : Config) (burst_id : ℕ) where
  invent-Leaves : (block : Block) → Leaves (invent net lib config burst_id block)
  unfolding invent
  invent-Leaves block = with_value-Leaves (net.l0_mep_of_block block block.mep_length) _ λ mep.
      with_value-Leaves (net.source_id_to_num mep.source_id) _ λ n.
        and_then-Leaves _ _
          (modify-Leaves _ λ s. record { store_kept = refl; freed_kept = refl; dumped_kept = refl })
          (on_builders-Leaves _)

  invent_blocks-Leaves : (mep : Mep) → Leaves (invent_blocks net lib config burst_id mep)
  unfolding invent_blocks
  invent_blocks-Leaves mep =
      and_then-Leaves _ _ (choose-Leaves net.is_l1_active _ _ (invent-Leaves _) finish-Leaves) (
        and_then-Leaves _ _ (choose-Leaves config.is_l2_active _ _ (invent-Leaves _) finish-Leaves)
          (choose-Leaves net.is_nstd_active _ _ (invent-Leaves _) finish-Leaves))

  pub process_l0-Leaves :
      (c : Container) (h : Header) → Leaves (process_l0 net lib config burst_id c h)
  unfolding process_l0
  process_l0-Leaves c h = with_value-Leaves _ _ λ mep.
      with_value-Leaves (net.source_id_to_num mep.source_id) _ λ n.
        and_then-Leaves _ _
          (modify-Leaves _ λ s. record { store_kept = refl; freed_kept = refl; dumped_kept = refl })
          (and_then-Leaves _ _
            (choose-Leaves (mep.source_id == net.source_id_l0tp) _ _ (invent_blocks-Leaves mep)
              finish-Leaves)
            (on_builders-Leaves _))
