-- ===== src/System/Queue.antt =====
-- The queue of tasks between the packet handlers and the task processors.
use na62_farm.Base.{
  ℕ, ◌+◌, ◌≡◌, ap, Option, none, some, List, [], ◌∷◌, ◌++◌, length, length-append, sum_by,
  sum_by-append, arith,
}
use na62_farm.Base.Words.{u32}
use na62_farm.EventBuilding.Library.{Library, Config}
use na62_farm.FrameTasks.Network.{Network}
use na62_farm.Packets.{Task}
use na62_farm.System.{
  Program, push_task, pop_task, frame_done, delete_task, take_answer, Step, gathered, popped,
  handled, deleted, answered, burst_finished, Reach, start, later,
}

abbrev pub is_busy : Option Task → ℕ
is_busy none = 0
is_busy (some t) = 1

-- `queuedTasksNum_` is the number of the tasks that exist: those in the queue, and those that a
-- processor has not deleted yet.
abbrev pub IsCounted : Program → Type 0
IsCounted p = p.queued_tasks_num ≡ u32 (length p.tasks_queue + sum_by is_busy p.workers)

pub sum_by-middle :
    {A : Type 0} (w : A → ℕ) (before after : List A) (a : A)
    → sum_by w (before ++ a ∷ after) ≡ sum_by w before + (w a + sum_by w after)
sum_by-middle w before after a = sum_by-append w before (a ∷ after)

module _ (mtu : ℕ) (net : Network) (lib : Library) (config : Config) where
  Step-IsCounted : (p q : Program) → Step mtu net lib config p q → IsCounted p → IsCounted q
  unfolding push_task pop_task frame_done delete_task take_answer
  Step-IsCounted p q (gathered polls c frames b e) h = omega (
    arith,
    h,
    length-append p.tasks_queue (record { containers = c ∷ frames; burst_id = b } ∷ []),
  )
  Step-IsCounted p q (popped before after t queue e d) h = omega (
    arith,
    h,
    ap length d,
    ap (sum_by is_busy) e,
    sum_by-middle is_busy before after none,
    sum_by-middle is_busy before after (some t),
  )
  Step-IsCounted p q (handled before after t c rest flush farm e d f) h = omega (
    arith,
    h,
    ap (sum_by is_busy) e,
    sum_by-middle is_busy before after (some t),
    sum_by-middle is_busy before after (some (record t { containers = rest })),
  )
  Step-IsCounted p q (deleted before after t e d) h = omega (
    arith,
    h,
    ap (sum_by is_busy) e,
    sum_by-middle is_busy before after none,
    sum_by-middle is_busy before after (some t),
  )
  Step-IsCounted p q (answered message r e) h = h
  Step-IsCounted p q (burst_finished end e) h = h

  -- In whatever order the threads run: `queuedTasksNum_` is the number of the tasks that are queued or
  -- worked on, modulo 2^32, if it was so before.
  pub Reach-IsCounted : (p q : Program) → Reach mtu net lib config p q → IsCounted p → IsCounted q
  Reach-IsCounted p q start h = h
  Reach-IsCounted p q (later {q = m} run step) h =
      Step-IsCounted m q step (Reach-IsCounted p m run h)

  -- The tasks that are pushed and popped in a run, in order.
  abbrev pub pushed_tasks : {p q : Program} → Reach mtu net lib config p q → List Task
  pushed_tasks start = []
  pushed_tasks (later run (gathered polls c frames b e)) =
      pushed_tasks run ++ record { containers = c ∷ frames; burst_id = b } ∷ []
  pushed_tasks (later run _) = pushed_tasks run
