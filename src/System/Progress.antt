-- ===== src/System/Progress.antt =====
-- The task processors between them: how much work there is, and that some processor can go on.
use na62_farm.Base.{
  ℕ, zero, suc, ◌+◌, ◌<◌, ◌≡◌, ◌⊎◌, refl, ap, false, Option, none, some, List, [], ◌∷◌, ◌++◌,
  length, length-append, sum_by, sum_by-append, Option-cases, inl, inr, arith,
}
use na62_farm.Frame.{Container}
use na62_farm.EventBuilding.Library.{Library, Config}
use na62_farm.FrameTasks.Network.{Network}
use na62_farm.FrameTasks.Process.{execute}
use na62_farm.Packets.{Task}
use na62_farm.System.{
  Program, push_task, pop_task, frame_done, delete_task, take_answer, Step, gathered, popped,
  handled, deleted, answered, burst_finished, Reach, start, later,
}
use na62_farm.System.Queue.{sum_by-middle, pushed_tasks}

-- The steps that a task needs: it is popped, its frames are handled, and it is deleted.
abbrev pub task_steps : Task → ℕ
task_steps t = length t.containers + 2

abbrev pub worker_steps : Option Task → ℕ
worker_steps none = 0
worker_steps (some t) = length t.containers + 1

abbrev pub work : Program → ℕ
work p = sum_by task_steps p.tasks_queue + sum_by worker_steps p.workers

-- A processor that has a task, if there is any.
find_busy :
    (workers : List (Option Task))
    → ((before : List (Option Task)) × (t : Task) × (after : List (Option Task)) × (workers
          ≡ before ++ some t ∷ after))
      ⊎ (sum_by worker_steps workers ≡ 0)
find_busy [] = inr refl
find_busy (some t ∷ workers) = inl ([], t, workers, refl)
find_busy (none ∷ workers) = elim (find_busy workers) [
  | inl (before, t, after, e) ↦ inl (none ∷ before, t, after, ap (λ l. none ∷ l) e)
  | inr e ↦ inr (omega (arith, e))
]

module _ (mtu : ℕ) (net : Network) (lib : Library) (config : Config) where
  -- The steps of the task processors in a run.
  abbrev pub processor_steps : {p q : Program} → Reach mtu net lib config p q → ℕ
  processor_steps start = 0
  processor_steps (later run (popped before after t queue e d)) = processor_steps run + 1
  processor_steps (later run (handled before after t c rest flush farm e d f)) =
      processor_steps run + 1
  processor_steps (later run (deleted before after t e d)) = processor_steps run + 1
  processor_steps (later run _) = processor_steps run

  -- In any run the task processors take exactly the steps that the tasks need: those taken and those
  -- that are left are those that were left before and those of the pushed tasks, two for each task
  -- and one for each of its frames. So they cannot go on for ever without new tasks.
  pub Reach-work :
      {p q : Program} (run : Reach mtu net lib config p q)
      → processor_steps run + work q
        ≡ work p + sum_by task_steps (pushed_tasks mtu net lib config run)
  unfolding push_task pop_task frame_done delete_task take_answer
  Reach-work start = omega arith
  Reach-work (later {q = m} run (gathered polls c frames b e)) =
      let t : Task = record { containers = c ∷ frames; burst_id = b } in
      omega (
        arith,
        Reach-work run,
        sum_by-append task_steps m.tasks_queue (t ∷ []),
        sum_by-append task_steps (pushed_tasks mtu net lib config run) (t ∷ []),
      )
  Reach-work (later run (popped before after t queue e d)) = omega (
    arith,
    Reach-work run,
    ap (sum_by task_steps) d,
    ap (sum_by worker_steps) e,
    sum_by-middle worker_steps before after none,
    sum_by-middle worker_steps before after (some t),
  )
  Reach-work (later run (handled before after t c rest flush farm e d f)) = omega (
    arith,
    Reach-work run,
    ap (λ l. length l) d,
    ap (sum_by worker_steps) e,
    sum_by-middle worker_steps before after (some t),
    sum_by-middle worker_steps before after (some (record t { containers = rest })),
  )
  Reach-work (later run (deleted before after t e d)) = omega (
    arith,
    Reach-work run,
    ap (λ l. length l) d,
    ap (sum_by worker_steps) e,
    sum_by-middle worker_steps before after none,
    sum_by-middle worker_steps before after (some t),
  )
  Reach-work (later run (answered message r e)) = Reach-work run
  Reach-work (later run (burst_finished end e)) = Reach-work run

  -- A step of a task processor, and a run of such steps.
  abbrev pub IsProcessorStep : {p q : Program} → Step mtu net lib config p q → Type 0
  IsProcessorStep (popped before after t queue e d) = Unit
  IsProcessorStep (handled before after t c rest flush farm e d f) = Unit
  IsProcessorStep (deleted before after t e d) = Unit
  IsProcessorStep _ = ⊥

  abbrev pub IsOfProcessors : {p q : Program} → Reach mtu net lib config p q → Type 0
  IsOfProcessors start = Unit
  IsOfProcessors (later run step) = IsProcessorStep step × IsOfProcessors run

  -- A processor works on a task whose next frame is handled with a fault: a copy leaves its buffer.
  abbrev pub HasFault : Program → Type 0
  HasFault p =
      (before : List (Option Task)) × (t : Task) × (after : List (Option Task)) × (c : Container)
      × (rest : List Container) × (p.workers ≡ before ++ some t ∷ after)
      × (t.containers ≡ c ∷ rest)
      × (execute net lib config t.burst_id ((c, false) ∷ []) p.farm ≡ none)

  -- A step of a processor, which leaves one step less to do and as many processors, or a fault.
  abbrev CanGoOn : Program → Type 0
  CanGoOn p =
      ((q : Program) × (step : Step mtu net lib config p q) × IsProcessorStep step
        × (work p ≡ work q + 1)
        × (length p.workers ≡ length q.workers))
      ⊎ HasFault p

  module _ (p : Program) where
    step-work :
        (q : Program) (step : Step mtu net lib config p q)
        → processor_steps (later start step) ≡ 1
        → pushed_tasks mtu net lib config (later start step) ≡ []
        → work p ≡ work q + 1
    step-work q step one none_pushed =
        omega (arith, one, ap (sum_by task_steps) none_pushed, Reach-work (later start step))

    same_length :
        (before after : List (Option Task)) (o o' : Option Task)
        → p.workers ≡ before ++ o ∷ after
        → length p.workers ≡ length (before ++ o' ∷ after)
    same_length before after o o' e = omega (
      arith,
      ap (λ l. length l) e,
      length-append before (o ∷ after),
      length-append before (o' ∷ after),
    )

    busy-CanGoOn :
        (before after : List (Option Task)) (t : Task)
        → p.workers ≡ before ++ some t ∷ after
        → (l : List Container) → t.containers ≡ l
        → CanGoOn p
    unfolding frame_done delete_task
    busy-CanGoOn before after t e [] d =
        let step = deleted before after t e d in
        inl (_, step, tt, step-work _ step refl refl, same_length before after _ _ e)
    busy-CanGoOn before after t e (c ∷ rest) d =
        elim (Option-cases (execute net lib config t.burst_id ((c, false) ∷ []) p.farm)) [
          | inl fault ↦ inr (before, t, after, c, rest, e, d, fault)
          | inr (farm, f) ↦
              let step = handled before after t c rest false farm e d f in
              inl (_, step, tt, step-work _ step refl refl, same_length before after _ _ e)
        ]

    idle-CanGoOn :
        (workers : List (Option Task)) (queue : List Task)
        → p.workers ≡ workers
        → p.tasks_queue ≡ queue
        → 0 < length workers
        → sum_by worker_steps workers ≡ 0
        → 0 < sum_by task_steps queue
        → CanGoOn p
    unfolding pop_task
    idle-CanGoOn [] queue e d some_worker idle some_task = ground arith
    idle-CanGoOn (some t ∷ workers) queue e d some_worker idle some_task =
        absurd (omega (arith, idle))
    idle-CanGoOn (none ∷ workers) [] e d some_worker idle some_task = ground arith
    idle-CanGoOn (none ∷ workers) (t ∷ queue) e d some_worker idle some_task =
        let step = popped [] workers t queue e d in
        inl (_, step, tt, step-work _ step refl refl, same_length [] workers none (some t) e)

    work-CanGoOn : 0 < length p.workers → 0 < work p → CanGoOn p
    work-CanGoOn some_worker some_work = elim (find_busy p.workers) [
      | inl (before, t, after, e) ↦ busy-CanGoOn before after t e t.containers refl
      | inr idle ↦
          idle-CanGoOn p.workers p.tasks_queue refl refl some_worker idle
            (omega (arith, idle, some_work))
    ]

  drains :
      (n : ℕ) (p q : Program) (run : Reach mtu net lib config p q)
      → IsOfProcessors run
      → 0 < length q.workers
      → work q ≡ n
      → (r : Program) × (run' : Reach mtu net lib config p r) × IsOfProcessors run'
        × ((work r ≡ 0) ⊎ HasFault r)
  drains zero p q run only some_worker e = (q, run, only, inl e)
  drains (suc n) p q run only some_worker e = elim (work-CanGoOn q some_worker (omega (arith, e))) [
    | inl (r, step, own, less, same) ↦
        drains n p r (later run step) (own, only) (omega (arith, same, some_worker))
          (omega (arith, e, less))
    | inr fault ↦ (q, run, only, inr fault)
  ]

  -- No deadlock: with at least one task processor, the processors can go on by their own steps until
  -- every task is popped, handled and deleted, whatever is in the queue and at the processors, unless
  -- they get to a state in which the next frame of a processor makes a copy that leaves its buffers.
  pub Program-drains :
      (p : Program)
      → 0 < length p.workers
      → (r : Program) × (run : Reach mtu net lib config p r) × IsOfProcessors run
        × ((work r ≡ 0) ⊎ HasFault r)
  Program-drains p some_worker = drains (work p) p p start tt some_worker refl
