-- ===== src/System/Rounds.antt =====
-- socket/TaskProcessor.cpp: the loop of one task processor against the steps of the program.
use na62_farm.Base.{
  ℕ, suc, ◌+◌, ◌≡◌, refl, sym, ◌∙◌, subst, Bool, Option, none, some, some_inj, List, [], ◌∷◌, ◌++◌,
  length, Bool-cases, inl, inr, arith,
}
use na62_farm.Base.Words.{u32}
use na62_farm.Frame.{Container}
use na62_farm.EventBuilding.Library.{Library, Config}
use na62_farm.FrameTasks.Network.{Network}
use na62_farm.FrameTasks.State.{Farm}
use na62_farm.FrameTasks.Process.{execute, unless_fault}
use na62_farm.Packets.{Task}
use na62_farm.Tasks.{Turn, with_answers, execute_task, next_round, process_tasks}
use na62_farm.System.{
  Program, pop_task, frame_done, delete_task, popped, handled, deleted, Reach, later,
}

module _ (net : Network) (lib : Library) (config : Config) (burst_id : ℕ) where
  one_then :
      (o : Option Farm) (l : List (Container × Bool))
      → unless_fault net lib config burst_id o (execute net lib config burst_id l)
        ≡ unless_fault net lib config burst_id
            (unless_fault net lib config burst_id o (execute net lib config burst_id []))
            (execute net lib config burst_id l)
  unfolding execute
  one_then none l = refl
  one_then (some s) l = refl

  then_some :
      (o : Option Farm) (l : List (Container × Bool)) (s' : Farm)
      → unless_fault net lib config burst_id o (execute net lib config burst_id l) ≡ some s'
      → (m : Farm) × (o ≡ some m) × (execute net lib config burst_id l m ≡ some s')
  then_some none l s' e = absurd (cc)
  then_some (some m) l s' e = (m, refl, e)

  -- A task is its first frame and then the others.
  execute-first :
      (c : Container × Bool) (l : List (Container × Bool)) (s : Farm)
      → execute net lib config burst_id (c ∷ l) s
        ≡ unless_fault net lib config burst_id
            (execute net lib config burst_id (c ∷ []) s)
            (execute net lib config burst_id l)
  unfolding execute
  execute-first (c, flush) l s = one_then _ l

module _ (mtu : ℕ) (net : Network) (lib : Library) (config : Config) (highest received : ℕ)
    (before after : List (Option Task)) (p : Program) where
  -- A state with one processor between the two lists of others.
  abbrev pub with_worker : Farm → List Task → ℕ → Option Task → Program
  with_worker farm queue num worker = record {
    farm = farm;
    highest_burst_id_received = highest;
    event_received_per_burst = received;
    tasks_queue = queue;
    queued_tasks_num = num;
    workers = before ++ worker ∷ after;
  }

  abbrev Reached : Program → Type 0
  Reached = Reach mtu net lib config p

  frames_handled :
      (burst_id : ℕ) (frames : List Container) (flush : ℕ → Bool) (s s' : Farm) (queue : List Task)
      (num : ℕ)
      → execute net lib config burst_id (with_answers flush frames) s ≡ some s'
      → Reached
          (with_worker s queue num (some (record { containers = frames; burst_id = burst_id })))
      → Reached (with_worker s' queue num (some (record { containers = []; burst_id = burst_id })))
  unfolding frame_done execute
  frames_handled b [] flush s s' queue num e run =
      subst
        (λ t. Reached (with_worker t queue num (some (record { containers = []; burst_id = b }))))
        (some_inj e) run
  frames_handled b (c ∷ l) flush s s' queue num e run =
      let t : Task = record { containers = c ∷ l; burst_id = b } in
      let first : Container × Bool = (c, flush 0) in
      let rest = with_answers (λ i. flush (suc i)) l in
      let (m, f, g) =
        then_some net lib config b _ rest s'
          (sym (execute-first net lib config b first rest s) ∙ e) in
      frames_handled b l (λ i. flush (suc i)) m s' queue num g
        (later run (handled before after t c l (flush 0) m refl refl f))

  task_handled :
      (turn : Turn) (t : Task) (s s' : Farm) (queue : List Task) (num : ℕ)
      → execute_task net lib config turn t s ≡ some s'
      → Reached (with_worker s (t ∷ queue) num none)
      → Reached (with_worker s' queue (u32 (num + 4294967295)) none)
  unfolding pop_task delete_task
  task_handled turn t s s' queue num e run =
      later
        (frames_handled t.burst_id t.containers turn.flush_burst s s' queue num e
          (later run (popped before after t queue refl refl)))
        (deleted before after (record { containers = []; burst_id = t.burst_id }) refl refl)

  -- What a run of the loop of one processor reaches, with the counter of the tasks that exist.
  abbrev pub IsReached : ℕ → List Task → List Task → Farm → Type 0
  IsReached num queue queue' s' =
      (num' : ℕ) × Reached (with_worker s' queue' num' none)
      × (u32 (num' + length queue) ≡ u32 (num + length queue'))

  stopped :
      (num : ℕ) (queue queue' : List Task) (s s' : Farm)
      → ◌≡◌ {A = Option (List Task × Farm)} (some (queue, s)) (some (queue', s'))
      → Reached (with_worker s queue num none)
      → IsReached num queue queue' s'
  stopped num queue queue' s s' e run =
      subst (λ t. IsReached num queue t.0 t.1) (some_inj e) (num, run, refl)

  next_some :
      (o : Option Farm) (rest : Farm → Option (List Task × Farm)) (t : List Task × Farm)
      → next_round net lib config o rest ≡ some t
      → (m : Farm) × (o ≡ some m) × (rest m ≡ some t)
  next_some none rest t e = absurd (cc)
  next_some (some m) rest t e = (m, refl, e)

  -- Whatever the loop of a task processor does with the queue and the farm when it runs alone, it
  -- does by steps of the program: the processor ends without a task, and the counter of the tasks
  -- has fallen by the number of the tasks taken from the queue, modulo 2^32.
  pub process_tasks-IsReached :
      (turns : List Turn) (queue queue' : List Task) (s s' : Farm) (num : ℕ)
      → process_tasks net lib config turns queue s ≡ some (queue', s')
      → Reached (with_worker s queue num none)
      → IsReached num queue queue' s'
  unfolding process_tasks
  process_tasks-IsReached [] queue queue' s s' num e run = stopped num queue queue' s s' e run
  process_tasks-IsReached (turn ∷ turns) [] queue' s s' num e run = elim (Bool-cases turn.running) [
    | inl r ↦ process_tasks-IsReached turns [] queue' s s' num (rw r at e) run
    | inr r ↦ stopped num [] queue' s s' (rw r at e) run
  ]
  process_tasks-IsReached (turn ∷ turns) (task ∷ queue) queue' s s' num e run =
      elim (Bool-cases turn.running) [
        | inl r ↦
            let (m, f, g) = next_some _ _ _ (rw r at e) in
            let (num', run', counted) =
              process_tasks-IsReached turns queue queue' m s' (u32 (num + 4294967295)) g
                (task_handled turn task s m queue num f run) in
            (num', run', omega (arith, counted))
        | inr r ↦ stopped num (task ∷ queue) queue' s s' (rw r at e) run
      ]
