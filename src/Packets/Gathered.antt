-- ===== src/Packets/Gathered.antt =====
-- socket/PacketHandler.cpp: which frames come into the queue of tasks, and in which order.
use na62_farm.Base.{
  ℕ, ◌≡◌, ◌∙◌, sym, ap, Bool, true, ◌&&◌, Option, none, some, List, [], ◌∷◌, ◌++◌, ltb, length,
  arith, if◌then◌else◌, Bool-cases, inl, inr,
}
use na62_farm.Frame.{Container}
use mathlib.Core.List.{append_assoc, append-nil}
use na62_farm.Packets.{Poll, Task, Round, Handler, store_frame, gather, spawn, after_gather, thread}

-- The frame of a poll that is taken over: received outside of a flush, and no longer than the MTU.
abbrev pub taken : ℕ → Bool → Option (List ℕ) → List Container
taken mtu flush none = []
taken mtu flush (some bytes) =
    if flush
    then []
    else if ltb mtu (length bytes)
    then []
    else record { data_bytes = bytes; length = length bytes; owned = true } ∷ []

abbrev pub all_taken : ℕ → List Poll → List Container
all_taken mtu [] = []
all_taken mtu (p ∷ ps) = taken mtu p.flush_burst p.received ++ all_taken mtu ps

abbrev pub all_running : List Poll → Bool
all_running [] = true
all_running (p ∷ ps) = p.running && all_running ps

-- The frames of the rounds before the thread is stopped.
abbrev pub frames_of_rounds : ℕ → List Round → List Container
frames_of_rounds mtu [] = []
frames_of_rounds mtu (r ∷ rs) =
    if r.running && all_running r.polls
    then all_taken mtu r.polls ++ frames_of_rounds mtu rs
    else []

abbrev pub queued_frames : List Task → List Container
queued_frames [] = []
queued_frames (t ∷ ts) = t.containers ++ queued_frames ts

module _ (mtu : ℕ) where
  store_frame-taken :
      (flush : Bool) (received : Option (List ℕ)) (frames : List Container)
      → store_frame mtu flush received frames ≡ frames ++ taken mtu flush received
  unfolding store_frame
  store_frame-taken flush none frames = sym (append-nil frames)
  store_frame-taken flush (some bytes) frames = ground (arith, append-nil frames)

  gather-taken :
      (ps : List Poll) (frames : List Container)
      → gather mtu ps frames ≡ (if all_running ps then some (frames ++ all_taken mtu ps) else none)
  unfolding gather
  gather-taken [] frames = ap some (sym (append-nil frames))
  gather-taken (p ∷ ps) frames = ground (
    arith,
    gather-taken ps (store_frame mtu p.flush_burst p.received frames),
    store_frame-taken p.flush_burst p.received frames,
    append_assoc frames (taken mtu p.flush_burst p.received) (all_taken mtu ps),
  )

queued-append :
    (ts : List Task) (t : Task) → queued_frames (ts ++ t ∷ []) ≡ queued_frames ts ++ t.containers
queued-append [] t = append-nil t.containers
queued-append (u ∷ ts) t =
    ap (λ l. u.containers ++ l) (queued-append ts t)
    ∙ sym (append_assoc u.containers (queued_frames ts) t.containers)

spawn-queued :
    (burst_id : ℕ) (frames : List Container) (h : Handler)
    → queued_frames (spawn burst_id frames h).tasks_queue ≡ queued_frames h.tasks_queue ++ frames
unfolding spawn
spawn-queued burst_id [] h = sym (append-nil (queued_frames h.tasks_queue))
spawn-queued burst_id (f ∷ frames) h = queued-append h.tasks_queue _

-- The tasks that a packet handler puts into the queue hold, in the order of arrival, exactly the
-- frames received outside of a flush that are no longer than the MTU, of the rounds that ended
-- before the thread was stopped; those of a round cut off by the stop are lost.
pub thread-queued :
    (mtu : ℕ) (rs : List Round) (h : Handler)
    → queued_frames (thread mtu rs h).tasks_queue
      ≡ queued_frames h.tasks_queue ++ frames_of_rounds mtu rs
unfolding thread after_gather
thread-queued mtu [] h = sym (append-nil (queued_frames h.tasks_queue))
thread-queued mtu (r ∷ rs) h = elim (Bool-cases r.running) [
  | inr stopped ↦ rw (stopped, thread) (sym (append-nil (queued_frames h.tasks_queue)))
  | inl runs ↦ elim (Bool-cases (all_running r.polls)) [
    | inr stopped ↦
        rw (runs, thread)
          (rw (gather-taken mtu r.polls [])
            (rw stopped (sym (append-nil (queued_frames h.tasks_queue)))))
    | inl all ↦
        rw (runs, thread)
          (rw (gather-taken mtu r.polls []) (
            rw all (
              thread-queued mtu rs (spawn r.current_burst_id (all_taken mtu r.polls) h)
              ∙ ap (λ l. l ++ frames_of_rounds mtu rs)
                  (spawn-queued r.current_burst_id (all_taken mtu r.polls) h)
              ∙ append_assoc (queued_frames h.tasks_queue) (all_taken mtu r.polls)
                  (frames_of_rounds mtu rs))))
  ]
]
