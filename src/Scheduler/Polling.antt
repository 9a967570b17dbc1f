-- ===== src/Scheduler/Polling.antt =====
-- What a poll of the tasks that wait for MPI does to their queue.
use tythread.Base.{
  ℕ, ◌≡◌, refl, ap, ◌∙◌, ◌⊎◌, inl, inr, Bool, true, false, ◌==◌, eq_cases, Bool-cases, List, [],
  ◌∷◌, update, update_self, update-ne, Ptr, null,
}
use tythread.Group.{inform_done, resume_if_nothing_to_wait}
use tythread.Scheduler.{
  World, PerThreadMgr, add_runnable, set_state, set_current, inform_group, inform_all, terminate,
  continuation_in, handle_after_continuation_out, is_mpi_blocked, erase, poll_blocked,
  run_mpi_blocked,
}
use tythread.Skiplist.{enqueue}
use tythread.Task.{TaskState, initial, runnable, mpi_blocked, group_wait, terminated}

-- The tasks of thread `me` that wait for MPI.
abbrev pub polled : ℕ → World → List Ptr
polled me w = (w.mgr me).mpi_blocked_queue

-- The task p leaves the tasks of thread `me` that wait for MPI.
abbrev pub leave : ℕ → Ptr → World → World
leave me p w = record w {
  mgr = update w.mgr me (record (w.mgr me) { mpi_blocked_queue = erase p (polled me w) });
}

-- A thread whose manager changes in other fields only.
module _ (me a : ℕ) (w : World) (m : PerThreadMgr) (same : m.mpi_blocked_queue ≡ polled a w) where
  manager-polled : (update w.mgr a m me).mpi_blocked_queue ≡ polled me w
  manager-polled = elim (eq_cases me a) [
    | inl (_, e) ↦ rw e (ap PerThreadMgr.mpi_blocked_queue (update_self w.mgr a m) ∙ same)
    | inr (_, ne) ↦ ap PerThreadMgr.mpi_blocked_queue (update-ne w.mgr a me m ne)
  ]

module _ (me : ℕ) where
  add_runnable-polled : (a : ℕ) (p : Ptr) (w : World) → polled me (add_runnable a p w) ≡ polled me w
  unfolding enqueue
  add_runnable-polled a p w = manager-polled me a w _ refl

  set_current-polled : (p : Ptr) (w : World) → polled me (set_current me p w) ≡ polled me w
  set_current-polled p w = manager-polled me me w _ refl

  inform_group-polled : (g : ℕ) (w : World) → polled me (inform_group me g w) ≡ polled me w
  unfolding inform_group
  inform_group-polled g w = elim (Bool-cases ((inform_done (w.group g)).1 == null)) [
    | inl e ↦ rw e refl
    | inr e ↦ rw e (
        add_runnable-polled me (inform_done (w.group g)).1 (
          set_state (inform_done (w.group g)).1 runnable
            (record w { group = update w.group g (inform_done (w.group g)).0 })))
  ]

  inform_all-polled : (gs : List ℕ) (w : World) → polled me (inform_all me gs w) ≡ polled me w
  unfolding inform_all
  inform_all-polled [] w = refl
  inform_all-polled (g ∷ gs) w =
      inform_all-polled gs (inform_group me g w) ∙ inform_group-polled g w

  terminate-polled : (p : Ptr) (w : World) → polled me (terminate me p w) ≡ polled me w
  unfolding terminate
  terminate-polled p w = inform_all-polled (w.task p).groups (set_state p terminated w)

  handle-polled :
      (p : Ptr) (w : World) (st : TaskState)
      → (w.task p).state ≡ st
      → is_mpi_blocked st ≡ false
      → polled me (handle_after_continuation_out me p w) ≡ polled me w
  unfolding handle_after_continuation_out
  handle-polled p w initial e off = rw (handle_after_continuation_out, e) refl
  handle-polled p w terminated e off = rw (handle_after_continuation_out, e) refl
  handle-polled p w runnable e off =
      rw (handle_after_continuation_out, e) (add_runnable-polled me p w)
  handle-polled p w mpi_blocked e off = cc
  handle-polled p w group_wait e off =
      let g = (w.task p).blocked_by in
      let out = resume_if_nothing_to_wait p (w.group g) in
      elim (Bool-cases out.1) [
        | inl ready ↦
            rw (handle_after_continuation_out, e, ready)
              (add_runnable-polled me p
                (set_state p runnable (record w { group = update w.group g out.0 })))
        | inr waits ↦ rw (handle_after_continuation_out, e, waits) refl
      ]

  module _ (run : Ptr → World → World × Bool)
      (keeps : (p : Ptr) (w : World) → polled me (run p w).0 ≡ polled me w) where
    started-polled :
        (p : Ptr) (w : World) (st : TaskState)
        → polled me (elim st as (λ _. World) [ initial ↦ set_state p runnable w | _ ↦ w ])
          ≡ polled me w
    started-polled p w initial = refl
    started-polled p w runnable = refl
    started-polled p w mpi_blocked = refl
    started-polled p w group_wait = refl
    started-polled p w terminated = refl

    continuation_in-polled :
        (p : Ptr) (w : World) → polled me (continuation_in run me p w) ≡ polled me w
    unfolding continuation_in
    continuation_in-polled p w =
        let w' : World = elim (w.task p).state [ initial ↦ set_state p runnable w | _ ↦ w ] in
        let ran = keeps p w' ∙ started-polled p w (w.task p).state in
        elim (Bool-cases (run p w').1) [
          | inl ended ↦ rw ended (terminate-polled p (run p w').0 ∙ ran)
          | inr yields ↦ rw yields ran
        ]

    -- A task that is polled, up to its next yield.
    unfoldable pub after_poll : Ptr → World → World
    unfolding continuation_in
    after_poll p w = set_current me null (continuation_in run me p (set_current me p w))

    after_poll-polled : (p : Ptr) (w : World) → polled me (after_poll p w) ≡ polled me w
    unfolding after_poll
    after_poll-polled p w =
        set_current-polled null (continuation_in run me p (set_current me p w))
        ∙ continuation_in-polled p (set_current me p w)
        ∙ set_current-polled p w

    -- The tasks of the list are polled in order until one, p, is no longer one that waits for MPI; x is
    -- the world then.
    pub data FirstReady : List Ptr → World → Ptr → World → Type 0 where
      ready_now :
          (p : Ptr) (ps : List Ptr) (w : World)
          → is_mpi_blocked ((after_poll p w).task p).state ≡ false
          → FirstReady (p ∷ ps) w p (after_poll p w)
      ready_later :
          (p : Ptr) (ps : List Ptr) (w : World) (q : Ptr) (x : World)
          → is_mpi_blocked ((after_poll p w).task p).state ≡ true
          → FirstReady ps (after_poll p w) q x
          → FirstReady (p ∷ ps) w q x

    -- All tasks of the list are polled and wait for MPI still; x is the world then.
    pub data NoneReady : List Ptr → World → World → Type 0 where
      none_polled : (w : World) → NoneReady [] w w
      still_waits :
          (p : Ptr) (ps : List Ptr) (w x : World)
          → is_mpi_blocked ((after_poll p w).task p).state ≡ true
          → NoneReady ps (after_poll p w) x
          → NoneReady (p ∷ ps) w x

    -- The result of a poll of the list from w on, where the queue was ps.
    abbrev pub Polled : List Ptr → List Ptr → World → Bool × World → Type 0
    Polled queue ps w out =
        (out.0 ≡ false) × NoneReady ps w out.1 × (polled me out.1 ≡ queue)
        ⊎ ((p : Ptr) × (x : World) × FirstReady ps w p x
            × (out ≡ (true, leave me p (handle_after_continuation_out me p x)))
            × (polled me out.1 ≡ erase p queue))

    poll_blocked-Polled :
        (ps : List Ptr) (w : World) → Polled (polled me w) ps w (poll_blocked run me ps w)
    unfolding poll_blocked after_poll
    poll_blocked-Polled [] w = inl (refl, none_polled w, refl)
    poll_blocked-Polled (p ∷ ps) w =
        let ran = after_poll p w in
        let kept = after_poll-polled p w in
        elim (Bool-cases (is_mpi_blocked (ran.task p).state)) [
          | inl e ↦ elim (poll_blocked-Polled ps ran) [
            | inl (no_one, none_ready, same) ↦
                rw e (inl (no_one, still_waits p ps w _ e none_ready, same ∙ kept))
            | inr (q, x, first, out, left) ↦
                rw e (inr (q, x, ready_later p ps w q x e first, out, left ∙ ap (erase q) kept))
          ]
          | inr e ↦
              (let handled = handle_after_continuation_out me p ran in
                let same = handle-polled p ran (ran.task p).state refl e ∙ kept in
                rw e (
                  inr (
                    p,
                    ran,
                    ready_now p ps w e,
                    refl,
                    ap PerThreadMgr.mpi_blocked_queue (update_self handled.mgr me _)
                        ∙ ap (erase p) same,
                  )))
        ]

-- Of callbacks that leave the queue of tasks of thread `me` that wait for MPI alone: a poll of this queue
-- runs its tasks in order, each to its next yield, up to the first that is no longer one that waits for
-- MPI. If there is none it returns false and the queue is as before; if there is one it returns true,
-- this task leaves the queue, and the thread does with it what its state asks for, in the world that
-- the tasks have left.
pub run_mpi_blocked-Polled :
    (run : Ptr → World → World × Bool) (me : ℕ) (w : World)
    → (keeps : (p : Ptr) (x : World) → polled me (run p x).0 ≡ polled me x)
    → Polled me run keeps (polled me w) (polled me w) w (run_mpi_blocked run me w)
unfolding run_mpi_blocked
run_mpi_blocked-Polled run me w keeps = poll_blocked-Polled me run keeps (polled me w) w
