-- ===== src/Scheduler/Interleave/Rounds.antt =====
-- What the scheduler's code does to the queues are steps.
use tythread.Base.{
  times, ℕ, zero, suc, ◌+◌, ◌^◌, ◌≤◌, ◌<◌, ◌≡◌, refl, sym, ap, ◌∙◌, ◌≢◌, inl, inr, arith,
  Bool-cases, eq_cases, List, [], ◌∷◌, ◌++◌, Ptr, null, update, update_self, update-ne, subst,
}
use tythread.Group.{inform_done, resume_if_nothing_to_wait}
use tythread.Scheduler.{
  World, PerThreadMgr, set_state, add_runnable, handle_after_continuation_out, inform_group,
  steal_from, steal, erase,
}
use tythread.Scheduler.Interleave.{Scene, resume, steal_step, local, Reach, here, after}
use tythread.Scheduler.Shared.{IsOrderly}
use tythread.Scheduler.Steal.{queue_of, tasks_of, steal_from-empty, steal_from-IsStolen}
use tythread.Scheduler.Theft.{no_theft, no_theft-tasks, unchanged}
use tythread.Skiplist.{size}
use tythread.Skiplist.Stack.{IsValid}
use tythread.Task.{TaskState, initial, runnable, mpi_blocked, group_wait, terminated}

-- From the scene x the threads come to one with world w in steps.
pub record Leads (n : ℕ) (x : Scene) (w : World) : Type 0 where
  pub held : List Ptr
  pub made : List Ptr
  pub reach : Reach n x (record x { world = w; held = held; made = made })

module _ {n me : ℕ} (below : me < n) (p : Ptr) (x : Scene) (in_hand : 0 < times p x.held) where
  -- The task goes back to the queue after changes that leave memory and queues alone.
  enqueue-Leads :
      (w : World)
      → w.mem ≡ x.world.mem
      → ((k : ℕ) → queue_of k w ≡ queue_of k x.world)
      → Leads n x (add_runnable me p w)
  enqueue-Leads w mem same = record {
    held = erase p x.held;
    made = x.made;
    reach =
        after (after here (local w x.world.mem.counter x mem same))
          (resume me p (record x { world = w }) below in_hand);
  }

  local-Leads :
      (w : World)
      → w.mem ≡ x.world.mem
      → ((k : ℕ) → queue_of k w ≡ queue_of k x.world)
      → Leads n x w
  local-Leads w mem same = record {
    held = x.held;
    made = x.made;
    reach = after here (local w x.world.mem.counter x mem same);
  }

  -- Another queue of MPI tasks changes no run queue.
  blocked_same :
      (qs : List Ptr) (k : ℕ)
      → (update x.world.mgr me
          (record (x.world.mgr me) { mpi_blocked_queue = qs })
          k).runnable_queue
        ≡ queue_of k x.world
  blocked_same qs k = elim (eq_cases k me) [
    | inl (_, e) ↦
        rw (e, update_self x.world.mgr me (record (x.world.mgr me) { mpi_blocked_queue = qs })) refl
    | inr (_, ne) ↦
        ap PerThreadMgr.runnable_queue
          (update-ne x.world.mgr me k (record (x.world.mgr me) { mpi_blocked_queue = qs }) ne)
  ]

  handle_state :
      (st : TaskState)
      → (x.world.task p).state ≡ st
      → Leads n x (handle_after_continuation_out me p x.world)
  unfolding handle_after_continuation_out
  handle_state initial e =
      rw (handle_after_continuation_out, e) (record { held = x.held; made = x.made; reach = here })
  handle_state terminated e =
      rw (handle_after_continuation_out, e) (record { held = x.held; made = x.made; reach = here })
  handle_state runnable e =
      rw (handle_after_continuation_out, e) (enqueue-Leads x.world refl (λ k. refl))
  handle_state mpi_blocked e =
      let mgr = x.world.mgr me in
      let qs = mgr.mpi_blocked_queue ++ p ∷ [] in
      rw (handle_after_continuation_out, e)
        (local-Leads
          (record x.world { mgr = update x.world.mgr me (record mgr { mpi_blocked_queue = qs }) })
          refl (blocked_same qs))
  handle_state group_wait e =
      let g = (x.world.task p).blocked_by in
      let out = resume_if_nothing_to_wait p (x.world.group g) in
      let w : World = record x.world { group = update x.world.group g out.0 } in
      elim (Bool-cases out.1) [
        | inl ready ↦
            rw (handle_after_continuation_out, e, ready)
              (enqueue-Leads (set_state p runnable w) refl (λ k. refl))
        | inr waits ↦ rw (handle_after_continuation_out, e, waits) (local-Leads w refl (λ k. refl))
      ]

  -- What a thread, one of n, does with a task in its hands that has left its coroutine, in whatever
  -- state the task is, is done in steps.
  pub handle_after-Leads : Leads n x (handle_after_continuation_out me p x.world)
  handle_after-Leads = handle_state (x.world.task p).state refl

-- A member of a group that finishes: the task that then can run is in a thread's hands.
pub inform_group-Leads :
    {n : ℕ} (me g : ℕ) (x : Scene)
    → me < n
    → ((inform_done (x.world.group g)).1 ≢ null
        → 0 < times (inform_done (x.world.group g)).1 x.held)
    → Leads n x (inform_group me g x.world)
unfolding inform_group
inform_group-Leads me g x below in_hand =
    let out = inform_done (x.world.group g) in
    let w : World = record x.world { group = update x.world.group g out.0 } in
    elim (eq_cases out.1 null) [
      | inl (test, _) ↦ rw test (record {
        held = x.held;
        made = x.made;
        reach = after here (local w x.world.mem.counter x refl (λ k. refl));
      })
      | inr (test, ne) ↦
          rw test
            (enqueue-Leads below out.1 x (in_hand ne) (set_state out.1 runnable w) refl (λ k. refl))
    ]

pub Reach-trans : {n : ℕ} {x y z : Scene} → Reach n x y → Reach n y z → Reach n x z
Reach-trans r here = r
Reach-trans r (after r' s) = after (Reach-trans r r') s

module _ {n me : ℕ} (mine : me < n) where
  -- The loop over the victims i to i + k of a thread whose queue is empty, where the queues of all n
  -- threads are in a good state and apart, each of fewer than 2 ^ 30 tasks, is done in steps, whether a
  -- theft succeeds or none, if no other thread acts meanwhile.
  pub steal-Reach :
      (k i : ℕ) (x : Scene)
      → i + k ≤ n
      → IsOrderly n x.world
      → ((j : ℕ) → j < n → size (queue_of j x.world) < 2 ^ 30)
      → tasks_of me x.world ≡ []
      → Reach n x (record x { world = (steal (λ j w. w) me i k x.world).1 })
  unfolding steal
  steal-Reach zero i x le o few bare = here
  steal-Reach (suc k) i x le o few bare = elim (eq_cases i me) [
    | inl (test, _) ↦ rw test (steal-Reach k (suc i) x (omega arith) o few bare)
    | inr (test, other) ↦
        (let b : i < n = omega arith in
          let w' = (steal_from me i x.world).1 in
          let valid : IsValid x.world.mem (queue_of i x.world) = record {
            at = o.at i;
            stack = o.all.stacks i b;
          } in
          let step = steal_step me i x mine b other bare in
          elim (eq_cases (size (queue_of i x.world)) 0) [
            | inl (_, none_left) ↦
                (let failed = (steal_from-empty me i x.world valid none_left).0 in
                  let (o', tasks) = no_theft-tasks me i b o none_left in
                  let same = λ (j : ℕ).
                    ap (queue_of j) (no_theft me i b o none_left) ∙ unchanged me i b o j in
                  rw (test, failed)
                    (Reach-trans (after here step) (
                      steal-Reach k (suc i) (record x { world = w' }) (omega arith) o'
                        (λ j c. subst (λ q. size q < 2 ^ 30) (sym (same j)) (few j c))
                        (tasks me ∙ bare))))
            | inr (_, some) ↦
                (let won =
                    (steal_from-IsStolen me i x.world other valid (omega arith) (few i b)).0 in
                  rw (test, won) (after here step))
          ])
  ]
