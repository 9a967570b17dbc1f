-- ===== src/Scheduler/Interleave/Own.antt =====
-- A round of a thread with a task of its own is steps.
use tythread.Base.{
  ℕ, ◌<◌, ◌≡◌, refl, sym, ap, inl, inr, arith, Bool, true, false, ◌==◌, if◌then◌else◌, ◌∷◌, Ptr,
  null, Absent, subst,
}
use tythread.Scheduler.{World, take_runnable, run_runnable}
use tythread.Scheduler.Interleave.{Scene, take, Reach, here, after, hold, IsStart}
use tythread.Scheduler.Interleave.Conserve.{Reach-Good, start-Good}
use tythread.Scheduler.Interleave.Held.{Good, held-Absent}
use tythread.Scheduler.Interleave.Rounds.{Leads, Reach-trans}
use tythread.Scheduler.Shared.{take_runnable-tasks}
use tythread.Scheduler.Steal.{tasks_of}
use tythread.Scheduler.Interleave.Parked.{AreParked, Runs, Ends, blocked, ran-Leads}

-- A task taken from a queue waits in no group, and those that wait are in hands still.
taken-Runs :
    {n me : ℕ} (below : me < n) (x : Scene)
    → Good n x
    → AreParked x
    → 0 < (take_runnable me x.world).0
    → tasks_of me x.world ≡ (take_runnable me x.world).0 ∷ tasks_of me (take_runnable me x.world).1
    → Runs (take_runnable me x.world).0 (record x {
      world = (take_runnable me x.world).1;
      held = (take_runnable me x.world).0 ∷ x.held;
    })
unfolding take_runnable
taken-Runs {me} below x good parked pos first = record {
  parked = record {
    in_hands = λ g some. ground (arith, parked.in_hands g some);
    distinct = parked.distinct;
  };
  mine = ground arith;
  away = λ g some e.
      (let out = held-Absent good (blocked x g) (parked.in_hands g some) me below in
        (subst (Absent (blocked x g)) first out).0 (sym e));
}

-- The threads start with empty queues. After any steps, while the groups hold only tasks in hands, each
-- in one group, a round of thread `me`, one of n, on its own queue is done in steps, the groups that its
-- task ends and what becomes of the task included. The condition on the callbacks is that each, when as
-- many tasks are made as now, acts in steps, in which it may make others, keeps that of the groups, and
-- leaves its task in the thread's hands and in no group.
pub run_runnable-Leads :
    {n me : ℕ} (below : me < n) (run : Ptr → World → World × Bool) (s x : Scene)
    (acts : (p : Ptr) (y : Scene) → y.made ≡ x.made → Runs p y → Ends n p y (run p y.world).0)
    → IsStart s
    → Reach n s x
    → AreParked x
    → Leads n x (run_runnable run me x.world).1
unfolding run_runnable
run_runnable-Leads {n} {me} below run s x acts start reach parked =
    let good = Reach-Good (start-Good n s start) reach in
    let p = (take_runnable me x.world).0 in
    let w = (take_runnable me x.world).1 in
    elim (take_runnable-tasks me below good.orderly) [
      | inl (none_left, _, _) ↦
          (let test : (p == null) ≡ true = ground arith in
            rw test (record {
              held = hold p x.held;
              made = x.made;
              reach = after here (take me x below);
            }))
      | inr (pos, first) ↦
          (let test : (p == null) ≡ false = ground arith in
            let x' : Scene = record x { world = w; held = p ∷ x.held } in
            let step : Reach n x x' =
              subst (λ h. Reach n x (record x { world = w; held = h }))
                (ap (λ b. if b then x.held else p ∷ x.held) test) (after here (take me x below)) in
            let rest =
              ran-Leads below p x.made run (acts p) x' refl
                (taken-Runs below x good parked pos first) (x.world.task p).is_pure in
            rw test
              (record { held = rest.held; made = rest.made; reach = Reach-trans step rest.reach }))
    ]
