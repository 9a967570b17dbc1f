-- ===== src/Scheduler/Interleave/Conserve.antt =====
-- No step loses or doubles a task.
use tythread.Base.{
  times, ℕ, suc, ◌+◌, ◌^◌, ◌≤◌, ◌<◌, ◌≡◌, refl, sym, ap, ◌∙◌, ◌≢◌, inl, inr, arith, Bool, [], ◌∷◌,
  eq_cases, ◌==◌, false, Ptr, null, Absent, length, update, subst,
}
use tythread.Scheduler.{World, Task, go, add_runnable, take_runnable, steal_from, erase}
use tythread.Scheduler.Shared.{
  IsOrderly, add_runnable-Leaves, take_runnable-Leaves, take_runnable-tasks,
}
use tythread.Scheduler.Steal.{queue_of, tasks_of}
use tythread.Sum.{total, total-same, total-zero}
use tythread.Scheduler.Sum.{weight, mark, weight-times, Absent-times, weight-erase}
use tythread.Scheduler.Theft.{steal_from-Robs, no_theft-tasks, local-tasks, local-IsOrderly}
use tythread.Task.{initial}
use tythread.Skiplist.{contents, size}
use tythread.Skiplist.Fill.{blank, empty-IsStack}
use tythread.Skiplist.Stack.{IsValid}
use tythread.Scheduler.Interleave.{
  Scene, Step, spawn, resume, take, steal_step, local, Reach, here, after, hold, IsStart,
}
use tythread.Scheduler.Interleave.Queued.{queued, queued-push, queued-pop, queued-move}
use tythread.Scheduler.Interleave.Held.{Good, held-Absent, new-Absent, held_real, size_few}

module _ {n : ℕ} {x : Scene} (good : Good n x) where
  -- The tasks in the queues are as before, and so are the held ones and those made.
  still-Good :
      (w' : World)
      → IsOrderly n w'
      → ((g : Ptr → ℕ) → queued n g w' ≡ queued n g x.world)
      → Good n (record x { world = w' })
  still-Good w' o e = record {
    orderly = o;
    sum = λ g. omega (arith, e g, good.sum g);
    once = good.once;
    real = good.real;
    few = good.few;
  }

  local-Good :
      (w' : World) (c : Ptr → ℕ)
      → w'.mem ≡ record x.world.mem { counter = c }
      → ((k : ℕ) → queue_of k w' ≡ queue_of k x.world)
      → Good n (record x { world = w' })
  local-Good w' c counts same =
      still-Good w' (local-IsOrderly x.world w' c counts same good.orderly)
        (λ g. total-same n _ _ (λ k b. ap (weight g) (local-tasks x.world w' c counts same k)))

  resume-Good :
      (me : ℕ) (p : Ptr)
      → me < n
      → 0 < times p x.held
      → Good n (record x { world = add_runnable me p x.world; held = erase p x.held })
  resume-Good me p below some =
      let (leaves, last) =
        add_runnable-Leaves me below good.orderly p (held_real good p some)
          (held-Absent good p some) in
      record {
        orderly = leaves.orderly;
        sum = λ g. omega (
          arith,
          queued-push x.world (add_runnable me p x.world) me below g p leaves.others last,
          good.sum g,
          weight-erase g p x.held some,
        );
        once = good.once;
        real = good.real;
        few = good.few;
      }

  take-Good :
      (me : ℕ)
      → me < n
      → Good n (record x {
        world = (take_runnable me x.world).1;
        held = hold (take_runnable me x.world).0 x.held;
      })
  unfolding weight
  take-Good me below =
      let leaves = take_runnable-Leaves me below good.orderly in
      record {
        orderly = leaves.orderly;
        sum = λ g. elim (take_runnable-tasks me below good.orderly) [
          | inl (e, bare, still) ↦
              (let same : queued n g (take_runnable me x.world).1 ≡ queued n g x.world =
                  total-same n _ _ (λ k b. elim (eq_cases k me) [
                    | inl (_, is) ↦ rw is (ap (weight g) (still ∙ sym bare))
                    | inr (_, ne) ↦ ap (weight g) (leaves.others k b ne)
                  ]) in
                rw e (omega (arith, same, good.sum g)))
          | inr (pos, e) ↦
              (let test : ((take_runnable me x.world).0 == null) ≡ false = ground arith in
                rw test (
                  omega (
                    arith,
                    queued-pop x.world (take_runnable me x.world).1 me below g
                        (take_runnable me x.world).0 leaves.others e,
                    good.sum g,
                  )))
        ];
        once = good.once;
        real = good.real;
        few = good.few;
      }

  steal-Good :
      (me i : ℕ)
      → me < n
      → i < n
      → i ≢ me
      → tasks_of me x.world ≡ []
      → Good n (record x { world = (steal_from me i x.world).1 })
  steal-Good me i mine below ne bare = elim (eq_cases (size (queue_of i x.world)) 0) [
    | inl (_, none_left) ↦
        (let (o, same) = no_theft-tasks me i below good.orderly none_left in
          still-Good (steal_from me i x.world).1 o
            (λ g. total-same n _ _ (λ k b. ap (weight g) (same k))))
    | inr (_, some) ↦
        (let robs =
            steal_from-Robs mine below ne good.orderly (omega arith) (size_few good i below) in
          still-Good (steal_from me i x.world).1 robs.orderly (λ g.
            queued-move x.world (steal_from me i x.world).1 me mine g i below ne bare robs.order
              robs.others))
  ]

  spawn-Good :
      (is_pure : Bool) (me : ℕ) (p : Ptr)
      → me < n
      → 0 < p
      → Absent p x.made
      → suc (length x.made) < 2 ^ 30
      → Good n (record { world = go is_pure me p x.world; held = x.held; made = p ∷ x.made })
  unfolding go weight
  spawn-Good is_pure me p below pos new room =
      let c = update x.world.mem.counter p 1 in
      let fresh : Task = record {
        state = initial;
        is_pure = is_pure;
        groups = [];
        blocked_by = 0;
      } in
      let w : World = record x.world {
        mem = record x.world.mem { counter = c };
        task = update x.world.task p fresh;
      } in
      let same = local-tasks x.world w c refl (λ k. refl) in
      let o = local-IsOrderly x.world w c refl (λ k. refl) good.orderly in
      let (leaves, last) =
        add_runnable-Leaves me below o p pos
          (λ k b. subst (Absent p) (sym (same k)) (new-Absent good p new k b)) in
      record {
        orderly = leaves.orderly;
        sum = λ g.
            (let before = total-same n _ _ (λ k b. ap (weight g) (same k)) in
              omega (
                arith,
                queued-push w (add_runnable me p w) me below g p leaves.others last,
                before,
                good.sum g,
              ));
        once = λ a. ground (arith, good.once a, Absent-times p x.made new);
        real = ground (arith, good.real);
        few = room;
      }

pub Step-Good : {n : ℕ} {x y : Scene} → Good n x → Step n x y → Good n y
Step-Good good (spawn is_pure me p x below pos new room) =
    spawn-Good good is_pure me p below pos new room
Step-Good good (resume me p x below some) = resume-Good good me p below some
Step-Good good (take me x below) = take-Good good me below
Step-Good good (steal_step me i x mine below ne bare) = steal-Good good me i mine below ne bare
Step-Good good (local w' c x counts same) = local-Good good w' c counts same

pub Reach-Good : {n : ℕ} {x y : Scene} → Good n x → Reach n x y → Good n y
Reach-Good good here = good
Reach-Good good (after r s) = Step-Good (Reach-Good good r) s

pub start-Good : (n : ℕ) (x : Scene) → IsStart x → Good n x
unfolding weight contents
start-Good n x start = record {
  orderly = record {
    at = λ _ _ _. 0;
    all = record {
      stacks = λ k b. rw (start.mem, start.bare k) (empty-IsStack blank (omega arith));
      apart = λ k l b c ne.
          rw (start.bare k, start.bare l)
            (record {
              task = λ a (q, y, z, e). absurd (omega arith);
              node = λ i j a h h' (q, y, z, e). absurd (omega arith);
            });
    };
  };
  sum = λ g.
      rw (start.none_held, start.none_made)
        (ap (λ t. t + 0) (total-zero n _ (λ k b. rw (start.mem, start.bare k) refl)));
  once = λ a. rw start.none_made (omega arith);
  real = rw start.none_made refl;
  few = rw start.none_made (omega arith);
}

pub Reach-IsOrderly : (n : ℕ) (x y : Scene) → IsStart x → Reach n x y → IsOrderly n y.world
Reach-IsOrderly n x y start reach = (Reach-Good (start-Good n x start) reach).orderly

-- The threads start with empty queues. Then, whatever steps they take in whatever order, all n queues
-- stay in a good state, and every task made is in exactly one place, in one queue or in one thread's
-- hands; a task not made is nowhere. In these steps fewer than 2 ^ 30 tasks are made, each at an address
-- not null and not used yet, only a task in hands is resumed, and only a thread with no task steals.
pub Reach-once :
    (n : ℕ) (x y : Scene)
    → IsStart x
    → Reach n x y
    → (k : ℕ) → k < n
    → (a : Ptr)
    → IsValid y.world.mem (queue_of k y.world)
      × (total n (λ k. times a (tasks_of k y.world)) + times a y.held ≡ times a y.made)
      × (times a y.made ≤ 1)
Reach-once n x y start reach k below a =
    let good = Reach-Good (start-Good n x start) reach in
    let same =
      total-same n (λ k. times a (tasks_of k y.world)) (λ k. weight (mark a) (tasks_of k y.world))
        (λ k b. sym (weight-times a (tasks_of k y.world))) in
    (
      record { at = good.orderly.at k; stack = good.orderly.all.stacks k below },
      omega (arith, same, good.sum (mark a), weight-times a y.held, weight-times a y.made),
      good.once a,
    )
