-- ===== src/Scheduler/Interleave/Held.antt =====
-- The invariant of the steps, and what it says of the tasks that a thread holds.
use tythread.Base.{
  times, ℕ, ◌+◌, ◌^◌, ◌≤◌, ◌<◌, ◌≡◌, ap, inl, inr, arith, eq_cases, Ptr, null, Absent, length,
}
use tythread.Scheduler.Shared.{IsOrderly}
use tythread.Scheduler.Steal.{queue_of, tasks_of}
use tythread.Sum.{total, total-part}
use tythread.Scheduler.Sum.{weight, weight-length, mark, weight-times, times-Absent, Absent-times}
use tythread.Skiplist.{size}
use tythread.Skiplist.Stack.{IsValid, size-length}
use tythread.Scheduler.Interleave.{Scene}

-- Every task that was made is in one queue, or in one thread's hands.
pub record Good (n : ℕ) (x : Scene) : Type 0 where
  pub orderly : IsOrderly n x.world
  pub sum :
      (g : Ptr → ℕ)
      → total n (λ k. weight g (tasks_of k x.world)) + weight g x.held ≡ weight g x.made
  pub once : (a : Ptr) → times a x.made ≤ 1
  pub real : times null x.made ≡ 0
  pub few : length x.made < 2 ^ 30

module _ {n : ℕ} {x : Scene} (good : Good n x) where
  queue_part :
      (g : Ptr → ℕ) (k : ℕ)
      → k < n
      → weight g (tasks_of k x.world) + weight g x.held ≤ weight g x.made
  queue_part g k b =
      let part = total-part n k (λ k. weight g (tasks_of k x.world)) b in
      omega (arith, part, good.sum g)

  -- A held task is in no queue.
  pub held-Absent : (p : Ptr) → 0 < times p x.held → (k : ℕ) → k < n → Absent p (tasks_of k x.world)
  held-Absent p some k b =
      let part = queue_part (mark p) k b in
      times-Absent p (tasks_of k x.world) (
        omega (
          arith,
          part,
          good.once p,
          some,
          weight-times p (tasks_of k x.world),
          weight-times p x.held,
          weight-times p x.made,
        ))

  pub new-Absent : (p : Ptr) → Absent p x.made → (k : ℕ) → k < n → Absent p (tasks_of k x.world)
  new-Absent p new k b =
      let part = queue_part (mark p) k b in
      times-Absent p (tasks_of k x.world) (
        omega (
          arith,
          part,
          Absent-times p x.made new,
          weight-times p (tasks_of k x.world),
          weight-times p x.made,
        ))

  pub held_real : (p : Ptr) → 0 < times p x.held → 0 < p
  held_real p some = elim (eq_cases p null) [
    | inl (_, e) ↦
        (let few = ap (λ a. times a x.held) e in
          absurd (
            omega (
              arith,
              few,
              good.sum (mark null),
              good.real,
              weight-times null x.held,
              weight-times null x.made,
            )))
    | inr (_, ne) ↦ omega arith
  ]

  pub size_few : (k : ℕ) → k < n → size (queue_of k x.world) < 2 ^ 30
  size_few k b =
      let valid : IsValid x.world.mem (queue_of k x.world) = record {
        at = good.orderly.at k;
        stack = good.orderly.all.stacks k b;
      } in
      omega (
        arith,
        queue_part (λ _. 1) k b,
        size-length valid,
        good.few,
        weight-length (tasks_of k x.world),
        weight-length x.made,
      )
