-- ===== src/Scheduler/Shared.antt =====
-- The queues of all threads live in one memory: what a thread does to one leaves the others as they are.
use tythread.Base.{
  ◌-◌, ◌⊎◌, ℕ, ◌<◌, ◌≡◌, refl, sym, ap, ap₂, ◌∙◌, ◌≢◌, inl, inr, arith, [], ◌∷◌, ◌++◌, eq_cases,
  Ptr, null, update, update_self, update-ne, subst, Absent,
}
use tythread.Scheduler.{World, PerThreadMgr, take_runnable, add_runnable}
use tythread.Scheduler.Steal.{queue_of, tasks_of}
use tythread.Skiplist.{Mem, Skiplist, contents, dequeue, enqueue}
use tythread.Skiplist.Frame.{
  In, Touches, Within, Apart, Apart-sym, Touches-refl, Within-refl, frame-IsStack, frame-contents,
  Within-Apart,
}
use tythread.Skiplist.Dequeue.{dequeue-IsStack, dequeue-null, contents-dequeue}
use tythread.Skiplist.Popped.{dequeue-Touches, dequeue-Within}
use tythread.Skiplist.Enqueue.{Absent-slice, enqueue-Enqueued}
use tythread.Skiplist.Updated.{Enqueued-contents}
use tythread.Skiplist.Stack.{IsStack, IsValid, contents-slice}

-- The queues of the first n threads are in a good state, and no two share a task or a skip node.
pub record AreApart (n : ℕ) (m : Mem) (queue : ℕ → Skiplist) (at : ℕ → ℕ → ℕ → Ptr) : Type 0 where
  pub stacks : (k : ℕ) → k < n → IsStack m (queue k) (at k)
  pub apart : (k l : ℕ) → k < n → l < n → k ≢ l → Apart (queue k) (at k) (queue l) (at l)

-- A queue takes the place of thread i's, and shares nothing with the others.
module _ {n : ℕ} {m : Mem} {queue : ℕ → Skiplist} {at : ℕ → ℕ → ℕ → Ptr} (i : ℕ)
    (stacks : (k : ℕ) → k < n → k ≢ i → IsStack m (queue k) (at k))
    (apart : (k l : ℕ) → k < n → l < n → k ≢ l → Apart (queue k) (at k) (queue l) (at l))
    {s' : Skiplist} {at' : ℕ → ℕ → Ptr} (stack : IsStack m s' at')
    (new_apart : (k : ℕ) → k < n → k ≢ i → Apart s' at' (queue k) (at k)) (queue' : ℕ → Skiplist)
    (here : queue' i ≡ s') (same : (k : ℕ) → k ≢ i → queue' k ≡ queue k) where
  pub put-AreApart : AreApart n m queue' (update at i at')
  put-AreApart = record {
    stacks = λ k b. elim (eq_cases k i) [
      | inl (_, e) ↦ rw (e, here, update_self at i at') stack
      | inr (_, ne) ↦ rw (same k ne, update-ne at i k at' ne) (stacks k b ne)
    ];
    apart = λ k l b c ne. elim (eq_cases k i) [
      | inl (_, e) ↦
          (let other : l ≢ i = λ x. ne (e ∙ sym x) in
            rw (e, here, update_self at i at', same l other, update-ne at i l at' other)
              (new_apart l c other))
      | inr (_, off) ↦ elim (eq_cases l i) [
        | inl (_, e) ↦
            rw (e, here, update_self at i at', same k off, update-ne at i k at' off)
              (Apart-sym (new_apart k b off))
        | inr (_, other) ↦
            rw (same k off, update-ne at i k at' off, same l other, update-ne at i l at' other)
              (apart k l b c ne)
      ]
    ];
  }

-- An operation on the queue of thread i leaves the others as they are.
module _ {n : ℕ} {m : Mem} {queue : ℕ → Skiplist} {at : ℕ → ℕ → ℕ → Ptr}
    (all : AreApart n m queue at) (i : ℕ) (below : i < n) {m' : Mem} {p : Ptr}
    (touches : Touches m m' (queue i) (at i) p)
    (away : (k : ℕ) → k < n → k ≢ i → ¬ In (queue k) (at k) 0 p) where
  pub kept-IsStack : (k : ℕ) → k < n → k ≢ i → IsStack m' (queue k) (at k)
  kept-IsStack k b ne =
      frame-IsStack (all.stacks k b) touches (all.apart i k below b (λ e. ne (sym e))) (away k b ne)

  pub kept-contents : (k : ℕ) → k < n → k ≢ i → contents m' (queue k) ≡ contents m (queue k)
  kept-contents k b ne =
      frame-contents (all.stacks k b) touches (all.apart i k below b (λ e. ne (sym e)))
        (away k b ne)

  pub kept-Apart :
      {s' : Skiplist} {at' : ℕ → ℕ → Ptr}
      → Within m (queue i) (at i) s' at' p
      → (k : ℕ) → k < n
      → k ≢ i
      → Apart s' at' (queue k) (at k)
  kept-Apart within k b ne =
      Within-Apart (all.stacks k b) touches (all.apart i k below b (λ e. ne (sym e))) (away k b ne)
        within

  pub one-AreApart :
      {s' : Skiplist} {at' : ℕ → ℕ → Ptr}
      → IsStack m' s' at'
      → Within m (queue i) (at i) s' at' p
      → (queue' : ℕ → Skiplist) → queue' i ≡ s'
      → ((k : ℕ) → k ≢ i → queue' k ≡ queue k)
      → AreApart n m' queue' (update at i at')
  one-AreApart stack within queue' here same =
      put-AreApart i kept-IsStack all.apart stack (kept-Apart within) queue' here same

pub null-away : {m : Mem} {s : Skiplist} {at : ℕ → ℕ → Ptr} → IsStack m s at → ¬ In s at 0 null
null-away stack (q, x, y, e) = omega (arith, (stack.rows 0 (omega arith)).real q x y, e)

abbrev pub queues : World → ℕ → Skiplist
queues w k = queue_of k w

-- All queues of the world are in a good state and apart.
pub record IsOrderly (n : ℕ) (w : World) : Type 0 where
  pub at : ℕ → ℕ → ℕ → Ptr
  pub all : AreApart n w.mem (queues w) at

-- From w to w' only thread i's queue has other tasks.
abbrev pub OthersKeep : ℕ → ℕ → World → World → Type 0
OthersKeep n i w w' = (k : ℕ) → k < n → k ≢ i → tasks_of k w' ≡ tasks_of k w

-- The world with memory m, and s for the queue of thread i.
abbrev pub with_queue : ℕ → World → Mem → Skiplist → World
with_queue i w m s = record w {
  mem = m;
  mgr = update w.mgr i (record (w.mgr i) { runnable_queue = s });
}

pub with_queue-here :
    (i : ℕ) (w : World) (m : Mem) (s : Skiplist) → queue_of i (with_queue i w m s) ≡ s
with_queue-here i w m s =
    ap PerThreadMgr.runnable_queue (update_self w.mgr i (record (w.mgr i) { runnable_queue = s }))

pub with_queue-else :
    (i : ℕ) (w : World) (m : Mem) (s : Skiplist) (k : ℕ)
    → k ≢ i
    → queue_of k (with_queue i w m s) ≡ queue_of k w
with_queue-else i w m s k ne =
    ap PerThreadMgr.runnable_queue
      (update-ne w.mgr i k (record (w.mgr i) { runnable_queue = s }) ne)

module _ {n : ℕ} (i : ℕ) {w : World} (below : i < n) (o : IsOrderly n w) {m' : Mem} {p : Ptr}
    (touches : Touches w.mem m' (queue_of i w) (o.at i) p)
    (away : (k : ℕ) → k < n → k ≢ i → ¬ In (queue_of k w) (o.at k) 0 p) (s' : Skiplist) where
  with_queue-IsOrderly :
      {at' : ℕ → ℕ → Ptr}
      → IsStack m' s' at'
      → Within w.mem (queue_of i w) (o.at i) s' at' p
      → IsOrderly n (with_queue i w m' s')
  with_queue-IsOrderly {at'} stack within = record {
    at = update o.at i at';
    all =
        one-AreApart o.all i below touches away stack within (queues (with_queue i w m' s'))
          (with_queue-here i w m' s') (with_queue-else i w m' s');
  }

  with_queue-OthersKeep : OthersKeep n i w (with_queue i w m' s')
  with_queue-OthersKeep k b ne =
      ap (contents m') (with_queue-else i w m' s' k ne)
      ∙ kept-contents o.all i below touches away k b ne

Absent-In :
    {m : Mem} {s : Skiplist} {at : ℕ → ℕ → Ptr} {p : Ptr}
    → IsStack m s at
    → Absent p (contents m s)
    → ¬ In s at 0 p
Absent-In {m} {s} {at} {p} stack absent (q, x, y, e) =
    Absent-slice (at 0) (s.tail_off - s.head_off) s.head_off
      (subst (Absent p) (contents-slice stack) absent) q x (omega arith) e

-- What is left in order by an operation on the queue of thread i.
pub record Leaves (n i : ℕ) (w w' : World) : Type 0 where
  pub orderly : IsOrderly n w'
  pub others : OthersKeep n i w w'

module _ {n : ℕ} (i : ℕ) {w : World} (below : i < n) (o : IsOrderly n w) where
  -- A task that stands in no queue becomes the last of thread i's.
  pub add_runnable-Leaves :
      (p : Ptr)
      → 0 < p
      → ((k : ℕ) → k < n → Absent p (tasks_of k w))
      → Leaves n i w (add_runnable i p w)
        × (tasks_of i (add_runnable i p w) ≡ tasks_of i w ++ p ∷ [])
  unfolding add_runnable
  add_runnable-Leaves p pos absent =
      let stack = o.all.stacks i below in
      let done = enqueue-Enqueued stack p pos (absent i below) in
      let away = λ (k : ℕ) (b : k < n) (ne : k ≢ i). Absent-In (o.all.stacks k b) (absent k b) in
      let out = enqueue p w.mem (queue_of i w) in
      (
        record {
          orderly = with_queue-IsOrderly i below o done.touches away out.1 done.stack done.within;
          others = with_queue-OthersKeep i below o done.touches away out.1;
        },
        ap (contents out.0) (with_queue-here i w out.0 out.1) ∙ Enqueued-contents stack p done,
      )

  take_runnable-with :
      (out : Ptr × Mem × Skiplist)
      → dequeue w.mem (queue_of i w) ≡ out
      → take_runnable i w ≡ (out.0, with_queue i w out.1 out.2)
  unfolding take_runnable
  take_runnable-with out e = ap (λ d. (d.0, with_queue i w d.1 d.2)) e

  -- The first task of thread i's queue, if there is one, leaves it.
  pub take_runnable-tasks :
      ((take_runnable i w).0 ≡ null) × (tasks_of i w ≡ []) × (tasks_of i (take_runnable i w).1 ≡ [])
      ⊎ (0 < (take_runnable i w).0)
        × (tasks_of i w ≡ (take_runnable i w).0 ∷ tasks_of i (take_runnable i w).1)
  unfolding take_runnable
  take_runnable-tasks =
      let out = dequeue w.mem (queue_of i w) in
      let here = with_queue-here i w out.1 out.2 in
      let v : IsValid w.mem (queue_of i w) = record { at = o.at i; stack = o.all.stacks i below } in
      elim (contents-dequeue v) [
        | inl (bare, ep, em, es) ↦
            inl (ep, bare, ap (contents out.1) here ∙ ap₂ contents em es ∙ bare)
        | inr (pos, e, _, _) ↦ inr (pos, e ∙ ap (λ t. out.0 ∷ contents out.1 t) (sym here))
      ]

  pub take_runnable-Leaves : Leaves n i w (take_runnable i w).1
  take_runnable-Leaves =
      let stack = o.all.stacks i below in
      let away = λ (k : ℕ) (b : k < n) (ne : k ≢ i). null-away (o.all.stacks k b) in
      elim (eq_cases (queue_of i w).head null) [
        | inl (_, bare) ↦
            (let gone = take_runnable-with _ (dequeue-null w.mem (queue_of i w) bare) in
              let touches = Touches-refl w.mem (queue_of i w) (o.at i) null in
              let within = Within-refl w.mem (queue_of i w) (o.at i) null in
              rw gone (record {
                orderly = with_queue-IsOrderly i below o touches away (queue_of i w) stack within;
                others = with_queue-OthersKeep i below o touches away (queue_of i w);
              }))
        | inr (_, some) ↦
            (let touches = dequeue-Touches stack some null in
              let out = dequeue w.mem (queue_of i w) in
              rw (take_runnable-with out refl) (record {
                orderly =
                    with_queue-IsOrderly i below o touches away out.2 (dequeue-IsStack stack some)
                      (dequeue-Within stack some null);
                others = with_queue-OthersKeep i below o touches away out.2;
              }))
      ]
