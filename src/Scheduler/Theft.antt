-- ===== src/Scheduler/Theft.antt =====
-- A theft, with the queues of all threads in one memory.
use tythread.Base.{
  ℕ, ◌^◌, ◌<◌, ◌≡◌, refl, sym, ap, ap₂, ◌∙◌, ◌≢◌, inl, inr, ◌++◌, eq_cases, Ptr, update,
  update_self, update-ne, none, some,
}
use tythread.Scheduler.{World, steal_from}
use tythread.Scheduler.Shared.{
  IsOrderly, put-AreApart, one-AreApart, kept-Apart, kept-contents, null-away, with_queue,
  with_queue-here, with_queue-else, queues,
}
use tythread.Scheduler.Steal.{queue_of, tasks_of, taken, by_result}
use tythread.Scheduler.Spawn.{recounted-IsStack}
use tythread.Skiplist.{contents, size, replace}
use tythread.Skiplist.Half.{dequeue_half}
use tythread.Skiplist.Half.Steal.{dequeue_half-Splits, dequeue_half-empty, Splits-order}
use tythread.Skiplist.Frame.{Apart}

-- What a theft of `me` from i leaves.
pub record Robs (n me i : ℕ) (w w' : World) : Type 0 where
  pub orderly : IsOrderly n w'
  pub order : tasks_of i w ≡ tasks_of me w' ++ tasks_of i w'
  pub others : (k : ℕ) → k < n → k ≢ me → k ≢ i → tasks_of k w' ≡ tasks_of k w

module _ {n me i : ℕ} {w : World} (mine : me < n) (below : i < n) (other : i ≢ me)
    (o : IsOrderly n w) (some_task : 0 < size (queue_of i w))
    (few : size (queue_of i w) < 2 ^ 30) where
  pub steal_from-Robs : Robs n me i w (steal_from me i w).1
  unfolding taken replace
  steal_from-Robs =
      let stack = o.all.stacks i below in
      let splits = dequeue_half-Splits stack some_task few in
      let d = dequeue_half w.mem (queue_of i w) in
      let away = λ (k : ℕ) (b : k < n) (ne : k ≢ i). null-away (o.all.stacks k b) in
      let half = with_queue i w d.2 d.1 in
      let rest =
        one-AreApart o.all i below splits.touches away splits.back splits.behind (queues half)
          (with_queue-here i w d.2 d.1) (with_queue-else i w d.2 d.1) in
      let new_apart : (k : ℕ)
          → k < n
          → k ≢ me
          → Apart splits.stolen (o.at i) (queues half k) (update o.at i (o.at i) k) =
        λ k b ne. elim (eq_cases k i) [
          | inl (_, e) ↦
              rw (e, with_queue-here i w d.2 d.1, update_self o.at i (o.at i)) splits.apart
          | inr (_, off) ↦
              rw (with_queue-else i w d.2 d.1 k off, update-ne o.at i k (o.at i) off)
                (kept-Apart o.all i below splits.touches away splits.ahead k b off)
        ] in
      let done = with_queue me half d.2 splits.stolen in
      rw (by_result me i w (some splits.stolen) splits.is_stolen) (record {
        orderly = record {
          at = update (update o.at i (o.at i)) me (o.at i);
          all =
              put-AreApart me (λ k b ne. rest.stacks k b) rest.apart splits.front new_apart
                (queues done) (with_queue-here me half d.2 splits.stolen)
                (with_queue-else me half d.2 splits.stolen);
        };
        order =
            Splits-order stack splits
            ∙ ap₂ (λ a b. contents d.2 a ++ contents d.2 b)
                (sym (with_queue-here me half d.2 splits.stolen))
                (sym (
                  with_queue-else me half d.2 splits.stolen i other ∙ with_queue-here i w d.2 d.1));
        others = λ k b ne off.
            ap (contents d.2)
              (with_queue-else me half d.2 splits.stolen k ne ∙ with_queue-else i w d.2 d.1 k off)
            ∙ kept-contents o.all i below splits.touches away k b off;
      })

-- What leaves memory and queues, but for the reference counters.
module _ (w w' : World) (c : Ptr → ℕ) (counts : w'.mem ≡ record w.mem { counter = c })
    (same : (k : ℕ) → queue_of k w' ≡ queue_of k w) where
  pub local-tasks : (k : ℕ) → tasks_of k w' ≡ tasks_of k w
  unfolding contents
  local-tasks k = ap₂ contents counts (same k)

  pub local-IsOrderly : {n : ℕ} → IsOrderly n w → IsOrderly n w'
  local-IsOrderly o = record {
    at = o.at;
    all = record {
      stacks = λ k b. rw (counts, same k) (recounted-IsStack c (o.all.stacks k b));
      apart = λ k l a b ne. rw (same k, same l) (o.all.apart k l a b ne);
    };
  }

module _ {n : ℕ} (me i : ℕ) {w : World} (below : i < n) (o : IsOrderly n w) where
  pub no_theft :
      size (queue_of i w) ≡ 0 → (steal_from me i w).1 ≡ with_queue i w w.mem (queue_of i w)
  no_theft bare =
      let e = dequeue_half-empty (record { at = o.at i; stack = o.all.stacks i below }) bare in
      rw (by_result me i w none (ap (λ r. r.0) e))
        (ap₂ (with_queue i w) (ap (λ r. r.2) e) (ap (λ r. r.1) e))

  pub unchanged : (k : ℕ) → queue_of k (with_queue i w w.mem (queue_of i w)) ≡ queue_of k w
  unchanged k = elim (eq_cases k i) [
    | inl (_, e) ↦ rw e (with_queue-here i w w.mem (queue_of i w))
    | inr (_, ne) ↦ with_queue-else i w w.mem (queue_of i w) k ne
  ]

  -- Nothing is stolen from an empty queue, and no queue changes.
  pub no_theft-tasks :
      size (queue_of i w) ≡ 0
      → IsOrderly n (steal_from me i w).1
        × ((k : ℕ) → tasks_of k (steal_from me i w).1 ≡ tasks_of k w)
  no_theft-tasks bare = rw (no_theft bare) (
    local-IsOrderly w (with_queue i w w.mem (queue_of i w)) w.mem.counter refl unchanged o,
    local-tasks w (with_queue i w w.mem (queue_of i w)) w.mem.counter refl unchanged,
  )
