-- ===== src/Scheduler/Steal.antt =====
-- Stealing moves tasks from one thread to another, and loses and doubles none.
use tythread.Base.{
  ℕ, ◌^◌, ◌<◌, ◌≡◌, refl, sym, ap, ap₂, ◌∙◌, ◌≢◌, Bool, true, false, List, ◌++◌, update,
  update_self, update-ne, subst, Option, none, some,
}
use tythread.Scheduler.{World, PerThreadMgr, steal_from}
use tythread.Skiplist.{Skiplist, contents, size, replace}
use tythread.Skiplist.Half.{dequeue_half}
use tythread.Skiplist.Half.Steal.{dequeue_half-IsHalved, dequeue_half-empty}
use tythread.Skiplist.Stack.{IsValid}

abbrev pub queue_of : ℕ → World → Skiplist
queue_of i w = (w.mgr i).runnable_queue

abbrev pub tasks_of : ℕ → World → List ℕ
tasks_of i w = contents w.mem (queue_of i w)

-- What a theft of `me` from i has done, from w to w'.
pub record IsStolen (me i : ℕ) (w w' : World) : Type 0 where
  pub thief_valid : IsValid w'.mem (queue_of me w')
  pub victim_valid : IsValid w'.mem (queue_of i w')
  pub order : tasks_of i w ≡ tasks_of me w' ++ tasks_of i w'
  pub progress : 0 < size (queue_of me w')
  pub counters : w'.mem.counter ≡ w.mem.counter
  pub others : (j : ℕ) → j ≢ me → j ≢ i → w'.mgr j ≡ w.mgr j
  pub blocked : (w'.mgr me).mpi_blocked_queue ≡ (w.mgr me).mpi_blocked_queue

module _ (me i : ℕ) (w : World) where
  unfoldable pub taken : Skiplist → Bool × World
  unfolding replace
  taken q =
      let (r, s, m) = dequeue_half w.mem (queue_of i w) in
      let mgr = update w.mgr i (record (w.mgr i) { runnable_queue = s }) in
      (
        true,
        record w {
          mem = m;
          mgr = update mgr me (record (mgr me) { runnable_queue = (replace q).0 });
        },
      )

  pub by_result :
      (r : Option Skiplist)
      → (dequeue_half w.mem (queue_of i w)).0 ≡ r
      → steal_from me i w ≡ (elim r [
        | none ↦ (
          false,
          record w {
            mem = (dequeue_half w.mem (queue_of i w)).2;
            mgr =
                update w.mgr i
                  (record (w.mgr i) { runnable_queue = (dequeue_half w.mem (queue_of i w)).1 });
          },
        )
        | some q ↦ taken q
      ])
  unfolding steal_from taken
  by_result r e =
      let d = dequeue_half w.mem (queue_of i w) in
      ap
        (λ o. elim o as (λ _. Bool × World) [
          | none ↦ (
            false,
            record w {
              mem = d.2;
              mgr = update w.mgr i (record (w.mgr i) { runnable_queue = d.1 });
            },
          )
          | some q ↦ taken q
        ])
        e

-- On a victim queue in a good state with at least one task and fewer than 2 ^ 30, of another thread, a
-- theft succeeds: the thief has a first part of the victim's tasks, at least one, and the victim the
-- others, in order, both queues in a good state; no reference count and no other thread changes.
pub steal_from-IsStolen :
    (me i : ℕ) (w : World)
    → i ≢ me
    → IsValid w.mem (queue_of i w)
    → 0 < size (queue_of i w)
    → size (queue_of i w) < 2 ^ 30
    → ((steal_from me i w).0 ≡ true) × IsStolen me i w (steal_from me i w).1
unfolding taken replace
steal_from-IsStolen me i w other v some_task few =
    let h = dequeue_half-IsHalved v some_task few in
    rw (by_result me i w (some h.stolen) h.is_stolen) (
      refl,
      (let d = dequeue_half w.mem (queue_of i w) in
          let left : PerThreadMgr = record (w.mgr i) { runnable_queue = d.1 } in
          let mgr = update w.mgr i left in
          let won : PerThreadMgr = record (mgr me) { runnable_queue = h.stolen } in
          let mgr' = update mgr me won in
          let thief : (mgr' me).runnable_queue ≡ h.stolen =
            ap PerThreadMgr.runnable_queue (update_self mgr me won) in
          let victim : (mgr' i).runnable_queue ≡ d.1 =
            ap PerThreadMgr.runnable_queue
              (update-ne mgr me i won other ∙ update_self w.mgr i left) in
          record {
            thief_valid = subst (IsValid d.2) (sym thief) h.stolen_valid;
            victim_valid = subst (IsValid d.2) (sym victim) h.rest_valid;
            order =
                h.order ∙ ap₂ (λ a b. contents d.2 a ++ contents d.2 b) (sym thief) (sym victim);
            progress = subst (λ s. 0 < size s) (sym thief) h.progress;
            counters = h.counters;
            others = λ j a b. update-ne mgr me j won a ∙ update-ne w.mgr i j left b;
            blocked =
                ap PerThreadMgr.mpi_blocked_queue (update_self mgr me won)
                ∙ ap PerThreadMgr.mpi_blocked_queue
                    (update-ne w.mgr i me left (λ e. other (sym e)));
          }),
    )

-- On an empty victim queue in a good state a theft fails and leaves the world as it is.
pub steal_from-empty :
    (me i : ℕ) (w : World)
    → IsValid w.mem (queue_of i w)
    → size (queue_of i w) ≡ 0
    → ((steal_from me i w).0 ≡ false)
      × ((steal_from me i w).1.mem ≡ w.mem)
      × (queue_of i (steal_from me i w).1 ≡ queue_of i w)
steal_from-empty me i w v bare =
    let e = dequeue_half-empty v bare in
    rw (by_result me i w none (ap (λ r. r.0) e)) (
      refl,
      ap (λ r. r.2) e,
      ap PerThreadMgr.runnable_queue (
            update_self w.mgr i
              (record (w.mgr i) { runnable_queue = (dequeue_half w.mem (queue_of i w)).1 }))
          ∙ ap (λ r. r.1) e,
    )
