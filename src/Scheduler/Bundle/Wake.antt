-- ===== src/Scheduler/Bundle/Wake.antt =====
-- The queues: the tasks of a bundle go to one, and the task that waits for them when it can run again.
use tythread.Base.{
  ℕ, ◌^◌, ◌<◌, ◌≡◌, refl, sym, ap, ◌∙◌, Bool, true, false, List, [], ◌∷◌, ◌++◌, length, update,
  update_self, Ptr, Absent, subst, eq_cases, inl, inr,
}
use tythread.Group.{new_group}
use tythread.Scheduler.{World, Task, terminate, go, set_state, set_pure, new_task}
use tythread.Scheduler.Bundle.{bundle, end_all, AllDistinct, joined, joined-mem, joined-mgr}
use tythread.Scheduler.Bundle.Join.{
  IsWaiting, waiting, waiting-IsWaiting, last-runnable, end_all-append,
}
use tythread.Scheduler.Shared.{IsOrderly, OthersKeep, add_runnable-Leaves}
use tythread.Scheduler.Steal.{tasks_of}
use tythread.Scheduler.Theft.{local-tasks, local-IsOrderly}
use tythread.Skiplist.{enqueue}
use tythread.Task.{group_wait, runnable, terminated}

Absent-++ : (p : Ptr) (xs ys : List Ptr) → Absent p xs → Absent p ys → Absent p (xs ++ ys)
Absent-++ p [] ys a b = b
Absent-++ p (x ∷ xs) ys (ne, a) b = (ne, Absent-++ p xs ys a b)

++-assoc : (xs : List Ptr) (y : Ptr) (ys : List Ptr) → (xs ++ y ∷ []) ++ ys ≡ xs ++ y ∷ ys
++-assoc [] y ys = refl
++-assoc (x ∷ xs) y ys = ap (λ l. x ∷ l) (++-assoc xs y ys)

++-none : (xs : List Ptr) → xs ≡ xs ++ []
++-none [] = refl
++-none (x ∷ xs) = ap (λ l. x ∷ l) (++-none xs)

-- The task is in no queue of the n threads.
abbrev pub InNone : ℕ → World → Ptr → Type 0
InNone n w p = (k : ℕ) → k < n → Absent p (tasks_of k w)

-- The tasks are not null and in no queue.
abbrev pub AllNew : ℕ → World → List Ptr → Type 0
AllNew n w [] = Unit
AllNew n w (p ∷ ps) = (0 < p) × InNone n w p × AllNew n w ps

-- The tasks ps have come to the queue of thread i, in order, and no other queue has changed.
pub record HasGot (n i : ℕ) (ps : List Ptr) (w w' : World) : Type 0 where
  pub orderly : IsOrderly n w'
  pub mine : tasks_of i w' ≡ tasks_of i w ++ ps
  pub others : OthersKeep n i w w'

-- A task that is none of them is in a queue only if it was.
got-InNone :
    {n i : ℕ} {ps : List Ptr} {w w' : World}
    → HasGot n i ps w w'
    → (t : Ptr) → Absent t ps
    → InNone n w t
    → InNone n w' t
got-InNone {i = i} {ps} {w} {w'} got t away none_has k below = elim (eq_cases k i) [
  | inl (_, e) ↦
      subst (λ j. Absent t (tasks_of j w')) (sym e)
        (subst (Absent t) (sym got.mine) (
          Absent-++ t (tasks_of i w) ps (subst (λ j. Absent t (tasks_of j w)) e (none_has k below))
            away))
  | inr (_, ne) ↦ subst (Absent t) (sym (got.others k below ne)) (none_has k below)
]

-- A world with the queues of another.
same-IsOrderly :
    {n : ℕ} (w w' : World)
    → w'.mem ≡ w.mem
    → w'.mgr ≡ w.mgr
    → IsOrderly n w
    → IsOrderly n w' × ((k : ℕ) → tasks_of k w' ≡ tasks_of k w)
same-IsOrderly w w' mem mgr o =
    let same = λ (k : ℕ). ap (λ f. (f k).runnable_queue) mgr in
    (local-IsOrderly w w' w.mem.counter mem same o, local-tasks w w' w.mem.counter mem same)

module _ {n me : ℕ} (below : me < n) (is_pure : Bool) (g : ℕ) where
  joined-HasGot :
      (p : Ptr) (w : World)
      → IsOrderly n w
      → 0 < p
      → InNone n w p
      → HasGot n me (p ∷ []) w (joined is_pure me g p w)
  unfolding go
  joined-HasGot p w o pos none_has =
      let c = update w.mem.counter p 1 in
      let w' : World = record w {
        mem = record w.mem { counter = c };
        task = update w.task p (set_pure is_pure (new_task false));
      } in
      let same = local-tasks w w' c refl (λ k. refl) in
      let o' = local-IsOrderly w w' c refl (λ k. refl) o in
      let (leaves, last) =
        add_runnable-Leaves me below o' p pos
          (λ k b. subst (Absent p) (sym (same k)) (none_has k b)) in
      let (o'', same') =
        same-IsOrderly (go is_pure me p w) (joined is_pure me g p w) (joined-mem is_pure me g p w)
          (joined-mgr is_pure me g p w) leaves.orderly in
      record {
        orderly = o'';
        mine = same' me ∙ last ∙ ap (λ l. l ++ p ∷ []) (same me);
        others = λ k b ne. same' k ∙ leaves.others k b ne ∙ same k;
      }

  rest-AllNew :
      (p : Ptr) (ps : List Ptr) {w w' : World}
      → HasGot n me (p ∷ []) w w'
      → Absent p ps
      → AllNew n w ps
      → AllNew n w' ps
  rest-AllNew p [] got away new = tt
  rest-AllNew p (q ∷ qs) got (ne, away) (pos, none_has, new) =
      (pos, got-InNone got q ((λ e. ne (sym e)), tt) none_has, rest-AllNew p qs got away new)

  bundle-HasGot :
      (ps : List Ptr) (w : World)
      → IsOrderly n w
      → AllDistinct ps
      → AllNew n w ps
      → HasGot n me ps w (bundle is_pure me g ps w)
  unfolding bundle joined
  bundle-HasGot [] w o distinct new = record {
    orderly = o;
    mine = ++-none (tasks_of me w);
    others = λ k b ne. refl;
  }
  bundle-HasGot (p ∷ ps) w o (away, distinct) (pos, none_has, new) =
      let w' = joined is_pure me g p w in
      let first = joined-HasGot p w o pos none_has in
      let rest = bundle-HasGot ps w' first.orderly distinct (rest-AllNew p ps first away new) in
      record {
        orderly = rest.orderly;
        mine = rest.mine ∙ ap (λ l. l ++ ps) first.mine ∙ ++-assoc (tasks_of me w) p ps;
        others = λ k b ne. rest.others k b ne ∙ first.others k b ne;
      }

-- The last task of the bundle ends: the task that waits is runnable and the last of a queue.
last-HasGot :
    {n : ℕ} (b w : World) (me g t q : ℕ)
    → me < n
    → 0 < t
    → IsOrderly n b
    → InNone n b t
    → IsWaiting b g t 1 (q ∷ []) w
    → HasGot n me (t ∷ []) w (terminate me q w)
      × (((terminate me q w).task t).state ≡ runnable)
      × ((terminate me q w).group g ≡ new_group)
unfolding enqueue
last-HasGot b w me g t q below pos o none_has v =
    let out = last-runnable me g t q w pos v in
    let w' : World =
      set_state t runnable
        (record w { task = (set_state q terminated w).task; group = update w.group g new_group }) in
    let (o', same) = same-IsOrderly b w' v.mem v.mgr o in
    let (o'', was) = same-IsOrderly b w v.mem v.mgr o in
    let (leaves, last) =
      add_runnable-Leaves me below o' t pos
        (λ k c. subst (Absent t) (sym (same k)) (none_has k c)) in
    (
      rw out (record {
        orderly = leaves.orderly;
        mine = last ∙ ap (λ l. l ++ t ∷ []) (same me ∙ sym (was me));
        others = λ k c ne. leaves.others k c ne ∙ same k ∙ sym (was k);
      }),
      ap (λ (x : World). (x.task t).state) out
          ∙ ap Task.state (update_self (set_state q terminated w).task t _),
      ap (λ (x : World). x.group g) out ∙ update_self w.group g new_group,
    )

-- Tasks that are not null, at different addresses and in no queue, fewer than 2 ^ 32, of which q is the
-- last, are made and registered one after another with a new group by thread `me`, one of n whose queues
-- are in a good state and apart; they stand in its queue in order. A task t, not null, none of them and
-- in no queue, then waits for them and yields, before any of them ends. When all but q have ended,
-- on any threads, it still waits and is in no queue. When q has ended too it is runnable and the last task
-- of the queue of the thread on which q ended, no other queue has changed, and the group is as new.
pub bundle-joins :
    {n me : ℕ} (below : me < n) (is_pure : Bool) (g t q : ℕ) (on : Ptr → ℕ) (ps : List Ptr)
    (w : World)
    → 0 < t
    → w.group g ≡ new_group
    → Absent t (ps ++ q ∷ [])
    → AllDistinct (ps ++ q ∷ [])
    → length (ps ++ q ∷ []) < 2 ^ 32
    → IsOrderly n w
    → AllNew n w (ps ++ q ∷ [])
    → InNone n w t
    → on q < n
    → let waits = waiting is_pure me g t q ps w in
      let before = end_all on ps waits.0 in
      let over = end_all on (ps ++ q ∷ []) waits.0 in
      (waits.1 ≡ true)
      × HasGot n me (ps ++ q ∷ []) w before
      × ((before.task t).state ≡ group_wait)
      × InNone n before t
      × HasGot n (on q) (t ∷ []) before over
      × ((over.task t).state ≡ runnable)
      × (over.group g ≡ new_group)
bundle-joins {n} {me} below is_pure g t q on ps w pos new away distinct small o all_new none_has
      there =
    let qs = ps ++ q ∷ [] in
    let b = bundle is_pure me g qs w in
    let w' = (waiting is_pure me g t q ps w).0 in
    let before = end_all on ps w' in
    let (yields, waits) = waiting-IsWaiting is_pure me g t q on ps w new away distinct small in
    let got = bundle-HasGot below is_pure g qs w o distinct all_new in
    let bare = got-InNone got t away none_has in
    let (o', same) = same-IsOrderly b before waits.mem waits.mgr got.orderly in
    let (woken, runs, done) = last-HasGot b before (on q) g t q there pos got.orderly bare waits in
    let all = end_all-append on ps q w' in
    (
      yields,
      record {
        orderly = o';
        mine = same me ∙ got.mine;
        others = λ k c ne. same k ∙ got.others k c ne;
      },
      waits.waits,
      λ k c. subst (Absent t) (sym (same k)) (bare k c),
      subst (HasGot n (on q) (t ∷ []) before) (sym all) woken,
      ap (λ (x : World). (x.task t).state) all ∙ runs,
      ap (λ (x : World). x.group g) all ∙ done,
    )
