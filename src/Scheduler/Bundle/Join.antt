-- ===== src/Scheduler/Bundle/Join.antt =====
-- The groups: a task waits for a bundle until the last task of the bundle has ended.
use tythread.Base.{
  ℕ, suc, ◌+◌, ◌^◌, ◌<◌, ◌≡◌, refl, sym, ap, ◌∙◌, ◌≢◌, arith, Bool, true, false, ◌==◌,
  if◌then◌else◌, List, [], ◌∷◌, ◌++◌, length, update, update_self, update-ne, Ptr, null, Absent,
  subst,
}
use tythread.Group.{Group, new_group, int_pred, inform_done, must_wait, resume_if_nothing_to_wait}
use tythread.Scheduler.{
  World, Task, inform_group, inform_all, terminate, set_state, add_runnable,
  handle_after_continuation_out,
}
use tythread.Task.{group_wait, runnable, terminated}
use tythread.Scheduler.Bundle.{
  bundle, bundle_wait, end_all, Registered, AllDistinct, Registered-else, IsBundle, bundle-IsBundle,
}

-- The task t waits at the group for the k tasks of the list, and the queues are those of v.
pub record IsWaiting (v : World) (g : ℕ) (t : Ptr) (k : ℕ) (ps : List Ptr) (w : World)
    : Type 0 where
  pub mem : w.mem ≡ v.mem
  pub mgr : w.mgr ≡ v.mgr
  pub group : w.group g ≡ record { blocking_count = k; blocked_task = t }
  pub waits : (w.task t).state ≡ group_wait
  pub registered : Registered g ps w

-- A task that is to wait at a group that is not done.
handle_wait :
    (me t g : ℕ) (w : World)
    → (w.task t).state ≡ group_wait
    → (w.task t).blocked_by ≡ g
    → (w.group g).blocking_count ≢ 0
    → handle_after_continuation_out me t w
      ≡ record w { group = update w.group g (record (w.group g) { blocked_task = t }) }
unfolding handle_after_continuation_out resume_if_nothing_to_wait
handle_wait me t g w e by some_left =
    let test : ((w.group g).blocking_count == 0) ≡ false = ground arith in
    rw (handle_after_continuation_out, e, by, test) refl

bundle_wait-IsWaiting :
    (me t g n : ℕ) (ps : List Ptr) (w : World)
    → Absent t ps
    → IsBundle g (suc n) ps w
    → IsWaiting w g t (suc n) ps (bundle_wait me t g w).0 × ((bundle_wait me t g w).1 ≡ true)
unfolding bundle_wait must_wait
bundle_wait-IsWaiting me t g n ps w away b =
    let waiting : Task = record (w.task t) { state = group_wait; blocked_by = g } in
    let w' : World = record w { task = update w.task t waiting } in
    let self = update_self w.task t waiting in
    let count : (w.group g).blocking_count ≡ suc n = ap Group.blocking_count b.group in
    let test : ((w.group g).blocking_count == 0) ≡ false = ground (arith, count) in
    let out =
      handle_wait me t g w' (ap Task.state self) (ap Task.blocked_by self)
        (λ z. omega (arith, z, count)) in
    rw (test, out)
      (
        record {
          mem = refl;
          mgr = refl;
          group =
              update_self w.group g _
              ∙ ap (λ k. record { blocking_count = k; blocked_task = t }) count;
          waits = ap Task.state self;
          registered =
              Registered-else g t ps w
                (record w' { group = update w.group g (record (w.group g) { blocked_task = t }) })
                away (λ q ne. ap Task.groups (update-ne w.task t q waiting ne)) b.registered;
        },
        refl,
      )

-- A member of one group only ends.
terminate-one :
    (me p g : ℕ) (w : World)
    → (w.task p).groups ≡ g ∷ []
    → terminate me p w ≡ inform_group me g (set_state p terminated w)
unfolding terminate inform_all
terminate-one me p g w e = ap (λ gs. inform_all me gs (set_state p terminated w)) e

inform-more :
    (me g k t : ℕ) (w : World)
    → suc (suc k) < 2 ^ 32
    → w.group g ≡ record { blocking_count = suc (suc k); blocked_task = t }
    → inform_group me g w
      ≡ record w { group = update w.group g (record { blocking_count = suc k; blocked_task = t }) }
unfolding inform_group inform_done
inform-more me g k t w small e =
    let less : int_pred (suc (suc k)) ≡ suc k = omega arith in
    let some_left : (suc k == 0) ≡ false = ground arith in rw (e, less, some_left) refl

-- What a member does with the result of `informDone`.
told : ℕ → ℕ → World → Group × Ptr → World
told me g w o =
    if o.1 == null
    then record w { group = update w.group g o.0 }
    else add_runnable me o.1 (set_state o.1 runnable (record w { group = update w.group g o.0 }))

told-some :
    (me g t : ℕ) (h : Group) (w : World)
    → 0 < t
    → told me g w (h, t)
      ≡ add_runnable me t (set_state t runnable (record w { group = update w.group g h }))
unfolding told
told-some me g t h w pos = let real : (t == null) ≡ false = ground arith in rw real refl

inform_group-told :
    (me g : ℕ) (w : World) → inform_group me g w ≡ told me g w (inform_done (w.group g))
unfolding inform_group told
inform_group-told me g w = refl

inform-last :
    (me g t : ℕ) (w : World)
    → 0 < t
    → w.group g ≡ record { blocking_count = 1; blocked_task = t }
    → inform_group me g w
      ≡ add_runnable me t (set_state t runnable (record w { group = update w.group g new_group }))
unfolding inform_done
inform-last me g t w pos e =
    inform_group-told me g w
    ∙ ap (λ h. told me g w (inform_done h)) e
    ∙ told-some me g t new_group w pos

-- A member ends, not the last.
step-IsWaiting :
    {b : World} (me g k t p : ℕ) (ps : List Ptr) (w : World)
    → suc (suc k) < 2 ^ 32
    → p ≢ t
    → Absent p ps
    → IsWaiting b g t (suc (suc k)) (p ∷ ps) w
    → IsWaiting b g t (suc k) ps (terminate me p w)
step-IsWaiting me g k t p ps w small other away v =
    let over : Task = record (w.task p) { state = terminated } in
    let w' = set_state p terminated w in
    let w'' : World = record w' {
      group = update w'.group g (record { blocking_count = suc k; blocked_task = t });
    } in
    let out = terminate-one me p g w v.registered.0 ∙ inform-more me g k t w' small v.group in
    rw out (record {
      mem = v.mem;
      mgr = v.mgr;
      group = update_self w.group g _;
      waits = ap Task.state (update-ne w.task p t over (λ e. other (sym e))) ∙ v.waits;
      registered =
          Registered-else g p ps w w'' away (λ q ne. ap Task.groups (update-ne w.task p q over ne))
            v.registered.1;
    })

-- The last member ends: t, which is runnable, goes to the queue of the thread.
pub last-runnable :
    {b : World} (me g t p : ℕ) (w : World)
    → 0 < t
    → IsWaiting b g t 1 (p ∷ []) w
    → terminate me p w
      ≡ add_runnable me t (
          set_state t runnable (record w {
            task = (set_state p terminated w).task;
            group = update w.group g new_group;
          }))
last-runnable me g t p w pos v =
    terminate-one me p g w v.registered.0
    ∙ inform-last me g t (set_state p terminated w) pos v.group

ends-IsWaiting :
    {b : World} (on : Ptr → ℕ) (g k t : ℕ) (ps rest : List Ptr) (w : World)
    → length ps + suc k < 2 ^ 32
    → Absent t (ps ++ rest)
    → AllDistinct (ps ++ rest)
    → IsWaiting b g t (length ps + suc k) (ps ++ rest) w
    → IsWaiting b g t (suc k) rest (end_all on ps w)
unfolding end_all
ends-IsWaiting {b} on g k t [] rest w small away distinct v =
    let none_ended : 0 + suc k ≡ suc k = omega arith in
    subst (λ n. IsWaiting b g t n rest w) none_ended v
ends-IsWaiting {b} on g k t (p ∷ ps) rest w small (other, away) (apart, distinct) v =
    let count : suc (length ps) + suc k ≡ suc (suc (length ps + k)) = omega arith in
    let left : suc (length ps + k) ≡ length ps + suc k = omega arith in
    let step =
      step-IsWaiting (on p) g (length ps + k) t p (ps ++ rest) w (omega arith) other apart
        (subst (λ n. IsWaiting b g t n (p ∷ ps ++ rest) w) count v) in
    ends-IsWaiting on g k t ps rest (terminate (on p) p w) (omega arith) away distinct
      (subst (λ n. IsWaiting b g t n (ps ++ rest) (terminate (on p) p w)) left step)

length-append : (a b : List Ptr) → length (a ++ b) ≡ length a + length b
length-append [] b = omega arith
length-append (p ∷ a) b = omega (arith, length-append a b)

pub end_all-append :
    (on : Ptr → ℕ) (ps : List Ptr) (q : Ptr) (w : World)
    → end_all on (ps ++ q ∷ []) w ≡ terminate (on q) q (end_all on ps w)
unfolding end_all
end_all-append on [] q w = refl
end_all-append on (p ∷ ps) q w = end_all-append on ps q (terminate (on p) p w)

-- The task t waits for the bundle of ps and q.
abbrev pub waiting : Bool → ℕ → ℕ → Ptr → Ptr → List Ptr → World → World × Bool
unfolding bundle bundle_wait
waiting is_pure me g t q ps w = bundle_wait me t g (bundle is_pure me g (ps ++ q ∷ []) w)

-- Before the last of them ends the task t waits, and yields its thread.
pub waiting-IsWaiting :
    (is_pure : Bool) (me g t q : ℕ) (on : Ptr → ℕ) (ps : List Ptr) (w : World)
    → w.group g ≡ new_group
    → Absent t (ps ++ q ∷ [])
    → AllDistinct (ps ++ q ∷ [])
    → length (ps ++ q ∷ []) < 2 ^ 32
    → ((waiting is_pure me g t q ps w).1 ≡ true)
      × IsWaiting
          (bundle is_pure me g (ps ++ q ∷ []) w)
          g
          t
          1
          (q ∷ [])
          (end_all on ps (waiting is_pure me g t q ps w).0)
unfolding waiting
waiting-IsWaiting is_pure me g t q on ps w new away distinct small =
    let qs = ps ++ q ∷ [] in
    let b = bundle is_pure me g qs w in
    let size = length-append ps (q ∷ []) in
    let made = bundle-IsBundle is_pure me g 0 qs w distinct (omega (arith, size)) new in
    let count : 0 + length qs ≡ suc (length ps) = omega (arith, size) in
    let (waits, yields) =
      bundle_wait-IsWaiting me t g (length ps) qs b away
        (subst (λ n. IsBundle g n qs b) count made) in
    let w' = (waiting is_pure me g t q ps w).0 in
    let count' : suc (length ps) ≡ length ps + suc 0 = omega arith in
    (
      yields,
      ends-IsWaiting on g 0 t ps (q ∷ []) w' (omega (arith, size)) away distinct
          (subst (λ n. IsWaiting b g t n qs w') count' waits),
    )
