-- ===== src/Scheduler/Bundle.antt =====
-- `TaskBundle` of co_user.hh: tasks that are spawned and registered, one that waits for them, and
-- their ends.
pub mod Join
pub mod Wake
use tythread.Base.{
  ℕ, zero, suc, ◌+◌, ◌%◌, ◌^◌, ◌≤◌, ◌<◌, ◌≡◌, refl, sym, ap, ◌∙◌, ◌≢◌, inl, inr, arith, Bool, true,
  false, ◌==◌, if◌then◌else◌, eq_cases, Bool-cases, List, [], ◌∷◌, ◌++◌, length, update,
  update_self, update-ne, Ptr, null, Absent, subst,
}
use tythread.Group.{
  Group, new_group, int_pred, int_succ, inform_done, registe, must_wait, resume_if_nothing_to_wait,
}
use tythread.Scheduler.{
  World, Task, set_pure, new_task, go, add_to_group, inform_group, inform_all, terminate, set_state,
  add_runnable, handle_after_continuation_out, is_fini,
}
use tythread.Skiplist.{enqueue}
use tythread.Task.{initial, group_wait, runnable, terminated}

-- `registe(go(...))` for each task of a bundle with the group g, run by thread `me`.
unfoldable pub bundle : Bool → ℕ → ℕ → List Ptr → World → World
unfolding go add_to_group
bundle is_pure me g [] w = w
bundle is_pure me g (p ∷ ps) w = bundle is_pure me g ps (add_to_group g p (go is_pure me p w)).1

-- `TaskGroup::wait` of the task t, up to its yield, and what its thread does then: the world, and
-- whether it yields.
unfoldable pub bundle_wait : ℕ → Ptr → ℕ → World → World × Bool
unfolding must_wait handle_after_continuation_out
bundle_wait me t g w =
    if must_wait (w.group g)
    then (
      handle_after_continuation_out me t (record w {
        task = update w.task t (record (w.task t) { state = group_wait; blocked_by = g });
      }),
      true,
    )
    else (w, false)

-- The tasks end, each on the thread that `on` gives.
unfoldable pub end_all : (Ptr → ℕ) → List Ptr → World → World
unfolding terminate
end_all on [] w = w
end_all on (p ∷ ps) w = end_all on ps (terminate (on p) p w)

-- Every task of the list is registered with the group g and no other.
abbrev pub Registered : ℕ → List Ptr → World → Type 0
Registered g [] w = Unit
Registered g (p ∷ ps) w = ((w.task p).groups ≡ g ∷ []) × Registered g ps w

abbrev pub AllDistinct : List Ptr → Type 0
AllDistinct [] = Unit
AllDistinct (p ∷ ps) = Absent p ps × AllDistinct ps

-- A world whose other tasks are as before.
pub Registered-else :
    (g : ℕ) (p : Ptr) (ps : List Ptr) (w w' : World)
    → Absent p ps
    → ((q : Ptr) → q ≢ p → (w'.task q).groups ≡ (w.task q).groups)
    → Registered g ps w
    → Registered g ps w'
Registered-else g p [] w w' away same r = tt
Registered-else g p (q ∷ ps) w w' (ne, away) same (e, r) =
    (same q ne ∙ e, Registered-else g p ps w w' away same r)

-- One task is made and registered.
module _ (is_pure : Bool) (me g : ℕ) (p : Ptr) (w : World) where
  abbrev pub joined : World
  unfolding go enqueue add_to_group registe
  joined = (add_to_group g p (go is_pure me p w)).1

  fresh : update w.task p (set_pure is_pure (new_task false)) p ≡ set_pure is_pure (new_task false)
  fresh = update_self w.task p (set_pure is_pure (new_task false))

  pub joined-mem : joined.mem ≡ (go is_pure me p w).mem
  unfolding joined
  joined-mem = rw (joined, fresh) refl

  pub joined-mgr : joined.mgr ≡ (go is_pure me p w).mgr
  unfolding joined
  joined-mgr = rw (joined, fresh) refl

  joined-mine : (joined.task p).groups ≡ g ∷ []
  unfolding joined
  joined-mine =
      rw (joined, fresh)
        (ap Task.groups (update_self (update w.task p (set_pure is_pure (new_task false))) p _))

  joined-else : (q : Ptr) → q ≢ p → joined.task q ≡ w.task q
  unfolding joined
  joined-else q ne =
      rw (joined, fresh)
        (update-ne (update w.task p (set_pure is_pure (new_task false))) p q _ ne
          ∙ update-ne w.task p q (set_pure is_pure (new_task false)) ne)

  joined-group :
      joined.group g ≡ record (w.group g) { blocking_count = int_succ (w.group g).blocking_count }
  unfolding joined
  joined-group = rw (joined, fresh) (update_self w.group g _)

-- The bundle behind all its registrations.
pub record IsBundle (g n : ℕ) (ps : List Ptr) (w : World) : Type 0 where
  pub group : w.group g ≡ record { blocking_count = n; blocked_task = null }
  pub registered : Registered g ps w

bundle-else :
    (is_pure : Bool) (me g : ℕ) (ps : List Ptr) (w : World) (q : Ptr)
    → Absent q ps
    → (bundle is_pure me g ps w).task q ≡ w.task q
unfolding bundle joined
bundle-else is_pure me g [] w q away = refl
bundle-else is_pure me g (p ∷ ps) w q (ne, away) =
    bundle-else is_pure me g ps (joined is_pure me g p w) q away
    ∙ joined-else is_pure me g p w q (λ e. ne (sym e))

pub bundle-IsBundle :
    (is_pure : Bool) (me g n : ℕ) (ps : List Ptr) (w : World)
    → AllDistinct ps
    → n + length ps < 2 ^ 32
    → w.group g ≡ record { blocking_count = n; blocked_task = null }
    → IsBundle g (n + length ps) ps (bundle is_pure me g ps w)
unfolding bundle joined
bundle-IsBundle is_pure me g n [] w distinct small e = record {
  group = e ∙ ap (λ k. record { blocking_count = k; blocked_task = null }) (omega arith);
  registered = tt;
}
bundle-IsBundle is_pure me g n (p ∷ ps) w (away, distinct) small e =
    let w' = joined is_pure me g p w in
    let more : (n + 1) % 2 ^ 32 ≡ suc n = omega arith in
    let e' : w'.group g ≡ record { blocking_count = suc n; blocked_task = null } =
      joined-group is_pure me g p w
      ∙ ap (λ (h : Group). record h { blocking_count = int_succ h.blocking_count }) e
      ∙ ap (λ k. record { blocking_count = k; blocked_task = null }) more in
    let rest = bundle-IsBundle is_pure me g (suc n) ps w' distinct (omega arith) e' in
    record {
      group =
          rest.group ∙ ap (λ k. record { blocking_count = k; blocked_task = null }) (omega arith);
      registered = (
        ap Task.groups (bundle-else is_pure me g ps w' p away) ∙ joined-mine is_pure me g p w,
        rest.registered,
      );
    }
