-- ===== src/Scheduler/Interleave/Parked.antt =====
-- A task that runs, with the groups that it ends, and what its thread does with it then are steps.
use tythread.Base.{
  times, ℕ, ◌<◌, ◌≡◌, refl, sym, ap, ◌∙◌, ◌≢◌, inl, inr, arith, Bool, Bool-cases, eq_cases,
  if◌then◌else◌, List, [], ◌∷◌, Ptr, null, update, update_self, update-ne,
}
use tythread.Group.{Group, inform_done}
use tythread.Scheduler.{
  World, PerThreadMgr, set_state, set_current, inform_group, inform_all, terminate, run_in_stack,
  continuation_in, handle_after_continuation_out, erase,
}
use tythread.Scheduler.Interleave.{Scene, resume, local, Reach, here, after}
use tythread.Scheduler.Interleave.Rounds.{Leads, Reach-trans, handle_after-Leads}
use tythread.Scheduler.Steal.{queue_of}
use tythread.Task.{TaskState, initial, runnable, mpi_blocked, group_wait, terminated}

abbrev pub blocked : Scene → ℕ → Ptr
blocked x g = (x.world.group g).blocked_task

-- The tasks that groups hold are in hands, each in one group only.
pub record AreParked (x : Scene) : Type 0 where
  pub in_hands : (g : ℕ) → blocked x g ≢ null → 0 < times (blocked x g) x.held
  pub distinct : (g h : ℕ) → g ≢ h → blocked x g ≢ null → blocked x g ≢ blocked x h

-- Besides, a thread has the task p in its hands, which waits in no group.
pub record Runs (p : Ptr) (x : Scene) : Type 0 where
  pub parked : AreParked x
  pub mine : 0 < times p x.held
  pub away : (g : ℕ) → blocked x g ≢ null → blocked x g ≢ p

-- From x the threads come to the world w in steps, and the thread has p still.
pub record Ends (n : ℕ) (p : Ptr) (x : Scene) (w : World) : Type 0 where
  pub held : List Ptr
  pub made : List Ptr
  pub reach : Reach n x (record x { world = w; held = held; made = made })
  pub runs : Runs p (record x { world = w; held = held; made = made })

times-erase : (a p : Ptr) (xs : List Ptr) → a ≢ p → times a (erase p xs) ≡ times a xs
times-erase a p [] ne = refl
times-erase a p (x ∷ xs) ne = ground (arith, times-erase a p xs ne)

-- Groups that hold no task more than before, and the same tasks, and hands that have those.
kept-Runs :
    {p : Ptr} {x y : Scene}
    → Runs p x
    → ((g : ℕ) → blocked y g ≢ null → blocked y g ≡ blocked x g)
    → ((g : ℕ) → blocked y g ≢ null → times (blocked x g) y.held ≡ times (blocked x g) x.held)
    → times p y.held ≡ times p x.held
    → Runs p y
kept-Runs {p} {x} {y} r same hands own = record {
  parked = record {
    in_hands = λ g some.
        rw (same g some) (rw (hands g some) (r.parked.in_hands g (λ e. some (same g some ∙ e))));
    distinct = λ g h ne some e.
        (let x_some = λ (z : blocked x g ≡ null). some (same g some ∙ z) in
          let h_some = λ (z : blocked y h ≡ null). some (e ∙ z) in
          r.parked.distinct g h ne x_some (sym (same g some) ∙ e ∙ same h h_some));
  };
  mine = rw own r.mine;
  away = λ g some e. r.away g (λ z. some (same g some ∙ z)) (sym (same g some) ∙ e);
}

inform_done-blocked :
    (g : Group)
    → (inform_done g).0.blocked_task ≢ null
    → (inform_done g).0.blocked_task ≡ g.blocked_task
unfolding inform_done
inform_done-blocked g some = ground (arith, some)

inform_done-out :
    (g : Group)
    → (inform_done g).1 ≢ null
    → ((inform_done g).1 ≡ g.blocked_task) × ((inform_done g).0.blocked_task ≡ null)
unfolding inform_done
inform_done-out g some = ground (arith, some)

module _ {n me : ℕ} (below : me < n) (p : Ptr) where
  -- The group g is told; its task, if that can run, goes to the queue.
  told-blocked :
      (g : ℕ) (w : World) (k : ℕ)
      → (update w.group g (inform_done (w.group g)).0 k).blocked_task ≢ null
      → (update w.group g (inform_done (w.group g)).0 k).blocked_task ≡ (w.group k).blocked_task
  told-blocked g w k some = elim (eq_cases k g) [
    | inl (_, e) ↦
        (let here =
            ap (λ j. (update w.group g (inform_done (w.group g)).0 j).blocked_task) e
            ∙ ap Group.blocked_task (update_self w.group g (inform_done (w.group g)).0) in
          here
          ∙ inform_done-blocked (w.group g) (λ z. some (here ∙ z))
          ∙ ap (λ j. (w.group j).blocked_task) (sym e))
    | inr (_, ne) ↦ ap Group.blocked_task (update-ne w.group g k (inform_done (w.group g)).0 ne)
  ]

  inform_group-Ends : (g : ℕ) (x : Scene) → Runs p x → Ends n p x (inform_group me g x.world)
  unfolding inform_group
  inform_group-Ends g x r =
      let out = inform_done (x.world.group g) in
      let w : World = record x.world { group = update x.world.group g out.0 } in
      elim (eq_cases out.1 null) [
        | inl (test, _) ↦ rw test (record {
          held = x.held;
          made = x.made;
          reach = after here (local w x.world.mem.counter x refl (λ k. refl));
          runs = kept-Runs r (told-blocked g x.world) (λ k some. refl) refl;
        })
        | inr (test, ne) ↦
            (let (is, gone) = inform_done-out (x.world.group g) ne in
              let some_here : blocked x g ≢ null = λ z. ne (is ∙ z) in
              let in_hand : 0 < times out.1 x.held = rw is (r.parked.in_hands g some_here) in
              let w' = set_state out.1 runnable w in
              rw test (record {
                held = erase out.1 x.held;
                made = x.made;
                reach =
                    after (after here (local w' x.world.mem.counter x refl (λ k. refl)))
                      (resume me out.1 (record x { world = w' }) below in_hand);
                runs =
                    kept-Runs r (told-blocked g x.world)
                      (λ k some. times-erase (blocked x k) out.1 x.held (λ e. elim (eq_cases k g) [
                        | inl (_, same) ↦ some (
                            ap (λ j. (update x.world.group g out.0 j).blocked_task) same
                            ∙ ap Group.blocked_task (update_self x.world.group g out.0)
                            ∙ gone)
                        | inr (_, other) ↦
                            r.parked.distinct k g other
                              (λ z. some (told-blocked g x.world k some ∙ z)) (e ∙ is)
                      ]))
                      (times-erase p out.1 x.held (λ e. r.away g some_here (sym is ∙ sym e)));
              }))
      ]

  then-Ends :
      {x : Scene} {w w' : World} (first : Ends n p x w)
      → Ends n p (record x { world = w; held = first.held; made = first.made }) w'
      → Ends n p x w'
  then-Ends first next = record {
    held = next.held;
    made = next.made;
    reach = Reach-trans first.reach next.reach;
    runs = next.runs;
  }

  inform_all-Ends : (gs : List ℕ) (x : Scene) → Runs p x → Ends n p x (inform_all me gs x.world)
  unfolding inform_all
  inform_all-Ends [] x r = record { held = x.held; made = x.made; reach = here; runs = r }
  inform_all-Ends (g ∷ gs) x r =
      let first = inform_group-Ends g x r in
      then-Ends first (
        inform_all-Ends gs
          (record x { world = inform_group me g x.world; held = first.held; made = first.made })
          first.runs)

  -- What changes no group, no queue and no memory.
  local-Runs :
      (x : Scene) (w : World) → w.group ≡ x.world.group → Runs p x → Runs p (record x { world = w })
  local-Runs x w group r =
      kept-Runs r (λ g some. ap (λ f. (f g).blocked_task) group) (λ g some. refl) refl

  local-Ends :
      (x : Scene) (w : World)
      → w.mem ≡ x.world.mem
      → ((k : ℕ) → queue_of k w ≡ queue_of k x.world)
      → w.group ≡ x.world.group
      → Runs p x
      → Ends n p x w
  local-Ends x w mem same group r = record {
    held = x.held;
    made = x.made;
    reach = after here (local w x.world.mem.counter x mem same);
    runs = local-Runs x w group r;
  }

  local-then :
      (x : Scene) (w : World) {w' : World}
      → w.mem ≡ x.world.mem
      → ((k : ℕ) → queue_of k w ≡ queue_of k x.world)
      → Ends n p (record x { world = w }) w'
      → Ends n p x w'
  local-then x w mem same e = record {
    held = e.held;
    made = e.made;
    reach = Reach-trans (after here (local w x.world.mem.counter x mem same)) e.reach;
    runs = e.runs;
  }

  terminate-Ends : (x : Scene) → Runs p x → Ends n p x (terminate me p x.world)
  unfolding terminate
  terminate-Ends x r =
      let first = local-Ends x (set_state p terminated x.world) refl (λ k. refl) refl r in
      then-Ends first (
        inform_all-Ends (x.world.task p).groups
          (record x {
            world = set_state p terminated x.world;
            held = first.held;
            made = first.made;
          })
          first.runs)

  -- The callback of a task acts on the queues in steps, when the tasks `known` have been made.
  module _ (known : List Ptr) (run : Ptr → World → World × Bool)
      (acts : (x : Scene) → x.made ≡ known → Runs p x → Ends n p x (run p x.world).0) where
    run_in_stack-Ends :
        (x : Scene) → x.made ≡ known → Runs p x → Ends n p x (run_in_stack run me p x.world)
    unfolding run_in_stack
    run_in_stack-Ends x all r =
        let first = acts x all r in
        then-Ends first (
          terminate-Ends
            (record x { world = (run p x.world).0; held = first.held; made = first.made })
            first.runs)

    -- A task that starts is `runnable` from then on.
    abbrev entered : TaskState → World → World
    entered st w = elim st [ initial ↦ set_state p runnable w | _ ↦ w ]

    entered-same :
        (st : TaskState) (w : World)
        → ((entered st w).mem ≡ w.mem)
          × ((k : ℕ) → queue_of k (entered st w) ≡ queue_of k w)
          × ((entered st w).group ≡ w.group)
    entered-same initial w = (refl, λ k. refl, refl)
    entered-same runnable w = (refl, λ k. refl, refl)
    entered-same mpi_blocked w = (refl, λ k. refl, refl)
    entered-same group_wait w = (refl, λ k. refl, refl)
    entered-same terminated w = (refl, λ k. refl, refl)

    continuation_in-Ends :
        (x : Scene) → x.made ≡ known → Runs p x → Ends n p x (continuation_in run me p x.world)
    unfolding continuation_in
    continuation_in-Ends x all r =
        let (mem, same, group) = entered-same (x.world.task p).state x.world in
        let w = entered (x.world.task p).state x.world in
        let ran =
          local-then x w mem same (acts (record x { world = w }) all (local-Runs x w group r)) in
        elim (Bool-cases (run p w).1) [
          | inl ended ↦ rw ended (
              then-Ends ran (
                terminate-Ends (record x { world = (run p w).0; held = ran.held; made = ran.made })
                  ran.runs))
          | inr yields ↦ rw yields ran
        ]

    set_current-same :
        (q : Ptr) (w : World) (k : ℕ) → queue_of k (set_current me q w) ≡ queue_of k w
    set_current-same q w k = elim (eq_cases k me) [
      | inl (_, e) ↦ rw e (
          ap PerThreadMgr.runnable_queue
            (update_self w.mgr me (record (w.mgr me) { current_task = q })))
      | inr (_, ne) ↦
          ap PerThreadMgr.runnable_queue
            (update-ne w.mgr me k (record (w.mgr me) { current_task = q }) ne)
    ]

    -- From the task's start to its next yield, and what its thread does with it then.
    pub ran-Leads :
        (x : Scene)
        → x.made ≡ known
        → Runs p x
        → (is_pure : Bool)
        → Leads n x (
            handle_after_continuation_out me p (
              set_current me null (
                if is_pure
                then run_in_stack run me p (set_current me p x.world)
                else continuation_in run me p (set_current me p x.world))))
    ran-Leads x all r is_pure =
        let started = set_current me p x.world in
        let x' : Scene = record x { world = started } in
        let r' = local-Runs x started refl r in
        let w =
          if is_pure then run_in_stack run me p started else continuation_in run me p started in
        let second : Ends n p x' w = elim (Bool-cases is_pure) [
          | inl e ↦ rw e (run_in_stack-Ends x' all r')
          | inr e ↦ rw e (continuation_in-Ends x' all r')
        ] in
        let ran = local-then x started refl (set_current-same p x.world) second in
        let left : Ends n p (record x { world = w; held = ran.held; made = ran.made })
            (set_current me null w) =
          local-Ends (record x { world = w; held = ran.held; made = ran.made })
            (set_current me null w) refl (set_current-same null w) refl ran.runs in
        let done = then-Ends ran left in
        let last =
          handle_after-Leads below p
            (record x { world = set_current me null w; held = done.held; made = done.made })
            done.runs.mine in
        record { held = last.held; made = last.made; reach = Reach-trans done.reach last.reach }
