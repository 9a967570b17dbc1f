-- ===== src/Mediator/Closing.antt =====
-- How the threads end: one that has ended has no task, and never gets one.
use tythread.Base.{
  times, ℕ, ◌<◌, ◌≡◌, refl, sym, ap, ◌∙◌, ◌≢◌, inl, inr, arith, Bool, true, false, eq_cases, [],
  update, update_self, update-ne, Ptr, subst,
}
use tythread.Mediator.{
  Stage, init, fall_asleep, wake, terminate_gracefully, next_of, stops, sweeps, Move, work,
  terminates, poll_move, leave_move, sleep_move, wake_move, stop_move, sweep_move, joined, Moves,
  here, after, IsUp, FindsNone,
}
use tythread.Mediator.Others.{HasNone, step-HasNone}
use tythread.Scheduler.Shared.{take_runnable-tasks}
use tythread.Scheduler.Steal.{tasks_of}
use tythread.Scheduler.Interleave.{Scene, IsStart}
use tythread.Scheduler.Interleave.Held.{Good}
use tythread.Scheduler.Interleave.Conserve.{Step-Good, start-Good}
use tythread.Sum.{total-zero}
use tythread.Scheduler.Sum.{weight, mark, weight-times}

-- The tasks are in order; a thread that has ended, or waits for the others, has none; and thread 0
-- ends after the others.
pub record IsClosing (n : ℕ) (x : Stage) : Type 0 where
  pub good : Good n x.scene
  gone : (k : ℕ) → k < n → x.ended k ≡ true → HasNone k x.scene.world
  swept : x.sweeping ≡ true → HasNone 0 x.scene.world
  last : x.ended 0 ≡ true → (k : ℕ) → k < n → x.ended k ≡ true
  first_sweeps : x.ended 0 ≡ true → x.sweeping ≡ true

found-HasNone :
    {n : ℕ} (me : ℕ) (x : Stage)
    → Good n x.scene
    → me < n
    → FindsNone me x
    → HasNone me x.scene.world
found-HasNone me x good below f = record {
  queue = elim (take_runnable-tasks me below good.orderly) [
    | inl (e, bare, still) ↦ bare
    | inr (pos, e) ↦ absurd (omega (arith, f.none_taken))
  ];
  blocked = f.none_blocked;
}

no_weight : (a : Ptr) → weight (mark a) [] ≡ 0
unfolding weight
no_weight a = refl

not_both : (b : Bool) → b ≡ true → b ≡ false → ⊥
not_both b e e' = cc

-- A thread that works does not have ended, so the others keep what they have.
work-IsClosing :
    {n : ℕ} (me : ℕ) (x : Stage) (y : Scene) (inside : ℕ → Ptr)
    → Good n y
    → IsUp me x
    → ((k : ℕ) → k < n → k ≢ me → HasNone k x.scene.world → HasNone k y.world)
    → 0 < n
    → IsClosing n x
    → IsClosing n (record x { scene = y; inside = inside })
work-IsClosing me x y inside good up keep pos v = record {
  good = good;
  gone = λ k b e. elim (eq_cases k me) [
    | inl (_, is) ↦ absurd (not_both (x.ended me) (ap x.ended (sym is) ∙ e) up.running)
    | inr (_, ne) ↦ keep k b ne (v.gone k b e)
  ];
  swept = λ e. elim (eq_cases 0 me) [
    | inl (_, is) ↦ absurd (not_both x.sweeping e (up.not_sweeping (sym is)))
    | inr (_, ne) ↦ keep 0 pos ne (v.swept e)
  ];
  last = v.last;
  first_sweeps = v.first_sweeps;
}

-- A thread that ends, me perhaps thread 0 behind all others.
ended-IsClosing :
    {n : ℕ} (me : ℕ) (x : Stage)
    → HasNone me x.scene.world
    → (me ≡ 0 → (x.sweeping ≡ true) × ((k : ℕ) → 0 < k → k < n → x.ended k ≡ true))
    → IsClosing n x
    → IsClosing n (record x { ended = update x.ended me true })
ended-IsClosing {n} me x bare all v = record {
  good = v.good;
  gone = λ k b e. elim (eq_cases k me) [
    | inl (_, is) ↦ rw is bare
    | inr (_, ne) ↦ v.gone k b (sym (update-ne x.ended me k true ne) ∙ e)
  ];
  swept = v.swept;
  last = λ e k b. elim (eq_cases k me) [
    | inl (_, is) ↦ rw is (update_self x.ended me true)
    | inr (_, ne) ↦ update-ne x.ended me k true ne ∙ (elim (eq_cases 0 me) [
      | inl (_, first) ↦ (all (sym first)).1 k (omega arith) b
      | inr (_, off) ↦ v.last (sym (update-ne x.ended me 0 true off) ∙ e) k b
    ])
  ];
  first_sweeps = λ e. elim (eq_cases 0 me) [
    | inl (_, first) ↦ (all (sym first)).0
    | inr (_, off) ↦ v.first_sweeps (sym (update-ne x.ended me 0 true off) ∙ e)
  ];
}

stops-other : (terminatable : Bool) (me : ℕ) → next_of false terminatable me ≡ stops → me ≢ 0
unfolding next_of
stops-other terminatable me e = λ is. ground arith

sweeps-first : (terminatable : Bool) (me : ℕ) → next_of false terminatable me ≡ sweeps → me ≡ 0
unfolding next_of
sweeps-first terminatable me e = ground arith

Move-IsClosing : {n : ℕ} {x y : Stage} → 0 < n → IsClosing n x → Move n x y → IsClosing n y
unfolding terminate_gracefully fall_asleep wake
Move-IsClosing pos v (work me x y s below up by) =
    work-IsClosing me x y _ (Step-Good v.good s) up
      (λ k b ne h. step-HasNone me k v.good s by b ne h) pos v
Move-IsClosing pos v (poll_move me x below up free p some) = record {
  good = v.good;
  gone = v.gone;
  swept = v.swept;
  last = v.last;
  first_sweeps = v.first_sweeps;
}
Move-IsClosing pos v (leave_move me x below up how) = record {
  good = v.good;
  gone = v.gone;
  swept = v.swept;
  last = v.last;
  first_sweeps = v.first_sweeps;
}
Move-IsClosing pos v (terminates x) = record {
  good = v.good;
  gone = v.gone;
  swept = v.swept;
  last = v.last;
  first_sweeps = v.first_sweeps;
}
Move-IsClosing pos v (sleep_move me x below up out next) = record {
  good = v.good;
  gone = v.gone;
  swept = v.swept;
  last = v.last;
  first_sweeps = v.first_sweeps;
}
Move-IsClosing pos v (wake_move me x below slept) = record {
  good = v.good;
  gone = v.gone;
  swept = v.swept;
  last = v.last;
  first_sweeps = v.first_sweeps;
}
Move-IsClosing pos v (stop_move me x below up out f next) =
    ended-IsClosing me x (found-HasNone me x v.good below f)
      (λ e. absurd (stops-other x.terminatable me next e)) v
Move-IsClosing pos v (sweep_move me x below up out f next) = record {
  good = v.good;
  gone = v.gone;
  swept = λ _.
      subst (λ k. HasNone k x.scene.world) (sweeps-first x.terminatable me next)
        (found-HasNone me x v.good below f);
  last = v.last;
  first_sweeps = λ _. refl;
}
Move-IsClosing pos v (joined x sweeping all) =
    ended-IsClosing 0 x (v.swept sweeping) (λ _. (sweeping, all)) v

start-IsClosing : (n : ℕ) (x : Scene) → IsStart x → IsClosing n (init x)
unfolding init
start-IsClosing n x start = record {
  good = start-Good n x start;
  gone = λ k b e. absurd (not_both false e refl);
  swept = λ e. absurd (not_both false e refl);
  last = λ e. absurd (not_both false e refl);
  first_sweeps = λ e. absurd (not_both false e refl);
}

pub Moves-IsClosing :
    {n : ℕ} {x : Scene} {y : Stage} → 0 < n → IsStart x → Moves n (init x) y → IsClosing n y
Moves-IsClosing {n} {x} pos start here = start-IsClosing n x start
Moves-IsClosing pos start (after moves move) =
    Move-IsClosing pos (Moves-IsClosing pos start moves) move

-- From `init` on, with no task made yet, whatever moves the n threads make in whatever order: once
-- `run` has returned for thread 0, it has returned for every thread, no thread has a task in its queue
-- or one that waits for MPI, and every task is in the threads' hands as often as it was made. In these
-- moves a thread returns from `run` with no task taken and none that waits for MPI.
pub Moves-closed :
    (n : ℕ) (x : Scene) (y : Stage)
    → 0 < n
    → IsStart x
    → Moves n (init x) y
    → y.ended 0 ≡ true
    → (k : ℕ) → k < n
    → (a : Ptr)
    → (y.ended k ≡ true) × HasNone k y.scene.world × (times a y.scene.held ≡ times a y.scene.made)
Moves-closed n x y pos start moves over k below a =
    let v = Moves-IsClosing pos start moves in
    let bare = λ (j : ℕ) (b : j < n). v.gone j b (v.last over j b) in
    let none_queued =
      total-zero n (λ j. weight (mark a) (tasks_of j y.scene.world))
        (λ j b. ap (weight (mark a)) (bare j b).queue ∙ no_weight a) in
    (
      v.last over k below,
      bare k below,
      omega (
        arith,
        none_queued,
        v.good.sum (mark a),
        weight-times a y.scene.held,
        weight-times a y.scene.made,
      ),
    )
