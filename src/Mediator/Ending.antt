-- ===== src/Mediator/Ending.antt =====
-- The threads can always end when `terminatable` is set and no task is left.
use tythread.Base.{
  null, ℕ, zero, suc, ◌-◌, ◌≤◌, ◌<◌, ◌≡◌, refl, sym, ap, ◌∙◌, ◌≢◌, inl, inr, arith, true, false,
  Bool-cases, eq_cases, update, update_self, update-ne, List, Ptr, ◌∷◌, [],
}
use tythread.Mediator.{
  Stage, init, wake, next_of, stops, wake_move, stop_move, sweep_move, joined, Moves, here, after,
  IsUp, FindsNone,
}
use tythread.Mediator.Closing.{Moves-IsClosing}
use tythread.Mediator.Others.{HasNone}
use tythread.Scheduler.Interleave.{Scene, IsStart}
use tythread.Scheduler.Interleave.Held.{Good}
use tythread.Scheduler.Shared.{take_runnable-tasks}

-- `terminatable` is set, and no thread has a task or is inside one.
record IsOver (n : ℕ) (x : Stage) : Type 0 where
  good : Good n x.scene
  set : x.terminatable ≡ true
  bare : (k : ℕ) → k < n → HasNone k x.scene.world
  out : (k : ℕ) → k < n → x.inside k ≡ null

-- By moves to y no task comes, and who has ended stays so.
record Ends (n : ℕ) (x y : Stage) : Type 0 where
  moves : Moves n x y
  over : IsOver n y
  scene : y.scene ≡ x.scene
  stay : (k : ℕ) → x.ended k ≡ true → y.ended k ≡ true

Moves-trans : {n : ℕ} {x y z : Stage} → Moves n x y → Moves n y z → Moves n x z
Moves-trans r here = r
Moves-trans r (after r' s) = after (Moves-trans r r') s

Ends-trans : {n : ℕ} {x y z : Stage} → Ends n x y → Ends n y z → Ends n x z
Ends-trans a b = record {
  moves = Moves-trans a.moves b.moves;
  over = b.over;
  scene = b.scene ∙ a.scene;
  stay = λ k e. b.stay k (a.stay k e);
}

cons-nil : {p : Ptr} {l : List Ptr} → p ∷ l ≡ [] → ⊥
cons-nil e = cc

over-FindsNone : {n : ℕ} (me : ℕ) {x : Stage} → IsOver n x → me < n → FindsNone me x
over-FindsNone me over below = record {
  none_taken = elim (take_runnable-tasks me below over.good.orderly) [
    | inl (e, bare, still) ↦ e
    | inr (pos, e) ↦ absurd (cons-nil (sym e ∙ (over.bare me below).queue))
  ];
  none_blocked = (over.bare me below).blocked;
}

-- A thread that sleeps wakes.
awake-Ends :
    {n : ℕ} (me : ℕ) (x : Stage)
    → me < n
    → IsOver n x
    → (y : Stage) × Ends n x y
      × (y.asleep me ≡ false)
      × (y.ended ≡ x.ended)
      × (y.sweeping ≡ x.sweeping)
unfolding wake
awake-Ends me x below over = elim (Bool-cases (x.asleep me)) [
  | inr e ↦ (x, record { moves = here; over = over; scene = refl; stay = λ k e. e }, e, refl, refl)
  | inl e ↦ (
    wake me x,
    record {
      moves = after here (wake_move me x below e);
      over = record { good = over.good; set = over.set; bare = over.bare; out = over.out };
      scene = refl;
      stay = λ k e. e;
    },
    update_self x.asleep me false,
    refl,
    refl,
  )
]

stops_here : (me : ℕ) → me ≢ 0 → next_of false true me ≡ stops
unfolding next_of
stops_here me ne = ground arith

-- A thread other than thread 0 ends.
stop-Ends :
    {n : ℕ} (me : ℕ) (x : Stage)
    → me < n
    → me ≢ 0
    → IsOver n x
    → (y : Stage) × Ends n x y × (y.ended me ≡ true)
stop-Ends me x below other over = elim (Bool-cases (x.ended me)) [
  | inl e ↦ (x, record { moves = here; over = over; scene = refl; stay = λ k e. e }, e)
  | inr e ↦
      (let (y, ends, awake, same, _) = awake-Ends me x below over in
        let next = ap (λ b. next_of false b me) ends.over.set ∙ stops_here me other in
        let up : IsUp me y = record {
          running = ap (λ f. f me) same ∙ e;
          awake = awake;
          not_sweeping = λ z. absurd (other z);
        } in
        (
          record y { ended = update y.ended me true },
          Ends-trans ends (record {
            moves = after here (
                stop_move me y below up (ends.over.out me below) (over-FindsNone me ends.over below)
                  next);
            over = record {
              good = ends.over.good;
              set = ends.over.set;
              bare = ends.over.bare;
              out = ends.over.out;
            };
            scene = refl;
            stay = λ k e. elim (eq_cases k me) [
              | inl (_, is) ↦ ap (update y.ended me true) is ∙ update_self y.ended me true
              | inr (_, ne) ↦ update-ne y.ended me k true ne ∙ e
            ];
          }),
          update_self y.ended me true,
        ))
]

-- The threads 1 to k end.
all-Ends :
    {n : ℕ} (k : ℕ) (x : Stage)
    → k < n
    → IsOver n x
    → (y : Stage) × Ends n x y × ((j : ℕ) → 0 < j → j ≤ k → y.ended j ≡ true)
all-Ends zero x below over = (
  x,
  record { moves = here; over = over; scene = refl; stay = λ k e. e },
  λ j lo hi. absurd (omega arith),
)
all-Ends (suc k) x below over =
    let (y, first, done) = all-Ends k x (omega arith) over in
    let (z, second, e) = stop-Ends (suc k) y below (λ c. omega (arith, c)) first.over in
    (
      z,
      Ends-trans first second,
      λ j lo hi. elim (eq_cases j (suc k)) [
        | inl (_, is) ↦ ap z.ended is ∙ e
        | inr (_, ne) ↦ second.stay j (done j lo (omega arith))
      ],
    )

-- Thread 0 waits for the others, which have ended.
sweep-Ends :
    {n : ℕ} (x : Stage)
    → 0 < n
    → IsOver n x
    → x.ended 0 ≡ false
    → (y : Stage) × Ends n x y × (y.sweeping ≡ true)
unfolding next_of
sweep-Ends x pos over running = elim (Bool-cases x.sweeping) [
  | inl e ↦ (x, record { moves = here; over = over; scene = refl; stay = λ k e'. e' }, e)
  | inr e ↦
      (let (y, ends, awake, same, swept) = awake-Ends 0 x pos over in
        let up : IsUp 0 y = record {
          running = ap (λ f. f 0) same ∙ running;
          awake = awake;
          not_sweeping = λ z. swept ∙ e;
        } in
        (
          record y { sweeping = true },
          Ends-trans ends (record {
            moves = after here (
                sweep_move 0 y pos up (ends.over.out 0 pos) (over-FindsNone 0 ends.over pos)
                  (ap (λ b. next_of false b 0) ends.over.set));
            over = record {
              good = ends.over.good;
              set = ends.over.set;
              bare = ends.over.bare;
              out = ends.over.out;
            };
            scene = refl;
            stay = λ k e'. e';
          }),
          refl,
        ))
]

first-Ends :
    {n : ℕ} (x : Stage)
    → 0 < n
    → IsOver n x
    → ((j : ℕ) → 0 < j → j < n → x.ended j ≡ true)
    → (y : Stage) × Ends n x y × (y.ended 0 ≡ true)
first-Ends x pos over others = elim (Bool-cases (x.ended 0)) [
  | inl e ↦ (x, record { moves = here; over = over; scene = refl; stay = λ k e'. e' }, e)
  | inr e ↦
      (let (y, ends, swept) = sweep-Ends x pos over e in
        (
          record y { ended = update y.ended 0 true },
          Ends-trans ends (record {
            moves = after here (joined y swept (λ j lo hi. ends.stay j (others j lo hi)));
            over = record {
              good = ends.over.good;
              set = ends.over.set;
              bare = ends.over.bare;
              out = ends.over.out;
            };
            scene = refl;
            stay = λ k e'. elim (eq_cases k 0) [
              | inl (_, is) ↦ ap (update y.ended 0 true) is ∙ update_self y.ended 0 true
              | inr (_, ne) ↦ update-ne y.ended 0 k true ne ∙ e'
            ];
          }),
          update_self y.ended 0 true,
        ))
]

-- In whatever state the moves of the n threads from `init` on have left them, asleep or awake, some ended,
-- once `terminatable` is set and no thread has a task or is inside one, there are further moves, which change no task or
-- queue, after which `run` has returned for thread 0.
pub Moves-end :
    (n : ℕ) (x : Scene) (y : Stage)
    → 0 < n
    → IsStart x
    → Moves n (init x) y
    → y.terminatable ≡ true
    → ((k : ℕ) → k < n → HasNone k y.scene.world)
    → ((k : ℕ) → k < n → y.inside k ≡ null)
    → (z : Stage) × Moves n y z × (z.scene ≡ y.scene) × (z.ended 0 ≡ true)
Moves-end n x y pos start moves set bare out =
    let over : IsOver n y = record {
      good = (Moves-IsClosing pos start moves).good;
      set = set;
      bare = bare;
      out = out;
    } in
    let (z, workers, done) = all-Ends (n - 1) y (omega arith) over in
    let (z', first, e) = first-Ends z pos workers.over (λ j lo hi. done j lo (omega arith)) in
    (z', Moves-trans workers.moves first.moves, first.scene ∙ workers.scene, e)
