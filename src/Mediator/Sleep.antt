-- ===== src/Mediator/Sleep.antt =====
-- `sleep_count` counts the threads that sleep.
use tythread.Base.{
  zero, suc, ◌↔◌, ℕ, ◌+◌, ◌^◌, ◌≤◌, ◌<◌, ◌≡◌, refl, sym, ap, inl, inr, arith, Bool, true, false,
  tick, Bool-cases, update, update_self, update-ne, Ptr,
}
use tythread.Mediator.{
  Stage, init, fall_asleep, wake, add_and_notify, terminate_gracefully, Move, work, terminates,
  poll_move, leave_move, sleep_move, wake_move, stop_move, sweep_move, joined, Moves, here, after,
}
use tythread.Scheduler.Interleave.{Scene}
use tythread.Sum.{total, total-zero, total-one, total-part}

-- How many of the n threads sleep.
unfoldable pub sleepers : ℕ → Stage → ℕ
sleepers n x = total n (λ k. tick (x.asleep k))

sleepers-le : (n : ℕ) (f : ℕ → Bool) → total n (λ k. tick (f k)) ≤ n
unfolding total
sleepers-le zero f = omega arith
sleepers-le (suc n) f = ground (arith, sleepers-le n f)

-- One thread falls asleep or wakes.
sleepers-update :
    (n me : ℕ) (f : ℕ → Bool) (b : Bool)
    → me < n
    → total n (λ k. tick (update f me b k)) + tick (f me) ≡ total n (λ k. tick (f k)) + tick b
sleepers-update n me f b below =
    let one =
      total-one n me (λ k. tick (update f me b k)) (λ k. tick (f k)) below
        (λ k h ne. ap tick (update-ne f me k b ne)) in
    let self = ap tick (update_self f me b) in omega (arith, one, self)

Move-sleepers :
    {n : ℕ} {x y : Stage}
    → n < 2 ^ 32
    → x.sleep_count ≡ sleepers n x
    → Move n x y
    → y.sleep_count ≡ sleepers n y
unfolding sleepers terminate_gracefully fall_asleep wake
Move-sleepers few e (work me x y s below up by) = e
Move-sleepers few e (poll_move me x below up free p some) = e
Move-sleepers few e (leave_move me x below up how) = e
Move-sleepers few e (terminates x) = e
Move-sleepers {n} few e (sleep_move me x below up out next) =
    let more = sleepers-update n me x.asleep true below in
    let was = ap tick up.awake in
    omega (arith, more, was, e, sleepers-le n (update x.asleep me true))
Move-sleepers {n} few e (wake_move me x below slept) =
    let less = sleepers-update n me x.asleep false below in
    let was = ap tick slept in omega (arith, less, was, e, sleepers-le n x.asleep)
Move-sleepers few e (stop_move me x below up out none_found next) = e
Move-sleepers few e (sweep_move me x below up out none_found next) = e
Move-sleepers few e (joined x sweeping all) = e

some_asleep :
    (n : ℕ) (f : ℕ → Bool) → 0 < total n (λ k. tick (f k)) → (k : ℕ) × (k < n) × (f k ≡ true)
unfolding total
some_asleep zero f pos = absurd (omega arith)
some_asleep (suc n) f pos = elim (Bool-cases (f n)) [
  | inl e ↦ (n, omega arith, e)
  | inr e ↦ (let (k, b, e') = some_asleep n f (omega (arith, ap tick e)) in (k, omega arith, e'))
]

init-sleepers : (n : ℕ) (x : Scene) → (init x).sleep_count ≡ sleepers n (init x)
unfolding init sleepers
init-sleepers n x = sym (total-zero n (λ k. 0) (λ k b. refl))

sleep_count-sleepers :
    {n : ℕ} (x : Scene) {y : Stage} → n < 2 ^ 32 → Moves n (init x) y → y.sleep_count ≡ sleepers n y
sleep_count-sleepers {n} x few here = init-sleepers n x
sleep_count-sleepers x few (after moves move) =
    Move-sleepers few (sleep_count-sleepers x few moves) move

-- From `init` on, for n threads below 2 ^ 32, whatever moves they make in whatever order, `sleep_count`
-- is the number of threads that sleep, and `addRunnable` notifies exactly when some thread sleeps.
pub Moves-sleepers :
    (n : ℕ) (x : Scene) (y : Stage)
    → n < 2 ^ 32
    → Moves n (init x) y
    → (me : ℕ) (p : Ptr)
    → (y.sleep_count ≡ sleepers n y)
      × (((add_and_notify me p y).0 ≡ true) ↔ ((k : ℕ) × (k < n) × (y.asleep k ≡ true)))
unfolding add_and_notify sleepers
Moves-sleepers n x y few moves me p =
    let e = sleep_count-sleepers x few moves in
    (
      e,
      (
        λ h. some_asleep n y.asleep (ground (arith, e)),
        λ (k, below, slept).
            (let part = total-part n k (λ j. tick (y.asleep j)) below in
              ground (arith, ap tick slept)),
      ),
    )
