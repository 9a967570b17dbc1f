-- ===== src/Spinlock/Tests.antt =====
-- Two threads at a spin lock: thread 0 is inside, thread 1 spins.
use tythread.Base.{arith, false, true, ◌≢◌, refl, update}
use tythread.Spinlock.{
  Threads, outside, spinning, inside, call, round, Reach, here, after, lock_round,
}
use tythread.Spinlock.Exclusion.{IsStart, Reach-alone}

abbrev start : Threads
start = record { locked = false; place = λ _. outside }

start-IsStart : IsStart start
start-IsStart = record { clear = refl; none_inside = λ i. refl }

abbrev first_inside : Threads
first_inside = record {
  locked = true;
  place = update (update (update start.place 0 spinning) 0 inside) 1 spinning;
}

first_inside-Reach : Reach start first_inside
unfolding lock_round
first_inside-Reach =
    after
      (after (after here (call 0 start refl))
        (round 0 (record { locked = false; place = update start.place 0 spinning }) refl))
      (call 1 (record { locked = true; place = update (update start.place 0 spinning) 0 inside })
        refl)

Reach-alone_example : first_inside.place 1 ≢ inside
Reach-alone_example =
    Reach-alone start first_inside start-IsStart first_inside-Reach 0 1 (λ e. absurd (omega arith))
      refl
