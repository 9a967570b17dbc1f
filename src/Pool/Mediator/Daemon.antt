-- ===== src/Pool/Mediator/Daemon.antt =====
-- `ObjectPoolGCDaemon`: the thread that cleans up the caches of all pools from time to time.
use tythread.Base.{ℕ, zero, suc, ◌≡◌}
use tythread.Pool.Mediator.{ObjectPoolConfig, ObjectPoolMediator, do_period_cleanup}
use tythread.Pool.Mediator.Counted.{IsCounted, cached, do_period_cleanup-IsCounted}

-- The loop over the pools, of which it has done the first n. `meanwhile k` is what the other threads do
-- before the clean-up of pool k.
unfoldable pub daemon_round :
    ObjectPoolConfig
    → (ℕ → ObjectPoolMediator → ObjectPoolMediator)
    → ℕ
    → ObjectPoolMediator
    → ObjectPoolMediator
unfolding do_period_cleanup
daemon_round config meanwhile zero w = w
daemon_round config meanwhile (suc n) w =
    do_period_cleanup config n (meanwhile n (daemon_round config meanwhile n w))

-- The loop of the thread: `terminate` is seen behind the given number of rounds. `meanwhile r k` is what
-- the other threads do, when r rounds are to follow, before the clean-up of pool k, or, if k is the
-- number of pools, while the thread sleeps.
unfoldable pub daemon_run :
    ObjectPoolConfig
    → (ℕ → ℕ → ObjectPoolMediator → ObjectPoolMediator)
    → ℕ
    → ObjectPoolMediator
    → ObjectPoolMediator
unfolding daemon_round
daemon_run config meanwhile zero w = w
daemon_run config meanwhile (suc rounds) w = daemon_run config meanwhile rounds (
    meanwhile rounds config.num_of_thread
      (daemon_round config (meanwhile rounds) config.num_of_thread w))

-- What keeps the counts of all pools right.
abbrev pub KeepsCounted : ObjectPoolConfig → (ObjectPoolMediator → ObjectPoolMediator) → Type 0
KeepsCounted config f =
    (x : ObjectPoolMediator) → ((k : ℕ) → IsCounted config k x) → (k : ℕ) → IsCounted config k (f x)

round-IsCounted :
    (config : ObjectPoolConfig) (meanwhile : ℕ → ObjectPoolMediator → ObjectPoolMediator) (n : ℕ)
    → ((k : ℕ) → KeepsCounted config (meanwhile k))
    → KeepsCounted config (daemon_round config meanwhile n)
unfolding daemon_round
round-IsCounted config meanwhile zero keep w all = all
round-IsCounted config meanwhile (suc n) keep w all = λ k.
    (do_period_cleanup-IsCounted config n (meanwhile n (daemon_round config meanwhile n w))
      (keep n _ (round-IsCounted config meanwhile n keep w all)) k).0

run-IsCounted :
    (config : ObjectPoolConfig) (meanwhile : ℕ → ℕ → ObjectPoolMediator → ObjectPoolMediator)
    (rounds : ℕ)
    → ((r k : ℕ) → KeepsCounted config (meanwhile r k))
    → KeepsCounted config (daemon_run config meanwhile rounds)
unfolding daemon_run
run-IsCounted config meanwhile zero keep w all = all
run-IsCounted config meanwhile (suc rounds) keep w all =
    run-IsCounted config meanwhile rounds keep _ (
      keep rounds config.num_of_thread _
        (round-IsCounted config (meanwhile rounds) config.num_of_thread (keep rounds) w all))

-- If each pool counts right what it caches, caches none of its own and no more than the limit, and what
-- the other threads do before each clean-up and between the rounds keeps this, then it is so behind any
-- number of rounds of the collecting thread, and behind the clean-up of pool k in the next round, when
-- this pool caches nothing.
pub daemon_run-IsCounted :
    (config : ObjectPoolConfig) (meanwhile : ℕ → ℕ → ObjectPoolMediator → ObjectPoolMediator)
    (rounds : ℕ) (w : ObjectPoolMediator)
    → ((k : ℕ) → IsCounted config k w)
    → ((r k : ℕ) → KeepsCounted config (meanwhile r k))
    → (r k : ℕ)
    → let ran = daemon_run config meanwhile rounds w in
      let cleaned = daemon_round config (meanwhile r) (suc k) ran in
      IsCounted config k ran × IsCounted config k cleaned × (cached config k cleaned ≡ 0)
unfolding daemon_round
daemon_run-IsCounted config meanwhile rounds w all keep r k =
    let ran = daemon_run config meanwhile rounds w in
    let kept = run-IsCounted config meanwhile rounds keep w all in
    let before = round-IsCounted config (meanwhile r) k (keep r) ran kept in
    let here =
      do_period_cleanup-IsCounted config k (meanwhile r k (daemon_round config (meanwhile r) k ran))
        (keep r k _ before) k in
    (kept k, here.0, here.1)
