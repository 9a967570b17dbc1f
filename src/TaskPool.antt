-- ===== src/TaskPool.antt =====
-- `TaskPool`, Task.hh and Task.cc: the pools from which the memory of the tasks comes.
pub mod Life
mod Tests
use tythread.Base.{
  ℕ, ◌+◌, ◌*◌, ◌≤◌, ◌<◌, ◌≡◌, ◌≢◌, refl, ◌↔◌, arith, Bool, true, false, Option, none, some, Ptr,
  null,
}
use tythread.Config.{Config, ℤ, pos, negsuc}
use tythread.Pool.{Entries}
use tythread.Pool.Mediator.{ObjectPoolConfig, ObjectPoolMediator, mediator_alloc, mediator_release}
use tythread.Pool.Mediator.Setup.{
  set_num_of_thread, set_pool_init_size, set_enlarge_rate, set_max_total_cached,
  set_cache_reclaim_period, object_pool_mediator,
}

-- `ObjectPoolConfig` as it is declared; the members with no initial value are 0 here, and a task takes
-- `unit` bytes.
abbrev pub declared : ℕ → ObjectPoolConfig
declared unit = record {
  num_of_thread = 0;
  pool_init_size = 0;
  enlarge_rate = 0;
  max_total_cached = 1024;
  cache_reclaim_period = 0;
  unit = unit;
}

-- The configuration that `Init` makes for n threads.
unfoldable pub pool_config : ℕ → ℕ → Config → ObjectPoolConfig
pool_config unit n c = set_cache_reclaim_period c.cache_reclaim_period (
    set_max_total_cached c.max_total_cached (
      set_enlarge_rate c.enlarge_rate
        (set_pool_init_size c.init_task_pool_size (set_num_of_thread n (declared unit)))))

-- `Init`: none for the exception that `resize` throws at a negative number of threads.
unfoldable pub init :
    ℕ → Config → (ℕ → Ptr) → Entries → (Ptr → ℕ) → Option (ObjectPoolMediator × Bool)
unfolding pool_config object_pool_mediator
init unit c arena next info = elim c.num_of_threads [
  | pos n ↦ some (object_pool_mediator (pool_config unit n c) arena next info)
  | negsuc n ↦ none
]

-- `operator new` and `operator delete` of `Task`, on thread `me`.
unfoldable pub operator_new :
    ObjectPoolConfig → ℕ → Ptr → ObjectPoolMediator → Ptr × ObjectPoolMediator
unfolding mediator_alloc
operator_new config me arena w = mediator_alloc config me arena w

unfoldable pub operator_delete :
    ObjectPoolConfig → ℕ → Ptr → ObjectPoolMediator → ObjectPoolMediator
unfolding mediator_release
operator_delete config me p w = mediator_release config me p w
