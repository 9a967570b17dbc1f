-- ===== src/Pool/Mediator/Setup.antt =====
-- The constructors of `ObjectPoolMediator` and `ObjectPool`, and the setters of `ObjectPoolConfig`.
use tythread.Base.{ℕ, zero, suc, ◌%◌, ◌^◌, Bool, ltb, update, Ptr, none, some}
use tythread.Pool.{Entries, ObjectLayer, ObjectPool, empty_cache, object_layer}
use tythread.Pool.Mediator.{ObjectPoolConfig, ObjectPoolMediator}

-- The setters.
abbrev pub set_num_of_thread : ℕ → ObjectPoolConfig → ObjectPoolConfig
set_num_of_thread p c = record c { num_of_thread = p }

abbrev pub set_pool_init_size : ℕ → ObjectPoolConfig → ObjectPoolConfig
set_pool_init_size p c = record c { pool_init_size = p }

abbrev pub set_enlarge_rate : ℕ → ObjectPoolConfig → ObjectPoolConfig
set_enlarge_rate p c = record c { enlarge_rate = p }

abbrev pub set_max_total_cached : ℕ → ObjectPoolConfig → ObjectPoolConfig
set_max_total_cached p c = record c { max_total_cached = p }

abbrev pub set_cache_reclaim_period : ℕ → ObjectPoolConfig → ObjectPoolConfig
set_cache_reclaim_period p c = record c { cache_reclaim_period = p }

-- A pool with one layer.
unfoldable pub one_layer : ℕ → ObjectLayer → ObjectPool
one_layer size l = record {
  layers = update (λ i. none) 0 (some l);
  current_layer = 0;
  current_size = size % 2 ^ 32;
}

-- `ObjectPool`: pool i, with its first layer in an array at `arena`.
unfoldable pub add_pool : ObjectPoolConfig → ℕ → Ptr → ObjectPoolMediator → ObjectPoolMediator
unfolding object_layer one_layer
add_pool config i arena w =
    let (next, l) = object_layer config.unit config.pool_init_size arena w.next in
    record w {
      next = next;
      pools = update w.pools i (one_layer config.pool_init_size l);
      caches = update w.caches i (λ _ _. empty_cache);
      total_cached = update w.total_cached i 0;
    }

-- The loop of the constructor of the mediator, behind its first n rounds.
unfoldable pub add_pools :
    ObjectPoolConfig → (ℕ → Ptr) → ℕ → ObjectPoolMediator → ObjectPoolMediator
unfolding add_pool
add_pools config arena zero w = w
add_pools config arena (suc n) w = add_pool config n (arena n) (add_pools config arena n w)

-- No pool is there, and nothing is cached.
abbrev pub no_pools : Entries → (Ptr → ℕ) → ObjectPoolMediator
no_pools next info = record {
  next = next;
  combined_info = info;
  pools = λ _. record { layers = λ _. none; current_layer = 0; current_size = 0 };
  caches = λ _ _ _. empty_cache;
  total_cached = λ _. 0;
}

-- `ObjectPoolMediator`, and whether it starts the collecting thread. `arena` has the addresses of the
-- arrays, `next` and `info` what lies in memory.
unfoldable pub object_pool_mediator :
    ObjectPoolConfig → (ℕ → Ptr) → Entries → (Ptr → ℕ) → ObjectPoolMediator × Bool
unfolding add_pools
object_pool_mediator config arena next info = (
  add_pools config arena config.num_of_thread (no_pools next info),
  ltb 0 config.cache_reclaim_period,
)
