-- ===== src/Pool/Mediator.antt =====
-- `ObjectPoolMediator`: the pools of all threads, the tags of their entries and what each pool caches.
pub mod Cleanup
pub mod Counted
pub mod Daemon
pub mod New
pub mod Reuse
pub mod Setup
pub mod Tag
pub mod Tests
use Prim.Native.Nat.{bit_and, bit_or}
use tythread.Base.{
  ℕ, zero, suc, ◌+◌, ◌*◌, ◌/◌, ◌%◌, ◌^◌, ltb, ◌==◌, if◌then◌else◌, Ptr, null, update,
}
use tythread.Pool.{
  Entries, PerLayerCache, empty_cache, ObjectPool, cache_push, pool_alloc, pool_release,
}
use tythread.Pool.Reclaim.{pool_release_cache}

-- The macros on `combined_info`, an `unsigned` of 32 bits.
unfoldable pub set_id_and_layer : ℕ → ℕ → ℕ
set_id_and_layer id layer = bit_or (id * 2 ^ 16 % 2 ^ 32) layer

unfoldable pub read_id : ℕ → ℕ
read_id info = info / 2 ^ 16

unfoldable pub read_layer : ℕ → ℕ
read_layer info = bit_and info 0xFFFF

-- The parameter `NLayers` of `ObjectPool`.
abbrev pub pool_layers : ℕ
pool_layers = 32

-- `unit` is the size of an entry in bytes.
pub record ObjectPoolConfig : Type 0 where
  pub num_of_thread : ℕ
  pub pool_init_size : ℕ
  pub enlarge_rate : ℕ
  pub max_total_cached : ℕ
  pub cache_reclaim_period : ℕ
  pub unit : ℕ

-- The caches of a pool by the number of the creating pool, and by layer.
pub record ObjectPoolMediator : Type 0 where
  pub next : Entries
  pub combined_info : Ptr → ℕ
  pub pools : ℕ → ObjectPool
  pub caches : ℕ → ℕ → ℕ → PerLayerCache
  pub total_cached : ℕ → ℕ

abbrev pub set_cache : ℕ → ℕ → ℕ → PerLayerCache → ObjectPoolMediator → ObjectPoolMediator
set_cache id i j c w = record w {
  caches = update w.caches id (update (w.caches id) i (update (w.caches id i) j c));
}

-- `ObjectPoolMediator::my_alloc`; `arena` is the address for a new layer.
unfoldable pub mediator_alloc :
    ObjectPoolConfig → ℕ → Ptr → ObjectPoolMediator → Ptr × ObjectPoolMediator
unfolding pool_alloc set_id_and_layer
mediator_alloc config id arena w =
    let (p, layer, next, pool) =
      pool_alloc config.unit config.enlarge_rate arena w.next (w.pools id) in
    (
      p,
      record w {
        next = next;
        combined_info = update w.combined_info p (set_id_and_layer id layer);
        pools = update w.pools id pool;
      },
    )

-- `real_my_release`, for the cache of pool `id` that holds entries of layer j of pool i; the cache is
-- reset.
unfoldable pub real_release : ObjectPoolConfig → ℕ → ℕ → ℕ → ObjectPoolMediator → ObjectPoolMediator
unfolding pool_release_cache
real_release config id i j w =
    let (next, pool) =
      pool_release_cache config.enlarge_rate j (w.caches id i j) w.next (w.pools i) in
    set_cache id i j empty_cache (record w { next = next; pools = update w.pools i pool })

-- The inner loop of `cleanup_all_cache`, with n layers left from j on.
unfoldable pub cleanup_layers :
    ObjectPoolConfig → ℕ → ℕ → ℕ → ℕ → ObjectPoolMediator → ObjectPoolMediator
unfolding real_release
cleanup_layers config id i j zero w = w
cleanup_layers config id i j (suc n) w =
    cleanup_layers config id i (suc j) n
      (if ltb 0 (w.caches id i j).num_cached then real_release config id i j w else w)

-- The outer loop, with n pools left from i on.
unfoldable pub cleanup_pools :
    ObjectPoolConfig → ℕ → ℕ → ℕ → ObjectPoolMediator → ObjectPoolMediator
unfolding cleanup_layers
cleanup_pools config id i zero w = w
cleanup_pools config id i (suc n) w =
    cleanup_pools config id (suc i) n
      (if i == id then w else cleanup_layers config id i 0 pool_layers w)

-- `cleanup_all_cache` of pool `id`.
unfoldable pub cleanup_all_cache : ObjectPoolConfig → ℕ → ObjectPoolMediator → ObjectPoolMediator
unfolding cleanup_pools
cleanup_all_cache config id w =
    let w' = cleanup_pools config id 0 config.num_of_thread w in
    record w' { total_cached = update w'.total_cached id 0 }

-- `do_period_cleanup` of pool `id`.
unfoldable pub do_period_cleanup : ObjectPoolConfig → ℕ → ObjectPoolMediator → ObjectPoolMediator
unfolding cleanup_all_cache
do_period_cleanup config id w = if w.total_cached id == 0 then w else cleanup_all_cache config id w

-- `my_release` for an entry of another pool.
unfoldable pub release_cached : ObjectPoolConfig → ℕ → Ptr → ObjectPoolMediator → ObjectPoolMediator
unfolding cache_push cleanup_all_cache read_id read_layer
release_cached config id p w =
    let i = read_id (w.combined_info p) in
    let j = read_layer (w.combined_info p) in
    let (next, c) = cache_push p w.next (w.caches id i j) in
    let count = w.total_cached id + 1 in
    let w' : ObjectPoolMediator = record (set_cache id i j c w) {
      next = next;
      total_cached = update w.total_cached id count;
    } in
    if ltb config.max_total_cached count then cleanup_all_cache config id w' else w'

-- `ObjectPoolMediator::my_release`, by the thread of pool `id`.
unfoldable pub mediator_release :
    ObjectPoolConfig → ℕ → Ptr → ObjectPoolMediator → ObjectPoolMediator
unfolding pool_release release_cached read_id read_layer
mediator_release config id p w =
    let (next, pool) =
      pool_release config.unit config.enlarge_rate (read_layer (w.combined_info p)) p w.next
        (w.pools id) in
    if read_id (w.combined_info p) == id
    then record w { next = next; pools = update w.pools id pool }
    else release_cached config id p w
