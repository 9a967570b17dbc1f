-- ===== src/Pool/Mediator/Tests.antt =====
-- The theorems about the mediator for two pools; pool 1 frees entries of pool 0.
use tythread.Base.{
  ◌+◌, ◌*◌, ◌≢◌, ◌↔◌, true, Ptr, ℕ, ◌<◌, ◌≡◌, refl, arith, none, some, null, ◌==◌, if◌then◌else◌,
}
use tythread.Pool.{empty_cache, object_layer}
use tythread.Pool.Mediator.{
  ObjectPoolConfig, ObjectPoolMediator, pool_layers, read_id, read_layer, mediator_release,
}
use tythread.Pool.Mediator.Counted.{IsCounted, cached, mediator_release-IsCounted}
use tythread.Pool.Mediator.{do_period_cleanup}
use tythread.Pool.Mediator.Counted.{do_period_cleanup-IsCounted}
use tythread.Pool.Mediator.Daemon.{daemon_round, daemon_run, daemon_run-IsCounted}
use tythread.Pool.Mediator.Setup.{object_pool_mediator}
use tythread.Pool.Mediator.New.{AreDisjoint, IsNew, object_pool_mediator-IsNew}
use tythread.Pool.Sizes.{IsSized, IsTrim}
use tythread.Sum.{total}

abbrev two_pools : ObjectPoolConfig
two_pools = record {
  num_of_thread = 2;
  pool_init_size = 4;
  enlarge_rate = 2;
  max_total_cached = 1;
  cache_reclaim_period = 0;
  unit = 16;
}

-- A layer of four entries at 64, of which the allocation takes the first.
abbrev new_mediator : ObjectPoolMediator
unfolding object_layer
new_mediator = record {
  next = (object_layer 16 4 64 (λ _. null)).0;
  combined_info = λ _. 0;
  pools = λ _. record {
    layers = λ i. if i == 0 then some (object_layer 16 4 64 (λ _. null)).1 else none;
    current_layer = 0;
    current_size = 4;
  };
  caches = λ _ _ _. empty_cache;
  total_cached = λ _. 0;
}

new-IsCounted : (k : ℕ) → IsCounted two_pools k new_mediator
unfolding new_mediator total
new-IsCounted k = record { counts = refl; own = λ j. refl; bound = omega arith }

info_id : read_id (new_mediator.combined_info 64) < 2
unfolding read_id new_mediator
info_id = omega arith

info_layer : read_layer (new_mediator.combined_info 64) < pool_layers
unfolding read_layer new_mediator
info_layer = omega arith

once-IsCounted : (k : ℕ) → IsCounted two_pools k (mediator_release two_pools 1 64 new_mediator)
once-IsCounted =
    mediator_release-IsCounted two_pools 1 64 new_mediator info_id info_layer new-IsCounted

mediator_release-IsCounted_example :
    IsCounted two_pools 1 (mediator_release two_pools 1 64 new_mediator)
mediator_release-IsCounted_example =
    mediator_release-IsCounted two_pools 1 64 new_mediator info_id info_layer new-IsCounted 1

-- The other threads clean up pool 0.
abbrev others : ObjectPoolMediator → ObjectPoolMediator
others w = do_period_cleanup two_pools 0 w

abbrev released : ObjectPoolMediator
released = mediator_release two_pools 1 64 new_mediator

daemon_run-IsCounted_example :
    let ran = daemon_run two_pools (λ r k. others) 2 released in
    let cleaned = daemon_round two_pools (λ k. others) 2 ran in
    IsCounted two_pools 1 ran × IsCounted two_pools 1 cleaned × (cached two_pools 1 cleaned ≡ 0)
daemon_run-IsCounted_example =
    daemon_run-IsCounted two_pools (λ r k. others) 2 released once-IsCounted
      (λ r k w all j. (do_period_cleanup-IsCounted two_pools 0 w all j).0) 0 1

abbrev arrays : ℕ → Ptr
arrays i = 4096 + i * 64

arrays-AreDisjoint : (i k : ℕ) → i ≢ k → AreDisjoint 16 4 (arrays i) (arrays k)
arrays-AreDisjoint i k ne = omega arith

object_pool_mediator-IsNew_example :
    IsNew two_pools (arrays 1) 1 (object_pool_mediator two_pools arrays (λ _. null) (λ _. 0)).0
    × IsSized 4 2 ((object_pool_mediator two_pools arrays (λ _. null) (λ _. 0)).0.pools 1)
    × IsTrim ((object_pool_mediator two_pools arrays (λ _. null) (λ _. 0)).0.pools 1)
    × IsCounted two_pools 1 (object_pool_mediator two_pools arrays (λ _. null) (λ _. 0)).0
    × (((object_pool_mediator two_pools arrays (λ _. null) (λ _. 0)).1 ≡ true)
        ↔ (0 < two_pools.cache_reclaim_period))
object_pool_mediator-IsNew_example =
    object_pool_mediator-IsNew two_pools arrays (λ _. null) (λ _. 0) (omega arith) (omega arith)
      (omega arith) (λ i. omega arith) arrays-AreDisjoint 1 (omega arith)
