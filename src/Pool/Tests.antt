-- ===== src/Pool/Tests.antt =====
-- The theorems about the object pool at concrete layers.
use tythread.Base.{
  eq_cases, ◌≤◌, ◌≡◌, ◌≢◌, inl, inr, refl, ap, arith, ◌==◌, if◌then◌else◌, Ptr, null, List, [], ◌∷◌,
  length, none, some,
}
use tythread.Pool.{
  ObjectPool, pool_alloc, pool_release, Entries, ObjectLayer, PerLayerCache, not_in_use_after,
  still_in_use_after, object_layer, layer_alloc, layer_release, layer_release_cache,
}
use tythread.Pool.Arena.{Allocates, IsArena, layer_alloc-Allocates, layer_release-IsArena}
use tythread.Pool.Fresh.{object_layer-IsArena}
use tythread.Pool.Cached.{IsCache, layer_release_cache-IsArena}
use tythread.Pool.Reclaim.{pool_release_cache, pool_release_cache-IsSized}
use tythread.Pool.Growth.{pool_alloc-IsSized}
use tythread.Pool.Sizes.{IsSized, IsTrim, pool_release-IsSized}

-- A layer of three entries of 16 bytes at address 100.
abbrev made : Entries × ObjectLayer
made = object_layer 16 3 100 (λ _. null)

made-IsArena : IsArena 16 made.0 made.1 (100 ∷ 116 ∷ 132 ∷ [])
made-IsArena = object_layer-IsArena 16 2 100 (λ _. null) (omega arith) (omega arith) (omega arith)

layer_alloc-Allocates_example :
    Allocates 16 made.0 made.1 (100 ∷ 116 ∷ 132 ∷ []) (layer_alloc made.0 made.1)
layer_alloc-Allocates_example = layer_alloc-Allocates (100 ∷ 116 ∷ 132 ∷ []) made-IsArena

-- The same layer with its first two entries in use.
abbrev in_use : ObjectLayer
in_use = record { arena = 100; arena_cap = 3; head = 132; used = 2 }

abbrev links : Entries
links a = null

in_use-IsArena : IsArena 16 links in_use (132 ∷ [])
in_use-IsArena = record {
  placed = (omega arith, omega arith);
  small = omega arith;
  chain = (refl, omega arith, refl);
  distinct = (tt, tt);
  slots = ((2, omega arith, refl), tt);
  balance = refl;
}

layer_release-IsArena_example :
    IsArena 16
      (layer_release 16 116 links in_use).1
      (layer_release 16 116 links in_use).2
      (116 ∷ 132 ∷ [])
    × ((layer_release 16 116 links in_use).0
        ≡ (if 2 == 1 then not_in_use_after else still_in_use_after))
layer_release-IsArena_example =
    layer_release-IsArena (132 ∷ []) 116 in_use-IsArena (1, omega arith, refl)
      ((λ e. absurd (omega arith)), tt) (omega arith)

abbrev pair_cache : PerLayerCache
pair_cache = record { head = 100; tail = 116; num_cached = 2 }

abbrev cache_links : Entries
cache_links a = if a == 100 then 116 else null

cached-IsArena : IsArena 16 cache_links in_use (132 ∷ [])
cached-IsArena = record {
  placed = (omega arith, omega arith);
  small = omega arith;
  chain = (refl, omega arith, refl);
  distinct = (tt, tt);
  slots = ((2, omega arith, refl), tt);
  balance = refl;
}

pair_cache-IsCache : IsCache cache_links pair_cache (100 ∷ 116 ∷ [])
pair_cache-IsCache = record {
  counts = refl;
  run = inr (refl, omega arith, (refl, refl, omega arith));
}

abbrev pair_entries : List Ptr
pair_entries = 100 ∷ 116 ∷ []

some_entries : pair_entries ≢ []
some_entries e = absurd (omega (arith, ap length e))

layer_release_cache-IsArena_example :
    IsArena 16
      (layer_release_cache pair_cache cache_links in_use).1
      (layer_release_cache pair_cache cache_links in_use).2
      (100 ∷ 116 ∷ 132 ∷ [])
    × ((layer_release_cache pair_cache cache_links in_use).0
        ≡ (if 2 == 2 then not_in_use_after else still_in_use_after))
    × IsCache cache_links (layer_release_cache pair_cache cache_links in_use).3 []
layer_release_cache-IsArena_example =
    layer_release_cache-IsArena (100 ∷ 116 ∷ []) (132 ∷ []) cached-IsArena pair_cache-IsCache
      some_entries
      (
        ((λ e. absurd (omega arith)), ((λ e. absurd (omega arith)), tt)),
        (((λ e. absurd (omega arith)), tt), (tt, tt)),
      )
      ((0, omega arith, refl), ((1, omega arith, refl), tt)) (omega arith)

-- A pool with the layers 0, of three entries, and 1, of six, one of these in use.
abbrev small_pool : ObjectPool
small_pool = record {
  layers = λ i.
      if i == 0
      then some (record { arena = 100; arena_cap = 3; head = null; used = 3 })
      else if i == 1
      then some (record { arena = 500; arena_cap = 6; head = 516; used = 1 })
      else none;
  current_layer = 1;
  current_size = 6;
}

small_pool-IsSized : IsSized 3 2 small_pool
small_pool-IsSized = record {
  size = refl;
  caps = λ i le. elim (eq_cases i 0) [
    | inl (_, e) ↦ rw e refl
    | inr (_, ne) ↦ (let e : i ≡ 1 = omega arith in rw e refl)
  ];
  none_above = λ i lt. ground arith;
}

pool_release-IsSized_example :
    IsSized 3 2 (pool_release 16 2 1 500 links small_pool).1
    × IsTrim (pool_release 16 2 1 500 links small_pool).1
pool_release-IsSized_example =
    pool_release-IsSized 16 3 2 1 500 links small_pool (omega arith) (omega arith)
      small_pool-IsSized (inr refl)

pool_alloc-IsSized_example :
    IsSized 3 2 (pool_alloc 16 2 900 links small_pool).3
    × ((pool_alloc 16 2 900 links small_pool).1
        ≤ (pool_alloc 16 2 900 links small_pool).3.current_layer)
pool_alloc-IsSized_example =
    pool_alloc-IsSized 16 3 2 900 links small_pool small_pool-IsSized (omega arith)

pool_release_cache-IsSized_example :
    IsSized 3 2
      (pool_release_cache 2 1
        (record { head = 500; tail = 500; num_cached = 1 })
        links
        small_pool).1
    × IsTrim
        (pool_release_cache 2 1
          (record { head = 500; tail = 500; num_cached = 1 })
          links
          small_pool).1
pool_release_cache-IsSized_example =
    pool_release_cache-IsSized 3 2 1 (record { head = 500; tail = 500; num_cached = 1 }) links
      small_pool (omega arith) (omega arith) small_pool-IsSized (inr refl)
