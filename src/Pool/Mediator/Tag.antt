-- ===== src/Pool/Mediator/Tag.antt =====
-- The tag of an entry says which pool created it, in which layer.
use tythread.Base.{
  ℕ, zero, suc, ◌+◌, ◌*◌, ◌%◌, ◌^◌, ◌≤◌, ◌<◌, ◌≡◌, ◌∙◌, arith, Ptr, null, Bool-cases, inl, inr,
  ◌==◌, update_self,
}
use tythread.Pool.{ObjectPool, Entries, alloc_from, alloc_down, pool_alloc}
use tythread.Pool.Bits.{or_above, and_mask}
use tythread.Pool.Mediator.{
  ObjectPoolConfig, ObjectPoolMediator, set_id_and_layer, read_id, read_layer, mediator_alloc,
  pool_layers,
}

-- For a pool and a layer of 16 bits, both are read from the tag as they were set, and the tag is a word
-- of 32 bits.
pub set_id_and_layer-read :
    (id layer : ℕ)
    → id < 2 ^ 16
    → layer < 2 ^ 16
    → (read_id (set_id_and_layer id layer) ≡ id)
      × (read_layer (set_id_and_layer id layer) ≡ layer)
      × (set_id_and_layer id layer < 2 ^ 32)
unfolding set_id_and_layer read_id read_layer
set_id_and_layer-read id layer a b =
    let high : id * 2 ^ 16 % 2 ^ 32 ≡ id * 2 ^ 16 = omega arith in
    rw (high, or_above 16 id layer b)
      (omega arith, and_mask 16 (id * 2 ^ 16 + layer) ∙ omega arith, omega arith)

alloc_from-layer : (i : ℕ) (next : Entries) (q : ObjectPool) → (alloc_from i next q).1 ≡ i
unfolding alloc_from
alloc_from-layer i next q = ground arith

alloc_down-layer : (i : ℕ) (next : Entries) (q : ObjectPool) → (alloc_down i next q).1 ≤ i
unfolding alloc_down
alloc_down-layer zero next q = omega (arith, alloc_from-layer 0 next q)
alloc_down-layer (suc i) next q = elim (Bool-cases ((alloc_from (suc i) next q).0 == null)) [
  | inl e ↦ rw e (omega (arith, alloc_down-layer i next q))
  | inr e ↦ rw e (omega (arith, alloc_from-layer (suc i) next q))
]

pool_alloc-layer :
    (unit rate : ℕ) (arena : Ptr) (next : Entries) (q : ObjectPool)
    → (pool_alloc unit rate arena next q).1 ≤ q.current_layer + 1
unfolding pool_alloc
pool_alloc-layer unit rate arena next q =
    elim (Bool-cases ((alloc_down q.current_layer next q).0 == null)) [
      | inl e ↦ rw e (omega arith)
      | inr e ↦ rw e (omega (arith, alloc_down-layer q.current_layer next q))
    ]

-- The tag of the entry that an allocation returns, behind it.
abbrev pub tag_after : ObjectPoolConfig → ℕ → Ptr → ObjectPoolMediator → ℕ
unfolding mediator_alloc
tag_after config id arena w = let (p, w') = mediator_alloc config id arena w in w'.combined_info p

-- The entry that pool `id` hands out, one of fewer than 2 ^ 16 pools and with a layer to spare, is
-- tagged with the pool and with the layer that it is from, one of the layers that there can be.
pub mediator_alloc-tag :
    (config : ObjectPoolConfig) (id : ℕ) (arena : Ptr) (w : ObjectPoolMediator)
    → id < 2 ^ 16
    → (w.pools id).current_layer + 1 < pool_layers
    → (read_id (tag_after config id arena w) ≡ id)
      × (read_layer (tag_after config id arena w)
          ≡ (pool_alloc config.unit config.enlarge_rate arena w.next (w.pools id)).1)
      × (read_layer (tag_after config id arena w) < pool_layers)
unfolding tag_after mediator_alloc
mediator_alloc-tag config id arena w a b =
    let out = pool_alloc config.unit config.enlarge_rate arena w.next (w.pools id) in
    let layer = pool_alloc-layer config.unit config.enlarge_rate arena w.next (w.pools id) in
    let (same_id, same_layer, _) = set_id_and_layer-read id out.1 a (omega (arith, layer)) in
    rw (update_self w.combined_info out.0 (set_id_and_layer id out.1))
      (same_id, same_layer, omega (arith, same_layer, layer))
