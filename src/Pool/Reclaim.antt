-- ===== src/Pool/Reclaim.antt =====
-- A cache goes back to a pool, which may free layers then.
use tythread.Base.{
  ℕ, ◌+◌, ◌-◌, ◌%◌, ◌^◌, ◌*◌, ◌≤◌, ◌<◌, ◌≡◌, refl, sym, ap, ◌∙◌, ◌⊎◌, inl, inr, true, ◌==◌,
  Bool-cases, update, update_self, update-ne, eq_cases, subst, none, some,
}
use tythread.Pool.{
  ObjectPool, is_in_use, is_not_in_use, remove_layer_if_not_in_use, Entries, ObjectLayer,
  PerLayerCache, layer_release_cache,
}
use tythread.Pool.Sizes.{HasCap, IsSized, IsTrim, Option-cases, changed-IsSized, remove-IsSized}

-- `ObjectPool::my_release(int, PerLayerCache &)`.
unfoldable pub pool_release_cache :
    ℕ → ℕ → PerLayerCache → Entries → ObjectPool → Entries × ObjectPool
unfolding remove_layer_if_not_in_use layer_release_cache
pool_release_cache rate layer c next q = elim (q.layers layer) [
  | none ↦ (next, q)
  | some l ↦
      (let (state, next', l', c') = layer_release_cache c next l in
        (
          next',
          remove_layer_if_not_in_use rate layer state
              (record q { layers = update q.layers layer (some l') }),
        ))
]

pool_release_cache-some :
    (rate layer : ℕ) (c : PerLayerCache) (next : Entries) (q : ObjectPool) (l : ObjectLayer)
    → q.layers layer ≡ some l
    → (pool_release_cache rate layer c next q).1
      ≡ remove_layer_if_not_in_use rate layer
          (layer_release_cache c next l).0
          (record q { layers = update q.layers layer (some (layer_release_cache c next l).2) })
unfolding pool_release_cache
pool_release_cache-some rate layer c next q l is =
    ap
      (λ o.
        (elim o as (λ _. Entries × ObjectPool) [
          | none ↦ (next, q)
          | some x ↦ (
            (layer_release_cache c next x).1,
            remove_layer_if_not_in_use rate layer (layer_release_cache c next x).0 (record q {
              layers = update q.layers layer (some (layer_release_cache c next x).2);
            }),
          )
        ]).1)
      is

release_cache-state :
    (c : PerLayerCache) (next : Entries) (l : ObjectLayer)
    → (is_not_in_use (layer_release_cache c next l).0 ≡ true)
      ⊎ (is_in_use (some (layer_release_cache c next l).2) ≡ true)
unfolding layer_release_cache
release_cache-state c next l =
    elim (Bool-cases ((l.used + (2 ^ 64 - c.num_cached)) % 2 ^ 64 == 0)) [
      | inl e ↦ rw e (inl refl)
      | inr e ↦ rw e (inr refl)
    ]

release_cache-cap :
    (c : PerLayerCache) (next : Entries) (l : ObjectLayer)
    → (layer_release_cache c next l).2.arena_cap ≡ l.arena_cap
unfolding layer_release_cache
release_cache-cap c next l = refl

-- Of a pool whose layers have the sizes that the rate gives, with none to be freed at the top, the
-- release of a cache to a layer that is there keeps the sizes and leaves none to be freed at the top.
pub pool_release_cache-IsSized :
    (init rate layer : ℕ) (c : PerLayerCache) (next : Entries) (q : ObjectPool)
    → 0 < rate
    → layer ≤ q.current_layer
    → IsSized init rate q
    → IsTrim q
    → IsSized init rate (pool_release_cache rate layer c next q).1
      × IsTrim (pool_release_cache rate layer c next q).1
pool_release_cache-IsSized init rate layer c next q pos le v trim =
    elim (Option-cases (q.layers layer)) [
      | inl gone ↦ absurd (subst (HasCap (init * rate ^ layer)) gone (v.caps layer le))
      | inr (l, is) ↦
          (let state = (layer_release_cache c next l).0 in
            let l' = (layer_release_cache c next l).2 in
            let q' : ObjectPool = record q { layers = update q.layers layer (some l') } in
            let sized =
              changed-IsSized init rate layer l l' q is (release_cache-cap c next l) le v in
            let self = update_self q.layers layer (some l') in
            rw (pool_release_cache-some rate layer c next q l is) (
              remove-IsSized init rate layer state q' pos le sized
                (elim (eq_cases layer q.current_layer) [
                  | inr (_, other) ↦ inl (
                      rw (update-ne q.layers layer q.current_layer (some l') (λ e. other (sym e)))
                        trim)
                  | inl (_, top) ↦ elim (release_cache-state c next l) [
                    | inl free ↦ inr (free, top)
                    | inr used ↦ inl (inr (rw (sym top) (ap is_in_use self ∙ used)))
                  ]
                ])))
    ]
