-- ===== src/Pool/Mediator/Cleanup.antt =====
-- What the loops of `cleanup_all_cache` do to the caches.
use tythread.Base.{
  ℕ, zero, suc, ◌+◌, ◌≤◌, ◌<◌, ◌≡◌, refl, ◌∙◌, ◌≢◌, ◌⊎◌, inl, inr, arith, Bool-cases, eq_cases, ltb,
  ◌==◌, false, if◌then◌else◌,
}
use tythread.Pool.{PerLayerCache, empty_cache}
use tythread.Pool.Mediator.{
  ObjectPoolConfig, ObjectPoolMediator, pool_layers, set_cache, real_release, cleanup_layers,
  cleanup_pools,
}

abbrev pub num : ObjectPoolMediator → ℕ → ℕ → ℕ → ℕ
num w k i j = (w.caches k i j).num_cached

module _ (id i j : ℕ) (c : PerLayerCache) (w : ObjectPoolMediator) where
  pub set_cache-here : num (set_cache id i j c w) id i j ≡ c.num_cached
  set_cache-here = ground arith

  pub set_cache-else :
      (k i' j' : ℕ)
      → (k ≢ id) ⊎ (i' ≢ i) ⊎ (j' ≢ j)
      → num (set_cache id i j c w) k i' j' ≡ num w k i' j'
  set_cache-else k i' j' off = ground arith

module _ (config : ObjectPoolConfig) (id i : ℕ) where
  abbrev round : ℕ → ObjectPoolMediator → ObjectPoolMediator
  round j w = if ltb 0 (num w id i j) then real_release config id i j w else w

  round-here : (j : ℕ) (w : ObjectPoolMediator) → num (round j w) id i j ≡ 0
  unfolding real_release
  round-here j w = elim (Bool-cases (ltb 0 (num w id i j))) [
    | inl e ↦ rw e (set_cache-here id i j empty_cache w)
    | inr e ↦ rw e (ground arith)
  ]

  round-else :
      (j : ℕ) (w : ObjectPoolMediator) (k i' j' : ℕ)
      → (k ≢ id) ⊎ (i' ≢ i) ⊎ (j' ≢ j)
      → num (round j w) k i' j' ≡ num w k i' j'
  unfolding real_release
  round-else j w k i' j' off = elim (Bool-cases (ltb 0 (num w id i j))) [
    | inl e ↦ rw e (set_cache-else id i j empty_cache w k i' j' off)
    | inr e ↦ rw e refl
  ]

  round-total : (j : ℕ) (w : ObjectPoolMediator) → (round j w).total_cached ≡ w.total_cached
  unfolding real_release
  round-total j w = elim (Bool-cases (ltb 0 (num w id i j))) [
    | inl e ↦ rw e refl
    | inr e ↦ rw e refl
  ]

  layers-else :
      (n j : ℕ) (w : ObjectPoolMediator) (k i' j' : ℕ)
      → (k ≢ id) ⊎ (i' ≢ i) ⊎ (j' < j)
      → num (cleanup_layers config id i j n w) k i' j' ≡ num w k i' j'
  unfolding cleanup_layers
  layers-else zero j w k i' j' off = refl
  layers-else (suc n) j w k i' j' off =
      layers-else n (suc j) (round j w) k i' j' (ground arith)
      ∙ round-else j w k i' j' (ground arith)

  layers-here :
      (n j : ℕ) (w : ObjectPoolMediator) (j' : ℕ)
      → j ≤ j'
      → j' < j + n
      → num (cleanup_layers config id i j n w) id i j' ≡ 0
  unfolding cleanup_layers
  layers-here zero j w j' a b = absurd (omega arith)
  layers-here (suc n) j w j' a b = elim (eq_cases j' j) [
    | inl (_, e) ↦
        rw e (layers-else n (suc j) (round j w) id i j (inr (inr (omega arith))) ∙ round-here j w)
    | inr (_, ne) ↦ layers-here n (suc j) (round j w) j' (omega arith) (omega arith)
  ]

  layers-total :
      (n j : ℕ) (w : ObjectPoolMediator)
      → (cleanup_layers config id i j n w).total_cached ≡ w.total_cached
  unfolding cleanup_layers
  layers-total zero j w = refl
  layers-total (suc n) j w = layers-total n (suc j) (round j w) ∙ round-total j w

module _ (config : ObjectPoolConfig) (id : ℕ) where
  abbrev turn : ℕ → ObjectPoolMediator → ObjectPoolMediator
  turn i w = if i == id then w else cleanup_layers config id i 0 pool_layers w

  turn-else :
      (i : ℕ) (w : ObjectPoolMediator) (k i' j' : ℕ)
      → (k ≢ id) ⊎ (i' ≡ id) ⊎ (i' ≢ i)
      → num (turn i w) k i' j' ≡ num w k i' j'
  turn-else i w k i' j' off = elim (eq_cases i id) [
    | inl (test, _) ↦ rw test refl
    | inr (test, ne) ↦ rw test (layers-else config id i pool_layers 0 w k i' j' (ground arith))
  ]

  turn-here :
      (i : ℕ) (w : ObjectPoolMediator) (j' : ℕ)
      → i ≢ id
      → j' < pool_layers
      → num (turn i w) id i j' ≡ 0
  turn-here i w j' ne b =
      let test : (i == id) ≡ false = ground arith in
      rw test (layers-here config id i pool_layers 0 w j' (omega arith) (omega arith))

  turn-total : (i : ℕ) (w : ObjectPoolMediator) → (turn i w).total_cached ≡ w.total_cached
  turn-total i w = elim (Bool-cases (i == id)) [
    | inl e ↦ rw e refl
    | inr e ↦ rw e (layers-total config id i pool_layers 0 w)
  ]

  pub pools-else :
      (n i : ℕ) (w : ObjectPoolMediator) (k i' j' : ℕ)
      → (k ≢ id) ⊎ (i' ≡ id) ⊎ (i' < i)
      → num (cleanup_pools config id i n w) k i' j' ≡ num w k i' j'
  unfolding cleanup_pools
  pools-else zero i w k i' j' off = refl
  pools-else (suc n) i w k i' j' off =
      pools-else n (suc i) (turn i w) k i' j' (ground arith) ∙ turn-else i w k i' j' (ground arith)

  pub pools-here :
      (n i : ℕ) (w : ObjectPoolMediator) (i' j' : ℕ)
      → i ≤ i'
      → i' < i + n
      → i' ≢ id
      → j' < pool_layers
      → num (cleanup_pools config id i n w) id i' j' ≡ 0
  unfolding cleanup_pools
  pools-here zero i w i' j' a b ne c = absurd (omega arith)
  pools-here (suc n) i w i' j' a b ne c = elim (eq_cases i' i) [
    | inl (_, e) ↦ rw e (
        pools-else n (suc i) (turn i w) id i j' (inr (inr (omega arith)))
        ∙ turn-here i w j' (λ x. ne (e ∙ x)) c)
    | inr (_, other) ↦ pools-here n (suc i) (turn i w) i' j' (omega arith) (omega arith) ne c
  ]

  pub pools-total :
      (n i : ℕ) (w : ObjectPoolMediator)
      → (cleanup_pools config id i n w).total_cached ≡ w.total_cached
  unfolding cleanup_pools
  pools-total zero i w = refl
  pools-total (suc n) i w = pools-total n (suc i) (turn i w) ∙ turn-total i w
