-- ===== src/Pool/Mediator/Counted.antt =====
-- `total_cached` counts what a pool caches.
use tythread.Base.{
  ℕ, ◌+◌, ◌≤◌, ◌<◌, ◌≡◌, refl, sym, ap, ◌∙◌, ◌≢◌, ◌⊎◌, inl, inr, arith, Bool-cases, eq_cases, ltb,
  Ptr, update, update_self, update-ne,
}
use tythread.Pool.{Entries, PerLayerCache, cache_push}
use tythread.Pool.Mediator.{
  ObjectPoolConfig, ObjectPoolMediator, pool_layers, set_cache, read_id, read_layer, cleanup_pools,
  cleanup_all_cache, do_period_cleanup, release_cached, mediator_release,
}
use tythread.Sum.{total, total-same, total-zero, total-one}
use tythread.Pool.Mediator.Cleanup.{
  num, set_cache-here, set_cache-else, pools-else, pools-here, pools-total,
}

-- All entries that pool k caches.
abbrev pub cached : ObjectPoolConfig → ℕ → ObjectPoolMediator → ℕ
cached config k w = total config.num_of_thread (λ i. total pool_layers (num w k i))

-- The count is right and within its limit, and the pool caches none of its own entries.
pub record IsCounted (config : ObjectPoolConfig) (k : ℕ) (w : ObjectPoolMediator) : Type 0 where
  pub counts : w.total_cached k ≡ cached config k w
  pub own : (j : ℕ) → num w k k j ≡ 0
  pub bound : w.total_cached k ≤ config.max_total_cached

-- After the clean-up a pool caches nothing, and the other pools cache what they did.
module _ (config : ObjectPoolConfig) (id : ℕ) (w : ObjectPoolMediator) where
  abbrev cleaned : ObjectPoolMediator
  unfolding cleanup_pools
  cleaned = cleanup_pools config id 0 config.num_of_thread w

  cleanup-counts :
      ((j : ℕ) → num w id id j ≡ 0) → cached config id (cleanup_all_cache config id w) ≡ 0
  unfolding cleanup_all_cache
  cleanup-counts own =
      total-zero config.num_of_thread (λ i. total pool_layers (num cleaned id i))
        (λ i b. total-zero pool_layers (num cleaned id i) (λ j c. elim (eq_cases i id) [
          | inl (_, e) ↦
              rw e (pools-else config id config.num_of_thread 0 w id id j (inr (inl refl)) ∙ own j)
          | inr (_, ne) ↦
              pools-here config id config.num_of_thread 0 w i j (omega arith) (omega arith) ne c
        ]))

  cleanup-IsCounted :
      ((j : ℕ) → num w id id j ≡ 0) → IsCounted config id (cleanup_all_cache config id w)
  unfolding cleanup_all_cache
  cleanup-IsCounted own = record {
    counts = update_self cleaned.total_cached id 0 ∙ sym (cleanup-counts own);
    own = λ j. pools-else config id config.num_of_thread 0 w id id j (inr (inl refl)) ∙ own j;
    bound = rw (update_self cleaned.total_cached id 0) (omega arith);
  }

  cleanup-else :
      (k : ℕ) → k ≢ id → IsCounted config k w → IsCounted config k (cleanup_all_cache config id w)
  unfolding cleanup_all_cache
  cleanup-else k ne v =
      let count =
        update-ne cleaned.total_cached id k 0 ne
        ∙ ap (λ f. f k) (pools-total config id config.num_of_thread 0 w) in
      let same = λ (i j : ℕ). pools-else config id config.num_of_thread 0 w k i j (inl ne) in
      record {
        counts =
            count
            ∙ v.counts
            ∙ sym (
                total-same config.num_of_thread _ _
                  (λ i b. total-same pool_layers _ _ (λ j c. same i j)));
        own = λ j. same k j ∙ v.own j;
        bound = rw count v.bound;
      }

cache_push-num :
    (p : Ptr) (next : Entries) (c : PerLayerCache)
    → (cache_push p next c).1.num_cached ≡ c.num_cached + 1
unfolding cache_push
cache_push-num p next c = ground arith

module _ (config : ObjectPoolConfig) (id : ℕ) (p : Ptr) (w : ObjectPoolMediator) where
  abbrev tag_id : ℕ
  unfolding read_id
  tag_id = read_id (w.combined_info p)

  abbrev tag_layer : ℕ
  unfolding read_layer
  tag_layer = read_layer (w.combined_info p)

  -- The entry is in its cache, and counted.
  abbrev pushed : ObjectPoolMediator
  unfolding cache_push tag_id tag_layer
  pushed =
      record (set_cache id tag_id tag_layer (cache_push p w.next (w.caches id tag_id tag_layer)).1
        w) {
          next = (cache_push p w.next (w.caches id tag_id tag_layer)).0;
          total_cached = update w.total_cached id (w.total_cached id + 1);
        }

  pushed-here : num pushed id tag_id tag_layer ≡ num w id tag_id tag_layer + 1
  unfolding pushed
  pushed-here =
      let c = (cache_push p w.next (w.caches id tag_id tag_layer)).1 in
      set_cache-here id tag_id tag_layer c w
      ∙ cache_push-num p w.next (w.caches id tag_id tag_layer)

  pushed-else :
      (k i j : ℕ) → (k ≢ id) ⊎ (i ≢ tag_id) ⊎ (j ≢ tag_layer) → num pushed k i j ≡ num w k i j
  unfolding pushed
  pushed-else k i j off =
      set_cache-else id tag_id tag_layer (cache_push p w.next (w.caches id tag_id tag_layer)).1 w k
        i j off

  pushed-counts :
      tag_id < config.num_of_thread
      → tag_layer < pool_layers
      → cached config id pushed ≡ cached config id w + 1
  pushed-counts a b =
      let layer =
        total-one pool_layers tag_layer (num pushed id tag_id) (num w id tag_id) b
          (λ j c ne. pushed-else id tag_id j (inr (inr ne))) in
      let row =
        total-one config.num_of_thread tag_id (λ i. total pool_layers (num pushed id i))
          (λ i. total pool_layers (num w id i)) a
          (λ i c ne. total-same pool_layers _ _ (λ j d. pushed-else id i j (inr (inl ne)))) in
      omega (arith, layer, row, pushed-here)

  pushed-total : (k : ℕ) → k ≢ id → pushed.total_cached k ≡ w.total_cached k
  unfolding pushed
  pushed-total k ne = update-ne w.total_cached id k (w.total_cached id + 1) ne

  pushed-total_here : pushed.total_cached id ≡ w.total_cached id + 1
  unfolding pushed
  pushed-total_here = update_self w.total_cached id (w.total_cached id + 1)

  pushed-kept : (k : ℕ) → k ≢ id → IsCounted config k w → IsCounted config k pushed
  pushed-kept k ne v = record {
    counts =
        pushed-total k ne
        ∙ v.counts
        ∙ sym (
            total-same config.num_of_thread _ _
              (λ i b. total-same pool_layers _ _ (λ j c. pushed-else k i j (inl ne))));
    own = λ j. pushed-else k k j (inl ne) ∙ v.own j;
    bound = rw (pushed-total k ne) v.bound;
  }

  pushed-IsCounted :
      tag_id < config.num_of_thread
      → tag_layer < pool_layers
      → ((j : ℕ) → num pushed id id j ≡ 0)
      → w.total_cached id + 1 ≤ config.max_total_cached
      → IsCounted config id w
      → IsCounted config id pushed
  pushed-IsCounted a b own room v = record {
    counts = omega (arith, pushed-total_here, pushed-counts a b, v.counts);
    own = own;
    bound = rw pushed-total_here room;
  }

  release_cached-IsCounted :
      (k : ℕ)
      → tag_id ≢ id
      → tag_id < config.num_of_thread
      → tag_layer < pool_layers
      → IsCounted config id w
      → IsCounted config k w
      → IsCounted config k (release_cached config id p w)
  unfolding release_cached pushed
  release_cached-IsCounted k other a b mine v =
      let own = λ (j : ℕ). pushed-else id id j (inr (inl (λ e. other (sym e)))) ∙ mine.own j in
      elim (Bool-cases (ltb config.max_total_cached (w.total_cached id + 1))) [
        | inl full ↦ rw full (elim (eq_cases k id) [
          | inl (_, e) ↦ rw e (cleanup-IsCounted config id pushed own)
          | inr (_, ne) ↦ cleanup-else config id pushed k ne (pushed-kept k ne v)
        ])
        | inr room ↦ rw room (elim (eq_cases k id) [
          | inl (_, e) ↦ rw e (pushed-IsCounted a b own (ground arith) mine)
          | inr (_, ne) ↦ pushed-kept k ne v
        ])
      ]

-- Where the tag of an entry names one of the pools and one of the layers, and each pool counts right
-- what it caches, caches none of its own and no more than the limit, this is so after `my_release` of the
-- entry by the thread of any pool.
pub mediator_release-IsCounted :
    (config : ObjectPoolConfig) (id : ℕ) (p : Ptr) (w : ObjectPoolMediator)
    → read_id (w.combined_info p) < config.num_of_thread
    → read_layer (w.combined_info p) < pool_layers
    → ((k : ℕ) → IsCounted config k w)
    → (k : ℕ) → IsCounted config k (mediator_release config id p w)
unfolding mediator_release tag_id tag_layer
mediator_release-IsCounted config id p w a b all k =
    elim (eq_cases (read_id (w.combined_info p)) id) [
      | inl (test, _) ↦
          rw test (record { counts = (all k).counts; own = (all k).own; bound = (all k).bound })
      | inr (test, other) ↦
          rw test (release_cached-IsCounted config id p w k other a b (all id) (all k))
    ]

-- The periodic clean-up keeps all this, and empties the caches of its pool.
pub do_period_cleanup-IsCounted :
    (config : ObjectPoolConfig) (id : ℕ) (w : ObjectPoolMediator)
    → ((k : ℕ) → IsCounted config k w)
    → (k : ℕ)
    → IsCounted config k (do_period_cleanup config id w)
      × (cached config id (do_period_cleanup config id w) ≡ 0)
unfolding do_period_cleanup
do_period_cleanup-IsCounted config id w all k = elim (eq_cases (w.total_cached id) 0) [
  | inl (test, none_left) ↦ rw test (all k, sym (all id).counts ∙ none_left)
  | inr (test, _) ↦ rw test (
    elim (eq_cases k id) [
      | inl (_, e) ↦ rw e (cleanup-IsCounted config id w (all id).own)
      | inr (_, ne) ↦ cleanup-else config id w k ne (all k)
    ],
    cleanup-counts config id w (all id).own,
  )
]
