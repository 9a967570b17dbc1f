-- ===== src/Pool/Mediator/New.antt =====
-- What the constructors of the mediator and of its pools leave.
use native.Mathlib.Nat.{mul-lt-mul_of_pos_right, pow-zero}
use tythread.Base.{
  ℕ, zero, suc, ◌+◌, ◌-◌, ◌*◌, ◌%◌, ◌^◌, ◌≤◌, ◌<◌, ◌≡◌, refl, sym, ap, ◌∙◌, ◌≢◌, ◌⊎◌, inl, inr, ◌↔◌,
  true, arith, eq_cases, update, update_self, update-ne, Ptr, null, List, [], ◌∷◌, subst, none,
  some,
}
use tythread.Pool.{Entries, ObjectLayer, empty_cache, slot, link_entries, object_layer}
use tythread.Pool.Arena.{Chain, Slots, IsArena}
use tythread.Pool.Fresh.{entries_from, object_layer-IsArena}
use tythread.Pool.Mediator.{ObjectPoolConfig, ObjectPoolMediator, pool_layers}
use tythread.Pool.Mediator.Cleanup.{num}
use tythread.Pool.Mediator.Counted.{IsCounted}
use tythread.Pool.Sizes.{HasCap, IsSized, IsTrim}
use tythread.Sum.{total, total-zero}
use tythread.Pool.Mediator.Setup.{one_layer, add_pool, add_pools, no_pools, object_pool_mediator}

-- The two arrays of n entries do not meet.
abbrev pub AreDisjoint : ℕ → ℕ → Ptr → Ptr → Type 0
AreDisjoint unit n a b = (a + n * unit ≤ b) ⊎ (b + n * unit ≤ a)

slot-else :
    (unit n : ℕ) (a b : Ptr) (i j : ℕ)
    → 0 < unit
    → AreDisjoint unit n a b
    → i < n
    → j < n
    → slot unit a i ≢ slot unit b j
slot-else unit n a b i j pos off bi bj e =
    let in_a = mul-lt-mul_of_pos_right bi pos in
    let in_b = mul-lt-mul_of_pos_right bj pos in absurd (omega (arith, e, in_a, in_b, off))

link_entries-else :
    (unit : ℕ) (a : Ptr) (i n : ℕ) (next : Entries) (q : Ptr)
    → ((j : ℕ) → i ≤ j → j ≤ i + n → q ≢ slot unit a j)
    → link_entries unit a i n next q ≡ next q
unfolding link_entries
link_entries-else unit a i zero next q off =
    update-ne next (slot unit a i) q null (off i (omega arith) (omega arith))
link_entries-else unit a i (suc n) next q off =
    link_entries-else unit a (suc i) n _ q (λ j lo hi. off j (omega arith) (omega arith))
    ∙ update-ne next (slot unit a i) q (slot unit a (suc i)) (off i (omega arith) (omega arith))

-- A chain depends on the entries in it only.
Chain-same :
    (next next' : Entries) (unit : ℕ) (a : Ptr) (n : ℕ) (p : Ptr) (xs : List Ptr)
    → ((i : ℕ) → i < n → next' (slot unit a i) ≡ next (slot unit a i))
    → Slots unit a n xs
    → Chain next p xs
    → Chain next' p xs
Chain-same next next' unit a n p [] same slots c = c
Chain-same next next' unit a n p (x ∷ xs) same ((i, b, e), slots) (is, real, c) =
    let here : next' x ≡ next x = ap next' e ∙ same i b ∙ ap next (sym e) in
    (is, real, rw here (Chain-same next next' unit a n (next x) xs same slots c))

-- The first layer of a pool, all of its m + 1 entries free.
abbrev pub first_layer : ℕ → Ptr → ObjectLayer
first_layer size arena = record { arena = arena; arena_cap = size; head = arena; used = 0 }

-- Pool i is as its constructor leaves it: one layer, in its own array, with all entries free.
pub record IsNew (config : ObjectPoolConfig) (arena : Ptr) (i : ℕ) (w : ObjectPoolMediator)
    : Type 0 where
  pub pool : w.pools i ≡ one_layer config.pool_init_size (first_layer config.pool_init_size arena)
  pub free :
      IsArena config.unit w.next
        (first_layer config.pool_init_size arena)
        (entries_from config.unit arena 0 (config.pool_init_size - 1))

module _ (config : ObjectPoolConfig) (pos : 0 < config.unit)
    (some_entry : 0 < config.pool_init_size) (small : config.pool_init_size < 2 ^ 64) where
  add_pool-here :
      (i : ℕ) (arena : Ptr) (w : ObjectPoolMediator)
      → 0 < arena
      → IsNew config arena i (add_pool config i arena w)
  unfolding add_pool object_layer
  add_pool-here i arena w real = record {
    pool = update_self w.pools i _;
    free =
        (let size : suc (config.pool_init_size - 1) ≡ config.pool_init_size = omega arith in
          subst
            (λ n.
              IsArena config.unit (link_entries config.unit arena 0 (n - 1) w.next)
                (first_layer n arena)
                (entries_from config.unit arena 0 (config.pool_init_size - 1)))
            size
            (object_layer-IsArena config.unit (config.pool_init_size - 1) arena w.next pos real
              (omega arith)));
  }

  add_pool-else :
      (i k : ℕ) (arena other : Ptr) (w : ObjectPoolMediator)
      → k ≢ i
      → AreDisjoint config.unit config.pool_init_size other arena
      → IsNew config other k w
      → IsNew config other k (add_pool config i arena w)
  unfolding add_pool object_layer
  add_pool-else i k arena other w ne off v = record {
    pool = update-ne w.pools i k _ ne ∙ v.pool;
    free = record {
      placed = v.free.placed;
      small = v.free.small;
      chain =
          Chain-same w.next _ config.unit other config.pool_init_size other _
            (λ s b.
              link_entries-else config.unit arena 0 (config.pool_init_size - 1) w.next
                (slot config.unit other s)
                (λ j lo hi.
                  slot-else config.unit config.pool_init_size other arena s j pos off b
                    (omega arith)))
            v.free.slots v.free.chain;
      distinct = v.free.distinct;
      slots = v.free.slots;
      balance = v.free.balance;
    };
  }

  module _ (arena : ℕ → Ptr) (real : (i : ℕ) → 0 < arena i)
      (apart : (i k : ℕ)
        → i ≢ k
        → AreDisjoint config.unit config.pool_init_size (arena i) (arena k)) where
    add_pools-IsNew :
        (n : ℕ) (w : ObjectPoolMediator) (i : ℕ)
        → i < n
        → IsNew config (arena i) i (add_pools config arena n w)
    unfolding add_pools
    add_pools-IsNew zero w i b = absurd (omega arith)
    add_pools-IsNew (suc n) w i b = elim (eq_cases i n) [
      | inl (_, e) ↦ rw e (add_pool-here n (arena n) (add_pools config arena n w) (real n))
      | inr (_, ne) ↦
          add_pool-else n i (arena n) (arena i) (add_pools config arena n w) ne (apart i n ne)
            (add_pools-IsNew n w i (omega arith))
    ]

-- A new pool has its sizes in order, and no layer to be freed.
new-IsSized :
    (config : ObjectPoolConfig) (arena : Ptr) (i : ℕ) (w : ObjectPoolMediator)
    → config.pool_init_size < 2 ^ 32
    → IsNew config arena i w
    → IsSized config.pool_init_size config.enlarge_rate (w.pools i) × IsTrim (w.pools i)
unfolding one_layer
new-IsSized config arena i w small v =
    let size = config.pool_init_size in
    let l = first_layer size arena in
    let fits : size % 2 ^ 32 ≡ size = omega arith in
    let one : size * config.enlarge_rate ^ 0 ≡ size = rw pow-zero (omega arith) in
    rw (v.pool, one_layer)
      (
        record {
          size = fits ∙ sym one;
          caps = λ k le.
              (let is : k ≡ 0 = omega arith in
                subst
                  (λ j. HasCap (size * config.enlarge_rate ^ j) (update (λ _. none) 0 (some l) j))
                  (sym is) (sym one));
          none_above = λ k lt. update-ne (λ _. none) 0 k (some l) (omega arith);
        },
        inl refl,
      )

-- Nothing is cached yet.
add_pools-num :
    (config : ObjectPoolConfig) (arena : ℕ → Ptr) (n : ℕ) (next : Entries) (info : Ptr → ℕ)
    → (k : ℕ)
    → ((add_pools config arena n (no_pools next info)).total_cached k ≡ 0)
      × ((i j : ℕ) → num (add_pools config arena n (no_pools next info)) k i j ≡ 0)
unfolding add_pools add_pool
add_pools-num config arena zero next info k = (refl, λ i j. refl)
add_pools-num config arena (suc n) next info k =
    let w = add_pools config arena n (no_pools next info) in
    let (count, none_cached) = add_pools-num config arena n next info k in
    elim (eq_cases k n) [
      | inl (_, e) ↦ (
        ap (update w.total_cached n 0) e ∙ update_self w.total_cached n 0,
        λ i j.
            ap (λ c. (c i j).num_cached)
              (ap (update w.caches n (λ _ _. empty_cache)) e
                ∙ update_self w.caches n (λ _ _. empty_cache)),
      )
      | inr (_, ne) ↦ (
        update-ne w.total_cached n k 0 ne ∙ count,
        λ i j.
            ap (λ c. (c i j).num_cached) (update-ne w.caches n k (λ _ _. empty_cache) ne)
            ∙ none_cached i j,
      )
    ]

new-IsCounted :
    (config : ObjectPoolConfig) (arena : ℕ → Ptr) (n : ℕ) (next : Entries) (info : Ptr → ℕ) (k : ℕ)
    → IsCounted config k (add_pools config arena n (no_pools next info))
new-IsCounted config arena n next info k =
    let w = add_pools config arena n (no_pools next info) in
    let (count, none_cached) = add_pools-num config arena n next info k in
    record {
      counts =
          count
          ∙ sym (
              total-zero config.num_of_thread (λ i. total pool_layers (num w k i))
                (λ i b. total-zero pool_layers (num w k i) (λ j c. none_cached i j)));
      own = λ j. none_cached k j;
      bound = rw count (omega arith);
    }

-- A new mediator whose entries have a size that is not 0, for pools of at least one and fewer than
-- 2 ^ 31 entries in arrays, none at null, that do not meet: each pool i has its own array as the one layer, with
-- all entries free in order, its sizes are in order with no layer to be freed, and it counts right
-- that it caches nothing; the collecting thread is started exactly if its period is not 0.
pub object_pool_mediator-IsNew :
    (config : ObjectPoolConfig) (arena : ℕ → Ptr) (next : Entries) (info : Ptr → ℕ)
    → 0 < config.unit
    → 0 < config.pool_init_size
    → config.pool_init_size < 2 ^ 31
    → ((i : ℕ) → 0 < arena i)
    → ((i k : ℕ) → i ≢ k → AreDisjoint config.unit config.pool_init_size (arena i) (arena k))
    → (i : ℕ) → i < config.num_of_thread
    → IsNew config (arena i) i (object_pool_mediator config arena next info).0
      × IsSized config.pool_init_size config.enlarge_rate
          ((object_pool_mediator config arena next info).0.pools i)
      × IsTrim ((object_pool_mediator config arena next info).0.pools i)
      × IsCounted config i (object_pool_mediator config arena next info).0
      × (((object_pool_mediator config arena next info).1 ≡ true)
          ↔ (0 < config.cache_reclaim_period))
unfolding object_pool_mediator
object_pool_mediator-IsNew config arena next info pos some_entry small real apart i below =
    let w = add_pools config arena config.num_of_thread (no_pools next info) in
    let new : IsNew config (arena i) i w =
      add_pools-IsNew config pos some_entry (omega arith) arena real apart config.num_of_thread
        (no_pools next info) i below in
    let (sized, trim) = new-IsSized config (arena i) i w (omega arith) new in
    (
      new,
      sized,
      trim,
      new-IsCounted config arena config.num_of_thread next info i,
      (λ e. ground arith, λ lt. ground arith),
    )
