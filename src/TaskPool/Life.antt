-- ===== src/TaskPool/Life.antt =====
-- The pool of the tasks from its `Init` to the memory of a task.
use tythread.Base.{
  ℕ, zero, suc, ◌-◌, ◌^◌, ◌<◌, ◌≡◌, ◌≢◌, sym, ap, arith, Bool, Option, none, some, Ptr, List, [],
  ◌∷◌, subst,
}
use tythread.Config.{Config, pos, negsuc}
use tythread.Pool.{Entries, ObjectLayer}
use tythread.Pool.Arena.{IsArena}
use tythread.Pool.Fresh.{entries_from}
use tythread.Pool.Mediator.{ObjectPoolConfig, ObjectPoolMediator}
use tythread.Pool.Mediator.Reuse.{alloc-release}
use tythread.Pool.Mediator.Setup.{one_layer, object_pool_mediator}
use tythread.Pool.Mediator.New.{AreDisjoint, IsNew, first_layer, object_pool_mediator-IsNew}
use tythread.TaskPool.{pool_config, init, operator_new, operator_delete}

-- The entries behind the first.
abbrev pub rest_from : ℕ → Ptr → ℕ → List Ptr
rest_from unit a zero = []
rest_from unit a (suc n) = entries_from unit a 1 n

entries_from-first : (unit : ℕ) (a : Ptr) (n : ℕ) → entries_from unit a 0 n ≡ a ∷ rest_from unit a n
entries_from-first unit a zero = ap (λ p. p ∷ []) (omega arith)
entries_from-first unit a (suc n) = ap (λ p. p ∷ entries_from unit a 1 n) (omega arith)

-- The first task that thread `me` makes behind `Init` with n threads.
abbrev pub made_by :
    ℕ → ℕ → ℕ → Config → (ℕ → Ptr) → Ptr → Entries → (Ptr → ℕ) → Ptr × ObjectPoolMediator
unfolding pool_config object_pool_mediator operator_new
made_by unit n me c arena fresh next info =
    operator_new (pool_config unit n c) me fresh
      (object_pool_mediator (pool_config unit n c) arena next info).0

-- The lowest layer of pool k has all n entries of the array at `arena` free, in the order of the array.
pub record HasAllFree (unit n : ℕ) (arena : Ptr) (k : ℕ) (w : ObjectPoolMediator) : Type 0 where
  pub layer : ObjectLayer
  pub there : (w.pools k).layers 0 ≡ some layer
  pub free : IsArena unit w.next layer (entries_from unit arena 0 (n - 1))

-- A pool that is new.
new-reuse :
    (config : ObjectPoolConfig) (me : ℕ) (a fresh : Ptr) (w : ObjectPoolMediator)
    → IsNew config a me w
    → me < 2 ^ 16
    → ((operator_new config me fresh w).0 ≡ a)
      × HasAllFree config.unit config.pool_init_size a me
          (operator_delete config me a (operator_new config me fresh w).1)
unfolding operator_new operator_delete one_layer
new-reuse config me a fresh w new few =
    let size = config.pool_init_size in
    let list = entries_from-first config.unit a (size - 1) in
    let (is, (l, there, free)) =
      alloc-release config me fresh w (first_layer size a) a (rest_from config.unit a (size - 1))
        few (ap (λ q. q.current_layer) new.pool) (ap (λ q. q.layers 0) new.pool)
        (subst (IsArena config.unit w.next (first_layer size a)) list new.free) in
    (
      is,
      record { layer = l; there = there; free = subst (IsArena config.unit _ l) (sym list) free },
    )

-- `Init` for n threads, tasks of a size that is not 0 and pools of at least one and fewer than 2 ^ 31
-- entries, in arrays that do not meet, none at null, makes the mediator of the configured pools. The
-- task that thread `me`, one of the n and below 2 ^ 16, then makes is at the start of its array; when this
-- thread deletes it, its pool has all entries of the array free again, in order.
pub init-reuse :
    (unit n me : ℕ) (c : Config) (arena : ℕ → Ptr) (fresh : Ptr) (next : Entries) (info : Ptr → ℕ)
    → c.num_of_threads ≡ pos n
    → 0 < unit
    → 0 < c.init_task_pool_size
    → c.init_task_pool_size < 2 ^ 31
    → ((i : ℕ) → 0 < arena i)
    → ((i k : ℕ) → i ≢ k → AreDisjoint unit c.init_task_pool_size (arena i) (arena k))
    → me < n
    → me < 2 ^ 16
    → (init unit c arena next info
        ≡ some (object_pool_mediator (pool_config unit n c) arena next info))
      × ((made_by unit n me c arena fresh next info).0 ≡ arena me)
      × HasAllFree unit c.init_task_pool_size (arena me) me (
          operator_delete
            (pool_config unit n c)
            me
            (arena me)
            (made_by unit n me c arena fresh next info).1)
unfolding init pool_config made_by
init-reuse unit n me c arena fresh next info threads size_pos some_entry small real apart below
      few =
    let config = pool_config unit n c in
    let new =
      (object_pool_mediator-IsNew config arena next info size_pos some_entry small real apart me
        below).0 in
    let reused =
      new-reuse config me (arena me) fresh (object_pool_mediator config arena next info).0 new
        few in
    (
      ap
          (λ z. elim z as (λ _. Option (ObjectPoolMediator × Bool)) [
            | pos k ↦ some (object_pool_mediator (pool_config unit k c) arena next info)
            | negsuc k ↦ none
          ])
          threads,
      reused.0,
      reused.1,
    )
