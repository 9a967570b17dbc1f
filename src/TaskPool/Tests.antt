-- ===== src/TaskPool/Tests.antt =====
-- Three threads, each with an array of 256 tasks of 64 bytes.
use tythread.Base.{ℕ, ◌+◌, ◌*◌, ◌≡◌, ◌≢◌, refl, arith, some, Ptr, null}
use tythread.Config.{default_config}
use tythread.Pool.Mediator.Setup.{object_pool_mediator}
use tythread.Pool.Mediator.New.{AreDisjoint}
use tythread.TaskPool.{pool_config, init, operator_delete}
use tythread.TaskPool.Life.{made_by, HasAllFree, init-reuse}

abbrev arrays : ℕ → Ptr
arrays i = 4096 + i * 16384

arrays-AreDisjoint : (i k : ℕ) → i ≢ k → AreDisjoint 64 256 (arrays i) (arrays k)
arrays-AreDisjoint i k ne = omega arith

init-reuse_example :
    (init 64 default_config arrays (λ _. null) (λ _. 0)
      ≡ some (object_pool_mediator (pool_config 64 3 default_config) arrays (λ _. null) (λ _. 0)))
    × ((made_by 64 3 1 default_config arrays 99 (λ _. null) (λ _. 0)).0 ≡ arrays 1)
    × HasAllFree 64 256 (arrays 1) 1 (
        operator_delete
          (pool_config 64 3 default_config)
          1
          (arrays 1)
          (made_by 64 3 1 default_config arrays 99 (λ _. null) (λ _. 0)).1)
init-reuse_example =
    init-reuse 64 3 1 default_config arrays 99 (λ _. null) (λ _. 0) refl (omega arith) (omega arith)
      (omega arith) (λ i. omega arith) arrays-AreDisjoint (omega arith) (omega arith)
