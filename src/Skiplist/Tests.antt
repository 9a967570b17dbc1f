-- ===== src/Skiplist/Tests.antt =====
-- Runs of the queue, and the theorems about it at concrete queues.
use tythread.Base.{
  times, Absent, ℕ, zero, suc, ◌+◌, ◌^◌, ◌<◌, ◌≡◌, refl, arith, none, some, List, [], ◌∷◌, ◌++◌,
  Ptr,
}
use tythread.Skiplist.{Mem, Skiplist, empty, enqueue, enqueue_move, dequeue, contents, size}
use tythread.Skiplist.Destroy.{
  AllShared, Returns, ReadsDeleted, reads_deleted, destroy, destroy-Returns, destroy-ReadsDeleted,
}
use tythread.Skiplist.Dequeue.{Dequeues, contents-dequeue, dequeue-IsValid}
use tythread.Skiplist.Enqueue.{contents-enqueue, enqueue-IsValid}
use tythread.Skiplist.Fill.{blank, fill, fill-IsValid}
use tythread.Skiplist.Half.{dequeue_half}
use tythread.Skiplist.Half.{dequeue_half_slow}
use tythread.Skiplist.Half.Slow.{IsExactHalf, dequeue_half_slow-IsExactHalf}
use tythread.Skiplist.Half.Steal.{IsHalved, dequeue_half-IsHalved}
use tythread.Skiplist.Stack.{IsValid}

drain : ℕ → Mem × Skiplist → Mem × Skiplist
drain zero (m, s) = (m, s)
drain (suc n) (m, s) = let (p, m', s') = dequeue m s in drain n (m', s')

halves : Mem × Skiplist → List Ptr × List Ptr
unfolding dequeue_half contents
halves (m, s) =
    let (r, s', m') = dequeue_half m s in
    (elim r [ none ↦ [] | some t ↦ contents m' t ], contents m' s')

upto : ℕ → Ptr → List Ptr
upto zero p = []
upto (suc n) p = p ∷ upto n (p + 1)

filled : contents (fill 200 1 (blank, empty)).0 (fill 200 1 (blank, empty)).1 ≡ upto 200 1
unfolding fill enqueue contents upto
filled = refl

halved : halves (fill 200 1 (blank, empty)) ≡ (upto 128 1, upto 72 129)
unfolding fill enqueue halves upto
halved = refl

drained : halves (drain 30 (fill 140 1 (blank, empty))) ≡ (upto 55 31, upto 55 86)
unfolding fill drain enqueue dequeue halves upto
drained = refl

-- A queue of three tasks, and one with skip nodes.
abbrev three : Mem × Skiplist
three = fill 3 1 (blank, empty)

abbrev many : Mem × Skiplist
many = fill 200 1 (blank, empty)

size_many : size many.1 ≡ 200
unfolding fill enqueue size
size_many = refl

some_many : 0 < size many.1
some_many = omega (arith, size_many)

few_many : size many.1 < 2 ^ 30
few_many = omega (arith, size_many)

dequeue_half-IsHalved_example : IsHalved many.0 many.1 (dequeue_half many.0 many.1)
dequeue_half-IsHalved_example = dequeue_half-IsHalved (fill-IsValid 200) some_many few_many

dequeue_half_slow-IsExactHalf_example : IsExactHalf many.0 many.1 (dequeue_half_slow many.0 many.1)
dequeue_half_slow-IsExactHalf_example = dequeue_half_slow-IsExactHalf (fill-IsValid 200) some_many

no_tasks : size empty ≡ 0
unfolding size
no_tasks = refl

contents-dequeue_example : Dequeues many.0 many.1 (dequeue many.0 many.1)
contents-dequeue_example = contents-dequeue (fill-IsValid 200)

dequeue-IsValid_example : IsValid (dequeue many.0 many.1).1 (dequeue many.0 many.1).2
dequeue-IsValid_example = dequeue-IsValid (fill-IsValid 200)

fresh_task : Absent 9 (contents three.0 three.1)
unfolding fill enqueue contents
fresh_task =
    ((λ e. absurd (omega arith)), ((λ e. absurd (omega arith)), ((λ e. absurd (omega arith)), tt)))

contents-enqueue_example :
    (contents (enqueue 9 three.0 three.1).0 (enqueue 9 three.0 three.1).1
      ≡ contents three.0 three.1 ++ 9 ∷ [])
    × (contents (enqueue_move 9 three.0 three.1).0 (enqueue_move 9 three.0 three.1).1
        ≡ contents three.0 three.1 ++ 9 ∷ [])
contents-enqueue_example = contents-enqueue (fill-IsValid 3) 9 (omega arith) fresh_task

enqueue-IsValid_example :
    IsValid (enqueue 9 three.0 three.1).0 (enqueue 9 three.0 three.1).1
    × IsValid (enqueue_move 9 three.0 three.1).0 (enqueue_move 9 three.0 three.1).1
enqueue-IsValid_example = enqueue-IsValid (fill-IsValid 3) 9 (omega arith) fresh_task

-- The queue of three tasks, each with the count of the queue and one more.
three_shared : AllShared three.0.counter (contents three.0 three.1)
unfolding fill enqueue contents
three_shared =
    (omega arith, omega arith, (omega arith, omega arith, (omega arith, omega arith, tt)))

destroy-Returns_example : Returns (destroy three.0 three.1)
destroy-Returns_example = destroy-Returns (fill-IsValid 3) three_shared

-- Behind three tasks with other owners a task of which the queue is the only owner.
abbrev last_owner : Mem × Skiplist
last_owner = enqueue_move 9 three.0 three.1

nine_there : 0 < times 9 (contents last_owner.0 last_owner.1)
unfolding fill enqueue enqueue_move contents
nine_there = omega arith

nine_owned : last_owner.0.counter 9 ≡ 1
unfolding fill enqueue enqueue_move
nine_owned = refl

destroy-ReadsDeleted_example : ReadsDeleted last_owner.0.counter (destroy last_owner.0 last_owner.1)
destroy-ReadsDeleted_example =
    destroy-ReadsDeleted last_owner.0 last_owner.1 9
      (enqueue-IsValid (fill-IsValid 3) 9 (omega arith) fresh_task).1 nine_there nine_owned

nine_read : destroy last_owner.0 last_owner.1 ≡ reads_deleted 9
unfolding destroy fill enqueue enqueue_move
nine_read = refl
