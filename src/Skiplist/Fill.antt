-- ===== src/Skiplist/Fill.antt =====
-- A queue filled with consecutive tasks, for the runs and examples of the other modules.
use tythread.Base.{
  Absent, ℕ, zero, suc, ◌+◌, ◌≤◌, ◌<◌, refl, sym, subst, arith, List, [], ◌∷◌, ◌++◌, Ptr, null,
}
use tythread.Skiplist.{Mem, Skiplist, n_layers, row, empty, enqueue, contents}
use tythread.Skiplist.Enqueue.{enqueue-IsValid, contents-enqueue}
use tythread.Skiplist.Link.{Link, Link-empty}
use tythread.Skiplist.Row.{Row, Row-empty}
use tythread.Skiplist.Stack.{nexts, IsStack, IsValid}

abbrev pub blank : Mem
blank = record {
  next = λ _. null;
  counter = λ _. 1;
  node = λ _. record { down_node = null; last_down_node = null; next_node = null };
  fresh = 1;
}

-- The tasks `p`, `p + 1`, and so on, enqueued.
unfoldable pub fill : ℕ → Ptr → Mem × Skiplist → Mem × Skiplist
fill zero p (m, s) = (m, s)
fill (suc n) p (m, s) = fill n (p + 1) (enqueue p m s)

abbrev Below : Ptr → List Ptr → Type 0
Below p [] = Unit
Below p (x ∷ xs) = (x < p) × Below p xs

Below-push : (p : Ptr) (xs : List Ptr) → Below p xs → Below (p + 1) (xs ++ p ∷ [])
Below-push p [] b = (omega arith, tt)
Below-push p (x ∷ xs) b = (omega (arith, b.0), Below-push p xs b.1)

Below-Absent : (p : Ptr) (xs : List Ptr) → Below p xs → Absent p xs
Below-Absent p [] b = tt
Below-Absent p (x ∷ xs) b = ((λ e. omega (arith, b.0)), Below-Absent p xs b.1)

-- An empty queue is in order in any memory.
module _ (m : Mem) (alloc : 0 < m.fresh) where
  empty_rows : (i : ℕ) → i ≤ n_layers → Row (λ _. 0) (nexts m i) (row empty i)
  empty_rows zero h =
      Row-empty (λ _. 0) (nexts m 0) (record { ends = refl; no_head = refl; no_candidate = refl })
  empty_rows (suc i) h =
      Row-empty (λ _. 0) (nexts m (suc i))
        (record { ends = refl; no_head = refl; no_candidate = refl })

  empty_links :
      (i : ℕ) → i < n_layers → Link (λ _. 0) (λ _. 0) m.node (row empty i) (empty.layers i)
  empty_links zero h = Link-empty (λ _. 0) (λ _. 0) m.node refl (omega arith)
  empty_links (suc i) h = Link-empty (λ _. 0) (λ _. 0) m.node refl (omega arith)

  pub empty-IsStack : IsStack m empty (λ _ _. 0)
  empty-IsStack = record {
    rows = empty_rows;
    links = empty_links;
    alloc = alloc;
    owned = λ i p h a b. absurd (omega arith);
    apart = λ i j p q h k a b. absurd (omega arith);
  }

pub empty-IsValid : IsValid blank empty
empty-IsValid = record { at = λ _ _. 0; stack = empty-IsStack blank (omega arith) }

fill-Below :
    (n : ℕ) (p : Ptr) (m : Mem) (s : Skiplist)
    → 0 < p
    → IsValid m s
    → Below p (contents m s)
    → IsValid (fill n p (m, s)).0 (fill n p (m, s)).1
unfolding fill
fill-Below zero p m s pos v b = v
fill-Below (suc n) p m s pos v b =
    let absent = Below-Absent p (contents m s) b in
    fill-Below n (p + 1) (enqueue p m s).0 (enqueue p m s).1 (omega arith)
      (enqueue-IsValid v p pos absent).0
      (subst (Below (p + 1)) (sym (contents-enqueue v p pos absent).0)
        (Below-push p (contents m s) b))

pub fill-IsValid : (n : ℕ) → IsValid (fill n 1 (blank, empty)).0 (fill n 1 (blank, empty)).1
unfolding contents
fill-IsValid n = fill-Below n 1 blank empty (omega arith) empty-IsValid tt
