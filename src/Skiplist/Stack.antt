-- ===== src/Skiplist/Stack.antt =====
-- The whole queue: the raw list and the layers as rows, linked upwards, in one memory.
use tythread.Base.{
  ℕ, zero, suc, ◌+◌, ◌-◌, ◌≤◌, ◌<◌, ◌≡◌, refl, ◌≢◌, ◌==◌, if◌then◌else◌, arith, Ptr, null, List, [],
  ◌∷◌, ltb, ap, sym, ◌∙◌, length,
}
use tythread.Skiplist.{Layer, Mem, Skiplist, n_layers, row, append_node, contents, walk, size}
use tythread.Skiplist.Row.{Row}
use tythread.Skiplist.Link.{Link}

abbrev pub nexts : Mem → ℕ → Ptr → Ptr
nexts m zero a = m.next a
nexts m (suc i) a = (m.node a).next_node

-- Row i of the queue has the nodes `at i p`. Each skip node is in one row, and was allocated.
pub record IsStack (m : Mem) (s : Skiplist) (at : ℕ → ℕ → Ptr) : Type 0 where
  pub rows : (i : ℕ) → i ≤ n_layers → Row (at i) (nexts m i) (row s i)
  pub links : (i : ℕ) → i < n_layers → Link (at i) (at (suc i)) m.node (row s i) (s.layers i)
  pub alloc : 0 < m.fresh
  pub owned :
      (i p : ℕ)
      → i < n_layers
      → (s.layers i).head_off ≤ p
      → p < (s.layers i).tail_off
      → at (suc i) p < m.fresh
  pub apart :
      (i j p q : ℕ)
      → i < n_layers
      → j < n_layers
      → (s.layers i).head_off ≤ p
      → p < (s.layers i).tail_off
      → (s.layers j).head_off ≤ q
      → q < (s.layers j).tail_off
      → at (suc i) p ≡ at (suc j) q
      → i ≡ j

-- The same, while the group of row i that has just become full has no node above.
pub record IsLagging (i : ℕ) (m : Mem) (s : Skiplist) (at : ℕ → ℕ → Ptr) : Type 0 where
  pub rows : (j : ℕ) → j ≤ n_layers → Row (at j) (nexts m j) (row s j)
  pub links :
      (j : ℕ) → j < n_layers → j ≢ i → Link (at j) (at (suc j)) m.node (row s j) (s.layers j)
  pub lag :
      i < n_layers
      → Link
          (at i)
          (at (suc i))
          m.node
          (record (row s i) { tail_off = (row s i).tail_off - 1 })
          (s.layers i)
  pub alloc : 0 < m.fresh
  pub owned :
      (j p : ℕ)
      → j < n_layers
      → (s.layers j).head_off ≤ p
      → p < (s.layers j).tail_off
      → at (suc j) p < m.fresh
  pub apart :
      (j k p q : ℕ)
      → j < n_layers
      → k < n_layers
      → (s.layers j).head_off ≤ p
      → p < (s.layers j).tail_off
      → (s.layers k).head_off ≤ q
      → q < (s.layers k).tail_off
      → at (suc j) p ≡ at (suc k) q
      → j ≡ k

-- A queue in a good state.
pub record IsValid (m : Mem) (s : Skiplist) : Type 0 where
  pub at : ℕ → ℕ → Ptr
  pub stack : IsStack m s at

-- The nodes of a row from offset h on.
unfoldable pub slice : (ℕ → Ptr) → ℕ → ℕ → List Ptr
slice f h zero = []
slice f h (suc n) = f h ∷ slice f (suc h) n

walk-slice :
    {f : ℕ → Ptr} {next : Ptr → Ptr} {r : Layer} (n h : ℕ)
    → Row f next r
    → r.head_off ≤ h
    → h + n ≡ r.tail_off
    → walk n next (if ltb h r.tail_off then f h else null) ≡ slice f h n
unfolding walk slice
walk-slice zero h row a b = refl
walk-slice {f} {next} {r} (suc n) h row a b =
    ground (arith, row.real h, row.chain h, walk-slice n (suc h) row)

pub contents-slice :
    {m : Mem} {s : Skiplist} {at : ℕ → ℕ → Ptr}
    → IsStack m s at
    → contents m s ≡ slice (at 0) s.head_off (s.tail_off - s.head_off)
unfolding contents
contents-slice {m} {s} stack =
    let base = stack.rows 0 (omega arith) in
    rw base.first (
      walk-slice (s.tail_off - s.head_off) s.head_off base (omega arith)
        (omega (arith, base.order)))

length-slice : (f : ℕ → Ptr) (h n : ℕ) → length (slice f h n) ≡ n
unfolding slice
length-slice f h zero = refl
length-slice f h (suc n) = ap suc (length-slice f (suc h) n)

-- Of a queue in a good state `size` is the number of tasks.
pub size-length : {m : Mem} {s : Skiplist} → IsValid m s → size s ≡ length (contents m s)
unfolding size
size-length {s} v = sym (
    ap length (contents-slice v.stack) ∙ length-slice (v.at 0) s.head_off (s.tail_off - s.head_off))

-- What `append_node` does to memory and layer.
module _ (cur last : Ptr) (m : Mem) (l : Layer) where
  pub append_node-next : (append_node cur last m l).0.next ≡ m.next
  unfolding append_node
  append_node-next = ground arith

  pub append_node-counter : (append_node cur last m l).0.counter ≡ m.counter
  unfolding append_node
  append_node-counter = ground arith

  pub append_node-fresh : (append_node cur last m l).0.fresh ≡ suc m.fresh
  unfolding append_node
  append_node-fresh = ground arith

  pub append_node-else :
      (a : Ptr)
      → a ≢ m.fresh
      → (l.head_node ≢ null → a ≢ l.tail_node)
      → (append_node cur last m l).0.node a ≡ m.node a
  unfolding append_node
  append_node-else a old other = ground arith

  pub append_node-old :
      (a : Ptr)
      → a ≢ m.fresh
      → (((append_node cur last m l).0.node a).down_node ≡ (m.node a).down_node)
        × (((append_node cur last m l).0.node a).last_down_node ≡ (m.node a).last_down_node)
  unfolding append_node
  append_node-old a old = ground arith

  pub append_node-new :
      (l.head_node ≢ null → l.tail_node ≢ m.fresh)
      → (((append_node cur last m l).0.node m.fresh).down_node ≡ cur)
        × (((append_node cur last m l).0.node m.fresh).last_down_node ≡ last)
        × (((append_node cur last m l).0.node m.fresh).next_node ≡ null)
  unfolding append_node
  append_node-new other = ground arith

  pub append_node-joint :
      l.head_node ≢ null → ((append_node cur last m l).0.node l.tail_node).next_node ≡ m.fresh
  unfolding append_node
  append_node-joint some_head = ground arith

  pub append_node-layer :
      ((append_node cur last m l).1.head_off ≡ l.head_off)
      × ((append_node cur last m l).1.tail_off ≡ suc l.tail_off)
      × ((append_node cur last m l).1.head_node
          ≡ (if l.head_node == null then m.fresh else l.head_node))
      × ((append_node cur last m l).1.tail_node ≡ m.fresh)
      × ((append_node cur last m l).1.candidate ≡ l.candidate)
  unfolding append_node
  append_node-layer = ground arith
