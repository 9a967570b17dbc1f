-- ===== src/Skiplist/Divide.antt =====
-- A queue divided in two at one offset in each row, up to row `top`.
pub mod Back
pub mod Front
use tythread.Base.{
  ℕ, zero, suc, ◌+◌, ◌-◌, ◌/◌, ◌*◌, ◌%◌, ◌≤◌, ◌<◌, ◌≡◌, refl, sym, ap, ◌∙◌, ◌⊎◌, inl, inr, ◌≢◌,
  arith, Ptr, null, lt_cases, eq_cases,
}
use tythread.Skiplist.{Layer, Mem, Skiplist, n_layers, skip_gap, row}
use tythread.Skiplist.Row.{Row, Row-front, Row-back, Row-frame, Row-empty, IsEmpty, cand_of}
use tythread.Skiplist.Link.{Link, Link-part, Link-empty, start_of}
use tythread.Skiplist.Stack.{nexts, IsStack}

-- Where the rows up to `top` are cut: below, behind the groups of the nodes that go.
pub record IsCut (s : Skiplist) (top : ℕ) (cut : ℕ → ℕ) : Type 0 where
  pub top_le : top ≤ n_layers
  pub above : (i : ℕ) → i ≤ top → (row s i).head_off < cut i
  pub below : (i : ℕ) → i ≤ top → cut i ≤ (row s i).tail_off
  pub groups :
      (i : ℕ)
      → i < top
      → cut i
        ≡ (((row s i).head_off + (skip_gap - 1)) / skip_gap + (cut (suc i) - (s.layers i).head_off))
          * skip_gap

-- The memory behind the cuts.
pub record IsSevered (m m' : Mem) (s : Skiplist) (at : ℕ → ℕ → Ptr) (top : ℕ) (cut : ℕ → ℕ)
    : Type 0 where
  pub ends : (i : ℕ) → i ≤ top → nexts m' i (at i (cut i - 1)) ≡ null
  pub same :
      (i p : ℕ)
      → i ≤ n_layers
      → (row s i).head_off ≤ p
      → p < (row s i).tail_off
      → (i ≤ top → p ≢ cut i - 1)
      → nexts m' i (at i p) ≡ nexts m i (at i p)
  pub groups :
      (a : Ptr)
      → ((m'.node a).down_node ≡ (m.node a).down_node)
        × ((m'.node a).last_down_node ≡ (m.node a).last_down_node)
  pub fresh : m'.fresh ≡ m.fresh

-- The row that keeps what stands behind a cut, and the one that takes what stands before it.
pub record IsBack (m : Mem) (f : ℕ → Ptr) (i n : ℕ) (r r' : Layer) : Type 0 where
  pub head_off : r'.head_off ≡ n
  pub tail_off : r'.tail_off ≡ r.tail_off
  pub head_node : r'.head_node ≡ nexts m i (f (n - 1))
  pub tail_node : r'.tail_node ≡ r.tail_node
  pub candidate : r'.candidate ≡ cand_of f n r.tail_off

pub record IsFront (f : ℕ → Ptr) (n : ℕ) (r r' : Layer) : Type 0 where
  pub head_off : r'.head_off ≡ r.head_off
  pub tail_off : r'.tail_off ≡ n
  pub head_node : r'.head_node ≡ r.head_node
  pub tail_node : r'.tail_node ≡ f (n - 1)
  pub candidate : r'.candidate ≡ cand_of f r.head_off n
