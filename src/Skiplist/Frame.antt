-- ===== src/Skiplist/Frame.antt =====
-- What an operation on one queue leaves alone, so that other queues in the same memory keep in order.
use tythread.Base.{ℕ, zero, suc, ◌≤◌, ◌<◌, ◌≡◌, refl, sym, ap, ◌∙◌, ◌⊎◌, inl, inr, ◌≢◌, arith, Ptr}
use tythread.Skiplist.{Mem, SkipNode, Skiplist, n_layers, row, contents}
use tythread.Skiplist.Row.{Row, Row-frame}
use tythread.Skiplist.Stack.{nexts, IsStack, contents-slice}

-- The address a stands in row i.
abbrev pub In : Skiplist → (ℕ → ℕ → Ptr) → ℕ → Ptr → Type 0
In s at i a = (q : ℕ) × ((row s i).head_off ≤ q) × (q < (row s i).tail_off) × (at i q ≡ a)

-- From m to m' only tasks and skip nodes of the queue are written, the task p, and what is new.
pub record Touches (m m' : Mem) (s : Skiplist) (at : ℕ → ℕ → Ptr) (p : Ptr) : Type 0 where
  pub next : (a : Ptr) → ¬ In s at 0 a → a ≢ p → m'.next a ≡ m.next a
  pub node :
      (a : Ptr)
      → a < m.fresh
      → ((j : ℕ) → j < n_layers → ¬ In s at (suc j) a)
      → m'.node a ≡ m.node a
  pub fresh : m.fresh ≤ m'.fresh

-- The queue s' has no tasks but those of s and p, and no nodes but those of s and new ones.
pub record Within (m : Mem) (s : Skiplist) (at : ℕ → ℕ → Ptr) (s' : Skiplist) (at' : ℕ → ℕ → Ptr)
    (p : Ptr) : Type 0 where
  pub task : (a : Ptr) → In s' at' 0 a → In s at 0 a ⊎ (a ≡ p)
  pub node : (j a : ℕ) → j < n_layers → In s' at' (suc j) a → In s at (suc j) a ⊎ (m.fresh ≤ a)

-- Two queues without a common task or skip node.
pub record Apart (s : Skiplist) (at : ℕ → ℕ → Ptr) (t : Skiplist) (bt : ℕ → ℕ → Ptr) : Type 0 where
  pub task : (a : Ptr) → In s at 0 a → ¬ In t bt 0 a
  pub node : (i j a : ℕ) → i < n_layers → j < n_layers → In s at (suc i) a → ¬ In t bt (suc j) a

pub Apart-sym : {s t : Skiplist} {at bt : ℕ → ℕ → Ptr} → Apart s at t bt → Apart t bt s at
Apart-sym x = record { task = λ a l r. x.task a r l; node = λ i j a h k l r. x.node j i a k h r l }

module _ {m m' : Mem} {s t : Skiplist} {at bt : ℕ → ℕ → Ptr} {p : Ptr} (other : IsStack m t bt)
    (touches : Touches m m' s at p) (apart : Apart s at t bt) (away : ¬ In t bt 0 p) where
  kept_next : (q : ℕ) → t.head_off ≤ q → q < t.tail_off → m'.next (bt 0 q) ≡ m.next (bt 0 q)
  kept_next q x y =
      touches.next (bt 0 q) (λ here. apart.task (bt 0 q) here (q, x, y, refl))
        (λ e. away (q, x, y, e))

  kept_node :
      (j q : ℕ)
      → j < n_layers
      → (t.layers j).head_off ≤ q
      → q < (t.layers j).tail_off
      → m'.node (bt (suc j) q) ≡ m.node (bt (suc j) q)
  kept_node j q h x y =
      touches.node (bt (suc j) q) (other.owned j q h x y)
        (λ i k here. apart.node i j (bt (suc j) q) k h here (q, x, y, refl))

  frame-rows : (i : ℕ) → i ≤ n_layers → Row (bt i) (nexts m' i) (row t i)
  frame-rows zero h = Row-frame (other.rows 0 h) (bt 0) (nexts m' 0) (λ q x y. refl) kept_next
  frame-rows (suc j) h =
      Row-frame (other.rows (suc j) h) (bt (suc j)) (nexts m' (suc j)) (λ q x y. refl)
        (λ q x y. ap SkipNode.next_node (kept_node j q h x y))

  -- The other queue stays in order.
  pub frame-IsStack : IsStack m' t bt
  frame-IsStack = record {
    rows = frame-rows;
    links = λ i h.
        (let link = other.links i h in
          record {
            groups = link.groups;
            down = λ q x y. ap SkipNode.down_node (kept_node i q h x y) ∙ link.down q x y;
            last_down =
                λ q x y. ap SkipNode.last_down_node (kept_node i q h x y) ∙ link.last_down q x y;
          });
    alloc = omega (arith, other.alloc, touches.fresh);
    owned = λ j q h x y. omega (arith, other.owned j q h x y, touches.fresh);
    apart = other.apart;
  }

  -- Its tasks are as before.
  pub frame-contents : contents m' t ≡ contents m t
  frame-contents = contents-slice frame-IsStack ∙ sym (contents-slice other)

  -- What is within the first queue is apart from it.
  pub Within-Apart :
      {s' : Skiplist} {at' : ℕ → ℕ → Ptr} → Within m s at s' at' p → Apart s' at' t bt
  Within-Apart within = record {
    task = λ a l r. elim (within.task a l) [
      | inl old ↦ apart.task a old r
      | inr e ↦ away (r.0, r.1, r.2, r.3 ∙ e)
    ];
    node = λ i j a h k l r. elim (within.node i a h l) [
      | inl old ↦ apart.node i j a h k old r
      | inr new ↦ absurd (omega (arith, other.owned j r.0 k r.1 r.2, r.3, new))
    ];
  }

-- One operation after another on the same queue.
module _ {m m' : Mem} {s s' : Skiplist} {at at' : ℕ → ℕ → Ptr} {p : Ptr}
    (touches : Touches m m' s at p) (within : Within m s at s' at' p) where
  pub Touches-trans : {m'' : Mem} → Touches m' m'' s' at' p → Touches m m'' s at p
  Touches-trans next = record {
    next = λ a off ne.
        next.next a (λ x. elim (within.task a x) [ inl old ↦ off old | inr e ↦ ne e ]) ne
        ∙ touches.next a off ne;
    node = λ a old off.
        next.node a (omega (arith, touches.fresh)) (λ j h x. elim (within.node j a h x) [
          | inl in_s ↦ off j h in_s
          | inr new ↦ absurd (omega arith)
        ])
        ∙ touches.node a old off;
    fresh = omega (arith, touches.fresh, next.fresh);
  }

  pub Within-trans :
      {s'' : Skiplist} {at'' : ℕ → ℕ → Ptr} → Within m' s' at' s'' at'' p → Within m s at s'' at'' p
  Within-trans next = record {
    task = λ a x. elim (next.task a x) [ inl y ↦ within.task a y | inr e ↦ inr e ];
    node = λ j a h x. elim (next.node j a h x) [
      | inl y ↦ within.node j a h y
      | inr new ↦ inr (omega (arith, touches.fresh))
    ];
  }

pub Touches-refl : (m : Mem) (s : Skiplist) (at : ℕ → ℕ → Ptr) (p : Ptr) → Touches m m s at p
Touches-refl m s at p = record {
  next = λ a off ne. refl;
  node = λ a old off. refl;
  fresh = omega arith;
}

pub Within-refl : (m : Mem) (s : Skiplist) (at : ℕ → ℕ → Ptr) (p : Ptr) → Within m s at s at p
Within-refl m s at p = record { task = λ a x. inl x; node = λ j a h x. inl x }
