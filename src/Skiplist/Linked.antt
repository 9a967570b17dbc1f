-- ===== src/Skiplist/Linked.antt =====
-- The queue once its raw list has a new last task, above which no layer has changed yet.
use tythread.Base.{
  ℕ, zero, suc, ◌+◌, ◌-◌, ◌/◌, ◌*◌, ◌%◌, ◌≤◌, ◌<◌, ◌≡◌, refl, sym, ap, ◌∙◌, subst, ◌⊎◌, ◌≢◌, ◌==◌,
  if◌then◌else◌, arith, Ptr, null, update, update-ne,
}
use tythread.Skiplist.{Layer, Mem, Skiplist, n_layers, skip_gap, row}
use tythread.Skiplist.Link.{Link, Link-part}
use tythread.Skiplist.Row.{Row, Row-push, Row-frame, cand_of}
use tythread.Skiplist.Stack.{nexts, IsStack, IsLagging}

-- The tasks with `p` at offset t, and the nodes above as they were.
abbrev pub linked_at : (ℕ → ℕ → Ptr) → ℕ → Ptr → ℕ → ℕ → Ptr
linked_at at t p zero = update (at 0) t p
linked_at at t p (suc j) = at (suc j)

-- The raw list has got `p` as its last task, in the memory m' and the queue s'.
module _ {m : Mem} {s : Skiplist} {at : ℕ → ℕ → Ptr} (stack : IsStack m s at) (p : Ptr) (m' : Mem)
    (s' : Skiplist) (pos : 0 < p) (new : (q : ℕ) → s.head_off ≤ q → q < s.tail_off → at 0 q ≢ p)
    (en : m'.node ≡ m.node) (ef : m'.fresh ≡ m.fresh) (end : m'.next p ≡ null)
    (joint : s.head_off < s.tail_off → m'.next (at 0 (s.tail_off - 1)) ≡ p)
    (same : (q : ℕ) → s.head_off ≤ q → suc q < s.tail_off → m'.next (at 0 q) ≡ m.next (at 0 q))
    (el : s'.layers ≡ s.layers) (eh : s'.head_off ≡ s.head_off) (et : s'.tail_off ≡ suc s.tail_off)
    (efirst : s'.head ≡ (if s.head == null then p else s.head)) (elast : s'.tail ≡ p)
    (ec : s'.candidate ≡ cand_of (update (at 0) s.tail_off p) s.head_off (suc s.tail_off)) where
  linked-old : (j q : ℕ) → q < (row s j).tail_off → (linked_at at s.tail_off p) j q ≡ at j q
  linked-old zero q h = update-ne (at 0) s.tail_off q p (omega arith)
  linked-old (suc j) q h = refl

  linked-rows : (j : ℕ) → j ≤ n_layers → Row ((linked_at at s.tail_off p) j) (nexts m' j) (row s' j)
  linked-rows zero b =
      Row-push (stack.rows 0 b) p (nexts m' 0) (row s' 0) pos new end joint same eh et efirst elast
        ec
  linked-rows (suc j) b =
      subst (λ ls. Row (at (suc j)) (nexts m' (suc j)) (ls j)) (sym el)
        (Row-frame (stack.rows (suc j) b) (at (suc j)) (nexts m' (suc j)) (λ q x y. refl)
          (λ q x y. ap (λ n. (n (at (suc j) q)).next_node) en))

  linked-links :
      (j : ℕ)
      → j < n_layers
      → (lo' : Layer) → lo'.head_off ≡ (row s j).head_off
      → lo'.tail_off / skip_gap - (lo'.head_off + (skip_gap - 1)) / skip_gap
        ≡ (row s j).tail_off / skip_gap - (lo'.head_off + (skip_gap - 1)) / skip_gap
      → Link
          ((linked_at at s.tail_off p) j)
          ((linked_at at s.tail_off p) (suc j))
          m'.node
          lo'
          (s'.layers j)
  linked-links j b lo' e count =
      let old = stack.links j b in
      subst
        (λ ls.
          Link ((linked_at at s.tail_off p) j) ((linked_at at s.tail_off p) (suc j)) m'.node lo'
            (ls j))
        (sym el)
        (Link-part old ((linked_at at s.tail_off p) j) ((linked_at at s.tail_off p) (suc j)) m'.node
          lo' (s.layers j) (omega arith) (omega arith) (λ q x y. linked-old j q y) (λ q x y. refl)
          (λ q x y. rw en (refl, refl)) (omega (arith, old.groups)) (λ q x y. omega arith))

  linked-upper :
      (j : ℕ)
      → suc j < n_layers
      → Link (at (suc j)) (at (suc (suc j))) m'.node (s'.layers j) (s'.layers (suc j))
  linked-upper j b = linked-links (suc j) b (s'.layers j) (ap (λ ls. (ls j).head_off) el) (
      ap (λ ls. (ls j).tail_off / skip_gap - ((ls j).head_off + (skip_gap - 1)) / skip_gap) el
      ∙ ap (λ ls. (s.layers j).tail_off / skip_gap - ((ls j).head_off + (skip_gap - 1)) / skip_gap)
          (sym el))

  linked-owned :
      (j q : ℕ)
      → j < n_layers
      → (s'.layers j).head_off ≤ q
      → q < (s'.layers j).tail_off
      → at (suc j) q < m'.fresh
  linked-owned j q b = rw (ef, el) (stack.owned j q b)

  linked-apart :
      (j k q r : ℕ)
      → j < n_layers
      → k < n_layers
      → (s'.layers j).head_off ≤ q
      → q < (s'.layers j).tail_off
      → (s'.layers k).head_off ≤ r
      → r < (s'.layers k).tail_off
      → at (suc j) q ≡ at (suc k) r
      → j ≡ k
  linked-apart j k q r b c = rw el (stack.apart j k q r b c)

  pub linked-IsLagging : IsLagging 0 m' s' (linked_at at s.tail_off p)
  linked-IsLagging = record {
    rows = linked-rows;
    links = upper_links;
    lag = λ b.
        linked-links 0 b (record (row s' 0) { tail_off = s'.tail_off - 1 }) eh
          (rw et (omega arith));
    alloc = rw ef stack.alloc;
    owned = linked-owned;
    apart = linked-apart;
  }
    where
      upper_links :
          (j : ℕ)
          → j < n_layers
          → j ≢ 0
          → Link
              ((linked_at at s.tail_off p) j)
              ((linked_at at s.tail_off p) (suc j))
              m'.node
              (row s' j)
              (s'.layers j)
      upper_links zero b ne = absurd (ne refl)
      upper_links (suc j) b ne = linked-upper j b

  pub linked-IsStack :
      (s.tail_off + 1) % skip_gap ≢ 0 ⊎ (s.tail_off / skip_gap * skip_gap < s.head_off)
      → IsStack m' s' (linked_at at s.tail_off p)
  linked-IsStack rest = record {
    rows = linked-rows;
    links = all_links;
    alloc = rw ef stack.alloc;
    owned = linked-owned;
    apart = linked-apart;
  }
    where
      all_links :
          (j : ℕ)
          → j < n_layers
          → Link
              ((linked_at at s.tail_off p) j)
              ((linked_at at s.tail_off p) (suc j))
              m'.node
              (row s' j)
              (s'.layers j)
      all_links zero b =
          linked-links 0 b (row s' 0) eh (rw (et, eh) (omega (arith, stack.rows 0 (omega arith))))
      all_links (suc j) b = linked-upper j b
