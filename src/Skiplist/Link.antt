-- ===== src/Skiplist/Link.antt =====
-- Two rows of the queue, one above the other: each node above stands for a full group below.
use tythread.Base.{
  ℕ, suc, ◌+◌, ◌-◌, ◌*◌, ◌/◌, ◌%◌, ◌≤◌, ◌<◌, ◌≡◌, arith, Ptr, update, update_self, update-ne,
  lt_cases, inl, inr,
}
use tythread.Skiplist.{Layer, SkipNode, skip_gap}

-- The offset below at which the group of the node at offset p above begins.
abbrev pub start_of : (lo hi : Layer) → ℕ → ℕ
start_of lo hi p = ((lo.head_off + (skip_gap - 1)) / skip_gap + (p - hi.head_off)) * skip_gap

-- Above stand all groups that are full and have their first node, in order.
pub record Link (f g : ℕ → Ptr) (node : Ptr → SkipNode) (lo hi : Layer) : Type 0 where
  pub groups :
      hi.tail_off
      ≡ hi.head_off + (lo.tail_off / skip_gap - (lo.head_off + (skip_gap - 1)) / skip_gap)
  pub down :
      (p : ℕ) → hi.head_off ≤ p → p < hi.tail_off → (node (g p)).down_node ≡ f (start_of lo hi p)
  pub last_down :
      (p : ℕ)
      → hi.head_off ≤ p
      → p < hi.tail_off
      → (node (g p)).last_down_node ≡ f (start_of lo hi p + (skip_gap - 1))

module _ {f g : ℕ → Ptr} {node : Ptr → SkipNode} {lo hi : Layer} (link : Link f g node lo hi) where
  -- The groups lie in the row below.
  pub start_bounds :
      (p : ℕ)
      → hi.head_off ≤ p
      → p < hi.tail_off
      → (lo.head_off ≤ start_of lo hi p) × (start_of lo hi p + (skip_gap - 1) < lo.tail_off)
  start_bounds p a b = omega (arith, link.groups)

  -- Part of the nodes above, with their groups where they were.
  pub Link-part :
      (f' g' : ℕ → Ptr) (node' : Ptr → SkipNode) (lo' hi' : Layer)
      → hi.head_off ≤ hi'.head_off
      → hi'.tail_off ≤ hi.tail_off
      → ((p : ℕ) → lo.head_off ≤ p → p < lo.tail_off → f' p ≡ f p)
      → ((p : ℕ) → hi'.head_off ≤ p → p < hi'.tail_off → g' p ≡ g p)
      → ((p : ℕ)
          → hi'.head_off ≤ p
          → p < hi'.tail_off
          → ((node' (g p)).down_node ≡ (node (g p)).down_node)
            × ((node' (g p)).last_down_node ≡ (node (g p)).last_down_node))
      → hi'.tail_off
        ≡ hi'.head_off + (lo'.tail_off / skip_gap - (lo'.head_off + (skip_gap - 1)) / skip_gap)
      → ((p : ℕ) → hi'.head_off ≤ p → p < hi'.tail_off → start_of lo' hi' p ≡ start_of lo hi p)
      → Link f' g' node' lo' hi'
  Link-part f' g' node' lo' hi' above below sf sg sn count start = record {
    groups = count;
    down = λ p a b.
        (let (in_lo, in_hi) = start_bounds p (omega arith) (omega arith) in
          rw (sg p a b, (sn p a b).0, start p a b, sf (start_of lo hi p) in_lo (omega arith))
            (link.down p (omega arith) (omega arith)));
    last_down = λ p a b.
        (let (in_lo, in_hi) = start_bounds p (omega arith) (omega arith) in
          rw
            (
              sg p a b,
              (sn p a b).1,
              start p a b,
              sf (start_of lo hi p + (skip_gap - 1)) (omega arith) in_hi,
            )
            (link.last_down p (omega arith) (omega arith)));
  }

  -- A group has become full, and its node stands above.
  pub Link-push :
      (n : Ptr) (f' : ℕ → Ptr) (node' : Ptr → SkipNode) (lo' hi' : Layer)
      → (lo.tail_off + 1) % skip_gap ≡ 0
      → lo.head_off ≤ lo.tail_off / skip_gap * skip_gap
      → ((p : ℕ) → lo.head_off ≤ p → p < lo.tail_off → f' p ≡ f p)
      → ((p : ℕ)
          → hi.head_off ≤ p
          → p < hi.tail_off
          → ((node' (g p)).down_node ≡ (node (g p)).down_node)
            × ((node' (g p)).last_down_node ≡ (node (g p)).last_down_node))
      → (node' n).down_node ≡ f' (lo.tail_off / skip_gap * skip_gap)
      → (node' n).last_down_node ≡ f' lo.tail_off
      → lo'.head_off ≡ lo.head_off
      → lo'.tail_off ≡ suc lo.tail_off
      → hi'.head_off ≡ hi.head_off
      → hi'.tail_off ≡ suc hi.tail_off
      → Link f' (update g hi.tail_off n) node' lo' hi'
  Link-push n f' node' lo' hi' full here sf sn dn ln eh et fh ft = record {
    groups = omega (arith, link.groups);
    down = λ p a b. elim (lt_cases p hi.tail_off) [
      | inl i ↦
          (let (in_lo, in_hi) = start_bounds p (omega arith) i in
            let start : start_of lo' hi' p ≡ start_of lo hi p = omega arith in
            rw (update-ne g hi.tail_off p n (omega arith), start)
              (ground (arith, link.down p, sn p, sf (start_of lo hi p))))
      | inr j ↦
          (let top : p ≡ hi.tail_off = omega arith in
            let start : start_of lo' hi' p ≡ lo.tail_off / skip_gap * skip_gap =
              omega (arith, link.groups) in
            rw (start, top, update_self g hi.tail_off n) dn)
    ];
    last_down = λ p a b. elim (lt_cases p hi.tail_off) [
      | inl i ↦
          (let (in_lo, in_hi) = start_bounds p (omega arith) i in
            let start : start_of lo' hi' p ≡ start_of lo hi p = omega arith in
            rw (update-ne g hi.tail_off p n (omega arith), start)
              (ground (arith, link.last_down p, sn p, sf (start_of lo hi p + (skip_gap - 1)))))
      | inr j ↦
          (let top : p ≡ hi.tail_off = omega arith in
            let end : start_of lo' hi' p + (skip_gap - 1) ≡ lo.tail_off =
              omega (arith, link.groups) in
            rw (end, top, update_self g hi.tail_off n) ln)
    ];
  }

-- Above a row with no full group stands nothing.
pub Link-empty :
    {lo hi : Layer} (f g : ℕ → Ptr) (node : Ptr → SkipNode)
    → hi.head_off ≡ hi.tail_off
    → lo.tail_off / skip_gap ≤ (lo.head_off + (skip_gap - 1)) / skip_gap
    → Link f g node lo hi
Link-empty f g node e none_full = record {
  groups = omega arith;
  down = λ p a b. absurd (omega arith);
  last_down = λ p a b. absurd (omega arith);
}
