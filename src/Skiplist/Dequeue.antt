-- ===== src/Skiplist/Dequeue.antt =====
-- `dequeue_` takes the first task, and keeps the queue in order.
use tythread.Base.{
  ℕ, zero, suc, ◌+◌, ◌-◌, ◌/◌, ◌*◌, ◌%◌, ◌≤◌, ◌<◌, ◌≡◌, refl, ap, ◌∙◌, ◌⊎◌, inl, inr, ◌≢◌, ◌==◌,
  if◌then◌else◌, arith, Ptr, null, update-ne, eq_cases, true, false, Bool-cases, [], ◌∷◌,
}
use tythread.Skiplist.{Layer, Mem, Skiplist, n_layers, skip_gap, row, dequeue, contents, set_next}
use tythread.Skiplist.Row.{Row, Row-back, first-null, pop-cand}
use tythread.Skiplist.Link.{Link, Link-part}
use tythread.Skiplist.Stack.{nexts, IsStack, IsValid, slice, contents-slice}
use tythread.Skiplist.Shrink.{IsAhead, shrink-IsStack}

-- The raw list has lost its first task.
module _ {m : Mem} {s : Skiplist} {at : ℕ → ℕ → Ptr} (stack : IsStack m s at)
    (some : s.head ≢ null) where
  base : Row (at 0) (nexts m 0) (row s 0)
  base = stack.rows 0 (omega arith)

  filled : s.head_off < s.tail_off
  filled = ground (arith, first-null base)

  head_is : s.head ≡ at 0 s.head_off
  head_is = ground (arith, base.first, filled)

  abbrev cut_mem : Mem
  cut_mem = set_next m s.head null

  abbrev cut_queue : Skiplist
  cut_queue = record s {
    head = m.next s.head;
    candidate = if s.head == s.candidate then null else s.candidate;
    head_off = s.head_off + 1;
  }

  cut-rows : (j : ℕ) → j ≤ n_layers → Row (at j) (nexts cut_mem j) (row cut_queue j)
  cut-rows zero b =
      Row-back base (suc s.head_off) (nexts cut_mem 0) (row cut_queue 0) (omega arith) filled
        (λ p x y. update-ne m.next s.head (at 0 p) null λ e.
          omega (arith, base.once p s.head_off (omega arith) y (omega arith) filled (e ∙ head_is)))
        (omega arith) refl (ap m.next (head_is ∙ ap (at 0) (omega arith))) refl
        (pop-cand base filled)
  cut-rows (suc j) b = stack.rows (suc j) b

  cut-link :
      (lo' : Layer)
      → lo'.tail_off ≡ s.tail_off
      → s.tail_off / skip_gap - (lo'.head_off + (skip_gap - 1)) / skip_gap
        ≡ s.tail_off / skip_gap - (s.head_off + (skip_gap - 1)) / skip_gap
      → ((s.layers 0).head_off < (s.layers 0).tail_off
          → (lo'.head_off + (skip_gap - 1)) / skip_gap ≡ (s.head_off + (skip_gap - 1)) / skip_gap)
      → Link (at 0) (at 1) m.node lo' (s.layers 0)
  cut-link lo' tails count start =
      let old = stack.links 0 (omega arith) in
      Link-part old (at 0) (at 1) m.node lo' (s.layers 0) (omega arith) (omega arith)
        (λ p x y. refl) (λ p x y. refl) (λ p x y. (refl, refl))
        (rw tails (omega (arith, old.groups)))
        (λ p x y. ap (λ c. (c + (p - (s.layers 0).head_off)) * skip_gap) (start (omega arith)))

  cut-IsAhead : IsAhead 0 cut_mem cut_queue at
  cut-IsAhead = record {
    rows = cut-rows;
    links = links;
    ahead = λ b.
        cut-link (record (row cut_queue 0) { head_off = cut_queue.head_off - 1 }) refl (omega arith)
          (λ h. omega arith);
    alloc = stack.alloc;
    owned = stack.owned;
    apart = stack.apart;
  }
    where
      links :
          (j : ℕ)
          → j < n_layers
          → j ≢ 0
          → Link (at j) (at (suc j)) m.node (row cut_queue j) (s.layers j)
      links zero b ne = absurd (ne refl)
      links (suc j) b ne = stack.links (suc j) b

  -- No group begins to go, or none stands above.
  cut-IsStack :
      ((s.head_off + 1) % skip_gap ≢ 1) ⊎ ((s.layers 0).head_node ≡ null)
      → IsStack cut_mem cut_queue at
  cut-IsStack rest = record {
    rows = cut-rows;
    links = links;
    alloc = stack.alloc;
    owned = stack.owned;
    apart = stack.apart;
  }
    where
      base_link : Link (at 0) (at 1) m.node (row cut_queue 0) (s.layers 0)
      base_link =
          let old = stack.links 0 (omega arith) in
          elim rest [
            | inl inside ↦ cut-link (row cut_queue 0) refl (omega arith) (λ h. omega arith)
            | inr empty ↦
                (let none_above = (first-null (stack.rows 1 (omega arith))).0 empty in
                  cut-link (row cut_queue 0) refl (omega (arith, old.groups))
                    (λ h. absurd (omega arith)))
          ]

      links :
          (j : ℕ) → j < n_layers → Link (at j) (at (suc j)) m.node (row cut_queue j) (s.layers j)
      links zero b = base_link
      links (suc j) b = stack.links (suc j) b

  pub dequeue-IsStack : IsStack (dequeue m s).1 (dequeue m s).2 at
  unfolding dequeue
  dequeue-IsStack =
      let some_head : (s.head == null) ≡ false = ground arith in
      rw some_head (elim (Bool-cases ((s.head_off + 1) % skip_gap == 1)) [
        | inr inside ↦ rw inside (cut-IsStack (inl (ground arith)))
        | inl starts ↦ rw starts (elim (Bool-cases ((s.layers 0).head_node == null)) [
          | inl empty ↦ rw empty (cut-IsStack (inr (ground arith)))
          | inr above ↦ rw above (
              shrink-IsStack n_layers 0 refl cut_mem cut_queue at cut-IsAhead (omega arith)
                (ground arith) (ground arith))
        ])
      ])

  pub dequeue-head :
      ((dequeue m s).0 ≡ s.head)
      × ((dequeue m s).2.head_off ≡ suc s.head_off)
      × ((dequeue m s).2.tail_off ≡ s.tail_off)
  unfolding dequeue
  dequeue-head = ground arith

  dequeue-counts : ((dequeue m s).1.counter ≡ m.counter) × ((dequeue m s).1.next s.head ≡ null)
  unfolding dequeue
  dequeue-counts = ground arith

  pub dequeue-contents : contents m s ≡ s.head ∷ contents (dequeue m s).1 (dequeue m s).2
  unfolding slice
  dequeue-contents =
      let (_, eh, et) = dequeue-head in
      let long : s.tail_off - s.head_off ≡ suc (s.tail_off - suc s.head_off) =
        omega (arith, filled) in
      rw (contents-slice stack, contents-slice dequeue-IsStack, eh, et, long, head_is)

module _ (m : Mem) (s : Skiplist) where
  pub dequeue-null : s.head ≡ null → dequeue m s ≡ (null, m, s)
  unfolding dequeue
  dequeue-null e = let here : (s.head == null) ≡ true = ground arith in rw here

-- What `dequeue_` is to do on a queue with the tasks xs.
abbrev pub Dequeues : Mem → Skiplist → Ptr × Mem × Skiplist → Type 0
Dequeues m s (p, m', s') =
    ((contents m s ≡ []) × (p ≡ null) × (m' ≡ m) × (s' ≡ s))
    ⊎ ((0 < p)
        × (contents m s ≡ p ∷ contents m' s')
        × (m'.counter ≡ m.counter)
        × (m'.next p ≡ null))

-- On a queue in a good state `dequeue_` either returns null, changes nothing, and the queue is empty;
-- or returns the first task, leaves the others in order, unlinks it and keeps all reference counts.
pub contents-dequeue : {m : Mem} {s : Skiplist} → IsValid m s → Dequeues m s (dequeue m s)
unfolding slice
contents-dequeue {m} {s} v =
    let base = v.stack.rows 0 (omega arith) in
    elim (eq_cases s.head null) [
      | inl (e, empty) ↦
          (let gone = dequeue-null m s empty in
            let none_left : s.tail_off - s.head_off ≡ 0 =
              omega (arith, (first-null base).0 empty) in
            inl (
              contents-slice v.stack ∙ ap (slice (v.at 0) s.head_off) none_left,
              ap (λ r. r.0) gone,
              ap (λ r. r.1) gone,
              ap (λ r. r.2) gone,
            ))
      | inr (e, some) ↦
          (let (ep, _, _) = dequeue-head v.stack some in
            let (ec, en) = dequeue-counts v.stack some in
            inr (omega (arith, ep), rw ep (dequeue-contents v.stack some), ec, rw ep en))
    ]

-- `dequeue_` keeps the good state of the queue.
pub dequeue-IsValid :
    {m : Mem} {s : Skiplist} → IsValid m s → IsValid (dequeue m s).1 (dequeue m s).2
dequeue-IsValid {m} {s} v = elim (eq_cases s.head null) [
  | inl (e, empty) ↦ rw (dequeue-null m s empty) v
  | inr (e, some) ↦ record { at = v.at; stack = dequeue-IsStack v.stack some }
]
