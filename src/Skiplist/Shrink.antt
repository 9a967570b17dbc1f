-- ===== src/Skiplist/Shrink.antt =====
-- The loop of `dequeue_`: the groups that have lost their first node leave the layers.
use tythread.Base.{
  ℕ, zero, suc, ◌+◌, ◌-◌, ◌/◌, ◌*◌, ◌%◌, ◌≤◌, ◌<◌, ◌≡◌, refl, ap, ◌∙◌, ◌⊎◌, inl, inr, ◌≢◌, ◌==◌,
  arith, Ptr, null, update, update-ne, update_self, eq_cases, false, Bool-cases, ltb,
}
use tythread.Skiplist.{Layer, Mem, Skiplist, n_layers, skip_gap, row, pop_node, shrink}
use tythread.Skiplist.Row.{Row, Row-back, first-null, pop-cand}
use tythread.Skiplist.Link.{Link, Link-part}
use tythread.Skiplist.Stack.{nexts, IsStack}

-- The rows in order, while a group that row i has begun to lose has its node above still.
pub record IsAhead (i : ℕ) (m : Mem) (s : Skiplist) (at : ℕ → ℕ → Ptr) : Type 0 where
  pub rows : (j : ℕ) → j ≤ n_layers → Row (at j) (nexts m j) (row s j)
  pub links :
      (j : ℕ) → j < n_layers → j ≢ i → Link (at j) (at (suc j)) m.node (row s j) (s.layers j)
  pub ahead :
      i < n_layers
      → Link
          (at i)
          (at (suc i))
          m.node
          (record (row s i) { head_off = (row s i).head_off - 1 })
          (s.layers i)
  pub alloc : 0 < m.fresh
  pub owned :
      (j p : ℕ)
      → j < n_layers
      → (s.layers j).head_off ≤ p
      → p < (s.layers j).tail_off
      → at (suc j) p < m.fresh
  pub apart :
      (j k p q : ℕ)
      → j < n_layers
      → k < n_layers
      → (s.layers j).head_off ≤ p
      → p < (s.layers j).tail_off
      → (s.layers k).head_off ≤ q
      → q < (s.layers k).tail_off
      → at (suc j) p ≡ at (suc k) q
      → j ≡ k

-- One round, at a layer that has a node.
module _ (i : ℕ) {m : Mem} {s : Skiplist} {at : ℕ → ℕ → Ptr} (ahead : IsAhead i m s at)
    (below : i < n_layers) (some : (s.layers i).head_node ≢ null) where
  abbrev popped : Layer
  popped = pop_node m (s.layers i)

  abbrev popped_queue : Skiplist
  popped_queue = record s { layers = update s.layers i popped }

  own-Row : Row (at (suc i)) (nexts m (suc i)) (s.layers i)
  own-Row = ahead.rows (suc i) (omega arith)

  pub filled : (s.layers i).head_off < (s.layers i).tail_off
  filled = ground (arith, first-null own-Row)

  pub head_is : (s.layers i).head_node ≡ at (suc i) (s.layers i).head_off
  head_is = ground (arith, own-Row.first)

  popped-Row : Row (at (suc i)) (nexts m (suc i)) popped
  unfolding pop_node
  popped-Row =
      Row-back own-Row (suc (s.layers i).head_off) (nexts m (suc i)) (pop_node m (s.layers i))
        (omega arith) filled (λ p x y. refl) (omega arith) refl
        (ap (λ a. (m.node a).next_node) (head_is ∙ ap (at (suc i)) (omega arith))) refl
        (pop-cand own-Row filled)

  popped-rows : (j : ℕ) → j ≤ n_layers → Row (at j) (nexts m j) (row popped_queue j)
  popped-rows zero b = ahead.rows 0 b
  popped-rows (suc k) b = elim (eq_cases k i) [
    | inl (e, same) ↦ rw (same, update_self s.layers i popped) popped-Row
    | inr (e, ne) ↦ rw (update-ne s.layers i k popped ne) (ahead.rows (suc k) b)
  ]

  row_else : (j : ℕ) → j ≢ suc i → row popped_queue j ≡ row s j
  row_else zero ne = refl
  row_else (suc k) ne = update-ne s.layers i k popped (ground arith)

  -- Row i has the node gone that stood for the group that it has begun to lose.
  link_self :
      (row s i).head_off % skip_gap ≡ 1
      → Link (at i) (at (suc i)) m.node (row popped_queue i) (popped_queue.layers i)
  unfolding pop_node
  link_self starts =
      let old = ahead.ahead below in
      rw (row_else i (omega arith), update_self s.layers i popped)
        (Link-part old (at i) (at (suc i)) m.node (row s i) popped (omega arith) (omega arith)
          (λ p x y. refl) (λ p x y. refl) (λ p x y. (refl, refl))
          (omega (arith, old.groups, filled)) (λ p x y. omega arith))

  -- The other links stay, where the row below has not begun to lose a group.
  link_else :
      (j : ℕ)
      → j < n_layers
      → j ≢ i
      → (lo' : Layer) → lo'.tail_off ≡ (row s j).tail_off
      → lo'.tail_off / skip_gap - (lo'.head_off + (skip_gap - 1)) / skip_gap
        ≡ lo'.tail_off / skip_gap - ((row s j).head_off + (skip_gap - 1)) / skip_gap
      → ((s.layers j).head_off < (s.layers j).tail_off
          → (lo'.head_off + (skip_gap - 1)) / skip_gap
            ≡ ((row s j).head_off + (skip_gap - 1)) / skip_gap)
      → Link (at j) (at (suc j)) m.node lo' (popped_queue.layers j)
  link_else j b ne lo' tails count start =
      let old = ahead.links j b ne in
      rw (update-ne s.layers i j popped ne) (
        Link-part old (at j) (at (suc j)) m.node lo' (s.layers j) (omega arith) (omega arith)
          (λ p x y. refl) (λ p x y. refl) (λ p x y. (refl, refl)) (omega (arith, old.groups))
          (λ p x y. ap (λ c. (c + (p - (s.layers j).head_off)) * skip_gap) (start (omega arith))))

  popped-within :
      (j p : ℕ)
      → (popped_queue.layers j).head_off ≤ p
      → p < (popped_queue.layers j).tail_off
      → ((s.layers j).head_off ≤ p) × (p < (s.layers j).tail_off)
  unfolding pop_node
  popped-within j p x y = ground arith

  popped-owned :
      (j p : ℕ)
      → j < n_layers
      → (popped_queue.layers j).head_off ≤ p
      → p < (popped_queue.layers j).tail_off
      → at (suc j) p < m.fresh
  popped-owned j p b x y = let (x', y') = popped-within j p x y in ahead.owned j p b x' y'

  popped-apart :
      (j k p q : ℕ)
      → j < n_layers
      → k < n_layers
      → (popped_queue.layers j).head_off ≤ p
      → p < (popped_queue.layers j).tail_off
      → (popped_queue.layers k).head_off ≤ q
      → q < (popped_queue.layers k).tail_off
      → at (suc j) p ≡ at (suc k) q
      → j ≡ k
  popped-apart j k p q b c x y z w =
      let (x', y') = popped-within j p x y in
      let (z', w') = popped-within k q z w in ahead.apart j k p q b c x' y' z' w'

  module _ (starts : (row s i).head_off % skip_gap ≡ 1) where
    popped-links :
        (j : ℕ)
        → j < n_layers
        → j ≢ suc i
        → Link (at j) (at (suc j)) m.node (row popped_queue j) (popped_queue.layers j)
    popped-links j b ne = elim (eq_cases j i) [
      | inl (e, same) ↦ rw same (link_self starts)
      | inr (e, other) ↦
          link_else j b other (row popped_queue j) (rw (row_else j ne)) (rw (row_else j ne))
            (λ _. rw (row_else j ne))
    ]

    pub popped-IsAhead : IsAhead (suc i) m popped_queue at
    unfolding pop_node
    popped-IsAhead = record {
      rows = popped-rows;
      links = popped-links;
      ahead = λ b.
          link_else (suc i) b (omega arith)
            (record (row popped_queue (suc i)) {
              head_off = (row popped_queue (suc i)).head_off - 1;
            })
            (rw (update_self s.layers i popped)) (rw (update_self s.layers i popped) (omega arith))
            (λ _. rw (update_self s.layers i popped) (omega arith));
      alloc = ahead.alloc;
      owned = popped-owned;
      apart = popped-apart;
    }

    -- No group of layer i begins to go, or none stands above.
    pub popped-IsStack :
        (suc i < n_layers
          → (popped.head_off % skip_gap ≢ 1) ⊎ ((s.layers (suc i)).head_node ≡ null))
        → IsStack m popped_queue at
    unfolding pop_node
    popped-IsStack rest = record {
      rows = popped-rows;
      links = λ j b. elim (eq_cases j (suc i)) [
        | inl (e, same) ↦ rw same (
            link_else (suc i) (rw same at b) (omega arith) (row popped_queue (suc i))
              (rw (update_self s.layers i popped))
              (rw (update_self s.layers i popped) (still (rw same at b)).0)
              (λ h. rw (update_self s.layers i popped) ((still (rw same at b)).1 h)))
        | inr (e, ne) ↦ popped-links j b ne
      ];
      alloc = ahead.alloc;
      owned = popped-owned;
      apart = popped-apart;
    }
      where
        still :
            suc i < n_layers
            → ((s.layers i).tail_off / skip_gap
                  - ((s.layers i).head_off + 1 + (skip_gap - 1)) / skip_gap
                ≡ (s.layers i).tail_off / skip_gap
                  - ((s.layers i).head_off + (skip_gap - 1)) / skip_gap)
              × ((s.layers (suc i)).head_off < (s.layers (suc i)).tail_off
                  → ((s.layers i).head_off + 1 + (skip_gap - 1)) / skip_gap
                    ≡ ((s.layers i).head_off + (skip_gap - 1)) / skip_gap)
        still b =
            let old = ahead.links (suc i) b (omega arith) in
            let upper = first-null (ahead.rows (suc (suc i)) (omega arith)) in
            elim (rest b) [
              | inl inside ↦ (omega arith, λ h. omega arith)
              | inr empty ↦
                  (let none_above = upper.0 empty in
                    (
                      omega (arith, old.groups, none_above),
                      λ h. absurd (omega (arith, none_above)),
                    ))
            ]

-- The whole loop.
pub shrink-IsStack :
    (k i : ℕ)
    → k + i ≡ n_layers
    → (m : Mem) (s : Skiplist) (at : ℕ → ℕ → Ptr) → IsAhead i m s at
    → i < n_layers
    → (s.layers i).head_node ≢ null
    → (row s i).head_off % skip_gap ≡ 1
    → IsStack m (record s { layers = shrink k i m s.layers }) at
unfolding shrink
shrink-IsStack zero i e m s at ahead below some starts = absurd (omega arith)
shrink-IsStack (suc k) i e m s at ahead below some starts =
    let l = pop_node m (s.layers i) in
    let ls' = update s.layers i l in
    let self : ls' i ≡ l = update_self s.layers i l in
    let next : ls' (suc i) ≡ s.layers (suc i) = update-ne s.layers i (suc i) l (omega arith) in
    elim (Bool-cases ((ls' i).head_off % skip_gap == 1)) [
      | inr stop ↦ rw stop (
          popped-IsStack i ahead below some starts λ b.
            inl
              (let here : (l.head_off % skip_gap == 1) ≡ false = (rw self at stop) in ground arith))
      | inl go ↦ rw go (elim (Bool-cases (ltb (suc i) n_layers)) [
        | inr top ↦ rw top (popped-IsStack i ahead below some starts λ b. absurd (ground arith))
        | inl inner ↦ rw inner (elim (Bool-cases ((ls' (suc i)).head_node == null)) [
          | inl none_above ↦
              rw none_above
                (popped-IsStack i ahead below some starts λ b. inr (ground (arith, next)))
          | inr above ↦ rw above (
              shrink-IsStack k (suc i) (omega arith) m (record s { layers = ls' }) at
                (popped-IsAhead i ahead below some starts) (ground arith) (ground (arith, next))
                (ground arith))
        ])
      ])
    ]
