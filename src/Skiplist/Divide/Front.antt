-- ===== src/Skiplist/Divide/Front.antt =====
-- What goes from a queue that is divided is in order.
use tythread.Base.{
  ℕ, zero, suc, ◌+◌, ◌-◌, ◌/◌, ◌*◌, ◌≤◌, ◌<◌, ◌≡◌, refl, ap, ◌⊎◌, inl, inr, arith, Ptr, lt_cases,
  eq_cases,
}
use tythread.Skiplist.{Mem, Skiplist, n_layers, skip_gap, row}
use tythread.Skiplist.Row.{Row, Row-front, Row-frame, Row-empty, IsEmpty}
use tythread.Skiplist.Link.{Link, Link-part, Link-empty}
use tythread.Skiplist.Stack.{nexts, IsStack}
use tythread.Skiplist.Frame.{Within}
use tythread.Skiplist.Divide.{IsCut, IsSevered, IsFront}

module _ {m m' : Mem} {s : Skiplist} {at : ℕ → ℕ → Ptr} (stack : IsStack m s at) (top : ℕ)
    (cut : ℕ → ℕ) (is_cut : IsCut s top cut) (severed : IsSevered m m' s at top cut) where
  below_top : {i : ℕ} → i ≤ top → i ≤ n_layers
  below_top h = omega (arith, is_cut.top_le)

  -- What goes. It takes the node of layer `top` along, if that stands for a group that goes.
  module _ (t : Skiplist) (fronts : (i : ℕ) → i ≤ top → IsFront (at i) (cut i) (row s i) (row t i))
      (uppers : (j : ℕ) → top < j → j < n_layers → IsEmpty (t.layers j))
      (upper : (IsEmpty (t.layers top)
          × (cut top / skip_gap ≤ ((row s top).head_off + (skip_gap - 1)) / skip_gap))
        ⊎ ((t.layers top ≡ s.layers top)
            × (cut top / skip_gap ≡ (row s top).tail_off / skip_gap)
            × ((s.layers top).tail_off ≡ suc (s.layers top).head_off))) where
    front-rows : (i : ℕ) → i ≤ n_layers → Row (at i) (nexts m' i) (row t i)
    front-rows i b = elim (lt_cases top i) [
      | inr h ↦
          (let r = fronts i h in
            Row-front (stack.rows i b) (cut i) (nexts m' i) (row t i) (is_cut.above i h)
              (is_cut.below i h) (severed.ends i h)
              (λ p x y. severed.same i p b x (omega (arith, is_cut.below i h)) (λ _. omega arith))
              r.head_off r.tail_off r.head_node r.tail_node r.candidate)
      | inl h ↦ beyond i h b
    ]
      where
        beyond : (i : ℕ) → top < i → i ≤ n_layers → Row (at i) (nexts m' i) (row t i)
        beyond zero h b = absurd (omega arith)
        beyond (suc j) h b = elim (eq_cases top j) [
          | inr (_, ne) ↦ Row-empty (at (suc j)) (nexts m' (suc j)) (uppers j (omega arith) b)
          | inl (_, e) ↦ elim upper [
            | inl (empty, _) ↦ Row-empty (at (suc j)) (nexts m' (suc j)) (rw e at empty)
            | inr (kept, _, _) ↦
                rw (← e, kept)
                  (Row-frame (stack.rows (suc top) (omega arith)) (at (suc top))
                    (nexts m' (suc top)) (λ p x y. refl)
                    (λ p x y.
                      severed.same (suc top) p (omega arith) x y (λ h. absurd (omega arith))))
          ]
        ]

    front-no_group :
        (i : ℕ)
        → top < i
        → i < n_layers
        → (row t i).tail_off / skip_gap ≤ ((row t i).head_off + (skip_gap - 1)) / skip_gap
    front-no_group zero h b = absurd (omega arith)
    front-no_group (suc j) h b = elim (eq_cases top j) [
      | inr (_, ne) ↦ omega (arith, (uppers j (omega arith) (omega arith)).ends)
      | inl (_, e) ↦ elim upper [
        | inl (empty, _) ↦ omega (arith, (rw e at empty).ends)
        | inr (kept, _, one) ↦ rw (← e, kept) (omega arith)
      ]
    ]

    front-links : (i : ℕ) → i < n_layers → Link (at i) (at (suc i)) m'.node (row t i) (t.layers i)
    front-links i b = elim (lt_cases i top) [
      | inl h ↦
          (let old = stack.links i b in
            let lo = fronts i (omega arith) in
            let hi = fronts (suc i) h in
            let g = is_cut.groups i h in
            let hi_above = is_cut.above (suc i) h in
            let hi_below = is_cut.below (suc i) h in
            Link-part old (at i) (at (suc i)) m'.node (row t i) (t.layers i)
              (omega (arith, hi.head_off)) (omega (arith, hi.tail_off)) (λ p x y. refl)
              (λ p x y. refl) (λ p x y. severed.groups (at (suc i) p))
              (omega (arith, lo.head_off, lo.tail_off, hi.head_off, hi.tail_off, g, hi_above))
              (λ p x y. ap (λ c. c * skip_gap) (omega (arith, lo.head_off, hi.head_off))))
      | inr h ↦ elim (eq_cases top i) [
        | inr (_, ne) ↦
            Link-empty (at i) (at (suc i)) m'.node (uppers i (omega arith) b).ends
              (front-no_group i (omega arith) b)
        | inl (_, e) ↦
            (let r = fronts i (omega arith) in
              elim upper [
                | inl (empty, none_full) ↦
                    Link-empty (at i) (at (suc i)) m'.node (rw e at empty).ends
                      (rw (r.head_off, r.tail_off) (rw e at none_full))
                | inr (kept, full, one) ↦
                    (let old = stack.links i b in
                      let same = rw e at kept in
                      let full_i = rw e at full in
                      rw same (
                        Link-part old (at i) (at (suc i)) m'.node (row t i) (s.layers i)
                          (omega arith) (omega arith) (λ p x y. refl) (λ p x y. refl)
                          (λ p x y. severed.groups (at (suc i) p))
                          (rw (r.head_off, r.tail_off, full_i) old.groups)
                          (λ p x y. rw r.head_off)))
              ])
      ]
    ]

    pub front-within :
        (j p : ℕ)
        → j < n_layers
        → (t.layers j).head_off ≤ p
        → p < (t.layers j).tail_off
        → ((s.layers j).head_off ≤ p) × (p < (s.layers j).tail_off)
    front-within j p b x y = elim (lt_cases j top) [
      | inl h ↦
          (let r = fronts (suc j) h in
            let cut_below = is_cut.below (suc j) h in
            (omega (arith, r.head_off), omega (arith, r.tail_off)))
      | inr h ↦ elim (eq_cases top j) [
        | inr (_, ne) ↦ absurd (omega (arith, (uppers j (omega arith) b).ends))
        | inl (_, e) ↦ elim upper [
          | inl (empty, _) ↦ absurd (omega (arith, (rw e at empty).ends))
          | inr (kept, _, _) ↦ (let same = rw e at kept in (rw (← same) x, rw (← same) y))
        ]
      ]
    ]

    pub front-IsStack : IsStack m' t at
    front-IsStack = record {
      rows = front-rows;
      links = front-links;
      alloc = rw severed.fresh stack.alloc;
      owned = λ j p b x y.
          (let (x', y') = front-within j p b x y in rw severed.fresh (stack.owned j p b x' y'));
      apart = λ j k p q b c x y z w.
          (let (x', y') = front-within j p b x y in
            let (z', w') = front-within k q c z w in stack.apart j k p q b c x' y' z' w');
    }

    pub front-Within : (p : Ptr) → Within m s at t at p
    front-Within p = record {
      task = λ a (q, x, y, e).
          (let r = fronts 0 (omega arith) in
            let above = is_cut.above 0 (omega arith) in
            let below = is_cut.below 0 (omega arith) in
            inl (q, omega (arith, r.head_off), omega (arith, r.tail_off), e));
      node = λ j a b (q, x, y, e). (let (x', y') = front-within j q b x y in inl (q, x', y', e));
    }
