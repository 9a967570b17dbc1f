-- ===== src/Skiplist/Divide/Back.antt =====
-- What stays of a queue that is divided is in order.
use tythread.Base.{
  ℕ, zero, suc, ◌+◌, ◌-◌, ◌/◌, ◌*◌, ◌≤◌, ◌<◌, refl, ap, inl, inr, arith, Ptr, lt_cases, eq_cases,
}
use tythread.Skiplist.{Mem, Skiplist, n_layers, skip_gap, row}
use tythread.Skiplist.Row.{Row, Row-back, Row-empty, IsEmpty}
use tythread.Skiplist.Link.{Link, Link-part, Link-empty}
use tythread.Skiplist.Stack.{nexts, IsStack}
use tythread.Skiplist.Frame.{Within}
use tythread.Skiplist.Divide.{IsCut, IsSevered, IsBack}

module _ {m m' : Mem} {s : Skiplist} {at : ℕ → ℕ → Ptr} (stack : IsStack m s at) (top : ℕ)
    (cut : ℕ → ℕ) (is_cut : IsCut s top cut) (severed : IsSevered m m' s at top cut) where
  below_top : {i : ℕ} → i ≤ top → i ≤ n_layers
  below_top h = omega (arith, is_cut.top_le)

  -- What stays. No layer from `top` on has a node.
  module _ (t : Skiplist)
      (backs : (i : ℕ) → i ≤ top → IsBack m (at i) i (cut i) (row s i) (row t i))
      (uppers : (j : ℕ) → top ≤ j → j < n_layers → IsEmpty (t.layers j))
      (none_full : (row s top).tail_off / skip_gap ≤ (cut top + (skip_gap - 1)) / skip_gap) where
    back-rows : (i : ℕ) → i ≤ n_layers → Row (at i) (nexts m' i) (row t i)
    back-rows i b = elim (lt_cases top i) [
      | inr h ↦
          (let r = backs i h in
            Row-back (stack.rows i b) (cut i) (nexts m' i) (row t i) (is_cut.above i h)
              (is_cut.below i h)
              (λ p x y.
                severed.same i p b (omega (arith, is_cut.above i h)) y
                  (λ _. omega (arith, is_cut.above i h)))
              r.head_off r.tail_off r.head_node r.tail_node r.candidate)
      | inl h ↦ Row-empty (at i) (nexts m' i) (upper i h b)
    ]
      where
        upper : (i : ℕ) → top < i → i ≤ n_layers → IsEmpty (row t i)
        upper zero h b = absurd (omega arith)
        upper (suc j) h b = uppers j (omega arith) b

    no_group :
        (i : ℕ)
        → top ≤ i
        → i < n_layers
        → (row t i).tail_off / skip_gap ≤ ((row t i).head_off + (skip_gap - 1)) / skip_gap
    no_group i h b = elim (eq_cases top i) [
      | inl (_, e) ↦
          (let r = backs i (omega arith) in rw (r.head_off, r.tail_off) (rw e at none_full))
      | inr (_, ne) ↦ beyond i (omega arith) b
    ]
      where
        beyond :
            (i : ℕ)
            → top < i
            → i < n_layers
            → (row t i).tail_off / skip_gap ≤ ((row t i).head_off + (skip_gap - 1)) / skip_gap
        beyond zero h b = absurd (omega arith)
        beyond (suc j) h b = omega (arith, (uppers j (omega arith) (omega arith)).ends)

    back-links : (i : ℕ) → i < n_layers → Link (at i) (at (suc i)) m'.node (row t i) (t.layers i)
    back-links i b = elim (lt_cases i top) [
      | inl h ↦
          (let old = stack.links i b in
            let lo = backs i (omega arith) in
            let hi = backs (suc i) h in
            let g = is_cut.groups i h in
            let hi_above = is_cut.above (suc i) h in
            let hi_below = is_cut.below (suc i) h in
            Link-part old (at i) (at (suc i)) m'.node (row t i) (t.layers i)
              (omega (arith, hi.head_off)) (omega (arith, hi.tail_off)) (λ p x y. refl)
              (λ p x y. refl) (λ p x y. severed.groups (at (suc i) p))
              (omega (
                arith, lo.head_off, lo.tail_off, hi.head_off, hi.tail_off, g, hi_above, hi_below,
                old.groups,
              ))
              (λ p x y.
                ap (λ c. c * skip_gap) (omega (arith, lo.head_off, hi.head_off, g, hi_above))))
      | inr h ↦ Link-empty (at i) (at (suc i)) m'.node (uppers i h b).ends (no_group i h b)
    ]

    pub back-within :
        (j p : ℕ)
        → j < n_layers
        → (t.layers j).head_off ≤ p
        → p < (t.layers j).tail_off
        → ((s.layers j).head_off ≤ p) × (p < (s.layers j).tail_off)
    back-within j p b x y = elim (lt_cases j top) [
      | inl h ↦
          (let r = backs (suc j) h in
            let cut_above = is_cut.above (suc j) h in
            (omega (arith, r.head_off), omega (arith, r.tail_off)))
      | inr h ↦ absurd (omega (arith, (uppers j h b).ends))
    ]

    pub back-IsStack : IsStack m' t at
    back-IsStack = record {
      rows = back-rows;
      links = back-links;
      alloc = rw severed.fresh stack.alloc;
      owned = λ j p b x y.
          (let (x', y') = back-within j p b x y in rw severed.fresh (stack.owned j p b x' y'));
      apart = λ j k p q b c x y z w.
          (let (x', y') = back-within j p b x y in
            let (z', w') = back-within k q c z w in stack.apart j k p q b c x' y' z' w');
    }

    pub back-Within : (p : Ptr) → Within m s at t at p
    back-Within p = record {
      task = λ a (q, x, y, e).
          (let r = backs 0 (omega arith) in
            let above = is_cut.above 0 (omega arith) in
            let below = is_cut.below 0 (omega arith) in
            inl (q, omega (arith, r.head_off), omega (arith, r.tail_off), e));
      node = λ j a b (q, x, y, e). (let (x', y') = back-within j q b x y in inl (q, x', y', e));
    }
