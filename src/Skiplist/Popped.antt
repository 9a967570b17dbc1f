-- ===== src/Skiplist/Popped.antt =====
-- What `dequeue_` writes.
use tythread.Base.{
  Bool, if◌then◌else◌, subst, ℕ, zero, suc, ◌+◌, ◌%◌, ◌≤◌, ◌<◌, ◌≡◌, refl, sym, ap, ◌∙◌, inl, inr,
  ◌≢◌, ◌==◌, arith, Ptr, null, update, update-ne, false, Bool-cases, ltb,
}
use tythread.Skiplist.{
  Layer, Mem, Skiplist, n_layers, skip_gap, pop_node, shrink, dequeue, set_next,
}
use tythread.Skiplist.Frame.{In, Touches, Within}
use tythread.Skiplist.Row.{first-null}
use tythread.Skiplist.Stack.{IsStack}

-- From the layers ls to ls', layer j lost nodes at the front only.
abbrev Loses : (ℕ → Layer) → (ℕ → Layer) → ℕ → Type 0
Loses ls ls' j = ((ls j).head_off ≤ (ls' j).head_off) × ((ls' j).tail_off ≡ (ls j).tail_off)

if-Loses :
    (b : Bool) (ls x y : ℕ → Layer) (j : ℕ)
    → Loses ls x j
    → Loses ls y j
    → Loses ls (if b then x else y) j
if-Loses b ls x y j p q = elim (Bool-cases b) [ inl e ↦ rw e p | inr e ↦ rw e q ]

pop_node-Loses :
    (m : Mem) (i : ℕ) (ls : ℕ → Layer) (j : ℕ) → Loses ls (update ls i (pop_node m (ls i))) j
unfolding pop_node
pop_node-Loses m i ls j = ground arith

shrink-Loses : (k i : ℕ) (m : Mem) (ls : ℕ → Layer) (j : ℕ) → Loses ls (shrink k i m ls) j
unfolding shrink
shrink-Loses zero i m ls j = (omega arith, refl)
shrink-Loses (suc k) i m ls j =
    let ls' = update ls i (pop_node m (ls i)) in
    let up = shrink k (suc i) m ls' in
    let one = pop_node-Loses m i ls j in
    let rest = shrink-Loses k (suc i) m ls' j in
    let both : Loses ls up j = (omega (arith, one, rest), omega (arith, one, rest)) in
    let deep = if-Loses ((ls' (suc i)).head_node == null) ls ls' up j one both in
    let wide =
      if-Loses (ltb (suc i) n_layers) ls (if (ls' (suc i)).head_node == null then ls' else up) ls' j
        deep one in
    if-Loses ((ls' i).head_off % skip_gap == 1) ls
      (if ltb (suc i) n_layers then (if (ls' (suc i)).head_node == null then ls' else up) else ls')
      ls' j wide one

module _ (m : Mem) (s : Skiplist) (some : s.head ≢ null) where
  dequeue-writes :
      ((dequeue m s).1.next ≡ update m.next s.head null)
      × ((dequeue m s).1.node ≡ m.node)
      × ((dequeue m s).1.fresh ≡ m.fresh)
  unfolding dequeue
  dequeue-writes = ground arith

  dequeue-offs :
      ((dequeue m s).2.head_off ≡ suc s.head_off) × ((dequeue m s).2.tail_off ≡ s.tail_off)
  unfolding dequeue
  dequeue-offs = ground arith

  dequeue-Loses : (j : ℕ) → Loses s.layers (dequeue m s).2.layers j
  unfolding dequeue
  dequeue-Loses j =
      let some_head : (s.head == null) ≡ false = ground arith in
      let same : Loses s.layers s.layers j = (omega arith, refl) in
      let up = shrink n_layers 0 (set_next m s.head null) s.layers in
      let deep =
        if-Loses ((s.layers 0).head_node == null) s.layers s.layers up j same
          (shrink-Loses n_layers 0 (set_next m s.head null) s.layers j) in
      rw some_head (
        if-Loses ((s.head_off + 1) % skip_gap == 1) s.layers
          (if (s.layers 0).head_node == null then s.layers else up) s.layers j deep same)

module _ {m : Mem} {s : Skiplist} {at : ℕ → ℕ → Ptr} (stack : IsStack m s at)
    (some : s.head ≢ null) where
  filled : s.head_off < s.tail_off
  filled = ground (arith, first-null (stack.rows 0 (omega arith)))

  head_first : at 0 s.head_off ≡ s.head
  head_first = ground (arith, (stack.rows 0 (omega arith)).first, filled)

  -- The task that goes is none of those left.
  pub dequeue-gone : ¬ In (dequeue m s).2 at 0 s.head
  dequeue-gone (q, x, y, e) =
      let (h, t) = dequeue-offs m s some in
      omega (
        arith,
        h,
        t,
        (stack.rows 0 (omega arith)).once q s.head_off (omega (arith, h)) (omega (arith, t))
            (omega arith) filled (e ∙ sym head_first),
      )

  pub dequeue-Touches : (p : Ptr) → Touches m (dequeue m s).1 s at p
  dequeue-Touches p =
      let (n, k, f) = dequeue-writes m s some in
      record {
        next = λ a off ne.
            ap (λ g. g a) n
            ∙ update-ne m.next s.head a null (λ e.
              off (subst (In s at 0) (sym e) (s.head_off, omega arith, filled, head_first)));
        node = λ a old off. ap (λ g. g a) k;
        fresh = omega (arith, f);
      }

  pub dequeue-Within : (p : Ptr) → Within m s at (dequeue m s).2 at p
  dequeue-Within p =
      let (h, t) = dequeue-offs m s some in
      record {
        task = λ a (q, x, y, e). inl (q, omega (arith, h), omega (arith, t), e);
        node = λ j a b (q, x, y, e).
            (let (x', y') = dequeue-Loses m s some j in
              inl (q, omega (arith, x'), omega (arith, y'), e));
      }
