-- ===== src/Skiplist/Pushed.antt =====
-- What a round of the loop of `_update_after_enque` writes.
use tythread.Base.{
  ℕ, suc, ◌-◌, ◌≤◌, ◌<◌, ◌≡◌, sym, ap, ◌∙◌, ◌⊎◌, inl, inr, arith, Ptr, update, update-ne,
  update_self, eq_cases, subst,
}
use tythread.Skiplist.{Layer, Mem, Skiplist, n_layers, append_node}
use tythread.Skiplist.Frame.{In, Touches, Within}
use tythread.Skiplist.Grow.{pushed}
use tythread.Skiplist.Row.{first-null}
use tythread.Skiplist.Stack.{IsLagging, append_node-next, append_node-fresh, append_node-else}

module _ (i : ℕ) {m : Mem} {s : Skiplist} {at : ℕ → ℕ → Ptr} (lags : IsLagging i m s at)
    (below : i < n_layers) (cur last : Ptr) (p : Ptr) where
  -- The last node of layer i, if the layer has one, is the only old one that is written.
  pub round-Touches : Touches m (append_node cur last m (s.layers i)).0 s at p
  round-Touches =
      let up = append_node-fresh cur last m (s.layers i) in
      record {
        next = λ a off ne. ap (λ f. f a) (append_node-next cur last m (s.layers i));
        node = λ a old off. append_node-else cur last m (s.layers i) a (omega arith) (λ some e.
            let own = lags.rows (suc i) (omega arith) in
            let filled : (s.layers i).head_off < (s.layers i).tail_off =
              ground (arith, first-null own) in
            off i below
              ((s.layers i).tail_off - 1, omega arith, omega arith, sym (own.last filled) ∙ sym e));
        fresh = omega (arith, up);
      }

  pub round-Within :
      (l' : Layer)
      → l'.head_off ≡ (s.layers i).head_off
      → l'.tail_off ≡ suc (s.layers i).tail_off
      → Within m s at
          (record s { layers = update s.layers i l' })
          (pushed at i (s.layers i).tail_off m.fresh)
          p
  round-Within l' eh et = record {
    task = λ a (q, x, y, e).
        inl (q, x, y, sym (ap (λ f. f q) (update-ne at (suc i) 0 _ (omega arith))) ∙ e);
    node = λ j a h (q, x, y, e). elim (eq_cases j i) [
      | inl (_, is) ↦
          (let here : update s.layers i l' j ≡ l' =
              ap (update s.layers i l') is ∙ update_self s.layers i l' in
            let x' = subst (λ l. l.head_off ≤ q) here x in
            let y' = subst (λ l. q < l.tail_off) here y in
            let old = update (at (suc i)) (s.layers i).tail_off m.fresh in
            let e' : old q ≡ a =
              sym (
                ap (λ k. pushed at i (s.layers i).tail_off m.fresh (suc k) q) is
                ∙ ap (λ f. f q) (update_self at (suc i) old))
              ∙ e in
            elim (eq_cases q (s.layers i).tail_off) [
              | inl (_, top) ↦ inr (
                  omega (
                    arith,
                    sym e' ∙ ap old top ∙ update_self (at (suc i)) (s.layers i).tail_off m.fresh,
                  ))
              | inr (_, ne) ↦
                  subst (λ k. In s at (suc k) a ⊎ (m.fresh ≤ a)) (sym is)
                    (inl (
                      q,
                      omega arith,
                      omega arith,
                      sym (update-ne (at (suc i)) (s.layers i).tail_off q m.fresh ne) ∙ e',
                    ))
            ])
      | inr (_, other) ↦
          (let here = update-ne s.layers i j l' other in
            inl (
              q,
              subst (λ l. l.head_off ≤ q) here x,
              subst (λ l. q < l.tail_off) here y,
              sym (ap (λ f. f q) (update-ne at (suc i) (suc j) _ (omega arith))) ∙ e,
            ))
    ];
  }
