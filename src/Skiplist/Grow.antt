-- ===== src/Skiplist/Grow.antt =====
-- The loop of `_update_after_enque`: one round puts the node above, and passes the lag on.
use tythread.Base.{
  ℕ, zero, suc, ◌+◌, ◌-◌, ◌/◌, ◌*◌, ◌%◌, ◌≤◌, ◌<◌, ◌≡◌, refl, sym, ap, ◌∙◌, ◌⊎◌, inl, inr, ◌≢◌,
  arith, Ptr, null, update, update-ne, update_self, eq_cases,
}
use tythread.Skiplist.{Layer, Mem, SkipNode, Skiplist, n_layers, skip_gap, row, append_node}
use tythread.Skiplist.Row.{Row, Row-push, Row-frame, cand_of, first-null}
use tythread.Skiplist.Link.{Link, Link-part, Link-push}
use tythread.Skiplist.Stack.{
  nexts, IsStack, IsLagging, append_node-next, append_node-fresh, append_node-else, append_node-old,
  append_node-new, append_node-joint, append_node-layer,
}

-- The nodes of the rows behind the round at layer i.
abbrev pub pushed : (ℕ → ℕ → Ptr) → ℕ → ℕ → Ptr → ℕ → ℕ → Ptr
pushed at i t x = update at (suc i) (update (at (suc i)) t x)

module _ (i : ℕ) {m : Mem} {s : Skiplist} {at : ℕ → ℕ → Ptr} (lags : IsLagging i m s at)
    (below : i < n_layers) (cur last : Ptr) (l' : Layer) (eh : l'.head_off ≡ (s.layers i).head_off)
    (et : l'.tail_off ≡ suc (s.layers i).tail_off)
    (ef : l'.head_node ≡ (append_node cur last m (s.layers i)).1.head_node)
    (el : l'.tail_node ≡ m.fresh)
    (ec : l'.candidate
      ≡ cand_of
          (update (at (suc i)) (s.layers i).tail_off m.fresh)
          (s.layers i).head_off
          (suc (s.layers i).tail_off)) where
  abbrev pub round_mem : Mem
  round_mem = (append_node cur last m (s.layers i)).0

  abbrev pub round_queue : Skiplist
  round_queue = record s { layers = update s.layers i l' }

  abbrev pub round_at : ℕ → ℕ → Ptr
  round_at = pushed at i (s.layers i).tail_off m.fresh

  own-Row : Row (at (suc i)) (nexts m (suc i)) (s.layers i)
  own-Row = lags.rows (suc i) (omega arith)

  not_fresh :
      (k p : ℕ)
      → k < n_layers
      → (s.layers k).head_off ≤ p
      → p < (s.layers k).tail_off
      → at (suc k) p ≢ m.fresh
  not_fresh k p h a b = omega (arith, lags.owned k p h a b)

  some_head : (s.layers i).head_node ≢ null → (s.layers i).head_off < (s.layers i).tail_off
  some_head = ground (arith, first-null own-Row)

  -- A node that stays is the last of layer i, or keeps all its fields.
  untouched :
      (k p : ℕ)
      → k < n_layers
      → (s.layers k).head_off ≤ p
      → p < (s.layers k).tail_off
      → (k ≡ i → suc p < (s.layers i).tail_off)
      → round_mem.node (at (suc k) p) ≡ m.node (at (suc k) p)
  untouched k p h a b inner =
      append_node-else cur last m (s.layers i) (at (suc k) p) (not_fresh k p h a b) λ some e.
        let some_i = some_head some in
        let i_le : (s.layers i).head_off ≤ (s.layers i).tail_off - 1 = omega arith in
        let i_lt : (s.layers i).tail_off - 1 < (s.layers i).tail_off = omega arith in
        let ki =
          lags.apart k i p ((s.layers i).tail_off - 1) h below a b i_le i_lt
            (e ∙ own-Row.last some_i) in
        ground (arith, ki, inner, own-Row.last some_i, own-Row.once p ((s.layers i).tail_off - 1))

  last-ne-fresh : (s.layers i).head_node ≢ null → (s.layers i).tail_node ≢ m.fresh
  last-ne-fresh some =
      ground (arith, some_head some, own-Row.last, not_fresh i ((s.layers i).tail_off - 1) below)

  round-Row_self :
      Row (update (at (suc i)) (s.layers i).tail_off m.fresh) (nexts round_mem (suc i)) l'
  round-Row_self =
      Row-push own-Row m.fresh (nexts round_mem (suc i)) l' lags.alloc
        (λ p a b. not_fresh i p below a b) (append_node-new cur last m (s.layers i) last-ne-fresh).2
        (λ h.
          ground
            (arith, own-Row.last h, append_node-joint cur last m (s.layers i), first-null own-Row))
        (λ p a b. ap SkipNode.next_node (untouched i p below a (omega arith) (λ _. b))) eh et
        (ef ∙ (append_node-layer cur last m (s.layers i)).2) el ec

  round-rows : (j : ℕ) → j ≤ n_layers → Row (round_at j) (nexts round_mem j) (row round_queue j)
  round-rows zero b =
      Row-frame (lags.rows 0 b) (round_at 0) (nexts round_mem 0)
        (λ p a c. ap (λ g. g p) (update-ne at (suc i) 0 _ (omega arith)))
        (λ p a c. ap (λ g. g (at 0 p)) (append_node-next cur last m (s.layers i)))
  round-rows (suc k) b = elim (eq_cases k i) [
    | inl (e, p) ↦ rw (p, update_self s.layers i l', update_self at (suc i) _) round-Row_self
    | inr (e, p) ↦ rw e (
        Row-frame (lags.rows (suc k) b) (round_at (suc k)) (nexts round_mem (suc k))
          (λ q a c. ap (λ g. g q) (update-ne at (suc i) (suc k) _ (omega arith)))
          (λ q a c. ap SkipNode.next_node (untouched k q b a c (λ same. absurd (p same)))))
  ]

  row_else : (j : ℕ) → j ≢ suc i → row round_queue j ≡ row s j
  row_else zero ne = refl
  row_else (suc k) ne = update-ne s.layers i k l' (ground arith)

  pub at_else : (j p : ℕ) → j ≢ suc i → round_at j p ≡ at j p
  at_else j p ne = ap (λ g. g p) (update-ne at (suc i) j _ ne)

  -- The nodes that a row had, it keeps at their places.
  at_old : (j p : ℕ) → p < (row s j).tail_off → round_at j p ≡ at j p
  at_old j p h = elim (eq_cases j (suc i)) [
    | inl (e, same) ↦ ground (arith, same)
    | inr (e, ne) ↦ at_else j p ne
  ]

  -- A link other than that of row i stays, where the row below has its full groups still.
  link_else :
      (j : ℕ)
      → j < n_layers
      → j ≢ i
      → (lo' : Layer) → lo'.head_off ≡ (row s j).head_off
      → lo'.tail_off / skip_gap - (lo'.head_off + (skip_gap - 1)) / skip_gap
        ≡ (row s j).tail_off / skip_gap - (lo'.head_off + (skip_gap - 1)) / skip_gap
      → Link (round_at j) (round_at (suc j)) round_mem.node lo' (round_queue.layers j)
  link_else j b ne lo' same count =
      let old = lags.links j b ne in
      rw (update-ne s.layers i j l' ne) (
        Link-part old (round_at j) (round_at (suc j)) round_mem.node lo' (s.layers j) (omega arith)
          (omega arith) (λ p x y. at_old j p y) (λ p x y. at_else (suc j) p (ground arith))
          (λ p x y. append_node-old cur last m (s.layers i) (at (suc j) p) (not_fresh j p b x y))
          (omega (arith, old.groups)) (λ p x y. omega arith))

  module _ (ecur : cur ≡ at i ((row s i).tail_off - skip_gap))
      (elast : last ≡ at i ((row s i).tail_off - 1)) (full : (row s i).tail_off % skip_gap ≡ 0)
      (long : (row s i).head_off + skip_gap ≤ (row s i).tail_off) where
    link_self :
        Link
          (round_at i)
          (round_at (suc i))
          round_mem.node
          (row round_queue i)
          (round_queue.layers i)
    link_self =
        rw (row_else i (omega arith), update_self s.layers i l', update_self at (suc i) _)
          (Link-push (lags.lag below) m.fresh (round_at i) round_mem.node (row s i) l' (omega arith)
            (omega arith) (λ p x y. at_old i p (omega arith))
            (λ p x y.
              append_node-old cur last m (s.layers i) (at (suc i) p) (not_fresh i p below x y))
            ((append_node-new cur last m (s.layers i) last-ne-fresh).0
              ∙ ecur
              ∙ ap (at i) (omega arith)
              ∙ sym (at_old i (((row s i).tail_off - 1) / skip_gap * skip_gap) (omega arith)))
            ((append_node-new cur last m (s.layers i) last-ne-fresh).1
              ∙ elast
              ∙ sym (at_old i ((row s i).tail_off - 1) (omega arith)))
            refl (omega arith) eh et)

    round-links :
        (j : ℕ)
        → j < n_layers
        → j ≢ suc i
        → Link
            (round_at j)
            (round_at (suc j))
            round_mem.node
            (row round_queue j)
            (round_queue.layers j)
    round-links j b ne = elim (eq_cases j i) [
      | inl (e, same) ↦ rw same link_self
      | inr (e, other) ↦
          link_else j b other (row round_queue j) (ap Layer.head_off (row_else j ne))
            (rw (row_else j ne))
    ]

  -- A node of a layer is the new one, or was there.
  new_or_old :
      (j p : ℕ)
      → j < n_layers
      → (round_queue.layers j).head_off ≤ p
      → p < (round_queue.layers j).tail_off
      → ((j ≡ i) × (round_at (suc j) p ≡ m.fresh))
        ⊎ (((s.layers j).head_off ≤ p)
            × (p < (s.layers j).tail_off)
            × (round_at (suc j) p ≡ at (suc j) p))
  new_or_old j p b x y = elim (eq_cases j i) [
    | inl (e, same) ↦ elim (eq_cases p (s.layers i).tail_off) [
      | inl (_, top) ↦ inl (same, ground (arith, same, top))
      | inr (_, inner) ↦ inr (ground (arith, same), ground (arith, same), ground (arith, same))
    ]
    | inr (e, ne) ↦ inr (ground arith, ground arith, at_else (suc j) p (ground arith))
  ]

  round-owned :
      (j p : ℕ)
      → j < n_layers
      → (round_queue.layers j).head_off ≤ p
      → p < (round_queue.layers j).tail_off
      → round_at (suc j) p < round_mem.fresh
  round-owned j p b x y =
      ground
        (arith, new_or_old j p b x y, lags.owned j p b, append_node-fresh cur last m (s.layers i))

  round-apart :
      (j k p q : ℕ)
      → j < n_layers
      → k < n_layers
      → (round_queue.layers j).head_off ≤ p
      → p < (round_queue.layers j).tail_off
      → (round_queue.layers k).head_off ≤ q
      → q < (round_queue.layers k).tail_off
      → round_at (suc j) p ≡ round_at (suc k) q
      → j ≡ k
  round-apart j k p q b c x y z w e = elim (new_or_old j p b x y) [
    | inl (ji, ep) ↦ elim (new_or_old k q c z w) [
      | inl (ki, eq) ↦ ji ∙ sym ki
      | inr (z', w', eq) ↦ absurd (not_fresh k q c z' w' (sym eq ∙ sym e ∙ ep))
    ]
    | inr (x', y', ep) ↦ elim (new_or_old k q c z w) [
      | inl (ki, eq) ↦ absurd (not_fresh j p b x' y' (sym ep ∙ e ∙ eq))
      | inr (z', w', eq) ↦ lags.apart j k p q b c x' y' z' w' (sym ep ∙ e ∙ eq)
    ]
  ]

  module _ (ecur : cur ≡ at i ((row s i).tail_off - skip_gap))
      (elast : last ≡ at i ((row s i).tail_off - 1)) (full : (row s i).tail_off % skip_gap ≡ 0)
      (long : (row s i).head_off + skip_gap ≤ (row s i).tail_off) where
    -- The new node fills a group of layer i: the lag moves up.
    pub round-IsLagging : IsLagging (suc i) round_mem round_queue round_at
    round-IsLagging = record {
      rows = round-rows;
      links = round-links ecur elast full long;
      lag = λ b.
          link_else (suc i) b (omega arith)
            (record (row round_queue (suc i)) { tail_off = (row round_queue (suc i)).tail_off - 1 })
            (rw (update_self s.layers i l') eh) (rw (update_self s.layers i l', et) (omega arith));
      alloc = rw (append_node-fresh cur last m (s.layers i)) (omega arith);
      owned = round-owned;
      apart = round-apart;
    }

    -- Otherwise all is in order.
    pub round-IsStack :
        ((s.layers i).tail_off + 1) % skip_gap ≢ 0
          ⊎ ((s.layers i).tail_off / skip_gap * skip_gap < (s.layers i).head_off)
        → IsStack round_mem round_queue round_at
    round-IsStack rest = record {
      rows = round-rows;
      links = λ j b. elim (eq_cases j (suc i)) [
        | inl (e, same) ↦ rw same (
            link_else (suc i) (rw same at b) (omega arith) (row round_queue (suc i))
              (rw (update_self s.layers i l') eh)
              (rw (update_self s.layers i l', et, eh) (omega arith)))
        | inr (e, ne) ↦ round-links ecur elast full long j b ne
      ];
      alloc = rw (append_node-fresh cur last m (s.layers i)) (omega arith);
      owned = round-owned;
      apart = round-apart;
    }
