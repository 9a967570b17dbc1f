-- ===== src/Skiplist/Half/Carved.antt =====
-- The second loop of `dequeue_half` cuts every layer at its place.
use tythread.Base.{
  ℕ, zero, suc, ◌+◌, ◌-◌, ◌≤◌, ◌<◌, ◌≡◌, refl, sym, ap, ap₂, ◌∙◌, inl, inr, ◌≢◌, arith, Ptr, null,
  eq_cases, update, update-ne, update_self,
}
use tythread.Skiplist.{Layer, Mem, Skiplist, SkipNode, n_layers, row}
use tythread.Skiplist.Half.{Carve, carve, cut_layer, below_off}
use tythread.Skiplist.Stack.{IsStack}
use tythread.Skiplist.Divide.{IsCut}

module _ {m : Mem} {s : Skiplist} {at : ℕ → ℕ → Ptr} (stack : IsStack m s at) (top : ℕ)
    (cut : ℕ → ℕ) (is_cut : IsCut s top cut) where
  -- The last node of layer j that goes.
  abbrev pub last_cut : ℕ → Ptr
  last_cut j = at (suc j) (cut (suc j) - 1)

  abbrev pub mine_cut : ℕ → Layer → Layer
  mine_cut j l = record l { head_node = (m.node (last_cut j)).next_node; head_off = cut (suc j) }

  abbrev pub theirs_cut : ℕ → Layer → Layer → Layer
  theirs_cut j mine theirs = record theirs {
    head_node = mine.head_node;
    tail_node = last_cut j;
    head_off = (s.layers j).head_off;
    tail_off = cut (suc j);
  }

  -- Before the rounds for the layers below k.
  pub record IsUncut (k : ℕ) (c : Carve) : Type 0 where
    pub cur : c.cur ≡ at k (cut k - 1)
    pub give : c.give ≡ cut k - (row s k).head_off
    pub layers : (j : ℕ) → j < k → (c.mine j).head_off ≡ (s.layers j).head_off
    pub nodes :
        (j p : ℕ)
        → j < k
        → (s.layers j).head_off ≤ p
        → p < (s.layers j).tail_off
        → c.mem.node (at (suc j) p) ≡ m.node (at (suc j) p)

  -- After them.
  pub record IsCarved (k : ℕ) (c d : Carve) : Type 0 where
    pub cur : d.cur ≡ at 0 (cut 0 - 1)
    pub give : d.give ≡ cut 0 - s.head_off
    pub mine : (j : ℕ) → j < k → d.mine j ≡ mine_cut j (c.mine j)
    pub theirs : (j : ℕ) → j < k → d.theirs j ≡ theirs_cut j (c.mine j) (c.theirs j)
    pub mine_else : (j : ℕ) → k ≤ j → d.mine j ≡ c.mine j
    pub theirs_else : (j : ℕ) → k ≤ j → d.theirs j ≡ c.theirs j
    pub next : d.mem.next ≡ c.mem.next
    pub fresh : d.mem.fresh ≡ c.mem.fresh
    pub counter : d.mem.counter ≡ c.mem.counter
    pub ends : (j : ℕ) → j < k → (d.mem.node (last_cut j)).next_node ≡ null
    pub same : (a : Ptr) → ((j : ℕ) → j < k → a ≢ last_cut j) → d.mem.node a ≡ c.mem.node a
    pub groups :
        (a : Ptr)
        → ((d.mem.node a).down_node ≡ (c.mem.node a).down_node)
          × ((d.mem.node a).last_down_node ≡ (c.mem.node a).last_down_node)

  below-row :
      (k : ℕ) (ls : ℕ → Layer)
      → ((j : ℕ) → j < k → (ls j).head_off ≡ (s.layers j).head_off)
      → below_off s.head_off ls k ≡ (row s k).head_off
  below-row zero ls h = refl
  below-row (suc k) ls h = h k (omega arith)

  pub last_in :
      (j : ℕ)
      → j < top
      → ((s.layers j).head_off ≤ cut (suc j) - 1) × (cut (suc j) - 1 < (s.layers j).tail_off)
  last_in j h = (
    omega (arith, is_cut.above (suc j) h),
    omega (arith, is_cut.above (suc j) h, is_cut.below (suc j) h),
  )

  module _ (k : ℕ) (c : Carve) (k_lt : k < top) (uncut : IsUncut (suc k) c) where
    abbrev round : Carve
    round = cut_layer s.head_off k c

    k_layer : k < n_layers
    k_layer = omega (arith, is_cut.top_le)

    node_cur : c.mem.node c.cur ≡ m.node (last_cut k)
    node_cur =
        ap c.mem.node uncut.cur
        ∙ uncut.nodes k (cut (suc k) - 1) (omega arith) (last_in k k_lt).0 (last_in k k_lt).1

    -- The nodes of the layers below are others.
    other :
        (j p : ℕ)
        → j < k
        → (s.layers j).head_off ≤ p
        → p < (s.layers j).tail_off
        → at (suc j) p ≢ last_cut k
    other j p h x y e = omega (
      arith,
      stack.apart j k p (cut (suc k) - 1) (omega (arith, k_layer)) k_layer x y (last_in k k_lt).0
          (last_in k k_lt).1 e,
    )

    round-IsUncut : IsUncut k round
    unfolding cut_layer
    round-IsUncut = record {
      cur =
          ap SkipNode.last_down_node node_cur
          ∙ (stack.links k k_layer).last_down (cut (suc k) - 1) (last_in k k_lt).0
              (last_in k k_lt).1
          ∙ ap (at k) (omega (arith, is_cut.groups k k_lt, is_cut.above (suc k) k_lt));
      give =
          rw (below-row k c.mine (λ j h. uncut.layers j (omega arith)))
            (omega (arith, uncut.give, is_cut.groups k k_lt, is_cut.above (suc k) k_lt));
      layers = λ j h. rw (update-ne c.mine k j _ (omega arith)) (uncut.layers j (omega arith));
      nodes = λ j p h x y.
          update-ne c.mem.node c.cur (at (suc j) p) _ (λ e. other j p h x y (e ∙ uncut.cur))
          ∙ uncut.nodes j p (omega arith) x y;
    }

    off_cur : (c.mine k).head_off + c.give ≡ cut (suc k)
    off_cur = omega (arith, uncut.layers k, uncut.give, is_cut.above (suc k) k_lt)

    module _ (d : Carve) (carved : IsCarved k round d) where
      mine_self : d.mine k ≡ mine_cut k (c.mine k)
      unfolding cut_layer
      mine_self =
          carved.mine_else k (omega arith) ∙ update_self c.mine k _ ∙ rw (node_cur, off_cur) refl

      theirs_self : d.theirs k ≡ theirs_cut k (c.mine k) (c.theirs k)
      unfolding cut_layer
      theirs_self =
          carved.theirs_else k (omega arith)
          ∙ update_self c.theirs k _
          ∙ rw (off_cur, uncut.cur, uncut.layers k (omega arith)) refl

      round-IsCarved : IsCarved (suc k) c d
      unfolding cut_layer
      round-IsCarved = record {
        cur = carved.cur;
        give = carved.give;
        mine = λ j h. elim (eq_cases j k) [
          | inl (_, e) ↦ rw e mine_self
          | inr (_, ne) ↦ carved.mine j (omega arith) ∙ ap (mine_cut j) (update-ne c.mine k j _ ne)
        ];
        theirs = λ j h. elim (eq_cases j k) [
          | inl (_, e) ↦ rw e theirs_self
          | inr (_, ne) ↦
              carved.theirs j (omega arith)
              ∙ ap₂ (theirs_cut j) (update-ne c.mine k j _ ne) (update-ne c.theirs k j _ ne)
        ];
        mine_else = λ j h. carved.mine_else j (omega arith) ∙ update-ne c.mine k j _ (omega arith);
        theirs_else =
            λ j h. carved.theirs_else j (omega arith) ∙ update-ne c.theirs k j _ (omega arith);
        next = carved.next;
        fresh = carved.fresh;
        counter = carved.counter;
        ends = λ j h. elim (eq_cases j k) [
          | inl (_, e) ↦ rw e (
              ap SkipNode.next_node (
                carved.same (last_cut k) (λ i x y.
                  other i (cut (suc i) - 1) x (last_in i (omega arith)).0
                    (last_in i (omega arith)).1 (sym y))
                ∙ ap (update c.mem.node c.cur _) (sym uncut.cur)
                ∙ update_self c.mem.node c.cur _))
          | inr (_, ne) ↦ carved.ends j (omega arith)
        ];
        same = λ a h.
            carved.same a (λ j x. h j (omega arith))
            ∙ update-ne c.mem.node c.cur a _ (λ e. h k (omega arith) (e ∙ uncut.cur));
        groups = λ a. ground (arith, carved.groups a);
      }

  pub carve-IsCarved :
      (k : ℕ) (c : Carve) → k ≤ top → IsUncut k c → IsCarved k c (carve s.head_off k c)
  unfolding carve
  carve-IsCarved zero c h uncut = record {
    cur = uncut.cur;
    give = uncut.give;
    mine = λ j h. absurd (omega arith);
    theirs = λ j h. absurd (omega arith);
    mine_else = λ j h. refl;
    theirs_else = λ j h. refl;
    next = refl;
    fresh = refl;
    counter = refl;
    ends = λ j h. absurd (omega arith);
    same = λ a h. refl;
    groups = λ a. (refl, refl);
  }
  carve-IsCarved (suc k) c h uncut =
      round-IsCarved k c h uncut (carve s.head_off (suc k) c)
        (carve-IsCarved k (round k c h uncut) (omega arith) (round-IsUncut k c h uncut))
