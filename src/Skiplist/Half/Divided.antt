-- ===== src/Skiplist/Half/Divided.antt =====
-- The cuts through all rows divide the queue, in either branch of `dequeue_half`.
use tythread.Base.{
  ◌/◌, ◌⊎◌, lt_cases, subst, ℕ, zero, suc, ◌+◌, ◌-◌, ◌≤◌, ◌<◌, ◌≡◌, refl, sym, ap, ◌∙◌, inl, inr,
  arith, Ptr, null, update-ne, Option,
}
use tythread.Skiplist.{Layer, Mem, Skiplist, n_layers, skip_gap, row, set_next}
use tythread.Skiplist.Half.{Carve, carve, Upper, or_new, cut_tasks}
use tythread.Skiplist.Half.Candidate.{mid_of}
use tythread.Skiplist.Half.Carved.{IsUncut, IsCarved, carve-IsCarved, last_in}
use tythread.Skiplist.Half.Cuts.{Cuts}
use tythread.Skiplist.Half.Plan.{Plan, Splits, severed}
use tythread.Skiplist.Row.{IsEmpty, cand_of}
use tythread.Skiplist.Stack.{IsStack}
use tythread.Skiplist.Frame.{Apart}
use tythread.Skiplist.Divide.{IsSevered, IsBack, IsFront}
use tythread.Skiplist.Divide.Back.{back-IsStack, back-Within, back-within}
use tythread.Skiplist.Divide.Front.{front-IsStack, front-Within, front-within}

module _ {m : Mem} {s : Skiplist} {at : ℕ → ℕ → Ptr} (stack : IsStack m s at) {top : ℕ}
    {ls : ℕ → Layer} {res : Option Skiplist} {u : Upper} {down : Ptr}
    (plan : Plan s at top ls res u down) (found : Cuts s top (mid_of (row s top))) where
  abbrev pub cut : ℕ → ℕ
  cut = found.cut

  -- The locals when the second loop begins: candidates handed out, layers not cut yet.
  pub record IsReady (mine_cand theirs_cand : Ptr) (c : Carve) : Type 0 where
    pub uncut : IsUncut stack top cut found.is_cut top c
    pub mem : c.mem ≡ m
    pub mine :
        (j : ℕ)
        → j < top
        → c.mine j ≡ record (s.layers j) {
          candidate = cand_of (at (suc j)) (cut (suc j)) (s.layers j).tail_off;
        }
    pub theirs :
        (j : ℕ)
        → j < top
        → (c.theirs j).candidate ≡ cand_of (at (suc j)) (s.layers j).head_off (cut (suc j))
    pub mine_up : (j : ℕ) → top ≤ j → c.mine j ≡ ls j
    pub theirs_up : (j : ℕ) → top ≤ j → c.theirs j ≡ (or_new res).layers j
    pub mine_base : mine_cand ≡ cand_of (at 0) (cut 0) s.tail_off
    pub theirs_base : theirs_cand ≡ cand_of (at 0) s.head_off (cut 0)

  module _ (mine_cand theirs_cand : Ptr) (c : Carve) (ready : IsReady mine_cand theirs_cand c) where
    abbrev d : Carve
    d = carve s.head_off top c

    carved : IsCarved stack top cut found.is_cut top c d
    carved = carve-IsCarved stack top cut found.is_cut top c (omega arith) ready.uncut

    abbrev rest_queue : Skiplist
    rest_queue = record s {
      layers = d.mine;
      candidate = mine_cand;
      head = d.mem.next d.cur;
      head_off = s.head_off + d.give;
    }

    abbrev stolen_queue : Skiplist
    stolen_queue = record {
      layers = d.theirs;
      candidate = theirs_cand;
      head = s.head;
      tail = d.cur;
      head_off = s.head_off;
      tail_off = s.head_off + d.give;
    }

    base_cut : s.head_off + d.give ≡ cut 0
    base_cut = omega (arith, carved.give, found.is_cut.above 0)

    backs : (i : ℕ) → i ≤ top → IsBack m (at i) i (cut i) (row s i) (row rest_queue i)
    backs zero h = record {
      head_off = base_cut;
      tail_off = refl;
      head_node =
          ap d.mem.next carved.cur
          ∙ ap (λ g. g (at 0 (cut 0 - 1))) carved.next
          ∙ ap (λ k. k.next (at 0 (cut 0 - 1))) ready.mem;
      tail_node = refl;
      candidate = ready.mine_base;
    }
    backs (suc j) h =
        let e = carved.mine j h in
        let r = ready.mine j h in
        record {
          head_off = ap Layer.head_off e;
          tail_off = ap Layer.tail_off e ∙ ap Layer.tail_off r;
          head_node = ap Layer.head_node e;
          tail_node = ap Layer.tail_node e ∙ ap Layer.tail_node r;
          candidate = ap Layer.candidate e ∙ ap Layer.candidate r;
        }

    fronts : (i : ℕ) → i ≤ top → IsFront (at i) (cut i) (row s i) (row stolen_queue i)
    fronts zero h = record {
      head_off = refl;
      tail_off = base_cut;
      head_node = refl;
      tail_node = carved.cur;
      candidate = ready.theirs_base;
    }
    fronts (suc j) h =
        let e = carved.theirs j h in
        let r = ready.mine j h in
        record {
          head_off = ap Layer.head_off e;
          tail_off = ap Layer.tail_off e;
          head_node = ap Layer.head_node e ∙ ap Layer.head_node r;
          tail_node = ap Layer.tail_node e;
          candidate = ap Layer.candidate e ∙ ready.theirs j h;
        }

    pub cut-Splits :
        (r : Skiplist)
        → Splits m s at (
            cut_tasks d.mem d.cur d.give
              (record s { layers = d.mine; candidate = mine_cand })
              (record r { layers = d.theirs; candidate = theirs_cand }))
    unfolding cut_tasks
    cut-Splits r = record {
      stolen = stolen_queue;
      is_stolen = refl;
      front =
          front-IsStack stack top cut found.is_cut memory stolen_queue fronts upper_theirs
            upper_kept;
      back = back-IsStack stack top cut found.is_cut memory rest_queue backs uppers_mine none_full;
      starts = refl;
      joins = refl;
      ends = refl;
      takes = rw base_cut (found.is_cut.above 0 (omega arith));
      leaves = rw base_cut (found.is_cut.below 0 (omega arith));
      counts = carved.counter ∙ ap (λ k. k.counter) ready.mem;
      touches = record {
        next = λ a off ne.
            update-ne d.mem.next d.cur a null
              (λ e. off (cut 0 - 1, first_above, first_below, sym (e ∙ carved.cur)))
            ∙ ap (λ g. g a) carved.next
            ∙ ap (λ k. k.next a) ready.mem;
        node = λ a old off.
            carved.same a (λ j h e. off j (omega (arith, found.is_cut.top_le)) (
              cut (suc j) - 1,
              (last_in stack top cut found.is_cut j h).0,
              (last_in stack top cut found.is_cut j h).1,
              sym e,
            ))
            ∙ ap (λ k. k.node a) ready.mem;
        fresh = omega (arith, carved.fresh, ap (λ k. k.fresh) ready.mem);
      };
      ahead =
          front-Within stack top cut found.is_cut memory stolen_queue fronts upper_theirs upper_kept
            null;
      behind =
          back-Within stack top cut found.is_cut memory rest_queue backs uppers_mine none_full null;
      apart = halves-Apart;
    }
      where
        memory : IsSevered m (set_next d.mem d.cur null) s at top cut
        memory = severed stack top cut found.is_cut c d ready.mem carved

        none_full : (row s top).tail_off / skip_gap ≤ (cut top + (skip_gap - 1)) / skip_gap
        none_full = rw found.here plan.none_full

        first_above : s.head_off ≤ cut 0 - 1
        first_above = omega (arith, found.is_cut.above 0 (omega arith))

        first_below : cut 0 - 1 < s.tail_off
        first_below =
            omega (arith, found.is_cut.above 0 (omega arith), found.is_cut.below 0 (omega arith))

        uppers_mine : (j : ℕ) → top ≤ j → j < n_layers → IsEmpty (d.mine j)
        uppers_mine j h b = rw (carved.mine_else j h ∙ ready.mine_up j h) (plan.uppers j h b)

        upper_kept :
            (IsEmpty (d.theirs top)
              × (cut top / skip_gap ≤ ((row s top).head_off + (skip_gap - 1)) / skip_gap))
            ⊎ ((d.theirs top ≡ s.layers top)
                × (cut top / skip_gap ≡ (row s top).tail_off / skip_gap)
                × ((s.layers top).tail_off ≡ suc (s.layers top).head_off))
        upper_kept =
            rw
              (carved.theirs_else top (omega arith) ∙ ready.theirs_up top (omega arith), found.here)
              plan.res_upper

        upper_theirs : (j : ℕ) → top < j → j < n_layers → IsEmpty (d.theirs j)
        upper_theirs j h b =
            rw (carved.theirs_else j (omega arith) ∙ ready.theirs_up j (omega arith))
              (plan.res_uppers j h b)

        halves-Apart : Apart stolen_queue at rest_queue at
        halves-Apart = record {
          task = λ a (q, x, y, e) (q', x', y', e').
              (let above = found.is_cut.above 0 (omega arith) in
                let below = found.is_cut.below 0 (omega arith) in
                let once =
                  (stack.rows 0 (omega arith)).once q q' (omega arith) (omega (arith, base_cut))
                    (omega (arith, base_cut)) (omega arith) (e ∙ sym e') in
                omega (arith, base_cut, once));
          node = λ i j a h k (q, x, y, e) (q', x', y', e').
              (let (z, w) =
                  front-within stack top cut found.is_cut memory stolen_queue fronts upper_theirs
                    upper_kept i q h x y in
                let (z', w') =
                  back-within stack top cut found.is_cut memory rest_queue backs uppers_mine
                    none_full j q' k x' y' in
                let same = stack.apart i j q q' h k z w z' w' (e ∙ sym e') in
                elim (lt_cases j top) [
                  | inr high ↦ absurd (omega (arith, (uppers_mine j high k).ends))
                  | inl low ↦
                      (let once =
                          (stack.rows (suc j) k).once q q'
                            (subst (λ n. (s.layers n).head_off ≤ q) same z)
                            (subst (λ n. q < (s.layers n).tail_off) same w) z' w'
                            (ap (λ n. at (suc n) q) (sym same) ∙ e ∙ sym e') in
                        absurd (
                          omega (
                            arith,
                            once,
                            subst (λ n. q < (stolen_queue.layers n).tail_off) same y,
                            (fronts (suc j) low).tail_off,
                            (backs (suc j) low).head_off,
                          )))
                ]);
        }
