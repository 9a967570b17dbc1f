-- ===== src/Skiplist/Half/Split.antt =====
-- Both branches of `dequeue_half` divide the queue at the middle of one row.
use tythread.Base.{
  ℕ, suc, ◌-◌, ◌≤◌, ◌<◌, ◌≡◌, refl, sym, ap, ◌∙◌, inl, inr, arith, Ptr, eq_cases, ◌==◌, false,
  update, update-ne, update_self, Option,
}
use tythread.Skiplist.{Layer, Mem, Skiplist, n_layers, row}
use tythread.Skiplist.Half.{
  Carve, carve, Upper, Half, hand_candidate, or_new, split_layer, split_tasks, hop,
}
use tythread.Skiplist.Half.Candidate.{half_of, mid_of, handed-rest}
use tythread.Skiplist.Half.Cuts.{hop-Row, Cuts}
use tythread.Skiplist.Half.Plan.{Plan, Splits, cand_back, cand_front}
use tythread.Skiplist.Row.{cand_of}
use tythread.Skiplist.Stack.{nexts, IsStack}
use tythread.Skiplist.Half.Divided.{cut-Splits}

module _ {m : Mem} {s : Skiplist} {at : ℕ → ℕ → Ptr} (stack : IsStack m s at) where
  -- The last node that goes of the row that is split.
  hop-mid :
      (top : ℕ)
      → top ≤ n_layers
      → (row s top).head_off < (row s top).tail_off
      → hop (half_of (row s top) - 1) (nexts m top) (row s top).head_node
        ≡ at top (mid_of (row s top) - 1)
  hop-mid top le filled =
      let r = stack.rows top le in
      let first : (row s top).head_node ≡ at top (row s top).head_off = ground (arith, r.first) in
      rw first (
        hop-Row (half_of (row s top) - 1) (row s top).head_off r (omega arith) (omega arith)
        ∙ ap (at top) (omega arith))

-- The locals when the search is done.
abbrev pub half_state : Skiplist → (ℕ → Layer) → Option Skiplist → Upper → Ptr → Half
half_state s ls res u down = record {
  this = record s { layers = ls };
  res = res;
  upper_state = u;
  that_down_node = down;
}

module _ {m : Mem} {s : Skiplist} {at : ℕ → ℕ → Ptr} (stack : IsStack m s at) {ls : ℕ → Layer}
    {res : Option Skiplist} {u : Upper} {down : Ptr} where
  pub split_tasks-Splits :
      Plan s at 0 ls res u down
      → Cuts s 0 (mid_of (row s 0))
      → Splits m s at (split_tasks m (half_state s ls res u down))
  unfolding split_tasks carve
  split_tasks-Splits plan found =
      let give = half_of (row s 0) in
      let handed = plan.handed (row (or_new res) 0) plan.res_tasks in
      let some_give : (give == 0) ≡ false = ground (arith, plan.filled) in
      let pair = hand_candidate u down (row s 0) (row (or_new res) 0) give in
      let c : Carve = record {
        mem = m;
        mine = ls;
        theirs = (or_new res).layers;
        cur = hop (give - 1) m.next s.head;
        give = give;
      } in
      rw some_give (
        cut-Splits stack plan found pair.0.candidate pair.1.candidate c
          (record {
            uncut = record {
              cur =
                  hop-mid stack 0 (omega arith) plan.filled
                  ∙ ap (λ n. at 0 (n - 1)) (sym found.here);
              give = rw found.here (omega (arith, plan.filled));
              layers = λ j h. absurd (omega arith);
              nodes = λ j p h. absurd (omega arith);
            };
            mem = refl;
            mine = λ j h. absurd (omega arith);
            theirs = λ j h. absurd (omega arith);
            mine_up = λ j h. refl;
            theirs_up = λ j h. refl;
            mine_base = handed.stays ∙ ap (λ n. cand_of (at 0) n s.tail_off) (sym found.here);
            theirs_base = handed.goes ∙ ap (cand_of (at 0) s.head_off) (sym found.here);
          })
          (or_new res))

  pub split_layer-Splits :
      (i : ℕ)
      → Plan s at (suc i) ls res u down
      → Cuts s (suc i) (mid_of (s.layers i))
      → Splits m s at (split_layer m (half_state s ls res u down) i)
  unfolding split_layer
  split_layer-Splits i plan found =
      let same = plan.lowers i (omega arith) in
      let give = half_of (ls i) in
      let r = or_new res in
      let pair = hand_candidate u down (ls i) (r.layers i) give in
      let rest = handed-rest (stack.rows (suc i) plan.top_le) (r.layers i) down u in
      let handed = plan.handed (r.layers i) (plan.res_lowers i (omega arith)) in
      let mine_row : pair.0 ≡ record (s.layers i) {
        candidate = cand_of (at (suc i)) (found.cut (suc i)) (s.layers i).tail_off;
      } =
        rw same (
          rest.0
          ∙ ap (λ x. record (s.layers i) { candidate = x })
              (handed.stays
                ∙ ap (λ n. cand_of (at (suc i)) n (s.layers i).tail_off) (sym found.here))) in
      let their_cand : pair.1.candidate
          ≡ cand_of (at (suc i)) (s.layers i).head_off (found.cut (suc i)) =
        rw same (handed.goes ∙ ap (cand_of (at (suc i)) (s.layers i).head_off) (sym found.here)) in
      let c : Carve = record {
        mem = m;
        mine = update ls i pair.0;
        theirs = update r.layers i pair.1;
        cur = hop (give - 1) (nexts m (suc i)) (ls i).head_node;
        give = give;
      } in
      cut-Splits stack plan found s.candidate r.candidate c
        (record {
          uncut = record {
            cur = rw same (
                hop-mid stack (suc i) plan.top_le plan.filled
                ∙ ap (λ n. at (suc i) (n - 1)) (sym found.here));
            give = rw (found.here, same) (omega (arith, plan.filled));
            layers = λ j h. elim (eq_cases j i) [
              | inl (_, e) ↦ rw (e, update_self ls i pair.0) (ap Layer.head_off mine_row)
              | inr (_, ne) ↦
                  rw (update-ne ls i j pair.0 ne) (ap Layer.head_off (plan.lowers j (omega arith)))
            ];
            nodes = λ j p h x y. refl;
          };
          mem = refl;
          mine = λ j h. elim (eq_cases j i) [
            | inl (_, e) ↦ rw (e, update_self ls i pair.0) mine_row
            | inr (_, ne) ↦ rw (update-ne ls i j pair.0 ne) (
                plan.lowers j (omega arith)
                ∙ ap (λ x. record (s.layers j) { candidate = x })
                    (cand_back stack (suc i) found.cut found.is_cut (suc j) (omega arith)))
          ];
          theirs = λ j h. elim (eq_cases j i) [
            | inl (_, e) ↦ rw (e, update_self r.layers i pair.1) their_cand
            | inr (_, ne) ↦ rw (update-ne r.layers i j pair.1 ne) (
                plan.res_lowers j (omega arith)
                ∙ cand_front stack (suc i) found.cut found.is_cut (suc j) (omega arith))
          ];
          mine_up = λ j h. update-ne ls i j pair.0 (omega arith);
          theirs_up = λ j h. update-ne r.layers i j pair.1 (omega arith);
          mine_base = cand_back stack (suc i) found.cut found.is_cut 0 (omega arith);
          theirs_base =
              plan.res_tasks ∙ cand_front stack (suc i) found.cut found.is_cut 0 (omega arith);
        })
        r
