-- ===== src/Skiplist/Half/Single.antt =====
-- The search at a layer with one node, whose group is all or nearly all of the row below.
use tythread.Base.{
  ℕ, zero, suc, ◌+◌, ◌-◌, ◌/◌, ◌*◌, ◌%◌, ◌≤◌, ◌<◌, ◌≡◌, refl, ap, ◌∙◌, ◌⊎◌, inl, inr, ◌≢◌, arith,
  Ptr, null, eq_cases, ◌==◌, true, false, ltb, update, update-ne, update_self, Option, none, some,
}
use tythread.Skiplist.{Layer, Mem, Skiplist, n_layers, skip_gap, row, cleanup, moved_from, empty}
use tythread.Skiplist.Half.{
  Upper, upper_cleanuped, single_node_preserved, normal, Half, find_split, single_node,
}
use tythread.Skiplist.Half.Candidate.{cleaned-IsHanded, preserved-IsHanded}
use tythread.Skiplist.Half.Plan.{Plan}
use tythread.Skiplist.Half.Split.{half_state}
use tythread.Skiplist.Row.{IsEmpty}
use tythread.Skiplist.Stack.{IsStack}

-- The layer above row `top`, by its index in the code.
abbrev pub top_of : ℕ → Option ℕ
top_of zero = none
top_of (suc i) = some i

-- The search stops at a row that can be split.
pub record Found (s : Skiplist) (at : ℕ → ℕ → Ptr) (out : Half × Option ℕ) : Type 0 where
  pub top : ℕ
  pub ls : ℕ → Layer
  pub res : Option Skiplist
  pub u : Upper
  pub down : Ptr
  pub plan : Plan s at top ls res u down
  pub is_out : out ≡ (half_state s ls res u down, top_of top)

module _ {m : Mem} {s : Skiplist} {at : ℕ → ℕ → Ptr} (stack : IsStack m s at) where
  -- The locals are left alone below a row with a full group.
  search_single :
      {ls : ℕ → Layer} {res : Option Skiplist} {u : Upper} {down : Ptr} (i : ℕ)
      → Plan s at i ls res u down
      → (row s i).head_off + 2 ≤ (row s i).tail_off
      → find_split m i (half_state s ls res u down) ≡ (half_state s ls res u down, top_of i)
  unfolding find_split
  search_single zero plan big = refl
  search_single {ls} (suc i) plan big =
      let two : ltb 1 ((ls i).tail_off - (ls i).head_off) ≡ true =
        rw (plan.lowers i (omega arith)) (ground arith) in
      rw two refl

  module _ (i : ℕ) (le : i < n_layers)
      (above : (j : ℕ) → suc i ≤ j → j < n_layers → IsEmpty (s.layers j))
      (single : (s.layers i).tail_off ≡ suc (s.layers i).head_off) where
    one_group :
        (row s i).tail_off / skip_gap ≡ suc (((row s i).head_off + (skip_gap - 1)) / skip_gap)
    one_group = omega (arith, (stack.links i le).groups)

    node_here : (s.layers i).head_node ≡ at (suc i) (s.layers i).head_off
    node_here = ground (arith, (stack.rows (suc i) le).first)

    down_here :
        (m.node (s.layers i).head_node).down_node
        ≡ at i (((row s i).head_off + (skip_gap - 1)) / skip_gap * skip_gap)
    down_here = rw node_here (
        (stack.links i le).down (s.layers i).head_off (omega arith) (omega arith)
        ∙ ap (at i) (omega arith))

    others_above :
        (x : Layer) → IsEmpty x → (j : ℕ) → i ≤ j → j < n_layers → IsEmpty (update s.layers i x j)
    others_above x e j h b = elim (eq_cases j i) [
      | inl (_, is) ↦ rw (is, update_self s.layers i x) e
      | inr (_, ne) ↦ rw (update-ne s.layers i j x ne) (above j (omega arith) b)
    ]

    cleaned-Plan :
        ((row s i).head_off % skip_gap ≢ 0)
          ⊎ ((row s i).tail_off ≢ (row s i).head_off + (2 * skip_gap - 1))
        → Plan s at i
            (update s.layers i (cleanup (s.layers i)))
            none
            upper_cleanuped
            (m.node (s.layers i).head_node).down_node
    cleaned-Plan not_whole = record {
      top_le = omega arith;
      filled = omega (arith, one_group);
      lowers = λ j h. update-ne s.layers i j (cleanup (s.layers i)) (omega arith);
      uppers =
          others_above (cleanup (s.layers i))
            (record { ends = refl; no_head = refl; no_candidate = refl });
      none_full = elim not_whole [
        | inl a ↦ omega (arith, one_group)
        | inr a ↦ omega (arith, one_group)
      ];
      res_tasks = refl;
      res_lowers = λ j h. refl;
      res_uppers = λ j h b. record { ends = refl; no_head = refl; no_candidate = refl };
      res_upper = inl (
        record { ends = refl; no_head = refl; no_candidate = refl },
        elim not_whole [ inl a ↦ omega (arith, one_group) | inr a ↦ omega (arith, one_group) ],
      );
      handed = λ theirs e.
          cleaned-IsHanded (stack.rows i (omega arith)) theirs
            (m.node (s.layers i).head_node).down_node e one_group not_whole down_here;
    }

    preserved-Plan :
        (row s i).head_off % skip_gap ≡ 0
        → (row s i).tail_off ≡ (row s i).head_off + (2 * skip_gap - 1)
        → Plan s at i
            (update s.layers i (moved_from (s.layers i)))
            (some (record empty { layers = update empty.layers i (s.layers i) }))
            single_node_preserved
            null
    preserved-Plan aligned whole = record {
      top_le = omega arith;
      filled = omega arith;
      lowers = λ j h. update-ne s.layers i j (moved_from (s.layers i)) (omega arith);
      uppers =
          others_above (moved_from (s.layers i))
            (record { ends = refl; no_head = refl; no_candidate = refl });
      none_full = omega arith;
      res_tasks = refl;
      res_lowers = λ j h. rw (update-ne empty.layers i j (s.layers i) (omega arith)) refl;
      res_uppers = λ j h b.
          rw (update-ne empty.layers i j (s.layers i) (omega arith))
            (record { ends = refl; no_head = refl; no_candidate = refl });
      res_upper = inr (update_self empty.layers i (s.layers i), omega arith, single);
      handed =
          λ theirs e. preserved-IsHanded (stack.rows i (omega arith)) theirs null e aligned whole;
    }

    -- The node's group begins the row below just when the row begins with a group.
    begins-aligned :
        (((m.node (s.layers i).head_node).down_node == (row s i).head_node) ≡ true
          × ((row s i).head_off % skip_gap ≡ 0))
        ⊎ (((m.node (s.layers i).head_node).down_node == (row s i).head_node) ≡ false
            × ((row s i).head_off % skip_gap ≢ 0))
    begins-aligned =
        let low = stack.rows i (omega arith) in
        let start = ((row s i).head_off + (skip_gap - 1)) / skip_gap * skip_gap in
        let first : (row s i).head_node ≡ at i (row s i).head_off =
          ground (arith, low.first, one_group) in
        elim (eq_cases ((row s i).head_off % skip_gap) 0) [
          | inl (_, e) ↦
              (let here : start ≡ (row s i).head_off = omega arith in
                inl (rw (down_here, here, first) (ground arith), e))
          | inr (_, ne) ↦ inr (
            rw (down_here, first)
                (elim (eq_cases (at i start) (at i (row s i).head_off)) [
                  | inl (_, e) ↦ absurd (
                      ne (
                        let same =
                          low.once start (row s i).head_off (omega arith) (omega (arith, one_group))
                            (omega arith) (omega (arith, one_group)) e in
                        omega arith))
                  | inr (differs, _) ↦ differs
                ]),
            ne,
          )
        ]

    pub single_Found :
        Found s at (find_split m i (single_node m i (half_state s s.layers none normal null)))
    unfolding single_node
    single_Found =
        let node = s.layers i in
        let cleaned : (not_whole : ((row s i).head_off % skip_gap ≢ 0)
              ⊎ ((row s i).tail_off ≢ (row s i).head_off + (2 * skip_gap - 1)))
            → Found s at (
                find_split m i (
                  half_state s (update s.layers i (cleanup node)) none upper_cleanuped
                    (m.node node.head_node).down_node)) =
          λ not_whole. record {
            top = i;
            ls = update s.layers i (cleanup node);
            res = none;
            u = upper_cleanuped;
            down = (m.node node.head_node).down_node;
            plan = cleaned-Plan not_whole;
            is_out = search_single i (cleaned-Plan not_whole) (omega (arith, one_group));
          } in
        elim begins-aligned [
          | inr (differs, ne) ↦ rw differs (cleaned (inl ne))
          | inl (agrees, e) ↦
              rw agrees
                (elim (eq_cases ((row s i).tail_off - (row s i).head_off) (2 * skip_gap - 1)) [
                  | inl (whole, is) ↦ rw whole (
                      let plan = preserved-Plan e (omega (arith, is, one_group)) in
                      record {
                        top = i;
                        ls = update s.layers i (moved_from node);
                        res = some (record empty { layers = update empty.layers i node });
                        u = single_node_preserved;
                        down = null;
                        plan = plan;
                        is_out = search_single i plan (omega (arith, one_group));
                      })
                  | inr (part, ne) ↦ rw part (cleaned (inr (λ is. ne (omega arith))))
                ])
        ]
