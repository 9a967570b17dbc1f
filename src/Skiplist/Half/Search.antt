-- ===== src/Skiplist/Half/Search.antt =====
-- The search of `dequeue_half` for the row to split.
use tythread.Base.{
  ℕ, zero, suc, ◌+◌, ◌-◌, ◌/◌, ◌≤◌, ◌<◌, ◌≡◌, refl, ◌⊎◌, inl, inr, arith, Ptr, null, lt_cases,
  eq_cases, true, false, ltb, none,
}
use tythread.Skiplist.{Layer, Mem, Skiplist, n_layers, skip_gap, row}
use tythread.Skiplist.Half.{normal, find_split}
use tythread.Skiplist.Half.Candidate.{normal-IsHanded}
use tythread.Skiplist.Half.Plan.{Plan}
use tythread.Skiplist.Half.Split.{half_state}
use tythread.Skiplist.Row.{IsEmpty, Row-IsEmpty}
use tythread.Skiplist.Stack.{IsStack}
use tythread.Skiplist.Half.Single.{Found, single_Found}

abbrev pub NoneFull : Layer → Type 0
NoneFull r = r.tail_off / skip_gap ≤ (r.head_off + (skip_gap - 1)) / skip_gap

module _ {m : Mem} {s : Skiplist} {at : ℕ → ℕ → Ptr} (stack : IsStack m s at) where
  normal-Plan :
      (i : ℕ)
      → i ≤ n_layers
      → NoneFull (row s i)
      → ((j : ℕ) → i ≤ j → j < n_layers → IsEmpty (s.layers j))
      → (row s i).head_off < (row s i).tail_off
      → Plan s at i s.layers none normal null
  normal-Plan i le none_full above filled = record {
    top_le = le;
    filled = filled;
    lowers = λ j h. refl;
    uppers = above;
    none_full = omega arith;
    res_tasks = refl;
    res_lowers = λ j h. refl;
    res_uppers = λ j h b. record { ends = refl; no_head = refl; no_candidate = refl };
    res_upper = inl (record { ends = refl; no_head = refl; no_candidate = refl }, omega arith);
    handed = λ theirs e. normal-IsHanded (stack.rows i le) theirs null e none_full;
  }

  pub search_Found :
      (i : ℕ)
      → i ≤ n_layers
      → NoneFull (row s i)
      → ((j : ℕ) → i ≤ j → j < n_layers → IsEmpty (s.layers j))
      → Found s at (find_split m i (half_state s s.layers none normal null))
        ⊎ ((s.tail_off ≤ s.head_off)
            × (find_split m i (half_state s s.layers none normal null)
                ≡ (half_state s s.layers none normal null, none)))
  unfolding find_split
  search_Found zero le none_full above = elim (lt_cases s.head_off s.tail_off) [
    | inl filled ↦ inl (record {
      top = 0;
      ls = s.layers;
      res = none;
      u = normal;
      down = null;
      plan = normal-Plan 0 le none_full above filled;
      is_out = refl;
    })
    | inr bare ↦ inr (bare, refl)
  ]
  search_Found (suc i) le none_full above =
      let l = s.layers i in
      let link = stack.links i le in
      elim (lt_cases 1 (l.tail_off - l.head_off)) [
        | inl two ↦
            (let test : ltb 1 (l.tail_off - l.head_off) ≡ true = ground arith in
              rw test (
                inl (record {
                  top = suc i;
                  ls = s.layers;
                  res = none;
                  u = normal;
                  down = null;
                  plan = normal-Plan (suc i) le none_full above (omega arith);
                  is_out = refl;
                })))
        | inr small ↦
            (let test : ltb 1 (l.tail_off - l.head_off) ≡ false = ground arith in
              rw test (elim (eq_cases (l.tail_off - l.head_off) 1) [
                | inl (one, e) ↦ rw one (inl (single_Found stack i le above (omega arith)))
                | inr (differs, ne) ↦ rw differs (
                    search_Found i (omega arith) (omega (arith, link.groups)) (λ j a b.
                      elim (eq_cases j i) [
                        | inl (_, is) ↦ rw is (Row-IsEmpty (stack.rows (suc i) le) (omega arith))
                        | inr (_, other) ↦ above j (omega arith) b
                      ]))
              ]))
      ]
