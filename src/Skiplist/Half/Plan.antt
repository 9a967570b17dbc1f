-- ===== src/Skiplist/Half/Plan.antt =====
-- The plan of a split, its outcome, and the memory behind the cuts.
use tythread.Base.{
  ℕ, zero, suc, ◌+◌, ◌-◌, ◌/◌, ◌%◌, ◌≤◌, ◌<◌, ◌≡◌, sym, ap, ◌∙◌, ◌⊎◌, ◌≢◌, arith, Ptr, null, update,
  update-ne, update_self, Option, some,
}
use tythread.Skiplist.{Layer, Mem, Skiplist, SkipNode, n_layers, skip_gap, row, set_next}
use tythread.Skiplist.Half.{Carve, Upper, hand_candidate, or_new}
use tythread.Skiplist.Half.Candidate.{IsHanded, half_of, mid_of}
use tythread.Skiplist.Half.Carved.{IsCarved, last_cut, last_in}
use tythread.Skiplist.Row.{IsEmpty, cand_of}
use tythread.Skiplist.Stack.{nexts, IsStack}
use tythread.Skiplist.Frame.{Touches, Within, Apart}
use tythread.Skiplist.Divide.{IsCut, IsSevered}

-- What the search leaves: the row `top` is to be split in its middle, and the layers above are done.
pub record Plan (s : Skiplist) (at : ℕ → ℕ → Ptr) (top : ℕ) (ls : ℕ → Layer) (res : Option Skiplist)
    (u : Upper) (down : Ptr) : Type 0 where
  pub top_le : top ≤ n_layers
  pub filled : (row s top).head_off < (row s top).tail_off
  pub lowers : (j : ℕ) → j < top → ls j ≡ s.layers j
  pub uppers : (j : ℕ) → top ≤ j → j < n_layers → IsEmpty (ls j)
  pub none_full : (row s top).tail_off / skip_gap ≤ (mid_of (row s top) + (skip_gap - 1)) / skip_gap
  pub res_tasks : (or_new res).candidate ≡ null
  pub res_lowers : (j : ℕ) → j < top → ((or_new res).layers j).candidate ≡ null
  pub res_uppers : (j : ℕ) → top < j → j < n_layers → IsEmpty ((or_new res).layers j)
  pub res_upper :
      (IsEmpty ((or_new res).layers top)
        × (mid_of (row s top) / skip_gap ≤ ((row s top).head_off + (skip_gap - 1)) / skip_gap))
      ⊎ (((or_new res).layers top ≡ s.layers top)
          × (mid_of (row s top) / skip_gap ≡ (row s top).tail_off / skip_gap)
          × ((s.layers top).tail_off ≡ suc (s.layers top).head_off))
  pub handed :
      (theirs : Layer)
      → theirs.candidate ≡ null
      → IsHanded
          (at top)
          (row s top)
          (hand_candidate u down (row s top) theirs (half_of (row s top))).0
          (hand_candidate u down (row s top) theirs (half_of (row s top))).1

-- The outcome: two queues over the same rows, one behind the other.
pub record Splits (m : Mem) (s : Skiplist) (at : ℕ → ℕ → Ptr)
    (out : Option Skiplist × Skiplist × Mem) : Type 0 where
  pub stolen : Skiplist
  pub is_stolen : out.0 ≡ some stolen
  pub front : IsStack out.2 stolen at
  pub back : IsStack out.2 out.1 at
  pub starts : stolen.head_off ≡ s.head_off
  pub joins : stolen.tail_off ≡ out.1.head_off
  pub ends : out.1.tail_off ≡ s.tail_off
  pub takes : s.head_off < out.1.head_off
  pub leaves : out.1.head_off ≤ s.tail_off
  pub counts : out.2.counter ≡ m.counter
  pub touches : Touches m out.2 s at null
  pub ahead : Within m s at stolen at null
  pub behind : Within m s at out.1 at null
  pub apart : Apart stolen at out.1 at

module _ {m : Mem} {s : Skiplist} {at : ℕ → ℕ → Ptr} (stack : IsStack m s at) (top : ℕ)
    (cut : ℕ → ℕ) (is_cut : IsCut s top cut) where
  -- Below `top` the cuts stand between groups, so that the candidates stay.
  cut-aligned : (i : ℕ) → i < top → cut i % skip_gap ≡ 0
  cut-aligned i h = omega (arith, is_cut.groups i h)

  pub cand_back :
      (i : ℕ) → i < top → (row s i).candidate ≡ cand_of (at i) (cut i) (row s i).tail_off
  cand_back i h = ground (
    arith,
    (stack.rows i (omega (arith, is_cut.top_le))).waits,
    cut-aligned i h,
    is_cut.above i (omega arith),
    is_cut.below i (omega arith),
  )

  pub cand_front : (i : ℕ) → i < top → null ≡ cand_of (at i) (row s i).head_off (cut i)
  cand_front i h = ground (arith, cut-aligned i h)

  not_last :
      (j p : ℕ)
      → j < n_layers
      → (s.layers j).head_off ≤ p
      → p < (s.layers j).tail_off
      → (suc j ≤ top → p ≢ cut (suc j) - 1)
      → (k : ℕ) → k < top
      → at (suc j) p ≢ last_cut stack top cut is_cut k
  not_last j p b x y ne k h e =
      let (z, w) = last_in stack top cut is_cut k h in
      let jk = stack.apart j k p (cut (suc k) - 1) b (omega (arith, is_cut.top_le)) x y z w e in
      let e' = e ∙ ap (last_cut stack top cut is_cut) (sym jk) in
      ne (omega arith) ((stack.rows (suc j) b).once p (cut (suc j) - 1) x y (rw jk z) (rw jk w) e')

  -- The memory behind the cuts of the layers and of the tasks.
  module _ (c d : Carve) (em : c.mem ≡ m) (carved : IsCarved stack top cut is_cut top c d) where
    severed-same :
        (i p : ℕ)
        → i ≤ n_layers
        → (row s i).head_off ≤ p
        → p < (row s i).tail_off
        → (i ≤ top → p ≢ cut i - 1)
        → nexts (set_next d.mem d.cur null) i (at i p) ≡ nexts m i (at i p)
    severed-same zero p b x y ne =
        update-ne d.mem.next d.cur (at 0 p) null (λ e. ne (omega arith) (
          (stack.rows 0 b).once p (cut 0 - 1) x y (omega (arith, is_cut.above 0))
            (omega (arith, is_cut.above 0, is_cut.below 0)) (e ∙ carved.cur)))
        ∙ ap (λ g. g (at 0 p)) carved.next
        ∙ ap (λ k. k.next (at 0 p)) em
    severed-same (suc j) p b x y ne =
        ap SkipNode.next_node
          (carved.same (at (suc j) p) (not_last j p b x y ne) ∙ ap (λ k. k.node (at (suc j) p)) em)

    severed-ends : (i : ℕ) → i ≤ top → nexts (set_next d.mem d.cur null) i (at i (cut i - 1)) ≡ null
    severed-ends zero h =
        ap (update d.mem.next d.cur null) (sym carved.cur) ∙ update_self d.mem.next d.cur null
    severed-ends (suc j) h = carved.ends j h

    pub severed : IsSevered m (set_next d.mem d.cur null) s at top cut
    severed = record {
      ends = severed-ends;
      same = severed-same;
      groups = λ a. rw (← em) (carved.groups a);
      fresh = carved.fresh ∙ ap (λ k. k.fresh) em;
    }
