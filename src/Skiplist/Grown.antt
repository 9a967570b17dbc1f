-- ===== src/Skiplist/Grown.antt =====
-- The whole loop of `_update_after_enque` brings the queue into order.
use tythread.Base.{
  ℕ, zero, suc, ◌+◌, ◌-◌, ◌/◌, ◌*◌, ◌%◌, ◌≤◌, ◌<◌, ◌≡◌, refl, sym, ◌∙◌, ◌⊎◌, inl, inr, ◌≢◌, ◌==◌,
  if◌then◌else◌, arith, Ptr, null, update, update_self, eq_cases, false, Bool-cases,
}
use tythread.Skiplist.{
  Layer, Mem, Skiplist, n_layers, skip_gap, row, append_node, grow, group_full, new_candidate,
}
use tythread.Skiplist.Row.{Row, cand_of, cand_start, push-cand}
use tythread.Skiplist.Stack.{
  IsStack, IsLagging, append_node-layer, append_node-next, append_node-counter,
}
use tythread.Skiplist.Frame.{
  Touches, Within, Touches-refl, Within-refl, Touches-trans, Within-trans,
}
use tythread.Skiplist.Pushed.{round-Touches, round-Within}
use tythread.Skiplist.Grow.{pushed, at_else, round-IsLagging, round-IsStack}

-- The outcome of the loop from s to s': all in order, with the raw list as it was.
pub record Grown (m m' : Mem) (s s' : Skiplist) (at : ℕ → ℕ → Ptr) (p : Ptr) : Type 0 where
  pub at' : ℕ → ℕ → Ptr
  pub stack : IsStack m' s' at'
  pub same_at : (p : ℕ) → at' 0 p ≡ at 0 p
  pub same_next : m'.next ≡ m.next
  pub same_counter : m'.counter ≡ m.counter
  pub touches : Touches m m' s at p
  pub within : Within m s at s' at' p

-- Where no group becomes full, the one at the end is short of a node or of its first node.
pub open_group :
    {f : ℕ → Ptr} {next : Ptr → Ptr} {r : Layer}
    → Row f next r
    → (if r.candidate == null then false else (r.tail_off + 1) % skip_gap == 0) ≡ false
    → (r.tail_off + 1) % skip_gap ≢ 0 ⊎ (r.tail_off / skip_gap * skip_gap < r.head_off)
open_group {r} row h = elim (eq_cases ((r.tail_off + 1) % skip_gap) 0) [
  | inl (_, e) ↦
      inr (ground (arith, row.waits, row.order, row.real (r.tail_off / skip_gap * skip_gap)))
  | inr (_, e) ↦ inl e
]

-- The rounds after the first.
Grown-trans :
    {m mid m' : Mem} {s s_mid s' : Skiplist} {at at_mid : ℕ → ℕ → Ptr} {p : Ptr}
    → Touches m mid s at p
    → Within m s at s_mid at_mid p
    → ((q : ℕ) → at_mid 0 q ≡ at 0 q)
    → mid.next ≡ m.next
    → mid.counter ≡ m.counter
    → Grown mid m' s_mid s' at_mid p
    → Grown m m' s s' at p
Grown-trans touches within same_at next counter rest = record {
  at' = rest.at';
  stack = rest.stack;
  same_at = λ q. rest.same_at q ∙ same_at q;
  same_next = rest.same_next ∙ next;
  same_counter = rest.same_counter ∙ counter;
  touches = Touches-trans touches within rest.touches;
  within = Within-trans touches within rest.within;
}

pub grow-Grown :
    (k i : ℕ)
    → k + i ≡ n_layers
    → (p cur last : Ptr) (m : Mem) (s : Skiplist) (at : ℕ → ℕ → Ptr) → IsLagging i m s at
    → cur ≡ at i ((row s i).tail_off - skip_gap)
    → last ≡ at i ((row s i).tail_off - 1)
    → (row s i).tail_off % skip_gap ≡ 0
    → (row s i).head_off + skip_gap ≤ (row s i).tail_off
    → Grown m
        (grow k i cur last m s.layers).0
        s
        (record s { layers = (grow k i cur last m s.layers).1 })
        at
        p
unfolding grow
grow-Grown zero i e p cur last m s at lags ecur elast full long = record {
  at' = at;
  stack = record {
    rows = lags.rows;
    links = λ j b. lags.links j b (omega arith);
    alloc = lags.alloc;
    owned = lags.owned;
    apart = lags.apart;
  };
  same_at = λ p. refl;
  same_next = refl;
  same_counter = refl;
  touches = Touches-refl m s at p;
  within = Within-refl m s at p;
}
grow-Grown (suc k) i e p cur last m s at lags ecur elast full long =
    let r = append_node cur last m (s.layers i) in
    let (eh, et, ef, el, ec) = append_node-layer cur last m (s.layers i) in
    let own-Row = lags.rows (suc i) (omega arith) in
    let below : i < n_layers = omega arith in
    elim (Bool-cases (group_full r.1)) [
      | inl up ↦ rw up (
          let l' : Layer = record r.1 { candidate = null } in
          let whole : (s.layers i).tail_off % skip_gap ≡ skip_gap - 1 = ground arith in
          let start = cand_start own-Row (ground arith) in
          let lc : l'.candidate
              ≡ cand_of (update (at (suc i)) (s.layers i).tail_off m.fresh) (s.layers i).head_off
                  (suc (s.layers i).tail_off) =
            ground arith in
          let self = update_self s.layers i l' in
          let up_at = pushed at i (s.layers i).tail_off m.fresh in
          let before : r.1.tail_off - skip_gap ≡ (s.layers i).tail_off / skip_gap * skip_gap =
            omega arith in
          let top : r.1.tail_off - 1 ≡ (s.layers i).tail_off = omega arith in
          let rest : Grown r.0
              (grow k (suc i) r.1.candidate r.1.tail_node r.0 (update s.layers i l')).0
              (record s { layers = update s.layers i l' })
              (record s {
                layers = (grow k (suc i) r.1.candidate r.1.tail_node r.0 (update s.layers i l')).1;
              })
              up_at p =
            grow-Grown k (suc i) (omega arith) p r.1.candidate r.1.tail_node r.0
              (record s { layers = update s.layers i l' }) up_at
              (round-IsLagging i lags below cur last l' eh et refl el lc ecur elast full long)
              (rw
                (
                  self,
                  update_self at (suc i) (update (at (suc i)) (s.layers i).tail_off m.fresh),
                  before,
                )
                (ground (arith, ec, start)))
              (rw
                (
                  self,
                  update_self at (suc i) (update (at (suc i)) (s.layers i).tail_off m.fresh),
                  top,
                )
                (el ∙ sym (update_self (at (suc i)) (s.layers i).tail_off m.fresh)))
              (rw self (omega arith)) (rw self (omega arith)) in
          Grown-trans (round-Touches i lags below cur last p)
            (round-Within i lags below cur last p l' eh et)
            (λ q. at_else i lags below cur last l' eh et refl el lc 0 q (omega arith))
            (append_node-next cur last m (s.layers i)) (append_node-counter cur last m (s.layers i))
            rest)
      | inr stop ↦ rw stop (
          let l' = new_candidate r.1 in
          let lc : l'.candidate
              ≡ cand_of (update (at (suc i)) (s.layers i).tail_off m.fresh) (s.layers i).head_off
                  (suc (s.layers i).tail_off) =
            ground (arith, push-cand own-Row m.fresh) in
          record {
            at' = pushed at i (s.layers i).tail_off m.fresh;
            stack =
                round-IsStack i lags below cur last l' (ground arith) (ground arith) (ground arith)
                  (ground arith) lc ecur elast full long (open_group own-Row (ground arith));
            same_at = λ p.
                at_else i lags below cur last l' (ground arith) (ground arith) (ground arith)
                  (ground arith) lc 0 p (omega arith);
            same_next = append_node-next cur last m (s.layers i);
            same_counter = append_node-counter cur last m (s.layers i);
            touches = round-Touches i lags below cur last p;
            within = round-Within i lags below cur last p l' (ground arith) (ground arith);
          })
    ]
