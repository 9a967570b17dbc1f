-- ===== src/Skiplist/Half/Cuts.antt =====
-- A cut in one row fixes the cuts in the rows below it.
use tythread.Base.{
  ℕ, zero, suc, ◌+◌, ◌-◌, ◌/◌, ◌*◌, ◌≤◌, ◌<◌, ◌≡◌, refl, ap, ◌∙◌, arith, Ptr, inl, inr, update,
  update-ne, update_self, eq_cases,
}
use tythread.Skiplist.{Layer, Mem, Skiplist, n_layers, skip_gap, row}
use tythread.Skiplist.Half.{hop}
use tythread.Skiplist.Row.{Row}
use tythread.Skiplist.Stack.{IsStack}
use tythread.Skiplist.Divide.{IsCut}

pub hop-Row :
    {f : ℕ → Ptr} {next : Ptr → Ptr} {r : Layer} (n h : ℕ)
    → Row f next r
    → r.head_off ≤ h
    → h + n < r.tail_off
    → hop n next (f h) ≡ f (h + n)
unfolding hop
hop-Row {f} zero h row a b = ap f (omega arith)
hop-Row {f} {next} (suc n) h row a b =
    let step : next (f h) ≡ f (suc h) = ground (arith, row.chain h) in
    rw step (hop-Row n (suc h) row (omega arith) (omega arith) ∙ ap f (omega arith))

pub record Cuts (s : Skiplist) (top c : ℕ) : Type 0 where
  pub cut : ℕ → ℕ
  pub here : cut top ≡ c
  pub is_cut : IsCut s top cut

module _ {m : Mem} {s : Skiplist} {at : ℕ → ℕ → Ptr} (stack : IsStack m s at) where
  pub cuts :
      (top c : ℕ)
      → top ≤ n_layers
      → (row s top).head_off < c
      → c ≤ (row s top).tail_off
      → Cuts s top c
  cuts zero c le above below = record {
    cut = λ _. c;
    here = refl;
    is_cut = record {
      top_le = le;
      above = λ i h. (let e : i ≡ 0 = omega arith in rw e above);
      below = λ i h. (let e : i ≡ 0 = omega arith in rw e below);
      groups = λ i h. absurd (omega arith);
    };
  }
  cuts (suc k) c le above below =
      let link = stack.links k le in
      let c' =
        ((((row s k).head_off + (skip_gap - 1)) / skip_gap) + (c - (s.layers k).head_off))
        * skip_gap in
      let rest =
        cuts k c' (omega arith) (omega (arith, link.groups)) (omega (arith, link.groups)) in
      let old = λ (i : ℕ) (h : i ≤ k). update-ne rest.cut (suc k) i c (omega arith) in
      let top = update_self rest.cut (suc k) c in
      record {
        cut = update rest.cut (suc k) c;
        here = top;
        is_cut = record {
          top_le = le;
          above = λ i h. elim (eq_cases i (suc k)) [
            | inl (_, e) ↦ rw (e, top) above
            | inr (_, ne) ↦ rw (old i (omega arith)) (rest.is_cut.above i (omega arith))
          ];
          below = λ i h. elim (eq_cases i (suc k)) [
            | inl (_, e) ↦ rw (e, top) below
            | inr (_, ne) ↦ rw (old i (omega arith)) (rest.is_cut.below i (omega arith))
          ];
          groups = λ i h. elim (eq_cases i k) [
            | inl (_, e) ↦ rw (e, old k (omega arith), top) rest.here
            | inr (_, ne) ↦
                rw (old i (omega arith), old (suc i) (omega arith))
                  (rest.is_cut.groups i (omega arith))
          ];
        };
      }
