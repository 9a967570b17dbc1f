-- ===== src/MergeSort/Writes.antt =====
-- The bodies of the loops of `merge`, each a write at the end of the temporary array.
use tythread.Base.{
  tick, ℕ, suc, ◌+◌, ◌-◌, ◌/◌, ◌≤◌, ◌<◌, ◌≡◌, sym, ap, ◌∙◌, arith, ◌==◌, update, update_self,
  update-ne, eq_cases, inl, inr,
}
use tythread.MergeSort.{Cursor, put_left, put_right}
use tythread.MergeSort.Range.{IsSorted, count, Keeps, Keeps-trans, Keeps-update, count-same}

-- An entry of the temporary array after a write at its end.
module _ (t n v : ℕ) (f : ℕ → ℕ) where
  at_end : update f (t + n) v (t + n) ≡ v
  at_end = update_self f (t + n) v

  before_end : (k : ℕ) → k < n → update f (t + n) v (t + k) ≡ f (t + k)
  before_end k b = update-ne f (t + n) (t + k) v (λ e. omega (arith, e))

  -- The write appends v.
  count-end : (x : ℕ) → count x (update f (t + n) v) t (suc n) ≡ count x f t n + tick (v == x)
  unfolding count
  count-end x =
      let below = count-same x (update f (t + n) v) f t n before_end in
      let top = ap (λ w. tick (w == x)) at_end in omega (arith, below, top)

  end-IsSorted :
      IsSorted f t n → ((k : ℕ) → k < n → f (t + k) ≤ v) → IsSorted (update f (t + n) v) t (suc n)
  end-IsSorted sorted under i j le b = elim (eq_cases j n) [
    | inl (_, e) ↦ elim (eq_cases i n) [
      | inl (_, e') ↦ omega (arith, ap (λ k. update f (t + n) v (t + k)) (e ∙ sym e'))
      | inr (_, ne) ↦ omega (
        arith,
        at_end,
        ap (λ k. update f (t + n) v (t + k)) e,
        before_end i (omega arith),
        under i (omega arith),
      )
    ]
    | inr (_, ne) ↦
        omega (
          arith,
          before_end i (omega arith),
          before_end j (omega arith),
          sorted i j le (omega arith),
        )
  ]

-- What `merge` has done when its variables are c: the first entries of the two halves stand in
-- ascending order in the temporary array, none above what is left.
pub record IsMerging (f : ℕ → ℕ) (a t size : ℕ) (start : ℕ → ℕ) (c : Cursor) : Type 0 where
  pub left : c.i1 ≤ size / 2
  pub right_from : size / 2 ≤ c.i2
  pub right : c.i2 ≤ size
  pub both : c.tempi + size / 2 ≡ c.i1 + c.i2
  pub sorted : IsSorted c.temp t c.tempi
  pub under_left : (k i : ℕ) → k < c.tempi → c.i1 ≤ i → i < size / 2 → c.temp (t + k) ≤ f (a + i)
  pub under_right : (k i : ℕ) → k < c.tempi → c.i2 ≤ i → i < size → c.temp (t + k) ≤ f (a + i)
  pub counts :
      (x : ℕ)
      → count x c.temp t c.tempi ≡ count x f a c.i1 + count x f (a + size / 2) (c.i2 - size / 2)
  pub temp : Keeps t size start c.temp

module _ (f : ℕ → ℕ) (a t size : ℕ) (start : ℕ → ℕ) (left_sorted : IsSorted f a (size / 2))
    (right_sorted : (i j : ℕ) → size / 2 ≤ i → i ≤ j → j < size → f (a + i) ≤ f (a + j)) where
  pub put_left-IsMerging :
      (c : Cursor)
      → IsMerging f a t size start c
      → c.i1 < size / 2
      → ((i : ℕ) → c.i2 ≤ i → i < size → f (a + c.i1) ≤ f (a + i))
      → IsMerging f a t size start (put_left f a t c)
  unfolding put_left count
  put_left-IsMerging c m b least =
      let v = f (a + c.i1) in
      let turn : c.tempi + 1 ≡ suc c.tempi = omega arith in
      let turn1 : c.i1 + 1 ≡ suc c.i1 = omega arith in
      record {
        left = omega arith;
        right_from = m.right_from;
        right = m.right;
        both = omega (arith, m.both);
        sorted = rw turn (
            end-IsSorted t c.tempi v c.temp m.sorted
              (λ k h. m.under_left k c.i1 h (omega arith) b));
        under_left = λ k i h lo hi. elim (eq_cases k c.tempi) [
          | inl (_, e) ↦ rw e (rw (at_end t c.tempi v c.temp) (left_sorted c.i1 i (omega arith) hi))
          | inr (_, ne) ↦
              rw (before_end t c.tempi v c.temp k (omega arith))
                (m.under_left k i (omega arith) (omega arith) hi)
        ];
        under_right = λ k i h lo hi. elim (eq_cases k c.tempi) [
          | inl (_, e) ↦ rw e (rw (at_end t c.tempi v c.temp) (least i lo hi))
          | inr (_, ne) ↦
              rw (before_end t c.tempi v c.temp k (omega arith))
                (m.under_right k i (omega arith) lo hi)
        ];
        counts = λ x. rw (turn, turn1) (omega (arith, count-end t c.tempi v c.temp x, m.counts x));
        temp = Keeps-trans t size _ _ _ m.temp (
            Keeps-update t size (t + c.tempi) v c.temp (omega arith)
              (omega (arith, m.both, m.right, m.left)));
      }

  pub put_right-IsMerging :
      (c : Cursor)
      → IsMerging f a t size start c
      → c.i2 < size
      → ((i : ℕ) → c.i1 ≤ i → i < size / 2 → f (a + c.i2) ≤ f (a + i))
      → IsMerging f a t size start (put_right f a t c)
  unfolding put_right count
  put_right-IsMerging c m b least =
      let v = f (a + c.i2) in
      let turn : c.tempi + 1 ≡ suc c.tempi = omega arith in
      let turn2 : c.i2 + 1 - size / 2 ≡ suc (c.i2 - size / 2) = omega (arith, m.right_from) in
      let here : a + size / 2 + (c.i2 - size / 2) ≡ a + c.i2 = omega (arith, m.right_from) in
      record {
        left = m.left;
        right_from = omega (arith, m.right_from);
        right = omega arith;
        both = omega (arith, m.both);
        sorted = rw turn (
            end-IsSorted t c.tempi v c.temp m.sorted
              (λ k h. m.under_right k c.i2 h (omega arith) b));
        under_left = λ k i h lo hi. elim (eq_cases k c.tempi) [
          | inl (_, e) ↦ rw e (rw (at_end t c.tempi v c.temp) (least i lo hi))
          | inr (_, ne) ↦
              rw (before_end t c.tempi v c.temp k (omega arith))
                (m.under_left k i (omega arith) lo hi)
        ];
        under_right = λ k i h lo hi. elim (eq_cases k c.tempi) [
          | inl (_, e) ↦
              rw e
                (rw (at_end t c.tempi v c.temp) (right_sorted c.i2 i m.right_from (omega arith) hi))
          | inr (_, ne) ↦
              rw (before_end t c.tempi v c.temp k (omega arith))
                (m.under_right k i (omega arith) (omega arith) hi)
        ];
        counts = λ x.
            rw (turn, turn2)
              (omega (
                arith,
                count-end t c.tempi v c.temp x,
                m.counts x,
                ap (λ k. tick (f k == x)) here,
              ));
        temp = Keeps-trans t size _ _ _ m.temp (
            Keeps-update t size (t + c.tempi) v c.temp (omega arith)
              (omega (arith, m.both, m.right, m.left)));
      }
