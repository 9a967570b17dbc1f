-- ===== src/MergeSort/Halves.antt =====
-- `merge` of two halves in ascending order, and the two halves sorted one after the other.
use tythread.Base.{ℕ, ◌+◌, ◌-◌, ◌/◌, ◌≤◌, ◌<◌, ◌≡◌, refl, sym, ap, ◌∙◌, arith}
use tythread.MergeSort.{Arrays, merge, merged, copy}
use tythread.MergeSort.Range.{
  IsSorted, count, Keeps, Keeps-trans, Keeps-wider, Sorts, count-append, count-Keeps,
  count-Keeps_after, count-moved,
}
use tythread.MergeSort.Merging.{merged-IsMerging}

module _ (dst : ℕ → ℕ) (a : ℕ) (src : ℕ → ℕ) (t n : ℕ) where
  copy-inside : (i : ℕ) → i < n → copy dst a src t n (a + i) ≡ src (t + i)
  unfolding copy
  copy-inside i b = let back : t + (a + i - a) ≡ t + i = omega arith in rw back (ground arith)

  copy-Keeps : Keeps a n dst (copy dst a src t n)
  unfolding copy
  copy-Keeps = record { low = λ k h. ground arith; high = λ k h. ground arith }

-- The halves of the n entries from a on ascend.
record AreSorted (a n : ℕ) (f : ℕ → ℕ) : Type 0 where
  left : IsSorted f a (n / 2)
  right : (i j : ℕ) → n / 2 ≤ i → i ≤ j → j < n → f (a + i) ≤ f (a + j)

-- Of two halves in ascending order `merge` makes an ascending range.
merge-Sorts : (a t n : ℕ) (m : Arrays) → AreSorted a n m.ints → Sorts a t n m (merge a t n m)
unfolding merge
merge-Sorts a t n m h =
    let c = merged a t n m in
    let (done, all_left, all_right) = merged-IsMerging a t n m h.left h.right in
    let full : c.tempi ≡ n = omega (arith, done.both, all_left, all_right) in
    let out = copy m.ints a c.temp t n in
    let inside = copy-inside m.ints a c.temp t n in
    record {
      sorted = λ i j le b.
          omega
            (arith, inside i (omega arith), inside j b, done.sorted i j le (omega (arith, full)));
      same = λ x.
          let moved : count x out a n ≡ count x c.temp t n =
            count-moved x out c.temp a t n inside in
          let cut = count-append x m.ints a (n / 2) (n - n / 2) in
          let whole : n - n / 2 + n / 2 ≡ n = omega arith in
          moved
          ∙ ap (count x c.temp t) (sym full)
          ∙ done.counts x
          ∙ (rw (all_left, all_right) refl)
          ∙ sym cut
          ∙ ap (count x m.ints a) whole;
      ints = copy-Keeps m.ints a c.temp t n;
      temp = done.temp;
    }

-- The halves of a range are sorted, in some order, each in its part of the temporary array.
record SortsHalves (a t n : ℕ) (m m' : Arrays) : Type 0 where
  halves : AreSorted a n m'.ints
  same : (x : ℕ) → count x m'.ints a n ≡ count x m.ints a n
  ints : Keeps a n m.ints m'.ints
  temp : Keeps t n m.temp m'.temp

count-halves :
    (x : ℕ) (f : ℕ → ℕ) (a n : ℕ)
    → count x f a n ≡ count x f a (n / 2) + count x f (a + n / 2) (n - n / 2)
count-halves x f a n =
    let whole : n ≡ n - n / 2 + n / 2 = omega arith in
    ap (count x f a) whole ∙ count-append x f a (n / 2) (n - n / 2)

AreSorted-halves :
    (a n : ℕ) (f : ℕ → ℕ)
    → IsSorted f a (n / 2)
    → IsSorted f (a + n / 2) (n - n / 2)
    → AreSorted a n f
AreSorted-halves a n f l r = record {
  left = l;
  right = λ i j lo le b.
      let at_i : a + n / 2 + (i - n / 2) ≡ a + i = omega arith in
      let at_j : a + n / 2 + (j - n / 2) ≡ a + j = omega arith in
      omega (arith, r (i - n / 2) (j - n / 2) (omega arith) (omega arith), ap f at_i, ap f at_j);
}

module _ (a t n tl tr : ℕ) (lo_l : t ≤ tl) (hi_l : tl + n / 2 ≤ t + n) (lo_r : t ≤ tr)
    (hi_r : tr + (n - n / 2) ≤ t + n) where
  wide_left : (f g : ℕ → ℕ) → Keeps a (n / 2) f g → Keeps a n f g
  wide_left f g = Keeps-wider a (n / 2) a n f g (omega arith) (omega arith)

  wide_right : (f g : ℕ → ℕ) → Keeps (a + n / 2) (n - n / 2) f g → Keeps a n f g
  wide_right f g = Keeps-wider (a + n / 2) (n - n / 2) a n f g (omega arith) (omega arith)

  left_first :
      {m m1 m2 : Arrays}
      → Sorts a tl (n / 2) m m1
      → Sorts (a + n / 2) tr (n - n / 2) m1 m2
      → SortsHalves a t n m m2
  left_first {m} {m1} {m2} l r = record {
    halves =
        AreSorted-halves a n m2.ints
          (λ i j le b. omega (
            arith,
            l.sorted i j le b,
            r.ints.low (a + i) (omega arith),
            r.ints.low (a + j) (omega arith),
          ))
          r.sorted;
    same = λ x. omega (
      arith,
      count-halves x m2.ints a n,
      count-halves x m.ints a n,
      l.same x,
      r.same x,
      count-Keeps x m1.ints m2.ints a (n / 2) (a + n / 2) (n - n / 2) r.ints (omega arith),
      count-Keeps_after x m.ints m1.ints (a + n / 2) (n - n / 2) a (n / 2) l.ints (omega arith),
    );
    ints = Keeps-trans a n _ _ _ (wide_left _ _ l.ints) (wide_right _ _ r.ints);
    temp =
        Keeps-trans t n _ _ _ (Keeps-wider tl (n / 2) t n _ _ lo_l hi_l l.temp)
          (Keeps-wider tr (n - n / 2) t n _ _ lo_r hi_r r.temp);
  }

  right_first :
      {m m1 m2 : Arrays}
      → Sorts (a + n / 2) tr (n - n / 2) m m1
      → Sorts a tl (n / 2) m1 m2
      → SortsHalves a t n m m2
  right_first {m} {m1} {m2} r l = record {
    halves = AreSorted-halves a n m2.ints l.sorted (λ i j le b. omega (
      arith,
      r.sorted i j le b,
      l.ints.high (a + n / 2 + i) (omega arith),
      l.ints.high (a + n / 2 + j) (omega arith),
    ));
    same = λ x. omega (
      arith,
      count-halves x m2.ints a n,
      count-halves x m.ints a n,
      l.same x,
      r.same x,
      count-Keeps x m.ints m1.ints a (n / 2) (a + n / 2) (n - n / 2) r.ints (omega arith),
      count-Keeps_after x m1.ints m2.ints (a + n / 2) (n - n / 2) a (n / 2) l.ints (omega arith),
    );
    ints = Keeps-trans a n _ _ _ (wide_right _ _ r.ints) (wide_left _ _ l.ints);
    temp =
        Keeps-trans t n _ _ _ (Keeps-wider tr (n - n / 2) t n _ _ lo_r hi_r r.temp)
          (Keeps-wider tl (n / 2) t n _ _ lo_l hi_l l.temp);
  }

-- Then `merge` sorts the range.
halves-Sorts : (a t n : ℕ) {m m' : Arrays} → SortsHalves a t n m m' → Sorts a t n m (merge a t n m')
halves-Sorts a t n {m} {m'} h =
    let out = merge-Sorts a t n m' h.halves in
    record {
      sorted = out.sorted;
      same = λ x. out.same x ∙ h.same x;
      ints = Keeps-trans a n _ _ _ h.ints out.ints;
      temp = Keeps-trans t n _ _ _ h.temp out.temp;
    }

-- As in `mergesort_serial`, where both halves use the start of the temporary array.
pub serial_halves-Sorts :
    (a t n : ℕ) {m m1 m2 : Arrays}
    → Sorts a t (n / 2) m m1
    → Sorts (a + n / 2) t (n - n / 2) m1 m2
    → Sorts a t n m (merge a t n m2)
serial_halves-Sorts a t n l r =
    halves-Sorts a t n
      (left_first a t n t t (omega arith) (omega arith) (omega arith) (omega arith) l r)

-- As in `mergesort_parallel_omp`, in the one order and the other.
pub parallel_halves-Sorts :
    (a t n : ℕ) {m m1 m2 : Arrays}
    → Sorts a t (n / 2) m m1
    → Sorts (a + n / 2) (t + n / 2) (n - n / 2) m1 m2
    → Sorts a t n m (merge a t n m2)
parallel_halves-Sorts a t n l r =
    halves-Sorts a t n
      (left_first a t n t (t + n / 2) (omega arith) (omega arith) (omega arith) (omega arith) l r)

pub turned_halves-Sorts :
    (a t n : ℕ) {m m1 m2 : Arrays}
    → Sorts (a + n / 2) (t + n / 2) (n - n / 2) m m1
    → Sorts a t (n / 2) m1 m2
    → Sorts a t n m (merge a t n m2)
turned_halves-Sorts a t n r l =
    halves-Sorts a t n
      (right_first a t n t (t + n / 2) (omega arith) (omega arith) (omega arith) (omega arith) r l)
