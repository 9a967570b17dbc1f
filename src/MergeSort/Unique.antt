-- ===== src/MergeSort/Unique.antt =====
-- A range has one ascending arrangement.
use tythread.Base.{
  tick, ℕ, zero, suc, ◌+◌, ◌≤◌, ◌<◌, ◌≡◌, refl, ap, arith, ◌==◌, eq_cases, lt_cases, inl, inr,
}
use tythread.MergeSort.Range.{IsSorted, count}

-- A value above all entries does not occur.
count-above : (x : ℕ) (f : ℕ → ℕ) (a n : ℕ) → ((i : ℕ) → i < n → f (a + i) < x) → count x f a n ≡ 0
unfolding count
count-above x f a zero h = refl
count-above x f a (suc n) h =
    let rest = count-above x f a n (λ i b. h i (omega arith)) in
    let top = h n (omega arith) in
    let miss : tick (f (a + n) == x) ≡ 0 = ground arith in omega (arith, rest, miss)

-- The last of the ascending entries is not above that of others in which its value occurs.
last-le :
    (f g : ℕ → ℕ) (a n : ℕ)
    → IsSorted g a (suc n)
    → count (f (a + n)) f a (suc n) ≡ count (f (a + n)) g a (suc n)
    → f (a + n) ≤ g (a + n)
unfolding count
last-le f g a n sorted same = elim (lt_cases (g (a + n)) (f (a + n))) [
  | inr le ↦ le
  | inl lt ↦
      (let none =
          count-above (f (a + n)) g a (suc n)
            (λ i b. omega (arith, sorted i n (omega arith) (omega arith))) in
        let one : tick (f (a + n) == f (a + n)) ≡ 1 = ground arith in
        absurd (omega (arith, none, one, same)))
]

pub IsSorted-eq :
    (f g : ℕ → ℕ) (a n : ℕ)
    → IsSorted f a n
    → IsSorted g a n
    → ((x : ℕ) → count x f a n ≡ count x g a n)
    → (i : ℕ) → i < n
    → f (a + i) ≡ g (a + i)
unfolding count
IsSorted-eq f g a zero sf sg same i b = absurd (omega arith)
IsSorted-eq f g a (suc n) sf sg same i b =
    let up = last-le f g a n sg (same (f (a + n))) in
    let down = last-le g f a n sf (omega (arith, same (g (a + n)))) in
    let top : f (a + n) ≡ g (a + n) = omega (arith, up, down) in
    elim (eq_cases i n) [
      | inl (_, e) ↦ rw e top
      | inr (_, ne) ↦
          IsSorted-eq f g a n (λ k l le h. sf k l le (omega arith))
            (λ k l le h. sg k l le (omega arith))
            (λ x. omega (arith, same x, ap (λ v. tick (v == x)) top)) i (omega arith)
    ]
