-- ===== src/MergeSort/Merging.antt =====
-- The loops of `merge`, by their invariant.
use tythread.Base.{
  ℕ, zero, suc, ◌+◌, ◌-◌, ◌/◌, ◌≤◌, ◌<◌, ◌≡◌, refl, arith, ltb, ◌&&◌, Bool-cases, ◌⊎◌, inl, inr,
}
use tythread.MergeSort.{
  Cursor, put_left, put_right, merge_both, merge_left, merge_right, merged, cursor_start, Arrays,
}
use tythread.MergeSort.Range.{IsSorted, count, Keeps-refl}
use tythread.MergeSort.Writes.{IsMerging, put_left-IsMerging, put_right-IsMerging}

module _ (f : ℕ → ℕ) (a t size : ℕ) (start : ℕ → ℕ) (left_sorted : IsSorted f a (size / 2))
    (right_sorted : (i j : ℕ) → size / 2 ≤ i → i ≤ j → j < size → f (a + i) ≤ f (a + j)) where
  -- With enough fuel the first loop ends when one half is used up.
  both-IsMerging :
      (fuel : ℕ) (c : Cursor)
      → IsMerging f a t size start c
      → size / 2 - c.i1 + (size - c.i2) < fuel
      → IsMerging f a t size start (merge_both fuel f a t size c)
        × ((size / 2 ≤ (merge_both fuel f a t size c).i1)
            ⊎ (size ≤ (merge_both fuel f a t size c).i2))
  unfolding merge_both put_left put_right
  both-IsMerging zero c m b = absurd (omega arith)
  both-IsMerging (suc fuel) c m b = elim (Bool-cases (ltb c.i1 (size / 2) && ltb c.i2 size)) [
    | inr e ↦ rw (e, merge_both) (m, ground arith)
    | inl e ↦
        (let b1 : c.i1 < size / 2 = ground arith in
          let b2 : c.i2 < size = ground arith in
          elim (Bool-cases (ltb (f (a + c.i1)) (f (a + c.i2)))) [
            | inl e' ↦
                (let lt : f (a + c.i1) < f (a + c.i2) = ground arith in
                  rw (e, merge_both, e')
                    (both-IsMerging fuel (put_left f a t c)
                      (put_left-IsMerging f a t size start left_sorted right_sorted c m b1
                        (λ i lo hi. omega (arith, right_sorted c.i2 i m.right_from lo hi)))
                      (omega arith)))
            | inr e' ↦
                (let le : f (a + c.i2) ≤ f (a + c.i1) = ground arith in
                  rw (e, merge_both, e')
                    (both-IsMerging fuel (put_right f a t c)
                      (put_right-IsMerging f a t size start left_sorted right_sorted c m b2
                        (λ i lo hi. omega (arith, left_sorted c.i1 i lo hi)))
                      (omega arith)))
          ])
  ]

  left-IsMerging :
      (fuel : ℕ) (c : Cursor)
      → IsMerging f a t size start c
      → size / 2 - c.i1 < fuel
      → (size / 2 ≤ c.i1) ⊎ (size ≤ c.i2)
      → IsMerging f a t size start (merge_left fuel f a t size c)
        × (size / 2 ≤ (merge_left fuel f a t size c).i1)
  unfolding merge_left put_left
  left-IsMerging zero c m b up = absurd (omega arith)
  left-IsMerging (suc fuel) c m b up = elim (Bool-cases (ltb c.i1 (size / 2))) [
    | inr e ↦ rw (e, merge_left) (m, ground arith)
    | inl e ↦
        (let b1 : c.i1 < size / 2 = ground arith in
          rw (e, merge_left)
            (left-IsMerging fuel (put_left f a t c)
              (put_left-IsMerging f a t size start left_sorted right_sorted c m b1
                (λ i lo hi. absurd (omega (arith, up))))
              (omega arith) (inr (omega (arith, up)))))
  ]

  right-IsMerging :
      (fuel : ℕ) (c : Cursor)
      → IsMerging f a t size start c
      → size - c.i2 < fuel
      → size / 2 ≤ c.i1
      → IsMerging f a t size start (merge_right fuel f a t size c)
        × (size ≤ (merge_right fuel f a t size c).i2)
        × (size / 2 ≤ (merge_right fuel f a t size c).i1)
  unfolding merge_right put_right
  right-IsMerging zero c m b up = absurd (omega arith)
  right-IsMerging (suc fuel) c m b up = elim (Bool-cases (ltb c.i2 size)) [
    | inr e ↦ rw (e, merge_right) (m, ground arith, up)
    | inl e ↦
        (let b2 : c.i2 < size = ground arith in
          rw (e, merge_right)
            (right-IsMerging fuel (put_right f a t c)
              (put_right-IsMerging f a t size start left_sorted right_sorted c m b2
                (λ i lo hi. absurd (omega arith)))
              (omega arith) up))
  ]

-- Of halves in ascending order `merge` has every entry in the temporary array at the end of its loops.
pub merged-IsMerging :
    (a t size : ℕ) (m : Arrays)
    → IsSorted m.ints a (size / 2)
    → ((i j : ℕ) → size / 2 ≤ i → i ≤ j → j < size → m.ints (a + i) ≤ m.ints (a + j))
    → IsMerging m.ints a t size m.temp (merged a t size m)
      × ((merged a t size m).i1 ≡ size / 2)
      × ((merged a t size m).i2 ≡ size)
unfolding merged count
merged-IsMerging a t size m ls rs =
    let start : IsMerging m.ints a t size m.temp (cursor_start size m.temp) = record {
      left = omega arith;
      right_from = omega arith;
      right = omega arith;
      both = omega arith;
      sorted = λ i j le b. absurd (omega arith);
      under_left = λ k i b lo hi. absurd (omega arith);
      under_right = λ k i b lo hi. absurd (omega arith);
      counts = λ x. let none : size / 2 - size / 2 ≡ zero = omega arith in rw none refl;
      temp = Keeps-refl t size m.temp;
    } in
    let (one, up) =
      both-IsMerging m.ints a t size m.temp ls rs (suc size) (cursor_start size m.temp) start
        (omega arith) in
    let (two, up') =
      left-IsMerging m.ints a t size m.temp ls rs (suc size) _ one (omega (arith, one.left)) up in
    let (three, ends, begins) =
      right-IsMerging m.ints a t size m.temp ls rs (suc size) _ two (omega (arith, two.right))
        up' in
    (three, omega (arith, three.left), omega (arith, three.right))
