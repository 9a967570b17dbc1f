-- ===== src/MergeSort/Parallel.antt =====
-- `mergesort_parallel_omp` sorts, whichever of its sections runs first, as `mergesort_serial` does.
use tythread.Base.{
  ℕ, zero, suc, ◌+◌, ◌-◌, ◌/◌, ◌<◌, ◌≡◌, sym, ◌∙◌, arith, Bool, Bool-cases, true, ltb, eq_cases,
  lt_cases, inl, inr,
}
use tythread.MergeSort.{Arrays, mergesort_serial, parallel, mergesort_parallel_omp}
use tythread.MergeSort.Range.{Sorts}
use tythread.MergeSort.Serial.{mergesort_serial-Sorts}
use tythread.MergeSort.Halves.{parallel_halves-Sorts, turned_halves-Sorts}
use tythread.MergeSort.Unique.{IsSorted-eq}

parallel-Sorts :
    (first : ℕ → ℕ → Bool) (fuel a t size threads : ℕ) (m : Arrays)
    → 0 < threads
    → threads < fuel
    → Sorts a t size m (parallel first fuel a t size threads m)
unfolding parallel
parallel-Sorts first zero a t size threads m pos b = absurd (omega arith)
parallel-Sorts first (suc fuel) a t size threads m pos b = elim (eq_cases threads 1) [
  | inl (test, _) ↦ rw (test, parallel) (mergesort_serial-Sorts a t size m)
  | inr (test, ne) ↦
      (let many : ltb 1 threads ≡ true = ground arith in
        let left = λ (x : Arrays). parallel first fuel a t (size / 2) (threads / 2) x in
        let right = λ (x : Arrays).
          parallel first fuel (a + size / 2) (t + size / 2) (size - size / 2)
            (threads - threads / 2) x in
        let left-Sorts = λ (x : Arrays).
          parallel-Sorts first fuel a t (size / 2) (threads / 2) x (omega arith) (omega arith) in
        let right-Sorts = λ (x : Arrays).
          parallel-Sorts first fuel (a + size / 2) (t + size / 2) (size - size / 2)
            (threads - threads / 2) x (omega arith) (omega arith) in
        elim (Bool-cases (first a threads)) [
          | inl e ↦
              rw (test, many, e, parallel)
                (parallel_halves-Sorts a t size (left-Sorts m) (right-Sorts (left m)))
          | inr e ↦
              rw (test, many, e, parallel)
                (turned_halves-Sorts a t size (right-Sorts m) (left-Sorts (right m)))
        ])
]

-- `mergesort_parallel_omp` with at least one thread, whichever section of each fork runs first: the
-- size entries from a on come to ascend, every value occurs among them as often as before, and all
-- that it changes besides is at most size entries of the temporary array from t on.
pub mergesort_parallel_omp-Sorts :
    (first : ℕ → ℕ → Bool) (a t size threads : ℕ) (m : Arrays)
    → 0 < threads
    → Sorts a t size m (mergesort_parallel_omp first a t size threads m)
unfolding mergesort_parallel_omp
mergesort_parallel_omp-Sorts first a t size threads m pos =
    parallel-Sorts first (suc threads) a t size threads m pos (omega arith)

-- With at least one thread, whichever section of each fork runs first, `mergesort_parallel_omp` leaves
-- at every index of the array the entry that `mergesort_serial` leaves there.
pub mergesort_parallel_omp-serial :
    (first : ℕ → ℕ → Bool) (a t size threads : ℕ) (m : Arrays)
    → 0 < threads
    → (k : ℕ)
    → (mergesort_parallel_omp first a t size threads m).ints k
      ≡ (mergesort_serial a t size m).ints k
mergesort_parallel_omp-serial first a t size threads m pos k =
    let p = mergesort_parallel_omp-Sorts first a t size threads m pos in
    let s = mergesort_serial-Sorts a t size m in
    elim (lt_cases k a) [
      | inl before ↦ p.ints.low k before ∙ sym (s.ints.low k before)
      | inr from ↦ elim (lt_cases k (a + size)) [
        | inr after ↦ p.ints.high k after ∙ sym (s.ints.high k after)
        | inl within ↦
            (let here : a + (k - a) ≡ k = omega arith in
              rw here at (
                IsSorted-eq _ _ a size p.sorted s.sorted (λ x. p.same x ∙ sym (s.same x)) (k - a)
                  (omega arith)))
      ]
    ]
