-- ===== src/MergeSort/Driver.antt =====
-- `main` of omp_merge_sort.c: it checks its arguments, fills an array, sorts it and looks at the
-- result. What the system answers is a parameter; what is printed is left out.
use tythread.Base.{
  ℕ, zero, suc, ◌+◌, ◌-◌, ◌%◌, ◌^◌, ◌≤◌, ◌<◌, ◌≡◌, refl, ap, ◌↔◌, arith, Bool, true, false, not,
  ◌&&◌, ◌==◌, leb, ltb, if◌then◌else◌, update, Option, none, some, inl, inr, lt_cases,
}
use tythread.MergeSort.{Arrays, mergesort_parallel_omp}
use tythread.MergeSort.Range.{IsSorted}
use tythread.MergeSort.Parallel.{mergesort_parallel_omp-Sorts}

-- The arguments as `atoi` reads them, for sizes and numbers of threads that are not negative, and the
-- answers of OpenMP, of `malloc` and of `rand`. `omp_get_max_threads` depends on the number that was
-- set before, if any.
pub record Host : Type 0 where
  pub argc : ℕ
  pub size : ℕ
  pub threads : ℕ
  pub omp_get_num_procs : ℕ
  pub omp_get_max_threads : Option ℕ → ℕ
  pub a_allocated : Bool
  pub temp_allocated : Bool
  pub memory : Arrays
  pub rand : ℕ → ℕ
  pub first : ℕ → ℕ → Bool

-- `rand () % size` as its distance from INT_MIN.
unfoldable pub random_entry : Host → ℕ → ℕ
random_entry h i = 2 ^ 31 + h.rand i % h.size

unfoldable pub initialize : Host → ℕ → (ℕ → ℕ) → ℕ → ℕ
unfolding random_entry
initialize h zero f = f
initialize h (suc i) f = update (initialize h i f) i (random_entry h i)

-- The result check, for the given number of rounds from i on.
unfoldable pub check : ℕ → ℕ → (ℕ → ℕ) → Bool
check zero i f = true
check (suc n) i f = elim (leb (f (i - 1)) (f i)) [ true ↦ check n (i + 1) f | false ↦ false ]

unfoldable pub run_omp : Host → ℕ → ℕ → Arrays → Arrays
unfolding mergesort_parallel_omp
run_omp h a t m = mergesort_parallel_omp h.first a t h.size h.threads m

-- The number of threads that `main` sets.
unfoldable pub threads_set : Host → Option ℕ
threads_set h = if ltb h.omp_get_num_procs h.threads then some h.threads else none

unfoldable pub sorted_arrays : Host → Arrays
unfolding initialize run_omp
sorted_arrays h = run_omp h 0 0 (record h.memory { ints = initialize h h.size h.memory.ints })

-- The exit status.
unfoldable pub main : Host → ℕ
main h =
    if not (h.argc == 3)
    then 1
    else if ltb (h.omp_get_max_threads (threads_set h)) h.threads
    then 1
    else if not (h.a_allocated && h.temp_allocated)
    then 1
    else if check (h.size - 1) 1 (sorted_arrays h).ints
    then 0
    else 1

-- An ascending array passes the check.
check-sorted : (n i : ℕ) (f : ℕ → ℕ) → ((k : ℕ) → k < i + n → f (k - 1) ≤ f k) → check n i f ≡ true
unfolding check
check-sorted zero i f h = refl
check-sorted (suc n) i f h =
    let test : leb (f (i - 1)) (f i) ≡ true = ground (arith, h i) in
    rw (test, check) (check-sorted n (i + 1) f (λ k b. h k (omega arith)))

check-IsSorted : (n : ℕ) (f : ℕ → ℕ) → IsSorted f 0 n → check (n - 1) 1 f ≡ true
check-IsSorted n f sorted = check-sorted (n - 1) 1 f (λ k b. elim (lt_cases 0 k) [
  | inr at_first ↦ (let same : k - 1 ≡ k = omega arith in omega (arith, ap f same))
  | inl pos ↦
      (let lower : 0 + (k - 1) ≡ k - 1 = omega arith in
        let upper : 0 + k ≡ k = omega arith in
        omega (arith, sorted (k - 1) k (omega arith) (omega arith), ap f lower, ap f upper))
])

sorted_arrays-IsSorted : (h : Host) → 0 < h.threads → IsSorted (sorted_arrays h).ints 0 h.size
unfolding sorted_arrays run_omp
sorted_arrays-IsSorted h pos =
    (mergesort_parallel_omp-Sorts h.first 0 0 h.size h.threads
      (record h.memory { ints = initialize h h.size h.memory.ints }) pos).sorted

-- Run with at least one thread, `main` exits with status 0 exactly when it has its two arguments, may
-- use the threads, and both arrays are allocated: the result check then never fails.
pub main-success :
    (h : Host)
    → 0 < h.threads
    → (main h ≡ 0) ↔ (
        (h.argc ≡ 3)
        × (h.threads ≤ h.omp_get_max_threads (threads_set h))
        × (h.a_allocated ≡ true)
        × (h.temp_allocated ≡ true))
unfolding main
main-success h pos =
    let passes = check-IsSorted h.size (sorted_arrays h).ints (sorted_arrays-IsSorted h pos) in
    (λ e. ground arith, λ (a, b, c, d). ground arith)
