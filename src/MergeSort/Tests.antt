-- ===== src/MergeSort/Tests.antt =====
-- The merge sort at concrete arrays.
use tythread.Base.{
  ℕ, ◌+◌, ◌-◌, ◌≡◌, refl, arith, Bool, true, List, [], ◌∷◌, ltb, if◌then◌else◌, ◌*◌, ◌↔◌, ◌≤◌,
}
use tythread.MergeSort.{
  Arrays, shift, insertion_sort, merge, mergesort_serial, mergesort_parallel_omp,
}
use tythread.MergeSort.Range.{Sorts}
use tythread.MergeSort.Parallel.{mergesort_parallel_omp-Sorts, mergesort_parallel_omp-serial}
use tythread.MergeSort.Driver.{
  Host, main, threads_set, sorted_arrays, check, run_omp, initialize, main-success,
}

-- The entries fall from 40.
abbrev falling : Arrays
falling = record { ints = λ i. 40 - i; temp = λ i. 0 }

-- Section one first where the number of threads is below 4.
abbrev some_order : ℕ → ℕ → Bool
some_order a threads = ltb threads 4

abbrev entries : (ℕ → ℕ) → List ℕ
entries f = f 0 ∷ f 1 ∷ f 2 ∷ f 3 ∷ f 4 ∷ []

abbrev halves : ℕ → ℕ
halves i = if◌then◌else◌ (ltb i 2) (3 + i) i

abbrev host : Host
host = record {
  argc = 3;
  size = 5;
  threads = 2;
  omp_get_num_procs = 4;
  omp_get_max_threads = λ set. 4;
  a_allocated = true;
  temp_allocated = true;
  memory = falling;
  rand = λ i. 11 - i * i;
  first = some_order;
}

insertion_sort-falling : entries (insertion_sort 0 5 (λ i. 9 - i)) ≡ 5 ∷ 6 ∷ 7 ∷ 8 ∷ 9 ∷ []
unfolding insertion_sort shift
insertion_sort-falling = refl

-- 3, 4 and 2, 3, 4.
merge-halves :
    entries (merge 0 0 5 (record { ints = halves; temp = λ i. 0 })).ints ≡ 2 ∷ 3 ∷ 3 ∷ 4 ∷ 4 ∷ []
unfolding merge
merge-halves = refl

main-host : main host ≡ 0
unfolding main threads_set sorted_arrays check run_omp initialize shift
main-host = refl

mergesort_parallel_omp-Sorts_example :
    Sorts 0 0 40 falling (mergesort_parallel_omp some_order 0 0 40 3 falling)
mergesort_parallel_omp-Sorts_example =
    mergesort_parallel_omp-Sorts some_order 0 0 40 3 falling (omega arith)

mergesort_parallel_omp-serial_example :
    (mergesort_parallel_omp some_order 0 0 40 3 falling).ints 7
    ≡ (mergesort_serial 0 0 40 falling).ints 7
mergesort_parallel_omp-serial_example =
    mergesort_parallel_omp-serial some_order 0 0 40 3 falling (omega arith) 7

main-success_example : (main host ≡ 0) ↔ (
    (host.argc ≡ 3)
    × (host.threads ≤ host.omp_get_max_threads (threads_set host))
    × (host.a_allocated ≡ true)
    × (host.temp_allocated ≡ true))
main-success_example = main-success host (omega arith)
