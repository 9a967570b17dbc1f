-- ===== src/MergeSort.antt =====
-- The merge sort of omp_merge_sort.c, which the repository times against its tasks. An `int` is read
-- as its distance from INT_MIN, since the code only compares and copies entries; a pointer into one of
-- the two arrays is its offset.
pub mod Driver
pub mod Halves
pub mod Insertion
pub mod Merging
pub mod Parallel
pub mod Range
pub mod Serial
mod Tests
pub mod Unique
pub mod Writes
use tythread.Base.{
  ℕ, zero, suc, ◌+◌, ◌-◌, ◌/◌, ◌≡◌, ◌==◌, Bool, true, false, ◌&&◌, ltb, leb, if◌then◌else◌, update,
}

-- The memory of the two arrays.
pub record Arrays : Type 0 where
  pub ints : ℕ → ℕ
  pub temp : ℕ → ℕ

-- `SMALL`.
abbrev pub small : ℕ
small = 32

-- The inner loop of `insertion_sort` at j + 1 and the write after it.
unfoldable pub shift : ℕ → ℕ → ℕ → (ℕ → ℕ) → ℕ → ℕ
shift v a zero f = update f (a + 0) v
shift v a (suc j) f =
    if leb (f (a + j)) v
    then update f (a + suc j) v
    else shift v a j (update f (a + suc j) (f (a + j)))

unfoldable pub insertion_sort : ℕ → ℕ → (ℕ → ℕ) → ℕ → ℕ
insertion_sort a zero f = f
insertion_sort a (suc i) f = let g = insertion_sort a i f in shift (g (a + i)) a i g

-- The variables of `merge`.
pub record Cursor : Type 0 where
  pub i1 : ℕ
  pub i2 : ℕ
  pub tempi : ℕ
  pub temp : ℕ → ℕ

-- `temp[tempi] = a[i1]; i1++; tempi++`.
unfoldable pub put_left : (ℕ → ℕ) → ℕ → ℕ → Cursor → Cursor
put_left f a t c = record {
  i1 = c.i1 + 1;
  i2 = c.i2;
  tempi = c.tempi + 1;
  temp = update c.temp (t + c.tempi) (f (a + c.i1));
}

-- `temp[tempi] = a[i2]; i2++; tempi++`.
unfoldable pub put_right : (ℕ → ℕ) → ℕ → ℕ → Cursor → Cursor
put_right f a t c = record {
  i1 = c.i1;
  i2 = c.i2 + 1;
  tempi = c.tempi + 1;
  temp = update c.temp (t + c.tempi) (f (a + c.i2));
}

-- The three loops of `merge`, with fuel.
unfoldable pub merge_both : ℕ → (ℕ → ℕ) → ℕ → ℕ → ℕ → Cursor → Cursor
unfolding put_left put_right
merge_both zero f a t size c = c
merge_both (suc fuel) f a t size c = elim (ltb c.i1 (size / 2) && ltb c.i2 size) [
  | true ↦
      merge_both fuel f a t size
        (if ltb (f (a + c.i1)) (f (a + c.i2)) then put_left f a t c else put_right f a t c)
  | false ↦ c
]

unfoldable pub merge_left : ℕ → (ℕ → ℕ) → ℕ → ℕ → ℕ → Cursor → Cursor
unfolding put_left
merge_left zero f a t size c = c
merge_left (suc fuel) f a t size c = elim (ltb c.i1 (size / 2)) [
  | true ↦ merge_left fuel f a t size (put_left f a t c)
  | false ↦ c
]

unfoldable pub merge_right : ℕ → (ℕ → ℕ) → ℕ → ℕ → ℕ → Cursor → Cursor
unfolding put_right
merge_right zero f a t size c = c
merge_right (suc fuel) f a t size c = elim (ltb c.i2 size) [
  | true ↦ merge_right fuel f a t size (put_right f a t c)
  | false ↦ c
]

-- `memcpy` of n ints.
unfoldable pub copy : (ℕ → ℕ) → ℕ → (ℕ → ℕ) → ℕ → ℕ → ℕ → ℕ
copy dst a src t n k = if leb a k && ltb k (a + n) then src (t + (k - a)) else dst k

abbrev pub cursor_start : ℕ → (ℕ → ℕ) → Cursor
cursor_start size temp = record { i1 = 0; i2 = size / 2; tempi = 0; temp = temp }

unfoldable pub merged : ℕ → ℕ → ℕ → Arrays → Cursor
unfolding merge_both merge_left merge_right
merged a t size m = merge_right (suc size) m.ints a t size (
    merge_left (suc size) m.ints a t size
      (merge_both (suc size) m.ints a t size (cursor_start size m.temp)))

unfoldable pub merge : ℕ → ℕ → ℕ → Arrays → Arrays
unfolding merged copy
merge a t size m =
    let c = merged a t size m in record { ints = copy m.ints a c.temp t size; temp = c.temp }

-- `mergesort_serial`, with fuel.
unfoldable pub serial : ℕ → ℕ → ℕ → ℕ → Arrays → Arrays
unfolding insertion_sort merge
serial zero a t size m = m
serial (suc fuel) a t size m = elim (leb size small) [
  | true ↦ record m { ints = insertion_sort a size m.ints }
  | false ↦
      merge a t size (serial fuel (a + size / 2) t (size - size / 2) (serial fuel a t (size / 2) m))
]

unfoldable pub mergesort_serial : ℕ → ℕ → ℕ → Arrays → Arrays
unfolding serial
mergesort_serial a t size m = serial (suc size) a t size m

-- `mergesort_parallel_omp`, with fuel. The two sections run in the order that `first` gives for their
-- offset and number of threads; with no thread the function prints an error and returns.
unfoldable pub parallel : (ℕ → ℕ → Bool) → ℕ → ℕ → ℕ → ℕ → ℕ → Arrays → Arrays
unfolding mergesort_serial merge
parallel first zero a t size threads m = m
parallel first (suc fuel) a t size threads m =
    let left = parallel first fuel a t (size / 2) (threads / 2) in
    let right =
      parallel first fuel (a + size / 2) (t + size / 2) (size - size / 2) (threads - threads / 2) in
    elim (threads == 1) [
      | true ↦ mergesort_serial a t size m
      | false ↦ elim (ltb 1 threads) [
        | true ↦ merge a t size (if first a threads then right (left m) else left (right m))
        | false ↦ m
      ]
    ]

unfoldable pub mergesort_parallel_omp : (ℕ → ℕ → Bool) → ℕ → ℕ → ℕ → ℕ → Arrays → Arrays
unfolding parallel
mergesort_parallel_omp first a t size threads m = parallel first (suc threads) a t size threads m
