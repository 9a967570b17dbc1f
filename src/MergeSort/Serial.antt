-- ===== src/MergeSort/Serial.antt =====
-- `mergesort_serial` sorts.
use tythread.Base.{ℕ, zero, suc, ◌+◌, ◌-◌, ◌/◌, ◌<◌, arith, Bool-cases, leb, inl, inr}
use tythread.MergeSort.{Arrays, serial, mergesort_serial, small}
use tythread.MergeSort.Range.{Sorts, Keeps-refl}
use tythread.MergeSort.Insertion.{
  insertion_sort-IsSorted, insertion_sort-count, insertion_sort-Keeps,
}
use tythread.MergeSort.Halves.{serial_halves-Sorts}

serial-Sorts :
    (fuel a t size : ℕ) (m : Arrays) → size < fuel → Sorts a t size m (serial fuel a t size m)
unfolding serial
serial-Sorts zero a t size m b = absurd (omega arith)
serial-Sorts (suc fuel) a t size m b = elim (Bool-cases (leb size small)) [
  | inl e ↦
      rw (e, serial)
        (record {
          sorted = insertion_sort-IsSorted a size m.ints;
          same = λ x. insertion_sort-count x a size m.ints;
          ints = insertion_sort-Keeps a size m.ints;
          temp = Keeps-refl t size m.temp;
        })
  | inr e ↦
      (let large : small < size = ground arith in
        let one = serial fuel a t (size / 2) m in
        rw (e, serial)
          (serial_halves-Sorts a t size (serial-Sorts fuel a t (size / 2) m (omega arith))
            (serial-Sorts fuel (a + size / 2) t (size - size / 2) one (omega arith))))
]

-- `mergesort_serial` on the size entries from a on, with the temporary array from t on: the entries
-- come to ascend, every value occurs among them as often as before, and all that it changes besides
-- is at most size entries of the temporary array from t on.
pub mergesort_serial-Sorts :
    (a t size : ℕ) (m : Arrays) → Sorts a t size m (mergesort_serial a t size m)
unfolding mergesort_serial
mergesort_serial-Sorts a t size m = serial-Sorts (suc size) a t size m (omega arith)
