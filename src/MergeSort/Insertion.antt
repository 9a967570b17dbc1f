-- ===== src/MergeSort/Insertion.antt =====
-- `insertion_sort`: an entry moves down to its place in the ascending entries before it.
use tythread.Base.{
  tick, ℕ, zero, suc, ◌+◌, ◌≤◌, ◌<◌, ◌≡◌, ◌≢◌, refl, ap, ◌∙◌, arith, ◌==◌, leb, Bool-cases, update,
  update_self, update-ne, eq_cases, inl, inr,
}
use tythread.MergeSort.{shift, insertion_sort}
use tythread.MergeSort.Range.{
  IsSorted, count, Keeps, Keeps-refl, Keeps-trans, Keeps-wider, Keeps-update, count-update,
}

-- The n entries from a on ascend but for that at j, and those above j are not below v.
record Holed (f : ℕ → ℕ) (a j n v : ℕ) : Type 0 where
  off : (k l : ℕ) → k ≤ l → l < n → k ≢ j → l ≢ j → f (a + k) ≤ f (a + l)
  above : (k : ℕ) → j < k → k < n → v ≤ f (a + k)

module _ (a j v : ℕ) (f : ℕ → ℕ) where
  at_hole : (k : ℕ) → k ≡ j → update f (a + j) v (a + k) ≡ v
  at_hole k e = ap (λ i. update f (a + j) v (a + i)) e ∙ update_self f (a + j) v

  off_hole : (k : ℕ) → k ≢ j → update f (a + j) v (a + k) ≡ f (a + k)
  off_hole k ne = update-ne f (a + j) (a + k) v (λ e. ne (omega arith))

place-IsSorted :
    (a j n v : ℕ) (f : ℕ → ℕ)
    → Holed f a j n v
    → ((k : ℕ) → k < j → f (a + k) ≤ v)
    → IsSorted (update f (a + j) v) a n
place-IsSorted a j n v f holed under i l le b = elim (eq_cases i j) [
  | inl (_, e) ↦ elim (eq_cases l j) [
    | inl (_, e') ↦ omega (arith, at_hole a j v f i e, at_hole a j v f l e')
    | inr (_, ne') ↦
        omega (arith, at_hole a j v f i e, off_hole a j v f l ne', holed.above l (omega arith) b)
  ]
  | inr (_, ne) ↦ elim (eq_cases l j) [
    | inl (_, e') ↦
        omega (arith, off_hole a j v f i ne, at_hole a j v f l e', under i (omega arith))
    | inr (_, ne') ↦
        omega (arith, off_hole a j v f i ne, off_hole a j v f l ne', holed.off i l le b ne ne')
  ]
]

-- The entry before the hole moves into it.
move-Holed :
    (a j n v : ℕ) (f : ℕ → ℕ)
    → Holed f a (suc j) n v
    → v < f (a + j)
    → Holed (update f (a + suc j) (f (a + j))) a j n v
move-Holed a j n v f h lt =
    let into = at_hole a (suc j) (f (a + j)) f in
    let past = off_hole a (suc j) (f (a + j)) f in
    record {
      off = λ k l le b nk nl. elim (eq_cases k (suc j)) [
        | inl (_, e) ↦ elim (eq_cases l (suc j)) [
          | inl (_, e') ↦ omega (arith, into k e, into l e')
          | inr (_, ne') ↦
              omega
                (arith, into k e, past l ne', h.off j l (omega arith) b (λ c. omega (arith, c)) ne')
        ]
        | inr (_, ne) ↦ elim (eq_cases l (suc j)) [
          | inl (_, e') ↦ omega (
            arith,
            past k ne,
            into l e',
            h.off k j (omega arith) (omega arith) ne (λ c. omega (arith, c)),
          )
          | inr (_, ne') ↦ omega (arith, past k ne, past l ne', h.off k l le b ne ne')
        ]
      ];
      above = λ k lo b. elim (eq_cases k (suc j)) [
        | inl (_, e) ↦ omega (arith, into k e)
        | inr (_, ne) ↦ omega (arith, past k ne, h.above k (omega arith) b)
      ];
    }

shift-IsSorted : (v a j n : ℕ) (f : ℕ → ℕ) → j < n → Holed f a j n v → IsSorted (shift v a j f) a n
unfolding shift
shift-IsSorted v a zero n f b h = place-IsSorted a 0 n v f h (λ k lt. absurd (omega arith))
shift-IsSorted v a (suc j) n f b h = elim (Bool-cases (leb (f (a + j)) v)) [
  | inl e ↦
      (let le : f (a + j) ≤ v = ground arith in
        rw e (
          place-IsSorted a (suc j) n v f h (λ k lt. omega (
            arith,
            h.off k j (omega arith) (omega arith) (λ c. omega (arith, c)) (λ c. omega (arith, c)),
          ))))
  | inr e ↦
      (let lt : v < f (a + j) = ground arith in
        rw e (
          shift-IsSorted v a j n (update f (a + suc j) (f (a + j))) (omega arith)
            (move-Holed a j n v f h lt)))
]

shift-count :
    (x v a j n : ℕ) (f : ℕ → ℕ)
    → j < n
    → count x (shift v a j f) a n + tick (f (a + j) == x) ≡ count x f a n + tick (v == x)
unfolding shift
shift-count x v a zero n f b = count-update x f a 0 v n b
shift-count x v a (suc j) n f b = elim (Bool-cases (leb (f (a + j)) v)) [
  | inl e ↦ rw e (count-update x f a (suc j) v n b)
  | inr e ↦
      (let rest = shift-count x v a j n (update f (a + suc j) (f (a + j))) (omega arith) in
        let moved = count-update x f a (suc j) (f (a + j)) n b in
        let left =
          ap (λ w. tick (w == x)) (off_hole a (suc j) (f (a + j)) f j (λ c. omega (arith, c))) in
        rw e (omega (arith, rest, moved, left)))
]

shift-Keeps : (v a j n : ℕ) (f : ℕ → ℕ) → j < n → Keeps a n f (shift v a j f)
unfolding shift
shift-Keeps v a zero n f b = Keeps-update a n (a + 0) v f (omega arith) (omega arith)
shift-Keeps v a (suc j) n f b = elim (Bool-cases (leb (f (a + j)) v)) [
  | inl e ↦ rw e (Keeps-update a n (a + suc j) v f (omega arith) (omega arith))
  | inr e ↦ rw e (
      Keeps-trans a n f _ _ (Keeps-update a n (a + suc j) (f (a + j)) f (omega arith) (omega arith))
        (shift-Keeps v a j n (update f (a + suc j) (f (a + j))) (omega arith)))
]

pub insertion_sort-Keeps : (a n : ℕ) (f : ℕ → ℕ) → Keeps a n f (insertion_sort a n f)
unfolding insertion_sort
insertion_sort-Keeps a zero f = Keeps-refl a 0 f
insertion_sort-Keeps a (suc i) f =
    let g = insertion_sort a i f in
    Keeps-trans a (suc i) f g (shift (g (a + i)) a i g)
      (Keeps-wider a i a (suc i) f g (omega arith) (omega arith) (insertion_sort-Keeps a i f))
      (shift-Keeps (g (a + i)) a i (suc i) g (omega arith))

pub insertion_sort-IsSorted : (a n : ℕ) (f : ℕ → ℕ) → IsSorted (insertion_sort a n f) a n
unfolding insertion_sort
insertion_sort-IsSorted a zero f = λ i j le b. absurd (omega arith)
insertion_sort-IsSorted a (suc i) f =
    let g = insertion_sort a i f in
    shift-IsSorted (g (a + i)) a i (suc i) g (omega arith) (record {
      off = λ k l le b nk nl. insertion_sort-IsSorted a i f k l le (omega (arith, nl));
      above = λ k lo b. absurd (omega arith);
    })

pub insertion_sort-count :
    (x a n : ℕ) (f : ℕ → ℕ) → count x (insertion_sort a n f) a n ≡ count x f a n
unfolding insertion_sort count
insertion_sort-count x a zero f = refl
insertion_sort-count x a (suc i) f =
    let g = insertion_sort a i f in
    let placed = shift-count x (g (a + i)) a i (suc i) g (omega arith) in
    let top = ap (λ w. tick (w == x)) ((insertion_sort-Keeps a i f).high (a + i) (omega arith)) in
    omega (arith, placed, insertion_sort-count x a i f, top)
