-- ===== src/Scheduler/Sum.antt =====
-- Sums over lists of tasks.
use tythread.Base.{
  times, ℕ, ◌+◌, ◌<◌, ◌≡◌, refl, inl, inr, arith, List, [], ◌∷◌, ◌++◌, eq_cases, ◌==◌,
  if◌then◌else◌, Ptr, Absent, length,
}
use tythread.Scheduler.{erase}

unfoldable pub weight : (Ptr → ℕ) → List Ptr → ℕ
weight g [] = 0
weight g (x ∷ xs) = g x + weight g xs

pub weight-++ : (g : Ptr → ℕ) (xs ys : List Ptr) → weight g (xs ++ ys) ≡ weight g xs + weight g ys
unfolding weight
weight-++ g [] ys = omega arith
weight-++ g (x ∷ xs) ys = omega (arith, weight-++ g xs ys)

pub weight-one : (g : Ptr → ℕ) (x : Ptr) → weight g (x ∷ []) ≡ g x
unfolding weight
weight-one g x = omega arith

pub weight-length : (xs : List Ptr) → weight (λ x. 1) xs ≡ length xs
unfolding weight
weight-length [] = refl
weight-length (x ∷ xs) = omega (arith, weight-length xs)

-- One for the task a, nothing for the others.
abbrev pub mark : Ptr → Ptr → ℕ
mark a x = if x == a then 1 else 0

pub weight-times : (a : Ptr) (xs : List Ptr) → weight (mark a) xs ≡ times a xs
unfolding weight
weight-times a [] = refl
weight-times a (x ∷ xs) = ground (arith, weight-times a xs)

pub times-Absent : (a : Ptr) (xs : List Ptr) → times a xs ≡ 0 → Absent a xs
times-Absent a [] e = tt
times-Absent a (x ∷ xs) e = (ground arith, times-Absent a xs (ground arith))

pub Absent-times : (a : Ptr) (xs : List Ptr) → Absent a xs → times a xs ≡ 0
Absent-times a [] h = refl
Absent-times a (x ∷ xs) (ne, h) = ground (arith, Absent-times a xs h)

pub weight-erase :
    (g : Ptr → ℕ) (p : Ptr) (xs : List Ptr)
    → 0 < times p xs
    → weight g xs ≡ g p + weight g (erase p xs)
unfolding weight
weight-erase g p [] h = absurd (omega arith)
weight-erase g p (x ∷ xs) h = elim (eq_cases x p) [
  | inl (test, e) ↦ rw test (rw e refl)
  | inr (test, ne) ↦ ground (arith, weight-erase g p xs)
]
