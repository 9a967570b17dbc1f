-- ===== src/Sum.antt =====
-- Sums over the first n members of a family: queues of threads, caches of a pool.
use tythread.Base.{
  ℕ, zero, suc, ◌+◌, ◌≤◌, ◌<◌, ◌≡◌, refl, sym, ap, ap₂, ◌∙◌, ◌≢◌, inl, inr, arith, eq_cases, update,
  update_self, update-ne,
}

unfoldable pub total : ℕ → (ℕ → ℕ) → ℕ
total zero f = 0
total (suc n) f = total n f + f n

pub total-same : (n : ℕ) (f g : ℕ → ℕ) → ((k : ℕ) → k < n → f k ≡ g k) → total n f ≡ total n g
unfolding total
total-same zero f g same = refl
total-same (suc n) f g same =
    ap₂ ◌+◌ (total-same n f g (λ k h. same k (omega arith))) (same n (omega arith))

pub total-zero : (n : ℕ) (f : ℕ → ℕ) → ((k : ℕ) → k < n → f k ≡ 0) → total n f ≡ 0
unfolding total
total-zero zero f none = refl
total-zero (suc n) f none =
    omega (arith, total-zero n f (λ k h. none k (omega arith)), none n (omega arith))

-- The families differ at i only.
pub total-one :
    (n i : ℕ) (f g : ℕ → ℕ)
    → i < n
    → ((k : ℕ) → k < n → k ≢ i → f k ≡ g k)
    → total n f + g i ≡ total n g + f i
unfolding total
total-one zero i f g h same = absurd (omega arith)
total-one (suc n) i f g h same = elim (eq_cases i n) [
  | inl (_, e) ↦
      (let below = total-same n f g (λ k b. same k (omega arith) (omega (arith, e))) in
        rw (e, below) (omega arith))
  | inr (_, ne) ↦
      (let below = total-one n i f g (omega arith) (λ k b. same k (omega arith)) in
        let top = same n (omega arith) (λ e. ne (sym e)) in omega (arith, below, top))
]

-- The families differ at i and j only, and one has more at i what it has less at j.
pub total-two :
    (n i j : ℕ) (f g : ℕ → ℕ)
    → i < n
    → j < n
    → i ≢ j
    → f i + f j ≡ g i + g j
    → ((k : ℕ) → k < n → k ≢ i → k ≢ j → f k ≡ g k)
    → total n f ≡ total n g
total-two n i j f g a b ne both same =
    let mid = update f i (g i) in
    let at_i : mid i ≡ g i = update_self f i (g i) in
    let at_j : mid j ≡ f j = update-ne f i j (g i) (λ e. ne (sym e)) in
    let first = total-one n i f mid a (λ k h off. sym (update-ne f i k (g i) off)) in
    let second = total-one n j mid g b (λ k h off. elim (eq_cases k i) [
      | inl (_, e) ↦ ap mid e ∙ at_i ∙ ap g (sym e)
      | inr (_, other) ↦ update-ne f i k (g i) other ∙ same k h other off
    ]) in
    omega (arith, first, second, at_i, at_j)

-- One member is at most the sum.
pub total-part : (n i : ℕ) (f : ℕ → ℕ) → i < n → f i ≤ total n f
unfolding total
total-part zero i f h = absurd (omega arith)
total-part (suc n) i f h = elim (eq_cases i n) [
  | inl (_, e) ↦ rw e (omega arith)
  | inr (_, ne) ↦ omega (arith, total-part n i f (omega arith))
]
