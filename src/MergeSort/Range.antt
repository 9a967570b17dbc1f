-- ===== src/MergeSort/Range.antt =====
-- Ranges of an array: their order, how often a value occurs, and what stays outside.
use tythread.Base.{
  ℕ, zero, suc, ◌+◌, ◌≤◌, ◌<◌, ◌≡◌, refl, sym, ap, ap₂, ◌∙◌, arith, ◌==◌, tick, update, update_self,
  update-ne, eq_cases, inl, inr,
}
use tythread.MergeSort.{Arrays}

-- The n entries from a on ascend.
abbrev pub IsSorted : (ℕ → ℕ) → ℕ → ℕ → Type 0
IsSorted f a n = (i j : ℕ) → i ≤ j → j < n → f (a + i) ≤ f (a + j)

-- How many of the n entries from a on are x.
unfoldable pub count : ℕ → (ℕ → ℕ) → ℕ → ℕ → ℕ
count x f a zero = 0
count x f a (suc n) = count x f a n + tick (f (a + n) == x)

-- The arrays agree outside of the n entries from a on.
pub record Keeps (a n : ℕ) (f g : ℕ → ℕ) : Type 0 where
  pub low : (k : ℕ) → k < a → g k ≡ f k
  pub high : (k : ℕ) → a + n ≤ k → g k ≡ f k

-- The n entries from a on become ascending, each value as often as before, and nothing else changes
-- but n entries of the other array from t on.
pub record Sorts (a t n : ℕ) (m m' : Arrays) : Type 0 where
  pub sorted : IsSorted m'.ints a n
  pub same : (x : ℕ) → count x m'.ints a n ≡ count x m.ints a n
  pub ints : Keeps a n m.ints m'.ints
  pub temp : Keeps t n m.temp m'.temp

pub Keeps-refl : (a n : ℕ) (f : ℕ → ℕ) → Keeps a n f f
Keeps-refl a n f = record { low = λ k h. refl; high = λ k h. refl }

pub Keeps-wider :
    (a n b l : ℕ) (f g : ℕ → ℕ) → b ≤ a → a + n ≤ b + l → Keeps a n f g → Keeps b l f g
Keeps-wider a n b l f g lo hi k = record {
  low = λ i h. k.low i (omega arith);
  high = λ i h. k.high i (omega arith);
}

pub Keeps-trans : (a n : ℕ) (f g h : ℕ → ℕ) → Keeps a n f g → Keeps a n g h → Keeps a n f h
Keeps-trans a n f g h p q = record {
  low = λ i b. q.low i b ∙ p.low i b;
  high = λ i b. q.high i b ∙ p.high i b;
}

pub Keeps-update : (a n k v : ℕ) (f : ℕ → ℕ) → a ≤ k → k < a + n → Keeps a n f (update f k v)
Keeps-update a n k v f lo hi = record {
  low = λ i h. update-ne f k i v (λ e. omega (arith, e));
  high = λ i h. update-ne f k i v (λ e. omega (arith, e));
}

pub count-same :
    (x : ℕ) (f g : ℕ → ℕ) (a n : ℕ)
    → ((i : ℕ) → i < n → f (a + i) ≡ g (a + i))
    → count x f a n ≡ count x g a n
unfolding count
count-same x f g a zero same = refl
count-same x f g a (suc n) same =
    ap₂ ◌+◌ (count-same x f g a n (λ i h. same i (omega arith)))
      (ap (λ v. tick (v == x)) (same n (omega arith)))

pub count-append :
    (x : ℕ) (f : ℕ → ℕ) (a m n : ℕ) → count x f a (n + m) ≡ count x f a m + count x f (a + m) n
unfolding count
count-append x f a m zero = let turn : zero + m ≡ m = omega arith in rw turn (omega arith)
count-append x f a m (suc n) =
    let here : a + (n + m) ≡ a + m + n = omega arith in
    let top = ap (λ k. tick (f k == x)) here in
    let rest = count-append x f a m n in
    let turn : suc n + m ≡ suc (n + m) = omega arith in rw turn (omega (arith, top, rest))

-- One entry of the range is overwritten.
pub count-update :
    (x : ℕ) (f : ℕ → ℕ) (a k v n : ℕ)
    → k < n
    → count x (update f (a + k) v) a n + tick (f (a + k) == x) ≡ count x f a n + tick (v == x)
unfolding count
count-update x f a k v zero h = absurd (omega arith)
count-update x f a k v (suc n) h = elim (eq_cases k n) [
  | inl (_, e) ↦
      (let below =
          count-same x (update f (a + k) v) f a n
            (λ i b. update-ne f (a + k) (a + i) v (λ c. omega (arith, e, c))) in
        let here : update f (a + k) v (a + n) ≡ v =
          ap (λ j. update f (a + k) v (a + j)) (sym e) ∙ update_self f (a + k) v in
        let top = ap (λ w. tick (w == x)) here in
        let old = ap (λ j. tick (f (a + j) == x)) e in omega (arith, below, top, old))
  | inr (_, ne) ↦
      (let rest = count-update x f a k v n (omega arith) in
        let top = ap (λ w. tick (w == x)) (update-ne f (a + k) (a + n) v (λ c. ne (omega arith))) in
        omega (arith, rest, top))
]

pub count-Keeps :
    (x : ℕ) (f g : ℕ → ℕ) (a n b l : ℕ) → Keeps b l f g → a + n ≤ b → count x g a n ≡ count x f a n
count-Keeps x f g a n b l k h = count-same x g f a n (λ i b. k.low (a + i) (omega arith))

pub count-Keeps_after :
    (x : ℕ) (f g : ℕ → ℕ) (a n b l : ℕ) → Keeps b l f g → b + l ≤ a → count x g a n ≡ count x f a n
count-Keeps_after x f g a n b l k h = count-same x g f a n (λ i b. k.high (a + i) (omega arith))

-- Two ranges with the same entries.
pub count-moved :
    (x : ℕ) (f g : ℕ → ℕ) (a b n : ℕ)
    → ((i : ℕ) → i < n → f (a + i) ≡ g (b + i))
    → count x f a n ≡ count x g b n
unfolding count
count-moved x f g a b zero same = refl
count-moved x f g a b (suc n) same =
    ap₂ ◌+◌ (count-moved x f g a b n (λ i h. same i (omega arith)))
      (ap (λ v. tick (v == x)) (same n (omega arith)))
