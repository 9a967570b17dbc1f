-- ===== src/RefPtr/Owners.antt =====
-- How many of the pointers of a store (RefPtr.Store) point to an object.
use tythread.Base.{
  ℕ, zero, suc, ◌+◌, ◌≤◌, ◌<◌, ◌≡◌, refl, inl, inr, arith, ◌==◌, if◌then◌else◌, eq_cases, update,
  update_self, update-ne, Ptr,
}

abbrev pub one_if : Ptr → Ptr → ℕ
one_if q p = if q == p then 1 else 0

-- How many of the first n pointers point to p.
unfoldable pub owners : ℕ → (ℕ → Ptr) → Ptr → ℕ
owners zero handle p = 0
owners (suc n) handle p = owners n handle p + one_if (handle n) p

pub owners-bound : (n : ℕ) (handle : ℕ → Ptr) (p : Ptr) → owners n handle p ≤ n
unfolding owners
owners-bound zero handle p = omega arith
owners-bound (suc n) handle p = ground (arith, owners-bound n handle p)

owners-else :
    (n h : ℕ) (handle : ℕ → Ptr) (v p : Ptr)
    → n ≤ h
    → owners n (update handle h v) p ≡ owners n handle p
unfolding owners
owners-else zero h handle v p le = refl
owners-else (suc n) h handle v p le =
    rw (owners-else n h handle v p (omega arith), update-ne handle h n v (omega arith)) refl

pub owners-update :
    (n h : ℕ) (handle : ℕ → Ptr) (v p : Ptr)
    → h < n
    → owners n (update handle h v) p + one_if (handle h) p ≡ owners n handle p + one_if v p
unfolding owners
owners-update zero h handle v p lt = absurd (omega arith)
owners-update (suc n) h handle v p lt = elim (eq_cases n h) [
  | inl (_, e) ↦
      rw (e, update_self handle h v, owners-else h h handle v p (omega arith)) (omega arith)
  | inr (_, ne) ↦
      rw (update-ne handle h n v ne) (omega (arith, owners-update n h handle v p (omega arith)))
]

pub owner-counts :
    (n h : ℕ) (handle : ℕ → Ptr) (p : Ptr) → h < n → one_if (handle h) p ≤ owners n handle p
unfolding owners
owner-counts zero h handle p lt = absurd (omega arith)
owner-counts (suc n) h handle p lt = elim (eq_cases n h) [
  | inl (_, e) ↦ rw e (omega arith)
  | inr (_, ne) ↦ omega (arith, owner-counts n h handle p (omega arith))
]
