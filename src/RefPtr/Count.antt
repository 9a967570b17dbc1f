-- ===== src/RefPtr/Count.antt =====
-- The counter of an object is the number of pointers to it, so that it lives while there is one.
use tythread.Base.{
  ℕ, ◌+◌, ◌-◌, ◌^◌, ◌≤◌, ◌<◌, ◌≡◌, refl, ap, ◌∙◌, inl, inr, arith, true, false, ◌==◌, if◌then◌else◌,
  eq_cases, update, update_self, update-ne, Ptr, null,
}
use tythread.RefPtr.Owners.{one_if, owners, owners-update, owners-bound, owner-counts}
use tythread.RefPtr.{Store, increase, decrease, drop, copy, assign_copy, move, assign_move}

-- Of each object the counter is the number of the n pointers to it, and if there is one it lives.
pub record IsCounted (n : ℕ) (s : Store) : Type 0 where
  pub counts : (p : Ptr) → 0 < p → s.counter p ≡ owners n s.handle p
  pub lives : (p : Ptr) → 0 < p → 0 < owners n s.handle p → s.alive p ≡ true

-- What the two operations do to each counter.
pub increase-counter :
    (q : Ptr) (s : Store) (p : Ptr)
    → 0 < p
    → s.counter p < 2 ^ 32 - 1
    → (increase q s).counter p ≡ s.counter p + one_if q p
unfolding increase
increase-counter q s p pos small = ground arith

decrease-counter :
    (q : Ptr) (s : Store) (p : Ptr)
    → 0 < p
    → s.counter p < 2 ^ 32
    → one_if q p ≤ s.counter p
    → (decrease q s).counter p + one_if q p ≡ s.counter p
unfolding decrease
decrease-counter q s p pos small some = ground arith

decrease-alive :
    (q : Ptr) (s : Store) (p : Ptr)
    → 0 < p
    → 0 < (decrease q s).counter p
    → s.alive p ≡ true
    → (decrease q s).alive p ≡ true
unfolding decrease
decrease-alive q s p pos some lives = ground arith

pub increase-alive : (q : Ptr) (s : Store) → (increase q s).alive ≡ s.alive
unfolding increase
increase-alive q s = ground arith

pub increase-handle : (q : Ptr) (s : Store) → (increase q s).handle ≡ s.handle
unfolding increase
increase-handle q s = ground arith

decrease-handle : (q : Ptr) (s : Store) → (decrease q s).handle ≡ s.handle
unfolding decrease
decrease-handle q s = ground arith

deleted-last :
    (q : Ptr) (s : Store) {n : ℕ}
    → 0 < q
    → s.counter q ≡ n
    → n < 2 ^ 32
    → (decrease q s).alive q ≡ (if n == 1 then false else s.alive q)
unfolding decrease
deleted-last q s {n} pos e small =
    let some_ptr : (q == null) ≡ false = ground arith in rw (some_ptr, e) (ground (arith))

one_if-le : (q p : Ptr) → one_if q p ≤ 1
one_if-le q p = ground arith

module _ (n : ℕ) (s : Store) (v : IsCounted n s) (small : n < 2 ^ 32 - 1) where
  -- A counter change that the pointers follow.
  pub counted :
      (s' : Store) (new old : Ptr)
      → ((p : Ptr) → 0 < p → s'.counter p + one_if old p ≡ s.counter p + one_if new p)
      → ((p : Ptr)
          → 0 < p
          → owners n s'.handle p + one_if old p ≡ owners n s.handle p + one_if new p)
      → ((p : Ptr) → 0 < p → 0 < s'.counter p → s.alive p ≡ true → s'.alive p ≡ true)
      → ((p : Ptr) → 0 < p → 0 < one_if new p → s.alive p ≡ true)
      → IsCounted n s'
  counted s' new old same moved keeps fresh =
      let counts : (p : Ptr) → 0 < p → s'.counter p ≡ owners n s'.handle p =
        λ p pos. omega (arith, same p pos, moved p pos, v.counts p pos) in
      record {
        counts = counts;
        lives = λ p pos some.
            keeps p pos (omega (arith, counts p pos)) (elim (eq_cases (one_if new p) 0) [
              | inl (_, none) ↦ v.lives p pos (omega (arith, moved p pos))
              | inr (_, one) ↦ fresh p pos (omega arith)
            ]);
      }

  module _ (h k : ℕ) (in_h : h < n) (in_k : k < n) where
    points : (p : Ptr) → 0 < p → 0 < one_if (s.handle k) p → s.alive p ≡ true
    points p pos one = v.lives p pos (omega (arith, owner-counts n k s.handle p in_k))

    room : (p : Ptr) → 0 < p → s.counter p < 2 ^ 32 - 1
    room p pos = omega (arith, v.counts p pos, owners-bound n s.handle p)

    up : (q p : Ptr) → 0 < p → (increase q s).counter p ≡ s.counter p + one_if q p
    up q p pos = increase-counter q s p pos (room p pos)

    owned : (p : Ptr) → 0 < p → one_if (s.handle h) p ≤ s.counter p
    owned p pos = omega (arith, v.counts p pos, owner-counts n h s.handle p in_h)

    down :
        (p : Ptr)
        → 0 < p
        → (decrease (s.handle h) s).counter p + one_if (s.handle h) p ≡ s.counter p
    down p pos = decrease-counter (s.handle h) s p pos (omega (arith, room p pos)) (owned p pos)

    no_null : (p : Ptr) → 0 < p → one_if null p ≡ 0
    no_null p pos = ground arith

    -- The pointer h takes over what k points to.
    taken :
        (p : Ptr)
        → 0 < p
        → owners n (update (update s.handle h (s.handle k)) k null) p + one_if (s.handle h) p
          ≡ owners n s.handle p + one_if null p
    taken p pos =
        let q = s.handle k in
        let there : update s.handle h q k ≡ q = elim (eq_cases k h) [
          | inl (_, e) ↦ ap (update s.handle h q) e ∙ update_self s.handle h q
          | inr (_, ne) ↦ update-ne s.handle h k q ne
        ] in
        let first = owners-update n h s.handle q p in_h in
        let second = owners-update n k (update s.handle h q) null p in_k in
        let given : one_if (update s.handle h q k) p ≡ one_if q p = ap (λ a. one_if a p) there in
        omega (arith, first, second, given)

    copied : IsCounted n (assign_copy h k s)
    unfolding assign_copy
    copied =
        let q = s.handle k in
        let s1 = increase q s in
        counted (assign_copy h k s) q (s.handle h)
          (λ p pos.
            (let less =
                decrease-counter (s.handle h) s1 p pos
                  (omega (arith, up q p pos, room p pos, one_if-le q p))
                  (omega (arith, up q p pos, owned p pos)) in
              omega (arith, less, up q p pos)))
          (λ p pos.
            rw (decrease-handle (s.handle h) s1, increase-handle q s)
              (owners-update n h s.handle q p in_h))
          (λ p pos some lives.
            decrease-alive (s.handle h) s1 p pos some (ap (λ f. f p) (increase-alive q s) ∙ lives))
          points

    moved_in : IsCounted n (assign_move h k s)
    unfolding assign_move
    moved_in =
        counted (assign_move h k s) null (s.handle h)
          (λ p pos. omega (arith, down p pos, no_null p pos))
          (λ p pos. rw (decrease-handle (s.handle h) s) (taken p pos))
          (λ p pos some lives. decrease-alive (s.handle h) s p pos some lives)
          (λ p pos one. absurd (omega (arith, no_null p pos)))

    -- Both assignments of one of n pointers to one of them, itself perhaps, keep the counters right and
    -- the objects that are pointed to alive, when n is below 2 ^ 32 - 1.
    pub assign-IsCounted : IsCounted n (assign_copy h k s) × IsCounted n (assign_move h k s)
    assign-IsCounted = (copied, moved_in)

    -- The destructor of one of n pointers, one that is not null, keeps the counters right and the objects that are still
    -- pointed to alive, and deletes an object when its last pointer goes, when n is below 2 ^ 32 - 1.
    pub drop-IsCounted :
        0 < s.handle h
        → IsCounted n (drop h s)
          × ((drop h s).alive (s.handle h)
              ≡ (if owners n s.handle (s.handle h) == 1 then false else s.alive (s.handle h)))
    unfolding drop
    drop-IsCounted real = (
      counted (drop h s) null (s.handle h) (λ p pos. omega (arith, down p pos, no_null p pos))
          (λ p pos. rw (decrease-handle (s.handle h) s) (owners-update n h s.handle null p in_h))
          (λ p pos some lives. decrease-alive (s.handle h) s p pos some lives)
          (λ p pos one. absurd (omega (arith, no_null p pos))),
      deleted-last (s.handle h) s real (v.counts (s.handle h) real)
          (omega (arith, owners-bound n s.handle (s.handle h))),
    )

    -- The copying and the moving constructor keep the counters right and the objects that are pointed
    -- to alive: of n pointers, fewer than 2 ^ 32 - 1, one that is not constructed yet, h, is made from k.
    pub construct-IsCounted :
        s.handle h ≡ null → IsCounted n (copy h k s) × IsCounted n (move h k s)
    unfolding copy move
    construct-IsCounted bare =
        let q = s.handle k in
        (
          counted (copy h k s) q null (λ p pos. omega (arith, up q p pos, no_null p pos))
              (λ p pos.
                rw (increase-handle q s)
                  (ground (arith, owners-update n h s.handle q p in_h, ap (λ a. one_if a p) bare)))
              (λ p pos some lives. ap (λ f. f p) (increase-alive q s) ∙ lives) points,
          counted (move h k s) null null (λ p pos. refl)
              (λ p pos. omega (arith, taken p pos, ap (λ a. one_if a p) bare))
              (λ p pos some lives. lives) (λ p pos one. absurd (omega (arith, no_null p pos))),
        )
